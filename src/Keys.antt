-- ===== src/Keys.antt =====
-- crates/hwatud/src/keys.rs: key bindings.
pub mod Actions
pub mod Chords
pub mod Keymap
mod Tests
