-- ===== src/Verify.antt =====
-- crates/hwatud/src/verify.rs: the measuring half of verification (resize, pixel diff, regions).
pub mod Resize
pub mod Frames
pub mod Regions
mod Tests
