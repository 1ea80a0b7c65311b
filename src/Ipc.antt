-- ===== src/Ipc.antt =====
-- crates/ipc/src/lib.rs: the wire protocol that the client and the daemon share.
pub mod Frame
pub mod Endpoints
pub mod Values
pub mod Requests
mod Tests
