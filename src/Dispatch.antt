-- ===== src/Dispatch.antt =====
-- crates/hwatud/src/ipc_server.rs: the dispatch of requests.
pub mod Batch
pub mod Gate
mod Tests
