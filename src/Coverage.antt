-- ===== src/Coverage.antt =====
-- crates/hwatud/src/coverage.rs: the bounded crawl of a site.
pub mod Hosts
pub mod Scout
mod Tests
