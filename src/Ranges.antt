-- ===== src/Ranges.antt =====
-- Sets of seen offset ranges of the pager (src/pager/ranges.rs).
pub mod Set
pub mod Insert
pub mod Query
mod Tests
