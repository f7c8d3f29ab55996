-- ===== src/Pager.antt =====
-- The pager (src/pager).
pub mod Command
pub mod Index
pub mod Buffer
pub mod Read
pub mod Presentation
pub mod Images
pub mod Pages
pub mod Take
pub mod Snapshot
mod Indexed
mod Extended
mod InBounds
mod Bounds
mod Seen
mod Parts
mod Shown
mod Moves
mod Tests
