-- ===== src/Capture/Timeline.antt =====
-- `OutputTimeline` and `OutputBuffer` of src/output_capture.rs.
pub mod State
pub mod Buffer
pub mod Drain
pub mod Window
pub mod Run
mod Tests
