-- ===== src/Capture.antt =====
-- The output timeline (src/output_capture.rs).
pub mod Types
pub mod Utf8
pub mod Tails
pub mod Ring
pub mod Timeline
mod Tests
