-- ===== src/Capture/Tails.antt =====
-- The queue of output entries that wait for the rest of a character (src/output_capture.rs).
pub mod Queue
pub mod Conserve
pub mod Sealed
pub mod Gaps
pub mod Streams
pub mod Sizes
mod Tests
