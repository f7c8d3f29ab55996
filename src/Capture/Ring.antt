-- ===== src/Capture/Ring.antt =====
-- `OutputRing` of src/output_capture.rs.
pub mod State
pub mod Room
pub mod Append
pub mod Events
pub mod Text
pub mod Consume
pub mod Read
pub mod Invariant
pub mod Cleanup
pub mod Trim
pub mod Contents
pub mod MakeRoom
pub mod Grow
pub mod GrowText
pub mod TrimTail
pub mod GrowHead
pub mod Consumed
pub mod ConsumedText
pub mod Preserve
pub mod Run
pub mod RoomText
pub mod Extend
pub mod Window
pub mod EventWindow
pub mod ReadBack
