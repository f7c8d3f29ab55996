-- ===== src/Replies.antt =====
-- Replies to requests: the pending output tape, and how a reply is put together.
pub mod Tape
pub mod Presentation
pub mod Completion
pub mod Snapshot
mod Prompts
mod Final
mod Tests
