-- ===== src/Render.antt =====
-- Output ranges as the contents of replies (src/resolved_output.rs, src/worker_protocol.rs).
pub mod Content
pub mod Bytes
pub mod Push
pub mod Emit
pub mod Events
pub mod Labels
mod Adding
pub mod Labelling
mod Labelled
mod Tests
