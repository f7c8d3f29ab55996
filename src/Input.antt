-- ===== src/Input.antt =====
-- The input gate of the server's IPC connection (src/input_state.rs).
pub mod State
pub mod Trace
mod Tests
