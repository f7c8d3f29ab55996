-- ===== src/Stdin.antt =====
-- The input queue of the Python session (src/python_input_queue.rs), and the control prefixes of input
-- (src/stdin_payload.rs).
pub mod Queue
pub mod Reads
pub mod Control
pub mod Plan
mod Tests
