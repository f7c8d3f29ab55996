-- ===== src/Capture/Utf8.antt =====
-- Which bytes of a stream of UTF-8 are complete (`flushable_prefix_len` of src/output_capture.rs).
pub mod Decode
pub mod Stream
pub mod Agree
