-- ===== src/Capture/Types.antt =====
-- The data of the output timeline: src/worker_protocol.rs, src/resolved_output.rs, and the chunks
-- and events of src/output_capture.rs. A byte is a number; a `String` is its UTF-8 bytes.
pub use mcp_repl.Prelude.{codes, chars_eq as bytes_eq}
use mcp_repl.Prelude.{not, ℕ, ◌-◌, Bool, true, false, List, length, take, drop, saturating_add}

abbrev pub Bytes : Type 0
Bytes = List ℕ

pub data ContentOrigin : Type 0 where
  worker server : ContentOrigin

pub data OutputTextSource : Type 0 where
  raw ipc : OutputTextSource

abbrev pub bool_eq : Bool → Bool → Bool
bool_eq true b = b
bool_eq false b = not b

abbrev pub origin_eq : ContentOrigin → ContentOrigin → Bool
origin_eq worker worker = true
origin_eq server server = true
origin_eq _ _ = false

abbrev pub source_eq : OutputTextSource → OutputTextSource → Bool
source_eq raw raw = true
source_eq ipc ipc = true
source_eq _ _ = false

pub data OutputEventKind : Type 0 where
  -- id, data, mime_type, is_new
  image : Bytes → Bytes → Bytes → Bool → OutputEventKind
  -- text, is_stderr, origin
  text : Bytes → Bool → ContentOrigin → OutputEventKind
  input_echo : Bytes → OutputEventKind
  input_wait : OutputEventKind
  request_boundary : OutputEventKind
  session_end : OutputEventKind

pub record OutputEvent : Type 0 where
  pub offset : ℕ
  pub kind : OutputEventKind

-- `range` is the part of `bytes` that is still in the ring.
pub record OutputChunk : Type 0 where
  pub start_offset : ℕ
  pub bytes : Bytes
  pub range_start : ℕ
  pub range_end : ℕ
  pub is_stderr : Bool
  pub origin : ContentOrigin
  pub source : OutputTextSource

-- `chunk.range.len()`.
abbrev pub chunk_len : OutputChunk → ℕ
chunk_len c = c.range_end - c.range_start

-- `&chunk.bytes[chunk.range]`.
abbrev pub chunk_bytes : OutputChunk → Bytes
chunk_bytes c = take (chunk_len c) (drop c.range_start c.bytes)

-- `chunk.start_offset.saturating_add(chunk.range.len())`.
abbrev pub chunk_end : OutputChunk → ℕ
chunk_end c = saturating_add c.start_offset (chunk_len c)

abbrev pub is_input_echo : OutputEventKind → Bool
is_input_echo (input_echo t) = true
is_input_echo _ = false

unfoldable pub event_size_bytes : OutputEventKind → ℕ
event_size_bytes (image id payload mime_type is_new) =
    saturating_add (saturating_add (saturating_add (length payload) (length mime_type)) (length id))
      32
event_size_bytes (text t is_stderr origin) = saturating_add (length t) 16
event_size_bytes (input_echo t) = saturating_add (length t) 16
event_size_bytes input_wait = 0
event_size_bytes request_boundary = 0
event_size_bytes session_end = 0

unfoldable pub output_truncation_notice : Bytes
output_truncation_notice = codes "[repl] output truncated (older output dropped)\n"

unfoldable pub output_omission_notice : Bytes
output_omission_notice = codes "[repl] output omitted (later content omitted)\n"
