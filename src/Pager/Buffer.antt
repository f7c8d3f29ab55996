-- ===== src/Pager/Buffer.antt =====
-- `PagerBuffer` of src/pager/mod.rs: how output enters it.
use mcp_repl.Prelude.{
  ℕ, ◌-◌, min, max, ltb, leb, Bool, true, ◌&&◌, ◌||◌, if◌then◌else◌, List, [], ◌∷◌, ◌++◌, length,
  take, drop, is_empty, saturating_add, codes, decimal,
}
use mcp_repl.Capture.Types.{
  Bytes, ContentOrigin, server, OutputEvent, OutputEventKind, image, text, input_echo, input_wait,
  request_boundary, session_end,
}
use mcp_repl.Capture.Ring.Read.{OutputRange, OutputTextSpan}
use mcp_repl.Pager.Index.{
  build_char_index, extend_char_index, extend_source_offsets, char_len, char_offset_for_byte_index,
  line_end_offsets,
}

-- Its offset counts characters.
pub record PagerEvent : Type 0 where
  pub offset : ℕ
  pub kind : OutputEventKind

pub record PagerTextSpan : Type 0 where
  pub start : ℕ
  pub end : ℕ
  pub is_stderr : Bool
  pub origin : ContentOrigin

pub record PagerBuffer : Type 0 where
  pub bytes : Bytes
  pub char_to_byte : List ℕ
  pub source_offsets : List ℕ
  pub line_ends : List ℕ
  pub cursor : ℕ
  pub events : List PagerEvent
  pub text_spans : List PagerTextSpan
  pub source_end : ℕ

unfoldable pub empty_at : ℕ → PagerBuffer
empty_at source_offset = record {
  bytes = [];
  char_to_byte = 0 ∷ [];
  source_offsets = source_offset ∷ [];
  line_ends = [];
  cursor = 0;
  events = [];
  text_spans = [];
  source_end = source_offset;
}

-- `len`: the characters.
unfoldable pub len : PagerBuffer → ℕ
len buffer = char_len buffer.char_to_byte

unfoldable pub append_bytes_with_source_offsets : Bytes → (ℕ → ℕ) → PagerBuffer → PagerBuffer
append_bytes_with_source_offsets bytes source_offset_for_byte buffer =
    let chunk_index = build_char_index bytes in
    if is_empty bytes then buffer else record buffer {
      bytes = buffer.bytes ++ bytes;
      char_to_byte = extend_char_index buffer.char_to_byte chunk_index (length buffer.bytes);
      source_offsets =
          extend_source_offsets buffer.source_offsets chunk_index source_offset_for_byte;
      line_ends = buffer.line_ends ++ line_end_offsets bytes chunk_index (len buffer);
    }

unfoldable pub append_bytes_at_source_offset : Bytes → ℕ → PagerBuffer → PagerBuffer
append_bytes_at_source_offset bytes source_offset buffer =
    append_bytes_with_source_offsets bytes (λ _. source_offset) buffer

unfoldable pub append_text_at_source_offset :
    Bytes → ℕ → Bool → ContentOrigin → PagerBuffer → PagerBuffer
append_text_at_source_offset bytes source_offset is_stderr origin buffer =
    let after = append_bytes_at_source_offset bytes source_offset buffer in
    let span : PagerTextSpan = record {
      start = len buffer;
      end = len after;
      is_stderr = is_stderr;
      origin = origin;
    } in
    if ltb (len buffer) (len after)
    then record after { text_spans = after.text_spans ++ (span ∷ []) }
    else after

-- The spans of a slice, in characters from `old_char_len` on.
unfoldable pub slice_spans : ℕ → ℕ → ℕ → List ℕ → List OutputTextSpan → List PagerTextSpan
slice_spans start end old_char_len index [] = []
slice_spans start end old_char_len index (span ∷ spans) =
    let rest = slice_spans start end old_char_len index spans in
    let span_start = max span.start_byte start - start in
    let span_end = min span.end_byte end - start in
    if leb span.end_byte start || leb end span.start_byte
    then rest
    else if leb span_end span_start
    then rest
    else record {
      start = saturating_add old_char_len (char_offset_for_byte_index index span_start);
      end = saturating_add old_char_len (char_offset_for_byte_index index span_end);
      is_stderr = span.is_stderr;
      origin = span.origin;
    }
      ∷ rest

unfoldable pub append_raw_slice :
    Bytes → ℕ → ℕ → ℕ → List OutputTextSpan → PagerBuffer → PagerBuffer
append_raw_slice bytes start end source_base_offset text_spans buffer =
    let slice = take (end - start) (drop start bytes) in
    let after =
      append_bytes_with_source_offsets slice
        (λ byte_offset. saturating_add source_base_offset (saturating_add start byte_offset))
        buffer in
    if leb end start || ltb (length bytes) end then buffer else record after {
      text_spans =
          after.text_spans
          ++ slice_spans start end (len buffer) (build_char_index slice) text_spans;
    }

unfoldable pub push_event : OutputEventKind → PagerBuffer → PagerBuffer
push_event kind buffer = record buffer {
  events = buffer.events ++ (record { offset = len buffer; kind = kind } ∷ []);
}

-- The `match` on the event's kind.
unfoldable pub append_event : ℕ → OutputEventKind → PagerBuffer → PagerBuffer
append_event offset (text t is_stderr origin) buffer =
    append_text_at_source_offset t offset is_stderr origin buffer
append_event offset (input_echo echo) buffer = push_event (input_echo echo) buffer
append_event offset (image id payload mime_type is_new) buffer =
    push_event (image id payload mime_type is_new) buffer
append_event offset input_wait buffer = push_event input_wait buffer
append_event offset request_boundary buffer = push_event request_boundary buffer
append_event offset session_end buffer = push_event session_end buffer

-- A stable sort by offset: `sort_by_key` with the offset and the index.
unfoldable pub insert_event : OutputEvent → List OutputEvent → List OutputEvent
insert_event e [] = e ∷ []
insert_event e (x ∷ xs) =
    let rest = insert_event e xs in if leb e.offset x.offset then e ∷ x ∷ xs else x ∷ rest

unfoldable pub sort_events : List OutputEvent → List OutputEvent
sort_events [] = []
sort_events (e ∷ es) = insert_event e (sort_events es)

unfoldable pub events_within : ℕ → ℕ → List OutputEvent → List OutputEvent
events_within start_offset end_offset [] = []
events_within start_offset end_offset (e ∷ es) =
    let rest = events_within start_offset end_offset es in
    if leb start_offset e.offset && leb e.offset end_offset then e ∷ rest else rest

-- The loop over the events, from byte `at` on, and the slice after the last.
unfoldable pub append_events : OutputRange → ℕ → List OutputEvent → PagerBuffer → PagerBuffer
append_events range at [] buffer =
    append_raw_slice range.bytes at (length range.bytes) range.start_offset range.text_spans buffer
append_events range at (e ∷ es) buffer =
    let relative = min (e.offset - range.start_offset) (length range.bytes) in
    append_events range relative es (
      append_event e.offset e.kind
        (append_raw_slice range.bytes at relative range.start_offset range.text_spans buffer))

unfoldable pub append_gap_notice : ℕ → PagerBuffer → PagerBuffer
append_gap_notice start_offset buffer =
    let notice =
      codes "[pager] output gap detected ("
      ++ (decimal (start_offset - buffer.source_end) ++ codes " bytes skipped)\n") in
    let after = append_text_at_source_offset notice buffer.source_end true server buffer in
    if ltb buffer.source_end start_offset
    then record after { source_end = start_offset }
    else buffer

unfoldable pub append_timeline_range : OutputRange → PagerBuffer → PagerBuffer
append_timeline_range range buffer =
    let noted = append_gap_notice range.start_offset buffer in
    let events = sort_events (events_within range.start_offset range.end_offset range.events) in
    let after = append_events range 0 events noted in
    if is_empty range.bytes && is_empty range.events
    then record noted { source_end = max noted.source_end range.end_offset }
    else record after { source_end = max range.end_offset after.source_end }

unfoldable pub from_timeline_range : OutputRange → PagerBuffer
from_timeline_range range = append_timeline_range range (empty_at range.start_offset)
