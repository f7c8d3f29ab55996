-- ===== src/Capture/Ring/Append.antt =====
-- `OutputRing` of src/output_capture.rs: appending text and events.
use mcp_repl.Prelude.{
  ℕ, ◌+◌, ◌*◌, ◌/◌, min, max, ltb, leb, ◌==◌, Bool, true, false, not, ◌||◌, if◌then◌else◌, List, [],
  ◌∷◌, ◌++◌, is_empty, length, saturating_add,
}
use mcp_repl.Capture.Types.{
  Bytes, OutputEventKind, text, ContentOrigin, server, OutputTextSource, event_size_bytes,
  output_truncation_notice, output_omission_notice,
}
use mcp_repl.Capture.Ring.State.{
  OutputRingInner, empty_inner, is_over, note_progress, has_omission_notice,
}
use mcp_repl.Capture.Ring.Room.{make_room_for, trim_tail_for_room, retained_end_offset}

pub data OutputRetention : Type 0 where
  tail head : OutputRetention

pub record OutputRing : Type 0 where
  pub capacity_bytes : ℕ
  pub retention : OutputRetention
  pub inner : OutputRingInner

abbrev pub is_head : OutputRetention → Bool
is_head head = true
is_head tail = false

unfoldable pub with_retention : ℕ → OutputRetention → OutputRing
with_retention capacity retention = record {
  capacity_bytes = capacity;
  retention = retention;
  inner = empty_inner;
}

-- `capacity.max(1).saturating_div(16).clamp(1, 8 * 1024)`.
unfoldable pub output_ring_append_chunk_len : ℕ → ℕ
output_ring_append_chunk_len capacity = min (max (max capacity 1 / 16) 1) (8 * 1024)

-- The offsets just past each newline of `bytes`, whose first byte is at `offset`.
unfoldable pub newline_ends : ℕ → Bytes → List ℕ
newline_ends offset [] = []
newline_ends offset (b ∷ bs) =
    let rest = newline_ends (offset + 1) bs in
    if b == b'\n' then saturating_add offset 1 ∷ rest else rest

unfoldable pub append_chunk_locked :
    Bytes → Bool → ContentOrigin → OutputTextSource → OutputRingInner → OutputRingInner
append_chunk_locked bytes is_stderr origin source g = if is_empty bytes then g else record g {
  end_offset = saturating_add g.end_offset (length bytes);
  buffered_bytes = saturating_add g.buffered_bytes (length bytes);
  line_ends = g.line_ends ++ newline_ends g.end_offset bytes;
  chunks =
      g.chunks
      ++ (record {
        start_offset = g.end_offset;
        bytes = bytes;
        range_start = 0;
        range_end = length bytes;
        is_stderr = is_stderr;
        origin = origin;
        source = source;
      }
          ∷ []);
}

-- What each branch that keeps an event does last.
unfoldable pub push_event : ℕ → OutputEventKind → OutputRingInner → OutputRingInner
push_event offset kind g = record g {
  buffered_event_bytes = saturating_add g.buffered_event_bytes (event_size_bytes kind);
  events = g.events ++ (record { offset = offset; kind = kind } ∷ []);
}

abbrev pub truncation_notice_kind : OutputEventKind
truncation_notice_kind = text output_truncation_notice false server

abbrev pub omission_notice_kind : OutputEventKind
omission_notice_kind = text output_omission_notice false server

unfoldable pub append_truncation_notice_locked : ℕ → ℕ → ℕ → OutputRingInner → OutputRingInner
append_truncation_notice_locked capacity offset extra_bytes g =
    let needed = saturating_add (event_size_bytes truncation_notice_kind) extra_bytes in
    let g' = (make_room_for needed capacity g).1 in
    if ltb capacity needed
    then g
    else push_event (max offset g'.start_offset) truncation_notice_kind (note_progress g')

unfoldable pub append_omission_notice_locked :
    ℕ → OutputRetention → OutputRingInner → OutputRingInner
append_omission_notice_locked capacity retention g =
    let needed = event_size_bytes omission_notice_kind in
    let g' = trim_tail_for_room needed capacity g in
    if not (is_head retention) || has_omission_notice g
    then g
    else if ltb capacity needed
    then g
    else if is_over g' needed capacity
    then g'
    else push_event (retained_end_offset g') omission_notice_kind (note_progress g')

unfoldable pub head_omission_notice_reserve_locked : ℕ → OutputRetention → OutputRingInner → ℕ
head_omission_notice_reserve_locked capacity retention g =
    let notice_bytes = event_size_bytes omission_notice_kind in
    if not (is_head retention) || has_omission_notice g
    then 0
    else if leb notice_bytes capacity
    then notice_bytes
    else 0
