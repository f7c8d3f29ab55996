-- ===== src/Capture/Timeline/Buffer.antt =====
-- `OutputBuffer` of src/output_capture.rs: a cursor into the ring, and what a reply takes from there.
-- `Rendered` and `contents_of` stand for `RenderedTextState` and
-- `contents_from_output_range_with_state` of src/resolved_output.rs.
use mcp_repl.Prelude.{
  ℕ, ◌==◌, ltb, leb, min, Bool, true, false, ◌||◌, Option, none, some, if◌then◌else◌, List, [], ◌∷◌,
  length, take, get_last?, saturating_add, suc,
}
use mcp_repl.Capture.Types.{Bytes, image, text, input_echo, OutputEvent, chunk_len, chunk_bytes}
use mcp_repl.Capture.Utf8.Decode.{flushable_prefix_len}
use mcp_repl.Capture.Ring.State.{OutputRingInner}
use mcp_repl.Capture.Ring.Append.{OutputRing}
use mcp_repl.Capture.Ring.Consume.{consume_to, consume_to_with_boundary_events, reset}
use mcp_repl.Capture.Ring.Read.{
  OutputRange, OutputTextSpan, read_range, saw_stderr_in_range, has_materialized_events_at_or_after,
}

pub record OutputCursor (Rendered : Type 0) : Type 0 where
  pub offset : Option ℕ
  pub last_rendered_text : Option Rendered

pub record OutputBuffer (Rendered : Type 0) : Type 0 where
  pub cursor : OutputCursor Rendered
  pub ring : OutputRing

pub record TimelineSettleState : Type 0 where
  pub progress_seq : ℕ
  pub input_echoes_seen : ℕ
  pub has_image : Bool

unfoldable pub count_echoes : ℕ → ℕ → List OutputEvent → ℕ
count_echoes offset seen [] = seen
count_echoes offset seen (e ∷ es) =
    let more = count_echoes offset (saturating_add seen 1) es in
    let same = count_echoes offset seen es in
    if ltb e.offset offset then same else elim e.kind [ input_echo t ↦ more | _ ↦ same ]

unfoldable pub sees_image : ℕ → List OutputEvent → Bool
sees_image offset [] = false
sees_image offset (e ∷ es) =
    let rest = sees_image offset es in
    if ltb e.offset offset then rest else elim e.kind [ image i d m n ↦ true | _ ↦ rest ]

unfoldable pub settle_state_at_or_after : ℕ → OutputRingInner → TimelineSettleState
settle_state_at_or_after offset g = record {
  progress_seq = g.progress_seq;
  input_echoes_seen = count_echoes offset 0 g.events;
  has_image = sees_image offset g.events;
}

abbrev ends_with_newline : Bytes → Bool
ends_with_newline bytes = elim (get_last? bytes) [ none ↦ false | some b ↦ b == b'\n' ]

-- The end of the last chunk, and whether it ends with a newline.
unfoldable pub last_chunk_end : OutputRingInner → Option (ℕ × Bool)
last_chunk_end g = elim (get_last? g.chunks) [
  | none ↦ none
  | some c ↦
      if leb c.range_end c.range_start
      then some (c.start_offset, true)
      else some (saturating_add c.start_offset (chunk_len c), ends_with_newline (chunk_bytes c))
]

unfoldable pub last_text_event : Option (ℕ × Bool) → List OutputEvent → Option (ℕ × Bool)
last_text_event last [] = last
last_text_event last (e ∷ es) = elim e.kind [
  | text t is_stderr origin ↦ last_text_event (some (e.offset, ends_with_newline t)) es
  | _ ↦ last_text_event last es
]

unfoldable pub last_text_ends_with_newline : OutputRingInner → Bool
last_text_ends_with_newline g = elim (last_chunk_end g) [
  | none ↦ elim (last_text_event none g.events) [ none ↦ true | some e ↦ e.1 ]
  | some c ↦ elim (last_text_event none g.events) [
    | none ↦ c.1
    | some e ↦ if leb c.0 e.0 then e.1 else c.1
  ]
]

-- The spans that start before `n`, cut there.
unfoldable pub trim_spans : ℕ → List OutputTextSpan → List OutputTextSpan
trim_spans n [] = []
trim_spans n (s ∷ ss) =
    let rest = trim_spans n ss in
    if leb n s.start_byte
    then rest
    else if ltb s.start_byte (min s.end_byte n)
    then record s { end_byte = min s.end_byte n } ∷ rest
    else rest

unfoldable pub keep_events_to : ℕ → List OutputEvent → List OutputEvent
keep_events_to consumed_end [] = []
keep_events_to consumed_end (e ∷ es) =
    let rest = keep_events_to consumed_end es in
    if leb e.offset consumed_end then e ∷ rest else rest

-- The offset that is consumed, and the range that is left.
unfoldable pub trim_range_to_complete_utf8 : OutputRange → ℕ × OutputRange
trim_range_to_complete_utf8 r =
    let n = flushable_prefix_len r.bytes in
    let consumed_end = saturating_add r.start_offset n in
    if n == length r.bytes then (r.end_offset, r) else (
      consumed_end,
      record r {
        bytes = take n r.bytes;
        end_offset = consumed_end;
        events = keep_events_to consumed_end r.events;
        text_spans = trim_spans n r.text_spans;
      },
    )

unfoldable pub count_events_at : ℕ → List OutputEvent → ℕ
count_events_at offset [] = 0
count_events_at offset (e ∷ es) =
    let rest = count_events_at offset es in if e.offset == offset then suc rest else rest

unfoldable pub output_range_boundary_event_count : OutputRange → ℕ → ℕ
output_range_boundary_event_count range offset = count_events_at offset range.events

module _ {Rendered : Type 0} where
  unfoldable pub new_buffer : OutputRing → OutputBuffer Rendered
  new_buffer ring = record {
    cursor = record { offset = none; last_rendered_text = none };
    ring = ring;
  }

  unfoldable pub start_capture : OutputBuffer Rendered → OutputBuffer Rendered
  start_capture b = elim b.cursor.offset [
    | some o ↦ b
    | none ↦ record b { cursor = record b.cursor { offset = some b.ring.inner.start_offset } }
  ]

  unfoldable pub advance_offset_to : ℕ → OutputBuffer Rendered → OutputBuffer Rendered
  advance_offset_to offset b = record {
    cursor = record { offset = some offset; last_rendered_text = none };
    ring = consume_to offset b.ring;
  }

  unfoldable pub advance_offset_to_with_rendered_text_and_boundary_events :
      ℕ → Option Rendered → ℕ → OutputBuffer Rendered → OutputBuffer Rendered
  advance_offset_to_with_rendered_text_and_boundary_events offset last_rendered_text count b =
      record {
        cursor = record { offset = some offset; last_rendered_text = last_rendered_text };
        ring = consume_to_with_boundary_events offset count b.ring;
      }

  unfoldable pub has_pending_output : OutputBuffer Rendered → Bool
  has_pending_output b = elim b.cursor.offset [
    | none ↦ false
    | some offset ↦
        ltb offset b.ring.inner.end_offset
        || has_materialized_events_at_or_after offset b.ring.inner
  ]

  unfoldable pub clear : OutputBuffer Rendered → OutputBuffer Rendered
  clear b = record {
    cursor = record { offset = none; last_rendered_text = none };
    ring = reset b.ring;
  }

  unfoldable pub current_settle_state : OutputBuffer Rendered → TimelineSettleState
  current_settle_state b = elim b.cursor.offset [
    | none ↦ record {
      progress_seq = b.ring.inner.progress_seq;
      input_echoes_seen = 0;
      has_image = false;
    }
    | some offset ↦ settle_state_at_or_after offset b.ring.inner
  ]

-- What `drain_formatted` reads from an offset on: the offset that it consumes, and the range.
unfoldable pub drained_range : Bool → ℕ → OutputRingInner → ℕ × OutputRange
drained_range flush_incomplete offset g =
    let range = read_range offset g.end_offset g in
    if flush_incomplete then (range.end_offset, range) else trim_range_to_complete_utf8 range

module _ {Rendered Contents : Type 0} (no_contents : Contents)
    (contents_of : OutputRange → Option Rendered → Contents × Option Rendered) where
  -- The contents, whether standard error was seen, and the buffer.
  unfoldable pub drain_formatted :
      Bool → OutputBuffer Rendered → (Contents × Bool) × OutputBuffer Rendered
  drain_formatted flush_incomplete b = elim b.cursor.offset [
    | none ↦ ((no_contents, false), b)
    | some offset ↦
        let d = drained_range flush_incomplete offset b.ring.inner in
        let count = output_range_boundary_event_count d.1 d.0 in
        let c = contents_of d.1 b.cursor.last_rendered_text in
        (
          (c.0, saw_stderr_in_range (min offset d.0) d.0 b.ring.inner),
          advance_offset_to_with_rendered_text_and_boundary_events d.0 c.1 count b,
        )
  ]
