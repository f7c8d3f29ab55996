-- ===== src/Capture/Ring/State.antt =====
-- `OutputRingInner` of src/output_capture.rs and its trimming. A method that takes `&mut self`
-- returns the new record. The caller of each of these methods holds the lock of the `OutputRing`.
use mcp_repl.Prelude.{
  ℕ, zero, suc, ◌-◌, min, ltb, leb, ◌==◌, Bool, false, if◌then◌else◌, List, [], ◌∷◌, is_empty, any,
  saturating_add,
}
use mcp_repl.Capture.Types.{
  OutputEvent, OutputEventKind, server, text, OutputChunk, chunk_len, chunk_end, event_size_bytes,
  output_omission_notice, bytes_eq,
}

pub record OutputRingInner : Type 0 where
  pub chunks : List OutputChunk
  pub line_ends : List ℕ
  pub events : List OutputEvent
  pub start_offset : ℕ
  pub end_offset : ℕ
  pub buffered_bytes : ℕ
  pub buffered_event_bytes : ℕ
  pub progress_seq : ℕ

unfoldable pub empty_inner : OutputRingInner
empty_inner = record {
  chunks = [];
  line_ends = [];
  events = [];
  start_offset = 0;
  end_offset = 0;
  buffered_bytes = 0;
  buffered_event_bytes = 0;
  progress_seq = 0;
}

unfoldable pub note_progress : OutputRingInner → OutputRingInner
note_progress g = record g { progress_seq = saturating_add g.progress_seq 1 }

abbrev pub total_buffered_bytes : OutputRingInner → ℕ
total_buffered_bytes g = saturating_add g.buffered_bytes g.buffered_event_bytes

-- The test of the loops that make room: `total.saturating_add(needed) > capacity`.
abbrev pub is_over : OutputRingInner → ℕ → ℕ → Bool
is_over g needed_bytes capacity_bytes =
    ltb capacity_bytes (saturating_add (total_buffered_bytes g) needed_bytes)

abbrev pub is_omission_notice : OutputEventKind → Bool
is_omission_notice (text t is_stderr server) = bytes_eq t output_omission_notice
is_omission_notice _ = false

unfoldable pub has_omission_notice : OutputRingInner → Bool
has_omission_notice g = any (λ (e : OutputEvent). is_omission_notice e.kind) g.events

-- `while matches!(line_ends.front(), Some(line_end) if line_end <= start)`.
unfoldable pub drop_line_ends : ℕ → List ℕ → List ℕ
drop_line_ends start [] = []
drop_line_ends start (l ∷ ls) = if leb l start then drop_line_ends start ls else l ∷ ls

-- `pop_front_event` as long as the front event passes the test: the events left, and what is
-- left of `buffered_event_bytes`.
unfoldable pub pop_events_while : (OutputEvent → Bool) → List OutputEvent → ℕ → List OutputEvent × ℕ
pop_events_while p [] buffered = ([], buffered)
pop_events_while p (e ∷ es) buffered =
    let rest = pop_events_while p es (buffered - event_size_bytes e.kind) in
    if p e then rest else (e ∷ es, buffered)

-- `pop_front_event` on a queue that is not empty; on an empty one it does nothing.
unfoldable pub pop_front_event : OutputRingInner → OutputRingInner
pop_front_event g = elim g.events [
  | [] ↦ g
  | e ∷ es ↦ record g {
    events = es;
    buffered_event_bytes = g.buffered_event_bytes - event_size_bytes e.kind;
  }
]

unfoldable pub pop_events : (OutputEvent → Bool) → OutputRingInner → OutputRingInner
pop_events p g =
    let r = pop_events_while p g.events g.buffered_event_bytes in
    record g { events = r.0; buffered_event_bytes = r.1 }

unfoldable pub cleanup_front_before_boundary : OutputRingInner → OutputRingInner
cleanup_front_before_boundary g =
    pop_events (λ e. ltb e.offset g.start_offset)
      (record g { line_ends = drop_line_ends g.start_offset g.line_ends })

unfoldable pub cleanup_front : OutputRingInner → OutputRingInner
cleanup_front g = pop_events (λ e. leb e.offset g.start_offset) (cleanup_front_before_boundary g)

-- `for _ in 0..count`: the events that stand at the start, at most `count` of them.
unfoldable pub pop_boundary_events : ℕ → OutputRingInner → OutputRingInner
pop_boundary_events zero g = g
pop_boundary_events (suc count) g =
    let rest = pop_boundary_events count (pop_front_event g) in
    elim g.events [ [] ↦ g | e ∷ es ↦ if e.offset == g.start_offset then rest else g ]

unfoldable pub cleanup_front_consuming_boundary_events : ℕ → OutputRingInner → OutputRingInner
cleanup_front_consuming_boundary_events count g =
    pop_boundary_events count (cleanup_front_before_boundary g)

-- The loop of both trims, over the chunks of `g`. The second and third branch set the start to
-- `offset`, so the loop ends after them.
unfoldable pub trim_chunks :
    (OutputRingInner → OutputRingInner) → ℕ → List OutputChunk → OutputRingInner → OutputRingInner
trim_chunks cleanup offset [] g = g
trim_chunks cleanup offset (front ∷ rest) g =
    let popped = cleanup (record g {
      chunks = rest;
      start_offset = chunk_end front;
      buffered_bytes = g.buffered_bytes - chunk_len front;
    }) in
    let more = trim_chunks cleanup offset rest popped in
    let delta = min (offset - front.start_offset) (chunk_len front) in
    if leb (chunk_end front) offset
    then if leb offset popped.start_offset then popped else more
    else if ltb front.start_offset offset
    then cleanup (record g {
      chunks =
          record front {
            start_offset = saturating_add front.start_offset delta;
            range_start = saturating_add front.range_start delta;
          }
          ∷ rest;
      start_offset = offset;
      buffered_bytes = g.buffered_bytes - delta;
    })
    else cleanup (record g { start_offset = offset })

-- The end of both trims: `if self.chunks.is_empty()`.
unfoldable pub settle_start :
    (OutputRingInner → OutputRingInner) → ℕ → OutputRingInner → OutputRingInner
settle_start cleanup offset g =
    if is_empty g.chunks then cleanup (record g { start_offset = offset }) else g

unfoldable pub trim_to_offset : ℕ → OutputRingInner → OutputRingInner
trim_to_offset offset g =
    let o = min offset g.end_offset in
    if leb o g.start_offset
    then g
    else settle_start cleanup_front o (trim_chunks cleanup_front o g.chunks g)

unfoldable pub trim_to_offset_consuming_boundary_events : ℕ → ℕ → OutputRingInner → OutputRingInner
trim_to_offset_consuming_boundary_events offset count g =
    let o = min offset g.end_offset in
    if ltb o g.start_offset
    then g
    else if o == g.start_offset
    then cleanup_front_consuming_boundary_events count g
    else cleanup_front_consuming_boundary_events count (
        settle_start cleanup_front_before_boundary o
          (trim_chunks cleanup_front_before_boundary o g.chunks g))
