-- ===== src/Capture/Ring/Run.antt =====
-- An `OutputRing` (src/output_capture.rs) over any sequence of appends, consumptions and resets. A step
-- is a whole call, or what an append of text does each time it holds the ring's lock, so that a
-- sequence may have other calls between the chunks of an append.
use mcp_repl.Prelude.{
  ℕ, ◌+◌, ◌≤◌, ◌<◌, ◌≡◌, refl, Bool, true, false, List, [], ◌∷◌, length, take, length-take,
  saturating_add, arith, u64_max, isize_max,
}
use mcp_repl.Capture.Types.{Bytes, ContentOrigin, OutputTextSource, OutputEventKind}
use mcp_repl.Capture.Ring.State.{OutputRingInner, empty_inner, note_progress}
use mcp_repl.Capture.Ring.Append.{
  OutputRetention, OutputRing, tail, head, with_retention, output_ring_append_chunk_len,
  append_truncation_notice_locked,
}
use mcp_repl.Capture.Ring.Text.{append_tail_chunk, append_head_chunk, append_bytes_with_source}
use mcp_repl.Capture.Ring.Events.{append_materialized_event}
use mcp_repl.Capture.Ring.Consume.{consume_to, consume_to_with_boundary_events, reset}
use mcp_repl.Capture.Ring.Invariant.{Fits}
use mcp_repl.Capture.Ring.Grow.{note_progress_same, append_truncation_notice_locked-Made}
use mcp_repl.Capture.Ring.GrowText.{
  output_ring_append_chunk_len_bounds, append_tail_chunk-Grown, append_bytes_retaining_tail-Grown,
}
use mcp_repl.Capture.Ring.GrowHead.{append_head_chunk-Safe, append_bytes_retaining_head-Safe}
use mcp_repl.Capture.Ring.Consumed.{
  consume_inner-Consumed, consume_inner_with_boundary_events-Consumed,
}
use mcp_repl.Capture.Ring.Preserve.{is_tight, note_progress-Fits, append_event_kind-Safe}

-- A ring whose state is sound and within a capacity that is positive and can be allocated.
pub record IsRing (r : OutputRing) : Type 0 where
  pub positive : 0 < r.capacity_bytes
  pub allocatable : r.capacity_bytes ≤ isize_max
  pub fits : Fits (is_tight r.retention) r.capacity_bytes r.inner

pub data RingOp : Type 0 where
  append_text : Bytes → Bool → ContentOrigin → OutputTextSource → RingOp
  append_event : OutputEventKind → RingOp
  consume : ℕ → RingOp
  consume_boundary : ℕ → ℕ → RingOp
  clear : RingOp
  -- the parts of an append of text: its start, a chunk with the number of bytes that are left behind
  -- it, and the truncation notice at its end
  start_append : RingOp
  append_chunk : Bytes → ℕ → Bool → ContentOrigin → OutputTextSource → RingOp
  truncation_notice : RingOp

unfoldable pub apply : OutputRing → RingOp → OutputRing
apply r (append_text bytes is_stderr origin source) =
    append_bytes_with_source bytes is_stderr origin source r
apply r (append_event kind) = append_materialized_event kind r
apply r (consume offset) = consume_to offset r
apply r (consume_boundary offset count) = consume_to_with_boundary_events offset count r
apply r clear = reset r
apply r start_append = record r { inner = note_progress r.inner }
apply r (append_chunk bytes left is_stderr origin source) =
    let chunk = take (output_ring_append_chunk_len r.capacity_bytes) bytes in
    record r {
      inner = elim r.retention [
        | tail ↦ (append_tail_chunk r.capacity_bytes is_stderr origin source chunk r.inner).1
        | head ↦
            (append_head_chunk r.capacity_bytes is_stderr origin source chunk
              (saturating_add (length chunk) left) r.inner).1
      ];
    }
apply r truncation_notice = record r {
  inner = append_truncation_notice_locked r.capacity_bytes r.inner.end_offset 0 r.inner;
}

unfoldable pub run : OutputRing → List RingOp → OutputRing
run r [] = r
run r (op ∷ ops) = run (apply r op) ops

-- How many bytes of text an operation brings.
abbrev pub text_len : RingOp → ℕ
text_len (append_text bytes is_stderr origin source) = length bytes
text_len (append_chunk bytes left is_stderr origin source) = length bytes
text_len _ = 0

abbrev pub total_text : List RingOp → ℕ
total_text [] = 0
total_text (op ∷ ops) = text_len op + total_text ops

-- What one operation does: a ring again, of the same capacity, whose end has not moved past what
-- was appended.
pub record Applied (added : ℕ) (r r' : OutputRing) : Type 0 where
  pub ring : IsRing r'
  pub same_capacity : r'.capacity_bytes ≡ r.capacity_bytes
  pub end_le : r'.inner.end_offset ≤ r.inner.end_offset + added

append_text_inner :
    (capacity : ℕ) (retention : OutputRetention) (bytes : Bytes) (is_stderr : Bool)
    (origin : ContentOrigin) (source : OutputTextSource) (g : OutputRingInner)
    → IsRing (record { capacity_bytes = capacity; retention = retention; inner = g })
    → g.end_offset + length bytes ≤ u64_max
    → let r : OutputRing = record { capacity_bytes = capacity; retention = retention; inner = g } in
      Applied (length bytes) r (append_bytes_with_source bytes is_stderr origin source r)
unfolding append_bytes_with_source
append_text_inner capacity tail bytes is_stderr origin source g v h = ground (
  arith,
  note_progress_same g,
  note_progress-Fits true capacity g,
  append_bytes_retaining_tail-Grown true capacity is_stderr origin source bytes (note_progress g),
)
append_text_inner capacity head bytes is_stderr origin source g v h = ground (
  arith,
  note_progress_same g,
  note_progress-Fits false capacity g,
  append_bytes_retaining_head-Safe capacity is_stderr origin source bytes (note_progress g),
)

append_chunk_inner :
    (capacity : ℕ) (retention : OutputRetention) (bytes : Bytes) (left : ℕ) (is_stderr : Bool)
    (origin : ContentOrigin) (source : OutputTextSource) (g : OutputRingInner)
    → IsRing (record { capacity_bytes = capacity; retention = retention; inner = g })
    → g.end_offset + length bytes ≤ u64_max
    → let r : OutputRing = record { capacity_bytes = capacity; retention = retention; inner = g } in
      Applied (length bytes) r (apply r (append_chunk bytes left is_stderr origin source))
unfolding apply
append_chunk_inner capacity tail bytes left is_stderr origin source g v h =
    let n = output_ring_append_chunk_len capacity in
    ground (
      arith,
      output_ring_append_chunk_len_bounds capacity,
      length-take n bytes,
      append_tail_chunk-Grown true capacity is_stderr origin source (take n bytes) g,
    )
append_chunk_inner capacity head bytes left is_stderr origin source g v h =
    let n = output_ring_append_chunk_len capacity in
    ground (
      arith,
      length-take n bytes,
      append_head_chunk-Safe capacity is_stderr origin source (take n bytes)
          (saturating_add (length (take n bytes)) left) g,
    )

empty_inner-Fits : (tight : Bool) (capacity : ℕ) → Fits tight capacity empty_inner
unfolding empty_inner
empty_inner-Fits true capacity = ground arith
empty_inner-Fits false capacity = ground arith

empty_inner-end : empty_inner.end_offset ≡ 0
unfolding empty_inner
empty_inner-end = refl

pub with_retention-end :
    (capacity : ℕ) (retention : OutputRetention)
    → (with_retention capacity retention).inner.end_offset ≡ 0
unfolding with_retention
with_retention-end capacity retention = empty_inner-end

pub apply-Applied :
    (r : OutputRing) (op : RingOp)
    → IsRing r
    → r.inner.end_offset + text_len op ≤ u64_max
    → Applied (text_len op) r (apply r op)
unfolding apply append_materialized_event consume_to consume_to_with_boundary_events reset
apply-Applied r (append_text bytes is_stderr origin source) v h =
    append_text_inner r.capacity_bytes r.retention bytes is_stderr origin source r.inner v h
apply-Applied r (append_event kind) v h = ground (
  arith,
  append_event_kind-Safe r.capacity_bytes v.positive v.allocatable r.retention kind r.inner v.fits,
)
apply-Applied r (consume offset) v h =
    ground (arith, consume_inner-Consumed (is_tight r.retention) offset r.inner v.fits.sound)
apply-Applied r (consume_boundary offset count) v h = ground (
  arith,
  consume_inner_with_boundary_events-Consumed (is_tight r.retention) offset count r.inner
      v.fits.sound,
)
apply-Applied r clear v h =
    ground (arith, empty_inner-Fits (is_tight r.retention) r.capacity_bytes, empty_inner-end)
apply-Applied r start_append v h = ground (
  arith,
  note_progress_same r.inner,
  note_progress-Fits (is_tight r.retention) r.capacity_bytes r.inner,
)
apply-Applied r (append_chunk bytes left is_stderr origin source) v h =
    append_chunk_inner r.capacity_bytes r.retention bytes left is_stderr origin source r.inner v h
apply-Applied r truncation_notice v h = ground (
  arith,
  append_truncation_notice_locked-Made (is_tight r.retention) r.capacity_bytes r.inner.end_offset 0
      r.inner,
)

run-IsRing_from :
    (r : OutputRing) (ops : List RingOp)
    → IsRing r
    → r.inner.end_offset + total_text ops ≤ u64_max
    → IsRing (run r ops)
unfolding run
run-IsRing_from r [] v h = v
run-IsRing_from r (op ∷ ops) v h =
    let a = apply-Applied r op v (omega arith) in
    run-IsRing_from (apply r op) ops a.ring (omega arith)

pub with_retention-IsRing :
    (capacity : ℕ) (retention : OutputRetention)
    → 0 < capacity
    → capacity ≤ isize_max
    → IsRing (with_retention capacity retention)
unfolding with_retention
with_retention-IsRing capacity retention p a =
    ground (arith, empty_inner-Fits (is_tight retention) capacity)

-- A ring of either retention, made with a positive capacity of at most isize::MAX, after any
-- sequence that brings at most u64::MAX bytes of text in all, of text and event appends,
-- consumptions and resets, and of the steps between which an append of text lets go of the lock
-- (its start, each chunk with however many bytes left behind it, the truncation notice), so with
-- other calls between the chunks: its counters say what its queues hold, its chunks lie in order
-- between its offsets (without gaps when it retains the tail), and what is buffered fits in the
-- capacity.
pub run-IsRing :
    (capacity : ℕ) (retention : OutputRetention) (ops : List RingOp)
    → 0 < capacity
    → capacity ≤ isize_max
    → total_text ops ≤ u64_max
    → IsRing (run (with_retention capacity retention) ops)
run-IsRing capacity retention ops p a h =
    run-IsRing_from (with_retention capacity retention) ops
      (with_retention-IsRing capacity retention p a)
      (omega (arith, with_retention-end capacity retention))
