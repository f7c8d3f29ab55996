-- ===== src/Capture/Timeline/Run.antt =====
-- An `OutputTimeline` (src/output_capture.rs) over any sequence of its operations.
use mcp_repl.Prelude.{
  ℕ, ◌+◌, ◌*◌, ◌≤◌, ◌<◌, Bool, ◌||◌, List, [], ◌∷◌, length, arith, u64_max, isize_max,
  length-append,
}
use mcp_repl.Capture.Types.{Bytes, ContentOrigin, OutputTextSource, OutputEventKind}
use mcp_repl.Capture.Tails.Queue as Queue
use mcp_repl.Capture.Tails.Sizes.{
  text_bytes, reserve, push_size, push_event_size, drain_size, drain_ready_after_visible_gaps_size,
}
use mcp_repl.Capture.Ring.Append.{OutputRing, OutputRetention, with_retention}
use mcp_repl.Capture.Ring.Consume.{consume_to, consume_to_with_boundary_events}
use mcp_repl.Capture.Ring.Run as Ring
use mcp_repl.Capture.Timeline.State.{
  is_raw, OutputTimeline, new_timeline, append_entry, append_pending_locked, settle,
  append_text_with_source, append_event, seal_utf8_tails, seal_utf8_tails_blocking_visible_output,
  clear,
}

-- The operations of the timeline, and those of the readers of its ring.
pub data TimelineOp : Type 0 where
  append_bytes : Bytes → Bool → ContentOrigin → Bool → OutputTextSource → TimelineOp
  append_kind : OutputEventKind → TimelineOp
  seal_all : TimelineOp
  seal_blocking : TimelineOp
  clear_all : TimelineOp
  read_to : ℕ → TimelineOp
  read_to_boundary : ℕ → ℕ → TimelineOp

unfoldable pub apply : OutputTimeline → TimelineOp → OutputTimeline
apply t (append_bytes bytes is_stderr origin is_continuation source) =
    append_text_with_source bytes is_stderr origin is_continuation source t
apply t (append_kind kind) = append_event kind t
apply t seal_all = seal_utf8_tails t
apply t seal_blocking = seal_utf8_tails_blocking_visible_output t
apply t clear_all = clear t
apply t (read_to offset) = record t { ring = consume_to offset t.ring }
apply t (read_to_boundary offset count) = record t {
  ring = consume_to_with_boundary_events offset count t.ring;
}

unfoldable pub run : OutputTimeline → List TimelineOp → OutputTimeline
run t [] = t
run t (op ∷ ops) = run (apply t op) ops

abbrev pub bytes_in : TimelineOp → ℕ
bytes_in (append_bytes bytes is_stderr origin is_continuation source) = length bytes
bytes_in _ = 0

abbrev pub total_bytes : List TimelineOp → ℕ
total_bytes [] = 0
total_bytes (op ∷ ops) = bytes_in op + total_bytes ops

-- A ring, whose end leaves room for what waits.
pub record IsTimeline (budget : ℕ) (t : OutputTimeline) : Type 0 where
  pub ring : Ring.IsRing t.ring
  pub reserved : t.ring.inner.end_offset + reserve t.utf8_tails ≤ budget

record Pushed (added : ℕ) (r r' : OutputRing) : Type 0 where
  ring : Ring.IsRing r'
  end_le : r'.inner.end_offset ≤ r.inner.end_offset + added

append_pending_locked-Pushed :
    (es : Queue.Entries) (r : OutputRing)
    → Ring.IsRing r
    → r.inner.end_offset + length (text_bytes es) ≤ u64_max
    → Pushed (length (text_bytes es)) r (append_pending_locked es r)
unfolding append_pending_locked append_entry Ring.apply
append_pending_locked-Pushed [] r v h = record { ring = v; end_le = omega arith }
append_pending_locked-Pushed (Queue.text t ∷ es) r v h =
    let len = length-append t.bytes (text_bytes es) in
    let op = Ring.append_text t.bytes t.key.is_stderr t.key.origin t.key.source in
    let a = Ring.apply-Applied r op v (omega (arith, len)) in
    let b =
      append_pending_locked-Pushed es (Ring.apply r op) a.ring (omega (arith, len, a.end_le)) in
    record { ring = b.ring; end_le = omega (arith, len, a.end_le, b.end_le) }
append_pending_locked-Pushed (Queue.event kind ∷ es) r v h =
    let op = Ring.append_event kind in
    let a = Ring.apply-Applied r op v (omega arith) in
    let b = append_pending_locked-Pushed es (Ring.apply r op) a.ring (omega (arith, a.end_le)) in
    record { ring = b.ring; end_le = omega (arith, a.end_le, b.end_le) }

-- Entries that are handed on take what was reserved for them.
settle-IsTimeline :
    (budget added : ℕ) (d : Queue.Entries × Queue.Entries) (t : OutputTimeline)
    → budget + added ≤ u64_max
    → IsTimeline budget t
    → length (text_bytes d.0) + reserve d.1 ≤ reserve t.utf8_tails + added
    → IsTimeline (budget + added) (settle d t)
unfolding settle
settle-IsTimeline budget added d t b v h =
    let p = append_pending_locked-Pushed d.0 t.ring v.ring (omega (arith, v.reserved)) in
    record { ring = p.ring; reserved = omega (arith, p.end_le, v.reserved) }

apply-IsTimeline :
    (budget : ℕ) (t : OutputTimeline) (op : TimelineOp)
    → budget + 4 * bytes_in op ≤ u64_max
    → IsTimeline budget t
    → IsTimeline (budget + 4 * bytes_in op) (apply t op)
unfolding apply append_text_with_source append_event seal_utf8_tails
    seal_utf8_tails_blocking_visible_output clear Ring.apply
apply-IsTimeline budget t (append_bytes [] is_stderr origin is_continuation source) b v = record {
  ring = v.ring;
  reserved = omega (arith, v.reserved);
}
apply-IsTimeline budget t (append_bytes (x ∷ xs) is_stderr origin is_continuation source) b v =
    let key : Queue.OutputUtf8TailKey = record {
      is_stderr = is_stderr;
      origin = origin;
      source = source;
    } in
    settle-IsTimeline budget (4 * length (x ∷ xs))
      (Queue.push key (x ∷ xs) (is_continuation || is_raw source) t.ring.capacity_bytes
        t.utf8_tails)
      t b v
      (push_size key (x ∷ xs) (is_continuation || is_raw source) t.ring.capacity_bytes t.utf8_tails)
apply-IsTimeline budget t (append_kind kind) b v =
    settle-IsTimeline budget 0 (Queue.push_event kind t.ring.capacity_bytes t.utf8_tails) t b v
      (omega (arith, push_event_size kind t.ring.capacity_bytes t.utf8_tails))
apply-IsTimeline budget t seal_all b v =
    settle-IsTimeline budget 0 (Queue.drain t.utf8_tails) t b v
      (omega (arith, drain_size t.utf8_tails))
apply-IsTimeline budget t seal_blocking b v =
    settle-IsTimeline budget 0 (Queue.drain_ready_after_visible_gaps t.utf8_tails) t b v
      (omega (arith, drain_ready_after_visible_gaps_size t.utf8_tails))
apply-IsTimeline budget t clear_all b v =
    let a = Ring.apply-Applied t.ring Ring.clear v.ring (omega (arith, v.reserved)) in
    record { ring = a.ring; reserved = omega (arith, a.end_le, v.reserved) }
apply-IsTimeline budget t (read_to offset) b v =
    let a = Ring.apply-Applied t.ring (Ring.consume offset) v.ring (omega (arith, v.reserved)) in
    record { ring = a.ring; reserved = omega (arith, a.end_le, v.reserved) }
apply-IsTimeline budget t (read_to_boundary offset count) b v =
    let a =
      Ring.apply-Applied t.ring (Ring.consume_boundary offset count) v.ring
        (omega (arith, v.reserved)) in
    record { ring = a.ring; reserved = omega (arith, a.end_le, v.reserved) }

run-IsTimeline_from :
    (budget : ℕ) (t : OutputTimeline) (ops : List TimelineOp)
    → budget + 4 * total_bytes ops ≤ u64_max
    → IsTimeline budget t
    → IsTimeline (budget + 4 * total_bytes ops) (run t ops)
unfolding run
run-IsTimeline_from budget t [] b v = record { ring = v.ring; reserved = omega (arith, v.reserved) }
run-IsTimeline_from budget t (op ∷ ops) b v =
    let a = apply-IsTimeline budget t op (omega arith) v in
    let r = run-IsTimeline_from (budget + 4 * bytes_in op) (apply t op) ops (omega arith) a in
    record { ring = r.ring; reserved = omega (arith, r.reserved) }

-- A timeline on a new ring of either retention with a positive capacity of at most isize::MAX,
-- after any sequence of text and event appends, seals, clears and reads, one whole call after the
-- other, that brings at most a quarter of u64::MAX bytes of text in all: the ring is sound and
-- within its capacity, and its end plus four times the bytes that wait is at most four times the
-- bytes that came in.
pub run-IsTimeline :
    (capacity : ℕ) (retention : OutputRetention) (ops : List TimelineOp)
    → 0 < capacity
    → capacity ≤ isize_max
    → 4 * total_bytes ops ≤ u64_max
    → IsTimeline (4 * total_bytes ops) (run (new_timeline (with_retention capacity retention)) ops)
unfolding new_timeline
run-IsTimeline capacity retention ops p c b =
    let e = Ring.with_retention-end capacity retention in
    let t = new_timeline (with_retention capacity retention) in
    let r = run-IsTimeline_from 0 t ops (omega arith) (record {
      ring = Ring.with_retention-IsRing capacity retention p c;
      reserved = omega (arith, e);
    }) in
    record { ring = r.ring; reserved = omega (arith, r.reserved) }
