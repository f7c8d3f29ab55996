-- ===== src/Capture/Timeline/Drain.antt =====
-- What `drain_formatted` of src/output_capture.rs takes from the ring, and what it leaves.
use mcp_repl.Prelude.{
  ℕ, ◌+◌, ◌-◌, ◌≤◌, ◌≡◌, sym, ap, ◌∙◌, Bool, true, ◌++◌, min, max, length, take, drop, arith,
  u64_max, length-drop, drop-drop, take-append-drop, take-length, Option, some,
}
use mcp_repl.Capture.Types.{Bytes}
use mcp_repl.Capture.Utf8.Decode.{flushable_prefix_len}
use mcp_repl.Capture.Utf8.Agree.{flushable_prefix_len_bounds}
use mcp_repl.Capture.Ring.State.{OutputRingInner}
use mcp_repl.Capture.Ring.Consume.{
  consume_to_with_boundary_events, consume_inner_with_boundary_events,
}
use mcp_repl.Capture.Ring.Read.{OutputRange, read_range}
use mcp_repl.Capture.Ring.Invariant.{retained, IsSound, IsChain-tight}
use mcp_repl.Capture.Ring.Contents.{length-retained}
use mcp_repl.Capture.Ring.Consumed.{consume_inner_with_boundary_events-Consumed}
use mcp_repl.Capture.Ring.ConsumedText.{consume_inner_with_boundary_events-Later}
use mcp_repl.Capture.Ring.ReadBack.{read_range-bytes}
use mcp_repl.Capture.Timeline.Buffer.{
  OutputBuffer, drain_formatted, advance_offset_to_with_rendered_text_and_boundary_events,
  output_range_boundary_event_count, drained_range, trim_range_to_complete_utf8,
}

-- The text from an offset on, or all of it when the offset has been dropped.
abbrev pub text_from : ℕ → OutputRingInner → Bytes
text_from offset g = drop (max offset g.start_offset - g.start_offset) (retained g.chunks)

length-text_from :
    (offset : ℕ) (g : OutputRingInner)
    → IsSound true g
    → length (text_from offset g) ≡ g.end_offset - max offset g.start_offset
length-text_from offset g s = omega (
  arith,
  length-drop (max offset g.start_offset - g.start_offset) (retained g.chunks),
  length-retained true g.start_offset g.end_offset g.chunks s.chain,
  IsChain-tight g.start_offset g.end_offset g.chunks s.chain,
)

-- The bytes that a reader at the offset is offered: all that is there.
pub read_range-text_from :
    (offset : ℕ) (g : OutputRingInner)
    → IsSound true g
    → (read_range offset g.end_offset g).bytes ≡ text_from offset g
read_range-text_from offset g s =
    (read_range-bytes offset g.end_offset g s).2
    ∙ take-length (min g.end_offset g.end_offset - max offset g.start_offset) (text_from offset g)
        (omega (arith, length-text_from offset g s))

-- What a drain takes is a prefix of that, up to the offset that it consumes.
record Takes (offset : ℕ) (g : OutputRingInner) (d : ℕ × OutputRange) : Type 0 where
  lower : max offset g.start_offset ≤ d.0
  upper : d.0 ≤ g.end_offset
  taken : d.1.bytes ≡ take (d.0 - max offset g.start_offset) (text_from offset g)

trim_range_to_complete_utf8-Takes :
    (offset : ℕ) (g : OutputRingInner) (r : OutputRange)
    → g.end_offset ≤ u64_max
    → max offset g.start_offset ≤ g.end_offset
    → r.start_offset ≡ max offset g.start_offset
    → r.end_offset ≡ g.end_offset
    → r.bytes ≡ text_from offset g
    → length (text_from offset g) ≡ g.end_offset - max offset g.start_offset
    → Takes offset g (trim_range_to_complete_utf8 r)
unfolding trim_range_to_complete_utf8
trim_range_to_complete_utf8-Takes offset g r u h a b c len =
    let n = flushable_prefix_len r.bytes in
    let l : length r.bytes ≡ length (text_from offset g) = ap length c in
    let k = flushable_prefix_len_bounds r.bytes (omega (arith, l, len)) in
    let whole = take-length (g.end_offset - max offset g.start_offset) (text_from offset g) in
    let cut = ap (take n) c in ground (arith, l, len, k, whole, cut)

drained_range-Takes :
    (flush : Bool) (offset : ℕ) (g : OutputRingInner)
    → IsSound true g
    → max offset g.start_offset ≤ g.end_offset
    → Takes offset g (drained_range flush offset g)
unfolding drained_range
drained_range-Takes flush offset g s h =
    let r = read_range offset g.end_offset g in
    let b = read_range-bytes offset g.end_offset g s in
    let e = read_range-text_from offset g s in
    let len = length-text_from offset g s in
    let whole = take-length (g.end_offset - max offset g.start_offset) (text_from offset g) in
    ground (arith, b.0, b.1, e, len, whole, trim_range_to_complete_utf8-Takes offset g r)

drained_range-once :
    (flush : Bool) (offset count : ℕ) (g : OutputRingInner)
    → IsSound true g
    → max offset g.start_offset ≤ g.end_offset
    → let d = drained_range flush offset g in
      let g' = consume_inner_with_boundary_events d.0 count g in
      (d.1.bytes ++ retained g'.chunks ≡ text_from offset g)
      × (g'.start_offset ≡ d.0)
      × (g'.end_offset ≡ g.end_offset)
drained_range-once flush offset count g s h =
    let d = drained_range flush offset g in
    let from = max offset g.start_offset in
    let t = drained_range-Takes flush offset g s h in
    let c = consume_inner_with_boundary_events-Consumed true d.0 count g s in
    let l = consume_inner_with_boundary_events-Later d.0 count g s in
    let g' = consume_inner_with_boundary_events d.0 count g in
    let start : g'.start_offset ≡ d.0 = omega (arith, c.start_eq, t.lower, t.upper) in
    let left : retained g'.chunks ≡ drop (d.0 - from) (text_from offset g) =
      l.text
      ∙ (ap (λ n. drop n (retained g.chunks)) {y = (from - g.start_offset) + (d.0 - from)}
            (omega (arith, start, t.lower))
          ∙ sym (drop-drop (d.0 - from) (from - g.start_offset) (retained g.chunks))) in
    (
      ap (λ x. x ++ retained g'.chunks) (t.taken)
          ∙ (ap (λ x. take (d.0 - from) (text_from offset g) ++ x) left
              ∙ take-append-drop (d.0 - from) (text_from offset g)),
      start,
      c.same_end,
    )

-- A buffer whose cursor is at an offset, no further than the end of a sound ring without gaps, is
-- drained with any rendering, completely or up to the last complete character: the contents are the
-- rendering of the range that drained_range reads, its bytes followed by the text that is left in
-- the ring are the text that was there from the cursor on (or from the start of the ring, if that
-- is later), the cursor is then where the ring starts, and the ring ends where it ended.
pub drain_formatted-once :
    {Rendered Contents : Type 0} (no_contents : Contents)
    (contents_of : OutputRange → Option Rendered → Contents × Option Rendered) (flush : Bool)
    (b : OutputBuffer Rendered) (offset : ℕ)
    → b.cursor.offset ≡ some offset
    → IsSound true b.ring.inner
    → max offset b.ring.inner.start_offset ≤ b.ring.inner.end_offset
    → let d = drained_range flush offset b.ring.inner in
      let r = drain_formatted no_contents contents_of flush b in
      (r.0.0 ≡ (contents_of d.1 b.cursor.last_rendered_text).0)
      × (d.1.bytes ++ retained r.1.ring.inner.chunks ≡ text_from offset b.ring.inner)
      × (r.1.cursor.offset ≡ some r.1.ring.inner.start_offset)
      × (r.1.ring.inner.end_offset ≡ b.ring.inner.end_offset)
unfolding drain_formatted advance_offset_to_with_rendered_text_and_boundary_events
    consume_to_with_boundary_events
drain_formatted-once no_contents contents_of flush b offset e s h =
    let d = drained_range flush offset b.ring.inner in
    let once =
      drained_range-once flush offset (output_range_boundary_event_count d.1 d.0) b.ring.inner s
        h in
    ground (arith, e, once)
