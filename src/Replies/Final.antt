-- ===== src/Replies/Final.antt =====
-- The final drain of a `PendingOutputTape` (src/pending_output_tape.rs).
use mcp_repl.Prelude.{
  ℕ, ◌≤◌, ◌≡◌, refl, sym, ap, ◌∙◌, true, Option, some, [], ◌∷◌, ◌++◌, min, length, length-append,
  arith,
}
use mcp_repl.Capture.Types.{Bytes}
use mcp_repl.Capture.Tails.Sealed.{drain_empty}
use mcp_repl.Capture.Ring.Read.{OutputRange, read_range, collect_range}
use mcp_repl.Capture.Ring.Invariant.{retained, IsSound, IsChain-tight}
use mcp_repl.Capture.Timeline.State.{settle, seal_utf8_tails}
use mcp_repl.Capture.Timeline.Buffer.{
  OutputBuffer, drained_range, drain_formatted,
  advance_offset_to_with_rendered_text_and_boundary_events,
}
use mcp_repl.Capture.Timeline.Drain.{text_from, read_range-text_from, drain_formatted-once}
use mcp_repl.Render.Push.{bundle}
use mcp_repl.Render.Events.{contents_from_output_range_with_state}
use mcp_repl.Replies.Tape.{PendingOutputTape, output, with_output, drain_bundle, drain_final_output}

append_self : (xs ys : Bytes) → xs ++ ys ≡ xs → ys ≡ []
append_self xs [] e = refl
append_self xs (y ∷ ys) e = absurd (omega (arith, ap length e, length-append xs (y ∷ ys)))

-- A flushing drain consumes everything.
drain_formatted-cursor :
    {Rendered Contents : Type 0} (no_contents : Contents)
    (contents_of : OutputRange → Option Rendered → Contents × Option Rendered)
    (b : OutputBuffer Rendered) (offset : ℕ)
    → b.cursor.offset ≡ some offset
    → (drain_formatted no_contents contents_of true b).1.cursor.offset
      ≡ some (min b.ring.inner.end_offset b.ring.inner.end_offset)
unfolding drain_formatted advance_offset_to_with_rendered_text_and_boundary_events drained_range
    read_range collect_range
drain_formatted-cursor no_contents contents_of b offset e = rw e refl

-- For a tape whose cursor is at an offset, where the ring is sound and without gaps once the
-- timeline is sealed and the offset is no further than its end: the final drain answers with the
-- rendering, in bundle mode and after the text rendered last, of the range from the offset on,
-- whose bytes are all the text that the sealed ring has from there; and it leaves no incomplete
-- text, no retained text and the cursor at the end of the ring.
pub drain_final_output-all :
    (tape : PendingOutputTape) (offset : ℕ)
    → let g = (seal_utf8_tails tape.timeline).ring.inner in
      tape.cursor.offset ≡ some offset
      → IsSound true g
      → offset ≤ g.end_offset
      → let d = drain_final_output tape in
        let range = read_range offset g.end_offset g in
        (d.0.0
          ≡ (contents_from_output_range_with_state bundle range tape.cursor.last_rendered_text).0)
        × (range.bytes ≡ text_from offset g)
        × (d.1.timeline.utf8_tails ≡ [])
        × (d.1.cursor.offset ≡ some g.end_offset)
        × (d.1.timeline.ring.inner.end_offset ≡ g.end_offset)
        × (retained d.1.timeline.ring.inner.chunks ≡ [])
unfolding drain_final_output drain_bundle output with_output drained_range seal_utf8_tails settle
drain_final_output-all tape offset e s h =
    let sealed : PendingOutputTape = record tape { timeline = seal_utf8_tails tape.timeline } in
    let g = sealed.timeline.ring.inner in
    let once =
      drain_formatted-once [] (contents_from_output_range_with_state bundle) true (output sealed)
        offset e s (omega (arith, IsChain-tight g.start_offset g.end_offset g.chunks s.chain)) in
    let all = read_range-text_from offset g s in
    let cursor =
      drain_formatted-cursor [] (contents_from_output_range_with_state bundle) (output sealed)
        offset e in
    let at_end : min g.end_offset g.end_offset ≡ g.end_offset = omega arith in
    (
      once.0,
      all,
      drain_empty tape.timeline.utf8_tails,
      cursor ∙ ap (λ n. some n) at_end,
      once.3,
      append_self (read_range offset g.end_offset g).bytes _ (once.1 ∙ sym all),
    )
