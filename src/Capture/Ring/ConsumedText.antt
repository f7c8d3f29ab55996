-- ===== src/Capture/Ring/ConsumedText.antt =====
-- The text that a ring without gaps (src/output_capture.rs) holds after a reader has consumed some.
use mcp_repl.Prelude.{ℕ, ◌≤◌, ◌<◌, refl, true, min, arith}
use mcp_repl.Capture.Ring.State.{
  OutputRingInner, trim_chunks, settle_start, cleanup_front_before_boundary,
  trim_to_offset_consuming_boundary_events,
}
use mcp_repl.Capture.Ring.Consume.{consume_inner_with_boundary_events}
use mcp_repl.Capture.Ring.Invariant.{IsSound}
use mcp_repl.Capture.Ring.Cleanup.{
  cleanup_front_before_boundary-Frame, cleanup_front_consuming_boundary_events-Frame,
}
use mcp_repl.Capture.Ring.Trim.{trim_chunks-Trimmed, settle_start-Trimmed, settle_start-chunks}
use mcp_repl.Capture.Ring.Contents.{Later, Later-refl, Later-trans, Later-Frame, trim_chunks-Later}

trim_boundary-Later :
    (o : ℕ) (g : OutputRingInner)
    → IsSound true g
    → g.start_offset < o
    → o ≤ g.end_offset
    → Later g (
        settle_start cleanup_front_before_boundary o
          (trim_chunks cleanup_front_before_boundary o g.chunks g))
trim_boundary-Later o g s lt le =
    let cleanup = cleanup_front_before_boundary in
    let frame = cleanup_front_before_boundary-Frame in
    let g1 = trim_chunks cleanup o g.chunks g in
    ground (
      arith,
      trim_chunks-Trimmed cleanup frame true o g.chunks g refl s lt le,
      trim_chunks-Later cleanup frame o g.chunks g refl s,
      settle_start-Trimmed cleanup frame true o g1 {h = g},
      settle_start-chunks cleanup frame o g1,
    )

-- What is consumed is text from the front only.
pub consume_inner_with_boundary_events-Later :
    (offset count : ℕ) (g : OutputRingInner)
    → IsSound true g
    → Later g (consume_inner_with_boundary_events offset count g)
unfolding consume_inner_with_boundary_events trim_to_offset_consuming_boundary_events
consume_inner_with_boundary_events-Later offset count g s =
    let o' = min (min offset g.end_offset) g.end_offset in
    let g' =
      settle_start cleanup_front_before_boundary o'
        (trim_chunks cleanup_front_before_boundary o' g.chunks g) in
    ground (
      arith,
      Later-refl g,
      Later-Frame (cleanup_front_consuming_boundary_events-Frame count g),
      λ (lt : g.start_offset < o'). λ (le : o' ≤ g.end_offset).
          Later-trans (trim_boundary-Later o' g s lt le)
            (Later-Frame (cleanup_front_consuming_boundary_events-Frame count g')),
    )
