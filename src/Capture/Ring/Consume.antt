-- ===== src/Capture/Ring/Consume.antt =====
-- `OutputRing` of src/output_capture.rs: what a reader has consumed is dropped.
use mcp_repl.Prelude.{ℕ, min, ltb, ◌==◌, if◌then◌else◌}
use mcp_repl.Capture.Ring.State.{
  OutputRingInner, empty_inner, cleanup_front, trim_to_offset,
  trim_to_offset_consuming_boundary_events,
}
use mcp_repl.Capture.Ring.Append.{OutputRing}

unfoldable pub consume_inner : ℕ → OutputRingInner → OutputRingInner
consume_inner offset g =
    let o = min offset g.end_offset in
    if ltb o g.start_offset
    then g
    else if o == g.start_offset
    then cleanup_front g
    else trim_to_offset o g

unfoldable pub consume_to : ℕ → OutputRing → OutputRing
consume_to offset r = record r { inner = consume_inner offset r.inner }

unfoldable pub consume_inner_with_boundary_events : ℕ → ℕ → OutputRingInner → OutputRingInner
consume_inner_with_boundary_events offset count g =
    let o = min offset g.end_offset in
    if ltb o g.start_offset then g else trim_to_offset_consuming_boundary_events o count g

unfoldable pub consume_to_with_boundary_events : ℕ → ℕ → OutputRing → OutputRing
consume_to_with_boundary_events offset count r = record r {
  inner = consume_inner_with_boundary_events offset count r.inner;
}

unfoldable pub reset : OutputRing → OutputRing
reset r = record r { inner = empty_inner }
