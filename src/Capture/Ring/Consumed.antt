-- ===== src/Capture/Ring/Consumed.antt =====
-- What consumption (src/output_capture.rs, `consume_to` and its boundary-event form) leaves.
use mcp_repl.Prelude.{ℕ, ◌≤◌, ◌<◌, ◌≡◌, refl, Bool, min, max, arith}
use mcp_repl.Capture.Ring.State.{
  OutputRingInner, trim_chunks, settle_start, cleanup_front_before_boundary,
  trim_to_offset_consuming_boundary_events,
}
use mcp_repl.Capture.Ring.Consume.{consume_inner, consume_inner_with_boundary_events}
use mcp_repl.Capture.Ring.Invariant.{IsSound, IsChain-le}
use mcp_repl.Capture.Ring.Cleanup.{
  cleanup_front-Frame, cleanup_front_before_boundary-Frame,
  cleanup_front_consuming_boundary_events-Frame,
}
use mcp_repl.Capture.Ring.Trim.{
  Trimmed, trim_chunks-Trimmed, settle_start-Trimmed, trim_to_offset-Trimmed,
}

-- The state is sound, starts at the offset (or where it started or ends), and holds no more.
pub record Consumed (tight : Bool) (offset : ℕ) (g g' : OutputRingInner) : Type 0 where
  pub sound : IsSound tight g'
  pub start_eq : g'.start_offset ≡ max g.start_offset (min offset g.end_offset)
  pub same_end : g'.end_offset ≡ g.end_offset
  pub less : g'.buffered_bytes ≤ g.buffered_bytes
  pub less_events : g'.buffered_event_bytes ≤ g.buffered_event_bytes

trim_boundary-Trimmed :
    (tight : Bool) (o : ℕ) (g : OutputRingInner)
    → IsSound tight g
    → g.start_offset < o
    → o ≤ g.end_offset
    → let g' =
        settle_start cleanup_front_before_boundary o
          (trim_chunks cleanup_front_before_boundary o g.chunks g) in
      Trimmed tight o g g' × (g'.start_offset ≡ o)
trim_boundary-Trimmed tight o g s lt le =
    let t =
      trim_chunks-Trimmed cleanup_front_before_boundary cleanup_front_before_boundary-Frame tight o
        g.chunks g refl s lt le in
    settle_start-Trimmed cleanup_front_before_boundary cleanup_front_before_boundary-Frame tight o
      (trim_chunks cleanup_front_before_boundary o g.chunks g) {h = g} t (omega arith)

-- consume_to keeps a sound state sound and its end where it was, moves its start to the offset (or
-- leaves it, or moves it to the end, when the offset lies outside), and makes neither counter
-- larger.
pub consume_inner-Consumed :
    (tight : Bool) (offset : ℕ) (g : OutputRingInner)
    → IsSound tight g
    → Consumed tight offset g (consume_inner offset g)
unfolding consume_inner
consume_inner-Consumed tight offset g s = ground (
  arith,
  IsChain-le tight g.start_offset g.end_offset g.chunks s.chain,
  cleanup_front-Frame g,
  trim_to_offset-Trimmed tight (min offset g.end_offset) g s,
)

-- For any number of boundary events, consume_to_with_boundary_events keeps a sound state sound and
-- its end where it was, moves its start to the offset (or leaves it, or moves it to the end, when
-- the offset lies outside), and makes neither counter larger.
pub consume_inner_with_boundary_events-Consumed :
    (tight : Bool) (offset count : ℕ) (g : OutputRingInner)
    → IsSound tight g
    → Consumed tight offset g (consume_inner_with_boundary_events offset count g)
unfolding consume_inner_with_boundary_events trim_to_offset_consuming_boundary_events
consume_inner_with_boundary_events-Consumed tight offset count g s =
    let o = min offset g.end_offset in
    let o' = min o g.end_offset in
    let g' =
      settle_start cleanup_front_before_boundary o'
        (trim_chunks cleanup_front_before_boundary o' g.chunks g) in
    ground (
      arith,
      IsChain-le tight g.start_offset g.end_offset g.chunks s.chain,
      cleanup_front_consuming_boundary_events-Frame count g,
      cleanup_front_consuming_boundary_events-Frame count g',
      trim_boundary-Trimmed tight o' g s,
    )
