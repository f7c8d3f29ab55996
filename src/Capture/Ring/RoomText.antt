-- ===== src/Capture/Ring/RoomText.antt =====
-- Making room in a ring without gaps (src/output_capture.rs), and what its text is then.
use mcp_repl.Prelude.{
  ℕ, zero, suc, ◌+◌, ◌-◌, ◌≡◌, refl, true, List, [], ◌∷◌, length, max, arith, saturating_add,
  drop-length,
}
use mcp_repl.Capture.Types.{OutputEvent, OutputChunk, chunk_end, event_size_bytes}
use mcp_repl.Capture.Ring.State.{OutputRingInner, trim_to_offset, pop_front_event, note_progress}
use mcp_repl.Capture.Ring.Room.{
  DropStats, no_drops, make_room_loop, make_room_for, drop_input_echoes_for_room,
}
use mcp_repl.Capture.Ring.Append.{append_truncation_notice_locked, truncation_notice_kind}
use mcp_repl.Capture.Ring.Invariant.{retained, IsSound, IsChain-tight}
use mcp_repl.Capture.Ring.Cleanup.{pop_front_event-Frame, drop_input_echoes_for_room-Frame}
use mcp_repl.Capture.Ring.MakeRoom.{trim_front}
use mcp_repl.Capture.Ring.Contents.{
  Later, Later-refl, Later-trans, Later-Frame, trim_to_offset-Later, length-retained,
}
use mcp_repl.Capture.Ring.Grow.{note_progress_same, push_event_same}

make_room_loop_step :
    (fuel needed capacity : ℕ) (d : DropStats) (g : OutputRingInner) (cs : List OutputChunk)
    (es : List OutputEvent)
    → g.chunks ≡ cs
    → g.events ≡ es
    → IsSound true g
    → ((d' : DropStats) (g' : OutputRingInner)
        → IsSound true g'
        → Later g' (make_room_loop fuel needed capacity d' g').1)
    → Later g (make_room_loop (suc fuel) needed capacity d g).1
unfolding make_room_loop
make_room_loop_step fuel needed capacity d g [] [] p q s ih = ground (arith, p, q, Later-refl g)
make_room_loop_step fuel needed capacity d g [] (e ∷ es) p q s ih =
    let d' : DropStats = record d {
      dropped_visible_events = saturating_add d.dropped_visible_events 1;
    } in
    let g' = pop_front_event g in
    let f = pop_front_event-Frame g in
    let rest = Later-trans (Later-Frame f) (ih d' g' (ground (arith, f))) in
    ground (arith, p, q, Later-refl g, rest)
make_room_loop_step fuel needed capacity d g (x ∷ cs) es p q s ih =
    let offset = max (chunk_end x) (saturating_add g.start_offset 1) in
    let g' = trim_to_offset offset g in
    let d' : DropStats = record d {
      dropped_bytes = saturating_add d.dropped_bytes (g'.start_offset - g.start_offset);
    } in
    let t = trim_front true g x cs p s in
    let rest = Later-trans (trim_to_offset-Later offset g s) (ih d' g' t.0) in
    ground (arith, p, Later-refl g, rest)

make_room_loop-Later :
    (fuel needed capacity : ℕ) (d : DropStats) (g : OutputRingInner)
    → IsSound true g
    → Later g (make_room_loop fuel needed capacity d g).1
make_room_loop-Later zero needed capacity d g s = unfold make_room_loop in Later-refl g
make_room_loop-Later (suc fuel) needed capacity d g s =
    make_room_loop_step fuel needed capacity d g g.chunks g.events refl refl s
      (λ d' g' s'. make_room_loop-Later fuel needed capacity d' g' s')

-- Making room in a sound ring without gaps drops text from the front only.
pub make_room_for-Later :
    (needed capacity : ℕ) (g : OutputRingInner)
    → IsSound true g
    → Later g (make_room_for needed capacity g).1
unfolding make_room_for
make_room_for-Later needed capacity g s =
    let g' = (drop_input_echoes_for_room needed capacity g).1 in
    let f = drop_input_echoes_for_room-Frame needed capacity g in
    let loop =
      make_room_loop-Later (suc (length g'.chunks + length g'.events)) needed capacity no_drops g'
        (ground (arith, f)) in
    let rest = Later-trans (Later-Frame f) loop in
    ground (
      arith,
      rest,
      IsChain-tight g.start_offset g.end_offset g.chunks s.chain,
      length-retained true g.start_offset g.end_offset g.chunks s.chain,
      drop-length (retained g.chunks),
    )

pub append_truncation_notice_locked-Later :
    (capacity offset extra : ℕ) (g : OutputRingInner)
    → IsSound true g
    → Later g (append_truncation_notice_locked capacity offset extra g)
unfolding append_truncation_notice_locked
append_truncation_notice_locked-Later capacity offset extra g s =
    let needed = saturating_add (event_size_bytes truncation_notice_kind) extra in
    let g1 = (make_room_for needed capacity g).1 in
    let g2 = note_progress g1 in
    ground (
      arith,
      Later-refl g,
      make_room_for-Later needed capacity g s,
      note_progress_same g1,
      push_event_same (max offset g1.start_offset) truncation_notice_kind g2,
    )
