-- ===== src/Capture/Ring/MakeRoom.antt =====
-- `make_room_for` of src/output_capture.rs makes room: its loops end by their tests.
use mcp_repl.Prelude.{
  ℕ, zero, suc, ◌+◌, ◌-◌, ◌≤◌, ◌<◌, ◌≡◌, refl, Bool, true, false, List, [], ◌∷◌, length, max,
  u64_max, arith, saturating_add,
}
use mcp_repl.Capture.Types.{OutputEvent, OutputChunk, chunk_end}
use mcp_repl.Capture.Ring.State.{OutputRingInner, is_over, trim_to_offset, pop_front_event}
use mcp_repl.Capture.Ring.Room.{
  DropStats, no_drops, make_room_loop, make_room_for, drop_input_echoes_for_room,
}
use mcp_repl.Capture.Ring.Invariant.{Link, IsChain-front, IsChain, IsChain-le, IsSound}
use mcp_repl.Capture.Ring.Cleanup.{Frame, pop_front_event-Frame, drop_input_echoes_for_room-Frame}
use mcp_repl.Capture.Ring.Trim.{trim_to_offset-Trimmed, trim_to_offset_pops}

pub is_over_iff-le :
    (g : OutputRingInner) (needed capacity : ℕ)
    → capacity < u64_max
    → is_over g needed capacity ≡ false
    → g.buffered_bytes + g.buffered_event_bytes + needed ≤ capacity
is_over_iff-le g needed capacity h e = ground arith

-- A sound state that makes room in another: the end stays, the start may move on.
pub record Made (tight : Bool) (needed capacity : ℕ) (g g' : OutputRingInner) : Type 0 where
  pub sound : IsSound tight g'
  pub room : g'.buffered_bytes + g'.buffered_event_bytes + needed ≤ capacity
  pub same_end : g'.end_offset ≡ g.end_offset
  pub start_le : g.start_offset ≤ g'.start_offset

Link-refl : (tight : Bool) (a : ℕ) → Link tight a a
Link-refl true a = refl
Link-refl false a = omega arith

module _ (tight : Bool) where
  IsSound-Frame : {g g' : OutputRingInner} → IsSound tight g → Frame g g' → IsSound tight g'
  IsSound-Frame s f = ground arith

  pub trim_front :
      (g : OutputRingInner) (c : OutputChunk) (cs : List OutputChunk)
      → g.chunks ≡ c ∷ cs
      → IsSound tight g
      → let g' = trim_to_offset (max (chunk_end c) (saturating_add g.start_offset 1)) g in
        IsSound tight g'
        × (g'.end_offset ≡ g.end_offset)
        × (g.start_offset ≤ g'.start_offset)
        × (suc (length g'.chunks + length g'.events) ≤ length g.chunks + length g.events)
  trim_front g c cs e s =
      let offset = max (chunk_end c) (saturating_add g.start_offset 1) in
      let n : IsChain tight g.start_offset (c ∷ cs) g.end_offset = rw e at (s.chain) in
      ground (
        arith,
        IsChain-front tight g.start_offset g.end_offset c cs n,
        trim_to_offset-Trimmed tight offset g s,
        trim_to_offset_pops tight offset c cs g e s,
      )

  pop_front_event-fewer :
      (g : OutputRingInner) (e : OutputEvent) (es : List OutputEvent)
      → g.events ≡ e ∷ es
      → suc (length (pop_front_event g).events) ≤ length g.events
  unfolding pop_front_event
  pop_front_event-fewer g e es h = ground arith

  make_room_loop_step :
      (fuel needed capacity : ℕ) (d : DropStats) (g : OutputRingInner) (cs : List OutputChunk)
      (es : List OutputEvent)
      → g.chunks ≡ cs
      → g.events ≡ es
      → needed ≤ capacity
      → capacity < u64_max
      → IsSound tight g
      → ((d' : DropStats) (g' : OutputRingInner)
          → length g'.chunks + length g'.events < length g.chunks + length g.events
          → IsSound tight g'
          → Made tight needed capacity g' (make_room_loop fuel needed capacity d' g').1)
      → Made tight needed capacity g (make_room_loop (suc fuel) needed capacity d g).1
  unfolding make_room_loop
  make_room_loop_step fuel needed capacity d g [] [] p q n c s ih = ground (arith, p, q)
  make_room_loop_step fuel needed capacity d g [] (e ∷ es) p q n c s ih =
      let d' : DropStats = record d {
        dropped_visible_events = saturating_add d.dropped_visible_events 1;
      } in
      ground
        (arith, pop_front_event-Frame g, pop_front_event-fewer g e es, ih d' (pop_front_event g))
  make_room_loop_step fuel needed capacity d g (x ∷ cs) es p q n c s ih =
      let g' = trim_to_offset (max (chunk_end x) (saturating_add g.start_offset 1)) g in
      let d' : DropStats = record d {
        dropped_bytes = saturating_add d.dropped_bytes (g'.start_offset - g.start_offset);
      } in
      ground (arith, trim_front g x cs p s, ih d' g')

  pub make_room_loop-Made :
      (fuel needed capacity : ℕ) (d : DropStats) (g : OutputRingInner)
      → length g.chunks + length g.events < fuel
      → needed ≤ capacity
      → capacity < u64_max
      → IsSound tight g
      → Made tight needed capacity g (make_room_loop fuel needed capacity d g).1
  make_room_loop-Made zero needed capacity d g f n c s = absurd (omega arith)
  make_room_loop-Made (suc fuel) needed capacity d g f n c s =
      make_room_loop_step fuel needed capacity d g g.chunks g.events refl refl n c s
        (λ d' g' l s'. make_room_loop-Made fuel needed capacity d' g' (omega arith) n c s')

  -- make_room_for on a sound ring, with a need within the capacity and a capacity below u64::MAX:
  -- afterwards the need fits, the state is sound, its end is where it was and its start has not
  -- moved back.
  pub make_room_for-Made :
      (needed capacity : ℕ) (g : OutputRingInner)
      → needed ≤ capacity
      → capacity < u64_max
      → IsSound tight g
      → Made tight needed capacity g (make_room_for needed capacity g).1
  unfolding make_room_for
  make_room_for-Made needed capacity g n c s =
      let g' = (drop_input_echoes_for_room needed capacity g).1 in
      ground (
        arith,
        Link-refl tight g.end_offset,
        IsChain-le tight g.start_offset g.end_offset g.chunks s.chain,
        drop_input_echoes_for_room-Frame needed capacity g,
        make_room_loop-Made (suc (length g'.chunks + length g'.events)) needed capacity no_drops g',
      )
