-- ===== src/Capture/Ring/Cleanup.antt =====
-- What the cleanups of src/output_capture.rs and the dropping of events leave alone.
use mcp_repl.Prelude.{
  saturating_add, ℕ, zero, suc, ◌+◌, ◌-◌, ◌≤◌, ◌≡◌, inl, inr, Bool, some, Option-cases, List, [],
  ◌∷◌, length, arith,
}
use mcp_repl.Capture.Types.{OutputEvent, event_size_bytes}
use mcp_repl.Capture.Ring.State.{
  OutputRingInner, pop_events_while, pop_events, pop_front_event, cleanup_front_before_boundary,
  cleanup_front, pop_boundary_events, cleanup_front_consuming_boundary_events,
}
use mcp_repl.Capture.Ring.Room.{
  remove_echo, pop_oldest_input_echo_event, drop_echoes_loop, drop_input_echoes_for_room,
}
use mcp_repl.Capture.Ring.Invariant.{sum_events}

-- `g'` differs from `g` by events that were dropped, each with its bytes.
pub record Frame (g g' : OutputRingInner) : Type 0 where
  pub same_chunks : g'.chunks ≡ g.chunks
  pub same_start : g'.start_offset ≡ g.start_offset
  pub same_end : g'.end_offset ≡ g.end_offset
  pub same_bytes : g'.buffered_bytes ≡ g.buffered_bytes
  pub counted :
      g.buffered_event_bytes ≡ sum_events g.events → g'.buffered_event_bytes ≡ sum_events g'.events
  pub less : g'.buffered_event_bytes ≤ g.buffered_event_bytes
  pub fewer : length g'.events ≤ length g.events

pub Frame-refl : (g : OutputRingInner) → Frame g g
Frame-refl g = ground arith

pub Frame-trans : {g h k : OutputRingInner} → Frame g h → Frame h k → Frame g k
Frame-trans p q = ground arith

-- A change of `line_ends` alone.
pub Frame-line_ends : (g : OutputRingInner) (ls : List ℕ) → Frame g (record g { line_ends = ls })
Frame-line_ends g ls = ground arith

pop_events_while_lem :
    (p : OutputEvent → Bool) (es : List OutputEvent) (b : ℕ)
    → (b ≡ sum_events es → (pop_events_while p es b).1 ≡ sum_events (pop_events_while p es b).0)
      × ((pop_events_while p es b).1 ≤ b)
      × (length (pop_events_while p es b).0 ≤ length es)
unfolding pop_events_while
pop_events_while_lem p [] b = ground arith
pop_events_while_lem p (e ∷ es) b =
    ground (arith, pop_events_while_lem p es (b - event_size_bytes e.kind))

pub pop_events-Frame : (p : OutputEvent → Bool) (g : OutputRingInner) → Frame g (pop_events p g)
unfolding pop_events
pop_events-Frame p g = ground (arith, pop_events_while_lem p g.events g.buffered_event_bytes)

pub cleanup_front_before_boundary-Frame :
    (g : OutputRingInner) → Frame g (cleanup_front_before_boundary g)
unfolding cleanup_front_before_boundary
cleanup_front_before_boundary-Frame g = Frame-trans (Frame-line_ends g _) (pop_events-Frame _ _)

pub cleanup_front-Frame : (g : OutputRingInner) → Frame g (cleanup_front g)
unfolding cleanup_front
cleanup_front-Frame g = Frame-trans (cleanup_front_before_boundary-Frame g) (pop_events-Frame _ _)

pub pop_front_event-Frame : (g : OutputRingInner) → Frame g (pop_front_event g)
unfolding pop_front_event
pop_front_event-Frame g = ground arith

pop_boundary_events-Frame :
    (count : ℕ) (g : OutputRingInner) → Frame g (pop_boundary_events count g)
unfolding pop_boundary_events
pop_boundary_events-Frame zero g = Frame-refl g
pop_boundary_events-Frame (suc count) g =
    ground (arith, pop_front_event-Frame g, pop_boundary_events-Frame count (pop_front_event g))

pub cleanup_front_consuming_boundary_events-Frame :
    (count : ℕ) (g : OutputRingInner) → Frame g (cleanup_front_consuming_boundary_events count g)
unfolding cleanup_front_consuming_boundary_events
cleanup_front_consuming_boundary_events-Frame count g =
    Frame-trans (cleanup_front_before_boundary-Frame g) (pop_boundary_events-Frame count _)

remove_echo_lem :
    (es : List OutputEvent) {e : OutputEvent} {rest : List OutputEvent}
    → remove_echo es ≡ some (e, rest)
    → (sum_events es ≡ event_size_bytes e.kind + sum_events rest) × (length es ≡ suc (length rest))
unfolding remove_echo
remove_echo_lem [] h = cc
remove_echo_lem (x ∷ es) {e} {rest} h = elim (Option-cases (remove_echo es)) [
  | inl q ↦ ground (arith, q)
  | inr ((y, ys), q) ↦ let ih = remove_echo_lem es {e = y} {rest = ys} q in ground (arith, q, ih)
]

pub pop_oldest_input_echo_event-Frame :
    (g : OutputRingInner) {g' : OutputRingInner}
    → pop_oldest_input_echo_event g ≡ some g'
    → Frame g g' × (length g.events ≡ suc (length g'.events))
unfolding pop_oldest_input_echo_event
pop_oldest_input_echo_event-Frame g {g'} h = elim (Option-cases (remove_echo g.events)) [
  | inl q ↦ ground (arith, q)
  | inr ((e, es), q) ↦ ground (arith, q, remove_echo_lem g.events {e = e} {rest = es} q)
]

drop_echoes_loop-Frame :
    (fuel needed capacity dropped : ℕ) (g : OutputRingInner)
    → Frame g (drop_echoes_loop fuel needed capacity dropped g).1
unfolding drop_echoes_loop
drop_echoes_loop-Frame zero needed capacity dropped g = Frame-refl g
drop_echoes_loop-Frame (suc fuel) needed capacity dropped g =
    elim (Option-cases (pop_oldest_input_echo_event g)) [
      | inl q ↦ ground (arith, q)
      | inr (g', q) ↦ ground (
        arith,
        q,
        pop_oldest_input_echo_event-Frame g {g' = g'} q,
        drop_echoes_loop-Frame fuel needed capacity (saturating_add dropped 1) g',
      )
    ]

pub drop_input_echoes_for_room-Frame :
    (needed capacity : ℕ) (g : OutputRingInner)
    → Frame g (drop_input_echoes_for_room needed capacity g).1
unfolding drop_input_echoes_for_room
drop_input_echoes_for_room-Frame needed capacity g =
    drop_echoes_loop-Frame (suc (length g.events)) needed capacity 0 g
