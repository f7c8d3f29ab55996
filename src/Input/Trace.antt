-- ===== src/Input/Trace.antt =====
-- What holds of an `InputState` (src/input_state.rs) over any sequence of its operations.
use mcp_repl.Prelude.{◌≡◌, Bool, true, false, List, [], ◌∷◌, arith, All}
use mcp_repl.Input.State.{
  Instant, Text, InputState, ok, err, not_ready, is_some, default_input_state, begin_input,
  clear_request_progress, record_input_wait, record_ready, note_interrupt_sent,
  latch_protocol_error, take_protocol_error, note_session_end, take_session_end,
}

-- The calls that can change the state.
pub data Call : Type 0 where
  begin : Call
  clear_progress : Call
  input_wait : Instant → Call
  ready : Instant → Call
  interrupt_sent : Call
  latch : Text → Instant → Call
  take_error : Call
  end_session : Call
  take_end : Call

-- A refused `begin_input` leaves the state as it was.
unfoldable pub apply : InputState → Call → InputState
apply s begin = elim (begin_input s) [ ok s' ↦ s' | err e ↦ s ]
apply s clear_progress = clear_request_progress s
apply s (input_wait t) = record_input_wait s t
apply s (ready t) = record_ready s t
apply s interrupt_sent = note_interrupt_sent s
apply s (latch m t) = latch_protocol_error s m t
apply s take_error = (take_protocol_error s).1
apply s end_session = note_session_end s
apply s take_end = (take_session_end s).1

unfoldable pub run : InputState → List Call → InputState
unfolding apply
run s [] = s
run s (c ∷ cs) = run (apply s c) cs

pub record IsConsistent (s : InputState) : Type 0 where
  -- A completion belongs to an active input, and is its latest readiness report.
  pub completed_active : is_some s.completed_observed_at ≡ true → s.active ≡ true
  pub completed_latest :
      is_some s.completed_observed_at ≡ true → s.completed_observed_at ≡ s.ready_observed_at
  -- An active input has been completed exactly when the worker is ready again.
  pub active_ready : s.active ≡ true → s.ready_for_input ≡ is_some s.completed_observed_at
  pub ready_observed : s.ready_for_input ≡ true → is_some s.ready_observed_at ≡ true
  pub wait_ready : s.ready_from_input_wait ≡ true → s.ready_for_input ≡ true
  pub end_final : s.session_end ≡ true → s.session_end_final ≡ true

apply-IsConsistent : (s : InputState) (c : Call) → IsConsistent s → IsConsistent (apply s c)
unfolding apply begin_input clear_request_progress record_input_wait record_ready
    note_interrupt_sent latch_protocol_error take_protocol_error note_session_end take_session_end
apply-IsConsistent s begin h = ground arith
apply-IsConsistent s c h = ground arith

run-IsConsistent_from : (s : InputState) (cs : List Call) → IsConsistent s → IsConsistent (run s cs)
unfolding run
run-IsConsistent_from s [] h = h
run-IsConsistent_from s (c ∷ cs) h = run-IsConsistent_from (apply s c) cs (apply-IsConsistent s c h)

-- After any sequence of calls on a fresh state: a recorded completion belongs to an active input
-- and is the latest readiness report; an active input is completed exactly when the worker is
-- ready; a ready state has a time of readiness; readiness from an input wait is readiness; and a
-- pending session end is also a final one.
pub run-IsConsistent : (cs : List Call) → IsConsistent (run default_input_state cs)
unfolding default_input_state
run-IsConsistent cs = run-IsConsistent_from default_input_state cs (ground arith)

abbrev pub is_readiness : Call → Bool
is_readiness (input_wait t) = true
is_readiness (ready t) = true
is_readiness _ = false

abbrev pub NoReadiness : List Call → Type 0
NoReadiness = All (λ c. is_readiness c ≡ false)

apply-not_ready :
    (s : InputState) (c : Call)
    → is_readiness c ≡ false
    → s.ready_for_input ≡ false
    → (apply s c).ready_for_input ≡ false
unfolding apply begin_input clear_request_progress record_input_wait record_ready
    note_interrupt_sent latch_protocol_error take_protocol_error note_session_end take_session_end
apply-not_ready s begin n h = ground arith
apply-not_ready s c n h = ground arith

run-not_ready :
    (s : InputState) (cs : List Call)
    → NoReadiness cs
    → s.ready_for_input ≡ false
    → (run s cs).ready_for_input ≡ false
unfolding run
run-not_ready s [] n h = h
run-not_ready s (c ∷ cs) n h = run-not_ready (apply s c) cs n.1 (apply-not_ready s c n.0 h)

begin_input-ok-not_ready :
    (s : InputState) {s' : InputState} → begin_input s ≡ ok s' → s'.ready_for_input ≡ false
unfolding begin_input
begin_input-ok-not_ready s e = ground arith

-- After an accepted batch, whatever else is called, the next batch is refused until the worker
-- reports readiness.
pub begin_input_gate :
    (s : InputState) {s' : InputState} (cs : List Call)
    → begin_input s ≡ ok s'
    → NoReadiness cs
    → begin_input (run s' cs) ≡ err not_ready
unfolding begin_input
begin_input_gate s {s'} cs e n =
    ground (arith, begin_input-ok-not_ready s {s' = s'}, run-not_ready s' cs)
