-- ===== src/Input/State.antt =====
-- `InputState` of src/input_state.rs. An `Instant` is a number of clock ticks; a method that takes
-- `&mut self` returns the new record. Messages are kept as data.
use mcp_repl.Prelude.{
  ℕ, ltb, leb, Bool, true, false, not, ◌&&◌, Option, none, some, if◌then◌else◌, List,
}

abbrev pub Instant : Type 0
Instant = ℕ

abbrev pub Text : Type 0
Text = List ℕ

pub record LatchedProtocolError : Type 0 where
  pub message : Text
  pub observed_at : Instant

pub record InputState : Type 0 where
  pub active : Bool
  pub ready_for_input : Bool
  pub ready_from_input_wait : Bool
  pub ready_observed_at : Option Instant
  pub completed_observed_at : Option Instant
  pub protocol_error : Option LatchedProtocolError
  pub session_end : Bool
  pub session_end_final : Bool

-- The texts of the errors; `event_type` stands for the formatted argument.
pub data InputError : Type 0 where
  not_ready : InputError
  no_active_input : Text → InputError
  after_input_wait : Text → InputError

pub data Outcome {ℓ} (A : Type ℓ) : Type ℓ where
  ok : A → Outcome A
  err : InputError → Outcome A

abbrev pub is_some {ℓ} : {A : Type ℓ} → Option A → Bool
is_some none = false
is_some (some a) = true

abbrev pub is_some_and {ℓ} : {A : Type ℓ} → Option A → (A → Bool) → Bool
is_some_and none p = false
is_some_and (some a) p = p a

-- `#[derive(Default)]`.
unfoldable pub default_input_state : InputState
default_input_state = record {
  active = false;
  ready_for_input = false;
  ready_from_input_wait = false;
  ready_observed_at = none;
  completed_observed_at = none;
  protocol_error = none;
  session_end = false;
  session_end_final = false;
}

unfoldable pub begin_input : InputState → Outcome InputState
begin_input s =
    if not s.ready_for_input
    then err not_ready
    else ok (record s {
      active = true;
      ready_for_input = false;
      ready_from_input_wait = false;
      completed_observed_at = none;
    })

unfoldable pub clear_request_progress : InputState → InputState
clear_request_progress s = record s { active = false; completed_observed_at = none }

unfoldable pub readiness_observed_after : InputState → Instant → Bool
readiness_observed_after s since =
    s.ready_for_input && is_some_and s.ready_observed_at (λ observed_at. ltb since observed_at)

unfoldable pub input_wait_readiness_available : InputState → Bool
input_wait_readiness_available s = s.ready_for_input && s.ready_from_input_wait

unfoldable pub validate_active_input : InputState → Text → Outcome (Unit {0})
validate_active_input s event_type =
    if not s.active
    then err (no_active_input event_type)
    else if is_some s.completed_observed_at
    then err (after_input_wait event_type)
    else ok tt

unfoldable pub record_ready_at : InputState → Instant → Bool → InputState
record_ready_at s observed_at from_input_wait = record s {
  ready_for_input = true;
  ready_from_input_wait = from_input_wait;
  ready_observed_at = some observed_at;
  completed_observed_at = if s.active then some observed_at else s.completed_observed_at;
}

unfoldable pub record_input_wait : InputState → Instant → InputState
unfolding record_ready_at
record_input_wait s observed_at = record_ready_at s observed_at true

unfoldable pub record_ready : InputState → Instant → InputState
unfolding record_ready_at
record_ready s observed_at = record_ready_at s observed_at false

-- Interrupt delivery does not change readiness.
unfoldable pub note_interrupt_sent : InputState → InputState
note_interrupt_sent s = s

unfoldable pub request_completion_ready : InputState → Bool
request_completion_ready s = s.active && is_some s.completed_observed_at

unfoldable pub request_completion_precedes_protocol_error : InputState → Bool
request_completion_precedes_protocol_error s = is_some_and s.protocol_error (λ error.
    s.active
    && is_some_and s.completed_observed_at (λ observed_at. leb observed_at (error.observed_at)))

unfoldable pub request_completion_observed_before : InputState → Instant → Bool
request_completion_observed_before s deadline =
    s.active && is_some_and s.completed_observed_at (λ observed_at. leb observed_at deadline)

-- `now` is what `Instant::now()` returns.
unfoldable pub latch_protocol_error : InputState → Text → Instant → InputState
latch_protocol_error s message now = record s {
  protocol_error = some (record { message = message; observed_at = now });
}

unfoldable pub take_protocol_error : InputState → Option Text × InputState
take_protocol_error s = (
  elim s.protocol_error [ none ↦ none | some e ↦ some e.message ],
  record s { protocol_error = none },
)

unfoldable pub note_session_end : InputState → InputState
note_session_end s = record s { session_end = true; session_end_final = true }

unfoldable pub take_session_end : InputState → Bool × InputState
take_session_end s = (s.session_end, record s { session_end = false })
