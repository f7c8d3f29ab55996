-- ===== src/Input/Tests.antt =====
-- Runs of `InputState` (src/input_state.rs) on concrete calls.
use mcp_repl.Prelude.{◌≡◌, refl, true, false, List, [], ◌∷◌, arith, some, none}
use mcp_repl.Input.State.{
  InputState, ok, err, not_ready, begin_input, default_input_state, record_ready,
}
use mcp_repl.Input.Trace.{
  Call, begin, input_wait, ready, interrupt_sent, latch, take_error, run, apply, IsConsistent,
  run-IsConsistent, begin_input_gate,
}

-- The worker becomes ready, takes a batch, is interrupted and completes it.
abbrev calls : List Call
calls = ready 1 ∷ begin ∷ interrupt_sent ∷ input_wait 5 ∷ []

run-IsConsistent_example : IsConsistent (run default_input_state calls)
run-IsConsistent_example = run-IsConsistent calls

abbrev ready_state : InputState
ready_state = record {
  active = false;
  ready_for_input = true;
  ready_from_input_wait = false;
  ready_observed_at = some 1;
  completed_observed_at = none;
  protocol_error = none;
  session_end = false;
  session_end_final = false;
}

ready_state-reached : run default_input_state (ready 1 ∷ []) ≡ ready_state
unfolding run apply record_ready default_input_state
ready_state-reached = refl

abbrev started_state : InputState
started_state = record ready_state { active = true; ready_for_input = false }

ready_state-begins : begin_input ready_state ≡ ok started_state
unfolding begin_input
ready_state-begins = refl

begin_input_gate_example :
    begin_input (run started_state (interrupt_sent ∷ latch [] 4 ∷ take_error ∷ [])) ≡ err not_ready
begin_input_gate_example =
    begin_input_gate ready_state (interrupt_sent ∷ latch [] 4 ∷ take_error ∷ []) ready_state-begins
      (ground arith)
