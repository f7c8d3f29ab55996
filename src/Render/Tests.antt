-- ===== src/Render/Tests.antt =====
-- Tests of the rendering of src/resolved_output.rs, and a case at which its theorem applies.
use mcp_repl.Prelude.{ℕ, ◌≡◌, refl, true, none, [], ◌∷◌, ◌++◌, codes, All}
use mcp_repl.Capture.Types.{input_echo, worker, raw}
use mcp_repl.Capture.Ring.Read.{OutputRange, OutputTextSpan}
use mcp_repl.Capture.Utf8.Decode.{
  two_bytes, three_bytes, four_bytes, first_char, validate, from_utf8,
}
use mcp_repl.Render.Content.{worker_stdout, worker_stderr, worker_stdout_transcript_only}
use mcp_repl.Render.Bytes.{render_loop, render_bytes}
use mcp_repl.Render.Push.{
  pager, input_echo_visibility, span_view, rendered_state, merge_last, join_or_push, add_text,
  push_text_with_merge, stderr_label, render_stderr_text, push_rendered, push_default_stdout,
  push_span_text, push_generated_echo,
}
use mcp_repl.Render.Emit.{after_push, emit_default_to, emit_span, emit_spans, emit}
use mcp_repl.Render.Events.{
  state_after_echo, render_echo, render_content, render_event, render_to, render_step,
  render_events, render_bytes_with_events_and_spans_with_state, events_from,
  contents_from_output_range_with_state,
}
use mcp_repl.Render.Labels.{IsLabelled}
use mcp_repl.Render.Labelled.{
  IsLabelledEvent, IsLabelledKind, contents_from_output_range_with_state-IsLabelled,
}

abbrev span : ℕ → ℕ → OutputTextSpan
span start_byte end_byte = record {
  start_byte = start_byte;
  end_byte = end_byte;
  is_stderr = true;
  origin = worker;
  source = raw;
}

-- Standard error after an unterminated line, an echo within it, and more of it.
abbrev mixed : OutputRange
mixed = record {
  start_offset = 10;
  end_offset = 18;
  bytes = codes "ab" ++ codes "oh no!";
  events = record { offset = 15; kind = input_echo (codes "> x") } ∷ [];
  text_spans = span 2 8 ∷ [];
}

contents_mixed :
    (contents_from_output_range_with_state pager mixed none).0
    ≡ worker_stdout (codes "ab")
      ∷ worker_stderr (codes "\nstderr: oh ")
      ∷ worker_stdout_transcript_only (codes "> x")
      ∷ worker_stderr (codes "stderr: no!")
      ∷ []
unfolding input_echo_visibility span_view rendered_state merge_last join_or_push add_text
    push_text_with_merge stderr_label render_stderr_text push_rendered push_default_stdout
    push_span_text push_generated_echo after_push emit_default_to emit_span emit_spans emit
    state_after_echo render_echo render_content render_event render_to render_step render_events
    render_bytes_with_events_and_spans_with_state events_from contents_from_output_range_with_state
    render_loop render_bytes two_bytes three_bytes four_bytes first_char validate from_utf8
contents_mixed = refl

contents_from_output_range_with_state-IsLabelled_example :
    All IsLabelled (contents_from_output_range_with_state pager mixed none).0
unfolding IsLabelledEvent IsLabelledKind
contents_from_output_range_with_state-IsLabelled_example =
    contents_from_output_range_with_state-IsLabelled pager mixed none (tt, tt) refl
