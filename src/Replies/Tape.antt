-- ===== src/Replies/Tape.antt =====
-- `PendingOutputTape` of src/pending_output_tape.rs: a timeline, and a cursor into its ring.
use mcp_repl.Prelude.{ℕ, ◌==◌, Bool, true, false, ◌||◌, if◌then◌else◌, List, [], ◌∷◌, is_empty}
use mcp_repl.Capture.Types.{Bytes, server}
use mcp_repl.Capture.Timeline.State.{
  OutputTimeline, append_text, append_input_wait, append_input_echo, append_request_boundary,
  append_session_end, seal_utf8_tails, seal_utf8_tails_blocking_visible_output,
}
use mcp_repl.Capture.Timeline.State as Timeline
use mcp_repl.Capture.Timeline.Buffer.{
  OutputCursor, OutputBuffer, new_buffer, start_capture, has_pending_output, current_settle_state,
  drain_formatted, last_text_ends_with_newline,
}
use mcp_repl.Capture.Timeline.Buffer as Buffer
use mcp_repl.Render.Content.{WorkerContent}
use mcp_repl.Render.Push.{bundle, RenderedTextState}
use mcp_repl.Render.Events.{contents_from_output_range_with_state}

-- The ring of `output` is that of `timeline`: what both share is kept once.
pub record PendingOutputTape : Type 0 where
  pub cursor : OutputCursor RenderedTextState
  pub timeline : OutputTimeline

pub data PendingSidebandKind : Type 0 where
  input_wait : Bytes → PendingSidebandKind
  -- prompt, line
  readline_result : Bytes → Bytes → PendingSidebandKind
  request_boundary session_end : PendingSidebandKind

pub record PendingOutputSettleState : Type 0 where
  pub progress_seq : ℕ
  pub readline_results_seen : ℕ
  pub has_image : Bool

-- `self.output`.
unfoldable pub output : PendingOutputTape → OutputBuffer RenderedTextState
output tape = record { cursor = tape.cursor; ring = tape.timeline.ring }

-- A change of `self.output`.
unfoldable pub with_output : PendingOutputTape → OutputBuffer RenderedTextState → PendingOutputTape
with_output tape b = record { cursor = b.cursor; timeline = record tape.timeline { ring = b.ring } }

unfoldable pub with_timeline : OutputTimeline → PendingOutputTape
with_timeline timeline = record {
  cursor = (start_capture (new_buffer timeline.ring)).cursor;
  timeline = timeline;
}

unfoldable pub append_server_stderr_bytes : Bytes → PendingOutputTape → PendingOutputTape
append_server_stderr_bytes bytes tape = record tape {
  timeline = append_text bytes true server tape.timeline;
}

unfoldable pub append_server_stderr_status_line : Bytes → PendingOutputTape → PendingOutputTape
append_server_stderr_status_line bytes tape = append_server_stderr_bytes bytes tape

abbrev starts_with_newline : Bytes → Bool
starts_with_newline [] = false
starts_with_newline (b ∷ bs) = b == b'\n'

-- The status stands on a line of its own.
unfoldable pub append_stdout_status_line : Bytes → PendingOutputTape → PendingOutputTape
append_stdout_status_line bytes tape =
    let sealed = seal_utf8_tails tape.timeline in
    let at_line_start = last_text_ends_with_newline sealed.ring.inner in
    let status = if at_line_start || starts_with_newline bytes then bytes else b'\n' ∷ bytes in
    if is_empty bytes
    then tape
    else record tape { timeline = append_text status false server sealed }

unfoldable pub append_sideband : PendingSidebandKind → PendingOutputTape → PendingOutputTape
append_sideband (input_wait prompt) tape = record tape {
  timeline = append_input_wait tape.timeline;
}
append_sideband (readline_result prompt line) tape = record tape {
  timeline = append_input_echo prompt line tape.timeline;
}
append_sideband request_boundary tape = record tape {
  timeline = append_request_boundary tape.timeline;
}
append_sideband session_end tape = record tape { timeline = append_session_end tape.timeline }

unfoldable pub has_pending : PendingOutputTape → Bool
has_pending tape = has_pending_output (output tape)

unfoldable pub clear : PendingOutputTape → PendingOutputTape
clear tape =
    let cleared : PendingOutputTape = record tape { timeline = Timeline.clear tape.timeline } in
    with_output cleared (start_capture (Buffer.clear (output cleared)))

unfoldable pub current_seq : PendingOutputTape → ℕ
current_seq tape = tape.timeline.ring.inner.progress_seq

unfoldable pub settle_state : PendingOutputTape → PendingOutputSettleState
settle_state tape =
    let s = current_settle_state (output tape) in
    record {
      progress_seq = s.progress_seq;
      readline_results_seen = s.input_echoes_seen;
      has_image = s.has_image;
    }

-- `self.output.drain_formatted(ProjectionMode::Bundle, flush_incomplete)`.
unfoldable pub drain_bundle :
    Bool → PendingOutputTape → (List WorkerContent × Bool) × PendingOutputTape
drain_bundle flush_incomplete tape =
    let r =
      drain_formatted [] (contents_from_output_range_with_state bundle) flush_incomplete
        (output tape) in
    (r.0, with_output tape r.1)

unfoldable pub drain_output : PendingOutputTape → (List WorkerContent × Bool) × PendingOutputTape
drain_output tape =
    drain_bundle false
      (record tape { timeline = seal_utf8_tails_blocking_visible_output tape.timeline })

unfoldable pub drain_final_output :
    PendingOutputTape → (List WorkerContent × Bool) × PendingOutputTape
drain_final_output tape =
    drain_bundle true (record tape { timeline = seal_utf8_tails tape.timeline })

unfoldable pub drain_sealed_output :
    PendingOutputTape → (List WorkerContent × Bool) × PendingOutputTape
drain_sealed_output tape =
    drain_bundle true (record tape { timeline = seal_utf8_tails tape.timeline })
