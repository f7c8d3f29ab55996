-- ===== src/Render/Events.antt =====
-- A range of output as contents: `render_bytes_with_events_and_spans_with_state` and
-- `contents_from_output_range_with_state` of src/resolved_output.rs.
use mcp_repl.Prelude.{
  ℕ, ◌-◌, ltb, Bool, true, false, not, ◌&&◌, ◌||◌, Option, none, some, if◌then◌else◌, List, [], ◌∷◌,
  length, map, is_empty, saturating_add,
}
use mcp_repl.Capture.Types.{
  Bytes, OutputEvent, OutputEventKind, image, text, input_echo, input_wait, request_boundary,
  session_end,
}
use mcp_repl.Capture.Ring.Read.{OutputRange}
use mcp_repl.Render.Content.{
  WorkerContent, content_text, content_image, TextStream, stdout, stderr, stream_eq,
  reply_and_transcript,
}
use mcp_repl.Render.Push.{
  TextSpanView, span_view, ProjectionMode, RenderedTextState, Rendering, push_content,
  push_generated_echo,
}
use mcp_repl.Render.Emit.{emit}

-- The variables of the loop over the events.
pub record Walk : Type 0 where
  pub cursor : ℕ
  pub last_content_was_input_echo : Bool
  pub out : Rendering

abbrev pub stream_of : Bool → TextStream
stream_of true = stderr
stream_of false = stdout

abbrev pub is_open_stderr : Option RenderedTextState → Bool
is_open_stderr none = false
is_open_stderr (some s) = stream_eq s.stream stderr && not s.terminated

-- The state after an echo: its own, or none where it hides behind unterminated standard error.
unfoldable pub state_after_echo :
    Bool → Option RenderedTextState → Option RenderedTextState → Option RenderedTextState
state_after_echo pushed (some s) last = some s
state_after_echo pushed none last = if pushed && is_open_stderr last then none else last

unfoldable pub render_echo : ProjectionMode → Bytes → Walk → Walk
render_echo mode echo w =
    let p = push_generated_echo w.out.contents echo mode w.last_content_was_input_echo in
    record w {
      last_content_was_input_echo = p.0 || w.last_content_was_input_echo;
      out = record {
        contents = p.2;
        last_rendered_text = state_after_echo p.0 p.1 w.out.last_rendered_text;
      };
    }

-- An event with a content of its own.
unfoldable pub render_content : WorkerContent → Walk → Walk
render_content c w = record w {
  last_content_was_input_echo = false;
  out = record { contents = push_content w.out.contents c; last_rendered_text = none };
}

-- The `match` on the event's kind.
unfoldable pub render_event : ProjectionMode → OutputEventKind → Walk → Walk
render_event mode (input_echo echo) w = render_echo mode echo w
render_event mode (image id payload mime_type is_new) w =
    render_content (content_image payload mime_type id is_new) w
render_event mode (text t is_stderr origin) w =
    render_content (content_text t (stream_of is_stderr) origin reply_and_transcript) w
render_event mode input_wait w = record w { last_content_was_input_echo = false }
render_event mode request_boundary w = record w {
  last_content_was_input_echo = false;
  out = record w.out { last_rendered_text = none };
}
render_event mode session_end w = record w {
  last_content_was_input_echo = false;
  out = record w.out { last_rendered_text = none };
}

module _ (bytes : Bytes) (base_offset end_offset : ℕ) (spans : List TextSpanView)
    (mode : ProjectionMode) where
  -- The text up to an offset.
  unfoldable pub render_to : ℕ → Walk → Walk
  render_to to w =
      let r = emit bytes base_offset spans w.cursor to (not w.last_content_was_input_echo) w.out in
      if ltb w.cursor to
      then record w {
        last_content_was_input_echo = not r.0 && w.last_content_was_input_echo;
        out = r.1;
      }
      else w

  unfoldable pub render_step : OutputEvent → Walk → Walk
  render_step event w = record (render_event mode event.kind (render_to event.offset w)) {
    cursor = event.offset;
  }

  -- Events outside of the range are skipped; one behind the text ends the loop.
  unfoldable pub render_events : List OutputEvent → Walk → Walk
  render_events [] w = w
  render_events (event ∷ events) w =
      let skipped = render_events events w in
      let more = render_events events (render_step event w) in
      if ltb event.offset base_offset || ltb end_offset event.offset
      then skipped
      else if ltb (saturating_add base_offset (length bytes)) event.offset
      then w
      else more

  unfoldable pub render_bytes_with_events_and_spans_with_state :
      List OutputEvent → Option RenderedTextState → List WorkerContent × Option RenderedTextState
  render_bytes_with_events_and_spans_with_state events previous_rendered_text =
      let w = render_to end_offset (
        render_events events (record {
          cursor = base_offset;
          last_content_was_input_echo = false;
          out = record { contents = []; last_rendered_text = previous_rendered_text };
        })) in
      (w.out.contents, w.out.last_rendered_text)

-- The events of a range, counted from its start.
unfoldable pub events_from : ℕ → ℕ → List OutputEvent → List OutputEvent
events_from base_offset end_offset [] = []
events_from base_offset end_offset (event ∷ events) =
    let rest = events_from base_offset end_offset events in
    if ltb event.offset base_offset || ltb end_offset event.offset
    then rest
    else record event { offset = event.offset - base_offset } ∷ rest

unfoldable pub contents_from_output_range_with_state :
    ProjectionMode
    → OutputRange
    → Option RenderedTextState
    → List WorkerContent × Option RenderedTextState
contents_from_output_range_with_state mode range previous_rendered_text =
    if is_empty range.bytes && is_empty range.events
    then ([], previous_rendered_text)
    else render_bytes_with_events_and_spans_with_state range.bytes 0 (length range.bytes)
        (map span_view range.text_spans) mode
        (events_from range.start_offset range.end_offset range.events) previous_rendered_text
