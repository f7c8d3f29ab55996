-- ===== src/Render/Labelled.antt =====
-- The label of standard error from event to event of a range (src/resolved_output.rs).
use mathlib.Core.Path.{subst}
use mcp_repl.Prelude.{
  ℕ, ltb, ◌≡◌, refl, inl, inr, Bool, true, false, not, ◌&&◌, ◌||◌, Option, none, some, List, [],
  ◌∷◌, is_empty, map, length, All, arith, Bool-cases,
}
use mcp_repl.Capture.Types.{
  Bytes, ContentOrigin, worker, OutputEvent, OutputEventKind, image, text, input_echo, input_wait,
  request_boundary, session_end,
}
use mcp_repl.Capture.Ring.Read.{OutputRange}
use mcp_repl.Render.Content.{
  WorkerContent, content_text, content_image, stdout, ContentVisibility, reply_and_transcript,
  transcript_only,
}
use mcp_repl.Render.Push.{
  TextSpanView, span_view, ProjectionMode, reply, transcript, pager, bundle, input_echo_visibility,
  RenderedTextState, Rendering, add_text, push_generated_echo, rendered_state,
}
use mcp_repl.Render.Emit.{emit}
use mcp_repl.Render.Events.{
  Walk, stream_of, is_open_stderr, state_after_echo, render_echo, render_content, render_event,
  render_to, render_step, render_events, render_bytes_with_events_and_spans_with_state, events_from,
  contents_from_output_range_with_state,
}
use mcp_repl.Render.Adding.{add_text_stdout}
use mcp_repl.Render.Labels.{has_label, IsLabelled, IsJoined, IsLabelling, All-snoc}
use mcp_repl.Render.Labelling.{emit-IsLabelling}

-- The rendering passes on the text of an event as it is: its standard error carries the label.
unfoldable pub IsLabelledKind : OutputEventKind → Type 0
IsLabelledKind (text t is_stderr origin) = is_stderr ≡ true → has_label t ≡ true
IsLabelledKind (image id payload mime_type is_new) = Unit {0}
IsLabelledKind (input_echo echo) = Unit {0}
IsLabelledKind input_wait = Unit {0}
IsLabelledKind request_boundary = Unit {0}
IsLabelledKind session_end = Unit {0}

unfoldable pub IsLabelledEvent : OutputEvent → Type 0
IsLabelledEvent event = IsLabelledKind event.kind

unfoldable IsWalk : Walk → Type 0
IsWalk w = IsLabelling (not w.last_content_was_input_echo) w.out

merging-IsJoined :
    (m : Bool) (s : Option RenderedTextState) (contents : List WorkerContent)
    → IsJoined m s contents
    → IsJoined true s contents
merging-IsJoined m none contents j = tt
merging-IsJoined m (some s) contents j = λ a b. (refl, (j a b).1)

merging-IsLabelling : (m : Bool) (r : Rendering) → IsLabelling m r → IsLabelling true r
merging-IsLabelling m r v = record {
  labelled = v.labelled;
  joined = merging-IsJoined m r.last_rendered_text r.contents v.joined;
}

pub closed-IsJoined :
    (m : Bool) (s : Option RenderedTextState) (contents : List WorkerContent)
    → is_open_stderr s ≡ false
    → IsJoined m s contents
closed-IsJoined m none contents e = tt
closed-IsJoined m (some s) contents e = λ a b. absurd (ground (arith, e, a, b))

-- Behind an echo there is no open standard error.
state_after_echo_closed :
    (pushed last : Option RenderedTextState)
    → is_open_stderr pushed ≡ false
    → is_open_stderr (state_after_echo true pushed last) ≡ false
unfolding state_after_echo
state_after_echo_closed (some s) last e = e
state_after_echo_closed none none e = refl
state_after_echo_closed none (some s) e = ground arith

render_content-IsWalk :
    (c : WorkerContent) (w : Walk) → IsWalk w → IsLabelled c → IsWalk (render_content c w)
unfolding render_content IsWalk
render_content-IsWalk c w v l = record {
  labelled = All-snoc w.out.contents c v.labelled l;
  joined = tt;
}

pushed_echo-IsLabelling :
    (contents : List WorkerContent) (echo : Bytes) (visibility : ContentVisibility) (merge : Bool)
    (pushed last : Option RenderedTextState)
    → is_open_stderr pushed ≡ false
    → All IsLabelled contents
    → IsLabelling false (record {
      contents = add_text contents echo stdout worker visibility merge;
      last_rendered_text = state_after_echo true pushed last;
    })
pushed_echo-IsLabelling contents echo visibility merge pushed last e v = record {
  labelled = add_text_stdout contents echo worker visibility merge v;
  joined =
      closed-IsJoined false (state_after_echo true pushed last) _
        (state_after_echo_closed pushed last e);
}

render_echo-IsWalk :
    (mode : ProjectionMode) (echo : Bytes) (w : Walk) → IsWalk w → IsWalk (render_echo mode echo w)
unfolding render_echo IsWalk push_generated_echo input_echo_visibility rendered_state
    state_after_echo
render_echo-IsWalk mode [] w v = record { labelled = v.labelled; joined = v.joined }
render_echo-IsWalk reply (b ∷ echo) w v = record { labelled = v.labelled; joined = v.joined }
render_echo-IsWalk transcript (b ∷ echo) w v =
    pushed_echo-IsLabelling w.out.contents (b ∷ echo) reply_and_transcript
      w.last_content_was_input_echo (some (rendered_state stdout worker (b ∷ echo)))
      w.out.last_rendered_text refl v.labelled
render_echo-IsWalk pager (b ∷ echo) w v =
    pushed_echo-IsLabelling w.out.contents (b ∷ echo) transcript_only w.last_content_was_input_echo
      none w.out.last_rendered_text refl v.labelled
render_echo-IsWalk bundle (b ∷ echo) w v =
    pushed_echo-IsLabelling w.out.contents (b ∷ echo) transcript_only w.last_content_was_input_echo
      none w.out.last_rendered_text refl v.labelled

text-IsLabelled :
    (t : Bytes) (is_stderr : Bool) (origin : ContentOrigin)
    → (is_stderr ≡ true → has_label t ≡ true)
    → IsLabelled (content_text t (stream_of is_stderr) origin reply_and_transcript)
text-IsLabelled t true origin l = l refl
text-IsLabelled t false origin l = tt

render_event-IsWalk :
    (mode : ProjectionMode) (kind : OutputEventKind) (w : Walk)
    → IsLabelledKind kind
    → IsWalk w
    → IsWalk (render_event mode kind w)
unfolding render_event IsLabelledKind IsWalk
render_event-IsWalk mode (input_echo echo) w l v = render_echo-IsWalk mode echo w v
render_event-IsWalk mode (image id payload mime_type is_new) w l v =
    render_content-IsWalk (content_image payload mime_type id is_new) w v tt
render_event-IsWalk mode (text t is_stderr origin) w l v =
    render_content-IsWalk (content_text t (stream_of is_stderr) origin reply_and_transcript) w v
      (text-IsLabelled t is_stderr origin l)
render_event-IsWalk mode input_wait w l v =
    merging-IsLabelling (not w.last_content_was_input_echo) w.out v
render_event-IsWalk mode request_boundary w l v = record { labelled = v.labelled; joined = tt }
render_event-IsWalk mode session_end w l v = record { labelled = v.labelled; joined = tt }

echo_flag : (echo emitted : Bool) → not echo || emitted ≡ not (not emitted && echo)
echo_flag echo emitted = ground arith

module _ (bytes : Bytes) (base_offset end_offset : ℕ) (spans : List TextSpanView)
    (mode : ProjectionMode) where
  render_to-IsWalk :
      (to : ℕ) (w : Walk)
      → IsWalk w
      → IsWalk (render_to bytes base_offset end_offset spans mode to w)
  unfolding render_to IsWalk
  render_to-IsWalk to w v =
      let echo = w.last_content_was_input_echo in
      let r = emit bytes base_offset spans w.cursor to (not echo) w.out in
      elim (Bool-cases (ltb w.cursor to)) [
        | inl q ↦ rw q (
            subst (λ m. IsLabelling m r.1) (echo_flag echo r.0)
              (emit-IsLabelling bytes base_offset spans w.cursor to (not echo) w.out v))
        | inr q ↦ rw q v
      ]

  render_step-IsWalk :
      (event : OutputEvent) (w : Walk)
      → IsLabelledEvent event
      → IsWalk w
      → IsWalk (render_step bytes base_offset end_offset spans mode event w)
  unfolding render_step IsWalk IsLabelledEvent
  render_step-IsWalk event w l v =
      render_event-IsWalk mode event.kind
        (render_to bytes base_offset end_offset spans mode event.offset w) l
        (render_to-IsWalk event.offset w v)

  render_events-IsWalk :
      (events : List OutputEvent) (w : Walk)
      → All IsLabelledEvent events
      → IsWalk w
      → IsWalk (render_events bytes base_offset end_offset spans mode events w)
  unfolding render_events
  render_events-IsWalk [] w l v = v
  render_events-IsWalk (event ∷ events) w l v = ground (
    arith,
    v,
    render_events-IsWalk events w l.1 v,
    render_events-IsWalk events (render_step bytes base_offset end_offset spans mode event w) l.1
        (render_step-IsWalk event w l.0 v),
  )

  render_bytes-IsLabelled :
      (events : List OutputEvent) (previous : Option RenderedTextState)
      → All IsLabelledEvent events
      → is_open_stderr previous ≡ false
      → All IsLabelled
          (render_bytes_with_events_and_spans_with_state bytes base_offset end_offset spans mode
            events previous).0
  unfolding render_bytes_with_events_and_spans_with_state IsWalk
  render_bytes-IsLabelled events previous l e =
      let w0 : Walk = record {
        cursor = base_offset;
        last_content_was_input_echo = false;
        out = record { contents = []; last_rendered_text = previous };
      } in
      (render_to-IsWalk end_offset (render_events bytes base_offset end_offset spans mode events w0)
        (render_events-IsWalk events w0 l
          (record { labelled = tt; joined = closed-IsJoined true previous [] e }))).labelled

events_from-IsLabelledEvent :
    (base_offset end_offset : ℕ) (events : List OutputEvent)
    → All IsLabelledEvent events
    → All IsLabelledEvent (events_from base_offset end_offset events)
unfolding events_from IsLabelledEvent
events_from-IsLabelledEvent base_offset end_offset [] l = tt
events_from-IsLabelledEvent base_offset end_offset (event ∷ events) l =
    ground (arith, l, events_from-IsLabelledEvent base_offset end_offset events l.1)

-- If the last text rendered before is not unterminated standard error, and each text event of the
-- range that is standard error carries the label, then in every mode each content of standard error
-- that a range renders to starts with the label, or with a newline and the label.
pub contents_from_output_range_with_state-IsLabelled :
    (mode : ProjectionMode) (range : OutputRange) (previous : Option RenderedTextState)
    → All IsLabelledEvent range.events
    → is_open_stderr previous ≡ false
    → All IsLabelled (contents_from_output_range_with_state mode range previous).0
unfolding contents_from_output_range_with_state
contents_from_output_range_with_state-IsLabelled mode range previous l e =
    let events = events_from range.start_offset range.end_offset range.events in
    elim (Bool-cases (is_empty range.bytes && is_empty range.events)) [
      | inl q ↦ rw q tt
      | inr q ↦ rw q (
          render_bytes-IsLabelled range.bytes 0 (length range.bytes)
            (map span_view range.text_spans) mode events previous
            (events_from-IsLabelledEvent range.start_offset range.end_offset range.events l) e)
    ]
