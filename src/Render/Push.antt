-- ===== src/Render/Push.antt =====
-- How a piece of text or an echo joins the contents (src/resolved_output.rs).
use mcp_repl.Prelude.{
  ℕ, leb, ltb, ◌==◌, Bool, true, false, not, ◌&&◌, ◌||◌, Option, none, some, if◌then◌else◌, List,
  [], ◌∷◌, ◌++◌, length, get_last?, drop_last, is_empty,
}
use mcp_repl.Capture.Types.{Bytes, codes, ContentOrigin, worker, origin_eq}
use mcp_repl.Capture.Ring.Read.{OutputTextSpan}
use mcp_repl.Render.Content.{
  WorkerContent, content_text, content_image, TextStream, stdout, stderr, stream_eq,
  ContentVisibility, reply_and_transcript, transcript_only, visibility_eq,
}
use mcp_repl.Render.Bytes.{render_bytes}

pub data ProjectionMode : Type 0 where
  reply transcript pager bundle : ProjectionMode

unfoldable pub input_echo_visibility : ProjectionMode → Option ContentVisibility
input_echo_visibility reply = none
input_echo_visibility transcript = some reply_and_transcript
input_echo_visibility pager = some transcript_only
input_echo_visibility bundle = some transcript_only

-- What the rendering reads of a span.
pub record TextSpanView : Type 0 where
  pub start : ℕ
  pub end : ℕ
  pub is_stderr : Bool
  pub origin : ContentOrigin

-- `impl TextSpanView for OutputTextSpan`.
unfoldable pub span_view : OutputTextSpan → TextSpanView
span_view span = record {
  start = span.start_byte;
  end = span.end_byte;
  is_stderr = span.is_stderr;
  origin = span.origin;
}

pub record RenderedTextState : Type 0 where
  pub stream : TextStream
  pub origin : ContentOrigin
  pub terminated : Bool

-- The contents so far, and the last text that was rendered.
pub record Rendering : Type 0 where
  pub contents : List WorkerContent
  pub last_rendered_text : Option RenderedTextState

abbrev pub ends_with_newline : Bytes → Bool
ends_with_newline bytes = elim (get_last? bytes) [ none ↦ false | some b ↦ b == b'\n' ]

unfoldable pub rendered_state : TextStream → ContentOrigin → Bytes → RenderedTextState
rendered_state stream origin text = record {
  stream = stream;
  origin = origin;
  terminated = ends_with_newline text;
}

abbrev pub push_content : List WorkerContent → WorkerContent → List WorkerContent
push_content contents c = contents ++ (c ∷ [])

-- The last content, lengthened by a text of its stream, origin and visibility.
unfoldable pub merge_last :
    Option WorkerContent
    → Bytes
    → TextStream
    → ContentOrigin
    → ContentVisibility
    → Option WorkerContent
merge_last none text stream origin visibility = none
merge_last (some (content_image d m i n)) text stream origin visibility = none
merge_last (some (content_text t s o v)) text stream origin visibility =
    if stream_eq s stream && (origin_eq o origin && visibility_eq v visibility)
    then some (content_text (t ++ text) s o v)
    else none

unfoldable pub join_or_push :
    Option WorkerContent → List WorkerContent → WorkerContent → List WorkerContent
join_or_push none contents c = push_content contents c
join_or_push (some merged) contents c = push_content (drop_last contents) merged

-- A text joins the last content if it may and fits.
unfoldable pub add_text :
    List WorkerContent
    → Bytes
    → TextStream
    → ContentOrigin
    → ContentVisibility
    → Bool
    → List WorkerContent
add_text contents text stream origin visibility merge =
    join_or_push
      (if merge then merge_last (get_last? contents) text stream origin visibility else none)
      contents (content_text text stream origin visibility)

-- Was anything pushed, and the contents.
unfoldable pub push_text_with_merge :
    List WorkerContent → Bytes → TextStream → ContentOrigin → Bool → Bool × List WorkerContent
push_text_with_merge contents text stream origin merge_with_previous =
    if is_empty text
    then (false, contents)
    else (true, add_text contents text stream origin reply_and_transcript merge_with_previous)

abbrev continues_stderr : Option RenderedTextState → ContentOrigin → Bool
continues_stderr none origin = false
continues_stderr (some s) origin =
    stream_eq s.stream stderr && (origin_eq s.origin origin && not s.terminated)

abbrev needs_separator : Option RenderedTextState → Bool
needs_separator none = false
needs_separator (some s) = not s.terminated

unfoldable pub stderr_label : Bytes
stderr_label = codes "stderr: "

unfoldable pub render_stderr_text : Option RenderedTextState → ContentOrigin → Bytes → Bytes
render_stderr_text previous_text origin rendered =
    if continues_stderr previous_text origin
    then rendered
    else if needs_separator previous_text
    then b'\n' ∷ (stderr_label ++ rendered)
    else stderr_label ++ rendered

-- A text that was rendered joins the contents, and is the last one if it is not empty.
unfoldable pub push_rendered :
    Rendering → Bytes → TextStream → ContentOrigin → Bool → Bool × Rendering
push_rendered r text stream origin merge_with_previous =
    let p = push_text_with_merge r.contents text stream origin merge_with_previous in
    (
      p.0,
      record {
        contents = p.1;
        last_rendered_text =
            if p.0 then some (rendered_state stream origin text) else r.last_rendered_text;
      },
    )

abbrev out_of_range : Bytes → ℕ → ℕ → Bool
out_of_range bytes start end = leb end start || ltb (length bytes) end

unfoldable pub push_default_stdout : Rendering → Bytes → ℕ → ℕ → Bool → Bool × Rendering
push_default_stdout r bytes start end merge_with_previous =
    if out_of_range bytes start end
    then (false, r)
    else push_rendered r (render_bytes bytes start end) stdout worker merge_with_previous

unfoldable pub push_span_text : Rendering → Bytes → ℕ → ℕ → TextSpanView → Bool → Bool × Rendering
push_span_text r bytes start end span merge_with_previous =
    let rendered = render_bytes bytes start end in
    let labelled = render_stderr_text r.last_rendered_text span.origin rendered in
    if out_of_range bytes start end
    then (false, r)
    else if span.is_stderr
    then push_rendered r labelled stderr span.origin merge_with_previous
    else push_rendered r rendered stdout span.origin merge_with_previous

-- The echo's state, if a reply shows it.
abbrev echo_state : ContentVisibility → Bytes → Option RenderedTextState
echo_state reply_and_transcript text = some (rendered_state stdout worker text)
echo_state transcript_only text = none

-- Was an echo pushed, its state, and the contents.
unfoldable pub push_generated_echo :
    List WorkerContent
    → Bytes
    → ProjectionMode
    → Bool
    → Bool × Option RenderedTextState × List WorkerContent
push_generated_echo contents text projection_mode merge_with_previous_echo =
    if is_empty text
    then (false, none, contents)
    else elim (input_echo_visibility projection_mode) [
      | none ↦ (false, none, contents)
      | some visibility ↦ (
        true,
        echo_state visibility text,
        add_text contents text stdout worker visibility merge_with_previous_echo,
      )
    ]
