-- ===== src/Pager/Read.antt =====
-- `PagerBuffer` of src/pager/mod.rs: what is read from it. Offsets count characters.
use mcp_repl.Prelude.{
  ℕ, zero, suc, ◌-◌, min, max, ltb, leb, ◌==◌, Bool, true, false, not, ◌&&◌, ◌||◌, Option, none,
  some, get_or, if◌then◌else◌, List, [], ◌∷◌, length, get_elem?, get_last?, take, drop, is_empty,
  saturating_add,
}
use mcp_repl.Capture.Types.{OutputEvent, OutputEventKind, image}
use mcp_repl.Ranges.Set.{Range}
use mcp_repl.Render.Content.{WorkerContent}
use mcp_repl.Render.Push.{ProjectionMode, pager, RenderedTextState, TextSpanView}
use mcp_repl.Render.Events.{stream_of, render_bytes_with_events_and_spans_with_state}
use mcp_repl.Pager.Index.{byte_index_for_char_offset}
use mcp_repl.Pager.Buffer.{PagerEvent, PagerTextSpan, PagerBuffer, len}

unfoldable pub advance_offset_to : ℕ → PagerBuffer → PagerBuffer
advance_offset_to offset buffer = record buffer { cursor = min offset (len buffer) }

abbrev byte_index : PagerBuffer → ℕ → ℕ
byte_index buffer offset =
    byte_index_for_char_offset buffer.char_to_byte offset (length buffer.bytes)

unfoldable pub events_in_byte_offsets : PagerBuffer → ℕ → ℕ → List PagerEvent → List OutputEvent
events_in_byte_offsets buffer start_offset end_offset [] = []
events_in_byte_offsets buffer start_offset end_offset (e ∷ es) =
    let rest = events_in_byte_offsets buffer start_offset end_offset es in
    if leb start_offset e.offset && leb e.offset end_offset
    then record { offset = byte_index buffer e.offset; kind = e.kind } ∷ rest
    else rest

unfoldable pub text_spans_in_byte_offsets :
    PagerBuffer → ℕ → ℕ → List PagerTextSpan → List TextSpanView
text_spans_in_byte_offsets buffer start_offset end_offset [] = []
text_spans_in_byte_offsets buffer start_offset end_offset (s ∷ ss) =
    let rest = text_spans_in_byte_offsets buffer start_offset end_offset ss in
    if leb s.end start_offset || leb end_offset s.start
    then rest
    else record {
      start = byte_index buffer (max s.start start_offset);
      end = byte_index buffer (min s.end end_offset);
      is_stderr = s.is_stderr;
      origin = s.origin;
    }
      ∷ rest

unfoldable pub span_ends_with_newline : PagerBuffer → PagerTextSpan → Bool
span_ends_with_newline buffer span =
    let end = byte_index buffer span.end in
    ltb 0 end && elim (get_elem? buffer.bytes (end - 1)) [ none ↦ false | some b ↦ b == b'\n' ]

-- `RenderedTextState::continuation`: text that goes on.
unfoldable pub rendered_state_for_span : PagerTextSpan → RenderedTextState
rendered_state_for_span span = record {
  stream = stream_of span.is_stderr;
  origin = span.origin;
  terminated = false;
}

unfoldable pub render_state_before_loop :
    PagerBuffer → ℕ → Option RenderedTextState → List PagerTextSpan → Option RenderedTextState
render_state_before_loop buffer start_offset boundary [] = boundary
render_state_before_loop buffer start_offset boundary (s ∷ ss) =
    let same = render_state_before_loop buffer start_offset boundary ss in
    let continued =
      render_state_before_loop buffer start_offset (some (rendered_state_for_span s)) ss in
    if ltb s.start start_offset && ltb start_offset s.end
    then some (rendered_state_for_span s)
    else if (s.end == start_offset) && (ltb s.start s.end && not (span_ends_with_newline buffer s))
    then continued
    else same

unfoldable pub render_state_before_range : PagerBuffer → ℕ → Option RenderedTextState
render_state_before_range buffer start_offset =
    render_state_before_loop buffer start_offset none buffer.text_spans

unfoldable pub contents_for_range_with_projection_mode :
    PagerBuffer → ℕ → ℕ → ProjectionMode → List WorkerContent
contents_for_range_with_projection_mode buffer start_offset end_offset projection_mode =
    let to = min end_offset (len buffer) in
    let from = min start_offset to in
    let start = byte_index buffer from in
    let end = byte_index buffer to in
    (render_bytes_with_events_and_spans_with_state (take (end - start) (drop start buffer.bytes))
      start end (text_spans_in_byte_offsets buffer from to buffer.text_spans) projection_mode
      (events_in_byte_offsets buffer from to buffer.events)
      (render_state_before_range buffer from)).0

unfoldable pub contents_for_range : PagerBuffer → ℕ → ℕ → List WorkerContent
contents_for_range buffer start_offset end_offset =
    contents_for_range_with_projection_mode buffer start_offset end_offset pager

-- `line_ends.partition_point(|line_end| *line_end <= offset)`.
unfoldable pub lines_to : ℕ → List ℕ → ℕ
lines_to offset [] = 0
lines_to offset (l ∷ ls) = let rest = lines_to offset ls in if leb l offset then suc rest else 0

-- The line end before that index.
unfoldable pub line_before : List ℕ → ℕ → Option ℕ
line_before line_ends zero = none
line_before line_ends (suc idx) = get_elem? line_ends idx

unfoldable pub page_end_offset : PagerBuffer → ℕ → ℕ → ℕ → ℕ
page_end_offset buffer start_offset end_offset target_bytes =
    let to = min end_offset (len buffer) in
    let effective_start = min start_offset to in
    let desired = min (saturating_add effective_start target_bytes) to in
    if leb to start_offset
    then to
    else elim (line_before buffer.line_ends (lines_to desired buffer.line_ends)) [
      | none ↦ desired
      | some line_end ↦ if leb line_end effective_start then desired else line_end
    ]

unfoldable pub last_line_end_before : PagerBuffer → ℕ → Option ℕ
last_line_end_before buffer offset =
    line_before buffer.line_ends (lines_to (min offset (len buffer)) buffer.line_ends)

-- The line ends up to an offset, the last first.
unfoldable pub line_ends_rev : ℕ → List ℕ → List ℕ → List ℕ
line_ends_rev end_offset found [] = found
line_ends_rev end_offset found (l ∷ ls) =
    let more = line_ends_rev end_offset (l ∷ found) ls in
    let same = line_ends_rev end_offset found ls in if leb l end_offset then more else same

unfoldable pub tail_start_offset_for_lines : PagerBuffer → ℕ → ℕ → ℕ
tail_start_offset_for_lines buffer end_offset lines =
    let to = min end_offset (len buffer) in
    let found = line_ends_rev to [] buffer.line_ends in
    let has_trailing_newline : Bool = elim (get_elem? found 0) [
      | none ↦ false
      | some l ↦ l == to
    ] in
    let needed_index = if has_trailing_newline then lines else lines - 1 in
    if lines == 0 || is_empty buffer.bytes then to else get_or (get_elem? found needed_index) 0

unfoldable pub line_count : PagerBuffer → ℕ
line_count buffer =
    let count = length buffer.line_ends in
    elim (get_last? buffer.bytes) [
      | none ↦ count
      | some b ↦ if b == b'\n' then count else saturating_add count 1
    ]

unfoldable pub line_start_offset : PagerBuffer → ℕ → Option ℕ
line_start_offset buffer line =
    if line == 0 then none else if line == 1 then some 0 else get_elem? buffer.line_ends (line - 2)

unfoldable pub line_end_offset : PagerBuffer → ℕ → Option ℕ
line_end_offset buffer line =
    if line == 0
    then none
    else if leb line (length buffer.line_ends)
    then get_elem? buffer.line_ends (line - 1)
    else if line == line_count buffer
    then some (len buffer)
    else none

-- A range of the lines' offsets, if it is not empty.
abbrev range_of_offsets : Option ℕ → Option ℕ → Option Range
range_of_offsets none end_offset = none
range_of_offsets (some s) none = none
range_of_offsets (some s) (some e) = if leb e s then none else some (s, e)

unfoldable pub line_range_offsets : PagerBuffer → ℕ → ℕ → Option Range
line_range_offsets buffer start_line end_line =
    if start_line == 0 || end_line == 0
    then none
    else range_of_offsets (line_start_offset buffer (min start_line end_line))
        (line_end_offset buffer (max start_line end_line))

unfoldable pub source_offset_for_char_offset : PagerBuffer → ℕ → ℕ
source_offset_for_char_offset buffer offset =
    if is_empty buffer.source_offsets
    then buffer.source_end
    else get_or (get_elem? buffer.source_offsets (min offset (length buffer.source_offsets - 1)))
        buffer.source_end

abbrev pub is_image : OutputEventKind → Bool
is_image (image id payload mime_type is_new) = true
is_image _ = false

-- The offsets of at most `limit` images.
unfoldable pub image_offsets_loop : ℕ → ℕ → ℕ → List PagerEvent → List ℕ
image_offsets_loop start_offset end_offset zero es = []
image_offsets_loop start_offset end_offset (suc limit) [] = []
image_offsets_loop start_offset end_offset (suc limit) (e ∷ es) =
    let same = image_offsets_loop start_offset end_offset (suc limit) es in
    let more = image_offsets_loop start_offset end_offset limit es in
    if ltb e.offset start_offset
    then same
    else if ltb end_offset e.offset
    then []
    else if is_image e.kind
    then e.offset ∷ more
    else same

unfoldable pub image_offsets_in_range : PagerBuffer → ℕ → ℕ → ℕ → List ℕ
image_offsets_in_range buffer start_offset end_offset limit =
    let to = min end_offset (len buffer) in
    image_offsets_loop (min start_offset to) to limit buffer.events

unfoldable pub count_images_loop : ℕ → ℕ → ℕ → List PagerEvent → ℕ
count_images_loop start_offset end_offset count [] = count
count_images_loop start_offset end_offset count (e ∷ es) =
    let same = count_images_loop start_offset end_offset count es in
    let more = count_images_loop start_offset end_offset (saturating_add count 1) es in
    if ltb e.offset start_offset
    then same
    else if ltb end_offset e.offset
    then count
    else if is_image e.kind
    then more
    else same

unfoldable pub count_images_in_range : PagerBuffer → ℕ → ℕ → ℕ
count_images_in_range buffer start_offset end_offset =
    let to = min end_offset (len buffer) in
    count_images_loop (min start_offset to) to 0 buffer.events
