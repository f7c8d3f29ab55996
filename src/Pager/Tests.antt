-- ===== src/Pager/Tests.antt =====
-- Tests of the pages of src/pager/mod.rs, and the cases at which its theorems apply.
use mcp_repl.Prelude.{
  length, All, false, decimal, decimal_loop, ℕ, ◌≡◌, ◌≤◌, ◌<◌, ◌+◌, refl, true, List, [], ◌∷◌, ◌||◌,
  min, codes, arith, inr,
}
use mcp_repl.Capture.Types.{Bytes, OutputEvent, image}
use mcp_repl.Capture.Ring.Read.{OutputRange}
use mcp_repl.Render.Content.{WorkerContent, content_image, server_stderr}
use mcp_repl.Pager.Images.{
  no_images, contains, find_number, number_image, dedupe_image, dedupe_images, image_ids,
  IsDistinct, dedupe_images-IsDistinct,
}
use mcp_repl.Pager.Presentation.{chars_before, truncate_with_ellipsis}
use mcp_repl.Pager.InBounds.{append_timeline_range-IsIndexed}
use mcp_repl.Pager.Extended.{IsIndexed, empty_at-IsIndexed}
use mcp_repl.Pager.Bounds.{page_end_offset_with_images_bounds}
use mcp_repl.Pager.Seen.{Ends, next_page-Ends}
use mcp_repl.Pager.Shown.{IsTaken, take_next_page-IsTaken}
use mcp_repl.Pager.Moves.{take_next_page_moves}
use mcp_repl.Ranges.Insert.{member}
use mcp_repl.Pager.Index.{
  char_starts, counted, build_char_index, extend_char_index, extend_source_offsets,
  byte_index_for_char_offset, binary_search, char_offset_for_byte_index, newlines, line_end_offsets,
}
use mcp_repl.Pager.Buffer.{
  empty_at, len, append_bytes_with_source_offsets, append_bytes_at_source_offset,
  append_text_at_source_offset, slice_spans, append_raw_slice, push_event, append_event,
  insert_event, sort_events, events_within, append_events, append_gap_notice, append_timeline_range,
  from_timeline_range, PagerBuffer, PagerEvent,
}
use mcp_repl.Capture.Utf8.Decode.{
  two_bytes, three_bytes, four_bytes, first_char, validate, from_utf8,
}
use mcp_repl.Pager.Read.{
  advance_offset_to, events_in_byte_offsets, text_spans_in_byte_offsets, span_ends_with_newline,
  rendered_state_for_span, render_state_before_loop, render_state_before_range,
  contents_for_range_with_projection_mode, contents_for_range, lines_to, line_before,
  page_end_offset, last_line_end_before, line_ends_rev, tail_start_offset_for_lines, line_count,
  line_start_offset, line_end_offset, line_range_offsets, source_offset_for_char_offset,
  image_offsets_loop, image_offsets_in_range, count_images_loop, count_images_in_range,
}
use mcp_repl.Pager.Pages.{
  candidate_in, best_end_loop, page_end_offset_with_images, pages_left, pages_left_for_buffer,
  skip_seen, push_gap, used_budget, show_unseen, unseen_step, page_step, page_loop,
}
use mcp_repl.Pager.Take.{
  start_page, start_page, next_page, take_next_page, take_pages_loop, take_next_pages, advance_loop,
  advance_cursor_for_page, skip_loop, skip_pages_and_take_next, segment_step, segment_loop,
  take_unseen_segments_in_range, take_all, take_tail_from, take_tail, take_tail_lines,
  take_line_range,
}
use mcp_repl.Render.Push.{
  input_echo_visibility, span_view, rendered_state, merge_last, join_or_push, add_text,
  push_text_with_merge, stderr_label, render_stderr_text, push_rendered, push_default_stdout,
  push_span_text, push_generated_echo, pager,
}
use mcp_repl.Render.Emit.{after_push, emit_default_to, emit_span, emit_spans, emit}
use mcp_repl.Render.Events.{
  state_after_echo, render_echo, render_content, render_event, render_to, render_step,
  render_events, render_bytes_with_events_and_spans_with_state, events_from,
  contents_from_output_range_with_state,
}
use mcp_repl.Render.Bytes.{render_loop, render_bytes}
use mcp_repl.Ranges.Set.{
  partition_point, range_containing, covers, next_range_start_after, insert_loop, insert,
  default_range_span, push_range, record_range, extend_loop, extend,
}

abbrev plot : ℕ → OutputEvent
plot offset = record {
  offset = offset;
  kind = image (codes "plot-1") (codes "a") (codes "image/png") true;
}

abbrev lines_range : List OutputEvent → OutputRange
lines_range events = record {
  start_offset = 0;
  end_offset = 8;
  bytes = codes "A\nB\nC\nD\n";
  events = events;
  text_spans = [];
}

-- What the range makes of an empty buffer.
abbrev four_lines : List PagerEvent → PagerBuffer
four_lines events = record {
  bytes = codes "A\nB\nC\nD\n";
  char_to_byte = 0 ∷ 1 ∷ 2 ∷ 3 ∷ 4 ∷ 5 ∷ 6 ∷ 7 ∷ 8 ∷ [];
  source_offsets = 0 ∷ 1 ∷ 2 ∷ 3 ∷ 4 ∷ 5 ∷ 6 ∷ 7 ∷ 8 ∷ [];
  line_ends = 2 ∷ 4 ∷ 6 ∷ 8 ∷ [];
  cursor = 0;
  events = events;
  text_spans = [];
  source_end = 8;
}

abbrev at : ℕ → PagerEvent
at offset = record { offset = offset; kind = (plot offset).kind }

abbrev three_plots : PagerBuffer
three_plots = four_lines (at 2 ∷ at 4 ∷ at 6 ∷ [])

from_timeline_range_plots :
    from_timeline_range (lines_range (plot 4 ∷ plot 2 ∷ plot 6 ∷ [])) ≡ three_plots
unfolding char_starts counted build_char_index extend_char_index extend_source_offsets
    byte_index_for_char_offset binary_search char_offset_for_byte_index newlines line_end_offsets
    empty_at len append_bytes_with_source_offsets append_bytes_at_source_offset
    append_text_at_source_offset slice_spans append_raw_slice push_event append_event insert_event
    sort_events events_within append_events append_gap_notice append_timeline_range
    from_timeline_range two_bytes three_bytes four_bytes first_char validate from_utf8
from_timeline_range_plots = refl

page_end_plots : page_end_offset_with_images three_plots 0 8 5000 2 ≡ 4
unfolding char_starts counted build_char_index extend_char_index extend_source_offsets
    byte_index_for_char_offset binary_search char_offset_for_byte_index newlines line_end_offsets
    empty_at len append_bytes_with_source_offsets append_bytes_at_source_offset
    append_text_at_source_offset slice_spans append_raw_slice push_event append_event insert_event
    sort_events events_within append_events append_gap_notice append_timeline_range
    from_timeline_range two_bytes three_bytes four_bytes first_char validate from_utf8
    advance_offset_to events_in_byte_offsets text_spans_in_byte_offsets span_ends_with_newline
    rendered_state_for_span render_state_before_loop render_state_before_range
    contents_for_range_with_projection_mode contents_for_range lines_to line_before page_end_offset
    last_line_end_before line_ends_rev tail_start_offset_for_lines line_count line_start_offset
    line_end_offset line_range_offsets source_offset_for_char_offset image_offsets_loop
    image_offsets_in_range count_images_loop count_images_in_range candidate_in best_end_loop
    page_end_offset_with_images pages_left pages_left_for_buffer skip_seen push_gap used_budget
    show_unseen unseen_step page_step page_loop next_page take_next_page take_pages_loop
    take_next_pages advance_loop advance_cursor_for_page skip_loop skip_pages_and_take_next
    segment_step segment_loop take_unseen_segments_in_range take_all take_tail_from take_tail
    take_tail_lines take_line_range input_echo_visibility span_view rendered_state merge_last
    join_or_push add_text push_text_with_merge stderr_label render_stderr_text push_rendered
    push_default_stdout push_span_text push_generated_echo after_push emit_default_to emit_span
    emit_spans emit state_after_echo render_echo render_content render_event render_to render_step
    render_events render_bytes_with_events_and_spans_with_state events_from
    contents_from_output_range_with_state render_loop render_bytes partition_point range_containing
    covers next_range_start_after insert_loop insert default_range_span push_range record_range
    extend_loop extend member
page_end_plots = refl

-- Three images at one offset: the page is empty, and stays where it is.
page_plots_together :
    let t = take_next_page (four_lines (at 0 ∷ at 0 ∷ at 0 ∷ [])) 3500 [] pager in
    (t.buffer.cursor ≡ 0) × (t.contents ≡ [])
unfolding char_starts counted build_char_index extend_char_index extend_source_offsets
    byte_index_for_char_offset binary_search char_offset_for_byte_index newlines line_end_offsets
    empty_at len append_bytes_with_source_offsets append_bytes_at_source_offset
    append_text_at_source_offset slice_spans append_raw_slice push_event append_event insert_event
    sort_events events_within append_events append_gap_notice append_timeline_range
    from_timeline_range two_bytes three_bytes four_bytes first_char validate from_utf8
    advance_offset_to events_in_byte_offsets text_spans_in_byte_offsets span_ends_with_newline
    rendered_state_for_span render_state_before_loop render_state_before_range
    contents_for_range_with_projection_mode contents_for_range lines_to line_before page_end_offset
    last_line_end_before line_ends_rev tail_start_offset_for_lines line_count line_start_offset
    line_end_offset line_range_offsets source_offset_for_char_offset image_offsets_loop
    image_offsets_in_range count_images_loop count_images_in_range candidate_in best_end_loop
    page_end_offset_with_images pages_left pages_left_for_buffer skip_seen push_gap used_budget
    show_unseen unseen_step page_step page_loop next_page take_next_page take_pages_loop
    take_next_pages advance_loop advance_cursor_for_page skip_loop skip_pages_and_take_next
    segment_step segment_loop take_unseen_segments_in_range take_all take_tail_from take_tail
    take_tail_lines take_line_range input_echo_visibility span_view rendered_state merge_last
    join_or_push add_text push_text_with_merge stderr_label render_stderr_text push_rendered
    push_default_stdout push_span_text push_generated_echo after_push emit_default_to emit_span
    emit_spans emit state_after_echo render_echo render_content render_event render_to render_step
    render_events render_bytes_with_events_and_spans_with_state events_from
    contents_from_output_range_with_state render_loop render_bytes partition_point range_containing
    covers next_range_start_after insert_loop insert default_range_span push_range record_range
    extend_loop extend member
page_plots_together = (refl, refl)

-- An image at the start, and more text than the page holds.
page_plot_first :
    let t = take_next_page (four_lines (at 0 ∷ [])) 7 [] pager in
    (t.buffer.cursor ≡ 0) × (t.contents ≡ [])
unfolding char_starts counted build_char_index extend_char_index extend_source_offsets
    byte_index_for_char_offset binary_search char_offset_for_byte_index newlines line_end_offsets
    empty_at len append_bytes_with_source_offsets append_bytes_at_source_offset
    append_text_at_source_offset slice_spans append_raw_slice push_event append_event insert_event
    sort_events events_within append_events append_gap_notice append_timeline_range
    from_timeline_range two_bytes three_bytes four_bytes first_char validate from_utf8
    advance_offset_to events_in_byte_offsets text_spans_in_byte_offsets span_ends_with_newline
    rendered_state_for_span render_state_before_loop render_state_before_range
    contents_for_range_with_projection_mode contents_for_range lines_to line_before page_end_offset
    last_line_end_before line_ends_rev tail_start_offset_for_lines line_count line_start_offset
    line_end_offset line_range_offsets source_offset_for_char_offset image_offsets_loop
    image_offsets_in_range count_images_loop count_images_in_range candidate_in best_end_loop
    page_end_offset_with_images pages_left pages_left_for_buffer skip_seen push_gap used_budget
    show_unseen unseen_step page_step page_loop next_page take_next_page take_pages_loop
    take_next_pages advance_loop advance_cursor_for_page skip_loop skip_pages_and_take_next
    segment_step segment_loop take_unseen_segments_in_range take_all take_tail_from take_tail
    take_tail_lines take_line_range input_echo_visibility span_view rendered_state merge_last
    join_or_push add_text push_text_with_merge stderr_label render_stderr_text push_rendered
    push_default_stdout push_span_text push_generated_echo after_push emit_default_to emit_span
    emit_spans emit state_after_echo render_echo render_content render_event render_to render_step
    render_events render_bytes_with_events_and_spans_with_state events_from
    contents_from_output_range_with_state render_loop render_bytes partition_point range_containing
    covers next_range_start_after insert_loop insert default_range_span push_range record_range
    extend_loop extend member
page_plot_first = (refl, refl)

page_end_offset_with_images_bounds_example :
    let r = page_end_offset_with_images three_plots 0 8 5000 2 in
    (0 ≤ r) × (r ≤ min 8 (len three_plots)) × (r ≤ 0 + 5000)
unfolding len
page_end_offset_with_images_bounds_example =
    page_end_offset_with_images_bounds three_plots 0 8 5000 2 (omega arith) (omega arith)

next_page-Ends_example :
    Ends three_plots
      (len three_plots)
      pager
      (start_page 0 5000 ((2, 3) ∷ []))
      (next_page three_plots 5000 ((2, 3) ∷ []) pager)
unfolding len
next_page-Ends_example =
    next_page-Ends three_plots 5000 ((2, 3) ∷ []) pager (omega arith) (omega arith, omega arith, tt)
      (omega arith)

take_next_page-IsTaken_example :
    IsTaken three_plots pager ((2, 3) ∷ []) (take_next_page three_plots 5000 ((2, 3) ∷ []) pager)
unfolding len
take_next_page-IsTaken_example =
    take_next_page-IsTaken three_plots 5000 ((2, 3) ∷ []) pager (omega arith)
      (omega arith, omega arith, tt) (omega arith)

take_next_page_moves_example : 0 < (take_next_page three_plots 5000 [] pager).buffer.cursor
unfolding len
take_next_page_moves_example =
    take_next_page_moves three_plots 5000 [] pager (omega arith) tt (omega arith)
      (λ _. inr (omega arith), (λ _. inr (omega arith), (λ _. inr (omega arith), tt)))

append_timeline_range-IsIndexed_example :
    IsIndexed (append_timeline_range (lines_range (plot 4 ∷ [])) (empty_at 5))
append_timeline_range-IsIndexed_example =
    append_timeline_range-IsIndexed (lines_range (plot 4 ∷ [])) (empty_at 5) (empty_at-IsIndexed 5)

abbrev twice : List WorkerContent
twice =
    content_image (codes "a") (codes "image/png") (codes "plot-1") true
    ∷ content_image (codes "a") (codes "image/png") (codes "plot-1") false
    ∷ []

dedupe_twice :
    (dedupe_images twice no_images).0
    ≡ content_image (codes "a") (codes "image/png") (codes "plot-1") true
      ∷ server_stderr (codes "[pager] image #1 already shown\n")
      ∷ []
unfolding dedupe_images dedupe_image number_image find_number contains no_images decimal
    decimal_loop
dedupe_twice = refl

dedupe_images-IsDistinct_example :
    let r = dedupe_images twice no_images in
    All (λ i. contains i no_images.seen_images ≡ false) (image_ids r.0)
    × IsDistinct (image_ids r.0)
    × ((i : Bytes)
        → contains i r.1.seen_images
          ≡ (contains i (image_ids twice) || contains i no_images.seen_images))
dedupe_images-IsDistinct_example = dedupe_images-IsDistinct twice no_images

-- "éééé" cut to 4 bytes has 5.
truncate_accents :
    length (truncate_with_ellipsis (0xc3 ∷ 0xa9 ∷ 0xc3 ∷ 0xa9 ∷ 0xc3 ∷ 0xa9 ∷ 0xc3 ∷ 0xa9 ∷ []) 4)
    ≡ 5
unfolding truncate_with_ellipsis chars_before
truncate_accents = refl
