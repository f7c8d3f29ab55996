-- ===== src/Pager/Snapshot.antt =====
-- Output that enters the pager from the ring: the snapshots of src/pager/mod.rs.
use mcp_repl.Prelude.{ℕ, ltb, ◌&&◌, Option, none, some, get_or, if◌then◌else◌, List, [], is_empty}
use mcp_repl.Ranges.Set.{Range}
use mcp_repl.Capture.Ring.Read.{OutputRange, read_range}
use mcp_repl.Capture.Timeline.Buffer.{
  OutputBuffer, start_capture, count_events_at,
  advance_offset_to_with_rendered_text_and_boundary_events,
}
use mcp_repl.Render.Content.{WorkerContent}
use mcp_repl.Render.Push.{ProjectionMode, reply, pager, RenderedTextState}
use mcp_repl.Render.Events.{contents_from_output_range_with_state}
use mcp_repl.Pager.Buffer.{PagerBuffer, from_timeline_range}
use mcp_repl.Pager.Read.{source_offset_for_char_offset}
use mcp_repl.Pager.Take.{take_next_page}

pub record SnapshotPage : Type 0 where
  pub contents : List WorkerContent
  pub pages_left : ℕ
  pub buffer : Option PagerBuffer
  pub last_range : Option Range
  pub last_range_end_byte : Option ℕ

unfoldable pub no_page : SnapshotPage
no_page = record {
  contents = [];
  pages_left = 0;
  buffer = none;
  last_range = none;
  last_range_end_byte = none;
}

-- What both readers of the ring do at the end.
unfoldable pub consume_range :
    OutputRange
    → Option RenderedTextState
    → OutputBuffer RenderedTextState
    → OutputBuffer RenderedTextState
consume_range range last_rendered_text output =
    advance_offset_to_with_rendered_text_and_boundary_events range.end_offset last_rendered_text
      (count_events_at range.end_offset range.events) output

unfoldable pub take_range_from_ring :
    OutputBuffer RenderedTextState → ℕ → List WorkerContent × OutputBuffer RenderedTextState
take_range_from_ring output end_offset =
    let start_offset = get_or output.cursor.offset end_offset in
    let range = read_range start_offset end_offset output.ring.inner in
    let c = contents_from_output_range_with_state reply range output.cursor.last_rendered_text in
    (c.0, consume_range range c.1 output)

-- The source's offset of a page's end.
unfoldable pub end_byte_of : PagerBuffer → Option Range → Option ℕ
end_byte_of buffer none = none
end_byte_of buffer (some range) = some (source_offset_for_char_offset buffer range.1)

unfoldable pub take_snapshot_page_from_buffer_with_projection :
    PagerBuffer → ℕ → ProjectionMode → SnapshotPage
take_snapshot_page_from_buffer_with_projection buffer target_bytes projection_mode =
    let t = take_next_page buffer target_bytes [] projection_mode in
    record {
      contents = t.contents;
      pages_left = t.pages_left;
      buffer = some t.buffer;
      last_range = t.span.last;
      last_range_end_byte = end_byte_of t.buffer t.span.last;
    }

unfoldable pub take_snapshot_page_from_range :
    OutputRange → ℕ → Option RenderedTextState → SnapshotPage × Option RenderedTextState
take_snapshot_page_from_range range target_bytes previous_rendered_text =
    let buffer = from_timeline_range range in
    let c = contents_from_output_range_with_state reply range previous_rendered_text in
    let t = take_next_page buffer target_bytes [] reply in
    if is_empty buffer.bytes
    then (
      record {
        contents = c.0;
        pages_left = 0;
        buffer = some buffer;
        last_range = none;
        last_range_end_byte = none;
      },
      c.1,
    )
    else if ltb 0 t.pages_left
    then (take_snapshot_page_from_buffer_with_projection buffer target_bytes pager, none)
    else (
      record {
        contents = c.0;
        pages_left = t.pages_left;
        buffer = some buffer;
        last_range = t.span.last;
        last_range_end_byte = end_byte_of t.buffer t.span.last;
      },
      c.1,
    )

-- The range there is, the state before it, and the buffer, which captures from now on.
unfoldable pub snapshot_from_ring :
    OutputBuffer RenderedTextState
    → ℕ
    → Option (OutputRange × Option RenderedTextState) × OutputBuffer RenderedTextState
snapshot_from_ring output end_offset =
    let captured = start_capture output in
    let start_offset = get_or captured.cursor.offset end_offset in
    let range = read_range start_offset end_offset captured.ring.inner in
    if is_empty range.bytes && is_empty range.events
    then (none, captured)
    else (some (range, captured.cursor.last_rendered_text), captured)

unfoldable pub take_snapshot_page_from_ring :
    OutputBuffer RenderedTextState → ℕ → ℕ → SnapshotPage × OutputBuffer RenderedTextState
take_snapshot_page_from_ring output end_offset target_bytes =
    let s = snapshot_from_ring output end_offset in
    elim s.0 [
      | none ↦ (no_page, s.1)
      | some r ↦
          let p = take_snapshot_page_from_range r.0 target_bytes r.1 in
          (p.0, consume_range r.0 p.1 s.1)
    ]
