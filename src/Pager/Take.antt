-- ===== src/Pager/Take.antt =====
-- The operations of src/pager/mod.rs that take pages and parts of the buffer.
use mcp_repl.Prelude.{
  ℕ, zero, suc, ◌-◌, min, max, ltb, leb, ◌==◌, ◌&&◌, none, some, get_or, if◌then◌else◌, List, [],
  ◌∷◌, ◌++◌, is_empty, codes,
}
use mcp_repl.Ranges.Set.{
  Range, RangeSpan, default_range_span, record_range, extend, insert, range_containing,
}
use mcp_repl.Render.Content.{WorkerContent, server_stderr}
use mcp_repl.Render.Push.{ProjectionMode, pager}
use mcp_repl.Pager.Buffer.{PagerBuffer, len}
use mcp_repl.Pager.Read.{
  advance_offset_to, contents_for_range, last_line_end_before, tail_start_offset_for_lines,
  line_range_offsets,
}
use mcp_repl.Pager.Pages.{
  pages_left_for_buffer, Page, push_gap, skip_seen, used_budget, next_seen, desired_end,
  visible_end, page_loop,
}

-- What an operation answers, and what it leaves.
pub record Taken : Type 0 where
  pub contents : List WorkerContent
  pub pages_left : ℕ
  pub span : RangeSpan
  pub buffer : PagerBuffer
  pub seen : List Range

abbrev pub start_page : ℕ → ℕ → List Range → Page
start_page cursor budget seen = record {
  cursor = cursor;
  remaining_budget = budget;
  contents = [];
  seen = seen;
  span = default_range_span;
  pending_gap = none;
}

-- The loop of `take_next_page`.
unfoldable pub next_page : PagerBuffer → ℕ → List Range → ProjectionMode → Page
next_page buffer target_bytes seen projection_mode =
    page_loop buffer (len buffer) projection_mode (suc (len buffer - buffer.cursor))
      (start_page buffer.cursor (max target_bytes 1) seen)

unfoldable pub take_next_page : PagerBuffer → ℕ → List Range → ProjectionMode → Taken
take_next_page buffer target_bytes seen projection_mode =
    let p = next_page buffer target_bytes seen projection_mode in
    let after = advance_offset_to p.cursor buffer in
    record {
      contents = push_gap p.pending_gap p.contents;
      pages_left = pages_left_for_buffer after (max target_bytes 1);
      span = p.span;
      buffer = after;
      seen = p.seen;
    }

-- The rounds of `take_next_pages`, after what was taken so far.
unfoldable pub take_pages_loop : ℕ → ℕ → Taken → Taken
take_pages_loop target_bytes zero t = t
take_pages_loop target_bytes (suc count) t =
    let page = take_next_page t.buffer target_bytes t.seen pager in
    let all = record page {
      contents = t.contents ++ page.contents;
      span = extend t.span page.span;
    } in
    let rest = take_pages_loop target_bytes count all in
    if is_empty page.contents
    then record page { contents = t.contents; span = t.span }
    else if page.pages_left == 0
    then all
    else rest

abbrev clamp : ℕ → ℕ → ℕ → ℕ
clamp lo hi n = min (max n lo) hi

unfoldable pub take_next_pages : PagerBuffer → ℕ → ℕ → List Range → Taken
take_next_pages buffer target_bytes count seen =
    take_pages_loop target_bytes (clamp 1 50 count) (record {
      contents = [];
      pages_left = 0;
      span = default_range_span;
      buffer = buffer;
      seen = seen;
    })

-- The rounds of `advance_cursor_for_page`: as for a page, with nothing shown.
unfoldable pub advance_loop : PagerBuffer → ℕ → List Range → ℕ → ℕ → ℕ → ℕ
advance_loop buffer end_offset seen zero cursor remaining_budget = cursor
advance_loop buffer end_offset seen (suc fuel) cursor remaining_budget =
    let next = next_seen seen cursor end_offset in
    let to = visible_end buffer end_offset cursor next remaining_budget in
    let used =
      used_budget buffer cursor to (desired_end cursor remaining_budget next) remaining_budget in
    let rest = advance_loop buffer end_offset seen fuel to (remaining_budget - used) in
    if ltb 0 remaining_budget && ltb cursor end_offset
    then elim (range_containing seen cursor) [
      | some r ↦ advance_loop buffer end_offset seen fuel (min r.1 end_offset) remaining_budget
      | none ↦
          if leb next cursor
          then cursor
          else if leb to cursor
          then cursor
          else if leb remaining_budget used
          then to
          else rest
    ]
    else cursor

unfoldable pub advance_cursor_for_page : PagerBuffer → ℕ → ℕ → ℕ → List Range → ℕ
advance_cursor_for_page buffer start_offset end_offset page_bytes seen =
    let to = min end_offset (len buffer) in
    let cursor = min start_offset to in
    advance_loop buffer to seen (suc (to - cursor)) cursor (max page_bytes 1)

unfoldable pub skip_loop : PagerBuffer → ℕ → List Range → ℕ → ℕ → ℕ
skip_loop buffer page_bytes seen zero cursor = cursor
skip_loop buffer page_bytes seen (suc count) cursor =
    let next = advance_cursor_for_page buffer cursor (len buffer) page_bytes seen in
    let rest = skip_loop buffer page_bytes seen count next in
    if leb next cursor then cursor else if leb (len buffer) next then next else rest

unfoldable pub skip_pages_and_take_next : PagerBuffer → ℕ → ℕ → List Range → Taken
skip_pages_and_take_next buffer page_bytes count seen =
    let cursor = skip_loop buffer page_bytes seen (clamp 1 500 count) buffer.cursor in
    if leb (len buffer) buffer.cursor
    then record {
      contents = [];
      pages_left = 0;
      span = default_range_span;
      buffer = buffer;
      seen = seen;
    }
    else take_next_page (advance_offset_to cursor buffer) page_bytes seen pager

-- A round of `take_unseen_segments_in_range` where the cursor was not seen.
unfoldable pub segment_step : PagerBuffer → ℕ → Page → Page
segment_step buffer next p =
    let shown = contents_for_range buffer p.cursor next in
    if is_empty shown then record p { cursor = next } else record p {
      contents = push_gap p.pending_gap p.contents ++ shown;
      pending_gap = none;
      seen = insert p.seen p.cursor next;
      span = record_range p.span (some (p.cursor, next));
      cursor = next;
    }

-- There is no budget: a round ends at what was seen, or at the end.
unfoldable pub segment_loop : PagerBuffer → ℕ → ℕ → Page → Page
segment_loop buffer end_offset zero p = p
segment_loop buffer end_offset (suc fuel) p =
    let next = next_seen p.seen p.cursor end_offset in
    let rest = segment_loop buffer end_offset fuel (segment_step buffer next p) in
    if ltb p.cursor end_offset
    then elim (range_containing p.seen p.cursor) [
      | some r ↦ segment_loop buffer end_offset fuel (skip_seen end_offset r.1 p)
      | none ↦ if leb next p.cursor then p else rest
    ]
    else p

unfoldable pub take_unseen_segments_in_range : PagerBuffer → ℕ → ℕ → List Range → Page
take_unseen_segments_in_range buffer start_offset end_offset seen =
    let cursor = min start_offset end_offset in
    segment_loop buffer end_offset (suc (end_offset - cursor)) (start_page cursor 0 seen)

unfoldable pub take_all : PagerBuffer → ℕ → List Range → Taken
take_all buffer page_bytes seen =
    let p = take_unseen_segments_in_range buffer buffer.cursor (len buffer) seen in
    let after = advance_offset_to (len buffer) buffer in
    record {
      contents = p.contents;
      pages_left = pages_left_for_buffer after page_bytes;
      span = p.span;
      buffer = after;
      seen = p.seen;
    }

unfoldable pub take_tail_from : PagerBuffer → ℕ → List Range → Taken
take_tail_from buffer start_offset seen =
    let start = min (max buffer.cursor start_offset) (len buffer) in
    let p = take_unseen_segments_in_range buffer start (len buffer) seen in
    record {
      contents = p.contents;
      pages_left = 0;
      span = if is_empty p.contents then default_range_span else p.span;
      buffer = advance_offset_to (len buffer) buffer;
      seen = p.seen;
    }

unfoldable pub take_tail : PagerBuffer → ℕ → List Range → Taken
take_tail buffer page_bytes seen =
    let desired_start = max buffer.cursor (len buffer - page_bytes) in
    let snapped = get_or (last_line_end_before buffer desired_start) desired_start in
    take_tail_from buffer snapped seen

unfoldable pub take_tail_lines : PagerBuffer → ℕ → List Range → Taken
take_tail_lines buffer lines seen =
    take_tail_from buffer (tail_start_offset_for_lines buffer (len buffer) lines) seen

-- The contents, what they span, and what was seen.
unfoldable pub take_line_range :
    PagerBuffer → ℕ → ℕ → List Range → List WorkerContent × RangeSpan × List Range
take_line_range buffer start_line end_line seen =
    elim (line_range_offsets buffer start_line end_line) [
      | none ↦
          (server_stderr (codes "[pager] line range out of bounds") ∷ [], default_range_span, seen)
      | some r ↦
          let p = take_unseen_segments_in_range buffer r.0 r.1 seen in (p.contents, p.span, p.seen)
    ]
