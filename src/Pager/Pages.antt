-- ===== src/Pager/Pages.antt =====
-- The pages of src/pager/mod.rs: how far a page goes, and what it shows.
use mcp_repl.Prelude.{
  ℕ, zero, suc, ◌+◌, ◌-◌, ◌*◌, ◌/◌, min, max, ltb, leb, ◌==◌, ◌&&◌, ◌||◌, Option, none, some,
  get_or, if◌then◌else◌, List, [], ◌∷◌, ◌++◌, length, get_elem?, saturating_add, u64_max,
}
use mcp_repl.Ranges.Set.{
  Range, RangeSpan, record_range, insert, range_containing, next_range_start_after,
}
use mcp_repl.Render.Content.{WorkerContent}
use mcp_repl.Render.Push.{ProjectionMode}
use mcp_repl.Pager.Buffer.{PagerBuffer, len}
use mcp_repl.Pager.Read.{
  contents_for_range_with_projection_mode, page_end_offset, image_offsets_in_range,
  count_images_in_range,
}
use mcp_repl.Pager.Presentation.{elision_marker}

abbrev pub max_images_per_page : ℕ
max_images_per_page = 2

abbrev pub image_equiv_chars : ℕ
image_equiv_chars = 800

abbrev pub saturating_mul : ℕ → ℕ → ℕ
saturating_mul a b = min (a * b) u64_max

module _ (buffer : PagerBuffer) (start_offset end_offset target_bytes : ℕ) where
  -- The candidate of round `k`, between the images `k - 1` and `k`, if it reaches that far.
  unfoldable pub candidate_in : ℕ → ℕ → ℕ → Option ℕ
  candidate_in k segment_start segment_end_exclusive =
      let text_budget = target_bytes - saturating_mul k image_equiv_chars in
      let budget_end = saturating_add start_offset text_budget in
      let candidate_end = min (min end_offset budget_end) (segment_end_exclusive - 1) in
      let aligned =
        page_end_offset buffer start_offset candidate_end (candidate_end - start_offset) in
      if segment_end_exclusive == 0
      then none
      else if ltb candidate_end segment_start
      then none
      else if ltb 0 (candidate_end - start_offset) && leb segment_start aligned
      then some aligned
      else some candidate_end

  -- The greatest candidate of the rounds from `k` on; the images before are `previous`.
  unfoldable pub best_end_loop : ℕ → ℕ → ℕ → List ℕ → ℕ → ℕ
  best_end_loop zero k segment_start images best_end = best_end
  best_end_loop (suc rounds) k segment_start images best_end =
      let segment_end_exclusive = get_or (get_elem? images 0) (saturating_add end_offset 1) in
      let best =
        max best_end (get_or (candidate_in k segment_start segment_end_exclusive) best_end) in
      elim images [ [] ↦ best | i ∷ is ↦ best_end_loop rounds (suc k) i is best ]

unfoldable pub page_end_offset_with_images : PagerBuffer → ℕ → ℕ → ℕ → ℕ → ℕ
page_end_offset_with_images buffer start_offset end_offset target_bytes max_images =
    let to = min end_offset (len buffer) in
    let remaining_images = count_images_in_range buffer start_offset to in
    let image_offsets = image_offsets_in_range buffer start_offset to (max_images + 1) in
    if leb to start_offset
    then to
    else if leb (to - start_offset) target_bytes
        && ((max_images == 0) || leb remaining_images max_images)
    then to
    else if max_images == 0
    then page_end_offset buffer start_offset to target_bytes
    else best_end_loop buffer start_offset to target_bytes
        (suc (min (length image_offsets) max_images)) 0 start_offset image_offsets start_offset

unfoldable pub pages_left : PagerBuffer → ℕ → ℕ → ℕ → ℕ
pages_left buffer current_offset end_offset page_bytes =
    let to = min end_offset (len buffer) in
    let from = min current_offset to in
    let remaining_text = to - from in
    let remaining_images = count_images_in_range buffer from to in
    let page = max page_bytes 1 in
    let cost = saturating_add remaining_text (saturating_mul remaining_images image_equiv_chars) in
    let cost_pages = (cost + (page - 1)) / page in
    let image_pages = (remaining_images + (max_images_per_page - 1)) / max_images_per_page in
    if (remaining_text == 0) && (remaining_images == 0)
    then 0
    else if leb remaining_text page && leb remaining_images max_images_per_page
    then 0
    else max cost_pages image_pages

unfoldable pub pages_left_for_buffer : PagerBuffer → ℕ → ℕ
pages_left_for_buffer buffer page_bytes =
    pages_left buffer buffer.cursor (len buffer) (max page_bytes 1)

-- The variables of the loops over a page.
pub record Page : Type 0 where
  pub cursor : ℕ
  pub remaining_budget : ℕ
  pub contents : List WorkerContent
  pub seen : List Range
  pub span : RangeSpan
  pub pending_gap : Option Range

pub data Step : Type 0 where
  -- the loop ends; it goes on
  stop more : Page → Step

-- What was seen is passed over, as part of the gap.
abbrev pub gap_start : Page → ℕ
gap_start p = elim p.pending_gap [ none ↦ p.cursor | some g ↦ g.0 ]

unfoldable pub skip_seen : ℕ → ℕ → Page → Page
skip_seen end_offset range_end p =
    let gap_end = min range_end end_offset in
    record p { pending_gap = some (gap_start p, gap_end); cursor = gap_end }

-- `if let Some((gap_start, gap_end)) = pending_gap.take()`.
unfoldable pub push_gap : Option Range → List WorkerContent → List WorkerContent
push_gap none contents = contents
push_gap (some g) contents = contents ++ (elision_marker g.0 g.1 ∷ [])

unfoldable pub used_budget : PagerBuffer → ℕ → ℕ → ℕ → ℕ → ℕ
used_budget buffer cursor visible_end desired_end remaining_budget =
    let images = count_images_in_range buffer cursor visible_end in
    if ltb visible_end desired_end
    then remaining_budget
    else saturating_add (visible_end - cursor) (saturating_mul images image_equiv_chars)

abbrev pub next_seen : List Range → ℕ → ℕ → ℕ
next_seen seen cursor end_offset =
    min (get_or (next_range_start_after seen cursor) end_offset) end_offset

abbrev pub desired_end : ℕ → ℕ → ℕ → ℕ
desired_end cursor remaining_budget next =
    max (min (saturating_add cursor remaining_budget) next) cursor

module _ (buffer : PagerBuffer) (end_offset : ℕ) where
  abbrev pub visible_end : ℕ → ℕ → ℕ → ℕ
  visible_end cursor next remaining_budget =
      page_end_offset_with_images buffer cursor next remaining_budget max_images_per_page

  -- A part that was not seen is shown, and paid for.
  unfoldable pub show_unseen : ProjectionMode → ℕ → ℕ → Page → Step
  show_unseen projection_mode next to p =
      let used =
        used_budget buffer p.cursor to (desired_end p.cursor p.remaining_budget next)
          p.remaining_budget in
      let shown = record p {
        contents =
            push_gap p.pending_gap p.contents
            ++ contents_for_range_with_projection_mode buffer p.cursor to projection_mode;
        pending_gap = none;
        seen = insert p.seen p.cursor to;
        span = record_range p.span (some (p.cursor, to));
        cursor = to;
      } in
      if leb p.remaining_budget used
      then stop shown
      else more (record shown { remaining_budget = p.remaining_budget - used })

  -- A round of `take_next_page` where the cursor was not seen.
  unfoldable pub unseen_step : ProjectionMode → Page → Step
  unseen_step projection_mode p =
      let next = next_seen p.seen p.cursor end_offset in
      let to = visible_end p.cursor next p.remaining_budget in
      if leb next p.cursor
      then stop p
      else if leb to p.cursor
      then stop p
      else show_unseen projection_mode next to p

  unfoldable pub page_step : ProjectionMode → Page → Step
  page_step projection_mode p =
      if ltb 0 p.remaining_budget && ltb p.cursor end_offset
      then elim (range_containing p.seen p.cursor) [
        | some r ↦ more (skip_seen end_offset r.1 p)
        | none ↦ unseen_step projection_mode p
      ]
      else stop p

  -- Each round moves the cursor, so the characters from the cursor on are enough fuel.
  unfoldable pub page_loop : ProjectionMode → ℕ → Page → Page
  page_loop projection_mode zero p = p
  page_loop projection_mode (suc fuel) p = elim (page_step projection_mode p) [
    | stop q ↦ q
    | more q ↦ page_loop projection_mode fuel q
  ]
