-- ===== src/Pager/Moves.antt =====
-- A page of src/pager/mod.rs moves on.
use mcp_repl.Prelude.{
  ℕ, suc, ◌-◌, ◌≤◌, ◌<◌, max, ltb, leb, ◌≡◌, inl, inr, true, false, ◌&&◌, none, List, All, arith,
  u64_max, Bool-cases, Option-cases,
}
use mcp_repl.Ranges.Set.{Range, range_containing, next_range_start_after}
use mcp_repl.Ranges.Insert.{IsNormal}
use mcp_repl.Ranges.Query.{next_range_start_after-lt}
use mcp_repl.Render.Push.{ProjectionMode}
use mcp_repl.Pager.Buffer.{PagerBuffer, len}
use mcp_repl.Pager.Read.{advance_offset_to}
use mcp_repl.Pager.Pages.{
  Page, Step, stop, more, show_unseen, unseen_step, page_step, page_loop, next_seen, visible_end,
  used_budget, desired_end,
}
use mcp_repl.Pager.Take.{start_page, next_page, take_next_page}
use mcp_repl.Pager.Bounds.{IsClear, page_end_offset_with_images_moves}
use mcp_repl.Pager.Seen.{IsRound, skip_seen-IsRound, page_step-IsRound, page_loop-IsGrown}

next_seen_moves :
    (seen : List Range) (cursor end_offset : ℕ)
    → IsNormal seen
    → range_containing seen cursor ≡ none
    → cursor < end_offset
    → cursor < next_seen seen cursor end_offset
next_seen_moves seen cursor end_offset n r h =
    elim (Option-cases (next_range_start_after seen cursor)) [
      | inl e ↦ rw e (omega arith)
      | inr (v, e) ↦ rw e (omega (arith, next_range_start_after-lt seen cursor {v = v} n r e))
    ]

-- A round moves, whether it is the last or not.
abbrev Moves : ℕ → Step → Type 0
Moves cursor (stop q) = cursor < q.cursor
Moves cursor (more q) = cursor < q.cursor

module _ (buffer : PagerBuffer) (end_offset : ℕ) (mode : ProjectionMode) (u : len buffer < u64_max)
    (l : end_offset ≤ len buffer) where
  show_unseen-Moves :
      (next to : ℕ) (p : Page)
      → p.cursor < to
      → Moves p.cursor (show_unseen buffer end_offset mode next to p)
  unfolding show_unseen
  show_unseen-Moves next to p h =
      let used =
        used_budget buffer p.cursor to (desired_end p.cursor p.remaining_budget next)
          p.remaining_budget in
      elim (Bool-cases (leb p.remaining_budget used)) [ inl e ↦ rw e h | inr e ↦ rw e h ]

  unseen_step-Moves :
      (p : Page)
      → IsNormal p.seen
      → p.cursor < end_offset
      → 0 < p.remaining_budget
      → range_containing p.seen p.cursor ≡ none
      → All (IsClear p.cursor) buffer.events
      → Moves p.cursor (unseen_step buffer end_offset mode p)
  unfolding unseen_step
  unseen_step-Moves p n h t r c =
      let next = next_seen p.seen p.cursor end_offset in
      let to = visible_end buffer end_offset p.cursor next p.remaining_budget in
      let m = next_seen_moves p.seen p.cursor end_offset n r h in
      let k =
        page_end_offset_with_images_moves buffer p.cursor next p.remaining_budget 2 u
          (omega (arith, m)) t c in
      let a : leb next p.cursor ≡ false = ground (arith, m) in
      let b : leb to p.cursor ≡ false = ground (arith, k) in
      rw (a, b) (show_unseen-Moves next to p k)

  page_step-Moves :
      (p : Page)
      → IsNormal p.seen
      → p.cursor < end_offset
      → 0 < p.remaining_budget
      → All (IsClear p.cursor) buffer.events
      → Moves p.cursor (page_step buffer end_offset mode p)
  unfolding page_step
  page_step-Moves p n h t c =
      let e : (ltb 0 p.remaining_budget && ltb p.cursor end_offset) ≡ true = ground arith in
      elim (Option-cases (range_containing p.seen p.cursor)) [
        | inl f ↦ rw (e, f) (unseen_step-Moves p n h t f c)
        | inr (r, f) ↦ rw (e, f) ((skip_seen-IsRound end_offset p r n h f).1)
      ]

  page_loop_moves :
      (fuel : ℕ) (p : Page)
      → IsNormal p.seen
      → p.cursor < end_offset
      → 0 < p.remaining_budget
      → All (IsClear p.cursor) buffer.events
      → p.cursor < (page_loop buffer end_offset mode (suc fuel) p).cursor
  unfolding page_loop
  page_loop_moves fuel p n h t c =
      elim (page_step buffer end_offset mode p)
          as (λ s.
            IsRound end_offset p s
            → Moves p.cursor s
            → p.cursor
              < (elim s as (λ _. Page) [
                | stop q ↦ q
                | more q ↦ page_loop buffer end_offset mode fuel q
              ]).cursor) [
                | stop q ↦ λ r m. m
                | more q ↦ λ r m.
                    let g =
                      page_loop-IsGrown buffer end_offset mode (omega arith) l fuel q r.0.normal
                        r.0.inside in
                    omega (arith, m, g.forward)
              ]
        (page_step-IsRound buffer end_offset mode (omega arith) l p n (omega arith))
        (page_step-Moves p n h t c)

-- In a buffer of less than u64_max characters whose cursor is before the end, with shown ranges
-- that are normal and no image at the cursor or one character after it, a page of any size moves
-- the cursor on.
pub take_next_page_moves :
    (buffer : PagerBuffer) (target_bytes : ℕ) (seen : List Range) (mode : ProjectionMode)
    → len buffer < u64_max
    → IsNormal seen
    → buffer.cursor < len buffer
    → All (IsClear buffer.cursor) buffer.events
    → buffer.cursor < (take_next_page buffer target_bytes seen mode).buffer.cursor
unfolding take_next_page next_page advance_offset_to
take_next_page_moves buffer target_bytes seen mode u n h c =
    let p = start_page buffer.cursor (max target_bytes 1) seen in
    let m =
      page_loop_moves buffer (len buffer) mode u (omega arith) (len buffer - buffer.cursor) p n h
        (omega arith) c in
    omega (arith, m)
