-- ===== src/Pager/Shown.antt =====
-- What a page of src/pager/mod.rs shows, from the buffer's cursor to where it ends.
use mathlib.Core.Path.{subst}
use mcp_repl.Prelude.{
  ℕ, zero, suc, ◌-◌, ◌≤◌, ◌<◌, min, max, ltb, leb, ◌≡◌, refl, sym, ◌∙◌, ap, inl, inr, ◌&&◌, ◌||◌,
  none, List, [], ◌++◌, All, All-append, arith, u64_max, Bool-cases, Option-cases,
}
use mcp_repl.Ranges.Set.{Range, range_containing}
use mcp_repl.Ranges.Insert.{within, member, IsNormal}
use mcp_repl.Ranges.Query.{next_range_start_after-gap}
use mcp_repl.Render.Push.{ProjectionMode}
use mcp_repl.Pager.Buffer.{PagerBuffer, len}
use mcp_repl.Pager.Read.{advance_offset_to}
use mcp_repl.Pager.Pages.{
  Page, stop, more, next_seen, visible_end, unseen_step, page_step, page_loop,
}
use mcp_repl.Pager.Take.{start_page, next_page, Taken, take_next_page}
use mcp_repl.Pager.Bounds.{page_end_offset_with_images_bounds}
use mcp_repl.Pager.Seen.{
  IsGrown, IsGrown-same, IsGrown-join, IsRound, page_step-IsRound, next_page-IsGrown,
}
use mcp_repl.Pager.Parts.{
  Part, all_contents, IsPath, IsHonest, gap_parts, all_contents-append, IsPath-append,
  push_gap-parts, IsMade, IsMadeStep, HasGrown, skip_seen-IsMade, show_unseen-IsMade,
}

module _ (buffer : PagerBuffer) (mode : ProjectionMode) (from : ℕ) (seen : List Range)
    (end_offset : ℕ) (u : len buffer ≤ u64_max) (l : end_offset ≤ len buffer) where
  unseen_step-IsMade :
      (p : Page)
      → IsNormal p.seen
      → HasGrown buffer mode from seen p
      → p.cursor < end_offset
      → range_containing p.seen p.cursor ≡ none
      → IsMade buffer mode from seen p
      → IsMadeStep buffer mode from seen (unseen_step buffer end_offset mode p)
  unfolding unseen_step
  unseen_step-IsMade p n g h r m =
      let next = next_seen p.seen p.cursor end_offset in
      let to = visible_end buffer end_offset p.cursor next p.remaining_budget in
      elim (Bool-cases (leb next p.cursor)) [
        | inl e ↦ rw e m
        | inr e ↦ elim (Bool-cases (leb to p.cursor)) [
          | inl f ↦ rw (e, f) m
          | inr f ↦
              let b =
                page_end_offset_with_images_bounds buffer p.cursor next p.remaining_budget 2 u
                  (ground (arith, e)) in
              let gap = next_range_start_after-gap p.seen p.cursor in
              rw (e, f)
                (show_unseen-IsMade buffer mode from seen end_offset next to p (ground (arith, f))
                  (λ x. ground (arith, b, g.0, g.1 x, gap x end_offset n r)) m)
        ]
      ]

  page_step-IsMade :
      (p : Page)
      → IsNormal p.seen
      → HasGrown buffer mode from seen p
      → IsMade buffer mode from seen p
      → IsMadeStep buffer mode from seen (page_step buffer end_offset mode p)
  unfolding page_step
  page_step-IsMade p n g m =
      elim (Bool-cases (ltb 0 p.remaining_budget && ltb p.cursor end_offset)) [
        | inl e ↦ elim (Option-cases (range_containing p.seen p.cursor)) [
          | inl f ↦ rw (e, f) (unseen_step-IsMade p n g (ground (arith, e)) f m)
          | inr (r, f) ↦
              rw (e, f)
                (skip_seen-IsMade buffer mode from seen end_offset p r n g (ground (arith, e)) f m)
        ]
        | inr e ↦ rw e m
      ]

  page_loop-IsMade :
      (fuel : ℕ) (start p : Page)
      → start.cursor ≡ from
      → start.seen ≡ seen
      → IsGrown end_offset start p
      → IsMade buffer mode from seen p
      → IsMade buffer mode from seen (page_loop buffer end_offset mode fuel p)
  unfolding page_loop
  page_loop-IsMade zero start p c s g m = m
  page_loop-IsMade (suc fuel) start p c s g m =
      let grown : HasGrown buffer mode from seen p =
        subst (λ d. HasGrown buffer mode d seen p) c
          (subst (λ t. HasGrown buffer mode start.cursor t p) s (g.forward, g.grown)) in
      elim (page_step buffer end_offset mode p)
          as (λ t.
            IsRound end_offset p t
            → IsMadeStep buffer mode from seen t
            → IsMade buffer mode from seen (elim t as (λ _. Page) [
              | stop q ↦ q
              | more q ↦ page_loop buffer end_offset mode fuel q
            ])) [
              | stop q ↦ λ r k. k
              | more q ↦ λ r k.
                  page_loop-IsMade fuel start q c s (IsGrown-join end_offset start p q g r.0) k
            ]
        (page_step-IsRound buffer end_offset mode u l p g.normal g.inside)
        (page_step-IsMade p g.normal grown m)

-- What a page shows of the buffer, and what is recorded as shown.
pub record IsTaken (buffer : PagerBuffer) (mode : ProjectionMode) (seen : List Range) (t : Taken)
    : Type 0 where
  parts : List Part
  shows : t.contents ≡ all_contents buffer mode parts
  path : IsPath buffer.cursor parts t.buffer.cursor
  honest : All (IsHonest seen) parts
  normal : IsNormal t.seen
  recorded :
      (x : ℕ) → member x t.seen ≡ (within x (buffer.cursor, t.buffer.cursor) || member x seen)

module _ (buffer : PagerBuffer) (target_bytes : ℕ) (seen : List Range) (mode : ProjectionMode)
    (u : len buffer ≤ u64_max) (n : IsNormal seen) (h : buffer.cursor ≤ len buffer) where
  next_page-IsMade : IsMade buffer mode buffer.cursor seen (next_page buffer target_bytes seen mode)
  unfolding next_page all_contents
  next_page-IsMade =
      let start = start_page buffer.cursor (max target_bytes 1) seen in
      page_loop-IsMade buffer mode buffer.cursor seen (len buffer) u (omega arith)
        (suc (len buffer - buffer.cursor)) start start refl refl
        (IsGrown-same (len buffer) start n h)
        (record {
          parts = [];
          shows = refl;
          path = refl;
          gap_path = refl;
          honest = tt;
          gap_honest = tt;
        })

  -- In a buffer of at most u64_max characters, with the cursor inside and recorded ranges that are
  -- normal, a page consists of parts that are not empty and follow each other from the old cursor
  -- to the new one: its contents are, part by part, those of the buffer's range where nothing of
  -- the part was recorded as shown before, and one elision marker where all of it was. Afterwards
  -- the recorded ranges are normal, and an offset is recorded as shown exactly if it was before or
  -- lies between the two cursors.
  pub take_next_page-IsTaken :
      IsTaken buffer mode seen (take_next_page buffer target_bytes seen mode)
  unfolding take_next_page advance_offset_to
  take_next_page-IsTaken =
      let q = next_page buffer target_bytes seen mode in
      let m = next_page-IsMade in
      let g = next_page-IsGrown buffer target_bytes seen mode u n h in
      let gap = gap_parts q.pending_gap in
      let same : q.cursor ≡ min q.cursor (len buffer) = omega (arith, g.inside) in
      record {
        parts = m.parts ++ gap;
        shows =
            push_gap-parts buffer mode q.pending_gap q.contents
            ∙ (ap (λ t. t ++ all_contents buffer mode gap) m.shows
                ∙ sym (all_contents-append buffer mode m.parts gap));
        path =
            subst (λ c. IsPath buffer.cursor (m.parts ++ gap) c) same
              (IsPath-append buffer.cursor _ q.cursor m.parts gap m.path m.gap_path);
        honest = All-append (IsHonest seen) m.parts gap m.honest m.gap_honest;
        normal = g.normal;
        recorded = λ x. g.grown x ∙ ap (λ c. within x (buffer.cursor, c) || member x seen) same;
      }
