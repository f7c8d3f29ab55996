-- ===== src/Pager/Seen.antt =====
-- What a page of src/pager/mod.rs adds to the ranges that were shown.
use mcp_repl.Prelude.{
  ℕ, zero, suc, ◌-◌, ◌≤◌, ◌<◌, max, ltb, leb, ◌≡◌, refl, sym, ◌∙◌, ap, inl, inr, Bool, ◌&&◌, ◌||◌,
  some, List, arith, u64_max, Bool-cases, Option-cases,
}
use mathlib.Core.Path.{subst}
use mcp_repl.Ranges.Set.{Range, insert, range_containing}
use mcp_repl.Ranges.Insert.{within, member, IsNormal, insert-IsNormal, member-insert}
use mcp_repl.Ranges.Query.{range_containing_sound}
use mcp_repl.Render.Push.{ProjectionMode}
use mcp_repl.Pager.Buffer.{PagerBuffer, len}
use mcp_repl.Pager.Pages.{
  Page, Step, stop, more, skip_seen, show_unseen, unseen_step, page_step, page_loop, next_seen,
  visible_end, used_budget, desired_end,
}
use mcp_repl.Pager.Take.{start_page, next_page}
use mcp_repl.Pager.Bounds.{page_end_offset_with_images_bounds}

-- The source's loop over a page, round after round, comes to its end. A loop that goes on for ever
-- has no such derivation.
pub data Ends (buffer : PagerBuffer) (end_offset : ℕ) (mode : ProjectionMode)
    : Page → Page → Type 0 where
  last :
      (p q : Page) → page_step buffer end_offset mode p ≡ stop q → Ends buffer end_offset mode p q
  round :
      (p q r : Page)
      → page_step buffer end_offset mode p ≡ more q
      → Ends buffer end_offset mode q r
      → Ends buffer end_offset mode p r

-- The ranges that were shown grow by what lies between the cursors.
pub record IsGrown (end_offset : ℕ) (p q : Page) : Type 0 where
  pub normal : IsNormal q.seen
  pub forward : p.cursor ≤ q.cursor
  pub inside : q.cursor ≤ end_offset
  pub grown : (x : ℕ) → member x q.seen ≡ (within x (p.cursor, q.cursor) || member x p.seen)

-- A round that goes on moves the cursor.
abbrev pub IsRound : ℕ → Page → Step → Type 0
IsRound end_offset p (stop q) = IsGrown end_offset p q
IsRound end_offset p (more q) = IsGrown end_offset p q × (p.cursor < q.cursor)

pub IsGrown-same :
    (end_offset : ℕ) (p : Page) → IsNormal p.seen → p.cursor ≤ end_offset → IsGrown end_offset p p
IsGrown-same end_offset p n h = record {
  normal = n;
  forward = omega arith;
  inside = h;
  grown = λ x. ground arith;
}

within_join :
    (x a b c : ℕ) (s : Bool)
    → a ≤ b
    → b ≤ c
    → (within x (b, c) || (within x (a, b) || s)) ≡ (within x (a, c) || s)
within_join x a b c s h k = ground arith

pub IsGrown-join :
    (end_offset : ℕ) (p q r : Page)
    → IsGrown end_offset p q
    → IsGrown end_offset q r
    → IsGrown end_offset p r
IsGrown-join end_offset p q r g k = record {
  normal = k.normal;
  forward = omega (arith, g.forward, k.forward);
  inside = k.inside;
  grown = λ x.
      k.grown x
      ∙ (ap (λ s. within x (q.cursor, r.cursor) || s) (g.grown x)
          ∙ within_join x p.cursor q.cursor r.cursor (member x p.seen) g.forward k.forward);
}

pub skip_seen-IsRound :
    (end_offset : ℕ) (p : Page) (r : Range)
    → IsNormal p.seen
    → p.cursor < end_offset
    → range_containing p.seen p.cursor ≡ some r
    → IsRound end_offset p (more (skip_seen end_offset r.1 p))
unfolding skip_seen
skip_seen-IsRound end_offset p r n h e =
    let s = range_containing_sound p.seen p.cursor {f = r} n e in
    (
      record {
        normal = n;
        forward = omega (arith, s.0);
        inside = omega arith;
        grown = λ x. ground (arith, s.1 x);
      },
      omega (arith, s.0),
    )

inserted-IsGrown :
    (end_offset : ℕ) (p q : Page)
    → IsNormal p.seen
    → p.cursor < q.cursor
    → q.cursor ≤ end_offset
    → q.seen ≡ insert p.seen p.cursor q.cursor
    → IsGrown end_offset p q
inserted-IsGrown end_offset p q n h k e = record {
  normal = subst IsNormal (sym e) (insert-IsNormal p.seen p.cursor q.cursor n);
  forward = omega arith;
  inside = k;
  grown = λ x. ap (member x) e ∙ member-insert x p.seen p.cursor q.cursor n;
}

module _ (buffer : PagerBuffer) (end_offset : ℕ) (mode : ProjectionMode) where
  show_unseen-IsRound :
      (next to : ℕ) (p : Page)
      → IsNormal p.seen
      → p.cursor < to
      → to ≤ end_offset
      → IsRound end_offset p (show_unseen buffer end_offset mode next to p)
  unfolding show_unseen
  show_unseen-IsRound next to p n h k =
      let used =
        used_budget buffer p.cursor to (desired_end p.cursor p.remaining_budget next)
          p.remaining_budget in
      elim (Bool-cases (leb p.remaining_budget used)) [
        | inl e ↦ rw e (inserted-IsGrown end_offset p _ n h k refl)
        | inr e ↦ rw e (inserted-IsGrown end_offset p _ n h k refl, h)
      ]

  module _ (u : len buffer ≤ u64_max) (l : end_offset ≤ len buffer) where
    unseen_step-IsRound :
        (p : Page)
        → IsNormal p.seen
        → p.cursor < end_offset
        → IsRound end_offset p (unseen_step buffer end_offset mode p)
    unfolding unseen_step
    unseen_step-IsRound p n h =
        let next = next_seen p.seen p.cursor end_offset in
        let to = visible_end buffer end_offset p.cursor next p.remaining_budget in
        let same = IsGrown-same end_offset p n (omega arith) in
        elim (Bool-cases (leb next p.cursor)) [
          | inl e ↦ rw e same
          | inr e ↦ elim (Bool-cases (leb to p.cursor)) [
            | inl f ↦ rw (e, f) same
            | inr f ↦
                let b =
                  page_end_offset_with_images_bounds buffer p.cursor next p.remaining_budget 2 u
                    (ground (arith, e)) in
                rw (e, f) (show_unseen-IsRound next to p n (ground (arith, f)) (omega (arith, b)))
          ]
        ]

    pub page_step-IsRound :
        (p : Page)
        → IsNormal p.seen
        → p.cursor ≤ end_offset
        → IsRound end_offset p (page_step buffer end_offset mode p)
    unfolding page_step
    page_step-IsRound p n h =
        elim (Bool-cases (ltb 0 p.remaining_budget && ltb p.cursor end_offset)) [
          | inl e ↦ elim (Option-cases (range_containing p.seen p.cursor)) [
            | inl f ↦ rw (e, f) (unseen_step-IsRound p n (ground (arith, e)))
            | inr (r, f) ↦ rw (e, f) (skip_seen-IsRound end_offset p r n (ground (arith, e)) f)
          ]
          | inr e ↦ rw e (IsGrown-same end_offset p n h)
        ]

    pub page_loop-IsGrown :
        (fuel : ℕ) (p : Page)
        → IsNormal p.seen
        → p.cursor ≤ end_offset
        → IsGrown end_offset p (page_loop buffer end_offset mode fuel p)
    unfolding page_loop
    page_loop-IsGrown zero p n h = IsGrown-same end_offset p n h
    page_loop-IsGrown (suc fuel) p n h =
        elim (page_step buffer end_offset mode p)
            as (λ s.
              IsRound end_offset p s
              → IsGrown end_offset p
                  (elim s [ stop q ↦ q | more q ↦ page_loop buffer end_offset mode fuel q ])) [
                    | stop q ↦ λ r. r
                    | more q ↦ λ r.
                        IsGrown-join end_offset p q _ r.0
                          (page_loop-IsGrown fuel q r.0.normal r.0.inside)
                  ]
          (page_step-IsRound p n h)

    page_loop-Ends :
        (fuel : ℕ) (p : Page)
        → IsNormal p.seen
        → p.cursor ≤ end_offset
        → end_offset - p.cursor < fuel
        → Ends buffer end_offset mode p (page_loop buffer end_offset mode fuel p)
    unfolding page_loop
    page_loop-Ends zero p n h k = absurd (omega arith)
    page_loop-Ends (suc fuel) p n h k =
        elim (page_step buffer end_offset mode p)
            as (λ s.
              page_step buffer end_offset mode p ≡ s
              → IsRound end_offset p s
              → Ends buffer end_offset mode p (elim s as (λ _. Page) [
                | stop q ↦ q
                | more q ↦ page_loop buffer end_offset mode fuel q
              ])) [
                | stop q ↦ λ e r. last p q e
                | more q ↦ λ e r.
                    round p q _ e
                      (page_loop-Ends fuel q r.0.normal r.0.inside (omega (arith, r.1, r.0.inside)))
              ]
          refl (page_step-IsRound p n h)

module _ (buffer : PagerBuffer) (target_bytes : ℕ) (seen : List Range) (mode : ProjectionMode)
    (u : len buffer ≤ u64_max) (n : IsNormal seen) (h : buffer.cursor ≤ len buffer) where
  -- In a buffer of at most u64_max characters, with the cursor inside and shown ranges that are
  -- normal, the loop of take_next_page comes to an end after finitely many rounds, and what it ends
  -- with is the page.
  pub next_page-Ends :
      Ends buffer
        (len buffer)
        mode
        (start_page buffer.cursor (max target_bytes 1) seen)
        (next_page buffer target_bytes seen mode)
  unfolding next_page
  next_page-Ends =
      page_loop-Ends buffer (len buffer) mode u (omega arith) (suc (len buffer - buffer.cursor))
        (start_page buffer.cursor (max target_bytes 1) seen) n h (omega arith)

  -- The page as it is before the buffer's cursor is set.
  pub next_page-IsGrown :
      IsGrown
        (len buffer)
        (start_page buffer.cursor (max target_bytes 1) seen)
        (next_page buffer target_bytes seen mode)
  unfolding next_page
  next_page-IsGrown =
      page_loop-IsGrown buffer (len buffer) mode u (omega arith) (suc (len buffer - buffer.cursor))
        (start_page buffer.cursor (max target_bytes 1) seen) n h
