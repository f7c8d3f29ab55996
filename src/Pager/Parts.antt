-- ===== src/Pager/Parts.antt =====
-- What a page of src/pager/mod.rs shows: parts that were not seen, and a marker for each gap.
use mathlib.Core.Path.{subst}
use mcp_repl.Prelude.{
  ℕ, ◌≤◌, ◌<◌, min, leb, ◌≡◌, refl, sym, ◌∙◌, ap, inl, inr, false, not, ◌&&◌, ◌||◌, Option, none,
  some, List, [], ◌∷◌, ◌++◌, append-nil, append_assoc, All, All-append, arith, Bool-cases,
}
use mcp_repl.Ranges.Set.{Range, range_containing}
use mcp_repl.Ranges.Insert.{within, member, IsNormal}
use mcp_repl.Ranges.Query.{range_containing_sound}
use mcp_repl.Render.Content.{WorkerContent}
use mcp_repl.Render.Push.{ProjectionMode}
use mcp_repl.Pager.Buffer.{PagerBuffer}
use mcp_repl.Pager.Read.{contents_for_range_with_projection_mode}
use mcp_repl.Pager.Presentation.{elision_marker}
use mcp_repl.Pager.Pages.{
  Page, Step, stop, more, gap_start, skip_seen, push_gap, used_budget, desired_end, show_unseen,
}

-- A part of the buffer that a page shows, or passes over.
pub data Part : Type 0 where
  shown passed : Range → Part

unfoldable pub part_contents : PagerBuffer → ProjectionMode → Part → List WorkerContent
part_contents buffer mode (shown r) = contents_for_range_with_projection_mode buffer r.0 r.1 mode
part_contents buffer mode (passed r) = elision_marker r.0 r.1 ∷ []

unfoldable pub all_contents : PagerBuffer → ProjectionMode → List Part → List WorkerContent
all_contents buffer mode [] = []
all_contents buffer mode (p ∷ ps) = part_contents buffer mode p ++ all_contents buffer mode ps

abbrev pub range_of : Part → Range
range_of (shown r) = r
range_of (passed r) = r

-- The parts are not empty, and follow each other from one offset to the other.
abbrev pub IsPath : ℕ → List Part → ℕ → Type 0
IsPath from [] to = from ≡ to
IsPath from (p ∷ ps) to =
    (from ≡ (range_of p).0) × (from < (range_of p).1) × IsPath (range_of p).1 ps to

-- Nothing of a part that is shown had been seen, and all of one that is passed over.
abbrev pub IsHonest : List Range → Part → Type 0
IsHonest seen (shown r) = (x : ℕ) → (within x r && member x seen) ≡ false
IsHonest seen (passed r) = (x : ℕ) → (within x r && not (member x seen)) ≡ false

abbrev pub gap_parts : Option Range → List Part
gap_parts none = []
gap_parts (some r) = passed r ∷ []

pub all_contents-append :
    (buffer : PagerBuffer) (mode : ProjectionMode) (ps qs : List Part)
    → all_contents buffer mode (ps ++ qs)
      ≡ all_contents buffer mode ps ++ all_contents buffer mode qs
unfolding all_contents
all_contents-append buffer mode [] qs = refl
all_contents-append buffer mode (p ∷ ps) qs =
    ap (λ t. part_contents buffer mode p ++ t) (all_contents-append buffer mode ps qs)
    ∙ sym (
        append_assoc (part_contents buffer mode p) (all_contents buffer mode ps)
          (all_contents buffer mode qs))

pub IsPath-append :
    (a b c : ℕ) (ps qs : List Part) → IsPath a ps b → IsPath b qs c → IsPath a (ps ++ qs) c
IsPath-append a b c [] qs h k = subst (λ x. IsPath x qs c) (sym h) k
IsPath-append a b c (p ∷ ps) qs h k = (h.0, h.1, IsPath-append (range_of p).1 b c ps qs h.2 k)

pub push_gap-parts :
    (buffer : PagerBuffer) (mode : ProjectionMode) (gap : Option Range)
    (contents : List WorkerContent)
    → push_gap gap contents ≡ contents ++ all_contents buffer mode (gap_parts gap)
unfolding push_gap all_contents part_contents
push_gap-parts buffer mode none contents = sym (append-nil contents)
push_gap-parts buffer mode (some r) contents = refl

-- What a page has so far: the parts it has shown, and the gap that is pending behind them.
pub record IsMade (buffer : PagerBuffer) (mode : ProjectionMode) (from : ℕ) (seen : List Range)
    (p : Page) : Type 0 where
  pub parts : List Part
  pub shows : p.contents ≡ all_contents buffer mode parts
  pub path : IsPath from parts (gap_start p)
  pub gap_path : IsPath (gap_start p) (gap_parts p.pending_gap) p.cursor
  pub honest : All (IsHonest seen) parts
  pub gap_honest : All (IsHonest seen) (gap_parts p.pending_gap)

abbrev start_of : Option Range → ℕ → ℕ
start_of gap cursor = elim gap [ none ↦ cursor | some g ↦ g.0 ]

-- The pending gap, made longer.
gap_longer :
    (gap : Option Range) (cursor to : ℕ)
    → IsPath (start_of gap cursor) (gap_parts gap) cursor
    → cursor < to
    → start_of gap cursor < to
gap_longer none cursor to m h = h
gap_longer (some g) cursor to m h = omega (arith, m.1, m.2)

gap_longer-IsHonest :
    (seen : List Range) (gap : Option Range) (cursor to : ℕ)
    → IsPath (start_of gap cursor) (gap_parts gap) cursor
    → All (IsHonest seen) (gap_parts gap)
    → IsHonest seen (passed (cursor, to))
    → IsHonest seen (passed (start_of gap cursor, to))
gap_longer-IsHonest seen none cursor to m h k = k
gap_longer-IsHonest seen (some g) cursor to m h k = λ x. ground (arith, h.0 x, k x, m.2)

module _ (buffer : PagerBuffer) (mode : ProjectionMode) (from : ℕ) (seen : List Range) where
  passed-IsMade :
      (p : Page) (to : ℕ)
      → p.cursor < to
      → IsHonest seen (passed (p.cursor, to))
      → IsMade buffer mode from seen p
      → IsMade buffer mode from seen
          (record p { pending_gap = some (gap_start p, to); cursor = to })
  passed-IsMade p to h k m = record {
    parts = m.parts;
    shows = m.shows;
    path = m.path;
    gap_path = (refl, gap_longer p.pending_gap p.cursor to m.gap_path h, refl);
    honest = m.honest;
    gap_honest = (gap_longer-IsHonest seen p.pending_gap p.cursor to m.gap_path m.gap_honest k, tt);
  }

  shown-IsMade :
      (p q : Page)
      → p.cursor < q.cursor
      → q.contents
        ≡ push_gap p.pending_gap p.contents
          ++ contents_for_range_with_projection_mode buffer p.cursor q.cursor mode
      → q.pending_gap ≡ none
      → IsHonest seen (shown (p.cursor, q.cursor))
      → IsMade buffer mode from seen p
      → IsMade buffer mode from seen q
  unfolding all_contents part_contents
  shown-IsMade p q h c e k m =
      let gap = gap_parts p.pending_gap in
      let last : List Part = shown (p.cursor, q.cursor) ∷ [] in
      let none_left : gap_start q ≡ q.cursor = ap (λ g. start_of g q.cursor) e in
      record {
        parts = m.parts ++ (gap ++ last);
        shows = ground (
          arith,
          c,
          m.shows,
          push_gap-parts buffer mode p.pending_gap p.contents,
          all_contents-append buffer mode m.parts (gap ++ last),
          all_contents-append buffer mode gap last,
          append-nil (contents_for_range_with_projection_mode buffer p.cursor q.cursor mode),
          append_assoc (all_contents buffer mode m.parts) (all_contents buffer mode gap)
              (contents_for_range_with_projection_mode buffer p.cursor q.cursor mode),
        );
        path =
            subst (λ x. IsPath from (m.parts ++ (gap ++ last)) x) (sym none_left)
              (IsPath-append from (gap_start p) q.cursor m.parts (gap ++ last) m.path (
                IsPath-append (gap_start p) p.cursor q.cursor gap last m.gap_path (refl, h, refl)));
        gap_path = subst (λ g. IsPath (start_of g q.cursor) (gap_parts g) q.cursor) (sym e) refl;
        honest =
            All-append (IsHonest seen) m.parts (gap ++ last) m.honest
              (All-append (IsHonest seen) gap last m.gap_honest (k, tt));
        gap_honest = subst (λ g. All (IsHonest seen) (gap_parts g)) (sym e) tt;
      }

  abbrev pub IsMadeStep : Step → Type 0
  IsMadeStep (stop q) = IsMade buffer mode from seen q
  IsMadeStep (more q) = IsMade buffer mode from seen q

  -- What is known behind `from` of the ranges that were shown.
  abbrev pub HasGrown : Page → Type 0
  HasGrown p =
      (from ≤ p.cursor) × ((x : ℕ) → member x p.seen ≡ (within x (from, p.cursor) || member x seen))

  pub skip_seen-IsMade :
      (end_offset : ℕ) (p : Page) (r : Range)
      → IsNormal p.seen
      → HasGrown p
      → p.cursor < end_offset
      → range_containing p.seen p.cursor ≡ some r
      → IsMade buffer mode from seen p
      → IsMade buffer mode from seen (skip_seen end_offset r.1 p)
  unfolding skip_seen
  skip_seen-IsMade end_offset p r n g h e m =
      let s = range_containing_sound p.seen p.cursor {f = r} n e in
      passed-IsMade p (min r.1 end_offset) (omega (arith, s.0))
        (λ x. ground (arith, s.1 x, g.0, g.1 x)) m

  pub show_unseen-IsMade :
      (end_offset next to : ℕ) (p : Page)
      → p.cursor < to
      → IsHonest seen (shown (p.cursor, to))
      → IsMade buffer mode from seen p
      → IsMadeStep (show_unseen buffer end_offset mode next to p)
  unfolding show_unseen
  show_unseen-IsMade end_offset next to p h k m =
      let used =
        used_budget buffer p.cursor to (desired_end p.cursor p.remaining_budget next)
          p.remaining_budget in
      elim (Bool-cases (leb p.remaining_budget used)) [
        | inl e ↦ rw e (shown-IsMade p _ h refl refl k m)
        | inr e ↦ rw e (shown-IsMade p _ h refl refl k m)
      ]
