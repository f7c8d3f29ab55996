-- ===== src/Ranges/Query.antt =====
-- The queries of `RangeSet` (src/pager/ranges.rs).
use mathlib.Core.Path.{subst}
use mcp_repl.Prelude.{
  get_or, Bool-cases, Option-cases, inl, inr, ◌==◌, ℕ, suc, ◌≤◌, ◌<◌, leb, Bool, true, false, ◌||◌,
  ◌≡◌, refl, sym, ◌∙◌, Option, none, some, List, [], ◌∷◌, ◌↔◌, arith, if◌then◌else◌,
}
use mcp_repl.Ranges.Set.{Range, partition_point, range_containing, covers, next_range_start_after}
use mcp_repl.Ranges.Insert.{within, member, IsNormalFrom, IsNormal}

-- No range of a normal list holds an offset below all of them.
member_below : (x lo : ℕ) (rs : List Range) → x < lo → IsNormalFrom lo rs → member x rs ≡ false
unfolding member
member_below x lo [] h n = refl
member_below x lo (r ∷ rs) h n = ground (arith, member_below x (suc r.1) rs)

-- The first range that holds an offset, found without the search.
unfoldable pub find_range : ℕ → List Range → Option Range
find_range x [] = none
find_range x (r ∷ rs) = if within x r then some r else find_range x rs

find_range_below :
    (x lo : ℕ) (rs : List Range) → x < lo → IsNormalFrom lo rs → find_range x rs ≡ none
unfolding find_range
find_range_below x lo [] h n = refl
find_range_below x lo (r ∷ rs) h n = ground (arith, find_range_below x (suc r.1) rs)

partition_point_below :
    (x lo : ℕ) (rs : List Range)
    → x < lo
    → IsNormalFrom lo rs
    → partition_point (λ r. leb r.0 x) rs ≡ 0
unfolding partition_point
partition_point_below x lo [] h n = refl
partition_point_below x lo (r ∷ rs) h n = ground arith

-- On a normal list the binary search finds the range that a scan of all ranges finds.
pub range_containing-eq-find_range :
    (lo x : ℕ) (rs : List Range) → IsNormalFrom lo rs → range_containing rs x ≡ find_range x rs
unfolding range_containing find_range
range_containing-eq-find_range lo x [] n = refl
range_containing-eq-find_range lo x (r ∷ rs) n = ground (
  arith,
  range_containing-eq-find_range (suc r.1) x rs,
  partition_point_below x (suc r.1) rs,
  find_range_below x (suc r.1) rs,
)

find_range-bounds :
    (x lo : ℕ) (rs : List Range) {f : Range}
    → IsNormalFrom lo rs
    → find_range x rs ≡ some f
    → (lo ≤ f.0) × (f.0 ≤ x) × (x < f.1)
unfolding find_range
find_range-bounds x lo [] n e = cc
find_range-bounds x lo (r ∷ rs) {f} n e = ground (arith, find_range-bounds x (suc r.1) rs {f = f})

find_range-within :
    (x y : ℕ) (rs : List Range) {f : Range}
    → find_range x rs ≡ some f
    → within y f ≡ true
    → member y rs ≡ true
unfolding find_range member
find_range-within x y [] e h = cc
find_range-within x y (r ∷ rs) {f} e h = ground (arith, find_range-within x y rs {f = f})

-- The end of the found range is not in the set.
find_range-end :
    (x lo : ℕ) (rs : List Range) {f : Range}
    → IsNormalFrom lo rs
    → find_range x rs ≡ some f
    → member f.1 rs ≡ false
unfolding find_range member
find_range-end x lo [] n e = cc
find_range-end x lo (r ∷ rs) {f} n e = ground (
  arith,
  find_range-end x (suc r.1) rs {f = f},
  find_range-bounds x (suc r.1) rs {f = f},
  member_below r.1 (suc r.1) rs,
)

find_range-eq-none : (x : ℕ) (rs : List Range) → find_range x rs ≡ none → member x rs ≡ false
unfolding find_range member
find_range-eq-none x [] e = refl
find_range-eq-none x (r ∷ rs) e = ground (arith, find_range-eq-none x rs)

-- A range that is found holds the offset, and all of it is in the set.
pub range_containing_sound :
    (rs : List Range) (x : ℕ) {f : Range}
    → IsNormal rs
    → range_containing rs x ≡ some f
    → (x < f.1) × ((y : ℕ) → x ≤ y → y < f.1 → member y rs ≡ true)
range_containing_sound rs x {f} n e =
    let g : find_range x rs ≡ some f = sym (range_containing-eq-find_range 0 x rs n) ∙ e in
    let b = find_range-bounds x 0 rs {f = f} n g in
    (b.2, λ y h k. find_range-within x y rs {f = f} g (ground (arith, b)))

covers_sound :
    (rs : List Range) (start end x : ℕ)
    → IsNormal rs
    → covers rs start end ≡ true
    → start ≤ x
    → x < end
    → member x rs ≡ true
unfolding covers
covers_sound rs start end x n c h k = elim (Option-cases (find_range start rs)) [
  | inl e ↦ ground (arith, e, range_containing-eq-find_range 0 start rs)
  | inr (f, e) ↦ ground (
    arith,
    e,
    range_containing-eq-find_range 0 start rs,
    find_range-bounds start 0 rs {f = f},
    find_range-within start x rs {f = f},
  )
]

covers_complete :
    (rs : List Range) (start end : ℕ)
    → IsNormal rs
    → ((x : ℕ) → start ≤ x → x < end → member x rs ≡ true)
    → covers rs start end ≡ true
unfolding covers
covers_complete rs start end n all = elim (Option-cases (find_range start rs)) [
  | inl e ↦
      ground (
        arith,
        e,
        all start,
        find_range-eq-none start rs,
        range_containing-eq-find_range 0 start rs,
      )
  | inr (f, e) ↦ ground (
    arith,
    e,
    all f.1,
    range_containing-eq-find_range 0 start rs,
    find_range-bounds start 0 rs {f = f},
    find_range-end start 0 rs {f = f},
  )
]

-- On a normal list covers answers true exactly when every offset of start..end is in the set.
pub covers_iff :
    (rs : List Range) (start end : ℕ)
    → IsNormal rs
    → (covers rs start end ≡ true) ↔ ((x : ℕ) → start ≤ x → x < end → member x rs ≡ true)
covers_iff rs start end n =
    (λ c x h k. covers_sound rs start end x n c h k, covers_complete rs start end n)

-- Does a range of the list start at the offset?
unfoldable pub is_start : ℕ → List Range → Bool
is_start x [] = false
is_start x (r ∷ rs) = r.0 == x || is_start x rs

is_start_below : (x lo : ℕ) (rs : List Range) → x < lo → IsNormalFrom lo rs → is_start x rs ≡ false
unfolding is_start
is_start_below x lo [] h n = refl
is_start_below x lo (r ∷ rs) h n = ground (arith, is_start_below x (suc r.1) rs)

next_range_start_after-lem :
    (lo x : ℕ) (rs : List Range) {v : ℕ}
    → IsNormalFrom lo rs
    → next_range_start_after rs x ≡ some v
    → (lo ≤ v) × (x ≤ v) × (is_start v rs ≡ true)
unfolding next_range_start_after is_start
next_range_start_after-lem lo x [] n e = cc
next_range_start_after-lem lo x (r ∷ rs) {v} n e =
    ground (arith, next_range_start_after-lem (suc r.1) x rs {v = v})

next_range_start_after-le :
    (lo x y : ℕ) (rs : List Range) {v : ℕ}
    → IsNormalFrom lo rs
    → next_range_start_after rs x ≡ some v
    → x ≤ y
    → is_start y rs ≡ true
    → v ≤ y
unfolding next_range_start_after is_start
next_range_start_after-le lo x y [] n e h k = cc
next_range_start_after-le lo x y (r ∷ rs) {v} n e h k =
    ground
      (arith, next_range_start_after-le (suc r.1) x y rs {v = v}, is_start_below y (suc r.1) rs)

next_range_start_after-eq-none :
    (x y : ℕ) (rs : List Range) → next_range_start_after rs x ≡ none → x ≤ y → is_start y rs ≡ false
unfolding next_range_start_after is_start
next_range_start_after-eq-none x y [] e h = refl
next_range_start_after-eq-none x y (r ∷ rs) e h =
    ground (arith, next_range_start_after-eq-none x y rs)

-- On a normal list the answer is v exactly when v is the least start of a range that is not below
-- the offset.
pub next_range_start_after_iff :
    (rs : List Range) (offset v : ℕ)
    → IsNormal rs
    → (next_range_start_after rs offset ≡ some v) ↔ (
        (offset ≤ v)
        × (is_start v rs ≡ true)
        × ((y : ℕ) → offset ≤ y → is_start y rs ≡ true → v ≤ y))
next_range_start_after_iff rs x v n = (
  λ e.
      let b = next_range_start_after-lem 0 x rs {v = v} n e in
      (b.1, b.2, λ y h k. next_range_start_after-le 0 x y rs n e h k),
  λ s. elim (Option-cases (next_range_start_after rs x)) [
    | inl e ↦ absurd (ground (arith, s.1, next_range_start_after-eq-none x v rs e s.0))
    | inr (w, e) ↦
        let b = next_range_start_after-lem 0 x rs {v = w} n e in
        let le = next_range_start_after-le 0 x v rs {v = w} n e s.0 s.1 in
        ground (arith, s.2 w b.1 b.2)
  ],
)

is_start-member :
    (lo x : ℕ) (rs : List Range) → IsNormalFrom lo rs → is_start x rs ≡ true → member x rs ≡ true
unfolding is_start member
is_start-member lo x [] n e = e
is_start-member lo x (r ∷ rs) n e = ground (arith, e, is_start-member (suc r.1) x rs)

-- Behind an offset that no range holds, the next range starts later.
pub next_range_start_after-lt :
    (rs : List Range) (x : ℕ) {v : ℕ}
    → IsNormal rs
    → range_containing rs x ≡ none
    → next_range_start_after rs x ≡ some v
    → x < v
next_range_start_after-lt rs x {v} n r e =
    let f = find_range-eq-none x rs (sym (range_containing-eq-find_range 0 x rs n) ∙ r) in
    let b = next_range_start_after-lem 0 x rs {v = v} n e in
    let m : is_start x rs ≡ true → member x rs ≡ true = is_start-member 0 x rs n in
    elim (Bool-cases (x == v)) [
      | inl q ↦
          absurd
            (ground (arith, q, f, m (subst (λ y. is_start y rs ≡ true) (ground (arith, q)) b.2)))
      | inr q ↦ ground (arith, q, b.1)
    ]

next_range_gap :
    (lo x y bound : ℕ) (rs : List Range)
    → IsNormalFrom lo rs
    → member x rs ≡ false
    → x ≤ y
    → y < get_or (next_range_start_after rs x) bound
    → member y rs ≡ false
unfolding next_range_start_after member
next_range_gap lo x y bound [] n m h k = refl
next_range_gap lo x y bound (r ∷ rs) n m h k =
    ground (arith, next_range_gap (suc r.1) x y bound rs, member_below y (suc r.1) rs)

-- Between an offset that no range holds and the next range nothing is in the set.
pub next_range_start_after-gap :
    (rs : List Range) (x y bound : ℕ)
    → IsNormal rs
    → range_containing rs x ≡ none
    → x ≤ y
    → y < get_or (next_range_start_after rs x) bound
    → member y rs ≡ false
next_range_start_after-gap rs x y bound n r h k =
    next_range_gap 0 x y bound rs n
      (find_range-eq-none x rs (sym (range_containing-eq-find_range 0 x rs n) ∙ r)) h k
