-- ===== src/Ranges/Insert.antt =====
-- What `RangeSet::insert` of src/pager/ranges.rs does to the set of offsets.
use mcp_repl.Prelude.{
  ℕ, suc, ◌≤◌, ◌<◌, min, max, ltb, leb, Bool, false, ◌&&◌, ◌||◌, ◌≡◌, refl, List, [], ◌∷◌, arith,
}
use mcp_repl.Ranges.Set.{Range, insert, insert_loop}

abbrev pub within : ℕ → Range → Bool
within x r = leb r.0 x && ltb x r.1

-- Does some range hold the offset?
unfoldable pub member : ℕ → List Range → Bool
member x [] = false
member x (r ∷ rs) = within x r || member x rs

-- The ranges are not empty, in order, with a gap between each two; all start after `lo`.
abbrev pub IsNormalFrom : ℕ → List Range → Type 0
IsNormalFrom lo [] = Unit {0}
IsNormalFrom lo (r ∷ rs) = (lo ≤ r.0) × (r.0 < r.1) × IsNormalFrom (suc r.1) rs

abbrev pub IsNormal : List Range → Type 0
IsNormal rs = IsNormalFrom 0 rs

pub IsNormalFrom-le :
    (lo hi : ℕ) (rs : List Range) → lo ≤ hi → IsNormalFrom hi rs → IsNormalFrom lo rs
IsNormalFrom-le lo hi [] h n = tt
IsNormalFrom-le lo hi (r ∷ rs) h n = (omega arith, n.1, n.2)

insert_loop-IsNormal :
    (lo start end : ℕ) (rs : List Range)
    → lo ≤ start
    → start < end
    → IsNormalFrom lo rs
    → IsNormalFrom lo (insert_loop start end rs)
unfolding insert_loop
insert_loop-IsNormal lo start end [] h k n = (h, k, tt)
insert_loop-IsNormal lo start end (r ∷ rs) h k n = ground (
  arith,
  insert_loop-IsNormal (suc r.1) start end rs,
  insert_loop-IsNormal lo (min start r.0) (max end r.1) rs,
  IsNormalFrom-le lo (suc r.1) rs,
)

-- insert keeps ranges sorted, not empty and separated by gaps.
pub insert-IsNormal :
    (ranges : List Range) (start end : ℕ) → IsNormal ranges → IsNormal (insert ranges start end)
unfolding insert
insert-IsNormal ranges start end n = ground (arith, insert_loop-IsNormal 0 start end ranges)

within-join :
    (x start end : ℕ) (r : Range)
    → start < end
    → r.0 < r.1
    → r.0 ≤ end
    → start ≤ r.1
    → within x (min start r.0, max end r.1) ≡ (within x (start, end) || within x r)
within-join x start end r h k a b = ground arith

or_swap : (a b c : Bool) → (a || (b || c)) ≡ (b || (a || c))
or_swap a b c = ground arith

or_assoc : (a b c : Bool) → ((a || b) || c) ≡ (a || (b || c))
or_assoc a b c = ground arith

member-insert_loop :
    (x lo start end : ℕ) (rs : List Range)
    → start < end
    → IsNormalFrom lo rs
    → member x (insert_loop start end rs) ≡ (within x (start, end) || member x rs)
unfolding insert_loop member
member-insert_loop x lo start end [] k n = refl
member-insert_loop x lo start end (r ∷ rs) k n = ground (
  arith,
  member-insert_loop x (suc r.1) start end rs,
  member-insert_loop x (suc r.1) (min start r.0) (max end r.1) rs,
  within-join x start end r,
  or_swap (within x r) (within x (start, end)) (member x rs),
  or_assoc (within x (start, end)) (within x r) (member x rs),
)

-- In a list of ranges that are sorted, not empty and separated by gaps, after insert an offset is
-- in the set exactly when it was before or lies in start..end.
pub member-insert :
    (x : ℕ) (ranges : List Range) (start end : ℕ)
    → IsNormal ranges
    → member x (insert ranges start end) ≡ (within x (start, end) || member x ranges)
unfolding insert
member-insert x ranges start end n = ground (arith, member-insert_loop x 0 start end ranges)
