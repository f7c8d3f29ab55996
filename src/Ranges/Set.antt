-- ===== src/Ranges/Set.antt =====
-- `RangeSet` and `RangeSpan` of src/pager/ranges.rs.
use mcp_repl.Prelude.{
  ℕ, zero, suc, min, max, ltb, leb, Bool, true, false, Option, none, some, if◌then◌else◌, List, [],
  ◌∷◌, ◌++◌, get_elem?, get_last?, drop_last,
}

-- A half-open range of offsets, `start..end`.
abbrev pub Range : Type 0
Range = ℕ × ℕ

-- `self.ranges.partition_point(|range| p(range))` on a list that is partitioned by `p`: how many
-- ranges stand before the first at which `p` fails.
unfoldable pub partition_point : (Range → Bool) → List Range → ℕ
partition_point p [] = 0
partition_point p (r ∷ rs) = elim (p r) [ true ↦ suc (partition_point p rs) | false ↦ 0 ]

abbrev pub and_then {ℓ κ} : {A : Type ℓ} {B : Type κ} → Option A → (A → Option B) → Option B
and_then none f = none
and_then (some a) f = f a

unfoldable pub range_containing : List Range → ℕ → Option Range
unfolding partition_point
range_containing ranges offset = elim (partition_point (λ r. leb r.0 offset) ranges) [
  | zero ↦ none
  | suc idx ↦ and_then (get_elem? ranges idx) (λ r. if ltb offset r.1 then some r else none)
]

unfoldable pub covers : List Range → ℕ → ℕ → Bool
unfolding range_containing
covers ranges start end =
    if leb end start
    then true
    else elim (range_containing ranges start) [ none ↦ false | some r ↦ leb end r.1 ]

unfoldable pub next_range_start_after : List Range → ℕ → Option ℕ
unfolding partition_point
next_range_start_after ranges offset =
    and_then (get_elem? ranges (partition_point (λ r. ltb r.0 offset) ranges)) (λ r. some r.0)

-- The loop of `insert` from index `idx` on: the ranges before `idx` stay, so it recurs on the rest.
unfoldable pub insert_loop : ℕ → ℕ → List Range → List Range
insert_loop start end [] = (start, end) ∷ []
insert_loop start end (r ∷ rs) =
    let skip = r ∷ insert_loop start end rs in
    let join = insert_loop (min start r.0) (max end r.1) rs in
    if ltb end r.0 then (start, end) ∷ r ∷ rs else if ltb r.1 start then skip else join

unfoldable pub insert : List Range → ℕ → ℕ → List Range
unfolding insert_loop
insert ranges start end = if leb end start then ranges else insert_loop start end ranges

pub record RangeSpan : Type 0 where
  pub first : Option Range
  pub last : Option Range
  pub ranges : List Range

-- `#[derive(Default)]`.
unfoldable pub default_range_span : RangeSpan
default_range_span = record { first = none; last = none; ranges = [] }

-- The update of `ranges`: a range that starts within the last one lengthens it.
unfoldable pub push_range : List Range → Range → List Range
push_range ranges range = elim (get_last? ranges) [
  | none ↦ ranges ++ (range ∷ [])
  | some l ↦
      if leb range.0 l.1
      then drop_last ranges ++ ((l.0, max l.1 range.1) ∷ [])
      else ranges ++ (range ∷ [])
]

-- `record` with a range; with `None` it changes nothing.
unfoldable pub record_range : RangeSpan → Option Range → RangeSpan
unfolding push_range
record_range s none = s
record_range s (some range) = record {
  first = elim s.first [ none ↦ some range | some f ↦ some f ];
  last = some range;
  ranges = push_range s.ranges range;
}

unfoldable pub extend_loop : RangeSpan → List Range → RangeSpan
unfolding record_range
extend_loop s [] = s
extend_loop s (r ∷ rs) = extend_loop (record_range s (some r)) rs

unfoldable pub extend : RangeSpan → RangeSpan → RangeSpan
unfolding extend_loop
extend s other = extend_loop s other.ranges
