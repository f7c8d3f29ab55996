-- ===== src/Ranges/Tests.antt =====
-- Runs of `RangeSet` (src/pager/ranges.rs) on concrete ranges.
use mcp_repl.Prelude.{ℕ, ◌≤◌, ◌<◌, ◌≡◌, refl, true, false, ◌||◌, some, List, [], ◌∷◌, arith, ◌↔◌}
use mcp_repl.Ranges.Set.{
  Range, partition_point, range_containing, covers, next_range_start_after, insert_loop, insert,
}
use mcp_repl.Ranges.Insert.{within, member, IsNormal, member-insert, insert-IsNormal}
use mcp_repl.Ranges.Query.{is_start, covers_iff, next_range_start_after_iff}

abbrev shown : List Range
shown = (0, 5) ∷ (8, 12) ∷ (20, 21) ∷ []

insert_joins : insert shown 4 8 ≡ (0, 12) ∷ (20, 21) ∷ []
unfolding insert insert_loop
insert_joins = refl

covers_gap : covers shown 4 9 ≡ false
unfolding covers range_containing partition_point
covers_gap = refl

member-insert_example : member 7 (insert shown 6 8) ≡ (within 7 (6, 8) || member 7 shown)
member-insert_example = member-insert 7 shown 6 8 (ground arith)

insert-IsNormal_example : IsNormal (insert shown 4 9)
insert-IsNormal_example = insert-IsNormal shown 4 9 (ground arith)

covers_iff_example : (covers shown 8 12 ≡ true) ↔ ((x : ℕ) → 8 ≤ x → x < 12 → member x shown ≡ true)
covers_iff_example = covers_iff shown 8 12 (ground arith)

next_range_start_after_iff_example :
    (next_range_start_after shown 6 ≡ some 8)
    ↔ ((6 ≤ 8) × (is_start 8 shown ≡ true) × ((y : ℕ) → 6 ≤ y → is_start y shown ≡ true → 8 ≤ y))
next_range_start_after_iff_example = next_range_start_after_iff shown 6 8 (ground arith)
