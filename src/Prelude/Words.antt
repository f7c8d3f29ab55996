-- ===== src/Prelude/Words.antt =====
-- 64-bit unsigned arithmetic (`u64`, and `usize` on a 64-bit target).
-- `saturating_sub` is the `-` of ℕ, which stops at 0.
use Prim.Native.Nat.{ℕ, ◌+◌, ◌-◌, ◌^◌, min}

abbrev pub u64_max : ℕ
u64_max = 2 ^ 64 - 1

-- `a.saturating_add(b)`.
abbrev pub saturating_add : ℕ → ℕ → ℕ
saturating_add a b = min (a + b) u64_max

-- `isize::MAX`, which no allocation exceeds.
abbrev pub isize_max : ℕ
isize_max = 2 ^ 63 - 1
