-- ===== src/Pager/Indexed.antt =====
-- The indices of a `PagerBuffer` (src/pager/mod.rs) stay within its bytes and characters.
use mcp_repl.Prelude.{
  inl, inr, Bool-cases, ℕ, zero, suc, ◌+◌, ◌-◌, ◌≤◌, ◌<◌, min, ◌≡◌, refl, true, List, [], ◌∷◌, ◌++◌,
  map, length, drop, All, arith, length-append, length-drop, saturating_add, u64_max,
}
use mcp_repl.Capture.Types.{Bytes}
use mcp_repl.Capture.Utf8.Decode.{ok, utf8_error, from_utf8, is_continuation}
use mcp_repl.Pager.Index.{
  char_starts, counted, build_char_index, extend_char_index, binary_search,
  char_offset_for_byte_index, extend_source_offsets,
}

-- The numbers ascend from `lo` on, and none is above `hi`.
abbrev pub IsUpTo : ℕ → List ℕ → ℕ → Type 0
IsUpTo lo [] hi = Unit {0}
IsUpTo lo (x ∷ xs) hi = (lo ≤ x) × (x ≤ hi) × IsUpTo x xs hi

pub IsUpTo-le : (lo lo' hi : ℕ) (xs : List ℕ) → lo' ≤ lo → IsUpTo lo xs hi → IsUpTo lo' xs hi
IsUpTo-le lo lo' hi [] h u = tt
IsUpTo-le lo lo' hi (x ∷ xs) h u = (omega arith, u.1, u.2)

pub IsUpTo-append :
    (lo mid hi : ℕ) (xs ys : List ℕ)
    → lo ≤ mid
    → mid ≤ hi
    → IsUpTo lo xs mid
    → IsUpTo mid ys hi
    → IsUpTo lo (xs ++ ys) hi
IsUpTo-append lo mid hi [] ys h k u v = IsUpTo-le mid lo hi ys h v
IsUpTo-append lo mid hi (x ∷ xs) ys h k u v =
    (u.0, omega (arith, u.1), IsUpTo-append x mid hi xs ys u.1 k u.2 v)

IsUpTo-shift :
    (base lo hi : ℕ) (xs : List ℕ)
    → IsUpTo lo xs hi
    → IsUpTo (saturating_add base lo) (map (λ x. saturating_add base x) xs) (saturating_add base hi)
IsUpTo-shift base lo hi [] u = tt
IsUpTo-shift base lo hi (x ∷ xs) u =
    (omega (arith, u.0), omega (arith, u.1), IsUpTo-shift base x hi xs u.2)

IsUpTo-drop : (lo hi : ℕ) (xs : List ℕ) → IsUpTo lo xs hi → IsUpTo lo (drop 1 xs) hi
IsUpTo-drop lo hi [] u = tt
IsUpTo-drop lo hi (x ∷ xs) u = IsUpTo-le x lo hi xs u.0 u.2

char_starts-IsUpTo :
    (at hi : ℕ) (bs : Bytes) → at + length bs ≤ hi → IsUpTo at (char_starts at bs) hi
unfolding char_starts
char_starts-IsUpTo at hi [] h = tt
char_starts-IsUpTo at hi (b ∷ bs) h =
    let rest = char_starts-IsUpTo (suc at) hi bs (omega arith) in
    let lower = IsUpTo-le (suc at) at hi (char_starts (suc at) bs) (omega arith) rest in
    elim (Bool-cases (is_continuation b)) [
      | inl e ↦ rw e lower
      | inr e ↦ rw e (omega arith, omega arith, lower)
    ]

counted-IsUpTo : (at hi n : ℕ) → at + n ≤ suc hi → IsUpTo at (counted at n) hi
unfolding counted
counted-IsUpTo at hi zero h = tt
counted-IsUpTo at hi (suc n) h = (
  omega arith,
  omega arith,
  IsUpTo-le (suc at) at hi (counted (suc at) n) (omega arith)
      (counted-IsUpTo (suc at) hi n (omega arith)),
)

-- The index that `build_char_index` makes of bytes, valid or not.
pub record IsIndex (bytes : Bytes) (index : List ℕ) : Type 0 where
  pub up_to : IsUpTo 0 index (length bytes)
  pub filled : 0 < length index

pub build_char_index-IsIndex : (bytes : Bytes) → IsIndex bytes (build_char_index bytes)
unfolding build_char_index counted
build_char_index-IsIndex bytes =
    elim (from_utf8 bytes)
      as (λ v. IsIndex bytes (elim v as (λ _. List ℕ) [
        | ok ↦ char_starts 0 bytes ++ (length bytes ∷ [])
        | utf8_error u e ↦ counted 0 (suc (length bytes))
      ])) [
        | ok ↦ record {
          up_to =
              IsUpTo-append 0 (length bytes) (length bytes) (char_starts 0 bytes)
                (length bytes ∷ []) (omega arith) (omega arith)
                (char_starts-IsUpTo 0 (length bytes) bytes (omega arith))
                (omega arith, omega arith, tt);
          filled = omega (arith, length-append (char_starts 0 bytes) (length bytes ∷ []));
        }
        | utf8_error u e ↦ record {
          up_to = counted-IsUpTo 0 (length bytes) (suc (length bytes)) (omega arith);
          filled = omega arith;
        }
      ]

-- A character's offset is one of the index, and ascends with the byte's.
binary_search_bounds :
    (xs : List ℕ) (v : ℕ)
    → let f = binary_search xs v in (f.1 ≤ length xs) × (f.0 ≡ true → f.1 < length xs)
unfolding binary_search
binary_search_bounds [] v = ground arith
binary_search_bounds (x ∷ xs) v = ground (arith, binary_search_bounds xs v)

pub char_offset-le :
    (index : List ℕ) (v : ℕ) → char_offset_for_byte_index index v ≤ length index - 1
unfolding char_offset_for_byte_index
char_offset-le index v = ground (arith, binary_search_bounds index v)

binary_search_mono :
    (xs : List ℕ) (v w : ℕ)
    → v < w
    → let f = binary_search xs v in
      let g = binary_search xs w in (f.1 ≤ g.1) × (f.0 ≡ true → f.1 < g.1)
unfolding binary_search
binary_search_mono [] v w h = ground arith
binary_search_mono (x ∷ xs) v w h = ground (arith, h, binary_search_mono xs v w h)

pub char_offset_mono :
    (index : List ℕ) (v w : ℕ)
    → v < w
    → char_offset_for_byte_index index v ≤ char_offset_for_byte_index index w
unfolding char_offset_for_byte_index
char_offset_mono index v w h = ground (arith, binary_search_mono index v w h)

length-map : {A B : Type 0} (f : A → B) (xs : List A) → length (map f xs) ≡ length xs
length-map f [] = refl
length-map f (x ∷ xs) = omega (arith, length-map f xs)

-- The index of bytes that follow: it grows by their characters.
pub extend_char_index-IsUpTo :
    (target : List ℕ) (base : ℕ) (bytes : Bytes)
    → 0 < length target
    → IsUpTo 0 target (min base u64_max)
    → let index = extend_char_index target (build_char_index bytes) base in
      IsUpTo 0 index (min (base + length bytes) u64_max)
      × (length index ≡ length target + (length (build_char_index bytes) - 1))
unfolding extend_char_index
extend_char_index-IsUpTo [] base bytes f u = absurd (omega arith)
extend_char_index-IsUpTo (x ∷ xs) base bytes f u =
    let chunk = build_char_index bytes in
    let i = build_char_index-IsIndex bytes in
    let added = map (λ y. saturating_add base y) (drop 1 chunk) in
    let shifted =
      IsUpTo-le (saturating_add base 0) (min base u64_max) (saturating_add base (length bytes))
        added (omega arith)
        (IsUpTo-shift base 0 (length bytes) (drop 1 chunk)
          (IsUpTo-drop 0 (length bytes) chunk i.up_to)) in
    (
      IsUpTo-append 0 (min base u64_max) (min (base + length bytes) u64_max) (x ∷ xs) added
          (omega arith) (omega arith) u shifted,
      omega (
        arith,
        length-append (x ∷ xs) added,
        length-map (λ y. saturating_add base y) (drop 1 chunk),
        length-drop 1 chunk,
      ),
    )

pub extend_source_offsets-length :
    (target index : List ℕ) (f : ℕ → ℕ)
    → 0 < length target
    → length (extend_source_offsets target index f) ≡ length target + (length index - 1)
unfolding extend_source_offsets
extend_source_offsets-length [] index f h = absurd (omega arith)
extend_source_offsets-length (x ∷ xs) index f h = omega (
  arith,
  length-append (x ∷ xs) (map f (drop 1 index)),
  length-map f (drop 1 index),
  length-drop 1 index,
)

pub All-map :
    {A : Type 0} (P Q : A → Type 0) (xs : List A) → ((a : A) → P a → Q a) → All P xs → All Q xs
All-map P Q [] f h = tt
All-map P Q (x ∷ xs) f h = (f x h.0, All-map P Q xs f h.1)

pub line_end_offsets_bounds :
    (index : List ℕ) (base : ℕ) (ns : List ℕ)
    → All
        (λ l. l ≤ base + (length index - 1))
        (map
          (λ idx. saturating_add base (char_offset_for_byte_index index (saturating_add idx 1)))
          ns)
line_end_offsets_bounds index base [] = tt
line_end_offsets_bounds index base (n ∷ ns) = (
  omega (arith, char_offset-le index (saturating_add n 1)),
  line_end_offsets_bounds index base ns,
)
