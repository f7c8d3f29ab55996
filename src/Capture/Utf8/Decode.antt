-- ===== src/Capture/Utf8/Decode.antt =====
-- `std::str::from_utf8` as documented by the Rust standard library, and `flushable_prefix_len` of
-- src/output_capture.rs.
use mcp_repl.Prelude.{
  ℕ, zero, suc, ◌+◌, ltb, leb, ◌==◌, Bool, not, ◌&&◌, Option, none, some, if◌then◌else◌, [], ◌∷◌,
  length, drop, saturating_add,
}
use mcp_repl.Capture.Types.{Bytes}

-- What stands at the front of some bytes: a character of so many bytes, an invalid sequence of so
-- many bytes, or the start of a character whose other bytes are missing.
pub data Char1 : Type 0 where
  valid : ℕ → Char1
  invalid : ℕ → Char1
  incomplete : Char1

abbrev pub is_in : ℕ → ℕ → ℕ → Bool
is_in lo hi b = leb lo b && leb b hi

abbrev pub is_continuation : ℕ → Bool
is_continuation = is_in 0x80 0xbf

-- The second byte that may follow the first of three or four.
abbrev pub second_of_three : ℕ → ℕ → Bool
second_of_three first b =
    if first == 0xe0
    then is_in 0xa0 0xbf b
    else if first == 0xed
    then is_in 0x80 0x9f b
    else is_continuation b

abbrev pub second_of_four : ℕ → ℕ → Bool
second_of_four first b =
    if first == 0xf0
    then is_in 0x90 0xbf b
    else if first == 0xf4
    then is_in 0x80 0x8f b
    else is_continuation b

unfoldable pub two_bytes : Bytes → Char1
two_bytes [] = incomplete
two_bytes (b ∷ bs) = if is_continuation b then valid 2 else invalid 1

unfoldable pub three_bytes : ℕ → Bytes → Char1
three_bytes first [] = incomplete
three_bytes first (b ∷ []) = if second_of_three first b then incomplete else invalid 1
three_bytes first (b ∷ c ∷ bs) =
    if not (second_of_three first b)
    then invalid 1
    else if is_continuation c
    then valid 3
    else invalid 2

unfoldable pub four_bytes : ℕ → Bytes → Char1
four_bytes first [] = incomplete
four_bytes first (b ∷ []) = if second_of_four first b then incomplete else invalid 1
four_bytes first (b ∷ c ∷ []) =
    if not (second_of_four first b)
    then invalid 1
    else if is_continuation c
    then incomplete
    else invalid 2
four_bytes first (b ∷ c ∷ d ∷ bs) =
    if not (second_of_four first b)
    then invalid 1
    else if not (is_continuation c)
    then invalid 2
    else if is_continuation d
    then valid 4
    else invalid 3

unfoldable pub first_char : ℕ → Bytes → Char1
first_char b bs =
    if ltb b 0x80
    then valid 1
    else if is_in 0xc2 0xdf b
    then two_bytes bs
    else if is_in 0xe0 0xef b
    then three_bytes b bs
    else if is_in 0xf0 0xf4 b
    then four_bytes b bs
    else invalid 1

-- `Utf8Error` holds `valid_up_to` and `error_len`.
pub data Validation : Type 0 where
  ok : Validation
  utf8_error : ℕ → Option ℕ → Validation

-- Each round takes a byte at least, so the number of bytes is enough fuel.
unfoldable pub validate : ℕ → ℕ → Bytes → Validation
validate zero n bs = ok
validate (suc fuel) n [] = ok
validate (suc fuel) n (b ∷ bs) = elim (first_char b bs) [
  | valid k ↦ validate fuel (n + k) (drop k (b ∷ bs))
  | invalid k ↦ utf8_error n (some k)
  | incomplete ↦ utf8_error n none
]

unfoldable pub from_utf8 : Bytes → Validation
from_utf8 bs = validate (length bs) 0 bs

-- The loop of `flushable_prefix_len`; `total` is `bytes.len()`.
unfoldable pub flushable_loop : ℕ → ℕ → ℕ → Bytes → ℕ
flushable_loop zero total offset remaining = offset
flushable_loop (suc fuel) total offset [] = offset
flushable_loop (suc fuel) total offset (b ∷ bs) = elim (from_utf8 (b ∷ bs)) [
  | ok ↦ total
  | utf8_error valid_up_to error_len ↦ elim error_len [
    | some k ↦
        flushable_loop fuel total (saturating_add offset (saturating_add valid_up_to k))
          (drop (saturating_add valid_up_to k) (b ∷ bs))
    | none ↦ saturating_add offset valid_up_to
  ]
]

unfoldable pub flushable_prefix_len : Bytes → ℕ
flushable_prefix_len bytes = flushable_loop (length bytes) (length bytes) 0 bytes
