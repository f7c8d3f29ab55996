-- ===== src/Prelude/Text.antt =====
-- Texts as lists of numbers (bytes or code points), and what the source uses of Rust's `str` and
-- `char`, as their documentation describes it.
use Prim.Native.Nat.{ℕ, zero, suc, ◌/◌, ◌%◌, ◌+◌, ◌-◌, ◌*◌}
use Prim.Native.Char.{code}
use Prim.Native.String.{String}
use mathlib.Core.Bool.{Bool, true, false, ◌&&◌, ◌||◌}
use mathlib.Core.List.{List, [], ◌∷◌, ◌++◌}
use mathlib.Core.Option.{Option, none, some}
use mcp_repl.Prelude.Tests.{leb, ◌==◌, if◌then◌else◌}
use mcp_repl.Prelude.Lists.{is_empty, length, take, drop}
use mcp_repl.Prelude.Words.{u64_max}

abbrev pub Chars : Type 0
Chars = List ℕ

abbrev pub codes : String → Chars
codes String.[] = []
codes (String.◌∷◌ c s) = code c ∷ codes s

abbrev pub chars_eq : Chars → Chars → Bool
chars_eq [] [] = true
chars_eq (x ∷ xs) (y ∷ ys) = (x == y) && chars_eq xs ys
chars_eq _ _ = false

-- `char::is_whitespace`: the code points with the property White_Space.
unfoldable pub is_whitespace : ℕ → Bool
is_whitespace c =
    (leb 0x9 c && leb c 0xd)
    || ((c == 0x20)
        || ((c == 0x85)
            || ((c == 0xa0)
                || ((c == 0x1680)
                    || ((leb 0x2000 c && leb c 0x200a)
                        || ((c == 0x2028)
                            || ((c == 0x2029)
                                || ((c == 0x202f) || ((c == 0x205f) || (c == 0x3000))))))))))

unfoldable pub is_ascii_whitespace : ℕ → Bool
is_ascii_whitespace c = (c == 0x20) || ((c == 0x9) || ((c == 0xa) || ((c == 0xc) || (c == 0xd))))

-- `trim_start_matches` and `trim_end_matches`.
unfoldable pub trim_start_matches : (ℕ → Bool) → Chars → Chars
trim_start_matches p [] = []
trim_start_matches p (c ∷ cs) = let rest = trim_start_matches p cs in if p c then rest else c ∷ cs

unfoldable pub trim_end_matches : (ℕ → Bool) → Chars → Chars
trim_end_matches p [] = []
trim_end_matches p (c ∷ cs) =
    let rest = trim_end_matches p cs in if is_empty rest && p c then [] else c ∷ rest

unfoldable pub trim_start : Chars → Chars
trim_start cs = trim_start_matches is_whitespace cs

unfoldable pub trim_end : Chars → Chars
trim_end cs = trim_end_matches is_whitespace cs

unfoldable pub trim : Chars → Chars
trim cs = trim_end (trim_start cs)

unfoldable pub strip_prefix : Chars → Chars → Option Chars
strip_prefix [] cs = some cs
strip_prefix (p ∷ ps) [] = none
strip_prefix (p ∷ ps) (c ∷ cs) = let rest = strip_prefix ps cs in if p == c then rest else none

-- `strip_suffix` by a single character.
unfoldable pub strip_suffix_char : ℕ → Chars → Option Chars
strip_suffix_char p [] = none
strip_suffix_char p (c ∷ []) = if c == p then some [] else none
strip_suffix_char p (c ∷ d ∷ cs) = elim (strip_suffix_char p (d ∷ cs)) [
  | none ↦ none
  | some rest ↦ some (c ∷ rest)
]

unfoldable pub to_ascii_lowercase : Chars → Chars
to_ascii_lowercase [] = []
to_ascii_lowercase (c ∷ cs) =
    (if leb b'A' c && leb c b'Z' then c + 32 else c) ∷ to_ascii_lowercase cs

-- `split_whitespace`, with the word that has been read so far.
unfoldable pub split_whitespace_from : Chars → Chars → List Chars
split_whitespace_from word [] = if is_empty word then [] else word ∷ []
split_whitespace_from word (c ∷ cs) =
    let next = split_whitespace_from [] cs in
    let more = split_whitespace_from (word ++ (c ∷ [])) cs in
    if is_whitespace c then (if is_empty word then next else word ∷ next) else more

unfoldable pub split_whitespace : Chars → List Chars
split_whitespace cs = split_whitespace_from [] cs

unfoldable pub is_digit : ℕ → Bool
is_digit c = leb b'0' c && leb c b'9'

unfoldable pub parse_digits : ℕ → Chars → Option ℕ
parse_digits acc [] = some acc
parse_digits acc (c ∷ cs) =
    let value = acc * 10 + (c - b'0') in
    let rest = parse_digits value cs in if is_digit c && leb value u64_max then rest else none

-- `str::parse::<u64>`: digits, perhaps after a plus sign, of a value that fits.
unfoldable pub parse_u64 : Chars → Option ℕ
parse_u64 [] = none
parse_u64 (c ∷ cs) =
    if c == b'+' then (if is_empty cs then none else parse_digits 0 cs) else parse_digits 0 (c ∷ cs)

-- The decimal digits of a number below 10 ^ fuel, before what follows.
unfoldable pub decimal_loop : ℕ → ℕ → Chars → Chars
decimal_loop zero n rest = rest
decimal_loop (suc fuel) n rest =
    let digits = (b'0' + n % 10) ∷ rest in
    let more = decimal_loop fuel (n / 10) digits in if n / 10 == 0 then digits else more

-- `format!("{n}")`: a `u64` has at most 20 digits.
unfoldable pub decimal : ℕ → Chars
decimal n = decimal_loop 20 n []

-- `text.strip_suffix(suffix)`.
unfoldable pub strip_suffix : Chars → Chars → Option Chars
strip_suffix suffix text =
    let n = length text - length suffix in
    if leb (length suffix) (length text) && chars_eq (drop n text) suffix
    then some (take n text)
    else none
