-- ===== src/Pager/Command/Tokens.antt =====
-- The tokens of a pager command (src/pager/command.rs). A `&str` is the list of its code points.
use mcp_repl.Prelude.{
  ℕ, ◌==◌, Bool, true, ◌||◌, Option, none, some, if◌then◌else◌, [], ◌∷◌, ◌>>=◌, get_or, is_empty,
  Chars, codes, chars_eq, is_whitespace, is_ascii_whitespace, trim, trim_start, strip_prefix,
  strip_suffix_char, to_ascii_lowercase, parse_u64,
}
use mcp_repl.Pager.Command.Types.{max_match_limit}

unfoldable pub strip_trailing_newlines : Chars → Chars
strip_trailing_newlines raw =
    let raw' = get_or (strip_suffix_char b'\n' raw) raw in
    get_or (strip_suffix_char b'\r' raw') raw'

unfoldable pub consume_one_whitespace : Chars → Option Chars
consume_one_whitespace [] = none
consume_one_whitespace (first ∷ rest) = if is_whitespace first then some rest else none

-- The first byte of a character of several bytes is no ASCII whitespace.
abbrev ends_word : Chars → Bool
ends_word [] = true
ends_word (b ∷ bs) = is_ascii_whitespace b

unfoldable pub strip_word_prefix : Chars → Chars → Option Chars
strip_word_prefix raw word =
    strip_prefix word raw >>= λ rest. if ends_word rest then some rest else none

-- The characters before the first whitespace, and the rest.
unfoldable pub split_at_whitespace : Chars → Chars × Chars
split_at_whitespace [] = ([], [])
split_at_whitespace (c ∷ cs) =
    let more = split_at_whitespace cs in
    if is_whitespace c then ([], c ∷ cs) else (c ∷ more.0, more.1)

unfoldable pub split_first_token : Chars → Option (Chars × Chars)
split_first_token raw =
    let trimmed = trim_start raw in
    if is_empty trimmed then none else some (split_at_whitespace trimmed)

unfoldable pub parse_number_token : Chars → Option ℕ
parse_number_token raw =
    let trimmed = trim raw in if is_empty trimmed then none else parse_u64 trimmed

unfoldable pub parse_limit_token : Chars → Option ℕ
parse_limit_token raw =
    let trimmed = trim raw in
    let lowercase = to_ascii_lowercase trimmed in
    let parsed = parse_u64 trimmed >>= λ n. some (if n == 0 then max_match_limit else n) in
    if is_empty trimmed
    then none
    else if chars_eq lowercase (codes "all") || chars_eq lowercase (codes "max")
    then some max_match_limit
    else parsed
