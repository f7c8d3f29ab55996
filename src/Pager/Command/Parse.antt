-- ===== src/Pager/Command/Parse.antt =====
-- `PagerCommand::parse` of src/pager/command.rs.
use mcp_repl.Prelude.{
  ℕ, ◌==◌, max, Bool, true, false, Option, none, some, if◌then◌else◌, List, [], ◌∷◌, ◌++◌, ◌>>=◌,
  get_or, length, drop, is_empty, Chars, codes, chars_eq, trim, trim_start, strip_prefix,
  split_whitespace, parse_u64,
}
use mcp_repl.Pager.Command.Types.{
  SearchPattern, PagerCommand, TailSpec, next, skip, all, range, tail, search, where_is, matches,
  hits, search_next, search_prev, goto, seek, help, quit,
}
use mcp_repl.Pager.Command.Tokens.{
  strip_trailing_newlines, consume_one_whitespace, strip_word_prefix,
}
use mcp_repl.Pager.Command.Args.{
  parse_match_spec, parse_hit_spec, parse_range_spec, parse_tail_spec, parse_seek_spec,
}

abbrev pub pattern_of : Chars → Bool → SearchPattern
pattern_of pattern insensitive = record { pattern = pattern; case_insensitive_ascii = insensitive }

-- A pattern, unless it is empty.
abbrev pub nonempty_pattern : (SearchPattern → PagerCommand) → Bool → Chars → Option PagerCommand
nonempty_pattern make insensitive pattern =
    if is_empty pattern then none else some (make (pattern_of pattern insensitive))

-- By what was found after the one flag and after the other.
unfoldable pub pattern_by :
    (SearchPattern → PagerCommand) → Option Chars → Option Chars → Chars → Option PagerCommand
pattern_by make (some after) other rest =
    consume_one_whitespace after >>= nonempty_pattern make true
pattern_by make none (some after) rest = consume_one_whitespace after >>= nonempty_pattern make true
pattern_by make none none rest = nonempty_pattern make false rest

-- A pattern after one of two flags and a whitespace, or the whole as it is.
unfoldable pub flagged_pattern :
    (SearchPattern → PagerCommand) → Chars → Chars → Chars → Option PagerCommand
unfolding pattern_by
flagged_pattern make flag other rest =
    pattern_by make (strip_word_prefix rest flag) (strip_word_prefix rest other) rest

unfoldable pub parse_search : Chars → Option PagerCommand
parse_search pattern =
    if is_empty pattern then none else flagged_pattern search (codes "i") (codes "I") pattern

unfoldable pub parse_where : Chars → Option PagerCommand
parse_where rest =
    consume_one_whitespace rest >>= flagged_pattern where_is (codes "-i") (codes "--ignore-case")

-- `parts.next().and_then(|part| part.parse::<u64>().ok()).unwrap_or(1).max(1)`.
unfoldable pub count_arg : List Chars → ℕ
count_arg [] = max 1 1
count_arg (part ∷ parts) = max (get_or (parse_u64 part) 1) 1

unfoldable pub tail_arg : List Chars → TailSpec
tail_arg [] = TailSpec.default
tail_arg (part ∷ parts) = get_or (parse_tail_spec part) TailSpec.default

unfoldable pub parse_goto : List Chars → Option PagerCommand
parse_goto [] = none
parse_goto (part ∷ parts) =
    parse_u64 part >>= λ index. if index == 0 then none else some (goto index)

-- `parts.collect::<Vec<_>>().join(" ")`.
unfoldable pub join_words : List Chars → Chars
join_words [] = []
join_words (w ∷ []) = w
join_words (w ∷ v ∷ ws) = w ++ b' ' ∷ join_words (v ∷ ws)

-- The `match` on the first word; `rest` is the text after it and `parts` its words.
unfoldable pub dispatch : Chars → Chars → List Chars → Option PagerCommand
dispatch head rest parts =
    if chars_eq head (codes "next")
    then some (next (count_arg parts))
    else if chars_eq head (codes "skip")
    then some (skip (count_arg parts))
    else if chars_eq head (codes "where")
    then parse_where rest
    else if chars_eq head (codes "matches")
    then (parse_match_spec rest >>= λ spec. some (matches spec))
    else if chars_eq head (codes "hits")
    then (parse_hit_spec rest >>= λ spec. some (hits spec))
    else if chars_eq head (codes "a")
    then some all
    else if chars_eq head (codes "range")
    then (parse_range_spec rest >>= λ r. some (range r.0 r.1))
    else if chars_eq head (codes "tail")
    then some (tail (tail_arg parts))
    else if chars_eq head (codes "seek")
    then (parse_seek_spec (join_words parts) >>= λ spec. some (seek spec))
    else if chars_eq head (codes "goto")
    then parse_goto parts
    else if chars_eq head (codes "q")
    then some quit
    else if chars_eq head (codes "n")
    then some (search_next (count_arg parts))
    else if chars_eq head (codes "p")
    then some (search_prev (count_arg parts))
    else none

abbrev pub dispatch_words : Chars → List Chars → Option PagerCommand
dispatch_words leading [] = dispatch [] leading []
dispatch_words leading (head ∷ parts) = dispatch head (drop (length head) leading) parts

-- What follows the colon.
unfoldable pub parse_after_colon : Chars → Option PagerCommand
parse_after_colon rest =
    let leading = trim_start rest in
    let other : Option PagerCommand = elim (strip_prefix (codes "/") leading) [
      | some pattern ↦ parse_search pattern
      | none ↦ dispatch_words leading (split_whitespace leading)
    ] in
    if is_empty leading then none else if chars_eq leading (codes "help") then some help else other

unfoldable pub parse : Chars → Option PagerCommand
parse input =
    let trimmed = trim (strip_trailing_newlines input) in
    if is_empty trimmed
    then some (next 1)
    else strip_prefix (codes ":") trimmed >>= parse_after_colon
