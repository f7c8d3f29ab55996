-- ===== src/Pager/Command/Bounds.antt =====
-- The numbers in a command that the pager parses (src/pager/command.rs).
use mcp_repl.Prelude.{
  ◌==◌, ◌≤◌, ◌≡◌, refl, inl, inr, Bool, true, false, Option, none, some, List, [], ◌∷◌, ◌>>=◌,
  is_empty, drop, length, to_ascii_lowercase, trim_start_matches, Chars, codes, trim, trim_start,
  trim_end, trim_end_matches, strip_prefix, split_whitespace, u64_max, arith, Option-cases,
}
use mathlib.Core.Path.{subst}
use mcp_repl.Pager.Command.Types.{
  SearchPattern, PagerCommand, SeekSpec, TailSpec, bytes, SearchCountFlag, MatchSpec, HitSpec, next,
  skip, range, tail, search, where_is, matches, hits, search_next, search_prev, goto, seek, offset,
  percent, line, max_match_limit, max_match_context,
}
use mcp_repl.Pager.Command.Tokens.{
  strip_trailing_newlines, consume_one_whitespace, strip_word_prefix,
}
use mcp_repl.Pager.Command.Args.{
  split_once_dash, match_context, parse_search_flags, parse_tail_spec, parse_search_args,
  parse_match_spec, parse_hit_spec, range_of, range_parts, parse_range_spec, parse_seek_spec,
  parse_line_number,
}
use mcp_repl.Pager.Command.Parse.{
  flagged_pattern, pattern_by, pattern_of, nonempty_pattern, join_words, dispatch_words,
  parse_search, parse_where, count_arg, tail_arg, parse_goto, dispatch, parse_after_colon, parse,
}

-- A pattern is not empty.
abbrev IsNonempty : Chars → Type 0
IsNonempty cs = is_empty cs ≡ false

abbrev IsNonemptyIfAny : Option SearchPattern → Type 0
IsNonemptyIfAny none = Unit
IsNonemptyIfAny (some p) = IsNonempty p.pattern

abbrev pub IsMatchSpec : MatchSpec → Type 0
IsMatchSpec m =
    (1 ≤ m.limit)
    × (m.limit ≤ max_match_limit)
    × (m.context ≤ max_match_context)
    × IsNonemptyIfAny m.pattern

abbrev pub IsHitSpec : HitSpec → Type 0
IsHitSpec h =
    (1 ≤ h.count)
    × (h.count ≤ max_match_limit)
    × (h.context ≤ max_match_context)
    × IsNonempty h.pattern.pattern

-- A count of lines or bytes may be zero; a number of bytes is multiplied with its unit.
abbrev pub IsTailSpec : TailSpec → Type 0
IsTailSpec (bytes n) = n ≤ u64_max
IsTailSpec _ = Unit

abbrev pub IsSeekSpec : SeekSpec → Type 0
IsSeekSpec (offset n) = n ≤ u64_max
IsSeekSpec (percent n) = n ≤ 100
IsSeekSpec (line n) = 1 ≤ n

-- The bounds that each command's arguments keep.
abbrev pub IsBounded : PagerCommand → Type 0
IsBounded (next n) = 1 ≤ n
IsBounded (skip n) = 1 ≤ n
IsBounded (range start end) = (1 ≤ start) × (1 ≤ end)
IsBounded (search p) = IsNonempty p.pattern
IsBounded (where_is p) = IsNonempty p.pattern
IsBounded (matches m) = IsMatchSpec m
IsBounded (hits h) = IsHitSpec h
IsBounded (search_next n) = 1 ≤ n
IsBounded (search_prev n) = 1 ≤ n
IsBounded (goto n) = 1 ≤ n
IsBounded (seek s) = IsSeekSpec s
IsBounded (tail t) = IsTailSpec t
IsBounded _ = Unit {0}

-- What holds of every success.
abbrev OnSome {ℓ κ} : {A : Type ℓ} → (A → Type κ) → Option A → Type κ
OnSome P none = Unit
OnSome P (some a) = P a

trim_start-IsNonempty : (cs : Chars) → is_empty (trim cs) ≡ false → IsNonempty (trim_start cs)
unfolding trim trim_end trim_end_matches
trim_start-IsNonempty cs e =
    elim (trim_start cs) as (λ t. is_empty (trim_end t) ≡ false → IsNonempty t) [
      | [] ↦ λ h. h
      | c ∷ ds ↦ λ h. refl
    ]
      e

parse_match_spec-IsMatchSpec : (raw : Chars) → OnSome IsMatchSpec (parse_match_spec raw)
unfolding parse_match_spec match_context
parse_match_spec-IsMatchSpec raw =
    elim (Option-cases (parse_search_flags (trim_start raw) SearchCountFlag.limit)) [
      | inl q ↦ ground (arith, q)
      | inr (r, q) ↦ ground (arith, q, trim_start-IsNonempty r.1)
    ]

parse_hit_spec-IsHitSpec : (raw : Chars) → OnSome IsHitSpec (parse_hit_spec raw)
unfolding parse_hit_spec parse_search_args match_context
parse_hit_spec-IsHitSpec raw = ground arith

range_of_pos : (left right : Chars) → OnSome (λ r. (1 ≤ r.0) × (1 ≤ r.1)) (range_of left right)
unfolding range_of
range_of_pos left right = ground arith

range_parts_pos : (ps : List Chars) → OnSome (λ r. (1 ≤ r.0) × (1 ≤ r.1)) (range_parts ps)
unfolding range_parts
range_parts_pos [] = tt
range_parts_pos (a ∷ []) = elim (Option-cases (split_once_dash a)) [
  | inl q ↦ rw q tt
  | inr (r, q) ↦ rw q (range_of_pos (trim r.0) (trim r.1))
]
range_parts_pos (a ∷ b ∷ []) = range_of_pos a b
range_parts_pos (a ∷ b ∷ c ∷ ps) = tt

parse_range_spec_pos : (raw : Chars) → OnSome (λ r. (1 ≤ r.0) × (1 ≤ r.1)) (parse_range_spec raw)
unfolding parse_range_spec
parse_range_spec_pos raw = ground (arith, range_parts_pos (split_whitespace (trim raw)))

parse_tail_spec-IsTailSpec : (raw : Chars) → OnSome IsTailSpec (parse_tail_spec raw)
unfolding parse_tail_spec
parse_tail_spec-IsTailSpec raw = ground arith

tail_arg-IsTailSpec : (ps : List Chars) → IsTailSpec (tail_arg ps)
unfolding tail_arg
tail_arg-IsTailSpec [] = tt
tail_arg-IsTailSpec (p ∷ ps) = ground (arith, parse_tail_spec-IsTailSpec p)

parse_line_number_pos : (raw : Chars) → OnSome (λ n. 1 ≤ n) (parse_line_number raw)
unfolding parse_line_number
parse_line_number_pos raw = ground arith

line_spec-IsSeekSpec :
    (raw : Chars) → OnSome IsSeekSpec (parse_line_number raw >>= λ n. some (line n))
line_spec-IsSeekSpec raw = ground (arith, parse_line_number_pos raw)

parse_seek_spec-IsSeekSpec : (raw : Chars) → OnSome IsSeekSpec (parse_seek_spec raw)
unfolding parse_seek_spec
parse_seek_spec-IsSeekSpec raw =
    let lowercase = to_ascii_lowercase (trim_start_matches (λ c. c == b'@') (trim raw)) in
    elim (Option-cases (strip_prefix (codes "lines") lowercase)) [
      | inr (r, q) ↦ ground (arith, q, line_spec-IsSeekSpec r)
      | inl q ↦ elim (Option-cases (strip_prefix (codes "line") lowercase)) [
        | inr (r, k) ↦ ground (arith, q, k, line_spec-IsSeekSpec r)
        | inl k ↦ ground (arith, q, k)
      ]
    ]

count_arg_pos : (ps : List Chars) → 1 ≤ count_arg ps
unfolding count_arg
count_arg_pos [] = omega arith
count_arg_pos (p ∷ ps) = omega arith

parse_goto-IsBounded : (ps : List Chars) → OnSome IsBounded (parse_goto ps)
unfolding parse_goto
parse_goto-IsBounded [] = tt
parse_goto-IsBounded (p ∷ ps) = ground arith

module _ (make : SearchPattern → PagerCommand)
    (keep : (p : SearchPattern) → IsNonempty p.pattern → IsBounded (make p)) where
  nonempty_pattern-IsBounded :
      (insensitive : Bool) (cs : Chars) → OnSome IsBounded (nonempty_pattern make insensitive cs)
  nonempty_pattern-IsBounded insensitive [] = tt
  nonempty_pattern-IsBounded insensitive (c ∷ cs) = keep (pattern_of (c ∷ cs) insensitive) refl

  after_whitespace-IsBounded :
      (cs : Chars) → OnSome IsBounded (consume_one_whitespace cs >>= nonempty_pattern make true)
  after_whitespace-IsBounded cs = elim (Option-cases (consume_one_whitespace cs)) [
    | inl q ↦ rw q tt
    | inr (r, q) ↦ rw q (nonempty_pattern-IsBounded true r)
  ]

  pattern_by-IsBounded :
      (a b : Option Chars) (rest : Chars) → OnSome IsBounded (pattern_by make a b rest)
  unfolding pattern_by
  pattern_by-IsBounded (some after) b rest = after_whitespace-IsBounded after
  pattern_by-IsBounded none (some after) rest = after_whitespace-IsBounded after
  pattern_by-IsBounded none none rest = nonempty_pattern-IsBounded false rest

  flagged_pattern-IsBounded :
      (flag other rest : Chars) → OnSome IsBounded (flagged_pattern make flag other rest)
  unfolding flagged_pattern
  flagged_pattern-IsBounded flag other rest =
      pattern_by-IsBounded (strip_word_prefix rest flag) (strip_word_prefix rest other) rest

parse_search-IsBounded : (cs : Chars) → OnSome IsBounded (parse_search cs)
unfolding parse_search
parse_search-IsBounded cs =
    ground (arith, flagged_pattern-IsBounded search (λ p h. h) (codes "i") (codes "I") cs)

parse_where-IsBounded : (cs : Chars) → OnSome IsBounded (parse_where cs)
unfolding parse_where
parse_where-IsBounded cs = elim (Option-cases (consume_one_whitespace cs)) [
  | inl q ↦ rw q tt
  | inr (r, q) ↦
      rw q (flagged_pattern-IsBounded where_is (λ p h. h) (codes "-i") (codes "--ignore-case") r)
]

dispatch-IsBounded :
    (head rest : Chars) (parts : List Chars) → OnSome IsBounded (dispatch head rest parts)
unfolding dispatch
dispatch-IsBounded head rest parts = ground (
  arith,
  count_arg_pos parts,
  parse_where-IsBounded rest,
  parse_match_spec-IsMatchSpec rest,
  parse_hit_spec-IsHitSpec rest,
  tail_arg-IsTailSpec parts,
  parse_range_spec_pos rest,
  parse_seek_spec-IsSeekSpec (join_words parts),
  parse_goto-IsBounded parts,
)

dispatch_words-IsBounded :
    (leading : Chars) (ws : List Chars) → OnSome IsBounded (dispatch_words leading ws)
dispatch_words-IsBounded leading [] = dispatch-IsBounded [] leading []
dispatch_words-IsBounded leading (w ∷ ws) = dispatch-IsBounded w (drop (length w) leading) ws

parse_after_colon-IsBounded : (rest : Chars) → OnSome IsBounded (parse_after_colon rest)
unfolding parse_after_colon
parse_after_colon-IsBounded rest =
    let leading = trim_start rest in
    let words = dispatch_words-IsBounded leading (split_whitespace leading) in
    elim (Option-cases (strip_prefix (codes "/") leading)) [
      | inr (r, q) ↦ ground (arith, q, parse_search-IsBounded r)
      | inl q ↦ ground (arith, q, words)
    ]

parse-OnSome : (input : Chars) → OnSome IsBounded (parse input)
unfolding parse
parse-OnSome input =
    let trimmed = trim (strip_trailing_newlines input) in
    elim (Option-cases (strip_prefix (codes ":") trimmed)) [
      | inr (r, q) ↦ ground (arith, q, parse_after_colon-IsBounded r)
      | inl q ↦ ground (arith, q)
    ]

-- Whatever the input is, a command that parse yields keeps these bounds: a count of pages (next,
-- skip) or of results (search_next, search_prev), both ends of a range, an index to go to and a
-- line to seek are at least 1; a limit of matches and a count of hits are between 1 and 500, and
-- their contexts at most 5; a percentage is at most 100; an offset to seek and a number of bytes of
-- a tail are at most u64_max; and a search pattern, where there is one, is not empty. A tail may be
-- of 0 lines or bytes.
pub parse-IsBounded :
    (input : Chars) {command : PagerCommand} → parse input ≡ some command → IsBounded command
parse-IsBounded input e = subst (OnSome IsBounded) e (parse-OnSome input)
