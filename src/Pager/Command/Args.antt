-- ===== src/Pager/Command/Args.antt =====
-- The arguments of a pager command (src/pager/command.rs).
use mcp_repl.Prelude.{
  ℕ, zero, suc, ◌*◌, ◌==◌, min, max, Bool, true, false, not, ◌||◌, Option, none, some,
  if◌then◌else◌, List, [], ◌∷◌, ◌>>=◌, get_or, get_last?, length, is_empty, Chars, codes, chars_eq,
  is_whitespace, trim, trim_start, trim_start_matches, trim_end_matches, strip_prefix,
  strip_suffix_char, to_ascii_lowercase, split_whitespace, parse_u64, u64_max,
}
use mcp_repl.Pager.Command.Types.{
  TailSpec, SeekSpec, bytes, lines, offset, percent, line, SearchFlags, default_flags, SearchArgs,
  SearchCountFlag, MatchSpec, HitSpec, default_match_limit, max_match_limit, default_match_context,
  max_match_context,
}
use mcp_repl.Pager.Command.Tokens.{split_first_token, parse_number_token, parse_limit_token}

abbrev pub long_flag : SearchCountFlag → Chars
long_flag SearchCountFlag.limit = codes "--limit"
long_flag SearchCountFlag.count = codes "--count"

-- What a token that starts with a dash asks for.
pub data FlagToken : Type 0 where
  ignore_case : FlagToken
  n_next : FlagToken
  context_next : FlagToken
  n_inline : Chars → FlagToken
  context_inline : Chars → FlagToken
  unknown : FlagToken

-- The `match` on the token, with the long name of the count flag.
unfoldable pub flag_token : Chars → Chars → FlagToken
flag_token n_flag token =
    let inline : FlagToken = elim (strip_prefix (codes "-n") token) [
      | some value ↦ n_inline value
      | none ↦ elim (strip_prefix (codes "-C") token) [
        | some value ↦ context_inline value
        | none ↦ unknown
      ]
    ] in
    if chars_eq token (codes "-i") || chars_eq token (codes "--ignore-case")
    then ignore_case
    else if chars_eq token (codes "-n")
    then n_next
    else if chars_eq token (codes "-C") || chars_eq token (codes "--context")
    then context_next
    else if chars_eq token n_flag
    then n_next
    else inline

abbrev starts_with_dash : Chars → Bool
starts_with_dash [] = false
starts_with_dash (c ∷ cs) = c == b'-'

-- One flag and what follows it.
unfoldable pub apply_flag : FlagToken → SearchFlags → Chars → Option (SearchFlags × Chars)
apply_flag ignore_case flags next = some (record flags { case_insensitive_ascii = true }, next)
apply_flag n_next flags next =
    split_first_token next >>= λ v. some (record flags { n_value = some v.0 }, v.1)
apply_flag context_next flags next = split_first_token next >>= λ v.
    parse_number_token v.0 >>= λ parsed. some (record flags { context = some parsed }, v.1)
apply_flag (n_inline value) flags next = some (record flags { n_value = some value }, next)
apply_flag (context_inline value) flags next =
    parse_number_token value >>= λ parsed. some (record flags { context = some parsed }, next)
apply_flag unknown flags next = none

-- The loop returns, or goes on with other flags and another text.
pub data FlagStep : Type 0 where
  stop : Option (SearchFlags × Chars) → FlagStep
  more : SearchFlags → Chars → FlagStep

abbrev after_flag : Option (SearchFlags × Chars) → FlagStep
after_flag none = stop none
after_flag (some r) = more r.0 r.1

-- One round of the loop.
unfoldable pub flag_step : Chars → SearchFlags → Chars → FlagStep
flag_step n_flag flags rest = elim (split_first_token rest) [
  | none ↦ stop none
  | some t ↦
      if chars_eq t.0 (codes "--")
      then stop (some (flags, t.1))
      else if not (starts_with_dash t.0)
      then stop (some (flags, trim_start rest))
      else after_flag (apply_flag (flag_token n_flag t.0) flags t.1)
]

-- Each round takes a token, so the number of characters is enough fuel.
unfoldable pub search_flags_loop : ℕ → Chars → SearchFlags → Chars → Option (SearchFlags × Chars)
search_flags_loop zero n_flag flags rest = none
search_flags_loop (suc fuel) n_flag flags rest = elim (flag_step n_flag flags rest) [
  | stop r ↦ r
  | more flags' rest' ↦ search_flags_loop fuel n_flag flags' rest'
]

unfoldable pub parse_search_flags : Chars → SearchCountFlag → Option (SearchFlags × Chars)
parse_search_flags raw n_flag =
    search_flags_loop (suc (length raw)) (long_flag n_flag) default_flags (trim_start raw)

unfoldable pub match_context : SearchFlags → ℕ
match_context flags = min (get_or flags.context default_match_context) max_match_context

unfoldable pub parse_search_args : Chars → SearchCountFlag → Option SearchArgs
parse_search_args raw n_flag = parse_search_flags raw n_flag >>= λ r.
    let pattern = trim_start r.1 in
    if is_empty pattern
    then none
    else some (record {
      pattern = pattern;
      case_insensitive_ascii = r.0.case_insensitive_ascii;
      context = match_context r.0;
      n_value = r.0.n_value;
    })

-- `n.clamp(1, MAX_MATCH_LIMIT)`.
abbrev clamp_limit : ℕ → ℕ
clamp_limit n = min (max n 1) max_match_limit

abbrev limit_of : Option Chars → Option ℕ
limit_of none = some default_match_limit
limit_of (some value) = parse_limit_token value

abbrev count_of : Option Chars → Option ℕ
count_of none = some 1
count_of (some value) = parse_number_token value >>= λ n. some (max n 1)

unfoldable pub parse_match_spec : Chars → Option MatchSpec
parse_match_spec raw =
    let raw' = trim_start raw in
    let parsed = parse_search_flags raw' SearchCountFlag.limit >>= λ r.
    limit_of r.0.n_value >>= λ n. some (record {
      pattern =
          if is_empty (trim r.1)
          then none
          else some (record {
            pattern = trim_start r.1;
            case_insensitive_ascii = r.0.case_insensitive_ascii;
          });
      limit = clamp_limit n;
      context = match_context r.0;
    }) in
    if is_empty raw'
    then some
        (record { pattern = none; limit = default_match_limit; context = default_match_context })
    else parsed

unfoldable pub parse_hit_spec : Chars → Option HitSpec
parse_hit_spec raw = parse_search_args raw SearchCountFlag.count >>= λ args.
    count_of args.n_value >>= λ n. some (record {
      pattern = record {
        pattern = args.pattern;
        case_insensitive_ascii = args.case_insensitive_ascii;
      };
      context = args.context;
      count = clamp_limit n;
    })

-- `split_once('-')`.
unfoldable pub split_once_dash : Chars → Option (Chars × Chars)
split_once_dash [] = none
split_once_dash (c ∷ cs) =
    let more = split_once_dash cs >>= λ r. some (c ∷ r.0, r.1) in
    if c == b'-' then some ([], cs) else more

-- Both ends, if neither is zero.
unfoldable pub range_of : Chars → Chars → Option (ℕ × ℕ)
range_of left right = parse_u64 left >>= λ start.
    parse_u64 right >>= λ end. if (start == 0) || (end == 0) then none else some (start, end)

unfoldable pub range_parts : List Chars → Option (ℕ × ℕ)
range_parts [] = none
range_parts (first ∷ []) = split_once_dash first >>= λ r. range_of (trim r.0) (trim r.1)
range_parts (first ∷ second ∷ []) = range_of first second
range_parts (first ∷ second ∷ third ∷ rest) = none

unfoldable pub parse_range_spec : Chars → Option (ℕ × ℕ)
parse_range_spec raw =
    let trimmed = trim raw in
    if is_empty trimmed then none else range_parts (split_whitespace trimmed)

-- The number in front of a unit, and the unit; `unit` is the multiplier where there is none.
unfoldable pub split_unit : ℕ → Chars → Chars × ℕ
split_unit unit lowercase = elim (get_last? lowercase) [
  | none ↦ (lowercase, unit)
  | some c ↦
      if c == b'k'
      then (trim_end_matches (λ x. x == b'k') lowercase, 1024)
      else if c == b'm'
      then (trim_end_matches (λ x. x == b'm') lowercase, 1024 * 1024)
      else if c == b'b'
      then (trim_end_matches (λ x. x == b'b') lowercase, 1)
      else (lowercase, unit)
]

abbrev pub saturating_mul : ℕ → ℕ → ℕ
saturating_mul a b = min (a * b) u64_max

abbrev tail_bytes : Chars × ℕ → Option TailSpec
tail_bytes u = parse_u64 (trim u.0) >>= λ n. some (bytes (saturating_mul n u.1))

unfoldable pub parse_tail_spec : Chars → Option TailSpec
parse_tail_spec raw =
    let trimmed = trim raw in
    let lowercase = to_ascii_lowercase trimmed in
    let u = split_unit 0 lowercase in
    if is_empty trimmed then none else elim (strip_suffix_char b'l' lowercase) [
      | some value ↦ parse_u64 (trim value) >>= λ n. some (lines n)
      | none ↦ if u.1 == 0 then (parse_u64 lowercase >>= λ n. some (lines n)) else tail_bytes u
    ]

unfoldable pub parse_line_number : Chars → Option ℕ
parse_line_number raw =
    let value = trim (trim_start_matches (λ c. is_whitespace c || (c == b':')) raw) in
    let parsed = parse_u64 value >>= λ n. if n == 0 then none else some n in
    if is_empty value then none else parsed

abbrev seek_bytes : Chars × ℕ → Option SeekSpec
seek_bytes u = parse_u64 (trim u.0) >>= λ n. some (offset (saturating_mul n u.1))

unfoldable pub parse_seek_spec : Chars → Option SeekSpec
parse_seek_spec raw =
    let raw' = trim_start_matches (λ c. c == b'@') (trim raw) in
    let lowercase = to_ascii_lowercase raw' in
    let bytes = seek_bytes (split_unit 1 lowercase) in
    if is_empty raw' then none else elim (strip_prefix (codes "lines") lowercase) [
      | some rest ↦ parse_line_number rest >>= λ n. some (line n)
      | none ↦ elim (strip_prefix (codes "line") lowercase) [
        | some rest ↦ parse_line_number rest >>= λ n. some (line n)
        | none ↦ elim (strip_suffix_char b'%' lowercase) [
          | some value ↦ parse_u64 (trim value) >>= λ n. some (percent (min n 100))
          | none ↦ bytes
        ]
      ]
    ]
