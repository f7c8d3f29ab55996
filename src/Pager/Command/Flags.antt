-- ===== src/Pager/Command/Flags.antt =====
-- The loop over the flags of a search (`parse_search_flags` of src/pager/command.rs) ends by itself.
use mcp_repl.Prelude.{
  ℕ, zero, suc, ◌+◌, ◌≤◌, ◌<◌, ◌≡◌, refl, inl, inr, false, none, some, if◌then◌else◌, [], ◌∷◌,
  length, is_empty, Chars, trim_start, trim_start_matches, is_whitespace, arith, Option-cases,
  Option,
}
use mcp_repl.Pager.Command.Types.{SearchFlags, SearchCountFlag, default_flags}
use mcp_repl.Pager.Command.Tokens.{split_at_whitespace, split_first_token}
use mcp_repl.Pager.Command.Args.{
  FlagToken, ignore_case, n_next, context_next, n_inline, context_inline, unknown, long_flag,
  flag_token, apply_flag, FlagStep, stop, more, flag_step, search_flags_loop, parse_search_flags,
}

length-trim_start : (cs : Chars) → length (trim_start cs) ≤ length cs
unfolding trim_start trim_start_matches
length-trim_start [] = omega arith
length-trim_start (c ∷ cs) = ground (arith, length-trim_start cs)

length-split_at_whitespace :
    (cs : Chars) → length (split_at_whitespace cs).0 + length (split_at_whitespace cs).1 ≡ length cs
unfolding split_at_whitespace
length-split_at_whitespace [] = omega arith
length-split_at_whitespace (c ∷ cs) = ground (arith, length-split_at_whitespace cs)

split_at_whitespace_front :
    (c : ℕ) (cs : Chars)
    → is_whitespace c ≡ false
    → length (split_at_whitespace (c ∷ cs)).1 ≤ length cs
unfolding split_at_whitespace
split_at_whitespace_front c cs w = ground (arith, w, length-split_at_whitespace cs)

trim_start_front :
    (cs : Chars) {c : ℕ} {ds : Chars} → trim_start cs ≡ c ∷ ds → is_whitespace c ≡ false
unfolding trim_start trim_start_matches
trim_start_front [] e = ground (arith, e)
trim_start_front (x ∷ xs) {c} {ds} e = ground (arith, e, trim_start_front xs {c = c} {ds = ds})

split_shorter :
    (cs raw : Chars) {t : Chars × Chars}
    → trim_start raw ≡ cs
    → (if is_empty cs then none else some (split_at_whitespace cs)) ≡ some t
    → length t.1 < length raw
split_shorter [] raw q e = ground (arith, e)
split_shorter (c ∷ cs) raw q e = ground (
  arith,
  q,
  e,
  length-trim_start raw,
  trim_start_front raw {c = c} {ds = cs} q,
  split_at_whitespace_front c cs,
)

-- A token is taken from the text.
length-split_first_token :
    (raw : Chars) {t : Chars × Chars} → split_first_token raw ≡ some t → length t.1 < length raw
unfolding split_first_token
length-split_first_token raw {t} e = split_shorter (trim_start raw) raw {t = t} refl e

length-apply_flag :
    (k : FlagToken) (flags : SearchFlags) (next : Chars) {r : SearchFlags × Chars}
    → apply_flag k flags next ≡ some r
    → length r.1 ≤ length next
unfolding apply_flag
length-apply_flag ignore_case flags next e = ground (arith, e)
length-apply_flag n_next flags next e = elim (Option-cases (split_first_token next)) [
  | inl q ↦ ground (arith, e, q)
  | inr (t, q) ↦ ground (arith, e, q, length-split_first_token next {t = t} q)
]
length-apply_flag context_next flags next e = elim (Option-cases (split_first_token next)) [
  | inl q ↦ ground (arith, e, q)
  | inr (t, q) ↦ ground (arith, e, q, length-split_first_token next {t = t} q)
]
length-apply_flag (n_inline value) flags next e = ground (arith, e)
length-apply_flag (context_inline value) flags next e = ground (arith, e)
length-apply_flag unknown flags next e = ground (arith, e)

-- A round that goes on has less text before it.
abbrev IsShorter : Chars → FlagStep → Type 0
IsShorter rest (stop r) = Unit
IsShorter rest (more flags rest') = length rest' < length rest

flag_step-IsShorter :
    (n_flag : Chars) (flags : SearchFlags) (rest : Chars)
    → IsShorter rest (flag_step n_flag flags rest)
unfolding flag_step
flag_step-IsShorter n_flag flags rest = elim (Option-cases (split_first_token rest)) [
  | inl q ↦ ground (arith, q)
  | inr (t, q) ↦
      let short = length-split_first_token rest {t = t} q in
      elim (Option-cases (apply_flag (flag_token n_flag t.0) flags t.1)) [
        | inl e ↦ ground (arith, q, e)
        | inr (r, e) ↦
            ground
              (arith, q, e, short, length-apply_flag (flag_token n_flag t.0) flags t.1 {r = r} e)
      ]
]

-- The source's loop, round after round, comes to its end and returns. A loop that goes on for ever
-- has no such derivation.
pub data Ends (n_flag : Chars) : SearchFlags → Chars → Option (SearchFlags × Chars) → Type 0 where
  last :
      (flags : SearchFlags) (rest : Chars) (r : Option (SearchFlags × Chars))
      → flag_step n_flag flags rest ≡ stop r
      → Ends n_flag flags rest r
  round :
      (flags flags' : SearchFlags) (rest rest' : Chars) (r : Option (SearchFlags × Chars))
      → flag_step n_flag flags rest ≡ more flags' rest'
      → Ends n_flag flags' rest' r
      → Ends n_flag flags rest r

search_flags_loop-Ends :
    (fuel : ℕ) (n_flag : Chars) (flags : SearchFlags) (rest : Chars)
    → length rest < fuel
    → Ends n_flag flags rest (search_flags_loop fuel n_flag flags rest)
unfolding search_flags_loop
search_flags_loop-Ends zero n_flag flags rest h = absurd (omega arith)
search_flags_loop-Ends (suc fuel) n_flag flags rest h =
    elim (flag_step n_flag flags rest)
        as (λ s.
          flag_step n_flag flags rest ≡ s
          → IsShorter rest s
          → Ends n_flag flags rest (elim s as (λ _. Option (SearchFlags × Chars)) [
            | stop r ↦ r
            | more flags' rest' ↦ search_flags_loop fuel n_flag flags' rest'
          ])) [
            | stop r ↦ λ e k. last flags rest r e
            | more flags' rest' ↦ λ e k.
                round flags flags' rest rest' _ e
                  (search_flags_loop-Ends fuel n_flag flags' rest' (omega (arith, k)))
          ]
      refl (flag_step-IsShorter n_flag flags rest)

-- Whatever the text is, the loop over the flags comes to an end after finitely many rounds, and
-- what it returns is what parse_search_flags returns.
pub parse_search_flags-Ends :
    (raw : Chars) (n_flag : SearchCountFlag)
    → Ends (long_flag n_flag) default_flags (trim_start raw) (parse_search_flags raw n_flag)
unfolding parse_search_flags
parse_search_flags-Ends raw n_flag =
    search_flags_loop-Ends (suc (length raw)) (long_flag n_flag) default_flags (trim_start raw)
      (omega (arith, length-trim_start raw))
