-- ===== src/Pager/Command/Visible.antt =====
-- Which input the pager takes for a command (`PagerCommand::parse` of src/pager/command.rs).
use mcp_repl.Prelude.{
  ℕ, ◌==◌, ◌≡◌, refl, sym, ◌∙◌, inl, inr, true, false, Option, none, some, if◌then◌else◌, [], ◌∷◌,
  get_or, is_empty, Chars, codes, trim, trim_start, trim_end, trim_start_matches, trim_end_matches,
  is_whitespace, strip_prefix, strip_suffix_char, arith, Option-cases,
}
use mcp_repl.Pager.Command.Types.{next}
use mcp_repl.Pager.Command.Tokens.{strip_trailing_newlines}
use mcp_repl.Pager.Command.Parse.{parse}

-- The first character that is not whitespace.
unfoldable pub first_visible : Chars → Option ℕ
first_visible [] = none
first_visible (c ∷ cs) = let rest = first_visible cs in if is_whitespace c then rest else some c

abbrev head? : Chars → Option ℕ
head? [] = none
head? (c ∷ cs) = some c

head?-trim_start : (cs : Chars) → head? (trim_start cs) ≡ first_visible cs
unfolding trim_start trim_start_matches first_visible
head?-trim_start [] = refl
head?-trim_start (c ∷ cs) = ground (arith, head?-trim_start cs)

first_visible-trim_start : (cs : Chars) → first_visible (trim_start cs) ≡ first_visible cs
unfolding trim_start trim_start_matches first_visible
first_visible-trim_start [] = refl
first_visible-trim_start (c ∷ cs) = ground (arith, first_visible-trim_start cs)

first_visible_lem : (cs : Chars) {c : ℕ} → first_visible cs ≡ some c → is_whitespace c ≡ false
unfolding first_visible
first_visible_lem [] e = ground (arith, e)
first_visible_lem (x ∷ xs) {c} e = ground (arith, e, first_visible_lem xs {c = c})

head?-trim_end : (cs : Chars) → head? cs ≡ first_visible cs → head? (trim_end cs) ≡ first_visible cs
unfolding trim_end trim_end_matches first_visible
head?-trim_end [] e = refl
head?-trim_end (c ∷ cs) e = ground (arith, e, first_visible_lem cs {c = c})

head?-trim : (cs : Chars) → head? (trim cs) ≡ first_visible cs
unfolding trim
head?-trim cs =
    head?-trim_end (trim_start cs) (head?-trim_start cs ∙ sym (first_visible-trim_start cs))
    ∙ first_visible-trim_start cs

strip_suffix_char-first_visible :
    (p : ℕ) (cs : Chars) {rest : Chars}
    → is_whitespace p ≡ true
    → strip_suffix_char p cs ≡ some rest
    → first_visible rest ≡ first_visible cs
unfolding strip_suffix_char first_visible
strip_suffix_char-first_visible p [] w e = ground (arith, e)
strip_suffix_char-first_visible p (c ∷ []) w e = ground (arith, e, w)
strip_suffix_char-first_visible p (c ∷ d ∷ cs) w e =
    elim (Option-cases (strip_suffix_char p (d ∷ cs))) [
      | inl q ↦ ground (arith, e, q)
      | inr (r, q) ↦ ground (arith, e, q, strip_suffix_char-first_visible p (d ∷ cs) {rest = r} w q)
    ]

strip_one-first_visible :
    (p : ℕ) (cs : Chars)
    → is_whitespace p ≡ true
    → first_visible (get_or (strip_suffix_char p cs) cs) ≡ first_visible cs
strip_one-first_visible p cs w = elim (Option-cases (strip_suffix_char p cs)) [
  | inl q ↦ ground (arith, q)
  | inr (r, q) ↦ ground (arith, q, strip_suffix_char-first_visible p cs {rest = r} w q)
]

strip_trailing_newlines-first_visible :
    (raw : Chars) → first_visible (strip_trailing_newlines raw) ≡ first_visible raw
unfolding strip_trailing_newlines is_whitespace
strip_trailing_newlines-first_visible raw =
    strip_one-first_visible b'\r' (get_or (strip_suffix_char b'\n' raw) raw) refl
    ∙ strip_one-first_visible b'\n' raw refl

no_colon :
    (cs : Chars) {c : ℕ}
    → head? cs ≡ some c
    → (c == b':') ≡ false
    → (is_empty cs ≡ false) × (strip_prefix (codes ":") cs ≡ none)
unfolding strip_prefix
no_colon [] e n = ground (arith, e)
no_colon (x ∷ xs) e n = ground (arith, e, n)

blank : (cs : Chars) → head? cs ≡ none → is_empty cs ≡ true
blank [] e = refl
blank (x ∷ xs) e = ground (arith, e)

-- Input without a visible character is the command for one next page, and input whose first visible
-- character is not a colon is no command.
pub parse-first_visible :
    (input : Chars)
    → (first_visible input ≡ none → parse input ≡ some (next 1))
      × ((c : ℕ) → first_visible input ≡ some c → (c == b':') ≡ false → parse input ≡ none)
unfolding parse
parse-first_visible input =
    let trimmed = trim (strip_trailing_newlines input) in
    let h : head? trimmed ≡ first_visible input =
      head?-trim (strip_trailing_newlines input) ∙ strip_trailing_newlines-first_visible input in
    (
      λ e. ground (arith, blank trimmed (h ∙ e)),
      λ c e n. ground (arith, no_colon trimmed {c = c} (h ∙ e) n),
    )
