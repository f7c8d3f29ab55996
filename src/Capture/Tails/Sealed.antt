-- ===== src/Capture/Tails/Sealed.antt =====
-- What `OutputUtf8Tails::drain` (src/output_capture.rs) hands on when everything is sealed.
use mathlib.Core.Path.{subst}
use mcp_repl.Prelude.{
  ℕ, zero, suc, ◌/◌, ◌%◌, ◌≤◌, ◌<◌, ◌==◌, ◌≡◌, refl, ap, inl, inr, get_or, List, [], ◌∷◌, ◌++◌,
  length, length-drop, take, drop, take-append-drop, get_elem?, map, All, arith, u64_max,
  Bool-cases,
}
use mcp_repl.Capture.Types.{Bytes, codes}
use mcp_repl.Capture.Utf8.Decode.{flushable_prefix_len}
use mcp_repl.Capture.Utf8.Stream.{complete_len}
use mcp_repl.Capture.Utf8.Agree.{flushable_prefix_len-eq-complete_len}
use mcp_repl.Capture.Tails.Queue.{
  OutputPendingEntry, text, event, Entries, hex_digit, escape_bytes, escape_incomplete_utf8_tail,
  materialize, seal_entry, drain_ready, drain,
}
use mcp_repl.Capture.Tails.Conserve.{Item, occurred, tagged, output}

abbrev hex_digits : Bytes
hex_digits = codes "0123456789ABCDEF"

abbrev digit : ℕ → ℕ
digit d = get_or (get_elem? hex_digits d) 0

-- A backslash, an x and two hexadecimal digits for each byte.
unfoldable pub escaped : Bytes → Bytes
escaped [] = []
escaped (b ∷ bs) = codes "\\x" ++ (digit (b / 16) ∷ digit (b % 16) ∷ escaped bs)

-- The characters and invalid sequences that are complete, as they are, and the rest escaped.
unfoldable pub sealed_text : Bytes → Bytes
sealed_text bs = take (complete_len bs) bs ++ escaped (drop (complete_len bs) bs)

-- Everything that waits, as it is shown in the end.
unfoldable pub shown_sealed : Entries → List Item
shown_sealed [] = []
shown_sealed (text t ∷ es) = tagged t.key (sealed_text t.bytes) ++ shown_sealed es
shown_sealed (event kind ∷ es) = occurred kind ∷ shown_sealed es

abbrev IsByte : ℕ → Type 0
IsByte b = b < 256

abbrev pub IsText : OutputPendingEntry → Type 0
IsText (text t) = (length t.bytes ≤ u64_max) × All IsByte t.bytes
IsText (event kind) = Unit

abbrev Below : ℕ → (ℕ → Type 0) → Type 0
Below zero P = Unit
Below (suc n) P = P n × Below n P

at_below : (P : ℕ → Type 0) (n d : ℕ) → Below n P → d < n → P d
at_below P zero d b h = absurd (omega arith)
at_below P (suc n) d b h = elim (Bool-cases (d == n)) [
  | inl e ↦ subst P (ground (arith, e)) b.0
  | inr e ↦ at_below P n d b.1 (ground (arith, e))
]

hex_digit_lem : (d : ℕ) → d < 16 → hex_digit d ≡ digit d
hex_digit_lem d h = at_below (λ k. hex_digit k ≡ digit k) 16 d (ground arith) h

escape_bytes_lem : (bs : Bytes) → All IsByte bs → escape_bytes bs ≡ escaped bs
unfolding escape_bytes escaped
escape_bytes_lem [] h = refl
escape_bytes_lem (b ∷ bs) h =
    rw
      (
        hex_digit_lem (b / 16) (omega (arith, h.0)),
        hex_digit_lem (b % 16) (omega arith),
        escape_bytes_lem bs h.1,
      )
      refl

IsByte-drop : (n : ℕ) (bs : Bytes) → All IsByte bs → All IsByte (drop n bs)
IsByte-drop zero bs h = h
IsByte-drop (suc n) [] h = h
IsByte-drop (suc n) (b ∷ bs) h = IsByte-drop n bs h.1

escape_nothing : (bs rest : Bytes) → length rest ≡ 0 → bs ++ rest ≡ bs ++ escape_bytes rest
unfolding escape_bytes
escape_nothing bs [] e = refl
escape_nothing bs (b ∷ rest) e = absurd (omega (arith, e))

escape_incomplete_utf8_tail_lem :
    (bs : Bytes)
    → length bs ≤ u64_max
    → All IsByte bs
    → escape_incomplete_utf8_tail bs ≡ sealed_text bs
unfolding escape_incomplete_utf8_tail sealed_text
escape_incomplete_utf8_tail_lem bs u h =
    let n = flushable_prefix_len bs in
    let rest = drop n bs in
    let both : take n bs ++ escape_bytes rest ≡ take n bs ++ escaped rest =
      ap (λ t. take n bs ++ t) (escape_bytes_lem rest (IsByte-drop n bs h)) in
    let same : take n bs ++ escaped rest ≡ sealed_text bs =
      ap (λ k. take k bs ++ escaped (drop k bs)) (flushable_prefix_len-eq-complete_len bs u) in
    ground
      (arith, both, same, take-append-drop n bs, escape_nothing (take n bs) rest, length-drop n bs)

drain_ready-shown :
    (es : Entries) → All IsText es → output (drain_ready (map seal_entry es)).0 ≡ shown_sealed es
unfolding drain_ready materialize shown_sealed
drain_ready-shown [] h = refl
drain_ready-shown (event kind ∷ es) h = ap (λ t. occurred kind ∷ t) (drain_ready-shown es h.1)
drain_ready-shown (text t ∷ es) h =
    rw (escape_incomplete_utf8_tail_lem t.bytes h.0.0 h.0.1, drain_ready-shown es h.1) refl

pub drain_empty : (es : Entries) → (drain es).1 ≡ []
unfolding drain drain_ready
drain_empty [] = refl
drain_empty (event kind ∷ es) = drain_empty es
drain_empty (text t ∷ es) = drain_empty es

-- Where each text that waits is of at most u64_max bytes, each below 256: drain leaves nothing, and
-- hands on every entry in order. Of a text that is its complete characters and invalid sequences as
-- they are, which a decoder that goes from character to character counts, and then a backslash, an
-- x and two upper-case hexadecimal digits for each byte of the incomplete end.
pub drain-shown :
    (es : Entries) → All IsText es → ((drain es).1 ≡ []) × (output (drain es).0 ≡ shown_sealed es)
unfolding drain
drain-shown es h = (drain_empty es, drain_ready-shown es h)
