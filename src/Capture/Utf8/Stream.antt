-- ===== src/Capture/Utf8/Stream.antt =====
-- `flushable_prefix_len` (src/output_capture.rs) against a scan character by character.
use mcp_repl.Prelude.{
  Option-cases, ℕ, zero, suc, ◌+◌, ◌≤◌, ◌<◌, ◌≡◌, refl, ap, inl, inr, Option, none, some, [], ◌∷◌,
  ◌++◌, length, length-drop, drop, drop-drop, drop-append_le, arith,
}
use mcp_repl.Capture.Types.{Bytes}
use mcp_repl.Capture.Utf8.Decode.{
  Char1, valid, invalid, incomplete, two_bytes, three_bytes, four_bytes, first_char,
}

-- How many bytes are decided at the front.
abbrev pub taken : Char1 → Option ℕ
taken (valid k) = some k
taken (invalid k) = some k
taken incomplete = none

-- How many bytes the whole characters and invalid sequences at the front take.
unfoldable pub complete_loop : ℕ → Bytes → ℕ
complete_loop zero bs = 0
complete_loop (suc fuel) [] = 0
complete_loop (suc fuel) (b ∷ bs) = elim (taken (first_char b bs)) [
  | some k ↦ k + complete_loop fuel (drop k (b ∷ bs))
  | none ↦ 0
]

unfoldable pub complete_len : Bytes → ℕ
complete_len bs = complete_loop (length bs) bs

-- A character or an invalid sequence is not empty, and lies within the bytes.
pub taken_bounds :
    (b : ℕ) (bs : Bytes) {k : ℕ}
    → taken (first_char b bs) ≡ some k
    → (0 < k) × (k ≤ suc (length bs))
unfolding first_char two_bytes three_bytes four_bytes
taken_bounds b [] e = ground arith
taken_bounds b (x ∷ []) e = ground arith
taken_bounds b (x ∷ y ∷ []) e = ground arith
taken_bounds b (x ∷ y ∷ z ∷ bs) e = ground arith

-- More bytes change nothing of a character or an invalid sequence.
pub taken-append :
    (b : ℕ) (bs ys : Bytes) {k : ℕ}
    → taken (first_char b bs) ≡ some k
    → taken (first_char b (bs ++ ys)) ≡ some k
unfolding first_char two_bytes three_bytes four_bytes
taken-append b [] ys e = ground arith
taken-append b (x ∷ []) [] e = ground arith
taken-append b (x ∷ []) (y ∷ ys) e = ground arith
taken-append b (x ∷ y ∷ []) [] e = ground arith
taken-append b (x ∷ y ∷ []) (z ∷ ys) e = ground arith
taken-append b (x ∷ y ∷ z ∷ bs) ys e = ground arith

-- What is incomplete has three bytes at most.
pub taken-none : (b : ℕ) (bs : Bytes) → taken (first_char b bs) ≡ none → length bs < 3
unfolding first_char two_bytes three_bytes four_bytes
taken-none b [] e = omega arith
taken-none b (x ∷ []) e = omega arith
taken-none b (x ∷ y ∷ []) e = omega arith
taken-none b (x ∷ y ∷ z ∷ bs) e = ground arith

complete_loop-fuel :
    (f g : ℕ) (bs : Bytes) → length bs ≤ f → length bs ≤ g → complete_loop f bs ≡ complete_loop g bs
unfolding complete_loop
complete_loop-fuel zero zero [] p q = refl
complete_loop-fuel zero (suc g) [] p q = refl
complete_loop-fuel (suc f) zero [] p q = refl
complete_loop-fuel (suc f) (suc g) [] p q = refl
complete_loop-fuel zero g (b ∷ bs) p q = absurd (omega arith)
complete_loop-fuel (suc f) zero (b ∷ bs) p q = absurd (omega arith)
complete_loop-fuel (suc f) (suc g) (b ∷ bs) p q = elim (Option-cases (taken (first_char b bs))) [
  | inl e ↦ ground (arith, e)
  | inr (k, e) ↦ ground (
    arith,
    e,
    taken_bounds b bs e,
    length-drop k (b ∷ bs),
    complete_loop-fuel f g (drop k (b ∷ bs)),
  )
]

pub complete_len-taken :
    (b : ℕ) (bs : Bytes) {k : ℕ}
    → taken (first_char b bs) ≡ some k
    → complete_len (b ∷ bs) ≡ k + complete_len (drop k (b ∷ bs))
unfolding complete_len complete_loop
complete_len-taken b bs {k} e = ground (
  arith,
  e,
  taken_bounds b bs e,
  length-drop k (b ∷ bs),
  complete_loop-fuel (length bs) (length (drop k (b ∷ bs))) (drop k (b ∷ bs)),
)

pub complete_len-none :
    (b : ℕ) (bs : Bytes) → taken (first_char b bs) ≡ none → complete_len (b ∷ bs) ≡ 0
unfolding complete_len complete_loop
complete_len-none b bs e = ground (arith, e)

pub complete_len-nil : complete_len [] ≡ 0
unfolding complete_len complete_loop
complete_len-nil = refl

-- Induction on the number of bytes.
complete_len-le_from : (n : ℕ) (bs : Bytes) → length bs ≤ n → complete_len bs ≤ length bs
complete_len-le_from n [] h = omega (arith, complete_len-nil)
complete_len-le_from zero (b ∷ bs) h = absurd (omega arith)
complete_len-le_from (suc n) (b ∷ bs) h = elim (Option-cases (taken (first_char b bs))) [
  | inl e ↦ omega (arith, complete_len-none b bs e)
  | inr (k, e) ↦ omega (
    arith,
    taken_bounds b bs e,
    complete_len-taken b bs e,
    length-drop k (b ∷ bs),
    complete_len-le_from n (drop k (b ∷ bs))
        (omega (arith, length-drop k (b ∷ bs), taken_bounds b bs e)),
  )
]

pub complete_len-le : (bs : Bytes) → complete_len bs ≤ length bs
complete_len-le bs = complete_len-le_from (length bs) bs (omega arith)

complete_len-append_from :
    (n : ℕ) (bs ys : Bytes)
    → length bs ≤ n
    → complete_len (bs ++ ys) ≡ complete_len bs + complete_len (drop (complete_len bs) bs ++ ys)
complete_len-append_from n [] ys h = rw complete_len-nil (omega arith)
complete_len-append_from zero (b ∷ bs) ys h = absurd (omega arith)
complete_len-append_from (suc n) (b ∷ bs) ys h = elim (Option-cases (taken (first_char b bs))) [
  | inl e ↦ rw (complete_len-none b bs e) (omega arith)
  | inr (k, e) ↦
      let bounds = taken_bounds b bs e in
      let rest = drop k (b ∷ bs) in
      let ih = complete_len-append_from n rest ys (omega (arith, length-drop k (b ∷ bs))) in
      let step = complete_len-taken b (bs ++ ys) (taken-append b bs ys e) in
      let cut = drop-append_le k (b ∷ bs) ys (omega arith) in
      ground (
        arith,
        step,
        ap complete_len cut,
        ih,
        complete_len-taken b bs e,
        drop-drop (complete_len rest) k (b ∷ bs),
      )
]

pub complete_len-append :
    (bs ys : Bytes)
    → complete_len (bs ++ ys) ≡ complete_len bs + complete_len (drop (complete_len bs) bs ++ ys)
complete_len-append bs ys = complete_len-append_from (length bs) bs ys (omega arith)

held_from : (n : ℕ) (bs : Bytes) → length bs ≤ n → length (drop (complete_len bs) bs) < 4
held_from n [] h = rw complete_len-nil (omega arith)
held_from zero (b ∷ bs) h = absurd (omega arith)
held_from (suc n) (b ∷ bs) h = elim (Option-cases (taken (first_char b bs))) [
  | inl e ↦ omega (arith, taken-none b bs e, length-drop (complete_len (b ∷ bs)) (b ∷ bs))
  | inr (k, e) ↦
      let rest = drop k (b ∷ bs) in
      omega (
        arith,
        taken_bounds b bs e,
        length-drop k (b ∷ bs),
        length-drop (complete_len rest) rest,
        length-drop (complete_len (b ∷ bs)) (b ∷ bs),
        complete_len-taken b bs e,
        held_from n rest (omega (arith, length-drop k (b ∷ bs), taken_bounds b bs e)),
      )
]

-- At most three bytes are held back.
pub complete_len-held : (bs : Bytes) → length bs < complete_len bs + 4
complete_len-held bs = omega (
  arith,
  held_from (length bs) bs (omega arith),
  length-drop (complete_len bs) bs,
  complete_len-le bs,
)
