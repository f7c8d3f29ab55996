-- ===== src/Capture/Utf8/Agree.antt =====
-- `flushable_prefix_len` of src/output_capture.rs, which calls the validator again after each error,
-- agrees with one scan.
use mcp_repl.Prelude.{
  ℕ, zero, suc, ◌+◌, ◌-◌, ◌≤◌, ◌<◌, ◌≡◌, refl, ◌∙◌, ap, none, some, [], ◌∷◌, ◌++◌, length,
  length-drop, length-append, drop, drop-drop, saturating_add, u64_max, arith,
}
use mcp_repl.Capture.Types.{Bytes}
use mcp_repl.Capture.Utf8.Decode.{
  Char1, valid, invalid, incomplete, first_char, Validation, ok, utf8_error, validate, from_utf8,
  flushable_loop, flushable_prefix_len,
}
use mcp_repl.Capture.Utf8.Stream.{
  complete_len-held, taken, taken_bounds, complete_len, complete_len-taken, complete_len-none,
  complete_len-nil, complete_len-le, complete_len-append,
}

-- What the validator's answer, with `n` bytes before, says of the scan.
abbrev Agrees : ℕ → Bytes → Validation → Type 0
Agrees n bs ok = complete_len bs ≡ length bs
Agrees n bs (utf8_error v none) = v ≡ n + complete_len bs
Agrees n bs (utf8_error v (some k)) =
    (n ≤ v)
    × (0 < k)
    × (v + k ≤ n + length bs)
    × (n + complete_len bs ≡ v + k + complete_len (drop (v + k - n) bs))

Agrees-taken :
    (n b : ℕ) (bs : Bytes) (k : ℕ) (v : Validation)
    → taken (first_char b bs) ≡ some k
    → Agrees (n + k) (drop k (b ∷ bs)) v
    → Agrees n (b ∷ bs) v
Agrees-taken n b bs k ok e a =
    omega (arith, a, complete_len-taken b bs e, length-drop k (b ∷ bs), taken_bounds b bs e)
Agrees-taken n b bs k (utf8_error v none) e a = omega (arith, a, complete_len-taken b bs e)
Agrees-taken n b bs k (utf8_error v (some j)) e a =
    let bounds = taken_bounds b bs e in
    let len = length-drop k (b ∷ bs) in
    let cut : drop (v + j - (n + k)) (drop k (b ∷ bs)) ≡ drop (v + j - n) (b ∷ bs) =
      drop-drop (v + j - (n + k)) k (b ∷ bs)
      ∙ ap (λ m. drop m (b ∷ bs)) {x = k + (v + j - (n + k))} (omega arith) in
    (
      omega arith,
      a.1,
      omega arith,
      omega (arith, a.3, complete_len-taken b bs e, ap complete_len cut),
    )

validate-front :
    (fuel n b : ℕ) (bs : Bytes) {c : Char1}
    → first_char b bs ≡ c
    → validate (suc fuel) n (b ∷ bs) ≡ (elim c [
      | valid k ↦ validate fuel (n + k) (drop k (b ∷ bs))
      | invalid k ↦ utf8_error n (some k)
      | incomplete ↦ utf8_error n none
    ])
unfolding validate
validate-front fuel n b bs e = ground (arith, e)

validate_step :
    (fuel n b : ℕ) (bs : Bytes) (c : Char1)
    → first_char b bs ≡ c
    → ((k : ℕ)
        → taken (first_char b bs) ≡ some k
        → Agrees (n + k) (drop k (b ∷ bs)) (validate fuel (n + k) (drop k (b ∷ bs))))
    → Agrees n (b ∷ bs) (validate (suc fuel) n (b ∷ bs))
validate_step fuel n b bs (valid k) e ih = rw (validate-front fuel n b bs e) (
    Agrees-taken n b bs k (validate fuel (n + k) (drop k (b ∷ bs))) (ap taken e)
      (ih k (ap taken e)))
validate_step fuel n b bs (invalid k) e ih =
    let t = ap taken e in
    let bounds = taken_bounds b bs t in
    rw (validate-front fuel n b bs e) (
      omega arith,
      bounds.0,
      omega arith,
      omega (
        arith,
        complete_len-taken b bs t,
        ap (λ m. complete_len (drop m (b ∷ bs))) {x = n + k - n} {y = k} (omega arith),
      ),
    )
validate_step fuel n b bs incomplete e ih =
    rw (validate-front fuel n b bs e) (omega (arith, complete_len-none b bs (ap taken e)))

validate-Agrees : (fuel n : ℕ) (bs : Bytes) → length bs ≤ fuel → Agrees n bs (validate fuel n bs)
validate-Agrees zero n [] h = unfold validate in complete_len-nil
validate-Agrees (suc fuel) n [] h = unfold validate in complete_len-nil
validate-Agrees zero n (b ∷ bs) h = absurd (omega arith)
validate-Agrees (suc fuel) n (b ∷ bs) h = validate_step fuel n b bs (first_char b bs) refl (λ k e.
    validate-Agrees fuel (n + k) (drop k (b ∷ bs))
      (omega (arith, length-drop k (b ∷ bs), taken_bounds b bs e)))

from_utf8-Agrees : (bs : Bytes) → Agrees 0 bs (from_utf8 bs)
unfolding from_utf8
from_utf8-Agrees bs = validate-Agrees (length bs) 0 bs (omega arith)

flushable_loop-front :
    (fuel total offset b : ℕ) (bs : Bytes) {v : Validation}
    → from_utf8 (b ∷ bs) ≡ v
    → flushable_loop (suc fuel) total offset (b ∷ bs) ≡ (elim v [
      | ok ↦ total
      | utf8_error valid_up_to error_len ↦ elim error_len [
        | some k ↦
            flushable_loop fuel total
              (saturating_add offset (saturating_add valid_up_to k))
              (drop (saturating_add valid_up_to k) (b ∷ bs))
        | none ↦ saturating_add offset valid_up_to
      ]
    ])
unfolding flushable_loop
flushable_loop-front fuel total offset b bs e = ground (arith, e)

flushable_step :
    (fuel total offset b : ℕ) (bs : Bytes) (v : Validation)
    → from_utf8 (b ∷ bs) ≡ v
    → Agrees 0 (b ∷ bs) v
    → total ≡ offset + length (b ∷ bs)
    → total ≤ u64_max
    → length (b ∷ bs) ≤ suc fuel
    → ((o : ℕ) (rest : Bytes)
        → total ≡ o + length rest
        → length rest ≤ fuel
        → flushable_loop fuel total o rest ≡ o + complete_len rest)
    → flushable_loop (suc fuel) total offset (b ∷ bs) ≡ offset + complete_len (b ∷ bs)
flushable_step fuel total offset b bs ok e a t u f ih =
    rw (flushable_loop-front fuel total offset b bs e) (omega (arith, a))
flushable_step fuel total offset b bs (utf8_error v none) e a t u f ih =
    rw (flushable_loop-front fuel total offset b bs e) (omega (arith, a, complete_len-le (b ∷ bs)))
flushable_step fuel total offset b bs (utf8_error v (some k)) e a t u f ih =
    let vk : saturating_add v k ≡ v + k = omega arith in
    let len = length-drop (saturating_add v k) (b ∷ bs) in
    rw (flushable_loop-front fuel total offset b bs e) (
      ih (saturating_add offset (saturating_add v k)) (drop (saturating_add v k) (b ∷ bs))
        (omega (arith, len)) (omega (arith, len))
      ∙ omega (
        arith,
        a.3,
        ap (λ m. complete_len (drop m (b ∷ bs))) {x = v + k - 0} {y = saturating_add v k}
            (omega arith),
      ))

flushable_loop_lem :
    (fuel total offset : ℕ) (bs : Bytes)
    → total ≤ u64_max
    → total ≡ offset + length bs
    → length bs ≤ fuel
    → flushable_loop fuel total offset bs ≡ offset + complete_len bs
flushable_loop_lem zero total offset [] u t f =
    unfold flushable_loop in omega (arith, complete_len-nil)
flushable_loop_lem (suc fuel) total offset [] u t f =
    unfold flushable_loop in omega (arith, complete_len-nil)
flushable_loop_lem zero total offset (b ∷ bs) u t f = absurd (omega arith)
flushable_loop_lem (suc fuel) total offset (b ∷ bs) u t f =
    flushable_step fuel total offset b bs (from_utf8 (b ∷ bs)) refl (from_utf8-Agrees (b ∷ bs)) t u
      f (λ o rest t' f'. flushable_loop_lem fuel total o rest u t' f')

-- On at most u64::MAX bytes the flushable prefix is what a decoder that takes one character or one
-- invalid sequence at a time consumes before it needs more bytes.
pub flushable_prefix_len-eq-complete_len :
    (bytes : Bytes) → length bytes ≤ u64_max → flushable_prefix_len bytes ≡ complete_len bytes
unfolding flushable_prefix_len
flushable_prefix_len-eq-complete_len bytes u =
    flushable_loop_lem (length bytes) (length bytes) 0 bytes u (omega arith) (omega arith)
    ∙ omega arith

-- Text that comes in two pieces of at most u64::MAX bytes in all has the same flushable prefix,
-- whether it is scanned once or the first piece's flushable prefix is removed before the second
-- piece is added.
pub flushable_prefix_len-append :
    (bytes more : Bytes)
    → length (bytes ++ more) ≤ u64_max
    → flushable_prefix_len (bytes ++ more)
      ≡ flushable_prefix_len bytes
        + flushable_prefix_len (drop (flushable_prefix_len bytes) bytes ++ more)
flushable_prefix_len-append bytes more u =
    let la = length-append bytes more in
    let eq = flushable_prefix_len-eq-complete_len bytes (omega arith) in
    let tail = drop (flushable_prefix_len bytes) bytes ++ more in
    let lt = length-append (drop (flushable_prefix_len bytes) bytes) more in
    let ld = length-drop (flushable_prefix_len bytes) bytes in
    omega (
      arith,
      flushable_prefix_len-eq-complete_len (bytes ++ more) u,
      flushable_prefix_len-eq-complete_len tail (omega arith),
      complete_len-append bytes more,
      ap (λ n. complete_len (drop n bytes ++ more)) eq,
    )

-- On at most u64::MAX bytes the flushable prefix is no longer than the bytes and leaves at most
-- three of them.
pub flushable_prefix_len_bounds :
    (bytes : Bytes)
    → length bytes ≤ u64_max
    → (flushable_prefix_len bytes ≤ length bytes) × (length bytes < flushable_prefix_len bytes + 4)
flushable_prefix_len_bounds bytes u = omega (
  arith,
  flushable_prefix_len-eq-complete_len bytes u,
  complete_len-le bytes,
  complete_len-held bytes,
)
