-- ===== src/Capture/Ring/ReadBack.antt =====
-- What `read_range` of src/output_capture.rs returns: the text between two offsets.
use mcp_repl.Prelude.{
  ℕ, ◌+◌, ◌-◌, ◌≤◌, ◌<◌, ◌≡◌, refl, sym, ◌∙◌, ap, ap₂, true, List, [], ◌∷◌, ◌++◌, append-nil,
  length, min, max, drop, take, arith, saturating_add, length-drop, drop-append_le, drop-nil,
  take-nil, drop-append_ge, drop-drop, drop-take, take-take, take-append_le, take-append_ge,
  take-length, u64_max,
}
use native.Mathlib.Decide.{dec_le, dec_lt}
use mcp_repl.Capture.Types.{Bytes, OutputChunk, chunk_len, chunk_bytes}
use mcp_repl.Capture.Ring.State.{OutputRingInner}
use mcp_repl.Capture.Ring.Read.{
  slice_of, slice_bytes, collect_slices, collect_range, assemble_bytes, read_range,
}
use mcp_repl.Capture.Ring.Invariant.{retained, IsChunk, IsChain, IsChain-le, IsSound}
use mcp_repl.Capture.Ring.Contents.{length-chunk_bytes}

-- The bytes `s..e` of a chunk's part of its buffer.
slice_bytes_lem :
    (c : OutputChunk) (s e : ℕ)
    → IsChunk c
    → s ≤ e
    → e ≤ chunk_len c
    → slice_bytes (slice_of c (saturating_add c.range_start s) (saturating_add c.range_start e))
      ≡ take (e - s) (drop s (chunk_bytes c))
slice_bytes_lem c s e k le h =
    let b = drop c.range_start c.bytes in
    let start : saturating_add c.range_start s ≡ c.range_start + s = omega arith in
    let size : saturating_add c.range_start e - saturating_add c.range_start s ≡ e - s =
      omega arith in
    ap₂ (λ n t. take n t) size
      (ap (λ n. drop n c.bytes) start ∙ sym (drop-drop s c.range_start c.bytes))
    ∙ (sym (take-take (e - s) (chunk_len c - s) (drop s b) (omega arith))
        ∙ ap (λ t. take (e - s) t) (sym (drop-take s (chunk_len c) b)))

abbrev window : ℕ → ℕ → ℕ → List OutputChunk → Bytes
window from to lo cs = take (to - max from lo) (drop (from - lo) (retained cs))

-- A chunk and what follows it, cut to `from..to`.
window-cons :
    (from to : ℕ) (c : OutputChunk) (cs : List OutputChunk)
    → IsChunk c
    → from < c.start_offset + chunk_len c
    → c.start_offset < to
    → let s = from - c.start_offset in
      let e = min (to - c.start_offset) (chunk_len c) in
      take (e - s) (drop s (chunk_bytes c)) ++ window from to (c.start_offset + chunk_len c) cs
      ≡ window from to c.start_offset (c ∷ cs)
window-cons from to c cs k f t =
    let s = from - c.start_offset in
    let b = drop s (chunk_bytes c) in
    let len = length-chunk_bytes c k in
    let lb = length-drop s (chunk_bytes c) in
    let after = to - max from (c.start_offset + chunk_len c) in
    let whole : drop s (chunk_bytes c ++ retained cs) ≡ b ++ retained cs =
      drop-append_le s (chunk_bytes c) (retained cs) (omega (arith, len)) in
    let n = to - max from c.start_offset in
    let j = from - (c.start_offset + chunk_len c) in
    let e = min (to - c.start_offset) (chunk_len c) in
    elim (dec_le to (c.start_offset + chunk_len c)) [
      | yes p ↦
          let en : e - s ≡ n = omega arith in
          let none_after : after ≡ 0 = omega arith in
          ap₂ (λ m i. take m b ++ take i (drop j (retained cs))) en none_after
          ∙ (append-nil (take n b)
              ∙ (sym (take-append_le n b (retained cs) (omega (arith, len, lb)))
                  ∙ ap (λ t. take n t) (sym whole)))
      | no p ↦
          let all : e - s ≡ length b = omega (arith, len, lb) in
          let none_before : j ≡ 0 = omega arith in
          let rest : after ≡ n - length b = omega (arith, len, lb) in
          ap₂ (λ m i. take m b ++ take after (drop i (retained cs))) all none_before
          ∙ (ap₂ (λ x i. x ++ take i (retained cs)) (take-length (length b) b (omega arith)) rest
              ∙ (sym (take-append_ge n b (retained cs) (omega (arith, len, lb)))
                  ∙ ap (λ t. take n t) (sym whole)))
    ]

collect_slices-bytes :
    (from to lo hi : ℕ) (cs : List OutputChunk)
    → IsChain true lo cs hi
    → hi ≤ u64_max
    → from < to
    → assemble_bytes (collect_slices from to cs) ≡ window from to lo cs
unfolding collect_slices assemble_bytes
collect_slices-bytes from to lo hi [] n u h =
    sym (ap (λ t. take (to - max from lo) t) (drop-nil (from - lo)) ∙ take-nil (to - max from lo))
collect_slices-bytes from to lo hi (c ∷ cs) n u h =
    let mid = c.start_offset + chunk_len c in
    let s = from - c.start_offset in
    let e = min (to - c.start_offset) (chunk_len c) in
    ground (
      arith,
      n,
      IsChain-le true mid hi cs n.2,
      length-chunk_bytes c n.1,
      collect_slices-bytes from to mid hi cs,
      slice_bytes_lem c s e,
      window-cons from to c cs,
      drop-append_ge s (chunk_bytes c) (retained cs),
    )

nothing_assembled : assemble_bytes [] ≡ []
unfolding assemble_bytes
nothing_assembled = refl

-- In a sound ring without gaps read_range returns the bytes of its text between the two offsets, as
-- far as they lie between the start and the end of the ring, and says so.
pub read_range-bytes :
    (start_offset end_offset : ℕ) (g : OutputRingInner)
    → IsSound true g
    → let r = read_range start_offset end_offset g in
      let from = max start_offset g.start_offset in
      let to = min end_offset g.end_offset in
      (r.start_offset ≡ from)
      × (r.end_offset ≡ to)
      × (r.bytes ≡ take (to - from) (drop (from - g.start_offset) (retained g.chunks)))
unfolding read_range collect_range
read_range-bytes start_offset end_offset g s =
    let from = max start_offset g.start_offset in
    let to = min end_offset g.end_offset in
    (
      refl,
      refl,
      elim (dec_lt from to) [
        | yes p ↦
            ground
              (arith, collect_slices-bytes from to g.start_offset g.end_offset g.chunks s.chain)
        | no p ↦
            let empty : to - from ≡ 0 = omega arith in
            ground (
              arith,
              nothing_assembled,
              ap (λ n. take n (drop (from - g.start_offset) (retained g.chunks))) empty,
            )
      ],
    )
