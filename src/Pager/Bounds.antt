-- ===== src/Pager/Bounds.antt =====
-- How far a page goes (src/pager/mod.rs).
use mcp_repl.Prelude.{
  ℕ, zero, suc, ◌+◌, ◌-◌, ◌*◌, ◌≤◌, ◌<◌, min, max, ◌≡◌, refl, ◌⊎◌, inl, inr, true, some, get_or,
  List, [], ◌∷◌, length, get_elem?, All, arith, saturating_add, u64_max, Option-cases,
}
use mcp_repl.Pager.Buffer.{PagerBuffer, PagerEvent, len}
use mcp_repl.Pager.Read.{
  is_image, lines_to, line_before, page_end_offset, image_offsets_loop, image_offsets_in_range,
}
use mcp_repl.Pager.Pages.{candidate_in, best_end_loop, page_end_offset_with_images}

line_before-le :
    (offset : ℕ) (ls : List ℕ) {l : ℕ} → line_before ls (lines_to offset ls) ≡ some l → l ≤ offset
unfolding line_before lines_to
line_before-le offset [] e = ground (arith, e)
line_before-le offset (x ∷ []) {l} e = ground (arith, e)
line_before-le offset (x ∷ y ∷ ls) {l} e = ground (arith, e, line_before-le offset (y ∷ ls) {l = l})

-- A page without images: it ends in the range, and past its start if there is a budget.
pub page_end_offset_bounds :
    (b : PagerBuffer) (start end target : ℕ)
    → len b ≤ u64_max
    → start < min end (len b)
    → let r = page_end_offset b start end target in
      (min (suc start) (start + target) ≤ r) × (r ≤ min end (len b)) × (r ≤ start + target)
unfolding page_end_offset
page_end_offset_bounds b start end target u h =
    let to = min end (len b) in
    let desired = min (saturating_add (min start to) target) to in
    elim (Option-cases (line_before b.line_ends (lines_to desired b.line_ends))) [
      | inl e ↦ ground (arith, u, h, e)
      | inr (l, e) ↦ ground (arith, u, h, e, line_before-le desired b.line_ends {l = l} e)
    ]

module _ (b : PagerBuffer) (start end target : ℕ) (u : len b ≤ u64_max) (h : start < end)
    (k : end ≤ len b) where
  candidate_in-le :
      (round segment_start segment_end : ℕ) {c : ℕ}
      → candidate_in b start end target round segment_start segment_end ≡ some c
      → (c ≤ end) × (c ≤ start + target)
  unfolding candidate_in
  candidate_in-le round segment_start segment_end {c} e =
      let budget_end = saturating_add start (target - min (round * 800) u64_max) in
      let candidate_end = min (min end budget_end) (segment_end - 1) in
      ground
        (arith, e, u, h, k, page_end_offset_bounds b start candidate_end (candidate_end - start) u)

  best-le :
      (round segment_start segment_end best_end : ℕ)
      → best_end ≤ end
      → best_end ≤ start + target
      → let m = get_or (candidate_in b start end target round segment_start segment_end) best_end in
        (m ≤ end) × (m ≤ start + target)
  best-le round segment_start segment_end best_end p q =
      elim (Option-cases (candidate_in b start end target round segment_start segment_end)) [
        | inl e ↦ ground (arith, e)
        | inr (c, e) ↦ ground (arith, e, candidate_in-le round segment_start segment_end {c = c} e)
      ]

  pub best_end_loop-le :
      (rounds round segment_start : ℕ) (images : List ℕ) (best_end : ℕ)
      → best_end ≤ end
      → best_end ≤ start + target
      → let r = best_end_loop b start end target rounds round segment_start images best_end in
        (best_end ≤ r) × (r ≤ end) × (r ≤ start + target)
  unfolding best_end_loop
  best_end_loop-le zero round segment_start images best_end p q = ground arith
  best_end_loop-le (suc rounds) round segment_start [] best_end p q =
      omega (arith, best-le round segment_start (saturating_add end 1) best_end p q)
  best_end_loop-le (suc rounds) round segment_start (i ∷ is) best_end p q =
      let m = get_or (candidate_in b start end target round segment_start i) best_end in
      let c = best-le round segment_start i best_end p q in
      let l =
        best_end_loop-le rounds (suc round) i is (max best_end m) (omega (arith, c))
          (omega (arith, c)) in
      omega (arith, c, l)

-- In a buffer of at most u64_max characters, a page from an offset before the end of its range and
-- of the buffer ends between that offset and that end, and takes no more characters than the
-- target.
pub page_end_offset_with_images_bounds :
    (b : PagerBuffer) (start end target max_images : ℕ)
    → len b ≤ u64_max
    → start < min end (len b)
    → let r = page_end_offset_with_images b start end target max_images in
      (start ≤ r) × (r ≤ min end (len b)) × (r ≤ start + target)
unfolding page_end_offset_with_images
page_end_offset_with_images_bounds b start end target max_images u h =
    let to = min end (len b) in
    let images = image_offsets_in_range b start to (max_images + 1) in
    let l =
      best_end_loop-le b start to target u h (omega arith) (suc (min (length images) max_images)) 0
        start images start (omega arith) (omega arith) in
    ground (arith, u, h, l, page_end_offset_bounds b start to target u)

-- There is no image at an offset or one after it.
abbrev pub IsClear : ℕ → PagerEvent → Type 0
IsClear start e = is_image e.kind ≡ true → (e.offset < start) ⊎ (suc start < e.offset)

image_offsets_loop_first :
    (start from to limit : ℕ) (es : List PagerEvent) {i : ℕ}
    → from ≡ start
    → All (IsClear start) es
    → get_elem? (image_offsets_loop from to limit es) 0 ≡ some i
    → suc start < i
unfolding image_offsets_loop
image_offsets_loop_first start from to zero es q c e = ground (arith, e)
image_offsets_loop_first start from to (suc limit) [] q c e = ground (arith, e)
image_offsets_loop_first start from to (suc limit) (x ∷ es) {i} q c e =
    ground (arith, e, c.0, image_offsets_loop_first start from to (suc limit) es {i = i} q c.1)

module _ (b : PagerBuffer) (start end target : ℕ) (u : len b ≤ u64_max) (h : start < end)
    (k : end ≤ len b) where
  -- With an image past the next character, the first candidate is past the start.
  candidate_in_moves :
      (segment_end best_end : ℕ)
      → 0 < target
      → suc start < segment_end
      → start < get_or (candidate_in b start end target 0 start segment_end) best_end
  unfolding candidate_in
  candidate_in_moves segment_end best_end t s =
      let budget_end = saturating_add start target in
      let candidate_end = min (min end budget_end) (segment_end - 1) in
      ground (
        arith,
        u,
        h,
        k,
        t,
        s,
        page_end_offset_bounds b start candidate_end (candidate_end - start) u,
      )

  best_end_loop_moves :
      (rounds : ℕ) (images : List ℕ)
      → end < u64_max
      → 0 < target
      → ((i : ℕ) → get_elem? images 0 ≡ some i → suc start < i)
      → start < best_end_loop b start end target (suc rounds) 0 start images start
  unfolding best_end_loop
  best_end_loop_moves rounds [] v t f =
      omega (arith, candidate_in_moves (saturating_add end 1) start t (omega arith))
  best_end_loop_moves rounds (i ∷ is) v t f =
      let m = get_or (candidate_in b start end target 0 start i) start in
      let c = best-le b start end target u h k 0 start i start (omega arith) (omega arith) in
      let l =
        best_end_loop-le b start end target u h k rounds 1 i is (max start m) (omega (arith, c))
          (omega (arith, c)) in
      omega (arith, l, candidate_in_moves i start t (f i refl))

image_offsets_in_range_first :
    (b : PagerBuffer) (start end limit : ℕ) {i : ℕ}
    → start < min end (len b)
    → All (IsClear start) b.events
    → get_elem? (image_offsets_in_range b start end limit) 0 ≡ some i
    → suc start < i
unfolding image_offsets_in_range
image_offsets_in_range_first b start end limit {i} h c e =
    image_offsets_loop_first start (min start (min end (len b))) (min end (len b)) limit b.events
      {i = i} (omega arith) c e

-- c
pub page_end_offset_with_images_moves :
    (b : PagerBuffer) (start end target max_images : ℕ)
    → len b < u64_max
    → start < min end (len b)
    → 0 < target
    → All (IsClear start) b.events
    → start < page_end_offset_with_images b start end target max_images
unfolding page_end_offset_with_images
page_end_offset_with_images_moves b start end target max_images u h t c =
    let to = min end (len b) in
    let images = image_offsets_in_range b start to (max_images + 1) in
    let l =
      best_end_loop_moves b start to target (omega arith) h (omega arith)
        (min (length images) max_images) images (omega arith) t
        (λ i e.
          image_offsets_in_range_first b start to (max_images + 1) {i = i} (omega arith) c e) in
    ground (arith, u, h, t, l, page_end_offset_bounds b start to target (omega arith))
