-- ===== src/Pager/Images.antt =====
-- `Pager::dedupe_images` and `Pager::footer` of src/pager/mod.rs.
use mathlib.Core.Path.{subst}
use mcp_repl.Prelude.{
  ℕ, ◌==◌, ◌≡◌, refl, sym, ap, ap₂, Bool, true, false, ◌||◌, Option, none, some, if◌then◌else◌,
  List, [], ◌∷◌, ◌++◌, All, arith, Bool-cases, inl, inr, is_empty, saturating_add, codes, decimal,
  chars_eq,
}
use mcp_repl.Capture.Types.{Bytes}
use mcp_repl.Ranges.Set.{Range}
use mcp_repl.Render.Content.{WorkerContent, content_text, content_image, server_stderr}
use mcp_repl.Pager.Buffer.{PagerBuffer, len}
use mcp_repl.Pager.Presentation.{footer_min, position_marker}

-- The fields of `PagerState` on images: a set, a map, and the next number.
pub record ShownImages : Type 0 where
  pub seen_images : List Bytes
  pub image_numbers : List (Bytes × ℕ)
  pub next_image_number : ℕ

unfoldable pub no_images : ShownImages
no_images = record { seen_images = []; image_numbers = []; next_image_number = 1 }

unfoldable pub contains : Bytes → List Bytes → Bool
contains id [] = false
contains id (x ∷ xs) = chars_eq id x || contains id xs

unfoldable pub find_number : Bytes → List (Bytes × ℕ) → Option ℕ
find_number id [] = none
find_number id (p ∷ ps) = let rest = find_number id ps in if chars_eq id p.0 then some p.1 else rest

-- `image_numbers.entry(id).or_insert_with(...)`.
unfoldable pub number_image : Bytes → ShownImages → ℕ × ShownImages
number_image id s = elim (find_number id s.image_numbers) [
  | some num ↦ (num, s)
  | none ↦ (
    s.next_image_number,
    record s {
      image_numbers = (id, s.next_image_number) ∷ s.image_numbers;
      next_image_number = saturating_add s.next_image_number 1;
    },
  )
]

abbrev already_shown : ℕ → WorkerContent
already_shown num =
    server_stderr (codes "[pager] image #" ++ (decimal num ++ codes " already shown\n"))

unfoldable pub dedupe_image :
    Bytes → Bytes → Bytes → Bool → ShownImages → WorkerContent × ShownImages
dedupe_image payload mime_type id is_new s =
    let n = number_image id s in
    if contains id n.1.seen_images then (already_shown n.0, n.1) else (
      content_image payload mime_type id is_new,
      record n.1 { seen_images = id ∷ n.1.seen_images },
    )

unfoldable pub dedupe_images : List WorkerContent → ShownImages → List WorkerContent × ShownImages
dedupe_images [] s = ([], s)
dedupe_images (content_text t st o v ∷ cs) s =
    let r = dedupe_images cs s in (content_text t st o v ∷ r.0, r.1)
dedupe_images (content_image payload mime_type id is_new ∷ cs) s =
    let d = dedupe_image payload mime_type id is_new s in
    let r = dedupe_images cs d.1 in (d.0 ∷ r.0, r.1)

-- The footer of a pager that is active.
unfoldable pub footer : PagerBuffer → Option Range → ℕ → Bytes
footer buffer last_range pages_left =
    let marker = position_marker buffer.cursor (len buffer) last_range in
    if is_empty marker
    then footer_min pages_left
    else if pages_left == 0
    then codes "(END, " ++ (marker ++ codes ")")
    else codes "--More-- (" ++ (decimal pages_left ++ (codes "p, " ++ (marker ++ codes ")")))

-- The images of contents.
unfoldable pub image_ids : List WorkerContent → List Bytes
image_ids [] = []
image_ids (content_text t s o v ∷ cs) = image_ids cs
image_ids (content_image d m id n ∷ cs) = id ∷ image_ids cs

abbrev pub IsDistinct : List Bytes → Type 0
IsDistinct [] = Unit {0}
IsDistinct (x ∷ xs) = (contains x xs ≡ false) × IsDistinct xs

chars_eq_sym : (xs ys : Bytes) → chars_eq xs ys ≡ chars_eq ys xs
chars_eq_sym [] [] = refl
chars_eq_sym [] (y ∷ ys) = refl
chars_eq_sym (x ∷ xs) [] = refl
chars_eq_sym (x ∷ xs) (y ∷ ys) = ground (arith, chars_eq_sym xs ys)

number_image-seen :
    (id : Bytes) (s : ShownImages) → (number_image id s).1.seen_images ≡ s.seen_images
unfolding number_image
number_image-seen id s =
    elim (find_number id s.image_numbers)
      as (λ o.
        (elim o as (λ _. ℕ × ShownImages) [
          | some num ↦ (num, s)
          | none ↦ (
            s.next_image_number,
            record s {
              image_numbers = (id, s.next_image_number) ∷ s.image_numbers;
              next_image_number = saturating_add s.next_image_number 1;
            },
          )
        ]).1.seen_images
        ≡ s.seen_images) [ some num ↦ refl | none ↦ refl ]

-- None of them is in the set with one more, so none in the set, and none is that one.
All-unseen :
    (id : Bytes) (seen ids : List Bytes)
    → All (λ i. contains i (id ∷ seen) ≡ false) ids
    → All (λ i. contains i seen ≡ false) ids × (contains id ids ≡ false)
unfolding contains
All-unseen id seen [] h = (tt, refl)
All-unseen id seen (x ∷ xs) h =
    let r = All-unseen id seen xs h.1 in
    let e = chars_eq_sym x id in ((ground (arith, h.0), r.0), ground (arith, h.0, r.1, e))

dedupe_images-unseen :
    (cs : List WorkerContent) (s : ShownImages)
    → let ids = image_ids (dedupe_images cs s).0 in
      All (λ i. contains i s.seen_images ≡ false) ids × IsDistinct ids
unfolding dedupe_images dedupe_image image_ids
dedupe_images-unseen [] s = (tt, tt)
dedupe_images-unseen (content_text t st o v ∷ cs) s = dedupe_images-unseen cs s
dedupe_images-unseen (content_image payload mime_type id is_new ∷ cs) s =
    let t = (number_image id s).1 in
    let e = number_image-seen id s in
    elim (Bool-cases (contains id t.seen_images)) [
      | inl q ↦
          let r = dedupe_images-unseen cs t in
          rw q (
            subst (λ seen. All (λ i. contains i seen ≡ false) (image_ids (dedupe_images cs t).0)) e
                r.0,
            r.1,
          )
      | inr q ↦
          let t' : ShownImages = record t { seen_images = id ∷ t.seen_images } in
          let r = dedupe_images-unseen cs t' in
          let u = All-unseen id t.seen_images (image_ids (dedupe_images cs t').0) r.0 in
          rw q (
            subst
                (λ seen.
                  All (λ i. contains i seen ≡ false) (id ∷ image_ids (dedupe_images cs t').0))
                e (q, u.0),
            (u.1, r.1),
          )
    ]

chars_eq-eq : (xs ys : Bytes) → chars_eq xs ys ≡ true → xs ≡ ys
chars_eq-eq [] [] e = refl
chars_eq-eq [] (y ∷ ys) e = ground (arith, e)
chars_eq-eq (x ∷ xs) [] e = ground (arith, e)
chars_eq-eq (x ∷ xs) (y ∷ ys) e =
    ap₂ (λ h t. h ∷ t) (ground (arith, e)) (chars_eq-eq xs ys (ground (arith, e)))

-- An image that is in the set adds nothing to it.
contains_seen :
    (i id : Bytes) (seen : List Bytes)
    → contains id seen ≡ true
    → (chars_eq i id || contains i seen) ≡ contains i seen
contains_seen i id seen q = elim (Bool-cases (chars_eq i id)) [
  | inl e ↦
      let c : contains i seen ≡ true =
        subst (λ x. contains x seen ≡ true) (sym (chars_eq-eq i id e)) q in
      rw (e, c) refl
  | inr e ↦ rw e refl
]

dedupe_images-seen :
    (cs : List WorkerContent) (s : ShownImages) (i : Bytes)
    → contains i (dedupe_images cs s).1.seen_images
      ≡ (contains i (image_ids cs) || contains i s.seen_images)
unfolding dedupe_images dedupe_image image_ids contains
dedupe_images-seen [] s i = refl
dedupe_images-seen (content_text t st o v ∷ cs) s i = dedupe_images-seen cs s i
dedupe_images-seen (content_image payload mime_type id is_new ∷ cs) s i =
    let t = (number_image id s).1 in
    let same : contains i t.seen_images ≡ contains i s.seen_images =
      ap (contains i) (number_image-seen id s) in
    elim (Bool-cases (contains id t.seen_images)) [
      | inl q ↦
          rw q (ground (arith, same, dedupe_images-seen cs t i, contains_seen i id t.seen_images q))
      | inr q ↦
          let t' : ShownImages = record t { seen_images = id ∷ t.seen_images } in
          rw q (ground (arith, same, dedupe_images-seen cs t' i))
    ]

-- After the images of contents have been deduplicated, no image that is left had been shown before,
-- no two of them are the same, and the set of shown images has grown by exactly the images that the
-- contents had.
pub dedupe_images-IsDistinct :
    (cs : List WorkerContent) (s : ShownImages)
    → let r = dedupe_images cs s in
      All (λ i. contains i s.seen_images ≡ false) (image_ids r.0)
      × IsDistinct (image_ids r.0)
      × ((i : Bytes)
          → contains i r.1.seen_images ≡ (contains i (image_ids cs) || contains i s.seen_images))
dedupe_images-IsDistinct cs s =
    let u = dedupe_images-unseen cs s in (u.0, u.1, dedupe_images-seen cs s)
