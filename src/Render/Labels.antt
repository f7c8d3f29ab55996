-- ===== src/Render/Labels.antt =====
-- Standard error in the contents of a reply is labelled (src/resolved_output.rs).
use mcp_repl.Prelude.{
  ◌≡◌, refl, ◌⊎◌, Bool, true, false, ◌||◌, Option, none, some, List, [], ◌∷◌, ◌++◌, get_last?,
  drop_last, strip_prefix, All, arith,
}
use mcp_repl.Capture.Types.{Bytes, ContentOrigin, origin_eq}
use mcp_repl.Render.Content.{
  WorkerContent, content_text, content_image, TextStream, stdout, stderr, stream_eq,
  ContentVisibility, reply_and_transcript, transcript_only, is_reply_visible,
}
use mcp_repl.Render.Push.{RenderedTextState, Rendering, push_content, merge_last, stderr_label}

abbrev pub is_some {ℓ} : {A : Type ℓ} → Option A → Bool
is_some none = false
is_some (some a) = true

-- Does a text start with the label, perhaps after a newline?
unfoldable pub has_label : Bytes → Bool
has_label text =
    is_some (strip_prefix stderr_label text) || is_some (strip_prefix (b'\n' ∷ stderr_label) text)

strip_prefix-append :
    (p t m : Bytes) → is_some (strip_prefix p t) ≡ true → is_some (strip_prefix p (t ++ m)) ≡ true
unfolding strip_prefix
strip_prefix-append [] t m h = refl
strip_prefix-append (x ∷ p) [] m h = ground (arith, h)
strip_prefix-append (x ∷ p) (y ∷ t) m h = ground (arith, h, strip_prefix-append p t m)

pub strip_prefix_self : (p t : Bytes) → is_some (strip_prefix p (p ++ t)) ≡ true
unfolding strip_prefix
strip_prefix_self [] t = refl
strip_prefix_self (x ∷ p) t = ground (arith, strip_prefix_self p t)

has_label-append : (t m : Bytes) → has_label t ≡ true → has_label (t ++ m) ≡ true
unfolding has_label
has_label-append t m h =
    ground (
      arith,
      h,
      strip_prefix-append stderr_label t m,
      strip_prefix-append (b'\n' ∷ stderr_label) t m,
    )

-- A content of standard error starts with the label.
abbrev pub IsLabelled : WorkerContent → Type 0
IsLabelled (content_text t stdout o v) = Unit {0}
IsLabelled (content_text t stderr o v) = has_label t ≡ true
IsLabelled (content_image d m i n) = Unit {0}

-- The last content is text of standard error that a reply shows.
abbrev pub IsOpenText : ContentOrigin → Option WorkerContent → Type 0
IsOpenText o none = ⊥
IsOpenText o (some (content_image d m i n)) = ⊥
IsOpenText o (some (content_text t s o' v)) =
    (stream_eq s stderr ≡ true) × (origin_eq o' o ≡ true) × (is_reply_visible v ≡ true)

-- Where text of standard error goes on without a label, it joins the last content.
abbrev pub IsJoined : Bool → Option RenderedTextState → List WorkerContent → Type 0
IsJoined merge none contents = Unit {0}
IsJoined merge (some s) contents =
    stream_eq s.stream stderr ≡ true
    → s.terminated ≡ false
    → (merge ≡ true) × IsOpenText s.origin (get_last? contents)

pub record IsLabelling (merge : Bool) (r : Rendering) : Type 0 where
  pub labelled : All IsLabelled r.contents
  pub joined : IsJoined merge r.last_rendered_text r.contents

pub All-snoc :
    (cs : List WorkerContent) (c : WorkerContent)
    → All IsLabelled cs
    → IsLabelled c
    → All IsLabelled (push_content cs c)
All-snoc [] c h k = (k, tt)
All-snoc (x ∷ cs) c h k = (h.0, All-snoc cs c h.1 k)

pub All-drop_last : (cs : List WorkerContent) → All IsLabelled cs → All IsLabelled (drop_last cs)
All-drop_last [] h = tt
All-drop_last (x ∷ []) h = tt
All-drop_last (x ∷ y ∷ cs) h = (h.0, All-drop_last (y ∷ cs) h.1)

pub get_last?-push_content :
    (cs : List WorkerContent) (c : WorkerContent) → get_last? (push_content cs c) ≡ some c
get_last?-push_content [] c = refl
get_last?-push_content (x ∷ []) c = refl
get_last?-push_content (x ∷ y ∷ cs) c = get_last?-push_content (y ∷ cs) c

-- What may be added: standard output, labelled text, or text that joins open standard error.
abbrev pub MayAdd : Bool → List WorkerContent → Bytes → TextStream → ContentOrigin → Type 0
MayAdd merge contents text stdout origin = Unit {0}
MayAdd merge contents text stderr origin =
    (has_label text ≡ true) ⊎ ((merge ≡ true) × IsOpenText origin (get_last? contents))

unfoldable pub IsLabelled? : Option WorkerContent → Type 0
IsLabelled? none = Unit {0}
IsLabelled? (some c) = IsLabelled c

pub merge_last-IsLabelled :
    (last : Option WorkerContent) (text : Bytes) (stream : TextStream) (origin : ContentOrigin)
    (visibility : ContentVisibility) {m : WorkerContent}
    → IsLabelled? last
    → merge_last last text stream origin visibility ≡ some m
    → IsLabelled m
unfolding merge_last IsLabelled?
merge_last-IsLabelled none text stream origin visibility h e = ground (arith, e)
merge_last-IsLabelled (some (content_image d k i n)) text stream origin visibility h e =
    ground (arith, e)
merge_last-IsLabelled (some (content_text t stdout o v)) text stream origin visibility h e =
    ground (arith, e)
merge_last-IsLabelled (some (content_text t stderr o v)) text stream origin visibility h e =
    ground (arith, e, has_label-append t text)

-- A merge keeps stream, origin and visibility.
pub merge_last-IsOpenText :
    (last : Option WorkerContent) (text : Bytes) (origin : ContentOrigin) {m : WorkerContent}
    → merge_last last text stderr origin reply_and_transcript ≡ some m
    → IsOpenText origin (some m)
unfolding merge_last
merge_last-IsOpenText none text origin e = ground (arith, e)
merge_last-IsOpenText (some (content_image d k i n)) text origin e = ground (arith, e)
merge_last-IsOpenText (some (content_text t stdout o v)) text origin e = ground (arith, e)
merge_last-IsOpenText (some (content_text t stderr o transcript_only)) text origin e =
    ground (arith, e)
merge_last-IsOpenText (some (content_text t stderr o reply_and_transcript)) text origin e =
    ground (arith, e)

pub merge_last_open :
    (last : Option WorkerContent) (text : Bytes) (origin : ContentOrigin)
    → IsOpenText origin last
    → merge_last last text stderr origin reply_and_transcript ≡ none
    → ⊥
unfolding merge_last
merge_last_open none text origin h e = h
merge_last_open (some (content_image d k i n)) text origin h e = h
merge_last_open (some (content_text t stdout o v)) text origin h e = ground (arith, h)
merge_last_open (some (content_text t stderr o transcript_only)) text origin h e = ground (arith, h)
merge_last_open (some (content_text t stderr o reply_and_transcript)) text origin h e =
    ground (arith, h, e)

pub last-IsLabelled? : (cs : List WorkerContent) → All IsLabelled cs → IsLabelled? (get_last? cs)
unfolding IsLabelled?
last-IsLabelled? [] h = tt
last-IsLabelled? (x ∷ []) h = h.0
last-IsLabelled? (x ∷ y ∷ cs) h = last-IsLabelled? (y ∷ cs) h.1
