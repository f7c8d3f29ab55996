-- ===== src/Render/Adding.antt =====
-- A text that is added keeps standard error labelled (src/resolved_output.rs).
use mcp_repl.Prelude.{
  ◌≡◌, refl, sym, inl, inr, Bool, true, false, Option, none, some, if◌then◌else◌, List, get_last?,
  drop_last, All, arith, Option-cases,
}
use mathlib.Core.Path.{subst}
use mcp_repl.Capture.Types.{Bytes, ContentOrigin, origin_eq}
use mcp_repl.Render.Content.{
  WorkerContent, content_text, TextStream, stdout, stderr, ContentVisibility, reply_and_transcript,
}
use mcp_repl.Render.Push.{push_content, merge_last, join_or_push, add_text}
use mcp_repl.Render.Labels.{
  IsLabelled, IsOpenText, MayAdd, All-snoc, All-drop_last, get_last?-push_content,
  merge_last-IsLabelled, merge_last-IsOpenText, merge_last_open, last-IsLabelled?,
}

pub origin_eq_refl : (o : ContentOrigin) → origin_eq o o ≡ true
origin_eq_refl o = ground arith

-- After a text of standard error the last content is open.
unfoldable pub IsAdded : TextStream → ContentOrigin → List WorkerContent → Type 0
IsAdded stdout origin contents = Unit {0}
IsAdded stderr origin contents = IsOpenText origin (get_last? contents)

new-IsLabelled :
    (merge : Bool) (contents : List WorkerContent) (text : Bytes) (stream : TextStream)
    (origin : ContentOrigin) (visibility : ContentVisibility)
    → MayAdd merge contents text stream origin
    → visibility ≡ reply_and_transcript
    → (if merge then merge_last (get_last? contents) text stream origin visibility else none) ≡ none
    → IsLabelled (content_text text stream origin visibility)
new-IsLabelled merge contents text stdout origin visibility m v e = tt
new-IsLabelled merge contents text stderr origin visibility (inl l) v e = l
new-IsLabelled merge contents text stderr origin visibility (inr o) v e =
    absurd (merge_last_open (get_last? contents) text origin o.1 (ground (arith, e, v, o.0)))

joined-IsAdded :
    (stream : TextStream) (origin : ContentOrigin) (last : Option WorkerContent) (text : Bytes)
    (cs : List WorkerContent) {m : WorkerContent}
    → merge_last last text stream origin reply_and_transcript ≡ some m
    → IsAdded stream origin (push_content cs m)
unfolding IsAdded
joined-IsAdded stdout origin last text cs e = tt
joined-IsAdded stderr origin last text cs {m} e =
    subst (IsOpenText origin) (sym (get_last?-push_content cs m))
      (merge_last-IsOpenText last text origin {m = m} e)

pushed-IsAdded :
    (stream : TextStream) (origin : ContentOrigin) (text : Bytes) (cs : List WorkerContent)
    → IsAdded stream origin (push_content cs (content_text text stream origin reply_and_transcript))
unfolding IsAdded
pushed-IsAdded stdout origin text cs = tt
pushed-IsAdded stderr origin text cs =
    subst (IsOpenText origin)
      (sym (get_last?-push_content cs (content_text text stderr origin reply_and_transcript)))
      (refl, origin_eq_refl origin, refl)

pub add_text-IsLabelled :
    (contents : List WorkerContent) (text : Bytes) (stream : TextStream) (origin : ContentOrigin)
    (merge : Bool)
    → All IsLabelled contents
    → MayAdd merge contents text stream origin
    → let contents' = add_text contents text stream origin reply_and_transcript merge in
      All IsLabelled contents' × IsAdded stream origin contents'
unfolding add_text join_or_push
add_text-IsLabelled contents text stream origin false h m = (
  All-snoc contents _ h
      (new-IsLabelled false contents text stream origin reply_and_transcript m refl refl),
  pushed-IsAdded stream origin text contents,
)
add_text-IsLabelled contents text stream origin true h m =
    let last = get_last? contents in
    elim (Option-cases (merge_last last text stream origin reply_and_transcript)) [
      | inl q ↦ rw q (
        All-snoc contents _ h
            (new-IsLabelled true contents text stream origin reply_and_transcript m refl q),
        pushed-IsAdded stream origin text contents,
      )
      | inr (k, q) ↦ rw q (
        All-snoc (drop_last contents) k (All-drop_last contents h) (
            merge_last-IsLabelled last text stream origin reply_and_transcript {m = k}
              (last-IsLabelled? contents h) q),
        joined-IsAdded stream origin last text (drop_last contents) {m = k} q,
      )
    ]

-- An echo joins the contents as standard output.
pub add_text_stdout :
    (contents : List WorkerContent) (text : Bytes) (origin : ContentOrigin)
    (visibility : ContentVisibility) (merge : Bool)
    → All IsLabelled contents
    → All IsLabelled (add_text contents text stdout origin visibility merge)
unfolding add_text join_or_push
add_text_stdout contents text origin visibility false h = All-snoc contents _ h tt
add_text_stdout contents text origin visibility true h =
    let last = get_last? contents in
    elim (Option-cases (merge_last last text stdout origin visibility)) [
      | inl q ↦ rw q (All-snoc contents _ h tt)
      | inr (k, q) ↦ rw q (
          All-snoc (drop_last contents) k (All-drop_last contents h) (
            merge_last-IsLabelled last text stdout origin visibility {m = k}
              (last-IsLabelled? contents h) q))
    ]
