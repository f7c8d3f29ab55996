-- ===== src/Render/Labelling.antt =====
-- The label of standard error along the rendering of a range (src/resolved_output.rs).
use mcp_repl.Prelude.{
  ℕ, ◌-◌, min, max, ltb, leb, ◌≡◌, inl, inr, Bool, true, false, not, ◌&&◌, ◌||◌, Option, none, some,
  List, [], ◌∷◌, ◌++◌, get_last?, length, arith, Bool-cases, saturating_add,
}
use mathlib.Core.Path.{subst}
use mcp_repl.Capture.Types.{Bytes, ContentOrigin, worker, origin_eq}
use mcp_repl.Render.Content.{
  WorkerContent, content_text, content_image, TextStream, stdout, stderr, stream_eq,
}
use mcp_repl.Render.Bytes.{render_bytes}
use mcp_repl.Render.Push.{
  TextSpanView, RenderedTextState, Rendering, push_text_with_merge, stderr_label,
  render_stderr_text, push_rendered, push_default_stdout, push_span_text, rendered_state,
}
use mcp_repl.Render.Emit.{Emission, after_push, emit_span, emit_spans, emit_default_to, emit}
use mcp_repl.Render.Adding.{IsAdded, add_text-IsLabelled}
use mcp_repl.Render.Labels.{has_label, IsOpenText, IsJoined, IsLabelling, MayAdd, strip_prefix_self}

push_rendered-IsLabelling :
    (merge : Bool) (r : Rendering) (text : Bytes) (stream : TextStream) (origin : ContentOrigin)
    → IsLabelling merge r
    → MayAdd merge r.contents text stream origin
    → let p = push_rendered r text stream origin merge in IsLabelling (merge || p.0) p.1
unfolding push_rendered push_text_with_merge rendered_state IsAdded
push_rendered-IsLabelling merge r [] stream origin v m = ground (arith, v)
push_rendered-IsLabelling merge r (b ∷ bs) stdout origin v m =
    let a = add_text-IsLabelled r.contents (b ∷ bs) stdout origin merge v.labelled m in
    record { labelled = a.0; joined = λ s t. absurd (ground (arith, s)) }
push_rendered-IsLabelling merge r (b ∷ bs) stderr origin v m =
    let a = add_text-IsLabelled r.contents (b ∷ bs) stderr origin merge v.labelled m in
    record { labelled = a.0; joined = λ s t. (ground arith, a.1) }

IsOpenText-origin_eq :
    (o o' : ContentOrigin) (last : Option WorkerContent)
    → origin_eq o o' ≡ true
    → IsOpenText o last
    → IsOpenText o' last
IsOpenText-origin_eq o o' none e h = h
IsOpenText-origin_eq o o' (some (content_image d m i n)) e h = h
IsOpenText-origin_eq o o' (some (content_text t s k v)) e h = ground (arith, e, h)

has_label_new : (t : Bytes) → has_label (stderr_label ++ t) ≡ true
unfolding has_label
has_label_new t = ground (arith, strip_prefix_self stderr_label t)

has_label_separated : (t : Bytes) → has_label (b'\n' ∷ (stderr_label ++ t)) ≡ true
unfolding has_label
has_label_separated t = ground (arith, strip_prefix_self (b'\n' ∷ stderr_label) t)

render_stderr_text-MayAdd :
    (merge : Bool) (last : Option RenderedTextState) (contents : List WorkerContent)
    (origin : ContentOrigin) (rendered : Bytes)
    → IsJoined merge last contents
    → MayAdd merge contents (render_stderr_text last origin rendered) stderr origin
unfolding render_stderr_text
render_stderr_text-MayAdd merge none contents origin rendered j = inl (has_label_new rendered)
render_stderr_text-MayAdd merge (some s) contents origin rendered j =
    elim (Bool-cases
      (stream_eq s.stream stderr && (origin_eq s.origin origin && not s.terminated))) [
        | inl q ↦
            let a : stream_eq s.stream stderr ≡ true = ground (arith, q) in
            let b : s.terminated ≡ false = ground (arith, q) in
            let o : origin_eq s.origin origin ≡ true = ground (arith, q) in
            let k = j a b in
            inr (k.0, IsOpenText-origin_eq s.origin origin (get_last? contents) o k.1)
        | inr q ↦ elim (Bool-cases s.terminated) [
          | inl e ↦ inl (rw (q, e) (has_label_new rendered))
          | inr e ↦ inl (rw (q, e) (has_label_separated rendered))
        ]
      ]

-- Nothing was pushed.
pub kept-IsLabelling :
    (merge : Bool) (r : Rendering) → IsLabelling merge r → IsLabelling (merge || false) r
kept-IsLabelling true r v = v
kept-IsLabelling false r v = v

pub push_default_stdout-IsLabelling :
    (merge : Bool) (r : Rendering) (bytes : Bytes) (start end : ℕ)
    → IsLabelling merge r
    → let p = push_default_stdout r bytes start end merge in IsLabelling (merge || p.0) p.1
unfolding push_default_stdout
push_default_stdout-IsLabelling merge r bytes start end v =
    elim (Bool-cases (leb end start || ltb (length bytes) end)) [
      | inl q ↦ rw q (kept-IsLabelling merge r v)
      | inr q ↦
          rw q (push_rendered-IsLabelling merge r (render_bytes bytes start end) stdout worker v tt)
    ]

pub push_span_text-IsLabelling :
    (merge : Bool) (r : Rendering) (bytes : Bytes) (start end : ℕ) (span : TextSpanView)
    → IsLabelling merge r
    → let p = push_span_text r bytes start end span merge in IsLabelling (merge || p.0) p.1
unfolding push_span_text
push_span_text-IsLabelling merge r bytes start end span v =
    let rendered = render_bytes bytes start end in
    elim (Bool-cases (leb end start || ltb (length bytes) end)) [
      | inl q ↦ rw q (kept-IsLabelling merge r v)
      | inr q ↦ elim (Bool-cases span.is_stderr) [
        | inl e ↦
            rw (q, e)
              (push_rendered-IsLabelling merge r
                (render_stderr_text r.last_rendered_text span.origin rendered) stderr span.origin v
                (render_stderr_text-MayAdd merge r.last_rendered_text r.contents span.origin
                  rendered v.joined))
        | inr e ↦ rw (q, e) (push_rendered-IsLabelling merge r rendered stdout span.origin v tt)
      ]
    ]

-- What is emitted may be merged with.
record IsEmission (merge : Bool) (e : Emission) : Type 0 where
  flag : e.can_merge ≡ merge || e.emitted
  labelling : IsLabelling e.can_merge e.out

after_push-IsEmission :
    (merge : Bool) (e : Emission) (p : Bool × Rendering)
    → IsEmission merge e
    → IsLabelling (e.can_merge || p.0) p.1
    → IsEmission merge (after_push e p)
unfolding after_push
after_push-IsEmission merge e p v l = record { flag = ground (arith, v.flag); labelling = l }

module _ (bytes : Bytes) (base_offset : ℕ) where
  emit_default_to-IsEmission :
      (merge : Bool) (to : ℕ) (e : Emission)
      → IsEmission merge e
      → IsEmission merge (emit_default_to bytes base_offset to e)
  unfolding emit_default_to
  emit_default_to-IsEmission merge to e v = ground (
    arith,
    v,
    after_push-IsEmission merge e _ v (
        push_default_stdout-IsLabelling e.can_merge e.out bytes (e.cursor - base_offset)
          (to - base_offset) v.labelling),
  )

  emit_span-IsEmission :
      (merge : Bool) (start_offset end_offset : ℕ) (span : TextSpanView) (e : Emission)
      → IsEmission merge e
      → IsEmission merge (emit_span bytes base_offset start_offset end_offset span e)
  unfolding emit_span
  emit_span-IsEmission merge start_offset end_offset span e v =
      let span_start = max span.start start_offset in
      let e1 = emit_default_to bytes base_offset span_start e in
      let v1 = emit_default_to-IsEmission merge span_start e v in
      let r = after_push-IsEmission merge e1 _ v1 (
        push_span_text-IsLabelling e1.can_merge e1.out bytes (span_start - base_offset)
          (min span.end end_offset - base_offset) span v1.labelling) in
      record { flag = r.flag; labelling = r.labelling }

  emit_spans-IsEmission :
      (merge : Bool) (start_offset end_offset : ℕ) (spans : List TextSpanView) (e : Emission)
      → IsEmission merge e
      → IsEmission merge (emit_spans bytes base_offset start_offset end_offset spans e)
  unfolding emit_spans
  emit_spans-IsEmission merge start_offset end_offset [] e v = v
  emit_spans-IsEmission merge start_offset end_offset (span ∷ spans) e v = ground (
    arith,
    v,
    emit_spans-IsEmission merge start_offset end_offset spans e v,
    emit_spans-IsEmission merge start_offset end_offset spans
        (emit_span bytes base_offset start_offset end_offset span e)
        (emit_span-IsEmission merge start_offset end_offset span e v),
  )

  emitted-IsLabelling :
      (merge : Bool) (e : Emission) → IsEmission merge e → IsLabelling (merge || e.emitted) e.out
  emitted-IsLabelling merge e v = subst (λ m. IsLabelling m e.out) v.flag v.labelling

  pub emit-IsLabelling :
      (spans : List TextSpanView) (start_offset end_offset : ℕ) (merge : Bool) (out : Rendering)
      → IsLabelling merge out
      → let r = emit bytes base_offset spans start_offset end_offset merge out in
        IsLabelling (merge || r.0) r.1
  unfolding emit
  emit-IsLabelling spans start_offset end_offset merge out v =
      let to = min end_offset (saturating_add base_offset (length bytes)) in
      let from = min start_offset to in
      elim (Bool-cases (leb to from)) [
        | inl q ↦ rw q (kept-IsLabelling merge out v)
        | inr q ↦ rw q (
            emitted-IsLabelling merge _ (
              emit_default_to-IsEmission merge to _ (
                emit_spans-IsEmission merge from to spans
                  (record { emitted = false; can_merge = merge; cursor = from; out = out })
                  (record { flag = ground arith; labelling = v }))))
      ]
