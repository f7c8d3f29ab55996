-- ===== src/Render/Emit.antt =====
-- `TextRangeEmitter::emit` of src/resolved_output.rs: the text between two offsets, span by span.
use mcp_repl.Prelude.{
  ℕ, ◌-◌, min, max, leb, ltb, Bool, false, ◌||◌, if◌then◌else◌, List, [], ◌∷◌, length,
  saturating_add,
}
use mcp_repl.Capture.Types.{Bytes}
use mcp_repl.Render.Push.{TextSpanView, Rendering, push_default_stdout, push_span_text}

-- The variables of the loop.
pub record Emission : Type 0 where
  pub emitted : Bool
  pub can_merge : Bool
  pub cursor : ℕ
  pub out : Rendering

-- What a push changes.
unfoldable pub after_push : Emission → Bool × Rendering → Emission
after_push e p = record e { emitted = e.emitted || p.0; can_merge = e.can_merge || p.0; out = p.1 }

module _ (bytes : Bytes) (base_offset : ℕ) where
  -- The text that no span covers, up to an offset.
  unfoldable pub emit_default_to : ℕ → Emission → Emission
  emit_default_to to e =
      if ltb e.cursor to
      then after_push e
          (push_default_stdout e.out bytes (e.cursor - base_offset) (to - base_offset) e.can_merge)
      else e

  -- The text before a span, then that of the span.
  unfoldable pub emit_span : ℕ → ℕ → TextSpanView → Emission → Emission
  emit_span start_offset end_offset span e =
      let span_start = max span.start start_offset in
      let span_end = min span.end end_offset in
      let e1 = emit_default_to span_start e in
      record (after_push e1 (
        push_span_text e1.out bytes (span_start - base_offset) (span_end - base_offset) span
          e1.can_merge)) { cursor = span_end }

  unfoldable pub emit_spans : ℕ → ℕ → List TextSpanView → Emission → Emission
  emit_spans start_offset end_offset [] e = e
  emit_spans start_offset end_offset (span ∷ spans) e =
      let skipped = emit_spans start_offset end_offset spans e in
      let more =
        emit_spans start_offset end_offset spans (emit_span start_offset end_offset span e) in
      if leb span.end start_offset then skipped else if leb end_offset span.start then e else more

  -- Was anything emitted, and the rendering.
  unfoldable pub emit : List TextSpanView → ℕ → ℕ → Bool → Rendering → Bool × Rendering
  emit spans start_offset end_offset merge_with_previous out =
      let to = min end_offset (saturating_add base_offset (length bytes)) in
      let from = min start_offset to in
      let e = emit_default_to to (
        emit_spans from to spans (record {
          emitted = false;
          can_merge = merge_with_previous;
          cursor = from;
          out = out;
        })) in
      if leb to from then (false, out) else (e.emitted, e.out)
