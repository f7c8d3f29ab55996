-- ===== src/Pager/Extended.antt =====
-- What it means that the indices of a `PagerBuffer` (src/pager/mod.rs) are in bounds.
use mathlib.Core.Path.{subst}
use mcp_repl.Prelude.{
  ℕ, ◌+◌, ◌-◌, ◌≤◌, ◌<◌, min, ◌≡◌, refl, sym, false, List, [], ◌∷◌, ◌++◌, length, All, All-append,
  arith, is_empty, length-append, u64_max,
}
use mcp_repl.Capture.Types.{Bytes}
use mcp_repl.Pager.Index.{build_char_index, extend_char_index, newlines, line_end_offsets}
use mcp_repl.Pager.Buffer.{
  PagerBuffer, PagerTextSpan, len, empty_at, append_bytes_with_source_offsets,
}
use mcp_repl.Pager.Indexed.{
  IsUpTo, extend_char_index-IsUpTo, extend_source_offsets-length, All-map, line_end_offsets_bounds,
}

-- Every index of a buffer is in bounds: it reads bytes and characters that are there, in order.
pub record IsIndexed (b : PagerBuffer) : Type 0 where
  pub filled : 0 < length b.char_to_byte
  pub up_to : IsUpTo 0 b.char_to_byte (min (length b.bytes) u64_max)
  pub sources : length b.source_offsets ≡ length b.char_to_byte
  pub lines : All (λ l. l ≤ len b) b.line_ends
  pub events : All (λ e. e.offset ≤ len b) b.events
  pub spans : All (λ s. (s.start ≤ s.end) × (s.end ≤ len b)) b.text_spans
  pub cursor : b.cursor ≤ len b

pub empty_at-IsIndexed : (source_offset : ℕ) → IsIndexed (empty_at source_offset)
unfolding empty_at len
empty_at-IsIndexed source_offset = record {
  filled = omega arith;
  up_to = (omega arith, omega arith, tt);
  sources = refl;
  lines = tt;
  events = tt;
  spans = tt;
  cursor = omega arith;
}

-- Bytes that are appended keep what was, and add their characters.
pub append_bytes-IsIndexed :
    (bytes : Bytes) (f : ℕ → ℕ) (b : PagerBuffer)
    → IsIndexed b
    → let a = append_bytes_with_source_offsets bytes f b in
      IsIndexed a
      × (len b ≤ len a)
      × (is_empty bytes ≡ false → len a ≡ len b + (length (build_char_index bytes) - 1))
      × (a.text_spans ≡ b.text_spans)
unfolding append_bytes_with_source_offsets len line_end_offsets
append_bytes-IsIndexed [] f b v = (v, omega arith, λ e. absurd (ground (arith, e)), refl)
append_bytes-IsIndexed (x ∷ xs) f b v =
    let chunk = build_char_index (x ∷ xs) in
    let i = extend_char_index-IsUpTo b.char_to_byte (length b.bytes) (x ∷ xs) v.filled v.up_to in
    let grown : len b ≤ length (extend_char_index b.char_to_byte chunk (length b.bytes)) - 1 =
      omega (arith, i.1) in
    let total : length (b.bytes ++ (x ∷ xs)) ≡ length b.bytes + length (x ∷ xs) =
      length-append b.bytes (x ∷ xs) in
    let sources =
      extend_source_offsets-length b.source_offsets chunk f (omega (arith, v.filled, v.sources)) in
    let new_len : length (extend_char_index b.char_to_byte chunk (length b.bytes)) - 1
        ≡ len b + (length chunk - 1) =
      omega (arith, i.1, v.filled) in
    (
      record {
        filled = omega (arith, i.1, v.filled);
        up_to =
            subst
              (λ n.
                IsUpTo 0 (extend_char_index b.char_to_byte chunk (length b.bytes)) (min n u64_max))
              (sym total) i.0;
        sources = omega (arith, sources, i.1, v.sources);
        lines =
            All-append
              (λ l. l ≤ length (extend_char_index b.char_to_byte chunk (length b.bytes)) - 1)
              b.line_ends _ (All-map _ _ b.line_ends (λ l h. omega (arith, grown)) v.lines)
              (subst (λ n. All (λ l. l ≤ n) (line_end_offsets (x ∷ xs) chunk (len b))) (sym new_len)
                (line_end_offsets_bounds chunk (len b) (newlines 0 (x ∷ xs))));
        events = All-map _ _ b.events (λ e h. omega (arith, grown)) v.events;
        spans = All-map _ _ b.text_spans (λ s h. (h.0, omega (arith, grown))) v.spans;
        cursor = omega (arith, grown, v.cursor);
      },
      grown,
      λ e. new_len,
      refl,
    )

-- Only the spans change.
pub with_spans-IsIndexed :
    (b : PagerBuffer) (ss : List PagerTextSpan)
    → IsIndexed b
    → All (λ s. (s.start ≤ s.end) × (s.end ≤ len b)) ss
    → IsIndexed (record b { text_spans = b.text_spans ++ ss })
unfolding len
with_spans-IsIndexed b ss v h = record {
  filled = v.filled;
  up_to = v.up_to;
  sources = v.sources;
  lines = v.lines;
  events = v.events;
  spans = All-append (λ s. (s.start ≤ s.end) × (s.end ≤ len b)) b.text_spans ss v.spans h;
  cursor = v.cursor;
}

pub with_source_end-IsIndexed :
    (b : PagerBuffer) (n : ℕ) → IsIndexed b → IsIndexed (record b { source_end = n })
unfolding len
with_source_end-IsIndexed b n v = record {
  filled = v.filled;
  up_to = v.up_to;
  sources = v.sources;
  lines = v.lines;
  events = v.events;
  spans = v.spans;
  cursor = v.cursor;
}
