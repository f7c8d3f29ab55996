-- ===== src/Pager/InBounds.antt =====
-- Every index of a `PagerBuffer` (src/pager/mod.rs) stays in bounds as output is appended.
use mathlib.Core.Path.{subst}
use mcp_repl.Prelude.{
  ℕ, ◌+◌, ◌-◌, ◌≤◌, ◌<◌, min, max, ltb, leb, ◌≡◌, refl, sym, inl, inr, Bool-cases, Bool, true,
  false, ◌&&◌, ◌||◌, List, [], ◌∷◌, length, length-take, length-drop, take, drop, All, All-append,
  arith, is_empty, saturating_add,
}
use mcp_repl.Capture.Types.{
  Bytes, ContentOrigin, server, OutputEvent, OutputEventKind, image, text, input_echo, input_wait,
  request_boundary, session_end,
}
use mcp_repl.Capture.Ring.Read.{OutputRange, OutputTextSpan}
use mcp_repl.Pager.Index.{build_char_index}
use mcp_repl.Pager.Buffer.{
  PagerBuffer, len, append_bytes_with_source_offsets, append_bytes_at_source_offset,
  append_text_at_source_offset, slice_spans, append_raw_slice, push_event, append_event,
  sort_events, events_within, append_events, append_gap_notice, append_timeline_range,
}
use mcp_repl.Pager.Indexed.{char_offset-le, char_offset_mono}
use mcp_repl.Pager.Extended.{
  IsIndexed, append_bytes-IsIndexed, with_spans-IsIndexed, with_source_end-IsIndexed,
}

push_event-IsIndexed :
    (kind : OutputEventKind) (b : PagerBuffer) → IsIndexed b → IsIndexed (push_event kind b)
unfolding push_event len
push_event-IsIndexed kind b v = record {
  filled = v.filled;
  up_to = v.up_to;
  sources = v.sources;
  lines = v.lines;
  events = All-append (λ e. e.offset ≤ len b) b.events _ v.events (omega arith, tt);
  spans = v.spans;
  cursor = v.cursor;
}

append_text-IsIndexed :
    (bytes : Bytes) (source_offset : ℕ) (is_stderr : Bool) (origin : ContentOrigin)
    (b : PagerBuffer)
    → IsIndexed b
    → IsIndexed (append_text_at_source_offset bytes source_offset is_stderr origin b)
unfolding append_text_at_source_offset append_bytes_at_source_offset
append_text-IsIndexed bytes source_offset is_stderr origin b v =
    let a = append_bytes-IsIndexed bytes (λ _. source_offset) b v in
    let after = append_bytes_with_source_offsets bytes (λ _. source_offset) b in
    elim (Bool-cases (ltb (len b) (len after))) [
      | inl e ↦ rw e (with_spans-IsIndexed after _ a.0 ((a.1, omega arith), tt))
      | inr e ↦ rw e a.0
    ]

slice_spans_bounds :
    (start end base : ℕ) (index : List ℕ) (spans : List OutputTextSpan)
    → All
        (λ s. (s.start ≤ s.end) × (s.end ≤ base + (length index - 1)))
        (slice_spans start end base index spans)
unfolding slice_spans
slice_spans_bounds start end base index [] = tt
slice_spans_bounds start end base index (x ∷ xs) =
    let from = max x.start_byte start - start in
    let to = min x.end_byte end - start in
    ground (
      arith,
      slice_spans_bounds start end base index xs,
      char_offset-le index to,
      char_offset_mono index from to,
    )

filled-is_empty : (xs : Bytes) → 0 < length xs → is_empty xs ≡ false
filled-is_empty [] h = absurd (omega arith)
filled-is_empty (x ∷ xs) h = refl

slice-filled :
    (bytes : Bytes) (start end : ℕ)
    → (leb end start || ltb (length bytes) end) ≡ false
    → is_empty (take (end - start) (drop start bytes)) ≡ false
slice-filled bytes start end e =
    filled-is_empty (take (end - start) (drop start bytes))
      (ground (arith, e, length-take (end - start) (drop start bytes), length-drop start bytes))

append_raw_slice-IsIndexed :
    (bytes : Bytes) (start end source_base : ℕ) (spans : List OutputTextSpan) (b : PagerBuffer)
    → IsIndexed b
    → IsIndexed (append_raw_slice bytes start end source_base spans b)
unfolding append_raw_slice
append_raw_slice-IsIndexed bytes start end source_base spans b v =
    let slice = take (end - start) (drop start bytes) in
    let offset_of : ℕ → ℕ =
      λ byte_offset. saturating_add source_base (saturating_add start byte_offset) in
    let after = append_bytes_with_source_offsets slice offset_of b in
    let a = append_bytes-IsIndexed slice offset_of b v in
    elim (Bool-cases (leb end start || ltb (length bytes) end)) [
      | inl e ↦ rw e v
      | inr e ↦ rw e (
          with_spans-IsIndexed after _ a.0 (
            subst
              (λ n.
                All (λ s. (s.start ≤ s.end) × (s.end ≤ n))
                  (slice_spans start end (len b) (build_char_index slice) spans))
              (sym (a.2 (slice-filled bytes start end e)))
              (slice_spans_bounds start end (len b) (build_char_index slice) spans)))
    ]

append_event-IsIndexed :
    (offset : ℕ) (kind : OutputEventKind) (b : PagerBuffer)
    → IsIndexed b
    → IsIndexed (append_event offset kind b)
unfolding append_event
append_event-IsIndexed offset (text t is_stderr origin) b v =
    append_text-IsIndexed t offset is_stderr origin b v
append_event-IsIndexed offset (input_echo echo) b v = push_event-IsIndexed (input_echo echo) b v
append_event-IsIndexed offset (image id payload mime_type is_new) b v =
    push_event-IsIndexed (image id payload mime_type is_new) b v
append_event-IsIndexed offset input_wait b v = push_event-IsIndexed input_wait b v
append_event-IsIndexed offset request_boundary b v = push_event-IsIndexed request_boundary b v
append_event-IsIndexed offset session_end b v = push_event-IsIndexed session_end b v

append_events-IsIndexed :
    (range : OutputRange) (at : ℕ) (events : List OutputEvent) (b : PagerBuffer)
    → IsIndexed b
    → IsIndexed (append_events range at events b)
unfolding append_events
append_events-IsIndexed range at [] b v =
    append_raw_slice-IsIndexed range.bytes at (length range.bytes) range.start_offset
      range.text_spans b v
append_events-IsIndexed range at (e ∷ es) b v =
    let relative = min (e.offset - range.start_offset) (length range.bytes) in
    append_events-IsIndexed range relative es _ (
      append_event-IsIndexed e.offset e.kind _ (
        append_raw_slice-IsIndexed range.bytes at relative range.start_offset range.text_spans b v))

append_gap_notice-IsIndexed :
    (start_offset : ℕ) (b : PagerBuffer)
    → IsIndexed b
    → IsIndexed (append_gap_notice start_offset b)
unfolding append_gap_notice
append_gap_notice-IsIndexed start_offset b v = elim (Bool-cases (ltb b.source_end start_offset)) [
  | inl e ↦ rw e (
      with_source_end-IsIndexed _ start_offset
        (append_text-IsIndexed _ b.source_end true server b v))
  | inr e ↦ rw e v
]

-- Appending a range of output keeps every index of a pager buffer in bounds: the byte positions of
-- the characters ascend and stay within the bytes, there is a source offset for each of them, and
-- the ends of lines, the events, the spans (each not reversed) and the cursor lie within the
-- characters.
pub append_timeline_range-IsIndexed :
    (range : OutputRange) (b : PagerBuffer)
    → IsIndexed b
    → IsIndexed (append_timeline_range range b)
unfolding append_timeline_range
append_timeline_range-IsIndexed range b v =
    let noted = append_gap_notice-IsIndexed range.start_offset b v in
    let events = sort_events (events_within range.start_offset range.end_offset range.events) in
    elim (Bool-cases (is_empty range.bytes && is_empty range.events)) [
      | inl e ↦ rw e (with_source_end-IsIndexed _ _ noted)
      | inr e ↦
          rw e (with_source_end-IsIndexed _ _ (append_events-IsIndexed range 0 events _ noted))
    ]
