-- ===== src/Capture/Ring/Read.antt =====
-- `OutputRing` of src/output_capture.rs: reading a range of offsets.
use mcp_repl.Prelude.{
  ℕ, ◌-◌, min, max, ltb, leb, ◌==◌, Bool, true, false, ◌&&◌, ◌||◌, none, some, if◌then◌else◌, List,
  [], ◌∷◌, ◌++◌, take, drop, any, get_last?, drop_last, saturating_add,
}
use mcp_repl.Capture.Types.{
  bool_eq, origin_eq, source_eq, Bytes, OutputEvent, OutputEventKind, image, text, ContentOrigin,
  OutputTextSource, OutputChunk, chunk_len, chunk_end,
}
use mcp_repl.Capture.Ring.State.{OutputRingInner}

pub record OutputSlice : Type 0 where
  pub bytes : Bytes
  pub range_start : ℕ
  pub range_end : ℕ
  pub is_stderr : Bool
  pub origin : ContentOrigin
  pub source : OutputTextSource

pub record OutputTextSpan : Type 0 where
  pub start_byte : ℕ
  pub end_byte : ℕ
  pub is_stderr : Bool
  pub origin : ContentOrigin
  pub source : OutputTextSource

pub record OutputRange : Type 0 where
  pub start_offset : ℕ
  pub end_offset : ℕ
  pub bytes : Bytes
  pub events : List OutputEvent
  pub text_spans : List OutputTextSpan

abbrev pub slice_of : OutputChunk → ℕ → ℕ → OutputSlice
slice_of c from to = record {
  bytes = c.bytes;
  range_start = from;
  range_end = to;
  is_stderr = c.is_stderr;
  origin = c.origin;
  source = c.source;
}

-- The slices of the chunks between `from` and `to`: the first loop of `collect_range`.
unfoldable pub collect_slices : ℕ → ℕ → List OutputChunk → List OutputSlice
collect_slices from to [] = []
collect_slices from to (c ∷ cs) =
    let rest = collect_slices from to cs in
    let slice_start_offset = from - c.start_offset in
    let slice_end_offset = min (to - c.start_offset) (chunk_len c) in
    let slice_start = saturating_add c.range_start slice_start_offset in
    let slice_end = saturating_add c.range_start slice_end_offset in
    if leb to c.start_offset
    then []
    else if leb (chunk_end c) from || leb slice_end_offset slice_start_offset
    then rest
    else if leb slice_end slice_start || ltb c.range_end slice_end
    then rest
    else slice_of c slice_start slice_end ∷ rest

-- The events between `from` and `to`, both ends included: the second loop.
unfoldable pub collect_events : ℕ → ℕ → List OutputEvent → List OutputEvent
collect_events from to [] = []
collect_events from to (e ∷ es) =
    let rest = collect_events from to es in
    if ltb e.offset from then rest else if ltb to e.offset then [] else e ∷ rest

pub record CollectedRange : Type 0 where
  pub slices : List OutputSlice
  pub events : List OutputEvent
  pub start_offset : ℕ
  pub end_offset : ℕ

-- Every caller gives an end.
unfoldable pub collect_range : ℕ → ℕ → OutputRingInner → CollectedRange
collect_range start_offset end_offset g =
    let to = min end_offset g.end_offset in
    let from = max start_offset g.start_offset in
    record {
      slices = if ltb from to then collect_slices from to g.chunks else [];
      events = if leb from to then collect_events from to g.events else [];
      start_offset = from;
      end_offset = to;
    }

-- `&slice.bytes[slice.range]`.
abbrev pub slice_bytes : OutputSlice → Bytes
slice_bytes s = take (s.range_end - s.range_start) (drop s.range_start s.bytes)

unfoldable pub assemble_bytes : List OutputSlice → Bytes
assemble_bytes [] = []
assemble_bytes (s ∷ ss) = slice_bytes s ++ assemble_bytes ss

abbrev span_of : OutputSlice → ℕ → ℕ → OutputTextSpan
span_of s start_byte end_byte = record {
  start_byte = start_byte;
  end_byte = end_byte;
  is_stderr = s.is_stderr;
  origin = s.origin;
  source = s.source;
}

abbrev continues : OutputTextSpan → OutputSlice → ℕ → Bool
continues l s start_byte =
    bool_eq l.is_stderr s.is_stderr
    && (origin_eq l.origin s.origin && (source_eq l.source s.source && l.end_byte == start_byte))

-- A slice lengthens the last span if that has its tags and ends where it starts.
unfoldable pub push_span : List OutputTextSpan → OutputSlice → ℕ → ℕ → List OutputTextSpan
push_span spans s start_byte end_byte = elim (get_last? spans) [
  | none ↦ spans ++ (span_of s start_byte end_byte ∷ [])
  | some l ↦
      if continues l s start_byte
      then drop_last spans ++ (record l { end_byte = end_byte } ∷ [])
      else spans ++ (span_of s start_byte end_byte ∷ [])
]

unfoldable pub build_spans : List OutputTextSpan → ℕ → List OutputSlice → List OutputTextSpan
build_spans spans cursor [] = spans
build_spans spans cursor (s ∷ ss) =
    let slice_len = s.range_end - s.range_start in
    let end_byte = saturating_add cursor slice_len in
    let skipped = build_spans spans cursor ss in
    let pushed = build_spans (push_span spans s cursor end_byte) end_byte ss in
    if slice_len == 0 then skipped else pushed

unfoldable pub read_range : ℕ → ℕ → OutputRingInner → OutputRange
read_range start_offset end_offset g =
    let c = collect_range start_offset end_offset g in
    record {
      start_offset = c.start_offset;
      end_offset = c.end_offset;
      bytes = assemble_bytes c.slices;
      events = c.events;
      text_spans = build_spans [] 0 c.slices;
    }

unfoldable pub saw_stderr_loop : ℕ → ℕ → List OutputChunk → Bool
saw_stderr_loop from to [] = false
saw_stderr_loop from to (c ∷ cs) =
    let rest = saw_stderr_loop from to cs in
    if leb to c.start_offset
    then false
    else if leb (chunk_end c) from
    then rest
    else if c.is_stderr
    then true
    else rest

unfoldable pub saw_stderr_in_range : ℕ → ℕ → OutputRingInner → Bool
saw_stderr_in_range start_offset end_offset g =
    let to = min end_offset g.end_offset in
    if leb to start_offset
    then false
    else saw_stderr_loop (max start_offset g.start_offset) to g.chunks

abbrev is_materialized : OutputEventKind → Bool
is_materialized (image a b c d) = true
is_materialized (text a b c) = true
is_materialized _ = false

unfoldable pub has_materialized_events_at_or_after : ℕ → OutputRingInner → Bool
has_materialized_events_at_or_after offset g =
    any (λ (e : OutputEvent). leb offset e.offset && is_materialized e.kind) g.events
