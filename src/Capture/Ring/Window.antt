-- ===== src/Capture/Ring/Window.antt =====
-- The text of a tail-retaining ring (src/output_capture.rs) is the end of all that was appended.
use mcp_repl.Prelude.{
  if◌then◌else◌, ℕ, zero, suc, ◌+◌, ◌-◌, ◌≤◌, ◌<◌, ◌≡◌, refl, sym, ◌∙◌, ap, Bool, true, false, ◌||◌,
  [], ◌∷◌, ◌++◌, append-nil, length, min, drop, take, arith, length-take, length-drop,
  drop-append_le, take-append-drop, take-length, u64_max,
}
use mathlib.Core.Path.{subst}
use mcp_repl.Capture.Types.{Bytes, ContentOrigin, OutputTextSource}
use mcp_repl.Capture.Ring.State.{OutputRingInner, note_progress}
use mcp_repl.Capture.Ring.Room.{make_room_for}
use mcp_repl.Capture.Ring.Append.{
  OutputRing, tail, append_chunk_locked, append_truncation_notice_locked,
  output_ring_append_chunk_len,
}
use mcp_repl.Capture.Ring.Text.{
  append_tail_chunk, append_tail_loop, append_bytes_retaining_tail, append_bytes_with_source,
}
use mcp_repl.Capture.Ring.Invariant.{retained, retained-append, IsSound, Fits, IsChain-le}
use mcp_repl.Capture.Ring.MakeRoom.{make_room_for-Made}
use mcp_repl.Capture.Ring.Contents.{Later-refl}
use mcp_repl.Capture.Ring.Grow.{note_progress_same, append_truncation_notice_locked-Made}
use mcp_repl.Capture.Ring.Run.{IsRing}
use mcp_repl.Capture.Ring.Preserve.{note_progress-Fits}
use mcp_repl.Capture.Ring.GrowText.{
  output_ring_append_chunk_len_bounds, append_tail_chunk-Grown, append_tail_loop-Grown,
}
use mcp_repl.Capture.Ring.RoomText.{make_room_for-Later, append_truncation_notice_locked-Later}
use mcp_repl.Capture.Ring.Extend.{Extended, Extended-trans, Later-Extended, span-eq}

append_chunk_locked-text :
    (bytes : Bytes) (is_stderr : Bool) (origin : ContentOrigin) (source : OutputTextSource)
    (g : OutputRingInner)
    → retained (append_chunk_locked bytes is_stderr origin source g).chunks
      ≡ retained g.chunks ++ bytes
unfolding append_chunk_locked
append_chunk_locked-text [] is_stderr origin source g = sym (append-nil (retained g.chunks))
append_chunk_locked-text (b ∷ bs) is_stderr origin source g =
    retained-append g.chunks _
    ∙ ap (λ t. retained g.chunks ++ t)
        (append-nil _ ∙ take-length (length (b ∷ bs) - 0) (b ∷ bs) (omega arith))

append_chunk_locked-start :
    (bytes : Bytes) (is_stderr : Bool) (origin : ContentOrigin) (source : OutputTextSource)
    (g : OutputRingInner)
    → (append_chunk_locked bytes is_stderr origin source g).start_offset ≡ g.start_offset
unfolding append_chunk_locked
append_chunk_locked-start [] is_stderr origin source g = refl
append_chunk_locked-start (b ∷ bs) is_stderr origin source g = refl

module _ (capacity : ℕ) (is_stderr : Bool) (origin : ContentOrigin)
    (source : OutputTextSource) where
  append_tail_chunk_lem :
      (bytes : Bytes) (g : OutputRingInner)
      → let g1 = (make_room_for (length bytes) capacity g).1 in
        let g' = (append_tail_chunk capacity is_stderr origin source bytes g).1 in
        (retained g'.chunks ≡ retained g1.chunks ++ bytes) × (g'.start_offset ≡ g1.start_offset)
  unfolding append_tail_chunk
  append_tail_chunk_lem bytes g =
      let g1 = (make_room_for (length bytes) capacity g).1 in
      (
        append_chunk_locked-text bytes is_stderr origin source g1,
        append_chunk_locked-start bytes is_stderr origin source g1,
      )

  append_tail_chunk-Extended :
      (bytes : Bytes) (g : OutputRingInner)
      → length bytes ≤ capacity
      → capacity < u64_max
      → IsSound true g
      → g.end_offset + length bytes ≤ u64_max
      → Extended bytes g (append_tail_chunk capacity is_stderr origin source bytes g).1
  append_tail_chunk-Extended bytes g n c s h =
      let g1 = (make_room_for (length bytes) capacity g).1 in
      let g' = (append_tail_chunk capacity is_stderr origin source bytes g).1 in
      let m = make_room_for-Made true (length bytes) capacity g n c s in
      let l = make_room_for-Later (length bytes) capacity g s in
      let grown = append_tail_chunk-Grown true capacity is_stderr origin source bytes g n c s h in
      let d = g1.start_offset - g.start_offset in
      let span = span-eq g s in
      let chain = IsChain-le true g1.start_offset g1.end_offset g1.chunks (m.sound).chain in
      let chain' =
        IsChain-le true g'.start_offset g'.end_offset g'.chunks (grown.fits.sound).chain in
      let appended = append_tail_chunk_lem bytes g in
      record {
        start_le = grown.start_le;
        within = omega (arith, chain', grown.end_eq);
        end_eq = grown.end_eq;
        text =
            appended.0
            ∙ (ap (λ t. t ++ bytes) l.text
                ∙ (sym (
                      drop-append_le d (retained g.chunks) bytes
                        (omega (arith, span, chain, m.same_end)))
                    ∙ ap (λ j. drop (j - g.start_offset) (retained g.chunks ++ bytes))
                        (sym appended.1)));
      }

  append_tail_loop-Extended :
      (fuel max_len : ℕ) (bytes : Bytes) (dropped : Bool) (g : OutputRingInner)
      → length bytes ≤ fuel
      → 0 < max_len
      → max_len ≤ capacity
      → capacity < u64_max
      → Fits true capacity g
      → g.end_offset + length bytes ≤ u64_max
      → Extended bytes g
          (append_tail_loop capacity is_stderr origin source fuel max_len bytes dropped g).1
  unfolding append_tail_loop
  append_tail_loop-Extended zero max_len [] dropped g f p q c s h =
      Later-Extended s.sound refl (Later-refl g)
  append_tail_loop-Extended (suc fuel) max_len [] dropped g f p q c s h =
      Later-Extended s.sound refl (Later-refl g)
  append_tail_loop-Extended zero max_len (b ∷ bs) dropped g f p q c s h = absurd (omega arith)
  append_tail_loop-Extended (suc fuel) max_len (b ∷ bs) dropped g f p q c s h =
      let n = min (length (b ∷ bs)) max_len in
      let x = take n (b ∷ bs) in
      let y = drop n (b ∷ bs) in
      let r = append_tail_chunk capacity is_stderr origin source x g in
      let lt = length-take n (b ∷ bs) in
      let ld = length-drop n (b ∷ bs) in
      let grown =
        append_tail_chunk-Grown true capacity is_stderr origin source x g (omega arith) c s.sound
          (omega arith) in
      let one = append_tail_chunk-Extended x g (omega arith) c s.sound (omega arith) in
      let rest =
        append_tail_loop-Extended fuel max_len y (dropped || r.0) r.1 (omega arith) p q c grown.fits
          (omega (arith, grown.end_eq)) in
      subst
        (λ t.
          Extended t g
            (append_tail_loop capacity is_stderr origin source fuel max_len y (dropped || r.0)
              r.1).1)
        (take-append-drop n (b ∷ bs)) (Extended-trans x y s.sound one rest)

append_bytes_retaining_tail-Extended :
    (capacity : ℕ) (is_stderr : Bool) (origin : ContentOrigin) (source : OutputTextSource)
    (bytes : Bytes) (g : OutputRingInner)
    → 0 < capacity
    → capacity < u64_max
    → Fits true capacity g
    → g.end_offset + length bytes ≤ u64_max
    → Extended bytes g (append_bytes_retaining_tail capacity is_stderr origin source bytes g)
unfolding append_bytes_retaining_tail
append_bytes_retaining_tail-Extended capacity is_stderr origin source bytes g p c s h =
    let m = output_ring_append_chunk_len capacity in
    let r = append_tail_loop capacity is_stderr origin source (length bytes) m bytes false g in
    let b = output_ring_append_chunk_len_bounds capacity p in
    let grown =
      append_tail_loop-Grown true capacity is_stderr origin source (length bytes) m bytes false g
        (omega arith) b.0 b.1 c s h in
    let one =
      append_tail_loop-Extended capacity is_stderr origin source (length bytes) m bytes false g
        (omega arith) b.0 b.1 c s h in
    let made =
      append_truncation_notice_locked-Made true capacity (r.1).end_offset 0 r.1 c grown.fits.sound
        (omega (arith, grown.fits.bounded)) in
    let noted =
      Later-Extended made.sound made.same_end
        (append_truncation_notice_locked-Later capacity (r.1).end_offset 0 r.1 grown.fits.sound) in
    noticed r one (
      subst (λ t. Extended t g (append_truncation_notice_locked capacity (r.1).end_offset 0 r.1))
        (append-nil bytes) (Extended-trans bytes [] s.sound one noted))
  where
    noticed :
        (r : Bool × OutputRingInner)
        → Extended bytes g r.1
        → Extended bytes g (append_truncation_notice_locked capacity (r.1).end_offset 0 r.1)
        → Extended bytes g
            (if r.0 then append_truncation_notice_locked capacity (r.1).end_offset 0 r.1 else r.1)
    noticed (true, k) a b = b
    noticed (false, k) a b = a

note_progress-Extended :
    (bytes : Bytes) (g : OutputRingInner) {g' : OutputRingInner}
    → Extended bytes (note_progress g) g'
    → Extended bytes g g'
unfolding note_progress
note_progress-Extended bytes g e = record {
  start_le = e.start_le;
  within = e.within;
  end_eq = e.end_eq;
  text = e.text;
}

-- A tail-retaining ring that is sound and within its capacity, after append_bytes_with_source of
-- bytes with which the end stays within u64: its end has moved on by the length of the bytes, its
-- start has not moved back nor past the end, and the text that it holds is the old text followed by
-- the bytes, less what stood before the new start.
pub append_bytes_with_source-text :
    (bytes : Bytes) (is_stderr : Bool) (origin : ContentOrigin) (source : OutputTextSource)
    (r : OutputRing)
    → IsRing r
    → r.retention ≡ tail
    → r.inner.end_offset + length bytes ≤ u64_max
    → let g = r.inner in
      let g' = (append_bytes_with_source bytes is_stderr origin source r).inner in
      (g'.end_offset ≡ g.end_offset + length bytes)
      × (g.start_offset ≤ g'.start_offset)
      × (g'.start_offset ≤ g'.end_offset)
      × (retained g'.chunks ≡ drop (g'.start_offset - g.start_offset) (retained g.chunks ++ bytes))
unfolding append_bytes_with_source
append_bytes_with_source-text [] is_stderr origin source r v t h =
    let fits : Fits true r.capacity_bytes r.inner = rw t at (v.fits) in
    let e = Later-Extended (fits.sound) refl (Later-refl r.inner) in
    (e.end_eq, e.start_le, omega (arith, e.within), e.text)
append_bytes_with_source-text (b ∷ bs) is_stderr origin source r v t h =
    let fits : Fits true r.capacity_bytes r.inner = rw t at (v.fits) in
    let g = note_progress r.inner in
    let same = note_progress_same r.inner in
    let e = note_progress-Extended (b ∷ bs) r.inner (
      append_bytes_retaining_tail-Extended r.capacity_bytes is_stderr origin source (b ∷ bs) g
        v.positive (omega (arith, v.allocatable))
        (note_progress-Fits true r.capacity_bytes r.inner fits) (omega (arith, same.0.2))) in
    rw t (e.end_eq, e.start_le, omega (arith, e.within, e.end_eq), e.text)
