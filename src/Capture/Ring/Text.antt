-- ===== src/Capture/Ring/Text.antt =====
-- `OutputRing::append_bytes_with_source` of src/output_capture.rs. Bytes enter in chunks; each
-- round of the loops takes at least one byte, so the number of bytes is enough fuel. The source takes
-- the ring's lock anew for each chunk; here a call is not interrupted.
use mcp_repl.Prelude.{
  ℕ, zero, suc, ◌-◌, min, ltb, leb, ◌==◌, Bool, true, false, ◌||◌, if◌then◌else◌, [], ◌∷◌, is_empty,
  length, take, drop, saturating_add,
}
use mcp_repl.Capture.Types.{Bytes, ContentOrigin, OutputTextSource}
use mcp_repl.Capture.Ring.State.{OutputRingInner, total_buffered_bytes, note_progress}
use mcp_repl.Capture.Ring.Room.{dropped_visible, drop_input_echoes_for_room, make_room_for}
use mcp_repl.Capture.Ring.Append.{
  OutputRetention, OutputRing, tail, head, output_ring_append_chunk_len, append_chunk_locked,
  append_truncation_notice_locked, append_omission_notice_locked,
  head_omission_notice_reserve_locked,
}

-- What the head-retaining branches do twice: drop echoes, and note it if any were dropped.
unfoldable pub drop_echoes_noting : ℕ → OutputRetention → ℕ → ℕ → OutputRingInner → OutputRingInner
drop_echoes_noting capacity retention needed limit g =
    let r = drop_input_echoes_for_room needed limit g in
    if ltb 0 r.0 then append_omission_notice_locked capacity retention r.1 else r.1

module _ (capacity : ℕ) (is_stderr : Bool) (origin : ContentOrigin)
    (source : OutputTextSource) where
  -- One round of the tail-retaining loop.
  unfoldable pub append_tail_chunk : Bytes → OutputRingInner → Bool × OutputRingInner
  append_tail_chunk bytes g =
      let r = make_room_for (length bytes) capacity g in
      (dropped_visible r.0, append_chunk_locked bytes is_stderr origin source r.1)

  unfoldable pub append_tail_loop : ℕ → ℕ → Bytes → Bool → OutputRingInner → Bool × OutputRingInner
  append_tail_loop zero max_chunk_len remaining dropped_any g = (dropped_any, g)
  append_tail_loop (suc fuel) max_chunk_len [] dropped_any g = (dropped_any, g)
  append_tail_loop (suc fuel) max_chunk_len (b ∷ bs) dropped_any g =
      let n = min (length (b ∷ bs)) max_chunk_len in
      let r = append_tail_chunk (take n (b ∷ bs)) g in
      append_tail_loop fuel max_chunk_len (drop n (b ∷ bs)) (dropped_any || r.0) r.1

  unfoldable pub append_bytes_retaining_tail : Bytes → OutputRingInner → OutputRingInner
  append_bytes_retaining_tail bytes g =
      let r =
        append_tail_loop (length bytes) (output_ring_append_chunk_len capacity) bytes false g in
      if r.0 then append_truncation_notice_locked capacity r.1.end_offset 0 r.1 else r.1

  -- One round of the head-retaining loop on the next `n` bytes, of `incoming` that are left:
  -- does the loop go on, and the state.
  unfoldable pub append_head_chunk : Bytes → ℕ → OutputRingInner → Bool × OutputRingInner
  append_head_chunk bytes incoming g =
      let g1 = drop_echoes_noting capacity head incoming capacity g in
      let effective = capacity - head_omission_notice_reserve_locked capacity head g1 in
      let g2 = drop_echoes_noting capacity head incoming effective g1 in
      let available = effective - total_buffered_bytes g2 in
      let retained_len = min (length bytes) available in
      let g3 = append_chunk_locked (take retained_len bytes) is_stderr origin source g2 in
      if leb (saturating_add (total_buffered_bytes g1) incoming) capacity
      then (true, append_chunk_locked bytes is_stderr origin source g1)
      else if available == 0
      then (false, append_omission_notice_locked capacity head g2)
      else if ltb retained_len (length bytes)
      then (false, append_omission_notice_locked capacity head g3)
      else (true, g3)

  unfoldable pub append_head_loop : ℕ → ℕ → Bytes → OutputRingInner → OutputRingInner
  append_head_loop zero max_chunk_len remaining g = g
  append_head_loop (suc fuel) max_chunk_len [] g = g
  append_head_loop (suc fuel) max_chunk_len (b ∷ bs) g =
      let n = min (length (b ∷ bs)) max_chunk_len in
      let r = append_head_chunk (take n (b ∷ bs)) (length (b ∷ bs)) g in
      let more = append_head_loop fuel max_chunk_len (drop n (b ∷ bs)) r.1 in
      if r.0 then more else r.1

  unfoldable pub append_bytes_retaining_head : Bytes → OutputRingInner → OutputRingInner
  append_bytes_retaining_head bytes g =
      append_head_loop (length bytes) (output_ring_append_chunk_len capacity) bytes g

unfoldable pub append_bytes_with_source :
    Bytes → Bool → ContentOrigin → OutputTextSource → OutputRing → OutputRing
append_bytes_with_source bytes is_stderr origin source r =
    let g = note_progress r.inner in
    if is_empty bytes then r else record r {
      inner = elim r.retention [
        | tail ↦ append_bytes_retaining_tail r.capacity_bytes is_stderr origin source bytes g
        | head ↦ append_bytes_retaining_head r.capacity_bytes is_stderr origin source bytes g
      ];
    }
