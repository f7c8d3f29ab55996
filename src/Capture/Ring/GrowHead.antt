-- ===== src/Capture/Ring/GrowHead.antt =====
-- The head-retaining appends of src/output_capture.rs keep the ring sound and within its capacity.
use mcp_repl.Prelude.{
  ℕ, zero, suc, ◌+◌, ◌-◌, ◌≤◌, Bool, false, [], ◌∷◌, length, min, max, take, drop, length-take,
  length-drop, u64_max, isize_max, arith,
}
use mcp_repl.Capture.Types.{
  Bytes, ContentOrigin, OutputTextSource, OutputEventKind, event_size_bytes,
}
use mcp_repl.Capture.Ring.State.{OutputRingInner, note_progress, total_buffered_bytes}
use mcp_repl.Capture.Ring.Room.{drop_input_echoes_for_room, trim_tail_for_room, retained_end_offset}
use mcp_repl.Capture.Ring.Append.{
  OutputRetention, head, append_chunk_locked, append_omission_notice_locked, omission_notice_kind,
  head_omission_notice_reserve_locked, output_ring_append_chunk_len,
}
use mcp_repl.Capture.Ring.Text.{
  drop_echoes_noting, append_head_chunk, append_head_loop, append_bytes_retaining_head,
}
use mcp_repl.Capture.Ring.Events.{append_visible_head, append_echo_head}
use mcp_repl.Capture.Ring.Invariant.{Fits}
use mcp_repl.Capture.Ring.Cleanup.{drop_input_echoes_for_room-Frame}
use mcp_repl.Capture.Ring.TrimTail.{trim_tail_for_room-Cut}
use mcp_repl.Capture.Ring.Grow.{
  push_event-IsSound, push_event_same, note_progress-IsSound, note_progress_same,
  append_chunk_locked-IsSound,
}

-- What an append may do: the state still fits, and the end moves on by no more than `added`.
pub record Safe (tight : Bool) (capacity added : ℕ) (g g' : OutputRingInner) : Type 0 where
  pub fits : Fits tight capacity g'
  pub end_le : g'.end_offset ≤ g.end_offset + added
  pub end_ge : g.end_offset ≤ g'.end_offset
  pub start_le : g.start_offset ≤ g'.start_offset

pub append_omission_notice_locked-Safe :
    (capacity : ℕ) (retention : OutputRetention) (g : OutputRingInner)
    → capacity ≤ isize_max
    → Fits false capacity g
    → Safe false capacity 0 g (append_omission_notice_locked capacity retention g)
unfolding append_omission_notice_locked
append_omission_notice_locked-Safe capacity retention g c s =
    let needed = event_size_bytes omission_notice_kind in
    let g1 = trim_tail_for_room needed capacity g in
    let g2 = note_progress g1 in
    ground (
      arith,
      trim_tail_for_room-Cut needed capacity g,
      note_progress-IsSound false g1,
      note_progress_same g1,
      push_event-IsSound false (retained_end_offset g1) omission_notice_kind g2,
      push_event_same (retained_end_offset g1) omission_notice_kind g2,
    )

pub drop_echoes_noting-Safe :
    (capacity : ℕ) (retention : OutputRetention) (needed limit : ℕ) (g : OutputRingInner)
    → capacity ≤ isize_max
    → Fits false capacity g
    → Safe false capacity 0 g (drop_echoes_noting capacity retention needed limit g)
unfolding drop_echoes_noting
drop_echoes_noting-Safe capacity retention needed limit g c s =
    let g1 = (drop_input_echoes_for_room needed limit g).1 in
    ground (
      arith,
      drop_input_echoes_for_room-Frame needed limit g,
      append_omission_notice_locked-Safe capacity retention g1,
    )

pub append_visible_head-Safe :
    (capacity : ℕ) (kind : OutputEventKind) (g : OutputRingInner)
    → capacity ≤ isize_max
    → event_size_bytes kind ≤ capacity
    → Fits false capacity g
    → Safe false capacity 0 g (append_visible_head capacity kind g)
unfolding append_visible_head
append_visible_head-Safe capacity kind g c n s =
    let size = event_size_bytes kind in
    let g1 = drop_echoes_noting capacity head size capacity g in
    let limit = capacity - head_omission_notice_reserve_locked capacity head g1 in
    let g2 = drop_echoes_noting capacity head size limit g1 in
    let offset = max g.end_offset g.start_offset in
    let one = drop_echoes_noting-Safe capacity head size capacity g c s in
    let two = drop_echoes_noting-Safe capacity head size limit g1 c one.fits in
    ground (
      arith,
      one,
      two,
      append_omission_notice_locked-Safe capacity head g2,
      push_event-IsSound false offset kind g1,
      push_event_same offset kind g1,
      push_event-IsSound false offset kind g2,
      push_event_same offset kind g2,
    )

pub append_echo_head-Safe :
    (capacity : ℕ) (kind : OutputEventKind) (g : OutputRingInner)
    → capacity ≤ isize_max
    → Fits false capacity g
    → Safe false capacity 0 g (append_echo_head capacity kind g)
unfolding append_echo_head
append_echo_head-Safe capacity kind g c s =
    let offset = max g.end_offset g.start_offset in
    ground (
      arith,
      append_omission_notice_locked-Safe capacity head g,
      push_event-IsSound false offset kind g,
      push_event_same offset kind g,
    )

module _ (capacity : ℕ) (is_stderr : Bool) (origin : ContentOrigin)
    (source : OutputTextSource) where
  pub append_head_chunk-Safe :
      (bytes : Bytes) (incoming : ℕ) (g : OutputRingInner)
      → capacity ≤ isize_max
      → length bytes ≤ incoming
      → g.end_offset + length bytes ≤ u64_max
      → Fits false capacity g
      → Safe false capacity
          (length bytes)
          g
          (append_head_chunk capacity is_stderr origin source bytes incoming g).1
  unfolding append_head_chunk
  append_head_chunk-Safe bytes incoming g c n h s =
      let g1 = drop_echoes_noting capacity head incoming capacity g in
      let effective = capacity - head_omission_notice_reserve_locked capacity head g1 in
      let g2 = drop_echoes_noting capacity head incoming effective g1 in
      let kept = min (length bytes) (effective - total_buffered_bytes g2) in
      let g3 = append_chunk_locked (take kept bytes) is_stderr origin source g2 in
      let one = drop_echoes_noting-Safe capacity head incoming capacity g c s in
      let two = drop_echoes_noting-Safe capacity head incoming effective g1 c one.fits in
      ground (
        arith,
        one,
        two,
        length-take kept bytes,
        append_chunk_locked-IsSound false bytes is_stderr origin source g1,
        append_chunk_locked-IsSound false (take kept bytes) is_stderr origin source g2,
        append_omission_notice_locked-Safe capacity head g2,
        append_omission_notice_locked-Safe capacity head g3,
      )

  append_head_loop-Safe :
      (fuel max_len : ℕ) (bytes : Bytes) (g : OutputRingInner)
      → capacity ≤ isize_max
      → g.end_offset + length bytes ≤ u64_max
      → Fits false capacity g
      → Safe false capacity
          (length bytes)
          g
          (append_head_loop capacity is_stderr origin source fuel max_len bytes g)
  unfolding append_head_loop
  append_head_loop-Safe zero max_len bytes g c h s = ground arith
  append_head_loop-Safe (suc fuel) max_len [] g c h s = ground arith
  append_head_loop-Safe (suc fuel) max_len (b ∷ bs) g c h s =
      let n = min (length (b ∷ bs)) max_len in
      let r =
        append_head_chunk capacity is_stderr origin source (take n (b ∷ bs)) (length (b ∷ bs)) g in
      let lt = length-take n (b ∷ bs) in
      let ld = length-drop n (b ∷ bs) in
      let one =
        append_head_chunk-Safe (take n (b ∷ bs)) (length (b ∷ bs)) g c (omega arith) (omega arith)
          s in
      let rest =
        append_head_loop-Safe fuel max_len (drop n (b ∷ bs)) r.1 c (omega arith) one.fits in
      ground (arith, one, rest, lt, ld)

  pub append_bytes_retaining_head-Safe :
      (bytes : Bytes) (g : OutputRingInner)
      → capacity ≤ isize_max
      → g.end_offset + length bytes ≤ u64_max
      → Fits false capacity g
      → Safe false capacity
          (length bytes)
          g
          (append_bytes_retaining_head capacity is_stderr origin source bytes g)
  unfolding append_bytes_retaining_head
  append_bytes_retaining_head-Safe bytes g c h s =
      append_head_loop-Safe (length bytes) (output_ring_append_chunk_len capacity) bytes g c h s
