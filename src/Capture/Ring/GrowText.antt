-- ===== src/Capture/Ring/GrowText.antt =====
-- The tail-retaining appends of src/output_capture.rs keep the ring sound and within its capacity.
use mcp_repl.Prelude.{
  ℕ, zero, suc, ◌+◌, ◌≤◌, ◌<◌, ◌≡◌, Bool, false, ◌||◌, [], ◌∷◌, length, min, max, take, drop,
  length-take, length-drop, u64_max, arith,
}
use mcp_repl.Capture.Types.{
  Bytes, ContentOrigin, OutputTextSource, OutputEventKind, event_size_bytes,
}
use mcp_repl.Capture.Ring.State.{OutputRingInner}
use mcp_repl.Capture.Ring.Room.{make_room_for}
use mcp_repl.Capture.Ring.Append.{append_truncation_notice_locked, output_ring_append_chunk_len}
use mcp_repl.Capture.Ring.Text.{append_tail_chunk, append_tail_loop, append_bytes_retaining_tail}
use mcp_repl.Capture.Ring.Events.{append_visible_tail}
use mcp_repl.Capture.Ring.Invariant.{IsSound, Fits}
use mcp_repl.Capture.Ring.MakeRoom.{make_room_for-Made}
use mcp_repl.Capture.Ring.Grow.{
  push_event-IsSound, push_event_same, append_chunk_locked-IsSound,
  append_truncation_notice_locked-Made,
}

pub output_ring_append_chunk_len_bounds :
    (capacity : ℕ)
    → 0 < capacity
    → (0 < output_ring_append_chunk_len capacity)
      × (output_ring_append_chunk_len capacity ≤ capacity)
unfolding output_ring_append_chunk_len
output_ring_append_chunk_len_bounds capacity h = omega arith

-- What an append leaves: a state that fits, later offsets.
pub record Grown (tight : Bool) (capacity added : ℕ) (g g' : OutputRingInner) : Type 0 where
  pub fits : Fits tight capacity g'
  pub end_eq : g'.end_offset ≡ g.end_offset + added
  pub start_le : g.start_offset ≤ g'.start_offset

module _ (tight : Bool) (capacity : ℕ) (is_stderr : Bool) (origin : ContentOrigin)
    (source : OutputTextSource) where
  pub append_tail_chunk-Grown :
      (bytes : Bytes) (g : OutputRingInner)
      → length bytes ≤ capacity
      → capacity < u64_max
      → IsSound tight g
      → g.end_offset + length bytes ≤ u64_max
      → Grown tight capacity
          (length bytes)
          g
          (append_tail_chunk capacity is_stderr origin source bytes g).1
  unfolding append_tail_chunk
  append_tail_chunk-Grown bytes g n c s h = ground (
    arith,
    make_room_for-Made tight (length bytes) capacity g,
    append_chunk_locked-IsSound tight bytes is_stderr origin source
        (make_room_for (length bytes) capacity g).1,
  )

  pub append_tail_loop-Grown :
      (fuel max_len : ℕ) (bytes : Bytes) (dropped : Bool) (g : OutputRingInner)
      → length bytes ≤ fuel
      → 0 < max_len
      → max_len ≤ capacity
      → capacity < u64_max
      → Fits tight capacity g
      → g.end_offset + length bytes ≤ u64_max
      → Grown tight capacity
          (length bytes)
          g
          (append_tail_loop capacity is_stderr origin source fuel max_len bytes dropped g).1
  unfolding append_tail_loop
  append_tail_loop-Grown zero max_len [] dropped g f p q c s h = ground arith
  append_tail_loop-Grown (suc fuel) max_len [] dropped g f p q c s h = ground arith
  append_tail_loop-Grown zero max_len (b ∷ bs) dropped g f p q c s h = absurd (omega arith)
  append_tail_loop-Grown (suc fuel) max_len (b ∷ bs) dropped g f p q c s h =
      let n = min (length (b ∷ bs)) max_len in
      let r = append_tail_chunk capacity is_stderr origin source (take n (b ∷ bs)) g in
      let lt = length-take n (b ∷ bs) in
      let ld = length-drop n (b ∷ bs) in
      let one = append_tail_chunk-Grown (take n (b ∷ bs)) g (omega arith) c s.sound (omega arith) in
      let rest =
        append_tail_loop-Grown fuel max_len (drop n (b ∷ bs)) (dropped || r.0) r.1 (omega arith) p q
          c one.fits (omega arith) in
      record { fits = rest.fits; end_eq = omega arith; start_le = omega arith }

  pub append_bytes_retaining_tail-Grown :
      (bytes : Bytes) (g : OutputRingInner)
      → 0 < capacity
      → capacity < u64_max
      → Fits tight capacity g
      → g.end_offset + length bytes ≤ u64_max
      → Grown tight capacity
          (length bytes)
          g
          (append_bytes_retaining_tail capacity is_stderr origin source bytes g)
  unfolding append_bytes_retaining_tail
  append_bytes_retaining_tail-Grown bytes g p c s h =
      let m = output_ring_append_chunk_len capacity in
      let r = append_tail_loop capacity is_stderr origin source (length bytes) m bytes false g in
      let b = output_ring_append_chunk_len_bounds capacity p in
      let loop =
        append_tail_loop-Grown (length bytes) m bytes false g (omega arith) b.0 b.1 c s h in
      ground
        (arith, loop, append_truncation_notice_locked-Made tight capacity (r.1).end_offset 0 r.1)

pub append_visible_tail-Grown :
    (tight : Bool) (capacity : ℕ) (kind : OutputEventKind) (g : OutputRingInner)
    → event_size_bytes kind ≤ capacity
    → capacity < u64_max
    → Fits tight capacity g
    → Grown tight capacity 0 g (append_visible_tail capacity kind g)
unfolding append_visible_tail
append_visible_tail-Grown tight capacity kind g n c s =
    let offset = max g.end_offset g.start_offset in
    let size = event_size_bytes kind in
    let g1 = (make_room_for size capacity g).1 in
    let g2 = append_truncation_notice_locked capacity offset size g1 in
    let made = make_room_for-Made tight size capacity g n c s.sound in
    let noted =
      append_truncation_notice_locked-Made tight capacity offset size g1 c made.sound made.room in
    ground (
      arith,
      made,
      noted,
      push_event-IsSound tight offset kind g1,
      push_event_same offset kind g1,
      push_event-IsSound tight (max offset g2.start_offset) kind g2,
      push_event_same (max offset g2.start_offset) kind g2,
    )
