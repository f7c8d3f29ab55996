-- ===== src/Capture/Ring/Grow.antt =====
-- What the appends of src/output_capture.rs add, once there is room.
use mcp_repl.Prelude.{
  ℕ, ◌+◌, ◌≤◌, ◌<◌, ◌≡◌, Bool, true, false, List, [], ◌∷◌, ◌++◌, length, max, u64_max, arith,
  saturating_add,
}
use mcp_repl.Capture.Types.{
  Bytes, ContentOrigin, OutputTextSource, OutputEventKind, OutputChunk, chunk_len, event_size_bytes,
}
use mcp_repl.Capture.Ring.State.{OutputRingInner, note_progress}
use mcp_repl.Capture.Ring.Room.{make_room_for}
use mcp_repl.Capture.Ring.Append.{
  append_chunk_locked, push_event, append_truncation_notice_locked, truncation_notice_kind,
}
use mcp_repl.Capture.Ring.Invariant.{
  IsChunk, IsChain, IsChain-le, IsSound, sum_chunks-append, sum_events-append,
}
use mcp_repl.Capture.Ring.MakeRoom.{Made, make_room_for-Made}

pub IsChain-snoc :
    (tight : Bool) (lo hi : ℕ) (cs : List OutputChunk) (c : OutputChunk)
    → IsChain tight lo cs hi
    → IsChunk c
    → c.start_offset ≡ hi
    → IsChain tight lo (cs ++ (c ∷ [])) (hi + chunk_len c)
IsChain-snoc true lo hi [] c n k e = ground arith
IsChain-snoc false lo hi [] c n k e = ground arith
IsChain-snoc true lo hi (d ∷ cs) c n k e =
    (n.0, n.1, IsChain-snoc true (d.start_offset + chunk_len d) hi cs c n.2 k e)
IsChain-snoc false lo hi (d ∷ cs) c n k e =
    (n.0, n.1, IsChain-snoc false (d.start_offset + chunk_len d) hi cs c n.2 k e)

pub note_progress-IsSound :
    (tight : Bool) (g : OutputRingInner) → IsSound tight g → IsSound tight (note_progress g)
unfolding note_progress
note_progress-IsSound tight g s = ground arith

-- What the two leave alone.
abbrev pub SameText : OutputRingInner → OutputRingInner → Type 0
SameText g g' =
    (g'.chunks ≡ g.chunks)
    × (g'.start_offset ≡ g.start_offset)
    × (g'.end_offset ≡ g.end_offset)
    × (g'.buffered_bytes ≡ g.buffered_bytes)

pub note_progress_same :
    (g : OutputRingInner)
    → SameText g (note_progress g)
      × ((note_progress g).buffered_event_bytes ≡ g.buffered_event_bytes)
      × ((note_progress g).events ≡ g.events)
unfolding note_progress
note_progress_same g = ground arith

pub push_event_same :
    (offset : ℕ) (kind : OutputEventKind) (g : OutputRingInner)
    → SameText g (push_event offset kind g)
unfolding push_event
push_event_same offset kind g = ground arith

pub push_event-IsSound :
    (tight : Bool) (offset : ℕ) (kind : OutputEventKind) (g : OutputRingInner)
    → IsSound tight g
    → g.buffered_event_bytes + event_size_bytes kind ≤ u64_max
    → IsSound tight (push_event offset kind g)
      × ((push_event offset kind g).buffered_event_bytes
          ≡ g.buffered_event_bytes + event_size_bytes kind)
unfolding push_event
push_event-IsSound tight offset kind g s h =
    ground (arith, sum_events-append g.events (record { offset = offset; kind = kind } ∷ []))

pub append_chunk_locked-IsSound :
    (tight : Bool) (bytes : Bytes) (is_stderr : Bool) (origin : ContentOrigin)
    (source : OutputTextSource) (g : OutputRingInner)
    → IsSound tight g
    → g.end_offset + length bytes ≤ u64_max
    → let g' = append_chunk_locked bytes is_stderr origin source g in
      IsSound tight g'
      × (g'.buffered_bytes ≡ g.buffered_bytes + length bytes)
      × (g'.buffered_event_bytes ≡ g.buffered_event_bytes)
      × (g'.end_offset ≡ g.end_offset + length bytes)
      × (g'.start_offset ≡ g.start_offset)
unfolding append_chunk_locked
append_chunk_locked-IsSound tight [] is_stderr origin source g s h = ground arith
append_chunk_locked-IsSound tight (b ∷ bs) is_stderr origin source g s h =
    let c : OutputChunk = record {
      start_offset = g.end_offset;
      bytes = b ∷ bs;
      range_start = 0;
      range_end = length (b ∷ bs);
      is_stderr = is_stderr;
      origin = origin;
      source = source;
    } in
    ground (
      arith,
      IsChain-le tight g.start_offset g.end_offset g.chunks s.chain,
      sum_chunks-append g.chunks (c ∷ []),
      IsChain-snoc tight g.start_offset g.end_offset g.chunks c,
    )

-- The notice keeps the room that `extra_bytes` more bytes need.
pub append_truncation_notice_locked-Made :
    (tight : Bool) (capacity offset extra : ℕ) (g : OutputRingInner)
    → capacity < u64_max
    → IsSound tight g
    → g.buffered_bytes + g.buffered_event_bytes + extra ≤ capacity
    → Made tight extra capacity g (append_truncation_notice_locked capacity offset extra g)
unfolding append_truncation_notice_locked
append_truncation_notice_locked-Made tight capacity offset extra g c s h =
    let needed = saturating_add (event_size_bytes truncation_notice_kind) extra in
    let g' = (make_room_for needed capacity g).1 in
    ground (
      arith,
      make_room_for-Made tight needed capacity g,
      note_progress-IsSound tight g',
      note_progress_same g',
      push_event_same (max offset g'.start_offset) truncation_notice_kind (note_progress g'),
      push_event-IsSound tight (max offset g'.start_offset) truncation_notice_kind
          (note_progress g'),
    )
