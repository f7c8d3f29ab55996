-- ===== src/Capture/Ring/EventWindow.antt =====
-- The text that a tail-retaining ring (src/output_capture.rs) holds after an event was appended.
use mcp_repl.Prelude.{ℕ, ◌≤◌, true, max, arith, isize_max}
use mcp_repl.Capture.Types.{
  OutputEventKind, image, text, input_echo, input_wait, request_boundary, session_end,
  event_size_bytes,
}
use mcp_repl.Capture.Ring.State.{OutputRingInner, note_progress}
use mcp_repl.Capture.Ring.Room.{make_room_for, make_room_for_input_echo, drop_input_echoes_for_room}
use mcp_repl.Capture.Ring.Append.{tail, push_event, append_truncation_notice_locked}
use mcp_repl.Capture.Ring.Events.{
  append_visible_tail, append_visible_event, append_echo_tail, append_input_echo_event,
  append_marker_event, append_event_kind,
}
use mcp_repl.Capture.Ring.Invariant.{IsSound, Fits}
use mcp_repl.Capture.Ring.Cleanup.{drop_input_echoes_for_room-Frame}
use mcp_repl.Capture.Ring.MakeRoom.{make_room_for-Made}
use mcp_repl.Capture.Ring.Contents.{Later, Later-refl, Later-trans, Later-Frame}
use mcp_repl.Capture.Ring.Grow.{SameText, note_progress_same, push_event_same}
use mcp_repl.Capture.Ring.Preserve.{note_progress-Fits, omission_notice_tail}
use mcp_repl.Capture.Ring.RoomText.{make_room_for-Later, append_truncation_notice_locked-Later}

Later-SameText : (g g' : OutputRingInner) → SameText g g' → Later g g'
Later-SameText g g' e = ground (arith, e, Later-refl g)

append_visible_tail-Later :
    (capacity : ℕ) (kind : OutputEventKind) (g : OutputRingInner)
    → event_size_bytes kind ≤ capacity
    → capacity ≤ isize_max
    → IsSound true g
    → Later g (append_visible_tail capacity kind g)
unfolding append_visible_tail
append_visible_tail-Later capacity kind g n c s =
    let offset = max g.end_offset g.start_offset in
    let r = make_room_for (event_size_bytes kind) capacity g in
    let m = make_room_for-Made true (event_size_bytes kind) capacity g n (omega arith) s in
    let l = make_room_for-Later (event_size_bytes kind) capacity g s in
    let g' = append_truncation_notice_locked capacity offset (event_size_bytes kind) r.1 in
    let k =
      append_truncation_notice_locked-Later capacity offset (event_size_bytes kind) r.1 m.sound in
    ground (
      arith,
      l,
      Later-trans l k,
      push_event_same offset kind r.1,
      push_event_same (max offset g'.start_offset) kind g',
    )

append_visible_event-Later :
    (capacity : ℕ) (kind : OutputEventKind) (g : OutputRingInner)
    → capacity ≤ isize_max
    → Fits true capacity g
    → Later g (append_visible_event capacity tail kind g)
unfolding append_visible_event
append_visible_event-Later capacity kind g c f =
    let g' = note_progress g in
    let same = Later-SameText g (note_progress g) ((note_progress_same g).0) in
    let f' = note_progress-Fits true capacity g f in
    ground (
      arith,
      same,
      omission_notice_tail capacity g',
      λ (n : event_size_bytes kind ≤ capacity).
          Later-trans same (append_visible_tail-Later capacity kind g' n c f'.sound),
    )

append_input_echo_event-Later :
    (capacity : ℕ) (kind : OutputEventKind) (g : OutputRingInner)
    → Later g (append_input_echo_event capacity tail kind g)
unfolding append_input_echo_event append_echo_tail make_room_for_input_echo
append_input_echo_event-Later capacity kind g =
    let g' = note_progress g in
    let same = Later-SameText g (note_progress g) ((note_progress_same g).0) in
    let size = event_size_bytes kind in
    let g1 = (drop_input_echoes_for_room size capacity g').1 in
    let dropped =
      Later-trans same (Later-Frame (drop_input_echoes_for_room-Frame size capacity g')) in
    ground (
      arith,
      same,
      dropped,
      Later-trans dropped (
          Later-SameText g1 (push_event (max g1.end_offset g1.start_offset) kind g1)
            (push_event_same (max g1.end_offset g1.start_offset) kind g1)),
    )

append_marker_event-Later :
    (kind : OutputEventKind) (g : OutputRingInner) → Later g (append_marker_event kind g)
unfolding append_marker_event
append_marker_event-Later kind g =
    let same = Later-SameText g (note_progress g) ((note_progress_same g).0) in ground (arith, same)

-- An event drops text from the front only.
pub append_event_kind-Later :
    (capacity : ℕ) (kind : OutputEventKind) (g : OutputRingInner)
    → capacity ≤ isize_max
    → Fits true capacity g
    → Later g (append_event_kind capacity tail kind g)
unfolding append_event_kind
append_event_kind-Later capacity (image a b c d) g h f =
    append_visible_event-Later capacity (image a b c d) g h f
append_event_kind-Later capacity (text a b c) g h f =
    append_visible_event-Later capacity (text a b c) g h f
append_event_kind-Later capacity (input_echo a) g h f =
    append_input_echo_event-Later capacity (input_echo a) g
append_event_kind-Later capacity input_wait g h f = append_marker_event-Later input_wait g
append_event_kind-Later capacity request_boundary g h f =
    append_marker_event-Later request_boundary g
append_event_kind-Later capacity session_end g h f = append_marker_event-Later session_end g
