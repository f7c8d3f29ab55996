-- ===== src/Capture/Ring/Preserve.antt =====
-- Every operation of `OutputRing` (src/output_capture.rs) keeps the ring sound and within its
-- capacity.
use mcp_repl.Prelude.{ℕ, ◌≤◌, ◌<◌, ◌≡◌, refl, Bool, true, false, [], ◌∷◌, max, arith, isize_max}
use mcp_repl.Capture.Types.{
  OutputEventKind, image, text, input_echo, input_wait, request_boundary, session_end,
  event_size_bytes,
}
use mcp_repl.Capture.Ring.State.{OutputRingInner, note_progress}
use mcp_repl.Capture.Ring.Room.{make_room_for_input_echo, drop_input_echoes_for_room}
use mcp_repl.Capture.Ring.Append.{OutputRetention, tail, head, append_omission_notice_locked}
use mcp_repl.Capture.Ring.Events.{
  append_visible_event, append_echo_tail, append_input_echo_event, append_marker_event,
  append_event_kind,
}
use mcp_repl.Capture.Ring.Invariant.{Fits, sum_events-append}
use mcp_repl.Capture.Ring.Cleanup.{drop_input_echoes_for_room-Frame}
use mcp_repl.Capture.Ring.Grow.{
  note_progress-IsSound, note_progress_same, push_event-IsSound, push_event_same,
}
use mcp_repl.Capture.Ring.GrowText.{append_visible_tail-Grown}
use mcp_repl.Capture.Ring.GrowHead.{
  Safe, append_omission_notice_locked-Safe, append_visible_head-Safe, append_echo_head-Safe,
}

-- A ring that retains the tail has no gap between its chunks.
abbrev pub is_tight : OutputRetention → Bool
is_tight tail = true
is_tight head = false

pub note_progress-Fits :
    (tight : Bool) (capacity : ℕ) (g : OutputRingInner)
    → Fits tight capacity g
    → Fits tight capacity (note_progress g)
note_progress-Fits tight capacity g s =
    ground (arith, note_progress-IsSound tight g, note_progress_same g)

pub omission_notice_tail :
    (capacity : ℕ) (g : OutputRingInner) → append_omission_notice_locked capacity tail g ≡ g
unfolding append_omission_notice_locked
omission_notice_tail capacity g = ground arith

module _ (capacity : ℕ) (positive : 0 < capacity) (allocatable : capacity ≤ isize_max) where
  append_visible_event-Safe :
      (retention : OutputRetention) (kind : OutputEventKind) (g : OutputRingInner)
      → Fits (is_tight retention) capacity g
      → Safe (is_tight retention) capacity 0 g (append_visible_event capacity retention kind g)
  unfolding append_visible_event
  append_visible_event-Safe tail kind g s =
      let g' = note_progress g in
      ground (
        arith,
        note_progress_same g,
        note_progress-Fits true capacity g s,
        omission_notice_tail capacity g',
        append_visible_tail-Grown true capacity kind g',
      )
  append_visible_event-Safe head kind g s =
      let g' = note_progress g in
      ground (
        arith,
        note_progress_same g,
        note_progress-Fits false capacity g s,
        append_omission_notice_locked-Safe capacity head g',
        append_visible_head-Safe capacity kind g',
      )

  append_echo_tail-Safe :
      (kind : OutputEventKind) (g : OutputRingInner)
      → Fits true capacity g
      → Safe true capacity 0 g (append_echo_tail capacity kind g)
  unfolding append_echo_tail make_room_for_input_echo
  append_echo_tail-Safe kind g s =
      let size = event_size_bytes kind in
      let g1 = (drop_input_echoes_for_room size capacity g).1 in
      let offset = max g1.end_offset g1.start_offset in
      ground (
        arith,
        drop_input_echoes_for_room-Frame size capacity g,
        push_event-IsSound true offset kind g1,
        push_event_same offset kind g1,
      )

  append_input_echo_event-Safe :
      (retention : OutputRetention) (kind : OutputEventKind) (g : OutputRingInner)
      → Fits (is_tight retention) capacity g
      → Safe (is_tight retention) capacity 0 g (append_input_echo_event capacity retention kind g)
  unfolding append_input_echo_event
  append_input_echo_event-Safe tail kind g s = ground (
    arith,
    note_progress_same g,
    note_progress-Fits true capacity g s,
    append_echo_tail-Safe kind (note_progress g),
  )
  append_input_echo_event-Safe head kind g s = ground (
    arith,
    note_progress_same g,
    note_progress-Fits false capacity g s,
    append_echo_head-Safe capacity kind (note_progress g),
  )

  append_marker_event-Safe :
      (tight : Bool) (kind : OutputEventKind) (g : OutputRingInner)
      → event_size_bytes kind ≡ 0
      → Fits tight capacity g
      → Safe tight capacity 0 g (append_marker_event kind g)
  unfolding append_marker_event
  append_marker_event-Safe tight kind g z s =
      let g' = note_progress g in
      ground (
        arith,
        note_progress_same g,
        note_progress-Fits tight capacity g s,
        sum_events-append g'.events
            (record { offset = max g'.end_offset g'.start_offset; kind = kind } ∷ []),
      )

  pub append_event_kind-Safe :
      (retention : OutputRetention) (kind : OutputEventKind) (g : OutputRingInner)
      → Fits (is_tight retention) capacity g
      → Safe (is_tight retention) capacity 0 g (append_event_kind capacity retention kind g)
  unfolding append_event_kind event_size_bytes
  append_event_kind-Safe retention (image a b c d) g s =
      append_visible_event-Safe retention (image a b c d) g s
  append_event_kind-Safe retention (text a b c) g s =
      append_visible_event-Safe retention (text a b c) g s
  append_event_kind-Safe retention (input_echo a) g s =
      append_input_echo_event-Safe retention (input_echo a) g s
  append_event_kind-Safe retention input_wait g s =
      append_marker_event-Safe (is_tight retention) input_wait g refl s
  append_event_kind-Safe retention request_boundary g s =
      append_marker_event-Safe (is_tight retention) request_boundary g refl s
  append_event_kind-Safe retention session_end g s =
      append_marker_event-Safe (is_tight retention) session_end g refl s
