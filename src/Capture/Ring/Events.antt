-- ===== src/Capture/Ring/Events.antt =====
-- `OutputRing` of src/output_capture.rs: appending events.
use mcp_repl.Prelude.{ℕ, ◌-◌, max, ltb, if◌then◌else◌, [], ◌∷◌, ◌++◌}
use mcp_repl.Capture.Types.{
  OutputEventKind, image, text, input_echo, input_wait, request_boundary, session_end,
  event_size_bytes,
}
use mcp_repl.Capture.Ring.State.{OutputRingInner, is_over, note_progress, has_omission_notice}
use mcp_repl.Capture.Ring.Room.{dropped_visible, make_room_for, make_room_for_input_echo}
use mcp_repl.Capture.Ring.Append.{
  OutputRetention, OutputRing, tail, head, push_event, append_truncation_notice_locked,
  append_omission_notice_locked, head_omission_notice_reserve_locked,
}
use mcp_repl.Capture.Ring.Text.{drop_echoes_noting}

abbrev at_end : OutputRingInner → ℕ
at_end g = max g.end_offset g.start_offset

-- The tail-retaining branch: room is made by dropping the oldest output.
unfoldable pub append_visible_tail : ℕ → OutputEventKind → OutputRingInner → OutputRingInner
append_visible_tail capacity kind g =
    let event_offset = at_end g in
    let r = make_room_for (event_size_bytes kind) capacity g in
    let g' = append_truncation_notice_locked capacity event_offset (event_size_bytes kind) r.1 in
    if dropped_visible r.0
    then push_event (max event_offset g'.start_offset) kind g'
    else push_event event_offset kind r.1

-- The head-retaining branch: an event that does not fit is left out. The offset is read first.
unfoldable pub append_visible_head : ℕ → OutputEventKind → OutputRingInner → OutputRingInner
append_visible_head capacity kind g =
    let event_offset = at_end g in
    let event_bytes = event_size_bytes kind in
    let g1 = drop_echoes_noting capacity head event_bytes capacity g in
    let effective = capacity - head_omission_notice_reserve_locked capacity head g1 in
    let g2 = drop_echoes_noting capacity head event_bytes effective g1 in
    if is_over g1 event_bytes capacity
    then (if is_over g2 event_bytes effective
        then append_omission_notice_locked capacity head g2
        else push_event event_offset kind g2)
    else push_event event_offset kind g1

unfoldable pub append_visible_event :
    ℕ → OutputRetention → OutputEventKind → OutputRingInner → OutputRingInner
append_visible_event capacity retention kind g =
    let g' = note_progress g in
    if ltb capacity (event_size_bytes kind)
    then append_omission_notice_locked capacity retention g'
    else elim retention [
      | tail ↦ append_visible_tail capacity kind g'
      | head ↦ append_visible_head capacity kind g'
    ]

unfoldable pub append_echo_tail : ℕ → OutputEventKind → OutputRingInner → OutputRingInner
append_echo_tail capacity kind g =
    let r = make_room_for_input_echo (event_size_bytes kind) capacity g in
    if ltb capacity (event_size_bytes kind)
    then g
    else if r.0
    then push_event (at_end r.1) kind r.1
    else r.1

unfoldable pub append_echo_head : ℕ → OutputEventKind → OutputRingInner → OutputRingInner
append_echo_head capacity kind g =
    if ltb capacity (event_size_bytes kind)
    then append_omission_notice_locked capacity head g
    else if has_omission_notice g
    then g
    else if is_over g (event_size_bytes kind) capacity
    then append_omission_notice_locked capacity head g
    else push_event (at_end g) kind g

unfoldable pub append_input_echo_event :
    ℕ → OutputRetention → OutputEventKind → OutputRingInner → OutputRingInner
append_input_echo_event capacity retention kind g = elim retention [
  | tail ↦ append_echo_tail capacity kind (note_progress g)
  | head ↦ append_echo_head capacity kind (note_progress g)
]

-- A marker's size is 0, so `buffered_event_bytes` stays.
unfoldable pub append_marker_event : OutputEventKind → OutputRingInner → OutputRingInner
append_marker_event kind g =
    let g' = note_progress g in
    record g' { events = g'.events ++ (record { offset = at_end g'; kind = kind } ∷ []) }

unfoldable pub append_event_kind :
    ℕ → OutputRetention → OutputEventKind → OutputRingInner → OutputRingInner
append_event_kind capacity retention (image a b c d) g =
    append_visible_event capacity retention (image a b c d) g
append_event_kind capacity retention (text a b c) g =
    append_visible_event capacity retention (text a b c) g
append_event_kind capacity retention (input_echo a) g =
    append_input_echo_event capacity retention (input_echo a) g
append_event_kind capacity retention input_wait g = append_marker_event input_wait g
append_event_kind capacity retention request_boundary g = append_marker_event request_boundary g
append_event_kind capacity retention session_end g = append_marker_event session_end g

unfoldable pub append_materialized_event : OutputEventKind → OutputRing → OutputRing
append_materialized_event kind r = record r {
  inner = append_event_kind r.capacity_bytes r.retention kind r.inner;
}
