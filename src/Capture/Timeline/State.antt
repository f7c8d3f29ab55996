-- ===== src/Capture/Timeline/State.antt =====
-- `OutputTimeline` of src/output_capture.rs: the tails, whose lock is held for the whole of each
-- method, and the ring.
use mcp_repl.Prelude.{
  ℕ, Bool, true, false, ◌&&◌, ◌||◌, ◌++◌, Option, none, some, if◌then◌else◌, [], ◌∷◌, is_empty,
}
use mcp_repl.Capture.Types.{
  Bytes, ContentOrigin, OutputTextSource, raw, ipc, OutputEventKind, image, text, input_wait,
  request_boundary, session_end, input_echo,
}
use mcp_repl.Capture.Tails.Queue as Queue
use mcp_repl.Capture.Ring.Append.{OutputRing, with_retention, tail, head}
use mcp_repl.Capture.Ring.Text.{append_bytes_with_source}
use mcp_repl.Capture.Ring.Events.{append_materialized_event}
use mcp_repl.Capture.Ring.Consume.{reset}

pub record OutputTimeline : Type 0 where
  pub utf8_tails : Queue.Entries
  pub ring : OutputRing

unfoldable pub new_timeline : OutputRing → OutputTimeline
new_timeline ring = record { utf8_tails = []; ring = ring }

unfoldable pub with_capacity : ℕ → OutputTimeline
with_capacity capacity_bytes = new_timeline (with_retention capacity_bytes tail)

unfoldable pub with_head_retention_capacity : ℕ → OutputTimeline
with_head_retention_capacity capacity_bytes = new_timeline (with_retention capacity_bytes head)

unfoldable pub append_entry : Queue.OutputPendingEntry → OutputRing → OutputRing
append_entry (Queue.text t) r =
    append_bytes_with_source t.bytes t.key.is_stderr t.key.origin t.key.source r
append_entry (Queue.event kind) r = append_materialized_event kind r

unfoldable pub append_pending_locked : Queue.Entries → OutputRing → OutputRing
append_pending_locked [] r = r
append_pending_locked (e ∷ es) r = append_pending_locked es (append_entry e r)

-- What a drain of the tails hands on goes to the ring.
unfoldable pub settle : Queue.Entries × Queue.Entries → OutputTimeline → OutputTimeline
settle d t = record { utf8_tails = d.1; ring = append_pending_locked d.0 t.ring }

abbrev pub is_raw : OutputTextSource → Bool
is_raw raw = true
is_raw ipc = false

unfoldable pub append_text_with_source :
    Bytes → Bool → ContentOrigin → Bool → OutputTextSource → OutputTimeline → OutputTimeline
append_text_with_source bytes is_stderr origin is_continuation source t =
    let key : Queue.OutputUtf8TailKey = record {
      is_stderr = is_stderr;
      origin = origin;
      source = source;
    } in
    if is_empty bytes
    then t
    else settle
        (Queue.push key bytes (is_continuation || is_raw source) t.ring.capacity_bytes t.utf8_tails)
        t

unfoldable pub append_text : Bytes → Bool → ContentOrigin → OutputTimeline → OutputTimeline
append_text bytes is_stderr origin t = append_text_with_source bytes is_stderr origin false raw t

unfoldable pub append_text_with_continuation :
    Bytes → Bool → ContentOrigin → Bool → OutputTimeline → OutputTimeline
append_text_with_continuation bytes is_stderr origin is_continuation t =
    append_text_with_source bytes is_stderr origin is_continuation raw t

unfoldable pub append_ipc_text_with_continuation :
    Bytes → Bool → ContentOrigin → Bool → OutputTimeline → OutputTimeline
append_ipc_text_with_continuation bytes is_stderr origin is_continuation t =
    append_text_with_source bytes is_stderr origin is_continuation ipc t

unfoldable pub append_event : OutputEventKind → OutputTimeline → OutputTimeline
append_event kind t = settle (Queue.push_event kind t.ring.capacity_bytes t.utf8_tails) t

unfoldable pub append_image : Bytes → Bytes → Bytes → Bool → OutputTimeline → OutputTimeline
append_image id mime_type payload is_new t = append_event (image id payload mime_type is_new) t

unfoldable pub append_text_event : Bytes → Bool → ContentOrigin → OutputTimeline → OutputTimeline
append_text_event body is_stderr origin t = append_event (text body is_stderr origin) t

unfoldable pub input_echo_text : Bytes → Bytes → Option Bytes
input_echo_text prompt line =
    if is_empty prompt && is_empty line then none else some (prompt ++ line)

unfoldable pub append_input_echo : Bytes → Bytes → OutputTimeline → OutputTimeline
append_input_echo prompt line t = elim (input_echo_text prompt line) [
  | none ↦ t
  | some echo ↦ append_event (input_echo echo) t
]

unfoldable pub append_input_wait : OutputTimeline → OutputTimeline
append_input_wait t = append_event input_wait t

unfoldable pub append_request_boundary : OutputTimeline → OutputTimeline
append_request_boundary t = append_event request_boundary t

unfoldable pub append_session_end : OutputTimeline → OutputTimeline
append_session_end t = append_event session_end t

unfoldable pub seal_utf8_tails : OutputTimeline → OutputTimeline
seal_utf8_tails t = settle (Queue.drain t.utf8_tails) t

unfoldable pub seal_utf8_tails_blocking_visible_output : OutputTimeline → OutputTimeline
seal_utf8_tails_blocking_visible_output t =
    settle (Queue.drain_ready_after_visible_gaps t.utf8_tails) t

unfoldable pub has_unflushable_utf8_tail : OutputTimeline → Bool
has_unflushable_utf8_tail t = Queue.has_unflushable_tail t.utf8_tails

unfoldable pub clear : OutputTimeline → OutputTimeline
clear t = record { utf8_tails = []; ring = reset t.ring }
