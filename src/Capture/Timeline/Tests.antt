-- ===== src/Capture/Timeline/Tests.antt =====
-- Runs of `OutputTimeline` and `OutputBuffer` (src/output_capture.rs) on concrete output.
use mcp_repl.Prelude.{
  ◌*◌, ◌≡◌, refl, Bool, true, false, Option, none, some, List, [], ◌∷◌, ◌++◌, arith,
}
use mcp_repl.Capture.Types.{Bytes, codes, worker, raw, ipc, input_echo, input_wait}
use mcp_repl.Capture.Tails.Queue as Queue
use mcp_repl.Capture.Tails.Sizes.{text_bytes}
use mcp_repl.Capture.Ring.State.{OutputRingInner, empty_inner}
use mcp_repl.Capture.Ring.Append.{tail, head, with_retention}
use mcp_repl.Capture.Ring.Read.{OutputRange}
use mcp_repl.Capture.Ring.Invariant.{retained, IsSound}
use mcp_repl.Capture.Ring.Run.{with_retention-IsRing}
use mcp_repl.Capture.Timeline.State.{new_timeline, append_pending_locked}
use mcp_repl.Capture.Timeline.Buffer.{OutputBuffer, drained_range, drain_formatted}
use mcp_repl.Capture.Timeline.Drain.{text_from, drain_formatted-once}
use mcp_repl.Capture.Timeline.Window.{Appended, append_pending_locked-Appended}
use mcp_repl.Capture.Timeline.Run.{
  TimelineOp, append_bytes, append_kind, seal_all, seal_blocking, read_to, run, total_bytes,
  IsTimeline, run-IsTimeline,
}

-- "é" in two pieces with an echo between them, then a read and the end of the session.
abbrev session : List TimelineOp
session =
    append_bytes (b'a' ∷ 0xc3 ∷ []) false worker false raw
    ∷ append_kind (input_echo (codes "> 1"))
    ∷ append_bytes (0xa9 ∷ []) false worker false raw
    ∷ append_bytes (0xe2 ∷ []) true worker false ipc
    ∷ read_to 2
    ∷ append_kind input_wait
    ∷ seal_blocking
    ∷ seal_all
    ∷ []

run-IsTimeline_example :
    IsTimeline (4 * total_bytes session) (run (new_timeline (with_retention 64 head)) session)
run-IsTimeline_example = run-IsTimeline 64 head session (omega arith) (omega arith) (omega arith)

abbrev ready_entries : Queue.Entries
ready_entries =
    Queue.text (record {
      key = record { is_stderr = false; origin = worker; source = raw };
      bytes = codes "hello\n";
      sealed = true;
    })
    ∷ Queue.event input_wait
    ∷ Queue.text (record {
      key = record { is_stderr = true; origin = worker; source = ipc };
      bytes = codes "error";
      sealed = false;
    })
    ∷ []

append_pending_locked-Appended_example :
    Appended
      (text_bytes ready_entries)
      (with_retention 8 tail)
      (append_pending_locked ready_entries (with_retention 8 tail))
unfolding with_retention empty_inner
append_pending_locked-Appended_example =
    append_pending_locked-Appended ready_entries (with_retention 8 tail)
      (with_retention-IsRing 8 tail (omega arith) (omega arith)) refl (omega arith)

-- "hi" and the first byte of "é", from offset 3.
abbrev held_text : OutputRingInner
held_text = record {
  chunks =
      record {
        start_offset = 3;
        bytes = b'h' ∷ b'i' ∷ 0xc3 ∷ [];
        range_start = 0;
        range_end = 3;
        is_stderr = false;
        origin = worker;
        source = raw;
      }
      ∷ [];
  line_ends = [];
  events = [];
  start_offset = 3;
  end_offset = 6;
  buffered_bytes = 3;
  buffered_event_bytes = 0;
  progress_seq = 1;
}

held_text-IsSound : IsSound true held_text
held_text-IsSound = ground arith

abbrev reader : OutputBuffer Bool
reader = record {
  cursor = record { offset = some 4; last_rendered_text = none };
  ring = record { capacity_bytes = 64; retention = tail; inner = held_text };
}

-- A rendering that shows the bytes.
abbrev show_bytes : OutputRange → Option Bool → Bytes × Option Bool
show_bytes range last = (range.bytes, some true)

drain_formatted-once_example :
    let d = drained_range false 4 held_text in
    let r = drain_formatted [] show_bytes false reader in
    (r.0.0 ≡ d.1.bytes)
    × (d.1.bytes ++ retained r.1.ring.inner.chunks ≡ text_from 4 held_text)
    × (r.1.cursor.offset ≡ some r.1.ring.inner.start_offset)
    × (r.1.ring.inner.end_offset ≡ 6)
drain_formatted-once_example =
    drain_formatted-once [] show_bytes false reader 4 refl held_text-IsSound (omega arith)
