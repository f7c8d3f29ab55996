-- ===== src/Replies/Tests.antt =====
-- Cases at which the theorems on replies apply (src/completion_reply.rs, src/pending_output_tape.rs).
use mcp_repl.Prelude.{
  ◌≡◌, refl, true, false, none, some, [], ◌∷◌, get_last?, is_empty, codes, arith,
}
use mcp_repl.Capture.Types.{worker, raw}
use mcp_repl.Capture.Tails.Queue as Queue
use mcp_repl.Capture.Ring.State.{OutputRingInner}
use mcp_repl.Capture.Ring.Append.{tail}
use mcp_repl.Capture.Ring.Read.{read_range}
use mcp_repl.Capture.Ring.Invariant.{retained}
use mcp_repl.Capture.Timeline.State.{append_pending_locked, settle, seal_utf8_tails}
use mcp_repl.Capture.Timeline.Drain.{text_from}
use mcp_repl.Render.Content.{worker_stdout}
use mcp_repl.Render.Push.{bundle}
use mcp_repl.Render.Events.{contents_from_output_range_with_state}
use mcp_repl.Replies.Tape.{PendingOutputTape, drain_final_output}
use mcp_repl.Replies.Presentation.{python, normalize_prompt}
use mcp_repl.Replies.Completion.{CompletionInfo, files, build_completed_reply}
use mcp_repl.Replies.Prompts.{build_completed_reply-prompt}
use mcp_repl.Replies.Final.{drain_final_output-all}

abbrev at_prompt : CompletionInfo
at_prompt = record {
  prompt = some (codes ">>> ");
  prompt_variants = none;
  protocol_warnings = codes "late output" ∷ [];
  session_end_seen = false;
}

build_completed_reply-prompt_example :
    let b = build_completed_reply true [] false at_prompt false (files true) python in
    (get_last? b.reply.contents ≡ some (worker_stdout (codes ">>> ")))
    × (is_empty (codes ">>> ") ≡ false)
    × (false ≡ false)
    × (at_prompt.prompt ≡ some (codes ">>> "))
    × (b.prompt_to_remember ≡ some (codes ">>> "))
    × (b.pager_prompt ≡ none)
unfolding build_completed_reply normalize_prompt
build_completed_reply-prompt_example =
    build_completed_reply-prompt [] false at_prompt false (files true) python (codes ">>> ") refl

-- "hi" and the first byte of "é", from offset 3.
abbrev cut_text : OutputRingInner
cut_text = record {
  chunks =
      record {
        start_offset = 3;
        bytes = b'h' ∷ b'i' ∷ 0xc3 ∷ [];
        range_start = 0;
        range_end = 3;
        is_stderr = false;
        origin = worker;
        source = raw;
      }
      ∷ [];
  line_ends = [];
  events = [];
  start_offset = 3;
  end_offset = 6;
  buffered_bytes = 3;
  buffered_event_bytes = 0;
  progress_seq = 1;
}

abbrev cut_tape : PendingOutputTape
cut_tape = record {
  cursor = record { offset = some 4; last_rendered_text = none };
  timeline = record {
    utf8_tails = [];
    ring = record { capacity_bytes = 64; retention = tail; inner = cut_text };
  };
}

drain_final_output-all_example :
    let d = drain_final_output cut_tape in
    (d.0.0 ≡ (contents_from_output_range_with_state bundle (read_range 4 6 cut_text) none).0)
    × ((read_range 4 6 cut_text).bytes ≡ text_from 4 cut_text)
    × (d.1.timeline.utf8_tails ≡ [])
    × (d.1.cursor.offset ≡ some 6)
    × (d.1.timeline.ring.inner.end_offset ≡ 6)
    × (retained d.1.timeline.ring.inner.chunks ≡ [])
unfolding seal_utf8_tails settle append_pending_locked Queue.drain Queue.drain_ready
drain_final_output-all_example = drain_final_output-all cut_tape 4 refl (ground arith) (omega arith)
