-- ===== src/Capture/Tails/Tests.antt =====
-- Runs of `OutputUtf8Tails` (src/output_capture.rs) on concrete entries.
use mcp_repl.Prelude.{◌≡◌, refl, true, false, [], ◌∷◌, ◌++◌, arith}
use mcp_repl.Capture.Types.{Bytes, codes, worker, raw, ipc, input_echo}
use mcp_repl.Capture.Utf8.Decode.{
  two_bytes, first_char, validate, from_utf8, flushable_loop, flushable_prefix_len,
}
use mcp_repl.Capture.Tails.Queue.{
  OutputUtf8TailKey, text, event, Entries, materialize, is_flushable, drain_ready,
  drain_ready_bounded, drain_ready_after_visible_gaps, blocked_side_buffer_bytes, change_open,
  insert_bytes, push, drain, sum_sizes, escape_incomplete_utf8_tail, escape_bytes,
}
use mcp_repl.Capture.Tails.Conserve.{tagged, output, pending, drain_ready-output}
use mcp_repl.Capture.Tails.Sealed.{shown_sealed, drain-shown}
use mcp_repl.Capture.Tails.Gaps.{
  IsSettled, events_of, drain_ready_after_visible_gaps-IsSettled,
  drain_ready_after_visible_gaps-events,
}
use mcp_repl.Capture.Tails.Streams.{stream, push-stream}

abbrev out_key : OutputUtf8TailKey
out_key = record { is_stderr = false; origin = worker; source = raw }

abbrev err_key : OutputUtf8TailKey
err_key = record { is_stderr = true; origin = worker; source = ipc }

-- "x" and the first byte of "é", with an echo and text of another stream behind it.
abbrev blocked : Entries
blocked =
    text (record { key = out_key; bytes = b'x' ∷ 0xc3 ∷ []; sealed = false })
    ∷ event (input_echo (codes "> 1"))
    ∷ text (record { key = err_key; bytes = codes "e"; sealed = false })
    ∷ []

drain_ready-output_example :
    output (drain_ready blocked).0 ++ pending (drain_ready blocked).1 ≡ pending blocked
drain_ready-output_example = drain_ready-output blocked

drain-shown_example : ((drain blocked).1 ≡ []) × (output (drain blocked).0 ≡ shown_sealed blocked)
drain-shown_example =
    drain-shown blocked (
      (omega arith, (omega arith, (omega arith, tt))),
      (tt, ((omega arith, (omega arith, tt)), tt)),
    )

drain_ready_after_visible_gaps-IsSettled_example :
    IsSettled (drain_ready_after_visible_gaps blocked).1
drain_ready_after_visible_gaps-IsSettled_example =
    drain_ready_after_visible_gaps-IsSettled blocked (ground arith)

drain_ready_after_visible_gaps-events_example :
    let r = drain_ready_after_visible_gaps blocked in
    events_of r.0 ++ events_of r.1 ≡ events_of blocked
drain_ready_after_visible_gaps-events_example = drain_ready_after_visible_gaps-events blocked

-- The second byte of "é" comes in behind the echo and the other stream's text.
abbrev rest_of_char : Bytes
rest_of_char = 0xa9 ∷ []

push-stream_example :
    let r = push out_key rest_of_char true 100 blocked in
    stream out_key (output r.0) ++ stream out_key (pending r.1)
    ≡ stream out_key (pending blocked) ++ rest_of_char
unfolding drain_ready blocked_side_buffer_bytes insert_bytes change_open is_flushable
    flushable_prefix_len flushable_loop from_utf8 validate first_char two_bytes materialize
    sum_sizes
push-stream_example =
    push-stream out_key rest_of_char 100 blocked
      ((λ h. (refl, (refl, tt))), ((λ h. (refl, tt)), ((λ h. tt), tt))) (omega arith)

-- What `push` hands on then: all three entries.
push_completes : (push out_key rest_of_char true 100 blocked).1 ≡ []
unfolding push drain_ready_bounded drain_ready blocked_side_buffer_bytes insert_bytes change_open
    is_flushable flushable_prefix_len flushable_loop from_utf8 validate first_char two_bytes
push_completes = refl

-- The escaped end that `drain` shows instead.
drain_escapes :
    output
      (drain (text (record { key = out_key; bytes = b'x' ∷ 0xc3 ∷ []; sealed = false }) ∷ [])).0
    ≡ tagged out_key (codes "x\\xC3")
unfolding drain drain_ready materialize escape_incomplete_utf8_tail escape_bytes
    flushable_prefix_len flushable_loop from_utf8 validate first_char two_bytes
drain_escapes = refl
