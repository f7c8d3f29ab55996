-- ===== src/Stdin/Tests.antt =====
-- Runs of `PythonInputQueue` (src/python_input_queue.rs) on concrete input.
use mcp_repl.Prelude.{ℕ, false, none, ◌↔◌, ◌≡◌, refl, true, some, [], ◌∷◌, ◌++◌}
use mcp_repl.Capture.Types.{codes}
use mcp_repl.Stdin.Plan.{
  WriteStdinOptions, requires_meta_error, split, plan, IsAnswer, plan-IsAnswer,
}
use mcp_repl.Stdin.Queue.{
  PythonInputQueue, prepare_worker_stdin_payload, normalize_from, normalize_pty_input_payload,
  refill_stdin_bytes, consume_bytes, line_len, consume_line,
}
use mcp_repl.Stdin.Control.{
  interrupt, restart, write_control, split_write_stdin_control_prefix,
  split_write_stdin_control_prefix_iff,
}
use mcp_repl.Stdin.Reads.{
  bytes, line, read_all, unread, replace_cr, replace_crlf, read_all-unread,
  normalize_pty_input_payload-replace,
}

-- "ab\r\nc" and "d" are waiting.
abbrev two_payloads : PythonInputQueue
two_payloads = record {
  payloads = (b'a' ∷ b'b' ∷ b'\r' ∷ b'\n' ∷ b'c' ∷ []) ∷ codes "d" ∷ [];
  stdin_bytes = [];
  active_read_consumer = true;
}

first_line : (consume_line two_payloads).0 ≡ some (codes "ab\n")
unfolding consume_line consume_bytes refill_stdin_bytes normalize_pty_input_payload normalize_from
    prepare_worker_stdin_payload line_len
first_line = refl

read_all-unread_example :
    let r = read_all (line ∷ bytes 1 ∷ line ∷ []) two_payloads in
    r.0 ++ unread r.1 ≡ unread two_payloads
read_all-unread_example = read_all-unread (line ∷ bytes 1 ∷ line ∷ []) two_payloads

normalize_pty_input_payload-replace_example :
    normalize_pty_input_payload (b'a' ∷ b'\r' ∷ b'\n' ∷ b'\r' ∷ [])
    ≡ replace_cr (replace_crlf (b'a' ∷ b'\r' ∷ b'\n' ∷ b'\r' ∷ []))
normalize_pty_input_payload-replace_example =
    normalize_pty_input_payload-replace (b'a' ∷ b'\r' ∷ b'\n' ∷ b'\r' ∷ [])

split_write_stdin_control_prefix_iff_example :
    (split_write_stdin_control_prefix (0x4 ∷ codes "1") ≡ some (restart, codes "1"))
    ↔ (0x4 ∷ codes "1" ≡ write_control restart (codes "1"))
split_write_stdin_control_prefix_iff_example =
    split_write_stdin_control_prefix_iff (0x4 ∷ codes "1") restart (codes "1")

-- A restart, with input behind it, after the sandbox's state has changed.
abbrev updated : WriteStdinOptions ℕ
updated = record {
  page_bytes_override = none;
  pending_state_prechecked = true;
  deferred_sandbox_state_update = some 7;
  suppress_session_end_reset = false;
}

plan-IsAnswer_example :
    IsAnswer
      (0x4 ∷ codes "1")
      true
      updated
      (plan (record { action = restart; tail = codes "1" }) true updated)
unfolding split split_write_stdin_control_prefix
plan-IsAnswer_example =
    plan-IsAnswer (0x4 ∷ codes "1") (record { action = restart; tail = codes "1" }) true updated
      refl

plan_refused :
    plan
      (record { action = interrupt; tail = [] })
      true
      (record updated { deferred_sandbox_state_update = none })
    ≡ requires_meta_error
unfolding plan
plan_refused = refl
