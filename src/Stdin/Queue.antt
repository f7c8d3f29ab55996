-- ===== src/Stdin/Queue.antt =====
-- `PythonInputQueue` of src/python_input_queue.rs. A string is the list of its bytes; a method that
-- takes `&mut self` returns the new record.
use mcp_repl.Prelude.{
  ℕ, suc, ◌==◌, min, Bool, true, false, not, ◌&&◌, ◌||◌, Option, none, some, if◌then◌else◌, List,
  [], ◌∷◌, ◌++◌, length, take, drop, is_empty, get_last?,
}

abbrev pub Bytes : Type 0
Bytes = List ℕ

pub record PythonInputQueue : Type 0 where
  pub payloads : List Bytes
  pub stdin_bytes : Bytes
  pub active_read_consumer : Bool

unfoldable pub new_queue : PythonInputQueue
new_queue = record { payloads = []; stdin_bytes = []; active_read_consumer = false }

unfoldable pub push_payload : Bytes → PythonInputQueue → PythonInputQueue
push_payload input q = record q { payloads = q.payloads ++ (input ∷ []) }

unfoldable pub take_cell_payload : PythonInputQueue → Option Bytes × PythonInputQueue
take_cell_payload q = if q.active_read_consumer then (none, q) else elim q.payloads [
  | [] ↦ (none, q)
  | payload ∷ rest ↦ (some payload, record q { payloads = rest; stdin_bytes = [] })
]

unfoldable pub begin_read_consumer : PythonInputQueue → Bool × PythonInputQueue
begin_read_consumer q =
    if q.active_read_consumer then (false, q) else (true, record q { active_read_consumer = true })

unfoldable pub end_read_consumer : PythonInputQueue → PythonInputQueue
end_read_consumer q = record q { active_read_consumer = false }

unfoldable pub discard_unconsumed_input : PythonInputQueue → PythonInputQueue
discard_unconsumed_input q = record q { payloads = []; stdin_bytes = [] }

unfoldable pub clear_after_interrupt : PythonInputQueue → PythonInputQueue
clear_after_interrupt q = record (discard_unconsumed_input q) { active_read_consumer = false }

unfoldable pub clear_after_cell_finish : PythonInputQueue → PythonInputQueue
clear_after_cell_finish q = if q.active_read_consumer then q else record q { stdin_bytes = [] }

abbrev ends_with_newline : Bytes → Bool
ends_with_newline bytes = elim (get_last? bytes) [ none ↦ false | some b ↦ b == b'\n' ]

unfoldable pub prepare_worker_stdin_payload : Bytes → Bytes
prepare_worker_stdin_payload input =
    if not (is_empty input) && not (ends_with_newline input) then input ++ (b'\n' ∷ []) else input

-- A carriage return, with a newline that follows it, becomes a newline. The flag says that the byte
-- before was a carriage return.
unfoldable pub normalize_from : Bool → Bytes → Bytes
normalize_from after_cr [] = []
normalize_from after_cr (b ∷ bs) =
    let newline = normalize_from true bs in
    let rest = normalize_from false bs in
    if b == b'\r' then b'\n' ∷ newline else if after_cr && (b == b'\n') then rest else b ∷ rest

unfoldable pub normalize_pty_input_payload : Bytes → Bytes
normalize_pty_input_payload payload = normalize_from false payload

unfoldable pub refill_stdin_bytes : PythonInputQueue → PythonInputQueue
refill_stdin_bytes q = if not (is_empty q.stdin_bytes) then q else elim q.payloads [
  | [] ↦ q
  | payload ∷ rest ↦ record q {
    payloads = rest;
    stdin_bytes = normalize_pty_input_payload (prepare_worker_stdin_payload payload);
  }
]

unfoldable pub consume_bytes : ℕ → PythonInputQueue → Option Bytes × PythonInputQueue
consume_bytes byte_count q =
    let r = refill_stdin_bytes q in
    let n = min byte_count (length r.stdin_bytes) in
    if (byte_count == 0) || is_empty r.stdin_bytes
    then (none, r)
    else (some (take n r.stdin_bytes), record r { stdin_bytes = drop n r.stdin_bytes })

-- How many bytes there are up to the first newline and with it, or in all.
unfoldable pub line_len : Bytes → ℕ
line_len [] = 0
line_len (b ∷ bs) = let rest = line_len bs in if b == b'\n' then 1 else suc rest

unfoldable pub consume_line : PythonInputQueue → Option Bytes × PythonInputQueue
consume_line q = let r = refill_stdin_bytes q in consume_bytes (line_len r.stdin_bytes) r
