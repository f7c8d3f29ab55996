-- ===== src/Stdin/Reads.antt =====
-- What the readers of standard input get from the queue (src/python_input_queue.rs).
use mcp_repl.Prelude.{
  ℕ, ◌==◌, min, ◌&&◌, map, if◌then◌else◌, ◌≡◌, refl, ap, ◌∙◌, Bool, true, false, Option, none, some,
  List, [], ◌∷◌, ◌++◌, length, take, drop, take-append-drop, append_assoc, arith, All,
}
use mcp_repl.Stdin.Queue.{
  Bytes, PythonInputQueue, prepare_worker_stdin_payload, normalize_from,
  normalize_pty_input_payload, refill_stdin_bytes, consume_bytes, line_len, consume_line,
}

-- All that readers can still get, payload after payload.
abbrev pub payload_bytes : List Bytes → Bytes
payload_bytes [] = []
payload_bytes (p ∷ ps) =
    normalize_pty_input_payload (prepare_worker_stdin_payload p) ++ payload_bytes ps

abbrev pub unread : PythonInputQueue → Bytes
unread q = q.stdin_bytes ++ payload_bytes q.payloads

abbrev pub got : Option Bytes → Bytes
got none = []
got (some bs) = bs

refill_unread_from :
    (ps : List Bytes) (bs : Bytes) (active : Bool)
    → unread (
        refill_stdin_bytes
          (record { payloads = ps; stdin_bytes = bs; active_read_consumer = active }))
      ≡ bs ++ payload_bytes ps
unfolding refill_stdin_bytes
refill_unread_from [] [] active = refl
refill_unread_from [] (b ∷ bs) active = refl
refill_unread_from (p ∷ ps) [] active = refl
refill_unread_from (p ∷ ps) (b ∷ bs) active = refl

refill_stdin_bytes-unread : (q : PythonInputQueue) → unread (refill_stdin_bytes q) ≡ unread q
refill_stdin_bytes-unread q = refill_unread_from q.payloads q.stdin_bytes q.active_read_consumer

pub consume_bytes-unread :
    (n : ℕ) (q : PythonInputQueue) → let r = consume_bytes n q in got r.0 ++ unread r.1 ≡ unread q
unfolding consume_bytes
consume_bytes-unread n q =
    let r = refill_stdin_bytes q in
    let m = min n (length r.stdin_bytes) in
    ground (
      arith,
      refill_stdin_bytes-unread q,
      append_assoc (take m r.stdin_bytes) (drop m r.stdin_bytes) (payload_bytes r.payloads),
      take-append-drop m r.stdin_bytes,
    )

-- The reads of a client: a number of bytes, or a line.
pub data Read : Type 0 where
  bytes : ℕ → Read
  line : Read

unfoldable pub read : Read → PythonInputQueue → Option Bytes × PythonInputQueue
read (bytes n) q = consume_bytes n q
read line q = consume_line q

unfoldable pub read_all : List Read → PythonInputQueue → Bytes × PythonInputQueue
read_all [] q = ([], q)
read_all (c ∷ cs) q = let r = read c q in let rest = read_all cs r.1 in (got r.0 ++ rest.0, rest.1)

read-unread :
    (c : Read) (q : PythonInputQueue) → let r = read c q in got r.0 ++ unread r.1 ≡ unread q
unfolding read consume_line
read-unread (bytes n) q = consume_bytes-unread n q
read-unread line q =
    let r = refill_stdin_bytes q in
    consume_bytes-unread (line_len r.stdin_bytes) r ∙ refill_stdin_bytes-unread q

-- Any sequence of reads, of lines or of numbers of bytes, gets the bytes that were waiting, in
-- order: what the reads return, followed by what is still unread, is what was unread before, each
-- payload with its newline and normalised.
pub read_all-unread :
    (cs : List Read) (q : PythonInputQueue) → let r = read_all cs q in r.0 ++ unread r.1 ≡ unread q
unfolding read_all
read_all-unread [] q = refl
read_all-unread (c ∷ cs) q =
    let r = read c q in
    let rest = read_all cs r.1 in
    append_assoc (got r.0) rest.0 (unread rest.1)
    ∙ (ap (λ t. got r.0 ++ t) (read_all-unread cs r.1) ∙ read-unread c q)

abbrev NoReturn : Bytes → Type 0
NoReturn = All (λ b. (b == b'\r') ≡ false)

normalize_from-NoReturn : (after : Bool) (bs : Bytes) → NoReturn (normalize_from after bs)
unfolding normalize_from
normalize_from-NoReturn after [] = tt
normalize_from-NoReturn after (b ∷ bs) =
    ground (arith, normalize_from-NoReturn true bs, normalize_from-NoReturn false bs)

-- Without carriage returns there is nothing to do.
normalize-NoReturn : (bs : Bytes) → NoReturn bs → normalize_from false bs ≡ bs
unfolding normalize_from
normalize-NoReturn [] n = refl
normalize-NoReturn (b ∷ bs) n = ground (arith, n.0, normalize-NoReturn bs n.1)

-- A normalised payload normalises to itself, and has no carriage return.
normalize_pty_input_payload_idem :
    (payload : Bytes)
    → let n = normalize_pty_input_payload payload in
      NoReturn n × (normalize_pty_input_payload n ≡ n)
unfolding normalize_pty_input_payload
normalize_pty_input_payload_idem payload = (
  normalize_from-NoReturn false payload,
  normalize-NoReturn (normalize_from false payload) (normalize_from-NoReturn false payload),
)

-- `replace("\r\n", "\n")`.
unfoldable pub replace_crlf : Bytes → Bytes
replace_crlf [] = []
replace_crlf (b ∷ []) = b ∷ []
replace_crlf (b ∷ c ∷ bs) =
    let rest = replace_crlf bs in
    let more = replace_crlf (c ∷ bs) in
    if (b == b'\r') && (c == b'\n') then b'\n' ∷ rest else b ∷ more

-- `replace("\r", "\n")`.
abbrev pub replace_cr : Bytes → Bytes
replace_cr = map (λ b. if b == b'\r' then b'\n' else b)

normalize_from-replace : (bs : Bytes) → normalize_from false bs ≡ replace_cr (replace_crlf bs)
unfolding normalize_from replace_crlf
normalize_from-replace [] = refl
normalize_from-replace (b ∷ []) = ground arith
normalize_from-replace (b ∷ c ∷ bs) =
    ground (arith, normalize_from-replace bs, normalize_from-replace (c ∷ bs))

-- One pass over a payload does what two replacements do: first each carriage return that a newline
-- follows becomes, with it, one newline, and then each carriage return that is left becomes a
-- newline; every other byte stays in its place.
pub normalize_pty_input_payload-replace :
    (payload : Bytes) → normalize_pty_input_payload payload ≡ replace_cr (replace_crlf payload)
unfolding normalize_pty_input_payload
normalize_pty_input_payload-replace payload = normalize_from-replace payload
