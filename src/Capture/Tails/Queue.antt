-- ===== src/Capture/Tails/Queue.antt =====
-- `OutputUtf8Tails` of src/output_capture.rs. A method returns the entries that are ready and the
-- entries that stay.
use mcp_repl.Prelude.{
  ℕ, zero, suc, ◌+◌, ◌-◌, ◌*◌, ◌/◌, ◌%◌, ltb, ◌==◌, Bool, true, false, not, ◌&&◌, ◌||◌, Option,
  none, some, if◌then◌else◌, List, [], ◌∷◌, ◌++◌, map, length, take, drop, any, saturating_add,
  is_empty,
}
use mcp_repl.Capture.Types.{
  Bytes, ContentOrigin, OutputTextSource, OutputEventKind, input_wait, request_boundary,
  session_end, event_size_bytes, bool_eq, origin_eq, source_eq,
}
use mcp_repl.Capture.Utf8.Decode.{flushable_prefix_len}

pub record OutputUtf8TailKey : Type 0 where
  pub is_stderr : Bool
  pub origin : ContentOrigin
  pub source : OutputTextSource

pub record OutputUtf8Tail : Type 0 where
  pub key : OutputUtf8TailKey
  pub bytes : Bytes
  pub sealed : Bool

pub data OutputPendingEntry : Type 0 where
  text : OutputUtf8Tail → OutputPendingEntry
  event : OutputEventKind → OutputPendingEntry

abbrev pub Entries : Type 0
Entries = List OutputPendingEntry

abbrev pub key_eq : OutputUtf8TailKey → OutputUtf8TailKey → Bool
key_eq a b =
    bool_eq a.is_stderr b.is_stderr && (origin_eq a.origin b.origin && source_eq a.source b.source)

abbrev pub is_marker_event : OutputPendingEntry → Bool
is_marker_event (event input_wait) = true
is_marker_event (event request_boundary) = true
is_marker_event (event session_end) = true
is_marker_event _ = false

unfoldable pub is_flushable : OutputUtf8Tail → Bool
is_flushable t = t.sealed || (flushable_prefix_len t.bytes == length t.bytes)

-- The entry that more bytes of a key may complete.
abbrev pub is_open : OutputUtf8TailKey → OutputPendingEntry → Bool
is_open key (text t) = key_eq t.key key && (not t.sealed && not (is_flushable t))
is_open key (event kind) = false

-- An upper-case hexadecimal digit.
abbrev pub hex_digit : ℕ → ℕ
hex_digit d = if ltb d 10 then b'0' + d else b'A' + (d - 10)

-- `\x{byte:02X}` of each byte.
unfoldable pub escape_bytes : Bytes → Bytes
escape_bytes [] = []
escape_bytes (b ∷ bs) = b'\\' ∷ b'x' ∷ hex_digit (b / 16) ∷ hex_digit (b % 16) ∷ escape_bytes bs

unfoldable pub escape_incomplete_utf8_tail : Bytes → Bytes
escape_incomplete_utf8_tail bytes =
    let flushable_len = flushable_prefix_len bytes in
    if flushable_len == length bytes
    then bytes
    else take flushable_len bytes ++ escape_bytes (drop flushable_len bytes)

unfoldable pub materialize : OutputUtf8Tail → OutputUtf8Tail
materialize t = if t.sealed then record t { bytes = escape_incomplete_utf8_tail t.bytes } else t

abbrev pub pending_entry_size_bytes : OutputPendingEntry → ℕ
pending_entry_size_bytes (text t) = length t.bytes
pending_entry_size_bytes (event kind) = event_size_bytes kind

abbrev pub seal : OutputUtf8Tail → OutputUtf8Tail
seal t = record t { sealed = true }

abbrev pub extend_tail : OutputUtf8Tail → Bytes → OutputUtf8Tail
extend_tail t more = record t { bytes = t.bytes ++ more }

-- The first `flushable_len` bytes as an entry of their own, and what is left of the entry.
abbrev pub flushed_part : OutputUtf8Tail → OutputPendingEntry
flushed_part t =
    text
      (record { key = t.key; bytes = take (flushable_prefix_len t.bytes) t.bytes; sealed = true })

abbrev pub held_part : OutputUtf8Tail → OutputPendingEntry
held_part t = text (record t { bytes = drop (flushable_prefix_len t.bytes) t.bytes })

-- The ready entries and the rest, with one more ready in front.
abbrev pub ready_first : OutputPendingEntry → Entries × Entries → Entries × Entries
ready_first e r = (e ∷ r.0, r.1)

-- The front entry goes while it is an event, sealed, or complete; of another the complete bytes go.
unfoldable pub drain_ready : Entries → Entries × Entries
drain_ready [] = ([], [])
drain_ready (event kind ∷ es) = ready_first (event kind) (drain_ready es)
drain_ready (text t ∷ es) =
    let n = flushable_prefix_len t.bytes in
    let rest = drain_ready es in
    if t.sealed
    then ready_first (text (materialize t)) rest
    else if n == 0
    then ([], text t ∷ es)
    else if n == length t.bytes
    then ready_first (text t) rest
    else (flushed_part t ∷ [], held_part t ∷ es)

unfoldable pub has_later_visible : Entries → Bool
has_later_visible [] = false
has_later_visible (e ∷ es) = any (λ x. not (is_marker_event x)) es

-- As `drain_ready`, but a front that cannot be flushed is sealed if something visible waits behind
-- it. An entry takes two rounds at most.
unfoldable pub drain_gaps_loop : ℕ → Entries → Entries × Entries
drain_gaps_loop zero es = ([], es)
drain_gaps_loop (suc fuel) [] = ([], [])
drain_gaps_loop (suc fuel) (event kind ∷ es) = ready_first (event kind) (drain_gaps_loop fuel es)
drain_gaps_loop (suc fuel) (text t ∷ es) =
    let later = has_later_visible (text t ∷ es) in
    let n = flushable_prefix_len t.bytes in
    let rest = drain_gaps_loop fuel es in
    let held = drain_gaps_loop fuel (held_part t ∷ es) in
    if t.sealed
    then ready_first (text (materialize t)) rest
    else if n == 0
    then (if later then ready_first (text (materialize (seal t))) rest else ([], text t ∷ es))
    else if n == length t.bytes
    then ready_first (text t) rest
    else if later
    then ready_first (flushed_part t) held
    else (flushed_part t ∷ [], held_part t ∷ es)

unfoldable pub drain_ready_after_visible_gaps : Entries → Entries × Entries
drain_ready_after_visible_gaps es = drain_gaps_loop (suc (2 * length es)) es

unfoldable pub sum_sizes : ℕ → Entries → ℕ
sum_sizes total [] = total
sum_sizes total (e ∷ es) = sum_sizes (saturating_add total (pending_entry_size_bytes e)) es

unfoldable pub blocked_side_buffer_bytes : Entries → ℕ
blocked_side_buffer_bytes [] = 0
blocked_side_buffer_bytes (event kind ∷ es) = 0
blocked_side_buffer_bytes (text t ∷ es) = if t.sealed || is_flushable t then 0 else sum_sizes 0 es

unfoldable pub drain_ready_bounded : ℕ → Entries → Entries × Entries
drain_ready_bounded capacity es =
    let r = drain_ready es in
    let more = drain_ready_after_visible_gaps r.1 in
    if ltb capacity (blocked_side_buffer_bytes r.1) then (r.0 ++ more.0, more.1) else r

-- The first open entry of the key is changed.
unfoldable pub change_open :
    OutputUtf8TailKey → (OutputUtf8Tail → OutputUtf8Tail) → Entries → Option Entries
change_open key f [] = none
change_open key f (event kind ∷ es) = elim (change_open key f es) [
  | none ↦ none
  | some rest ↦ some (event kind ∷ rest)
]
change_open key f (text t ∷ es) =
    let later = change_open key f es in
    if is_open key (text t)
    then some (text (f t) ∷ es)
    else elim later [ none ↦ none | some rest ↦ some (text t ∷ rest) ]

unfoldable pub get_or_same : Option Entries → Entries → Entries
get_or_same none es = es
get_or_same (some es') es = es'

unfoldable pub seal_and_push : OutputUtf8TailKey → Bytes → Entries → Entries
seal_and_push key bytes es =
    get_or_same (change_open key seal es) es
    ++ (text (record { key = key; bytes = bytes; sealed = false }) ∷ [])

-- The entries after `push` has put the bytes in, before it drains.
unfoldable pub insert_bytes : OutputUtf8TailKey → Bytes → Bool → Entries → Entries
insert_bytes key bytes continue_previous_tail es =
    if continue_previous_tail
    then elim (change_open key (λ t. extend_tail t bytes) es) [
      | some es' ↦ es'
      | none ↦ seal_and_push key bytes es
    ]
    else seal_and_push key bytes es

unfoldable pub push : OutputUtf8TailKey → Bytes → Bool → ℕ → Entries → Entries × Entries
push key bytes continue_previous_tail capacity es =
    if is_empty bytes
    then ([], es)
    else drain_ready_bounded capacity (insert_bytes key bytes continue_previous_tail es)

unfoldable pub push_event : OutputEventKind → ℕ → Entries → Entries × Entries
push_event kind capacity es = drain_ready_bounded capacity (es ++ (event kind ∷ []))

abbrev pub seal_entry : OutputPendingEntry → OutputPendingEntry
seal_entry (text t) = text (seal t)
seal_entry (event kind) = event kind

unfoldable pub drain : Entries → Entries × Entries
drain es = drain_ready (map seal_entry es)

abbrev pub is_unflushable : OutputPendingEntry → Bool
is_unflushable (text t) = not t.sealed && not (is_flushable t)
is_unflushable (event kind) = false

unfoldable pub has_unflushable_tail : Entries → Bool
has_unflushable_tail es = any is_unflushable es
