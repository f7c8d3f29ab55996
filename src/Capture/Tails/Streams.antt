-- ===== src/Capture/Tails/Streams.antt =====
-- The order of the bytes of one stream through `OutputUtf8Tails::push` (src/output_capture.rs).
use mcp_repl.Prelude.{
  ℕ, ◌≤◌, ◌≡◌, refl, sym, ◌∙◌, ap, inl, inr, Bool-cases, Option-cases, Bool, true, false, none,
  some, if◌then◌else◌, List, [], ◌∷◌, ◌++◌, append-nil, append_assoc, All, arith,
}
use mcp_repl.Capture.Types.{Bytes, OutputEventKind}
use mcp_repl.Capture.Tails.Queue.{
  OutputUtf8TailKey, OutputUtf8Tail, OutputPendingEntry, text, event, Entries, materialize, seal,
  extend_tail, key_eq, is_open, drain_ready, drain_ready_bounded, blocked_side_buffer_bytes,
  change_open, get_or_same, seal_and_push, insert_bytes, push,
}
use mcp_repl.Capture.Tails.Conserve.{
  Item, byte, occurred, tagged, output, pending, drain_ready-output, materialize_open,
}

-- The bytes of one stream in the timeline.
unfoldable pub stream : OutputUtf8TailKey → List Item → Bytes
stream key [] = []
stream key (occurred kind ∷ is) = stream key is
stream key (byte k b ∷ is) = if key_eq k key then b ∷ stream key is else stream key is

stream-nil : (key : OutputUtf8TailKey) → stream key [] ≡ []
unfolding stream
stream-nil key = refl

stream-append :
    (key : OutputUtf8TailKey) (is js : List Item)
    → stream key (is ++ js) ≡ stream key is ++ stream key js
unfolding stream
stream-append key [] js = refl
stream-append key (occurred kind ∷ is) js = stream-append key is js
stream-append key (byte k b ∷ is) js = ground (arith, stream-append key is js)

stream-tagged :
    (key k : OutputUtf8TailKey) (bs : Bytes)
    → stream key (tagged k bs) ≡ (if key_eq k key then bs else [])
unfolding stream
stream-tagged key k [] = ground arith
stream-tagged key k (b ∷ bs) = ground (arith, stream-tagged key k bs)

abbrev pub has_key : OutputUtf8TailKey → OutputPendingEntry → Bool
has_key key (text t) = key_eq t.key key
has_key key (event kind) = false

abbrev pub NoKey : OutputUtf8TailKey → Entries → Type 0
NoKey key = All (λ e. has_key key e ≡ false)

-- An open entry of the key is the last of its stream.
abbrev pub LastOpen : OutputUtf8TailKey → Entries → Type 0
LastOpen key [] = Unit {0}
LastOpen key (e ∷ es) = (is_open key e ≡ true → NoKey key es) × LastOpen key es

stream-NoKey :
    (key : OutputUtf8TailKey) (es : Entries) → NoKey key es → stream key (pending es) ≡ []
unfolding stream
stream-NoKey key [] n = refl
stream-NoKey key (event kind ∷ es) n = stream-NoKey key es n.1
stream-NoKey key (text t ∷ es) n = ground (
  arith,
  stream-append key (tagged t.key (materialize t).bytes) (pending es),
  stream-tagged key t.key (materialize t).bytes,
  stream-NoKey key es n.1,
)

-- The stream of a text entry and what follows.
stream-text :
    (key : OutputUtf8TailKey) (t : OutputUtf8Tail) (es : Entries)
    → stream key (pending (text t ∷ es))
      ≡ (if key_eq t.key key then (materialize t).bytes else []) ++ stream key (pending es)
stream-text key t es =
    stream-append key (tagged t.key (materialize t).bytes) (pending es)
    ∙ ap (λ u. u ++ stream key (pending es)) (stream-tagged key t.key (materialize t).bytes)

stream-event :
    (key : OutputUtf8TailKey) (kind : OutputEventKind) (es : Entries)
    → stream key (pending (event kind ∷ es)) ≡ stream key (pending es)
unfolding stream
stream-event key kind es = refl

change_open_front :
    (key : OutputUtf8TailKey) (bytes : Bytes) (t : OutputUtf8Tail) (es : Entries)
    → LastOpen key (text t ∷ es)
    → is_open key (text t) ≡ true
    → stream key (pending (text (extend_tail t bytes) ∷ es))
      ≡ stream key (pending (text t ∷ es)) ++ bytes
change_open_front key bytes t es l o = ground (
  arith,
  o,
  l.0 o,
  stream-NoKey key es,
  stream-text key t es,
  stream-text key (extend_tail t bytes) es,
  materialize_open t,
  materialize_open (extend_tail t bytes),
  append-nil t.bytes,
  append-nil (t.bytes ++ bytes),
)

change_open-stream :
    (key : OutputUtf8TailKey) (bytes : Bytes) (es : Entries) {es' : Entries}
    → LastOpen key es
    → change_open key (λ t. extend_tail t bytes) es ≡ some es'
    → stream key (pending es') ≡ stream key (pending es) ++ bytes
unfolding change_open
change_open-stream key bytes [] l e = cc
change_open-stream key bytes (event kind ∷ es) {es'} l e =
    elim (Option-cases (change_open key (λ t. extend_tail t bytes) es)) [
      | inl q ↦ ground (arith, q)
      | inr (r, q) ↦ ground (
        arith,
        q,
        stream-event key kind r,
        stream-event key kind es,
        change_open-stream key bytes es {es' = r} l.1 q,
      )
    ]
change_open-stream key bytes (text t ∷ es) {es'} l e =
    let open_case = change_open_front key bytes t es l in
    elim (Bool-cases (is_open key (text t))) [
      | inl o ↦ ground (arith, o, open_case o)
      | inr c ↦ elim (Option-cases (change_open key (λ t'. extend_tail t' bytes) es)) [
        | inl q ↦ ground (arith, c, q)
        | inr (r, q) ↦ ground (
          arith,
          c,
          q,
          stream-text key t r,
          stream-text key t es,
          append_assoc (if key_eq t.key key then (materialize t).bytes else [])
              (stream key (pending es)) bytes,
          change_open-stream key bytes es {es' = r} l.1 q,
        )
      ]
    ]

change_open-none :
    (key : OutputUtf8TailKey) (f g : OutputUtf8Tail → OutputUtf8Tail) (es : Entries)
    → change_open key f es ≡ none
    → change_open key g es ≡ none
unfolding change_open
change_open-none key f g [] e = refl
change_open-none key f g (event kind ∷ es) e = ground (arith, change_open-none key f g es)
change_open-none key f g (text t ∷ es) e = ground (arith, change_open-none key f g es)

pending-append : (es fs : Entries) → pending (es ++ fs) ≡ pending es ++ pending fs
pending-append [] fs = refl
pending-append (event kind ∷ es) fs = ap (λ u. occurred kind ∷ u) (pending-append es fs)
pending-append (text t ∷ es) fs =
    ap (λ u. tagged t.key (materialize t).bytes ++ u) (pending-append es fs)
    ∙ sym (append_assoc (tagged t.key (materialize t).bytes) (pending es) (pending fs))

key_eq_refl : (key : OutputUtf8TailKey) → key_eq key key ≡ true
key_eq_refl key = ground arith

pushed_stream :
    (key : OutputUtf8TailKey) (bytes : Bytes) (es : Entries)
    → let t : OutputUtf8Tail = record { key = key; bytes = bytes; sealed = false } in
      stream key (pending (es ++ (text t ∷ []))) ≡ stream key (pending es) ++ bytes
pushed_stream key bytes es =
    let t : OutputUtf8Tail = record { key = key; bytes = bytes; sealed = false } in
    ground (
      arith,
      ap (stream key) (pending-append es (text t ∷ [])),
      stream-append key (pending es) (pending (text t ∷ [])),
      stream-text key t [],
      stream-nil key,
      materialize_open t,
      key_eq_refl key,
      append-nil bytes,
    )

insert_bytes-stream :
    (key : OutputUtf8TailKey) (bytes : Bytes) (es : Entries)
    → LastOpen key es
    → stream key (pending (insert_bytes key bytes true es)) ≡ stream key (pending es) ++ bytes
unfolding insert_bytes seal_and_push get_or_same
insert_bytes-stream key bytes es l =
    elim (Option-cases (change_open key (λ t. extend_tail t bytes) es)) [
      | inl q ↦ ground (
        arith,
        q,
        change_open-none key (λ t. extend_tail t bytes) seal es q,
        pushed_stream key bytes es,
      )
      | inr (r, q) ↦ ground (arith, q, change_open-stream key bytes es {es' = r} l q)
    ]

-- A push that continues a stream whose open entry, if any, is the last of the stream, and after
-- which the side buffer is within its bound: what the stream shows, in what is handed on and then
-- in what waits, is what waited before and the bytes.
pub push-stream :
    (key : OutputUtf8TailKey) (bytes : Bytes) (capacity : ℕ) (es : Entries)
    → LastOpen key es
    → blocked_side_buffer_bytes (drain_ready (insert_bytes key bytes true es)).1 ≤ capacity
    → let r = push key bytes true capacity es in
      stream key (output r.0) ++ stream key (pending r.1) ≡ stream key (pending es) ++ bytes
unfolding push drain_ready_bounded stream
push-stream key [] capacity es l h = sym (append-nil _)
push-stream key (b ∷ bs) capacity es l h =
    let es' = insert_bytes key (b ∷ bs) true es in
    let r = drain_ready es' in
    ground (
      arith,
      stream-append key (output r.0) (pending r.1),
      ap (stream key) (drain_ready-output es'),
      insert_bytes-stream key (b ∷ bs) es l,
    )
