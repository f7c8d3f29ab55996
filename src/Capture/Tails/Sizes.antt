-- ===== src/Capture/Tails/Sizes.antt =====
-- How much text the entries of src/output_capture.rs can still become: an escaped byte takes four.
use mcp_repl.Prelude.{
  ℕ, zero, suc, ◌+◌, ◌*◌, ◌≤◌, ◌≡◌, refl, Bool, false, some, [], ◌∷◌, ◌++◌, map, length, take, drop,
  arith, length-append, length-take, length-drop, Option-cases, inl, inr,
}
use mcp_repl.Capture.Types.{Bytes, OutputEventKind}
use mcp_repl.Capture.Utf8.Decode.{flushable_prefix_len}
use mcp_repl.Capture.Tails.Queue.{
  OutputUtf8TailKey, OutputUtf8Tail, text, event, Entries, escape_bytes,
  escape_incomplete_utf8_tail, materialize, drain_ready, drain_gaps_loop,
  drain_ready_after_visible_gaps, drain_ready_bounded, change_open, get_or_same, seal_and_push,
  insert_bytes, push, push_event, drain, seal_entry, seal, extend_tail, held_part,
}

-- The text of the entries, of all streams.
abbrev pub text_bytes : Entries → Bytes
text_bytes [] = []
text_bytes (text t ∷ es) = t.bytes ++ text_bytes es
text_bytes (event kind ∷ es) = text_bytes es

-- The most bytes that waiting entries become.
abbrev pub reserve : Entries → ℕ
reserve [] = 0
reserve (text t ∷ es) = 4 * length t.bytes + reserve es
reserve (event kind ∷ es) = reserve es

length-escape_bytes : (bs : Bytes) → length (escape_bytes bs) ≡ 4 * length bs
unfolding escape_bytes
length-escape_bytes [] = refl
length-escape_bytes (b ∷ bs) = omega (arith, length-escape_bytes bs)

length-materialize : (t : OutputUtf8Tail) → length (materialize t).bytes ≤ 4 * length t.bytes
unfolding materialize escape_incomplete_utf8_tail
length-materialize t =
    let n = flushable_prefix_len t.bytes in
    ground (
      arith,
      length-append (take n t.bytes) (escape_bytes (drop n t.bytes)),
      length-take n t.bytes,
      length-drop n t.bytes,
      length-escape_bytes (drop n t.bytes),
    )

-- What a drain hands on fits in what was reserved for it.
abbrev Within : ℕ → Entries × Entries → Type 0
Within n d = length (text_bytes d.0) + reserve d.1 ≤ n

-- The lengths of the parts of the front entry.
front_parts :
    (t : OutputUtf8Tail) (ready rest : Entries)
    → (length ((materialize t).bytes ++ text_bytes ready)
        ≤ 4 * length t.bytes + length (text_bytes ready))
      × (length (t.bytes ++ text_bytes ready) ≡ length t.bytes + length (text_bytes ready))
front_parts t ready rest = (
  omega (arith, length-append (materialize t).bytes (text_bytes ready), length-materialize t),
  length-append t.bytes (text_bytes ready),
)

split_parts :
    (t : OutputUtf8Tail) (ready : Entries)
    → let n = flushable_prefix_len t.bytes in
      length (take n t.bytes ++ text_bytes ready) + 4 * length (drop n t.bytes)
      ≤ 4 * length t.bytes + length (text_bytes ready)
split_parts t ready =
    let n = flushable_prefix_len t.bytes in
    omega (
      arith,
      length-append (take n t.bytes) (text_bytes ready),
      length-take n t.bytes,
      length-drop n t.bytes,
    )

drain_ready_size : (es : Entries) → Within (reserve es) (drain_ready es)
unfolding drain_ready
drain_ready_size [] = omega arith
drain_ready_size (event kind ∷ es) = drain_ready_size es
drain_ready_size (text t ∷ es) =
    ground (arith, drain_ready_size es, front_parts t (drain_ready es).0 es, split_parts t [])

drain_gaps_loop_size : (fuel : ℕ) (es : Entries) → Within (reserve es) (drain_gaps_loop fuel es)
unfolding drain_gaps_loop
drain_gaps_loop_size zero es = omega arith
drain_gaps_loop_size (suc fuel) [] = omega arith
drain_gaps_loop_size (suc fuel) (event kind ∷ es) = drain_gaps_loop_size fuel es
drain_gaps_loop_size (suc fuel) (text t ∷ es) = ground (
  arith,
  drain_gaps_loop_size fuel es,
  drain_gaps_loop_size fuel (held_part t ∷ es),
  front_parts t (drain_gaps_loop fuel es).0 es,
  front_parts (seal t) (drain_gaps_loop fuel es).0 es,
  split_parts t [],
  split_parts t (drain_gaps_loop fuel (held_part t ∷ es)).0,
)

pub drain_ready_after_visible_gaps_size :
    (es : Entries) → Within (reserve es) (drain_ready_after_visible_gaps es)
unfolding drain_ready_after_visible_gaps
drain_ready_after_visible_gaps_size es = drain_gaps_loop_size (suc (2 * length es)) es

text_bytes-append :
    (es fs : Entries)
    → length (text_bytes (es ++ fs)) ≡ length (text_bytes es) + length (text_bytes fs)
text_bytes-append [] fs = omega arith
text_bytes-append (text t ∷ es) fs = omega (
  arith,
  length-append t.bytes (text_bytes (es ++ fs)),
  length-append t.bytes (text_bytes es),
  text_bytes-append es fs,
)
text_bytes-append (event kind ∷ es) fs = text_bytes-append es fs

drain_ready_bounded_size :
    (capacity : ℕ) (es : Entries) → Within (reserve es) (drain_ready_bounded capacity es)
unfolding drain_ready_bounded
drain_ready_bounded_size capacity es =
    let r = drain_ready es in
    let more = drain_ready_after_visible_gaps r.1 in
    ground (
      arith,
      drain_ready_size es,
      drain_ready_after_visible_gaps_size r.1,
      text_bytes-append r.0 more.0,
    )

reserve-append : (es fs : Entries) → reserve (es ++ fs) ≡ reserve es + reserve fs
reserve-append [] fs = omega arith
reserve-append (text t ∷ es) fs = omega (arith, reserve-append es fs)
reserve-append (event kind ∷ es) fs = reserve-append es fs

-- Changing an open entry adds at most what it adds to that entry.
change_open_size :
    (key : OutputUtf8TailKey) (f : OutputUtf8Tail → OutputUtf8Tail) (n : ℕ) (es : Entries)
    {es' : Entries}
    → ((t : OutputUtf8Tail) → length (f t).bytes ≡ length t.bytes + n)
    → change_open key f es ≡ some es'
    → reserve es' ≡ reserve es + 4 * n
unfolding change_open
change_open_size key f n [] h e = ground (arith, e)
change_open_size key f n (event kind ∷ es) h e = elim (Option-cases (change_open key f es)) [
  | inl q ↦ ground (arith, q, e)
  | inr (r, q) ↦ ground (arith, q, e, change_open_size key f n es {es' = r} h q)
]
change_open_size key f n (text t ∷ es) h e = elim (Option-cases (change_open key f es)) [
  | inl q ↦ ground (arith, q, e, h t)
  | inr (r, q) ↦ ground (arith, q, e, h t, change_open_size key f n es {es' = r} h q)
]

seal_and_push_size :
    (key : OutputUtf8TailKey) (bytes : Bytes) (es : Entries)
    → reserve (seal_and_push key bytes es) ≡ reserve es + 4 * length bytes
unfolding seal_and_push get_or_same
seal_and_push_size key bytes es =
    let last = text (record { key = key; bytes = bytes; sealed = false }) ∷ [] in
    elim (Option-cases (change_open key seal es)) [
      | inl q ↦ ground (arith, q, reserve-append es last)
      | inr (r, q) ↦ ground (
        arith,
        q,
        reserve-append r last,
        change_open_size key seal 0 es {es' = r} (λ t. omega arith) q,
      )
    ]

insert_bytes_size :
    (key : OutputUtf8TailKey) (bytes : Bytes) (continued : Bool) (es : Entries)
    → reserve (insert_bytes key bytes continued es) ≡ reserve es + 4 * length bytes
unfolding insert_bytes
insert_bytes_size key bytes continued es =
    elim (Option-cases (change_open key (λ t. extend_tail t bytes) es)) [
      | inl q ↦ ground (arith, q, seal_and_push_size key bytes es)
      | inr (r, q) ↦ ground (
        arith,
        q,
        seal_and_push_size key bytes es,
        change_open_size key (λ t. extend_tail t bytes) (length bytes) es {es' = r}
            (λ t. length-append t.bytes bytes) q,
      )
    ]

pub push_size :
    (key : OutputUtf8TailKey) (bytes : Bytes) (continued : Bool) (capacity : ℕ) (es : Entries)
    → Within (reserve es + 4 * length bytes) (push key bytes continued capacity es)
unfolding push
push_size key [] continued capacity es = omega arith
push_size key (b ∷ bs) continued capacity es = omega (
  arith,
  drain_ready_bounded_size capacity (insert_bytes key (b ∷ bs) continued es),
  insert_bytes_size key (b ∷ bs) continued es,
)

pub push_event_size :
    (kind : OutputEventKind) (capacity : ℕ) (es : Entries)
    → Within (reserve es) (push_event kind capacity es)
unfolding push_event
push_event_size kind capacity es = omega (
  arith,
  drain_ready_bounded_size capacity (es ++ (event kind ∷ [])),
  reserve-append es (event kind ∷ []),
)

reserve_sealed : (es : Entries) → reserve (map seal_entry es) ≡ reserve es
reserve_sealed [] = refl
reserve_sealed (text t ∷ es) = omega (arith, reserve_sealed es)
reserve_sealed (event kind ∷ es) = reserve_sealed es

pub drain_size : (es : Entries) → Within (reserve es) (drain es)
unfolding drain
drain_size es = omega (arith, drain_ready_size (map seal_entry es), reserve_sealed es)
