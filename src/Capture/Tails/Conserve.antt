-- ===== src/Capture/Tails/Conserve.antt =====
-- What the drains of src/output_capture.rs hand on: everything, in order.
use mcp_repl.Prelude.{
  ℕ, ◌≡◌, refl, ap, false, List, [], ◌∷◌, ◌++◌, append-nil, append_assoc, map, take, drop,
  take-append-drop, arith,
}
use mathlib.Core.List.{map-append}
use mcp_repl.Capture.Types.{Bytes, OutputEventKind}
use mcp_repl.Capture.Utf8.Decode.{flushable_prefix_len}
use mcp_repl.Capture.Tails.Queue.{
  OutputUtf8TailKey, OutputUtf8Tail, text, event, Entries, materialize, drain_ready,
}

-- What the timeline shows: bytes of a stream, and events.
pub data Item : Type 0 where
  byte : OutputUtf8TailKey → ℕ → Item
  occurred : OutputEventKind → Item

abbrev pub tagged : OutputUtf8TailKey → Bytes → List Item
tagged key = map (byte key)

-- What entries that are ready add to the timeline.
abbrev pub output : Entries → List Item
output [] = []
output (text t ∷ es) = tagged t.key t.bytes ++ output es
output (event kind ∷ es) = occurred kind ∷ output es

-- What waiting entries will add: a sealed one shows its incomplete end escaped.
abbrev pub pending : Entries → List Item
pending [] = []
pending (text t ∷ es) = tagged t.key (materialize t).bytes ++ pending es
pending (event kind ∷ es) = occurred kind ∷ pending es

split_bytes :
    (t : OutputUtf8Tail) (rest : List Item)
    → t.sealed ≡ false
    → let n = flushable_prefix_len t.bytes in
      (tagged t.key (take n t.bytes) ++ []) ++ (tagged t.key (drop n t.bytes) ++ rest)
      ≡ tagged t.key t.bytes ++ rest
split_bytes t rest e =
    let n = flushable_prefix_len t.bytes in
    simp (append-nil, ← append_assoc, ← map-append, take-append-drop)

pub materialize_open : (t : OutputUtf8Tail) → t.sealed ≡ false → (materialize t).bytes ≡ t.bytes
unfolding materialize
materialize_open t e = ground (arith, e)

pub materialize_key : (t : OutputUtf8Tail) → (materialize t).key ≡ t.key
unfolding materialize
materialize_key t = ground arith

-- What drain_ready hands on, followed by what it leaves, is what was waiting: nothing is lost,
-- doubled, or put in another order.
pub drain_ready-output :
    (es : Entries) → output (drain_ready es).0 ++ pending (drain_ready es).1 ≡ pending es
unfolding drain_ready
drain_ready-output [] = refl
drain_ready-output (event kind ∷ es) = ap (λ t. occurred kind ∷ t) (drain_ready-output es)
drain_ready-output (text t ∷ es) =
    let r = drain_ready es in
    let held : OutputUtf8Tail = record t { bytes = drop (flushable_prefix_len t.bytes) t.bytes } in
    ground (
      arith,
      drain_ready-output es,
      materialize_key t,
      materialize_open t,
      materialize_open held,
      append_assoc (tagged t.key (materialize t).bytes) (output r.0) (pending r.1),
      append_assoc (tagged t.key t.bytes) (output r.0) (pending r.1),
      split_bytes t (pending es),
    )
