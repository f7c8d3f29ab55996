-- ===== src/Capture/Tails/Gaps.antt =====
-- `drain_ready_after_visible_gaps` of src/output_capture.rs: nothing visible waits behind an
-- incomplete character.
use mcp_repl.Prelude.{
  ℕ, zero, suc, ◌*◌, ◌≤◌, ◌≡◌, refl, ap, ◌⊎◌, inl, inr, Bool-cases, not, any, true, false, List, [],
  ◌∷◌, ◌++◌, append-nil, length, drop, length-drop, All, u64_max, arith,
}
use mcp_repl.Capture.Types.{Bytes, OutputEventKind}
use mcp_repl.Capture.Utf8.Decode.{flushable_prefix_len}
use mcp_repl.Capture.Utf8.Agree.{flushable_prefix_len_bounds, flushable_prefix_len-append}
use mcp_repl.Capture.Tails.Queue.{
  OutputPendingEntry, text, event, Entries, held_part, is_marker_event, has_later_visible,
  drain_gaps_loop, drain_ready_after_visible_gaps,
}

-- The bytes of every entry fit in memory.
abbrev pub IsSmall : OutputPendingEntry → Type 0
IsSmall (text t) = length t.bytes ≤ u64_max
IsSmall (event kind) = Unit {0}

abbrev pub AreMarkers : Entries → Type 0
AreMarkers = All (λ e. is_marker_event e ≡ true)

-- Nothing, or the start of a character with only markers behind it.
abbrev pub IsSettled : Entries → Type 0
IsSettled [] = Unit {0}
IsSettled (event kind ∷ es) = ⊥
IsSettled (text t ∷ es) = (t.sealed ≡ false) × (flushable_prefix_len t.bytes ≡ 0) × AreMarkers es

AreMarkers-of : (es : Entries) → any (λ x. not (is_marker_event x)) es ≡ false → AreMarkers es
AreMarkers-of [] h = tt
AreMarkers-of (e ∷ es) h = elim (Bool-cases (is_marker_event e)) [
  | inl m ↦ (m, AreMarkers-of es (rw m at h))
  | inr m ↦ ground (arith, m)
]

flushable_prefix_len-held :
    (bytes : Bytes)
    → length bytes ≤ u64_max
    → flushable_prefix_len (drop (flushable_prefix_len bytes) bytes) ≡ 0
flushable_prefix_len-held bytes u =
    let a = flushable_prefix_len-append bytes [] (rw (append-nil bytes) u) in
    omega (
      arith,
      a,
      ap flushable_prefix_len (append-nil bytes),
      ap flushable_prefix_len (append-nil (drop (flushable_prefix_len bytes) bytes)),
    )

-- Is the front an open entry with no complete character?
abbrev FrontHeld : Entries → Type 0
FrontHeld [] = ⊥
FrontHeld (event kind ∷ es) = ⊥
FrontHeld (text t ∷ es) = flushable_prefix_len t.bytes ≡ 0

drain_gaps_loop-IsSettled :
    (fuel : ℕ) (es : Entries)
    → All IsSmall es
    → (2 * length es ≤ fuel) ⊎ ((2 * length es ≤ suc fuel) × FrontHeld es)
    → IsSettled (drain_gaps_loop fuel es).1
unfolding drain_gaps_loop has_later_visible
drain_gaps_loop-IsSettled zero [] s f = tt
drain_gaps_loop-IsSettled (suc fuel) [] s f = tt
drain_gaps_loop-IsSettled zero (event kind ∷ es) s f = ground arith
drain_gaps_loop-IsSettled zero (text t ∷ es) s f = ground arith
drain_gaps_loop-IsSettled (suc fuel) (event kind ∷ es) s f =
    drain_gaps_loop-IsSettled fuel es s.1 (ground arith)
drain_gaps_loop-IsSettled (suc fuel) (text t ∷ es) s f =
    let len = length-drop (flushable_prefix_len t.bytes) t.bytes in
    let small : All IsSmall (held_part t ∷ es) = (omega (arith, len, s.0), s.1) in
    ground (
      arith,
      AreMarkers-of es,
      flushable_prefix_len_bounds t.bytes s.0,
      flushable_prefix_len-held t.bytes s.0,
      drain_gaps_loop-IsSettled fuel es s.1,
      drain_gaps_loop-IsSettled fuel (held_part t ∷ es) small,
    )

-- After the drain of entries of at most u64::MAX bytes each, nothing is left, or the front is an
-- open entry with no complete character and only markers stand behind it.
pub drain_ready_after_visible_gaps-IsSettled :
    (es : Entries) → All IsSmall es → IsSettled (drain_ready_after_visible_gaps es).1
unfolding drain_ready_after_visible_gaps
drain_ready_after_visible_gaps-IsSettled es s =
    drain_gaps_loop-IsSettled (suc (2 * length es)) es s (inl (omega arith))

abbrev pub events_of : Entries → List OutputEventKind
events_of [] = []
events_of (text t ∷ es) = events_of es
events_of (event kind ∷ es) = kind ∷ events_of es

drain_gaps_loop-events :
    (fuel : ℕ) (es : Entries)
    → events_of (drain_gaps_loop fuel es).0 ++ events_of (drain_gaps_loop fuel es).1 ≡ events_of es
unfolding drain_gaps_loop
drain_gaps_loop-events zero es = refl
drain_gaps_loop-events (suc fuel) [] = refl
drain_gaps_loop-events (suc fuel) (event kind ∷ es) =
    ap (λ t. kind ∷ t) (drain_gaps_loop-events fuel es)
drain_gaps_loop-events (suc fuel) (text t ∷ es) =
    ground (arith, drain_gaps_loop-events fuel es, drain_gaps_loop-events fuel (held_part t ∷ es))

-- The drain hands on and leaves the events that waited, each once and in order.
pub drain_ready_after_visible_gaps-events :
    (es : Entries)
    → let r = drain_ready_after_visible_gaps es in events_of r.0 ++ events_of r.1 ≡ events_of es
unfolding drain_ready_after_visible_gaps
drain_ready_after_visible_gaps-events es = drain_gaps_loop-events (suc (2 * length es)) es
