-- ===== src/Capture/Ring/TrimTail.antt =====
-- `trim_tail_for_room` of src/output_capture.rs keeps the state sound.
use mcp_repl.Prelude.{
  isize_max, length-append, ℕ, zero, suc, ◌+◌, ◌-◌, ◌≤◌, ◌<◌, ◌≡◌, refl, ◌∙◌, ap, ◌⊎◌, inl, inr,
  false, none, some, Option-cases, List, [], ◌∷◌, ◌++◌, length, min, arith, saturating_add,
  get_last?, drop_last,
}
use mcp_repl.Capture.Types.{OutputEvent, OutputChunk, chunk_len, event_size_bytes}
use mcp_repl.Capture.Ring.State.{OutputRingInner, total_buffered_bytes}
use mcp_repl.Capture.Ring.Room.{
  pop_back_event, pop_back_events_after, cleanup_back, shrink_back, last_event_after_chunks,
  trim_tail_loop, trim_tail_for_room,
}
use mcp_repl.Capture.Ring.Invariant.{
  IsChunk, sum_chunks, sum_events, IsChain, IsSound, sum_chunks-append, sum_events-append,
}
use mcp_repl.Capture.Ring.Grow.{IsChain-snoc}
use mcp_repl.Capture.Ring.Cleanup.{Frame, Frame-refl, Frame-trans, Frame-line_ends}

-- The last element taken off.
pub get_last?-some {ℓ} :
    {A : Type ℓ} (xs : List A) {x : A} → get_last? xs ≡ some x → xs ≡ drop_last xs ++ (x ∷ [])
get_last?-some [] e = cc
get_last?-some (a ∷ []) e = cc
get_last?-some (a ∷ b ∷ xs) {x} e = ap (λ t. a ∷ t) (get_last?-some (b ∷ xs) {x = x} e)

length-drop_last {ℓ} :
    {A : Type ℓ} (xs : List A) {x : A}
    → get_last? xs ≡ some x
    → length xs ≡ suc (length (drop_last xs))
length-drop_last [] e = cc
length-drop_last (a ∷ []) e = refl
length-drop_last (a ∷ b ∷ xs) {x} e = ap suc (length-drop_last (b ∷ xs) {x = x} e)

sum_events-drop_last :
    (es : List OutputEvent) {e : OutputEvent}
    → get_last? es ≡ some e
    → sum_events es ≡ sum_events (drop_last es) + event_size_bytes e.kind
sum_events-drop_last es {e} h =
    ap sum_events (get_last?-some es h) ∙ (sum_events-append (drop_last es) (e ∷ []) ∙ omega arith)

sum_chunks-drop_last :
    (cs : List OutputChunk) {c : OutputChunk}
    → get_last? cs ≡ some c
    → sum_chunks cs ≡ sum_chunks (drop_last cs) + chunk_len c
sum_chunks-drop_last cs {c} h =
    ap sum_chunks (get_last?-some cs h) ∙ (sum_chunks-append (drop_last cs) (c ∷ []) ∙ omega arith)

pub pop_back_event-Frame :
    (g : OutputRingInner) (e : OutputEvent)
    → get_last? g.events ≡ some e
    → Frame g (pop_back_event e g)
unfolding pop_back_event
pop_back_event-Frame g e h =
    ground (arith, sum_events-drop_last g.events {e = e} h, length-drop_last g.events {x = e} h)

pop_back_event_fewer :
    (g : OutputRingInner) (e : OutputEvent)
    → get_last? g.events ≡ some e
    → length g.events ≡ suc (length (pop_back_event e g).events)
unfolding pop_back_event
pop_back_event_fewer g e h = length-drop_last g.events {x = e} h

pop_back_events_after-Frame :
    (fuel limit : ℕ) (g : OutputRingInner) → Frame g (pop_back_events_after fuel limit g)
unfolding pop_back_events_after
pop_back_events_after-Frame zero limit g = Frame-refl g
pop_back_events_after-Frame (suc fuel) limit g = elim (Option-cases (get_last? g.events)) [
  | inl q ↦ ground (arith, q)
  | inr (e, q) ↦ ground (
    arith,
    q,
    pop_back_event-Frame g e q,
    pop_back_events_after-Frame fuel limit (pop_back_event e g),
  )
]

pub cleanup_back-Frame : (g : OutputRingInner) → Frame g (cleanup_back g)
unfolding cleanup_back
cleanup_back-Frame g = Frame-trans (Frame-line_ends g _) (pop_back_events_after-Frame _ _ _)

-- The last chunk of a chain that may have gaps, and the chain before it.
IsChain-drop_last :
    (lo hi : ℕ) (cs : List OutputChunk) {c : OutputChunk}
    → IsChain false lo cs hi
    → get_last? cs ≡ some c
    → IsChain false lo (drop_last cs) c.start_offset
      × IsChunk c
      × (c.start_offset + chunk_len c ≤ hi)
IsChain-drop_last lo hi [] n e = cc
IsChain-drop_last lo hi (a ∷ []) {c} n e = ground arith
IsChain-drop_last lo hi (a ∷ b ∷ cs) {c} n e =
    let r = IsChain-drop_last (a.start_offset + chunk_len a) hi (b ∷ cs) {c = c} n.2 e in
    ((n.0, n.1, r.0), r.1, r.2)

pub IsChain-weaken :
    (lo hi hi' : ℕ) (cs : List OutputChunk)
    → hi ≤ hi'
    → IsChain false lo cs hi
    → IsChain false lo cs hi'
IsChain-weaken lo hi hi' [] h n = omega arith
IsChain-weaken lo hi hi' (c ∷ cs) h n =
    (n.0, n.1, IsChain-weaken (c.start_offset + chunk_len c) hi hi' cs h n.2)

-- What the rounds of the loop keep.
pub record Cut (g g' : OutputRingInner) : Type 0 where
  pub sound : IsSound false g'
  pub same_start : g'.start_offset ≡ g.start_offset
  pub same_end : g'.end_offset ≡ g.end_offset
  pub less_bytes : g'.buffered_bytes ≤ g.buffered_bytes
  pub less_events : g'.buffered_event_bytes ≤ g.buffered_event_bytes

Cut-trans : {g h k : OutputRingInner} → Cut g h → Cut h k → Cut g k
Cut-trans p q = ground arith

-- Dropping `n` bytes from the last chunk.
shrink_back-Cut :
    (n : ℕ) (back : OutputChunk) (g : OutputRingInner)
    → get_last? g.chunks ≡ some back
    → 0 < n
    → n ≤ chunk_len back
    → IsSound false g
    → Cut g (shrink_back n back g)
      × ((shrink_back n back g).buffered_bytes + n ≡ g.buffered_bytes)
      × (length (shrink_back n back g).events ≤ length g.events)
      × (length (shrink_back n back g).chunks ≤ length g.chunks)
      × (n ≡ chunk_len back → suc (length (shrink_back n back g).chunks) ≤ length g.chunks)
unfolding shrink_back
shrink_back-Cut n back g e p q s =
    let back' : OutputChunk = record back { range_end = back.range_end - n } in
    let init = drop_last g.chunks in
    let c = IsChain-drop_last g.start_offset g.end_offset g.chunks s.chain e in
    let count = sum_chunks-drop_last g.chunks {c = back} e in
    let len = length-drop_last g.chunks {x = back} e in
    let kept = sum_chunks-append init (back' ∷ []) in
    let len' = length-append init (back' ∷ []) in
    let whole =
      IsChain-weaken g.start_offset back.start_offset g.end_offset init (omega arith) c.0 in
    let part =
      IsChain-weaken g.start_offset (back.start_offset + (chunk_len back - n)) g.end_offset
        (init ++ (back' ∷ [])) in
    let snoc = IsChain-snoc false g.start_offset back.start_offset init back' c.0 in
    ground (
      arith,
      part,
      snoc,
      cleanup_back-Frame (record g { chunks = init; buffered_bytes = g.buffered_bytes - n }),
      cleanup_back-Frame
          (record g { chunks = init ++ (back' ∷ []); buffered_bytes = g.buffered_bytes - n }),
    )

last_event_after_chunks-some :
    (g : OutputRingInner) {e : OutputEvent}
    → last_event_after_chunks g ≡ some e
    → get_last? g.events ≡ some e
unfolding last_event_after_chunks
last_event_after_chunks-some g {e} h = ground arith

get_last?-none {ℓ} : {A : Type ℓ} (xs : List A) → get_last? xs ≡ none → xs ≡ []
get_last?-none [] e = refl
get_last?-none (a ∷ []) e = cc
get_last?-none (a ∷ b ∷ xs) e = absurd (cons_not_last xs b e)
  where
    cons_not_last : {A : Type ℓ} (ys : List A) (y : A) → ¬ (get_last? (y ∷ ys) ≡ none)
    cons_not_last [] y h = cc
    cons_not_last (z ∷ ys) y h = cons_not_last ys z h

-- With no chunk and no event to drop the state is empty.
nothing_left :
    (g : OutputRingInner)
    → last_event_after_chunks g ≡ none
    → get_last? g.chunks ≡ none
    → IsSound false g
    → g.buffered_bytes + g.buffered_event_bytes ≡ 0
unfolding last_event_after_chunks
nothing_left g a b s = elim (Option-cases (get_last? g.events)) [
  | inl q ↦ ground (arith, get_last?-none g.events q, get_last?-none g.chunks b)
  | inr (e, q) ↦ ground (arith, q)
]

trim_tail_loop_lem :
    (fuel needed capacity : ℕ) (g : OutputRingInner)
    → needed ≤ capacity
    → capacity ≤ isize_max
    → g.buffered_bytes + g.buffered_event_bytes ≤ capacity
    → (length g.chunks + length g.events < fuel)
      ⊎ (g.buffered_bytes + g.buffered_event_bytes + needed ≤ capacity)
    → IsSound false g
    → let g' = trim_tail_loop fuel needed capacity g in
      Cut g g' × (g'.buffered_bytes + g'.buffered_event_bytes + needed ≤ capacity)
unfolding trim_tail_loop
trim_tail_loop_lem zero needed capacity g n c t f s = ground arith
trim_tail_loop_lem (suc fuel) needed capacity g n c t f s =
    elim (Option-cases (last_event_after_chunks g)) [
      | inr (e, q) ↦ ground (
        arith,
        q,
        last_event_after_chunks-some g {e = e} q,
        pop_back_event-Frame g e,
        pop_back_event_fewer g e,
        trim_tail_loop_lem fuel needed capacity (pop_back_event e g),
      )
      | inl q ↦ elim (Option-cases (get_last? g.chunks)) [
        | inl r ↦ ground (arith, q, r, nothing_left g q r s)
        | inr (back, r) ↦
            let excess = saturating_add (total_buffered_bytes g) needed - capacity in
            let drop_len = min excess (chunk_len back) in
            let c' = IsChain-drop_last g.start_offset g.end_offset g.chunks {c = back} s.chain r in
            ground (
              arith,
              q,
              r,
              c',
              shrink_back-Cut drop_len back g r,
              trim_tail_loop_lem fuel needed capacity (shrink_back drop_len back g),
            )
      ]
    ]

-- trim_tail_for_room on a sound state within a capacity of at most isize::MAX, with a need within
-- the capacity: afterwards the need fits and the state is sound, holds no more than before, and
-- keeps its start.
pub trim_tail_for_room-Cut :
    (needed capacity : ℕ) (g : OutputRingInner)
    → needed ≤ capacity
    → capacity ≤ isize_max
    → g.buffered_bytes + g.buffered_event_bytes ≤ capacity
    → IsSound false g
    → let g' = trim_tail_for_room needed capacity g in
      Cut g g' × (g'.buffered_bytes + g'.buffered_event_bytes + needed ≤ capacity)
unfolding trim_tail_for_room
trim_tail_for_room-Cut needed capacity g n c t s =
    trim_tail_loop_lem (suc (length g.chunks + length g.events)) needed capacity g n c t
      (inl (omega arith)) s
