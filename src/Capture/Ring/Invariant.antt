-- ===== src/Capture/Ring/Invariant.antt =====
-- When the state of a ring (src/output_capture.rs) is well formed.
use mcp_repl.Prelude.{
  ℕ, ◌+◌, ◌≤◌, ◌<◌, ◌≡◌, Bool, true, false, List, [], ◌∷◌, ◌++◌, length, u64_max, arith,
  append_assoc, refl,
}
use mcp_repl.Capture.Types.{
  Bytes, OutputChunk, OutputEvent, chunk_len, chunk_bytes, event_size_bytes,
}
use mcp_repl.Capture.Ring.State.{OutputRingInner}

abbrev pub sum_chunks : List OutputChunk → ℕ
sum_chunks [] = 0
sum_chunks (c ∷ cs) = chunk_len c + sum_chunks cs

abbrev pub sum_events : List OutputEvent → ℕ
sum_events [] = 0
sum_events (e ∷ es) = event_size_bytes e.kind + sum_events es

-- The bytes of the chunks, one after another.
abbrev pub retained : List OutputChunk → Bytes
retained [] = []
retained (c ∷ cs) = chunk_bytes c ++ retained cs

-- How a chunk follows the one before: with no gap, or perhaps after one.
abbrev pub Link : Bool → ℕ → ℕ → Type 0
Link true a b = a ≡ b
Link false a b = a ≤ b

pub record IsChunk (c : OutputChunk) : Type 0 where
  pub nonempty : c.range_start < c.range_end
  pub in_bytes : c.range_end ≤ length c.bytes
  pub small : length c.bytes ≤ u64_max

-- The chunks lie in order between `lo` and `hi`; with `tight` they leave no gap.
abbrev pub IsChain : Bool → ℕ → List OutputChunk → ℕ → Type 0
IsChain tight lo [] hi = Link tight lo hi
IsChain tight lo (c ∷ cs) hi =
    Link tight lo c.start_offset × IsChunk c × IsChain tight (c.start_offset + chunk_len c) cs hi

-- The counters say what the queues hold, and the chunks lie between the offsets.
pub record IsSound (tight : Bool) (g : OutputRingInner) : Type 0 where
  pub bytes_counted : g.buffered_bytes ≡ sum_chunks g.chunks
  pub events_counted : g.buffered_event_bytes ≡ sum_events g.events
  pub chain : IsChain tight g.start_offset g.chunks g.end_offset
  pub in_u64 : g.end_offset ≤ u64_max

-- A sound state within the capacity.
pub record Fits (tight : Bool) (capacity : ℕ) (g : OutputRingInner) : Type 0 where
  pub sound : IsSound tight g
  pub bounded : g.buffered_bytes + g.buffered_event_bytes ≤ capacity

pub IsChain-le :
    (tight : Bool) (lo hi : ℕ) (cs : List OutputChunk)
    → IsChain tight lo cs hi
    → lo + sum_chunks cs ≤ hi
IsChain-le true lo hi [] n = omega arith
IsChain-le false lo hi [] n = omega arith
IsChain-le true lo hi (c ∷ cs) n =
    omega (arith, IsChain-le true (c.start_offset + chunk_len c) hi cs n.2)
IsChain-le false lo hi (c ∷ cs) n =
    omega (arith, IsChain-le false (c.start_offset + chunk_len c) hi cs n.2)

pub IsChain-tight :
    (lo hi : ℕ) (cs : List OutputChunk) → IsChain true lo cs hi → lo + sum_chunks cs ≡ hi
IsChain-tight lo hi [] n = omega arith
IsChain-tight lo hi (c ∷ cs) n =
    omega (arith, IsChain-tight (c.start_offset + chunk_len c) hi cs n.2)

pub sum_chunks-append :
    (cs ds : List OutputChunk) → sum_chunks (cs ++ ds) ≡ sum_chunks cs + sum_chunks ds
sum_chunks-append [] ds = omega arith
sum_chunks-append (c ∷ cs) ds = omega (arith, sum_chunks-append cs ds)

pub sum_events-append :
    (es fs : List OutputEvent) → sum_events (es ++ fs) ≡ sum_events es + sum_events fs
sum_events-append [] fs = omega arith
sum_events-append (e ∷ es) fs = omega (arith, sum_events-append es fs)

pub retained-append : (cs ds : List OutputChunk) → retained (cs ++ ds) ≡ retained cs ++ retained ds
retained-append [] ds = refl
retained-append (c ∷ cs) ds = simp (retained-append cs ds, append_assoc)

-- Where the front chunk lies.
pub IsChain-front :
    (tight : Bool) (lo hi : ℕ) (c : OutputChunk) (cs : List OutputChunk)
    → IsChain tight lo (c ∷ cs) hi
    → (lo ≤ c.start_offset)
      × (lo < c.start_offset + chunk_len c)
      × (c.start_offset + chunk_len c ≤ hi)
IsChain-front true lo hi c cs n =
    omega (arith, IsChain-le true (c.start_offset + chunk_len c) hi cs n.2)
IsChain-front false lo hi c cs n =
    omega (arith, IsChain-le false (c.start_offset + chunk_len c) hi cs n.2)
