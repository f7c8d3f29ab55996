-- ===== src/Capture/Ring/Trim.antt =====
-- `trim_to_offset` of src/output_capture.rs keeps the state sound and starts it at the offset.
use mcp_repl.Prelude.{
  suc, refl, max, ℕ, ◌+◌, ◌-◌, ◌≤◌, ◌<◌, ◌≡◌, ◌⊎◌, Bool, true, false, List, [], ◌∷◌, length, min,
  arith, saturating_add,
}
use mcp_repl.Capture.Types.{OutputChunk, chunk_len, chunk_end}
use mcp_repl.Capture.Ring.State.{
  settle_start, trim_to_offset, cleanup_front, OutputRingInner, trim_chunks,
}
use mcp_repl.Capture.Ring.Invariant.{IsChain-front, IsChain, IsChain-le, IsSound}
use mcp_repl.Capture.Ring.Cleanup.{cleanup_front-Frame, Frame}

-- What a trim to `o` leaves: a sound state with its old end, no more bytes or events, that starts at
-- `o` unless chunks have run out before.
pub record Trimmed (tight : Bool) (o : ℕ) (g g' : OutputRingInner) : Type 0 where
  pub sound : IsSound tight g'
  pub same_end : g'.end_offset ≡ g.end_offset
  pub start_le : g'.start_offset ≤ o
  pub starts : (g'.start_offset ≡ o) ⊎ (g'.chunks ≡ [])
  pub less_bytes : g'.buffered_bytes ≤ g.buffered_bytes
  pub less : g'.buffered_event_bytes ≤ g.buffered_event_bytes
  pub fewer : length g'.events ≤ length g.events
  pub fewer_chunks : length g'.chunks ≤ length g.chunks

module _ (cleanup : OutputRingInner → OutputRingInner)
    (frame : (g : OutputRingInner) → Frame g (cleanup g)) where
  IsSound-cleanup :
      (tight : Bool) (g : OutputRingInner) → IsSound tight g → IsSound tight (cleanup g)
  IsSound-cleanup tight g s = ground (arith, frame g)

  pub trim_chunks-Trimmed :
      (tight : Bool) (o : ℕ) (cs : List OutputChunk) (g : OutputRingInner)
      → g.chunks ≡ cs
      → IsSound tight g
      → g.start_offset < o
      → o ≤ g.end_offset
      → Trimmed tight o g (trim_chunks cleanup o cs g)
  unfolding trim_chunks
  trim_chunks-Trimmed tight o [] g e s lt le = ground arith
  trim_chunks-Trimmed true o (c ∷ cs) g e s lt le =
      let popped : OutputRingInner = record g {
        chunks = cs;
        start_offset = chunk_end c;
        buffered_bytes = g.buffered_bytes - chunk_len c;
      } in
      let n : IsChain true g.start_offset (c ∷ cs) g.end_offset = rw e at (s.chain) in
      let cut : OutputRingInner = (record g {
        chunks =
            record c {
              start_offset = saturating_add c.start_offset (min (o - c.start_offset) (chunk_len c));
              range_start = saturating_add c.range_start (min (o - c.start_offset) (chunk_len c));
            }
            ∷ cs;
        start_offset = o;
        buffered_bytes = g.buffered_bytes - min (o - c.start_offset) (chunk_len c);
      }) in
      let jumped : OutputRingInner = record g { start_offset = o } in
      ground (
        arith,
        n,
        IsChain-le true (c.start_offset + chunk_len c) g.end_offset cs n.2,
        frame popped,
        frame cut,
        frame jumped,
        trim_chunks-Trimmed true o cs (cleanup popped),
      )
  trim_chunks-Trimmed false o (c ∷ cs) g e s lt le =
      let popped : OutputRingInner = record g {
        chunks = cs;
        start_offset = chunk_end c;
        buffered_bytes = g.buffered_bytes - chunk_len c;
      } in
      let n : IsChain false g.start_offset (c ∷ cs) g.end_offset = rw e at (s.chain) in
      let cut : OutputRingInner = (record g {
        chunks =
            record c {
              start_offset = saturating_add c.start_offset (min (o - c.start_offset) (chunk_len c));
              range_start = saturating_add c.range_start (min (o - c.start_offset) (chunk_len c));
            }
            ∷ cs;
        start_offset = o;
        buffered_bytes = g.buffered_bytes - min (o - c.start_offset) (chunk_len c);
      }) in
      let jumped : OutputRingInner = record g { start_offset = o } in
      ground (
        arith,
        n,
        IsChain-le false (c.start_offset + chunk_len c) g.end_offset cs n.2,
        frame popped,
        frame cut,
        frame jumped,
        trim_chunks-Trimmed false o cs (cleanup popped),
      )

  -- The front chunk goes if it ends by the offset.
  trim_chunks_pops :
      (tight : Bool) (o : ℕ) (c : OutputChunk) (cs : List OutputChunk) (g : OutputRingInner)
      → g.chunks ≡ c ∷ cs
      → IsSound tight g
      → chunk_end c ≤ o
      → o ≤ g.end_offset
      → length (trim_chunks cleanup o (c ∷ cs) g).chunks ≤ length cs
  unfolding trim_chunks
  trim_chunks_pops true o c cs g e s lt le =
      let popped : OutputRingInner = record g {
        chunks = cs;
        start_offset = chunk_end c;
        buffered_bytes = g.buffered_bytes - chunk_len c;
      } in
      let n : IsChain true g.start_offset (c ∷ cs) g.end_offset = rw e at (s.chain) in
      ground (
        arith,
        n,
        IsChain-le true (c.start_offset + chunk_len c) g.end_offset cs n.2,
        frame popped,
        trim_chunks-Trimmed true o cs (cleanup popped),
      )
  trim_chunks_pops false o c cs g e s lt le =
      let popped : OutputRingInner = record g {
        chunks = cs;
        start_offset = chunk_end c;
        buffered_bytes = g.buffered_bytes - chunk_len c;
      } in
      let n : IsChain false g.start_offset (c ∷ cs) g.end_offset = rw e at (s.chain) in
      ground (
        arith,
        n,
        IsChain-le false (c.start_offset + chunk_len c) g.end_offset cs n.2,
        frame popped,
        trim_chunks-Trimmed false o cs (cleanup popped),
      )

  pub settle_start-chunks :
      (o : ℕ) (g : OutputRingInner) → (settle_start cleanup o g).chunks ≡ g.chunks
  unfolding settle_start
  settle_start-chunks o g = ground (arith, frame (record g { start_offset = o }))

  pub settle_start-Trimmed :
      (tight : Bool) (o : ℕ) (g : OutputRingInner) {h : OutputRingInner}
      → Trimmed tight o h g
      → o ≤ g.end_offset
      → Trimmed tight o h (settle_start cleanup o g) × ((settle_start cleanup o g).start_offset ≡ o)
  unfolding settle_start
  settle_start-Trimmed true o g t le = ground (arith, frame (record g { start_offset = o }))
  settle_start-Trimmed false o g t le = ground (arith, frame (record g { start_offset = o }))

-- A trim on a sound state leaves a sound state that starts at the offset, or where it did.
pub trim_to_offset-Trimmed :
    (tight : Bool) (offset : ℕ) (g : OutputRingInner)
    → IsSound tight g
    → let g' = trim_to_offset offset g in
      IsSound tight g'
      × (g'.start_offset ≡ max g.start_offset (min offset g.end_offset))
      × (g'.end_offset ≡ g.end_offset)
      × (g'.buffered_bytes ≤ g.buffered_bytes)
      × (g'.buffered_event_bytes ≤ g.buffered_event_bytes)
      × (length g'.events ≤ length g.events)
      × (length g'.chunks ≤ length g.chunks)
unfolding trim_to_offset
trim_to_offset-Trimmed tight offset g s =
    let o = min offset g.end_offset in
    let g1 = trim_chunks cleanup_front o g.chunks g in
    ground (
      arith,
      IsChain-le tight g.start_offset g.end_offset g.chunks s.chain,
      trim_chunks-Trimmed cleanup_front cleanup_front-Frame tight o g.chunks g refl s,
      settle_start-Trimmed cleanup_front cleanup_front-Frame tight o g1 {h = g},
    )

pub trim_to_offset_pops :
    (tight : Bool) (offset : ℕ) (c : OutputChunk) (cs : List OutputChunk) (g : OutputRingInner)
    → g.chunks ≡ c ∷ cs
    → IsSound tight g
    → chunk_end c ≤ offset
    → suc (length (trim_to_offset offset g).chunks) ≤ length g.chunks
unfolding trim_to_offset
trim_to_offset_pops tight offset c cs g e s h =
    let o = min offset g.end_offset in
    let n : IsChain tight g.start_offset (c ∷ cs) g.end_offset = rw e at (s.chain) in
    let f = IsChain-front tight g.start_offset g.end_offset c cs n in
    rw e (
      ground (
        arith,
        f,
        trim_chunks-Trimmed cleanup_front cleanup_front-Frame tight o (c ∷ cs) g e s,
        settle_start-chunks cleanup_front cleanup_front-Frame o
            (trim_chunks cleanup_front o (c ∷ cs) g),
        trim_chunks_pops cleanup_front cleanup_front-Frame tight o c cs g e s,
      ))
