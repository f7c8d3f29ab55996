-- ===== src/Capture/Ring/Contents.antt =====
-- The text that a ring without gaps (src/output_capture.rs) holds after a trim: what was there from
-- the new start on.
use mcp_repl.Prelude.{
  ℕ, ◌+◌, ◌-◌, ◌≤◌, ◌<◌, ◌≡◌, refl, sym, ◌∙◌, ap, Bool, true, List, [], ◌∷◌, length, min, drop,
  take, arith, saturating_add, length-append, length-take, length-drop, drop-append_le,
  drop-append_ge, drop-take, drop-drop,
}
use mcp_repl.Capture.Types.{OutputChunk, chunk_len, chunk_bytes, chunk_end}
use mcp_repl.Capture.Ring.State.{OutputRingInner, trim_chunks, trim_to_offset, cleanup_front}
use mcp_repl.Capture.Ring.Invariant.{sum_chunks, retained, IsChunk, IsChain, IsChain-le, IsSound}
use mcp_repl.Capture.Ring.Cleanup.{Frame, cleanup_front-Frame}
use mcp_repl.Capture.Ring.Trim.{trim_chunks-Trimmed, settle_start-Trimmed, settle_start-chunks}

pub length-chunk_bytes : (c : OutputChunk) → IsChunk c → length (chunk_bytes c) ≡ chunk_len c
length-chunk_bytes c k = omega (
  arith,
  length-take (chunk_len c) (drop c.range_start c.bytes),
  length-drop c.range_start c.bytes,
)

pub length-retained :
    (tight : Bool) (lo hi : ℕ) (cs : List OutputChunk)
    → IsChain tight lo cs hi
    → length (retained cs) ≡ sum_chunks cs
length-retained tight lo hi [] n = refl
length-retained tight lo hi (c ∷ cs) n = omega (
  arith,
  length-append (chunk_bytes c) (retained cs),
  length-chunk_bytes c n.1,
  length-retained tight (c.start_offset + chunk_len c) hi cs n.2,
)

-- The state starts later, and holds what `g` held from there on.
pub record Later (g g' : OutputRingInner) : Type 0 where
  pub start_le : g.start_offset ≤ g'.start_offset
  pub text : retained g'.chunks ≡ drop (g'.start_offset - g.start_offset) (retained g.chunks)

pub Later-refl : (g : OutputRingInner) → Later g g
Later-refl g = record {
  start_le = omega arith;
  text = ap (λ n. drop n (retained g.chunks)) {x = 0} (omega arith);
}

pub Later-trans : {g h k : OutputRingInner} → Later g h → Later h k → Later g k
Later-trans {g} {h} {k} p q = record {
  start_le = omega arith;
  text =
      q.text
      ∙ (ap (λ t. drop (k.start_offset - h.start_offset) t) (p.text)
          ∙ (drop-drop (k.start_offset - h.start_offset) (h.start_offset - g.start_offset)
                (retained g.chunks)
              ∙ ap (λ n. drop n (retained g.chunks)) (omega arith)));
}

pub Later-Frame : {g g' : OutputRingInner} → Frame g g' → Later g g'
Later-Frame {g} f = ground (arith, Later-refl g)

-- The front chunk without its first `delta` bytes.
chunk_bytes_cut :
    (c : OutputChunk) (delta : ℕ)
    → IsChunk c
    → delta ≤ chunk_len c
    → take
        (c.range_end - saturating_add c.range_start delta)
        (drop (saturating_add c.range_start delta) c.bytes)
      ≡ drop delta (chunk_bytes c)
chunk_bytes_cut c delta k h =
    ap (λ s. take (c.range_end - s) (drop s c.bytes)) {x = saturating_add c.range_start delta}
      {y = c.range_start + delta} (omega arith)
    ∙ (ap (λ n. take n (drop (c.range_start + delta) c.bytes)) (omega arith)
        ∙ sym (
            drop-take delta (chunk_len c) (drop c.range_start c.bytes)
            ∙ ap (λ t. take (chunk_len c - delta) t) (drop-drop delta c.range_start c.bytes)))

module _ (cleanup : OutputRingInner → OutputRingInner)
    (frame : (g : OutputRingInner) → Frame g (cleanup g)) where
  pub trim_chunks-Later :
      (o : ℕ) (cs : List OutputChunk) (g : OutputRingInner)
      → g.chunks ≡ cs
      → IsSound true g
      → g.start_offset < o
      → o ≤ g.end_offset
      → Later g (trim_chunks cleanup o cs g)
  unfolding trim_chunks
  trim_chunks-Later o [] g e s lt le =
      let n : IsChain true g.start_offset [] g.end_offset = rw e at (s.chain) in
      absurd (omega arith)
  trim_chunks-Later o (c ∷ cs) g e s lt le =
      let popped : OutputRingInner = record g {
        chunks = cs;
        start_offset = chunk_end c;
        buffered_bytes = g.buffered_bytes - chunk_len c;
      } in
      let n : IsChain true g.start_offset (c ∷ cs) g.end_offset = rw e at (s.chain) in
      let cut : OutputRingInner = (record g {
        chunks =
            record c {
              start_offset = saturating_add c.start_offset (min (o - c.start_offset) (chunk_len c));
              range_start = saturating_add c.range_start (min (o - c.start_offset) (chunk_len c));
            }
            ∷ cs;
        start_offset = o;
        buffered_bytes = g.buffered_bytes - min (o - c.start_offset) (chunk_len c);
      }) in
      let jumped : OutputRingInner = record g { start_offset = o } in
      let more = trim_chunks cleanup o cs (cleanup popped) in
      let len = length-chunk_bytes c n.1 in
      ground (
        arith,
        n,
        len,
        IsChain-le true (c.start_offset + chunk_len c) g.end_offset cs n.2,
        frame popped,
        frame cut,
        frame jumped,
        trim_chunks-Later o cs (cleanup popped),
        drop-append_ge (chunk_len c) (chunk_bytes c) (retained cs),
        drop-append_ge (more.start_offset - g.start_offset) (chunk_bytes c) (retained cs),
        drop-append_le (o - g.start_offset) (chunk_bytes c) (retained cs),
        chunk_bytes_cut c (min (o - c.start_offset) (chunk_len c)) n.1,
      )

-- trim_to_offset on a sound ring without gaps does not move the start back and keeps the text from
-- the new start on.
pub trim_to_offset-Later :
    (offset : ℕ) (g : OutputRingInner) → IsSound true g → Later g (trim_to_offset offset g)
unfolding trim_to_offset
trim_to_offset-Later offset g s =
    let o = min offset g.end_offset in
    let g1 = trim_chunks cleanup_front o g.chunks g in
    ground (
      arith,
      Later-refl g,
      trim_chunks-Trimmed cleanup_front cleanup_front-Frame true o g.chunks g refl s,
      trim_chunks-Later cleanup_front cleanup_front-Frame o g.chunks g refl s,
      settle_start-Trimmed cleanup_front cleanup_front-Frame true o g1 {h = g},
      settle_start-chunks cleanup_front cleanup_front-Frame o g1,
    )
