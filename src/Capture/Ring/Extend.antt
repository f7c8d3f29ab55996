-- ===== src/Capture/Ring/Extend.antt =====
-- When the text of a ring without gaps (src/output_capture.rs) extends that of another.
use mcp_repl.Prelude.{
  ◌+◌, ◌-◌, ◌≤◌, ◌≡◌, sym, ◌∙◌, ap, true, [], ◌++◌, append-nil, append_assoc, length, drop, arith,
  length-append, drop-append_le, drop-drop,
}
use mcp_repl.Capture.Types.{Bytes}
use mcp_repl.Capture.Ring.State.{OutputRingInner}
use mcp_repl.Capture.Ring.Invariant.{retained, IsSound, IsChain-tight, IsChain-le}
use mcp_repl.Capture.Ring.Contents.{Later, length-retained}

-- The state after `added` was appended holds the end of the old text and `added`.
pub record Extended (added : Bytes) (g g' : OutputRingInner) : Type 0 where
  pub start_le : g.start_offset ≤ g'.start_offset
  pub within : g'.start_offset ≤ g.end_offset + length added
  pub end_eq : g'.end_offset ≡ g.end_offset + length added
  pub text :
      retained g'.chunks ≡ drop (g'.start_offset - g.start_offset) (retained g.chunks ++ added)

-- The length of the text is the distance of the offsets.
pub span-eq :
    (g : OutputRingInner)
    → IsSound true g
    → g.start_offset + length (retained g.chunks) ≡ g.end_offset
span-eq g s = omega (
  arith,
  IsChain-tight g.start_offset g.end_offset g.chunks s.chain,
  length-retained true g.start_offset g.end_offset g.chunks s.chain,
)

pub Extended-trans :
    (a b : Bytes) {g h k : OutputRingInner}
    → IsSound true g
    → Extended a g h
    → Extended b h k
    → Extended (a ++ b) g k
Extended-trans a b {g} {h} {k} s p q =
    let n = h.start_offset - g.start_offset in
    let m = k.start_offset - h.start_offset in
    let X = retained g.chunks in
    let la = length-append a b in
    let lx = length-append X a in
    let span = span-eq g s in
    record {
      start_le = omega (arith, p.start_le, q.start_le);
      within = omega (arith, la, q.within, p.end_eq);
      end_eq = omega (arith, la, q.end_eq, p.end_eq);
      text =
          q.text
          ∙ (ap (λ t. drop m (t ++ b)) p.text
              ∙ (ap (λ t. drop m t)
                    (sym (drop-append_le n (X ++ a) b (omega (arith, lx, span, p.within))))
                  ∙ (drop-drop m n ((X ++ a) ++ b)
                      ∙ (ap (λ t. drop (n + m) t) (append_assoc X a b)
                          ∙ ap (λ j. drop j (X ++ (a ++ b)))
                              (omega (arith, p.start_le, q.start_le))))));
    }

-- What only drops text from the front extends it by nothing.
pub Later-Extended :
    {g g' : OutputRingInner}
    → IsSound true g'
    → g'.end_offset ≡ g.end_offset
    → Later g g'
    → Extended [] g g'
Later-Extended {g} {g'} s e l = record {
  start_le = l.start_le;
  within = omega (arith, IsChain-le true g'.start_offset g'.end_offset g'.chunks s.chain);
  end_eq = omega arith;
  text =
      l.text
      ∙ ap (λ t. drop (g'.start_offset - g.start_offset) t) (sym (append-nil (retained g.chunks)));
}
