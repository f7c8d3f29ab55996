-- ===== src/Capture/Timeline/Window.antt =====
-- What entries that are ready (src/output_capture.rs, `append_pending_locked`) do to the text of a
-- tail-retaining ring.
use mcp_repl.Prelude.{
  ℕ, ◌+◌, ◌≤◌, ◌≡◌, refl, sym, ◌∙◌, ap, Bool, true, [], ◌∷◌, ◌++◌, length, arith, u64_max,
  isize_max, ◌<◌, length-append,
}
use mathlib.Core.Path.{subst}
use mcp_repl.Capture.Types.{Bytes, ContentOrigin, OutputTextSource, OutputEventKind}
use mcp_repl.Capture.Tails.Queue as Queue
use mcp_repl.Capture.Tails.Sizes.{text_bytes}
use mcp_repl.Capture.Ring.State.{OutputRingInner}
use mcp_repl.Capture.Ring.Append.{OutputRing, OutputRetention, tail, head}
use mcp_repl.Capture.Ring.Text.{append_bytes_with_source}
use mcp_repl.Capture.Ring.Events.{append_event_kind, append_materialized_event}
use mcp_repl.Capture.Ring.Invariant.{IsSound, Fits}
use mcp_repl.Capture.Ring.Contents.{Later-refl}
use mcp_repl.Capture.Ring.EventWindow.{append_event_kind-Later}
use mcp_repl.Capture.Ring.Preserve.{append_event_kind-Safe, is_tight}
use mcp_repl.Capture.Ring.Run.{IsRing, append_text, append_event, apply-Applied, apply}
use mcp_repl.Capture.Ring.Extend.{Extended, Extended-trans, Later-Extended}
use mcp_repl.Capture.Ring.Window.{append_bytes_with_source-text}
use mcp_repl.Capture.Timeline.State.{append_entry, append_pending_locked}

abbrev entry_bytes : Queue.OutputPendingEntry → Bytes
entry_bytes (Queue.text t) = t.bytes
entry_bytes (Queue.event kind) = []

text_bytes-cons :
    (e : Queue.OutputPendingEntry) (es : Queue.Entries)
    → text_bytes (e ∷ es) ≡ entry_bytes e ++ text_bytes es
text_bytes-cons (Queue.text t) es = refl
text_bytes-cons (Queue.event kind) es = refl

-- A ring again, of the same settings, whose text has been extended.
pub record Appended (added : Bytes) (r r' : OutputRing) : Type 0 where
  pub ring : IsRing r'
  pub same_capacity : r'.capacity_bytes ≡ r.capacity_bytes
  pub same_retention : r'.retention ≡ r.retention
  pub extended : Extended added r.inner r'.inner

append_bytes_same :
    (bytes : Bytes) (is_stderr : Bool) (origin : ContentOrigin) (source : OutputTextSource)
    (r : OutputRing)
    → (append_bytes_with_source bytes is_stderr origin source r).retention ≡ r.retention
unfolding append_bytes_with_source
append_bytes_same [] is_stderr origin source r = refl
append_bytes_same (b ∷ bs) is_stderr origin source r = refl

append_event_text_inner :
    (capacity : ℕ) (retention : OutputRetention) (kind : OutputEventKind) (g : OutputRingInner)
    → 0 < capacity
    → capacity ≤ isize_max
    → retention ≡ tail
    → Fits (is_tight retention) capacity g
    → Extended [] g (append_event_kind capacity retention kind g)
append_event_text_inner capacity head kind g p a e f = ground (arith, e)
append_event_text_inner capacity tail kind g p a e f =
    let safe = append_event_kind-Safe capacity p a tail kind g f in
    Later-Extended safe.fits.sound (omega (arith, safe.end_le, safe.end_ge))
      (append_event_kind-Later capacity kind g a f)

append_event_text :
    (kind : OutputEventKind) (r : OutputRing)
    → IsRing r
    → r.retention ≡ tail
    → Extended [] r.inner (append_materialized_event kind r).inner
unfolding append_materialized_event
append_event_text kind r v t =
    append_event_text_inner r.capacity_bytes r.retention kind r.inner v.positive v.allocatable t
      v.fits

append_event_same :
    (kind : OutputEventKind) (r : OutputRing)
    → (append_materialized_event kind r).retention ≡ r.retention
unfolding append_materialized_event
append_event_same kind r = refl

IsRing-IsSound : (r : OutputRing) → IsRing r → r.retention ≡ tail → IsSound true r.inner
IsRing-IsSound r v t = ground (arith, v.fits.sound, t)

append_entry-Appended :
    (e : Queue.OutputPendingEntry) (r : OutputRing)
    → IsRing r
    → r.retention ≡ tail
    → r.inner.end_offset + length (entry_bytes e) ≤ u64_max
    → Appended (entry_bytes e) r (append_entry e r)
unfolding append_entry apply
append_entry-Appended (Queue.text t) r v p h =
    let a = apply-Applied r (append_text t.bytes t.key.is_stderr t.key.origin t.key.source) v h in
    let x =
      append_bytes_with_source-text t.bytes t.key.is_stderr t.key.origin t.key.source r v p h in
    record {
      ring = a.ring;
      same_capacity = a.same_capacity;
      same_retention = append_bytes_same t.bytes t.key.is_stderr t.key.origin t.key.source r;
      extended = record {
        start_le = x.1;
        within = omega (arith, x.0, x.2);
        end_eq = x.0;
        text = x.3;
      };
    }
append_entry-Appended (Queue.event kind) r v p h =
    let a = apply-Applied r (append_event kind) v (omega arith) in
    record {
      ring = a.ring;
      same_capacity = a.same_capacity;
      same_retention = append_event_same kind r;
      extended = append_event_text kind r v p;
    }

-- Ready entries appended to a tail-retaining ring that is sound and within its capacity, with a
-- text that keeps the end within u64: the ring is sound and within its capacity again, its capacity
-- and retention are the same, its start has not moved back nor past the end, its end has moved on
-- by the length of the text, and it holds the old text followed by the text of the entries in their
-- order, less what stood before the new start.
pub append_pending_locked-Appended :
    (es : Queue.Entries) (r : OutputRing)
    → IsRing r
    → r.retention ≡ tail
    → r.inner.end_offset + length (text_bytes es) ≤ u64_max
    → Appended (text_bytes es) r (append_pending_locked es r)
unfolding append_pending_locked
append_pending_locked-Appended [] r v t h = record {
  ring = v;
  same_capacity = refl;
  same_retention = refl;
  extended = Later-Extended (IsRing-IsSound r v t) refl (Later-refl r.inner);
}
append_pending_locked-Appended (e ∷ es) r v t h =
    let len = ap length (text_bytes-cons e es) ∙ length-append (entry_bytes e) (text_bytes es) in
    let a = append_entry-Appended e r v t (omega (arith, h, len)) in
    let b =
      append_pending_locked-Appended es (append_entry e r) a.ring (a.same_retention ∙ t)
        (omega (arith, h, len, a.extended.end_eq)) in
    record {
      ring = b.ring;
      same_capacity = b.same_capacity ∙ a.same_capacity;
      same_retention = b.same_retention ∙ a.same_retention;
      extended =
          subst (λ x. Extended x r.inner (append_pending_locked es (append_entry e r)).inner)
            (sym (text_bytes-cons e es))
            (Extended-trans (entry_bytes e) (text_bytes es) (IsRing-IsSound r v t) a.extended
              b.extended);
    }
