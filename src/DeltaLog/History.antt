-- ===== src/DeltaLog/History.antt =====
-- The history that a delta log keeps: `DeltaLog.apply` adds one delta to it, or nothing.
use datacrystal.Base.{
  ℕ, ◌+◌, ◌≡◌, refl, sym, ap, ◌∙◌, inl, inr, Bool, Bool-cases, true, List, [], ◌∷◌, ◌++◌, leb, eqb,
  eqb_iff, nat_eq,
}
use mathlib.Core.Path.{subst}
use mathlib.Core.List.{append_assoc, append-nil}
use datacrystal.Contract.{Bytes, WireDelta, required}
use datacrystal.DeltaLog.Defs.{DeltaLog, manifest_of, flush}
use datacrystal.DeltaLog.Consume.{valid_ops, record_delta, apply_required, apply}
use datacrystal.DeltaLog.Invariant.{Entries, concat, IsLog}
use datacrystal.DeltaLog.Append.{Run, Run-append}
use datacrystal.DeltaLog.Flush.{flush-next}
use datacrystal.Errors.{Result, ok, Result-cases}

-- A log that holds `history`, the TIDs of which run without a gap: part of it in segments, the rest in
-- the buffer.
pub record Keeps (log : DeltaLog) (history : Entries) : Type 0 where
  pub held : List Entries
  pub kept : IsLog log held
  pub durable : Run log.genesis_tid (concat held) log.watermark
  pub buffered : Run log.watermark log.buffer log.applied
  pub all : concat held ++ log.buffer ≡ history

-- The log with one more entry in its buffer.
abbrev buffer_one : ℕ → Bytes → DeltaLog → DeltaLog
buffer_one tid raw log = record log {
  buffer = log.buffer ++ (tid, raw) ∷ [];
  applied = tid;
  applies_since_flush = log.applies_since_flush + 1;
}

buffer_one-Keeps :
    (log : DeltaLog) (history : Entries) (tid : ℕ) (raw : Bytes)
    → Keeps log history
    → tid ≡ log.applied + 1
    → Keeps (buffer_one tid raw log) (history ++ (tid, raw) ∷ [])
buffer_one-Keeps log history tid raw k next = record {
  held = k.held;
  kept = record {
    holds = k.kept.holds;
    increasing = k.kept.increasing;
    under = k.kept.under;
    clear = k.kept.clear;
    named = unfold manifest_of in k.kept.named;
  };
  durable = k.durable;
  buffered =
      Run-append log.watermark log.applied tid log.buffer ((tid, raw) ∷ []) k.buffered (next, refl);
  all =
      sym (append_assoc (concat k.held) log.buffer ((tid, raw) ∷ []))
      ∙ ap (λ es. es ++ (tid, raw) ∷ []) k.all;
}

flush-Keeps :
    (log next : DeltaLog) (history : Entries)
    → Keeps log history
    → flush log ≡ (ok tt, next)
    → Keeps next history
flush-Keeps log next history k run =
    let f = flush-next log k.held next k.kept k.durable k.buffered run in
    record {
      held = f.held;
      kept = f.kept;
      durable = f.run;
      buffered =
          subst (λ es. Run next.watermark es next.applied) (sym f.emptied) (f.mark ∙ sym f.same);
      all = ap (λ es. concat f.held ++ es) f.emptied ∙ append-nil (concat f.held) ∙ f.all ∙ k.all;
    }

module _ (encode : WireDelta → Bytes) (decode : Bytes → WireDelta) where
  record_delta-Keeps :
      (d : WireDelta) (tid : ℕ) (log next : DeltaLog) (history : Entries)
      → Keeps log history
      → tid ≡ log.applied + 1
      → record_delta encode decode d tid log ≡ (ok true, next)
      → Keeps next (history ++ (tid, encode d) ∷ [])
  unfolding record_delta
  record_delta-Keeps d tid log next history k one run =
      let one_more = buffer_one tid (encode d) log in
      let k' = buffer_one-Keeps log history tid (encode d) k one in
      elim (Bool-cases (leb log.flush_every (log.applies_since_flush + 1))) [
        | inl y ↦ elim (Result-cases (flush one_more).0) [
          | inl (e, q) ↦ absurd (cc (rw (y, q) at run))
          | inr (u, q) ↦ flush-Keeps one_more next (history ++ (tid, encode d) ∷ []) k' (
              ap (λ r. (r, (flush one_more).1)) q
              ∙ ap (λ (p : Result Bool × DeltaLog). (ok tt, p.1)) (rw (y, q) at run))
        ]
        | inr n ↦
            subst (λ l. Keeps l (history ++ (tid, encode d) ∷ []))
              (ap (λ (p : Result Bool × DeltaLog). p.1) (rw n at run)) k'
      ]

  -- On a well-formed log that holds a history, `apply` that returns true adds exactly its delta to that
  -- history, under the next TID, whether the delta stays in the buffer or is flushed with it.
  pub apply-Keeps :
      (d : WireDelta) (log next : DeltaLog) (history : Entries)
      → Keeps log history
      → apply encode decode d log ≡ (ok true, next)
      → Keeps next (history ++ (log.applied + 1, encode d) ∷ [])
  unfolding apply apply_required
  apply-Keeps d log next history k run = elim (Result-cases (required d)) [
    | inl (e, q) ↦ absurd (cc (rw q at run))
    | inr (x, q) ↦ elim (Bool-cases (leb x.tid log.applied)) [
      | inl old ↦ absurd (cc (rw (q, old) at run))
      | inr n ↦ elim (Bool-cases (eqb x.tid (log.applied + 1))) [
        | inl y ↦ elim (Result-cases (valid_ops x.ops)) [
          | inl (e, v) ↦ absurd (cc (rw (q, n, y, v) at run))
          | inr (u, v) ↦
              let one = (eqb_iff x.tid (log.applied + 1)).0 y in
              subst (λ tid. Keeps next (history ++ (tid, encode d) ∷ [])) one
                (record_delta-Keeps d x.tid log next history k one (rw (q, n, y, v) at run))
        ]
        | inr g ↦ absurd (cc (rw (q, n, g) at run))
      ]
    ]
  ]
