-- ===== src/DeltaLog/Life.antt =====
-- The whole life of a delta log: opened on an empty directory, fed with deltas, crashed and opened again
-- any number of times.
use datacrystal.Base.{
  ℕ, ◌+◌, ◌≤◌, ◌<◌, ◌≡◌, refl, sym, ap, ◌∙◌, Bool-cases, inl, inr, [], ◌∷◌, ◌++◌, none, some, true,
  eqb, eqb_iff, All-append, leb, filter, All, arith, nat_eq,
}
use mathlib.Core.Path.{subst}
use mathlib.Core.List.{append-nil}
use datacrystal.Base.Dict
use datacrystal.Contract.{Bytes, WireDelta, required}
use datacrystal.DeltaLog.Defs.{Disk, DeltaLog}
use datacrystal.DeltaLog.Consume.{apply, apply_required, replay}
use datacrystal.DeltaLog.Reopen.{open_log}
use datacrystal.DeltaLog.Invariant.{Entries, concat}
use datacrystal.DeltaLog.Append.{Run, Run-le}
use datacrystal.DeltaLog.Crash.{Crash, Reopened, blank, open_log-Reopened}
use datacrystal.DeltaLog.History.{Keeps, apply-Keeps}
use datacrystal.Errors.{ok, ok-inj, Result-cases}
use datacrystal.DeltaLog.Replay.{after, decoded, IsCoded, IsCoded-append, replay_exact}
use datacrystal.Contract.Watermark.{required-inv}

-- The entries up to a TID.
abbrev pub upto : ℕ → Entries → Entries
upto t = filter (λ e. leb e.0 t)

upto-all : (t : ℕ) (es fs : Entries) → All (λ e. e.0 ≤ t) es → upto t (es ++ fs) ≡ es ++ upto t fs
upto-all t [] fs h = refl
upto-all t (e ∷ es) fs h = ground (arith, h.0, upto-all t es fs h.1)

upto-none : (t a b : ℕ) (es : Entries) → t ≤ a → Run a es b → upto t es ≡ []
upto-none t a b [] l r = refl
upto-none t a b (e ∷ es) l r =
    let above : t < e.0 = omega (arith, l, r.0) in
    ground (arith, above, upto-none t e.0 b es (omega (arith, above)) r.1)

upto-All : (P : ℕ × Bytes → Type 0) (t : ℕ) (es : Entries) → All P es → All P (upto t es)
upto-All P t [] h = tt
upto-All P t (e ∷ es) h = elim (Bool-cases (leb e.0 t)) [
  | inl y ↦ rw y (h.0, upto-All P t es h.1)
  | inr n ↦ rw n (upto-All P t es h.1)
]

open_log-Keeps :
    (log next : DeltaLog) (history : Entries) (d : Disk) (fe mb : ℕ)
    → Keeps log history
    → Crash log d
    → 1 ≤ fe
    → 9 ≤ mb
    → open_log fe mb d ≡ ok next
    → Keeps next (upto log.watermark history)
open_log-Keeps log next history d fe mb k c one nine run =
    let (made, opened, again) = open_log-Reopened log k.held d fe mb k.kept c one nine in
    let r = subst (Reopened log k.held) (ok-inj (sym opened ∙ run)) again in
    let whole : upto log.watermark (concat k.held ++ log.buffer) ≡ concat k.held =
      upto-all log.watermark (concat k.held) log.buffer
        (Run-le log.genesis_tid log.watermark (concat k.held) k.durable).1
      ∙ ap (λ es. concat k.held ++ es)
          (upto-none log.watermark log.watermark log.applied log.buffer (omega arith) k.buffered)
      ∙ append-nil (concat k.held) in
    record {
      held = k.held;
      kept = r.kept;
      durable = rw (r.genesis, r.mark) k.durable;
      buffered =
          subst (λ es. Run next.watermark es next.applied) (sym r.emptied) (r.mark ∙ sym r.resumed);
      all =
          ap (λ es. concat k.held ++ es) r.emptied
          ∙ append-nil (concat k.held)
          ∙ sym whole
          ∙ ap (upto log.watermark) k.all;
    }

abbrev pub nowhere : Disk
nowhere = record { files = []; manifest = none }

blank-Keeps : (fe mb : ℕ) → Keeps (blank fe mb nowhere) []
blank-Keeps fe mb = record {
  held = [];
  kept = record {
    holds = tt;
    increasing = tt;
    under = tt;
    clear = λ n le. unfold Dict.get in refl;
    named = inr (refl, refl, refl, refl, refl, refl);
  };
  durable = refl;
  buffered = refl;
  all = refl;
}

apply-tid :
    (encode : WireDelta → Bytes) (decode : Bytes → WireDelta) (d : WireDelta) (log next : DeltaLog)
    → apply encode decode d log ≡ (ok true, next)
    → d.tid ≡ some (log.applied + 1)
unfolding apply apply_required
apply-tid encode decode d log next run = elim (Result-cases (required d)) [
  | inl (e, q) ↦ absurd (cc (rw q at run))
  | inr (x, q) ↦ elim (Bool-cases (leb x.tid log.applied)) [
    | inl old ↦ absurd (cc (rw (q, old) at run))
    | inr n ↦ elim (Bool-cases (eqb x.tid (log.applied + 1))) [
      | inl y ↦ (required-inv d x q).0 ∙ ap some ((eqb_iff x.tid (log.applied + 1)).0 y)
      | inr g ↦ absurd (cc (rw (q, n, g) at run))
    ]
  ]
]

module _ (encode : WireDelta → Bytes) (decode : Bytes → WireDelta) where
  -- A log with the history that it should hold: a crash takes away what is after the durable
  -- watermark, and nothing else.
  pub data Life : Entries → DeltaLog → Type 0 where
    opened :
        (flush_every max_segment_bytes : ℕ) (log : DeltaLog)
        → 1 ≤ flush_every
        → 9 ≤ max_segment_bytes
        → open_log flush_every max_segment_bytes nowhere ≡ ok log
        → Life [] log
    applied :
        {history : Entries} {log : DeltaLog}
        → Life history log
        → (d : WireDelta) (next : DeltaLog) → apply encode decode d log ≡ (ok true, next)
        → Life (history ++ (log.applied + 1, encode d) ∷ []) next
    crashed :
        {history : Entries} {log : DeltaLog}
        → Life history log
        → (d : Disk) (flush_every max_segment_bytes : ℕ) (next : DeltaLog) → Crash log d
        → 1 ≤ flush_every
        → 9 ≤ max_segment_bytes
        → open_log flush_every max_segment_bytes d ≡ ok next
        → Life (upto log.watermark history) next

  Life-Keeps : {history : Entries} {log : DeltaLog} → Life history log → Keeps log history
  Life-Keeps (opened fe mb log one nine run) =
      open_log-Keeps (blank fe mb nowhere) log [] nowhere fe mb (blank-Keeps fe mb) Crash.idle one
        nine run
  Life-Keeps (applied l d next run) = apply-Keeps encode decode d _ next _ (Life-Keeps l) run
  Life-Keeps (crashed l d fe mb next c one nine run) =
      open_log-Keeps _ next _ d fe mb (Life-Keeps l) c one nine run

  Life-IsCoded :
      ((d : WireDelta) → (decode (encode d)).tid ≡ d.tid)
      → {history : Entries} {log : DeltaLog} → Life history log
      → IsCoded encode decode history
  Life-IsCoded same (opened fe mb log one nine run) = tt
  Life-IsCoded same (applied {history = history} {log = log} l d next run) =
      All-append (λ e. (decode e.1).tid ≡ some e.0) history ((log.applied + 1, encode d) ∷ [])
        (Life-IsCoded same l) (same d ∙ apply-tid encode decode d log next run, tt)
  Life-IsCoded same (crashed {history = history} {log = log} l d fe mb next c one nine run) =
      upto-All (λ e. (decode e.1).tid ≡ some e.0) log.watermark history (Life-IsCoded same l)

  -- If the coding keeps the TID of a delta, then after any life a log replays, from any TID on, exactly
  -- what the coding makes of the deltas that were applied to it and that no crash has taken, each
  -- once and in order. A crash takes those after the durable watermark.
  pub replay-Life :
      ((d : WireDelta) → (decode (encode d)).tid ≡ d.tid)
      → (t : ℕ) {history : Entries} {log : DeltaLog} → Life history log
      → replay encode decode t log ≡ decoded encode decode (after t history)
  replay-Life same t {log = log} l =
      let k = Life-Keeps l in
      let coded = subst (IsCoded encode decode) (sym k.all) (Life-IsCoded same l) in
      replay_exact encode decode t log k.held k.kept
        (IsCoded-append encode decode (concat k.held) log.buffer coded).0
      ∙ ap (λ es. decoded encode decode (after t es)) k.all
