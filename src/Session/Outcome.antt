-- ===== src/Session/Outcome.antt =====
-- The outcomes of a commit: P1 has refused, P2 has failed, or the commit is durable.
use datacrystal.Base.{ℕ, Option, none, some, ◌≡◌, refl, ◌⊎◌, inl, inr}
use datacrystal.Errors.{Error, Result, ok, err, Result-cases}
use datacrystal.Exec.{continue}
use datacrystal.Session.Live.{Session}
use datacrystal.Session.Pending.{Services, Capture}
use datacrystal.Session.Capture.{p1_capture}
use datacrystal.Session.Commit.{
  p2_rollback, p3_finalize, settle, settle_capture, commit_racing, run_p2,
}
use datacrystal.Session.Frame.{Same}
use datacrystal.Session.Taken.{Taken, Refused, p1_capture-cases}

module _ {I Γ : Type 0} (sv : Services I Γ) (race : Session I Γ → Session I Γ) (at fuel : ℕ)
    (s : Session I Γ) where
  abbrev pub Run : Type 0
  Run = Result (Option ℕ) × Session I Γ

  -- P1 has raised, or found nothing.
  pub record Stopped (run : Run) : Type 0 where
    pub nothing : (run.0 ≡ ok none) ⊎ (e : Error) × (run.0 ≡ err e)
    pub same : Same s run.1

  -- P1 has captured, the owner has written, and P2 has raised or not.
  pub record Failed (run : Run) : Type 0 where
    pub capture : Capture
    pub begun : Session I Γ
    pub taken : Taken sv at fuel s capture begun
    pub error : Error
    pub raised : (sv.persist capture.batch (race begun).backend).0 ≡ err error
    pub result : run ≡ (err error, p2_rollback capture (run_p2 sv capture.batch (race begun)).1)

  pub record Durable (run : Run) : Type 0 where
    pub capture : Capture
    pub begun : Session I Γ
    pub taken : Taken sv at fuel s capture begun
    pub wrote : (sv.persist capture.batch (race begun).backend).0 ≡ ok tt
    pub result : run ≡ (
      ok (some (p3_finalize sv capture (run_p2 sv capture.batch (race begun)).1).0),
      (p3_finalize sv capture (run_p2 sv capture.batch (race begun)).1).1,
    )

  abbrev pub RunOutcome : Run → Type 0
  RunOutcome run = Stopped run ⊎ (Failed run ⊎ Durable run)

  captured-cases :
      (c : Capture) (t : Session I Γ)
      → Taken sv at fuel s c t
      → RunOutcome (settle_capture sv race (some c) t)
  unfolding settle_capture run_p2 settle
  captured-cases c t k = elim (Result-cases (sv.persist c.batch (race t).backend).0) [
    | inl (e, q) ↦ inr (
        inl
          (record { capture = c; begun = t; taken = k; error = e; raised = q; result = rw q refl }))
    | inr (u, q) ↦
        inr (inr (record { capture = c; begun = t; taken = k; wrote = q; result = rw q refl }))
  ]

  run-cases :
      (p : Result (Option Capture) × Session I Γ)
      → Refused sv at s p ⊎ (c : Capture) × (p.0 ≡ ok (some c)) × Taken sv at fuel s c p.1
      → RunOutcome (continue p.0 (settle_capture sv race) p.1)
  unfolding settle_capture
  run-cases p (inr (c, q, k)) = rw q (captured-cases c p.1 k)
  run-cases p (inl r) = elim r.nothing [
    | inl q ↦ inl (rw q (record { nothing = inl refl; same = r.same }))
    | inr (e, q) ↦ inl (rw q (record { nothing = inr (e, refl); same = r.same }))
  ]

  pub commit-cases : RunOutcome (commit_racing sv race at fuel s)
  unfolding commit_racing
  commit-cases = run-cases (p1_capture sv at fuel s) (p1_capture-cases sv at fuel s)
