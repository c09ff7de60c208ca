-- ===== src/Session/Sequence.antt =====
-- Commit ids and the consumers' watermarks through a commit.
use mathlib.Core.Path.{subst₂}
use datacrystal.Base.{
  ℕ, suc, ◌+◌, not, [], ◌∷◌, ◌&&◌, Option, none, some, eqb, ◌≡◌, refl, sym, ap, arith, ◌∙◌,
  Bool-cases, Option-cases, inl, inr, All, nat_eq, if◌then◌else◌,
}
use datacrystal.Base.Dict.{Dict}
use datacrystal.Contract.{WireDelta}
use datacrystal.Errors.{Result, ok, err}
use datacrystal.Ids.{next_tid}
use datacrystal.Session.Live.{Session}
use datacrystal.Session.Pending.{Services, Capture, is_empty}
use datacrystal.Session.Capture.{capture_all}
use datacrystal.Session.Commit.{p2_rollback, p3_finalize, outcome, deliver, commit_racing, run_p2}
use datacrystal.Session.Taken.{Taken, Taken-Same}
use datacrystal.Session.Outcome.{Failed, Durable, commit-cases}

-- The next commit id is the one after the last.
abbrev pub Gapless : {I Γ : Type 0} → Session I Γ → Type 0
Gapless s = s.alloc.tid ≡ suc s.last_tid

-- What a commit returns, against the last id before and after it.
abbrev pub Advances : Result (Option ℕ) → ℕ → ℕ → Type 0
Advances (ok (some t)) last last' = (t ≡ suc last) × (last' ≡ t)
Advances (ok none) last last' = last' ≡ last
Advances (err e) last last' = last' ≡ last

module _ {I Γ : Type 0} (sv : Services I Γ) where
  -- Every attached consumer has seen the last commit.
  abbrev pub InStep : Session I Γ → Type 0
  InStep s = All (λ e. sv.watermark e.1 ≡ s.last_tid) s.consumers

  InStep-move :
      (cs ds : Dict ℕ Γ) (m n : ℕ)
      → ds ≡ cs
      → n ≡ m
      → All (λ e. sv.watermark e.1 ≡ m) cs
      → All (λ e. sv.watermark e.1 ≡ n) ds
  InStep-move cs ds m n p q all =
      subst₂ (λ es w. All (λ e. sv.watermark e.1 ≡ w) es) (sym p) (sym q) all

  deliver-InStep :
      (tid : ℕ) (d : WireDelta) (cs : Dict ℕ Γ)
      → All (λ e. sv.watermark e.1 ≡ tid) (deliver sv tid d cs)
  unfolding deliver
  deliver-InStep tid d [] = tt
  deliver-InStep tid d ((i, c) ∷ cs) =
      let rest = deliver-InStep tid d cs in
      let (result, c') = sv.receive d c in
      elim (Bool-cases (outcome result && eqb (sv.watermark c') tid)) [
        | inl y ↦ rw y (ground (arith, y), rest)
        | inr n ↦ rw n rest
      ]

  -- What the owner does while P2 runs: it gives out no commit id, and attaches and detaches nothing.
  pub record Calm (race : Session I Γ → Session I Γ) : Type 0 where
    pub tid : (s : Session I Γ) → (race s).alloc.tid ≡ s.alloc.tid
    pub last_tid : (s : Session I Γ) → (race s).last_tid ≡ s.last_tid
    pub consumers : (s : Session I Γ) → (race s).consumers ≡ s.consumers

  -- What P1 leaves with its capture.
  pub record Begun (s : Session I Γ) (c : Capture) (t : Session I Γ) : Type 0 where
    pub tid : c.tid ≡ s.alloc.tid
    pub next : t.alloc.tid ≡ suc s.alloc.tid
    pub last_tid : t.last_tid ≡ s.last_tid
    pub consumers : t.consumers ≡ s.consumers
    pub unwatched : c.delta ≡ none → s.consumers ≡ []
    pub undelivered : s.consumers ≡ [] → c.delta ≡ none

  silent :
      (cs : Dict ℕ Γ) (d : WireDelta)
      → cs ≡ []
      → (if not (is_empty cs) then some d else none) ≡ none
  silent cs d h = rw h refl

  unwatched_lem :
      (cs : Dict ℕ Γ) (d : WireDelta)
      → (if not (is_empty cs) then some d else none) ≡ none
      → cs ≡ []
  unwatched_lem [] d h = refl
  unwatched_lem (c ∷ cs) d h = cc

  same_next : {a b : ℕ} → a ≡ b → a + 1 ≡ suc b
  same_next h = omega (arith, h)

  pub begun :
      (at fuel : ℕ) (s : Session I Γ) (c : Capture) (t : Session I Γ)
      → Taken sv at fuel s c t
      → Begun s c t
  unfolding capture_all next_tid
  begun at fuel s c t taken =
      let same = Taken-Same sv at fuel s c t taken in
      let e = taken.result in
      record {
        tid = ap (λ (p : Capture × Session I Γ). p.0.tid) e ∙ same.tid;
        next = ap (λ (p : Capture × Session I Γ). p.1.alloc.tid) e ∙ (same_next same.tid);
        last_tid = ap (λ (p : Capture × Session I Γ). p.1.last_tid) e ∙ same.last_tid;
        consumers = ap (λ (p : Capture × Session I Γ). p.1.consumers) e ∙ same.consumers;
        undelivered = λ h.
            ap (λ (p : Capture × Session I Γ). p.0.delta) e
            ∙ silent taken.coded.consumers _ (same.consumers ∙ h);
        unwatched = λ h.
            sym same.consumers
            ∙ unwatched_lem taken.coded.consumers _
                (sym (ap (λ (p : Capture × Session I Γ). p.0.delta) e) ∙ h);
      }

  module _ (race : Session I Γ → Session I Γ) (calm : Calm race) (at fuel : ℕ)
      (s : Session I Γ) where
    failed :
        (run : Result (Option ℕ) × Session I Γ) (k : Failed sv race at fuel s run)
        → Gapless s
        → Advances run.0 s.last_tid run.1.last_tid × Gapless run.1
    unfolding p2_rollback run_p2
    failed run k g =
        let b = begun at fuel s k.capture k.begun k.taken in
        let last = calm.last_tid k.begun ∙ b.last_tid in
        rw k.result (last, b.tid ∙ g ∙ ap suc (sym last))

    durable :
        (run : Result (Option ℕ) × Session I Γ) (k : Durable sv race at fuel s run)
        → Gapless s
        → Advances run.0 s.last_tid run.1.last_tid × Gapless run.1
    unfolding p3_finalize run_p2
    durable run k g =
        let b = begun at fuel s k.capture k.begun k.taken in
        rw k.result ((b.tid ∙ g, refl), calm.tid k.begun ∙ b.next ∙ ap suc (sym b.tid))

    -- Where the owner, while P2 runs, gives out no commit id and attaches and detaches no consumer, and the next id
    -- is the one after the last: a commit that returns an id has taken the one after the last, which is then the last; one that finds
    -- nothing or raises leaves the last as it was; and the next id is again the one after the last.
    pub commit-sequence :
        Gapless s
        → Advances
            (commit_racing sv race at fuel s).0
            s.last_tid
            (commit_racing sv race at fuel s).1.last_tid
          × Gapless (commit_racing sv race at fuel s).1
    commit-sequence g = elim (commit-cases sv race at fuel s) [
      | inr (inl k) ↦ failed _ k g
      | inr (inr k) ↦ durable _ k g
      | inl k ↦
          let kept = k.same.tid ∙ g ∙ ap suc (sym k.same.last_tid) in
          elim k.nothing [
            | inl q ↦ (rw q k.same.last_tid, kept)
            | inr (e, q) ↦ (rw q k.same.last_tid, kept)
          ]
    ]

    delivered :
        (c : Capture) (cs : Dict ℕ Γ)
        → (c.delta ≡ none → cs ≡ [])
        → All
            (λ e. sv.watermark e.1 ≡ c.tid)
            (elim c.delta [ none ↦ cs | some d ↦ deliver sv c.tid d cs ])
    delivered c cs h = elim (Option-cases c.delta) [
      | inl n ↦ rw (n, h n) tt
      | inr (d, y) ↦ rw y (deliver-InStep c.tid d cs)
    ]

    -- Where the owner, while P2 runs, gives out no commit id and attaches and detaches no consumer: if every attached
    -- consumer has seen the last commit, each that is attached after a commit has too; one that raises, or
    -- does not come to the new id, is detached.
    pub commit-InStep : InStep s → InStep (commit_racing sv race at fuel s).1
    unfolding p2_rollback run_p2 p3_finalize
    commit-InStep all = elim (commit-cases sv race at fuel s) [
      | inr (inl k) ↦
          let b = begun at fuel s k.capture k.begun k.taken in
          rw k.result (
            InStep-move _ _ _ _ (calm.consumers k.begun ∙ b.consumers)
              (calm.last_tid k.begun ∙ b.last_tid) all)
      | inr (inr k) ↦
          let b = begun at fuel s k.capture k.begun k.taken in
          rw k.result (
            delivered k.capture (race k.begun).consumers
              (λ h. calm.consumers k.begun ∙ b.consumers ∙ b.unwatched h))
      | inl k ↦ InStep-move _ _ _ _ k.same.consumers k.same.last_tid all
    ]
