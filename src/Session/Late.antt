-- ===== src/Session/Late.antt =====
-- A consumer that is attached while P2 runs of a commit that no consumer watched.
use datacrystal.Base.{
  ℕ, suc, false, [], ◌∷◌, ◌++◌, Option, some, ◌≡◌, sym, ap, arith, ◌∙◌, inl, inr, nat_eq, ltb,
}
use datacrystal.Base.Dict
use datacrystal.Base.Dict.{Dict}
use datacrystal.Errors.{Result, ok, err}
use datacrystal.Session.Live.{Session}
use datacrystal.Session.Pending.{Services}
use datacrystal.Session.Commit.{p3_finalize, run_p2, commit_racing}
use datacrystal.Session.Verbs.{attach}
use datacrystal.Session.Outcome.{commit-cases}
use datacrystal.Session.Sequence.{Gapless, begun}

module _ {I Γ : Type 0} (sv : Services I Γ) (i : ℕ) (c : Γ) where
  -- The owner attaches a consumer, if the store allows it.
  abbrev pub attaching : Session I Γ → Session I Γ
  attaching s = elim (attach sv.watermark i c s) [ ok t ↦ t | err e ↦ s ]

  attached-lem :
      (s : Session I Γ)
      → s.consumers ≡ []
      → sv.watermark c ≡ s.last_tid
      → attach sv.watermark i c s ≡ ok (record s { consumers = (i, c) ∷ [] })
  unfolding attach Dict.has
  attached-lem s none_there level =
      let below : ltb (sv.watermark c) s.last_tid ≡ false = ground (arith, level) in
      let above : ltb s.last_tid (sv.watermark c) ≡ false = ground (arith, level) in
      let absent : Dict.has s.consumers i ≡ false =
        ap (λ (cs : Dict ℕ Γ). Dict.has cs i) none_there in
      rw (below, above, absent)
        (ap (λ (cs : Dict ℕ Γ). ok (record s { consumers = cs ++ (i, c) ∷ [] })) none_there)

  -- A consumer at the last id, attached while P2 runs of a commit that began with none attached, is
  -- accepted, gets no delta of that commit, and stays attached one id behind.
  pub commit-behind :
      (at fuel : ℕ) (s : Session I Γ) (tid : ℕ)
      → s.consumers ≡ []
      → sv.watermark c ≡ s.last_tid
      → Gapless s
      → (commit_racing sv attaching at fuel s).0 ≡ ok (some tid)
      → ((commit_racing sv attaching at fuel s).1.consumers ≡ (i, c) ∷ [])
        × ((commit_racing sv attaching at fuel s).1.last_tid ≡ suc (sv.watermark c))
  unfolding p3_finalize run_p2
  commit-behind at fuel s tid empty level g h = elim (commit-cases sv attaching at fuel s) [
    | inl k ↦ elim k.nothing [
      | inl q ↦ absurd (cc (sym q ∙ h))
      | inr (e, q) ↦ absurd (cc (sym q ∙ h))
    ]
    | inr (inl k) ↦
        absurd (cc (sym (ap (λ (p : Result (Option ℕ) × Session I Γ). p.0) k.result) ∙ h))
    | inr (inr k) ↦
        let b = begun sv at fuel s k.capture k.begun k.taken in
        let joined = attached-lem k.begun (b.consumers ∙ empty) (level ∙ sym b.last_tid) in
        rw (k.result, b.undelivered empty)
          (
            ap
                (λ (r : Result (Session I Γ)).
                  Session.consumers (elim r [ ok t ↦ t | err e ↦ k.begun ]))
                joined,
            b.tid ∙ g ∙ ap suc (sym level),
          )
  ]
