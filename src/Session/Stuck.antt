-- ===== src/Session/Stuck.antt =====
-- A buffered deletion of an id that has no record: with a consumer attached, no commit goes through.
use mathlib.Core.Path.{subst}
use datacrystal.Base.{
  ℕ, Bool, true, false, not, List, [], ◌∷◌, ◌++◌, Option, none, some, contains, ==_iff, ◌==◌,
  filter, map, ◌≡◌, ◌≢◌, sym, ap, arith, ◌∙◌, All, Bool-cases, inl, inr, nat_eq, contains-append,
}
use datacrystal.Base.Dict
use datacrystal.Base.Dict.{Dict}
use datacrystal.Contract.{Bytes}
use datacrystal.Errors.{ok, Result-cases, >>=-eq-ok, ok-inj}
use datacrystal.Gate
use datacrystal.Permissions.{is_root}
use datacrystal.Storage.{StoredRecord}
use datacrystal.Pipeline.{read_priors, read_tombstones, prior_records, read_delta_priors}
use datacrystal.Pipeline.Priors.{
  IsTombstone, tombstones_sound, tombstones-oids, get-prior_records, FromBackend,
  load_many-FromBackend,
}
use datacrystal.Session.Live.{TypeInfo, Session}
use datacrystal.Session.Frame.{Same}
use datacrystal.Session.Pending.{
  Services, Capture, entries_of, protected_deletes, staged_of, stored_of, gate_records, is_empty,
  deleted_oids, pending_of, priors_of,
}
use datacrystal.Session.Capture.{validate_before_tid}
use datacrystal.Session.Commit.{commit_racing}
use datacrystal.Session.Taken.{Taken, Found-Same}
use datacrystal.Session.Outcome.{commit-cases}

tombstone_of :
    (f : ℕ → Option StoredRecord) (ts : List (ℕ × ℕ × Bytes)) (k : ℕ)
    → All (IsTombstone f) ts
    → contains (map (λ t. t.0) ts) k ≡ true
    → (r : StoredRecord) × (f k ≡ some r)
tombstone_of f [] k all h = absurd (cc)
tombstone_of f (t ∷ ts) k all h = elim (Bool-cases (t.0 == k)) [
  | inl y ↦ let (r, e, _, _) = all.0 in (r, subst (λ j. f j ≡ some r) ((==_iff t.0 k).0 y) e)
  | inr n ↦ tombstone_of f ts k all.1 (rw n at h)
]

tombstone_found :
    (found : Dict ℕ StoredRecord) (oids : List ℕ) (ts : List (ℕ × ℕ × Bytes)) (k : ℕ)
    → read_tombstones found oids ≡ ok ts
    → contains oids k ≡ true
    → (r : StoredRecord) × (Dict.get found k ≡ some r)
tombstone_found found oids ts k h here =
    tombstone_of (Dict.get found) ts k (tombstones_sound found ts oids h)
      (ap (λ (l : List ℕ). contains l k) (tombstones-oids found ts oids h) ∙ here)

-- Where the priors of a commit are read, each deleted id has a record.
read-deleted :
    (objects : Dict ℕ StoredRecord) (is_new : ℕ → Bool) (gate : Dict ℕ StoredRecord)
    (pending deletes : List ℕ) (out : Dict ℕ Bytes × List (ℕ × ℕ × Bytes)) (k : ℕ)
    → FromBackend objects gate
    → read_delta_priors objects is_new gate pending deletes ≡ ok out
    → contains deletes k ≡ true
    → (r : StoredRecord) × (Dict.get objects k ≡ some r)
unfolding read_delta_priors
read-deleted objects is_new gate pending deletes out k true_gate h here =
    let persisted = filter (λ oid. not (is_new oid)) pending in
    let found = prior_records objects gate (persisted ++ deletes) in
    let (p, hp, h1) = >>=-eq-ok (read_priors found [] persisted) _ h in
    let (ts, ht, h2) = >>=-eq-ok (read_tombstones found deletes) _ h1 in
    let (r, got) = tombstone_found found deletes ts k ht here in
    (
      r,
      sym (
            get-prior_records objects gate true_gate (persisted ++ deletes) k
              (ground (arith, here, contains-append persisted deletes k)))
          ∙ got,
    )

module _ {I Γ : Type 0} (sv : Services I Γ) (at : ℕ) where
  gate-FromBackend :
      (pending : List (ℕ × ℕ)) (s : Session I Γ) (gate : Dict ℕ StoredRecord)
      → (validate_before_tid sv at pending s).0 ≡ ok gate
      → FromBackend s.backend.objects gate
  unfolding validate_before_tid gate_records
  gate-FromBackend pending s gate h =
      elim (Result-cases (sv.check s.index (entries_of s.heap pending) (deleted_oids s))) [
        | inl (e, q) ↦ absurd (cc (rw q at h))
        | inr (u, q) ↦
            elim (Result-cases (
              Gate.check_write_gate s.principal (stored_of sv.decode s) (staged_of s pending)
                (protected_deletes s.buffered_deleted))) [
                  | inl (e, p) ↦ absurd (cc (rw (q, p) at h))
                  | inr (d, p) ↦ elim (Bool-cases (is_root s.principal)) [
                    | inl y ↦ subst (FromBackend s.backend.objects) (ok-inj (rw (q, p, y) at h)) tt
                    | inr n ↦
                        subst (FromBackend s.backend.objects) (ok-inj (rw (q, p, n) at h))
                          (load_many-FromBackend s.backend.objects _)
                  ]
                ]
      ]

  -- A consumer is attached, and a buffered deletion is of an id without a record.
  pub record IsStuck (k : ℕ) (s : Session I Γ) : Type 0 where
    pub watched : is_empty s.consumers ≡ false
    pub deleted : contains (deleted_oids s) k ≡ true
    pub missing : Dict.get s.backend.objects k ≡ none

  IsStuck-move : (k : ℕ) (s t : Session I Γ) → Same s t → IsStuck k s → IsStuck k t
  IsStuck-move k s t same b = record {
    watched = ap is_empty same.consumers ∙ b.watched;
    deleted =
        ap (λ (d : Dict ℕ (TypeInfo × Option ℕ)). contains (Dict.keys d) k) same.deleted
        ∙ b.deleted;
    missing = ap (λ m. Dict.get m.objects k) same.backend ∙ b.missing;
  }

  not_taken :
      (fuel k : ℕ) (s : Session I Γ) (c : Capture) (t : Session I Γ)
      → IsStuck k s
      → ¬ Taken sv at fuel s c t
  unfolding priors_of
  not_taken fuel k s c t stuck taken =
      let b = IsStuck-move k s taken.found (Found-Same sv at fuel s c t taken) stuck in
      let gate = gate-FromBackend (pending_of taken.found) taken.found taken.gate taken.validated in
      let (r, got) =
        read-deleted taken.found.backend.objects (Dict.has taken.found.buffered_new) taken.gate
          (Dict.keys (pending_of taken.found)) (deleted_oids taken.found) taken.read k gate
          (rw b.watched at taken.reading) b.deleted in
      cc (b.missing, got)

  -- A store with a consumer attached that holds a deletion of an id without a record returns from no
  -- commit with an id, whatever is written meanwhile, and is as stuck after it.
  pub commit-IsStuck :
      (race : Session I Γ → Session I Γ) (fuel k : ℕ) (s : Session I Γ)
      → IsStuck k s
      → ((t : ℕ) → (commit_racing sv race at fuel s).0 ≢ ok (some t))
        × IsStuck k (commit_racing sv race at fuel s).1
  commit-IsStuck race fuel k s stuck = elim (commit-cases sv race at fuel s) [
    | inl x ↦ (
      λ t h. elim x.nothing [ inl q ↦ cc (sym q ∙ h) | inr (e, q) ↦ cc (sym q ∙ h) ],
      IsStuck-move k s _ x.same stuck,
    )
    | inr (inl x) ↦ absurd (not_taken fuel k s x.capture x.begun stuck x.taken)
    | inr (inr x) ↦ absurd (not_taken fuel k s x.capture x.begun stuck x.taken)
  ]
