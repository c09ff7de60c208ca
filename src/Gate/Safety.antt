-- ===== src/Gate/Safety.antt =====
-- What a commit that passes the whole gate may contain.
use datacrystal.Base.{
  ℕ, true, false, List, [], ◌∷◌, ◌++◌, Option, none, contains, ◌≡◌, refl, ◌⊎◌, inl, inr, All, arith,
  nat_eq, ==_iff, ==_refl, if◌then◌else◌, ◌∙◌, ap, All-map, All-map2, All-contains, contains-append,
}
use mathlib.Core.Path.{subst}
use datacrystal.Base.Int.{int_eq}
use datacrystal.Base.Dict
use datacrystal.Base.Dict.{Dict}
use datacrystal.Errors.{ok, >>=-eq-ok}
use datacrystal.Permissions.{Principal, Labels, is_root}
use datacrystal.Gate.Defs.{
  Stored, Staged, gate_delete, prior_of, gate_one, gate_pending, gate_deletes, labels_of, load_many,
  check_write_gate, persisted_oids,
}
use datacrystal.Gate.May.{
  MayWrite, MayDelete, decoded, as_ok, labels_of-decoded, gate_one_sound, prior_of-inv,
  gate_delete-inv,
}

get-load_many :
    (load : ℕ → Option Stored) (oids : List ℕ) (k : ℕ)
    → Dict.get (load_many load oids) k ≡ (if contains oids k then load k else none)
unfolding load_many Dict.get
get-load_many load [] k = refl
get-load_many load (oid ∷ oids) k = ground (arith, get-load_many load oids k, ==_iff oid k)

-- The gate loads every buffered entity that is not new.
persisted_oids-cover :
    (pending : List Staged)
    → All (λ s. (s.is_new ≡ true) ⊎ (contains (persisted_oids pending) s.oid ≡ true)) pending
unfolding persisted_oids
persisted_oids-cover [] = tt
persisted_oids-cover (s ∷ rest) = (
  ground (arith, ==_refl s.oid),
  All-map rest (λ t. elim [ inl n ↦ inl n | inr c ↦ inr (ground (arith, c)) ])
      (persisted_oids-cover rest),
)

module _ (p : Principal) (records : Dict ℕ Stored) (labels : Dict ℕ Labels)
    (same : (oid : ℕ) → decoded (Dict.get records oid) ≡ as_ok (Dict.get labels oid)) where
  gate_pending_sound :
      (pending : List Staged)
      → gate_pending p records labels pending ≡ ok tt
      → All (λ s. MayWrite p (Dict.get records s.oid) s) pending
  unfolding gate_pending
  gate_pending_sound [] h = tt
  gate_pending_sound (s ∷ rest) h =
      let (_, hs, h') =
        >>=-eq-ok (gate_one p (Dict.get records s.oid) (Dict.get labels s.oid) s) _ h in
      (gate_one_sound p _ _ s (same s.oid) hs, gate_pending_sound rest h')

  gate_deletes_sound :
      (deletes : List ℕ)
      → gate_deletes p labels deletes ≡ ok tt
      → All (λ oid. MayDelete p (Dict.get records oid)) deletes
  unfolding gate_deletes gate_delete
  gate_deletes_sound [] h = tt
  gate_deletes_sound (oid ∷ rest) h =
      let (prior, hp, h') = >>=-eq-ok (prior_of (Dict.get labels oid)) _ h in
      let (_, hd, h'') = >>=-eq-ok (gate_delete p prior) _ h' in
      (
        record {
          prior = prior;
          found = same oid ∙ ap as_ok (prior_of-inv _ prior hp);
          cleared = gate_delete-inv p prior hd;
        },
        gate_deletes_sound rest h'',
      )

module _ (load : ℕ → Option Stored) (pending : List Staged) (deletes : List ℕ) where
  abbrev loaded : Dict ℕ Stored
  loaded = load_many load (persisted_oids pending ++ deletes)

  get-loaded :
      (oid : ℕ)
      → (contains (persisted_oids pending) oid ≡ true)
        ⊎ (contains deletes oid ≡ true)
        ⊎ (load oid ≡ none)
      → Dict.get loaded oid ≡ load oid
  get-loaded oid h = ground (
    arith,
    get-load_many load (persisted_oids pending ++ deletes) oid,
    contains-append (persisted_oids pending) deletes oid,
  )

  -- In a commit that the gate accepts from a committer who is not the root, and in which new entities
  -- have ids that are not stored, every write and delete is one that the committer may make: over the
  -- stored records, it clears each write floor, keeps each owner, and raises no label or membership
  -- above what it holds.
  pub check_write_gate_sound :
      (p : Principal) (records : Dict ℕ Stored)
      → is_root p ≡ false
      → All (λ s. s.is_new ≡ true → load s.oid ≡ none) pending
      → check_write_gate p load pending deletes ≡ ok records
      → All (λ s. MayWrite p (load s.oid) s) pending × All (λ oid. MayDelete p (load oid)) deletes
  unfolding check_write_gate
  check_write_gate_sound p records r fresh h =
      let (labels, hl, h1) = >>=-eq-ok (labels_of loaded) _ (rw r at h) in
      let (_, hp, h2) = >>=-eq-ok (gate_pending p loaded labels pending) _ h1 in
      let (_, hd, _) = >>=-eq-ok (gate_deletes p labels deletes) _ h2 in
      let same = λ (oid : ℕ). labels_of-decoded loaded labels oid hl in
      (
        All-map2 pending (λ s c w. subst (λ r. MayWrite p r s) (get-loaded s.oid c) w)
            (All-map2 pending (λ s c f. elim c [ inl n ↦ inr (inr (f n)) | inr k ↦ inl k ])
              (persisted_oids-cover pending) fresh)
            (gate_pending_sound p loaded labels same pending hp),
        All-map2 deletes (λ oid c w. subst (MayDelete p) (get-loaded oid (inr (inl c))) w)
            (All-contains deletes) (gate_deletes_sound p loaded labels same deletes hd),
      )
