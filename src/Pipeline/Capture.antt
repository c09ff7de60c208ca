-- ===== src/Pipeline/Capture.antt =====
-- What a commit captures, and the priors that it reads.
use mathlib.Core.Path.{subst}
use datacrystal.Base.{
  ℕ, Bool, true, List, [], ◌++◌, map, not, filter, Option, none, nat_eq, contains, ◌≡◌, refl, sym,
  ap, ◌∙◌, arith, All, All-map2, All-of-map, All-contains, inl, inr, Bool-cases, contains-append,
  contains-filter,
}
use datacrystal.Base.Int.{ℤ}
use datacrystal.Base.Dict
use datacrystal.Base.Dict.{Dict}
use datacrystal.Contract.{Bytes, TypeRow}
use datacrystal.Errors.{ok, >>=-eq-ok, ok-inj}
use datacrystal.Storage.{StoredRecord, put_records}
use datacrystal.Storage.Apply.{get-put_records, written}
use datacrystal.Pipeline.Defs.{
  Tombstone, read_priors, read_tombstones, prior_records, read_delta_priors,
}
use datacrystal.Pipeline.Priors.{
  payload_of, IsTombstone, FromBackend, get-read_priors, tombstones_sound, tombstones-oids,
  get-prior_records,
}
use datacrystal.Pipeline.Replica.{Distinct, has_cid}

-- What the first phase of a commit captures: the encoded records, the new type rows, the deleted ids,
-- the root and the stamps, with the ids in `_new` and the records that the gate has loaded.
pub record Commit : Type 0 where
  pub records : List StoredRecord
  pub new_types : List TypeRow
  pub deletes : List ℕ
  pub root : Option ℕ
  pub actor : ℤ
  pub at : ℕ
  pub is_new : ℕ → Bool
  pub gate : Dict ℕ StoredRecord

abbrev pub oids_of : List StoredRecord → List ℕ
oids_of = map (λ r. r.oid)

-- Buffers are maps by id, a delete wins over a write, ids are fresh, and an entity is encoded under a
-- class id that is stored or goes along.
pub record IsCapture (objects : Dict ℕ StoredRecord) (types : List TypeRow) (c : Commit)
    : Type 0 where
  pub loaded : FromBackend objects c.gate
  pub fresh : All (λ r. c.is_new r.oid ≡ true → Dict.get objects r.oid ≡ none) c.records
  pub distinct : Distinct (λ r. r.oid) c.records
  pub distinct_deletes : Distinct (λ k. k) c.deletes
  pub apart : All (λ k. written c.records k ≡ none) c.deletes
  pub typed : All (λ r. has_cid (types ++ c.new_types) r.cid ≡ true) c.records

module _ (objects : Dict ℕ StoredRecord) (types : List TypeRow) (c : Commit)
    (cap : IsCapture objects types c) (priors : Dict ℕ Bytes) (ts : List Tombstone)
    (read : read_delta_priors objects c.is_new c.gate (oids_of c.records) c.deletes
      ≡ ok (priors, ts)) where
  abbrev persisted : List ℕ
  persisted = filter (λ oid. not (c.is_new oid)) (oids_of c.records)

  abbrev found : Dict ℕ StoredRecord
  found = prior_records objects c.gate (persisted ++ c.deletes)

  reads : (read_priors found [] persisted ≡ ok priors) × (read_tombstones found c.deletes ≡ ok ts)
  unfolding read_delta_priors
  reads =
      let (p, hp, h) = >>=-eq-ok (read_priors found [] persisted) _ read in
      let (t, ht, h') = >>=-eq-ok (read_tombstones found c.deletes) _ h in
      let e = ok-inj h' in
      (
        hp ∙ ap ok (ap (λ (x : Dict ℕ Bytes × List Tombstone). x.0) e),
        ht ∙ ap ok (ap (λ (x : Dict ℕ Bytes × List Tombstone). x.1) e),
      )

  get-found :
      (k : ℕ) → contains (persisted ++ c.deletes) k ≡ true → Dict.get found k ≡ Dict.get objects k
  get-found = get-prior_records objects c.gate cap.loaded (persisted ++ c.deletes)

  prior-true :
      (k : ℕ)
      → contains (oids_of c.records) k ≡ true
      → (c.is_new k ≡ true → Dict.get objects k ≡ none)
      → Dict.get priors k ≡ payload_of (Dict.get objects k)
  prior-true k here fresh = elim (Bool-cases (c.is_new k)) [
    | inl n ↦
        get-read_priors found [] priors persisted k reads.0
        ∙ rw (contains-filter (λ oid. not (c.is_new oid)) (oids_of c.records) k, here, n, fresh n)
            (unfold Dict.get in refl)
    | inr o ↦
        let listed : contains persisted k ≡ true =
          rw (contains-filter (λ oid. not (c.is_new oid)) (oids_of c.records) k, here, o) refl in
        get-read_priors found [] priors persisted k reads.0
        ∙ rw listed
            (ap payload_of (get-found k (rw (contains-append persisted c.deletes k, listed) refl)))
  ]

  -- The prior of a record is the payload that the backend holds of its id.
  pub priors-true : All (λ r. Dict.get priors r.oid ≡ payload_of (Dict.get objects r.oid)) c.records
  priors-true =
      All-map2 c.records (λ r here fresh. prior-true r.oid here fresh)
        (All-of-map (λ k. contains (oids_of c.records) k ≡ true) (λ r. r.oid) c.records
          (All-contains (oids_of c.records)))
        cap.fresh

  deleted-found :
      (k : ℕ)
      → contains c.deletes k ≡ true
      → written c.records k ≡ none
      → Dict.get found k ≡ Dict.get (put_records objects c.records) k
  deleted-found k here apart =
      get-found k (ground (arith, here, contains-append persisted c.deletes k))
      ∙ sym (get-put_records objects c.records k ∙ rw apart refl)

  deletes-found : All (λ k. Dict.get found k ≡ Dict.get (put_records objects c.records) k) c.deletes
  deletes-found = All-map2 c.deletes deleted-found (All-contains c.deletes) cap.apart

  pub ids-true : map (λ t. t.0) ts ≡ c.deletes
  ids-true = tombstones-oids found ts c.deletes reads.1

  pub tombstones-true : All (IsTombstone (Dict.get (put_records objects c.records))) ts
  tombstones-true =
      All-map2 ts (λ t here dead. let (r, f, cid, pay) = dead in (r, sym here ∙ f, cid, pay))
        (All-of-map (λ k. Dict.get found k ≡ Dict.get (put_records objects c.records) k) (λ t. t.0)
          ts
          (subst (All (λ k. Dict.get found k ≡ Dict.get (put_records objects c.records) k))
            (sym ids-true) deletes-found))
        (tombstones_sound found ts c.deletes reads.1)
