-- ===== src/Pipeline/Priors.antt =====
-- What the priors of a delta are: the payloads that the backend holds.
use datacrystal.Base.{
  ℕ, true, List, [], ◌∷◌, filter, not, Option, none, some, if◌then◌else◌, nat_eq, contains, ◌≡◌,
  refl, arith, All, ==_iff, Bool-cases, inl, inr, Option-cases, contains-filter, map, ap, sym, ◌∙◌,
}
use mathlib.Core.Path.{subst}
use datacrystal.Base.Dict
use datacrystal.Base.Dict.{Dict, get-put, has-put}
use datacrystal.Contract.{Bytes}
use datacrystal.Errors.{ok, >>=-eq-ok, ok-inj}
use datacrystal.Storage.{StoredRecord, load_many}
use datacrystal.Storage.Apply.{get-load_many}
use datacrystal.Pipeline.Defs.{Tombstone, read_priors, read_tombstones, prior_records, stored}

abbrev pub payload_of : Option StoredRecord → Option Bytes
payload_of none = none
payload_of (some r) = some r.payload

stored-inv : (o : Option StoredRecord) (r : StoredRecord) → stored o ≡ ok r → o ≡ some r
unfolding stored
stored-inv none r h = cc
stored-inv (some x) r h = cc

pub get-read_priors :
    (found : Dict ℕ StoredRecord) (d priors : Dict ℕ Bytes) (oids : List ℕ) (k : ℕ)
    → read_priors found d oids ≡ ok priors
    → Dict.get priors k ≡ (if contains oids k then payload_of (Dict.get found k) else Dict.get d k)
unfolding read_priors
get-read_priors found d priors [] k h = ground arith
get-read_priors found d priors (oid ∷ oids) k h =
    let (r, hr, h') = >>=-eq-ok (stored (Dict.get found oid)) _ h in
    let e = stored-inv (Dict.get found oid) r hr in
    ground (
      arith,
      e,
      get-read_priors found (Dict.put d oid r.payload) priors oids k h',
      get-put d oid k r.payload,
      ==_iff oid k,
    )

-- A tombstone stands for its id, and carries the record of it.
abbrev pub IsTombstone : (ℕ → Option StoredRecord) → Tombstone → Type 0
IsTombstone load t = (r : StoredRecord) × (load t.0 ≡ some r) × (r.cid ≡ t.1) × (r.payload ≡ t.2)

pub tombstones_sound :
    (found : Dict ℕ StoredRecord) (ts : List Tombstone) (oids : List ℕ)
    → read_tombstones found oids ≡ ok ts
    → All (IsTombstone (Dict.get found)) ts
unfolding read_tombstones
tombstones_sound found ts [] h = subst (All (IsTombstone (Dict.get found))) (ok-inj h) tt
tombstones_sound found ts (oid ∷ oids) h =
    let (r, hr, h1) = >>=-eq-ok (stored (Dict.get found oid)) _ h in
    let (ts', ht, h2) = >>=-eq-ok (read_tombstones found oids) _ h1 in
    subst (All (IsTombstone (Dict.get found))) (ok-inj h2)
      ((r, stored-inv _ r hr, refl, refl), tombstones_sound found ts' oids ht)

pub tombstones-oids :
    (found : Dict ℕ StoredRecord) (ts : List Tombstone) (oids : List ℕ)
    → read_tombstones found oids ≡ ok ts
    → map (λ t. t.0) ts ≡ oids
unfolding read_tombstones
tombstones-oids found ts [] h = rw (← ok-inj h)
tombstones-oids found ts (oid ∷ oids) h =
    let (r, hr, h1) = >>=-eq-ok (stored (Dict.get found oid)) _ h in
    let (ts', ht, h2) = >>=-eq-ok (read_tombstones found oids) _ h1 in
    rw (← ok-inj h2) (ap (◌∷◌ oid) (tombstones-oids found ts' oids ht))

-- The records that the gate hands on are the backend's.
abbrev pub FromBackend : Dict ℕ StoredRecord → Dict ℕ StoredRecord → Type 0
FromBackend objects = Dict.Every (λ oid r. Dict.get objects oid ≡ some r)

pub load_many-FromBackend :
    (objects : Dict ℕ StoredRecord) (oids : List ℕ) → FromBackend objects (load_many objects oids)
unfolding load_many
load_many-FromBackend objects [] = tt
load_many-FromBackend objects (oid ∷ oids) = elim (Option-cases (Dict.get objects oid)) [
  | inl n ↦ rw (n, load_many) (load_many-FromBackend objects oids)
  | inr (r, h) ↦
      rw (h, load_many)
        (Dict.Every-put (λ oid r. Dict.get objects oid ≡ some r) (load_many objects oids) oid r h
          (load_many-FromBackend objects oids))
]

module _ (objects gate : Dict ℕ StoredRecord) (true_gate : FromBackend objects gate)
    (want : List ℕ) where
  abbrev missing : List ℕ
  missing = filter (λ oid. not (Dict.has gate oid)) want

  prior_records-FromBackend : FromBackend objects (prior_records objects gate want)
  unfolding prior_records
  prior_records-FromBackend =
      Dict.Every-update (λ oid r. Dict.get objects oid ≡ some r) gate (load_many objects missing)
        (load_many-FromBackend objects missing) true_gate

  prior_records-has :
      (k : ℕ) (r : StoredRecord)
      → contains want k ≡ true
      → Dict.get objects k ≡ some r
      → Dict.has (prior_records objects gate want) k ≡ true
  unfolding prior_records
  prior_records-has k r c h = elim (Bool-cases (Dict.has gate k)) [
    | inl y ↦ ground (arith, Dict.has-update gate (load_many objects missing) k)
    | inr n ↦
        let got : Dict.get (load_many objects missing) k ≡ some r = ground (
          arith,
          get-load_many objects missing k,
          contains-filter (λ oid. not (Dict.has gate oid)) want k,
        ) in
        ground (
          arith,
          Dict.has-update gate (load_many objects missing) k,
          Dict.has-eq-get (load_many objects missing) k r got,
        )
  ]

  -- What is found of a wanted id is what the backend holds, loaded by the gate or now.
  pub get-prior_records :
      (k : ℕ)
      → contains want k ≡ true
      → Dict.get (prior_records objects gate want) k ≡ Dict.get objects k
  get-prior_records k c = elim (Option-cases (Dict.get (prior_records objects gate want) k)) [
    | inr (r, h) ↦
        h
        ∙ sym (
            Dict.Every-get (λ oid r. Dict.get objects oid ≡ some r)
              (prior_records objects gate want) k r h prior_records-FromBackend)
    | inl n ↦ elim (Option-cases (Dict.get objects k)) [
      | inl m ↦ n ∙ sym m
      | inr (r, m) ↦
          let (v, got) =
            Dict.get_of_has (prior_records objects gate want) k (prior_records-has k r c m) in
          absurd (cc (n, got))
    ]
  ]
