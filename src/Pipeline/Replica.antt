-- ===== src/Pipeline/Replica.antt =====
-- The applier follows the store: a delta that is built from a commit carries the applier's state to
-- that of the backend after the commit.
use datacrystal.Base.{
  ℕ, String, Bool, true, false, List, [], ◌∷◌, ◌++◌, map, Option, some, nat_eq, list_eq, option_eq,
  ◌≡◌, ◌==◌, ==_refl, refl, sym, ap, ◌∙◌, arith, All, All-map2, ◌||◌, inl, inr, any, eqb,
}
use datacrystal.Base.Dict
use datacrystal.Base.Dict.{Dict, get-put, get-remove, has-put}
use datacrystal.Contract.{
  Bytes, TypeRow, WireOp, Applier, required_op, need, change_object, apply_known, apply_op,
  apply_ops, put_types,
}
use datacrystal.Errors.{Result, ok, Result-cases}
use datacrystal.Storage.{StoredRecord, put_records, drop_all}
use datacrystal.Pipeline.Defs.{Tombstone, upsert_op, upsert_ops, delete_op, delete_ops}
use datacrystal.Pipeline.Priors.{payload_of, IsTombstone}

-- The applier holds the payload of every record of the backend, and nothing else.
abbrev pub SameObjects : Dict ℕ Bytes → Dict ℕ StoredRecord → Type 0
SameObjects d m = (k : ℕ) → Dict.get d k ≡ payload_of (Dict.get m k)

SameObjects-put :
    (d : Dict ℕ Bytes) (m : Dict ℕ StoredRecord) (r : StoredRecord)
    → SameObjects d m
    → SameObjects (Dict.put d r.oid r.payload) (Dict.put m r.oid r)
SameObjects-put d m r same k =
    ground (arith, get-put d r.oid k r.payload, get-put m r.oid k r, same k)

SameObjects-remove :
    (d : Dict ℕ Bytes) (m : Dict ℕ StoredRecord) (oid : ℕ)
    → SameObjects d m
    → SameObjects (Dict.remove d oid) (Dict.remove m oid)
SameObjects-remove d m oid same k = ground (arith, get-remove d oid k, get-remove m oid k, same k)

-- No two items have the same id.
abbrev pub Distinct {ℓ} : {A : Type ℓ} → (A → ℕ) → List A → Type 0
Distinct f [] = Unit
Distinct f (x ∷ xs) = All (λ y. eqb (f x) (f y) ≡ false) xs × Distinct f xs

pub put_payloads : Dict ℕ Bytes → List StoredRecord → Dict ℕ Bytes
put_payloads d [] = d
put_payloads d (r ∷ rs) = put_payloads (Dict.put d r.oid r.payload) rs

pub drop_payloads : Dict ℕ Bytes → List Tombstone → Dict ℕ Bytes
drop_payloads d [] = d
drop_payloads d (t ∷ ts) = drop_payloads (Dict.remove d t.0) ts

apply_upsert :
    (priors : Dict ℕ Bytes) (r : StoredRecord) (s : Applier)
    → Dict.has s.types r.cid ≡ true
    → Dict.get priors r.oid ≡ Dict.get s.objects r.oid
    → apply_op (upsert_op priors r) s
      ≡ (ok tt, record s { objects = Dict.put s.objects r.oid r.payload })
unfolding upsert_op apply_op required_op need apply_known change_object
apply_upsert priors r s known same = rw (known, same, ==_refl (Dict.get s.objects r.oid))

apply_delete :
    (t : Tombstone) (s : Applier)
    → Dict.has s.types t.1 ≡ true
    → Dict.get s.objects t.0 ≡ some t.2
    → apply_op (delete_op t) s ≡ (ok tt, record s { objects = Dict.remove s.objects t.0 })
unfolding delete_op apply_op required_op need apply_known change_object
apply_delete t s known same = rw (known, same, ==_refl (some t.2))

get-put_ne :
    (m : Dict ℕ StoredRecord) (a b : ℕ) (v : StoredRecord)
    → eqb a b ≡ false
    → Dict.get (Dict.put m a v) b ≡ Dict.get m b
get-put_ne m a b v h = ground (arith, get-put m a b v)

get-remove_ne :
    (m : Dict ℕ StoredRecord) (a b : ℕ)
    → eqb a b ≡ false
    → Dict.get (Dict.remove m a) b ≡ Dict.get m b
get-remove_ne m a b h = ground (arith, get-remove m a b)

pub upserts-lem :
    (priors : Dict ℕ Bytes) (rs : List StoredRecord) (s : Applier) (m : Dict ℕ StoredRecord)
    → SameObjects s.objects m
    → All (λ r. Dict.has s.types r.cid ≡ true) rs
    → All (λ r. Dict.get priors r.oid ≡ payload_of (Dict.get m r.oid)) rs
    → Distinct (λ r. r.oid) rs
    → (apply_ops (upsert_ops priors rs) s
        ≡ (ok tt, record s { objects = put_payloads s.objects rs }))
      × SameObjects (put_payloads s.objects rs) (put_records m rs)
unfolding upsert_ops apply_ops put_payloads put_records
upserts-lem priors [] s m same known prior one = (refl, same)
upserts-lem priors (r ∷ rs) s m same known prior one =
    let (run, kept) =
      upserts-lem priors rs (record s { objects = Dict.put s.objects r.oid r.payload })
        (Dict.put m r.oid r) (SameObjects-put s.objects m r same) known.1
        (All-map2 rs (λ x p n. rw (get-put_ne m r.oid x.oid r n) p) prior.1 one.0) one.1 in
    (rw (apply_upsert priors r s known.0 (prior.0 ∙ sym (same r.oid))) run, kept)

pub deletes-lem :
    (ts : List Tombstone) (s : Applier) (m : Dict ℕ StoredRecord)
    → SameObjects s.objects m
    → All (λ t. Dict.has s.types t.1 ≡ true) ts
    → All (IsTombstone (Dict.get m)) ts
    → Distinct (λ t. t.0) ts
    → (apply_ops (delete_ops ts) s ≡ (ok tt, record s { objects = drop_payloads s.objects ts }))
      × SameObjects (drop_payloads s.objects ts) (drop_all m (map (λ t. t.0) ts))
unfolding delete_ops apply_ops drop_payloads drop_all
deletes-lem [] s m same known dead one = (refl, same)
deletes-lem (t ∷ ts) s m same known dead one =
    let (r, found, _, pay) = dead.0 in
    let (run, kept) =
      deletes-lem ts (record s { objects = Dict.remove s.objects t.0 }) (Dict.remove m t.0)
        (SameObjects-remove s.objects m t.0 same) known.1
        (All-map2 ts (λ x p n. let (r, f, c, q) = p in (r, rw (get-remove_ne m t.0 x.0 n) f, c, q))
          dead.1 one.0)
        one.1 in
    (rw (apply_delete t s known.0 (same t.0 ∙ ap payload_of found ∙ ap some pay)) run, kept)

pub apply_ops-append :
    (xs ys : List WireOp) (s t : Applier)
    → apply_ops xs s ≡ (ok tt, t)
    → apply_ops (xs ++ ys) s ≡ apply_ops ys t
unfolding apply_ops
apply_ops-append [] ys s t h = ap (λ (p : Result (Unit {0}) × Applier). apply_ops ys p.1) h
apply_ops-append (x ∷ xs) ys s t h = elim (Result-cases (apply_op x s).0) [
  | inl (e, q) ↦ absurd (cc (rw q at h))
  | inr (u, q) ↦ rw q (apply_ops-append xs ys (apply_op x s).1 t (rw q at h))
]

-- A class id that a type row of the list names.
abbrev pub has_cid : List TypeRow → ℕ → Bool
has_cid rows c = any (λ row. row.0 == c) rows

pub has-put_types :
    (d : Dict ℕ (String × List String)) (rows : List TypeRow) (c : ℕ)
    → Dict.has (put_types d rows) c ≡ (has_cid rows c || Dict.has d c)
unfolding put_types
has-put_types d [] c = refl
has-put_types d ((cid, name, fields) ∷ rows) c =
    ground
      (arith, has-put_types (Dict.put d cid (name, fields)) rows c, has-put d cid c (name, fields))

pub has_cid-append :
    (xs ys : List TypeRow) (c : ℕ) → has_cid (xs ++ ys) c ≡ (has_cid xs c || has_cid ys c)
has_cid-append [] ys c = refl
has_cid-append (x ∷ xs) ys c = ground (arith, has_cid-append xs ys c)

-- The applier and the backend show the same store: payloads, class ids, last TID and root.
pub record InSync (app : Applier) (objects : Dict ℕ StoredRecord) (types : List TypeRow) (last : ℕ)
    (root : Option ℕ) : Type 0 where
  pub same : SameObjects app.objects objects
  pub cids : (c : ℕ) → Dict.has app.types c ≡ has_cid types c
  pub mark : app.watermark ≡ last
  pub root_same : app.root_oid ≡ root

-- Every stored record has a class id that the backend knows.
abbrev pub IsTyped : Dict ℕ StoredRecord → List TypeRow → Type 0
IsTyped objects types = Dict.Every (λ oid r. has_cid types r.cid ≡ true) objects
