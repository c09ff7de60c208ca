-- ===== src/Pipeline/Step.antt =====
-- One commit with its priors read, its delta built and its batch applied, next to an applier that gets
-- the delta.
use mathlib.Core.Path.{subst}
use datacrystal.Base.{
  ℕ, ◌+◌, true, false, List, [], ◌∷◌, ◌++◌, map, Option, some, nat_eq, ◌≡◌, ==_refl, refl, sym, ap,
  ◌∙◌, arith, All, All-map, All-of-map, eqb,
}
use datacrystal.Base.Int.{ℤ}
use datacrystal.Base.Dict
use datacrystal.Base.Dict.{Dict}
use datacrystal.Contract.{
  Bytes, TypeRow, WireDelta, Delta, Applier, format_marker, required, check_delta_header, need,
  apply_ops, put_types, apply_next, apply_at, apply,
}
use datacrystal.Errors.{ok}
use datacrystal.Storage.{StoredRecord, put_records, drop_all}
use datacrystal.Pipeline.Defs.{Tombstone, upsert_ops, delete_ops, build_delta, read_delta_priors}
use datacrystal.Pipeline.Replica.{
  SameObjects, Distinct, put_payloads, drop_payloads, upserts-lem, deletes-lem, apply_ops-append,
  has_cid, has-put_types, has_cid-append, InSync, IsTyped,
}
use datacrystal.Pipeline.Capture.{
  Commit, oids_of, IsCapture, priors-true, ids-true, tombstones-true,
}

pub IsTyped-weaken :
    (objects : Dict ℕ StoredRecord) (types more : List TypeRow)
    → IsTyped objects types
    → IsTyped objects (types ++ more)
IsTyped-weaken objects types more h =
    All-map objects (λ e t. ground (arith, t, has_cid-append types more e.1.cid)) h

pub IsTyped-put_records :
    (objects : Dict ℕ StoredRecord) (types : List TypeRow) (rs : List StoredRecord)
    → All (λ r. has_cid types r.cid ≡ true) rs
    → IsTyped objects types
    → IsTyped (put_records objects rs) types
unfolding put_records
IsTyped-put_records objects types [] new h = h
IsTyped-put_records objects types (r ∷ rs) new h =
    IsTyped-put_records (Dict.put objects r.oid r) types rs new.1
      (Dict.Every-put (λ oid r. has_cid types r.cid ≡ true) objects r.oid r new.0 h)

pub IsTyped-drop_all :
    (objects : Dict ℕ StoredRecord) (types : List TypeRow) (ks : List ℕ)
    → IsTyped objects types
    → IsTyped (drop_all objects ks) types
unfolding drop_all
IsTyped-drop_all objects types [] h = h
IsTyped-drop_all objects types (k ∷ ks) h =
    IsTyped-drop_all (Dict.remove objects k) types ks
      (Dict.Every-remove (λ oid r. has_cid types r.cid ≡ true) objects k h)

Distinct-of-map :
    (ts : List Tombstone) → Distinct (λ k. k) (map (λ t. t.0) ts) → Distinct (λ t. t.0) ts
Distinct-of-map [] h = tt
Distinct-of-map (t ∷ ts) h =
    (All-of-map (λ k. eqb t.0 k ≡ false) (λ t. t.0) ts h.0, Distinct-of-map ts h.1)

required-built :
    (tid : ℕ) (rs : List StoredRecord) (rows : List TypeRow) (root : Option ℕ)
    (priors : Dict ℕ Bytes) (ts : List Tombstone) (actor : ℤ) (at : ℕ)
    → required (build_delta tid rs rows root priors ts actor at)
      ≡ ok (record {
        tid = tid;
        ops = upsert_ops priors rs ++ delete_ops ts;
        types = rows;
        root = root;
      })
unfolding required check_delta_header need build_delta
required-built tid rs rows root priors ts actor at = rw (==_refl (some format_marker)) refl

apply_at-next :
    (x : Delta) (app : Applier) → x.tid ≡ app.watermark + 1 → apply_at x app ≡ apply_next x app
unfolding apply_at
apply_at-next x app h = ground arith

apply_next-done :
    (x : Delta) (app : Applier) (t : Applier)
    → apply_ops x.ops (record app { types = put_types app.types x.types }) ≡ (ok tt, t)
    → apply_next x app ≡ (ok true, record t { root_oid = x.root; watermark = x.tid })
unfolding apply_next
apply_next-done x app t h = rw h

-- An applier in sync with a backend, and a commit that is captured over it.
module _ (app : Applier) (objects : Dict ℕ StoredRecord) (types : List TypeRow) (last : ℕ)
    (root : Option ℕ) (sync : InSync app objects types last root) (typed : IsTyped objects types)
    (c : Commit) (cap : IsCapture objects types c) (priors : Dict ℕ Bytes) (ts : List Tombstone)
    (read : read_delta_priors objects c.is_new c.gate (oids_of c.records) c.deletes
      ≡ ok (priors, ts)) where
  abbrev delta : WireDelta
  delta = build_delta (last + 1) c.records c.new_types c.root priors ts c.actor c.at

  abbrev objects' : Dict ℕ StoredRecord
  objects' = drop_all (put_records objects c.records) c.deletes

  abbrev types' : List TypeRow
  types' = types ++ c.new_types

  abbrev mid : Applier
  mid = record app { types = put_types app.types c.new_types }

  mid-cids : (k : ℕ) → Dict.has mid.types k ≡ has_cid types' k
  mid-cids k = ground (
    arith,
    has-put_types app.types c.new_types k,
    sync.cids k,
    has_cid-append types c.new_types k,
  )

  put-IsTyped : IsTyped (put_records objects c.records) types'
  put-IsTyped =
      IsTyped-put_records objects types' c.records cap.typed
        (IsTyped-weaken objects types c.new_types typed)

  dead_typed : All (λ t. Dict.has mid.types t.1 ≡ true) ts
  dead_typed =
      All-map ts
        (λ t dead.
          let (r, f, cid, _) = dead in
          mid-cids t.1
          ∙ subst (λ k. has_cid types' k ≡ true) cid
              (Dict.Every-get (λ oid r. has_cid types' r.cid ≡ true) (put_records objects c.records)
                t.0 r f put-IsTyped))
        (tombstones-true objects types c cap priors ts read)

  ids : map (λ t. t.0) ts ≡ c.deletes
  ids = ids-true objects types c cap priors ts read

  abbrev upserted : Dict ℕ Bytes
  upserted = put_payloads app.objects c.records

  upserts_run :
      (apply_ops (upsert_ops priors c.records) mid ≡ (ok tt, record mid { objects = upserted }))
      × SameObjects upserted (put_records objects c.records)
  upserts_run =
      upserts-lem priors c.records mid objects sync.same
        (All-map c.records (λ r t. mid-cids r.cid ∙ t) cap.typed)
        (priors-true objects types c cap priors ts read) cap.distinct

  deletes_run :
      (apply_ops (delete_ops ts) (record mid { objects = upserted })
        ≡ (ok tt, record mid { objects = drop_payloads upserted ts }))
      × SameObjects
          (drop_payloads upserted ts)
          (drop_all (put_records objects c.records) (map (λ t. t.0) ts))
  deletes_run =
      deletes-lem ts (record mid { objects = upserted }) (put_records objects c.records)
        upserts_run.1 dead_typed (tombstones-true objects types c cap priors ts read)
        (Distinct-of-map ts (subst (Distinct (λ k. k)) (sym ids) cap.distinct_deletes))

  final : Applier
  final = record mid {
    objects = drop_payloads upserted ts;
    root_oid = c.root;
    watermark = last + 1;
  }

  applied : apply delta app ≡ (ok true, final)
  unfolding apply final
  applied = rw (required-built (last + 1) c.records c.new_types c.root priors ts c.actor c.at) (
      apply_at-next _ app (ap (λ n. n + 1) (sym sync.mark))
      ∙ apply_next-done _ app (record mid { objects = drop_payloads upserted ts })
          (apply_ops-append (upsert_ops priors c.records) (delete_ops ts) mid
              (record mid { objects = upserted }) upserts_run.0
            ∙ deletes_run.0))

  final-InSync : InSync final objects' types' (last + 1) c.root
  unfolding final
  final-InSync = record {
    same =
        subst
          (λ ks.
            SameObjects (drop_payloads upserted ts) (drop_all (put_records objects c.records) ks))
          ids deletes_run.1;
    cids = mid-cids;
    mark = refl;
    root_same = refl;
  }

  -- The delta of a captured commit, built from the priors that the code reads of the backend, takes an
  -- applier in sync with the backend to one in sync with the backend after the batch, one TID later.
  pub replica_follows :
      ((apply delta app).0 ≡ ok true)
      × InSync (apply delta app).1 objects' types' (last + 1) c.root
      × IsTyped objects' types'
  replica_follows = rw applied (
    refl,
    final-InSync,
    IsTyped-drop_all (put_records objects c.records) types' c.deletes put-IsTyped,
  )
