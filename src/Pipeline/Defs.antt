-- ===== src/Pipeline/Defs.antt =====
-- `build_delta` and `_read_delta_priors`.
use datacrystal.Base.{ℕ, Bool, List, [], ◌∷◌, ◌++◌, filter, not, Option, none, some, nat_eq}
use datacrystal.Base.Int.{ℤ}
use datacrystal.Base.Dict
use datacrystal.Base.Dict.{Dict}
use datacrystal.Contract.{
  Bytes, TypeRow, Version, WireOp, WireDelta, format_marker, contract_version,
}
use datacrystal.Errors.{Result, ok, err, datacrystal_error, ◌>>=◌}
use datacrystal.Storage.{StoredRecord, load_many}

unfoldable pub upsert_op : Dict ℕ Bytes → StoredRecord → WireOp
upsert_op priors rec = record {
  op = some "upsert";
  oid = some rec.oid;
  cid = some rec.cid;
  payload = some (some rec.payload);
  prior = some (Dict.get priors rec.oid);
}

unfoldable pub upsert_ops : Dict ℕ Bytes → List StoredRecord → List WireOp
upsert_ops priors [] = []
upsert_ops priors (rec ∷ records) = upsert_op priors rec ∷ upsert_ops priors records

-- A tombstone: oid, cid and the last payload.
abbrev pub Tombstone : Type 0
Tombstone = ℕ × ℕ × Bytes

unfoldable pub delete_op : Tombstone → WireOp
delete_op (oid, cid, prior) = record {
  op = some "delete";
  oid = some oid;
  cid = some cid;
  payload = some none;
  prior = some (some prior);
}

unfoldable pub delete_ops : List Tombstone → List WireOp
delete_ops [] = []
delete_ops (t ∷ ts) = delete_op t ∷ delete_ops ts

unfoldable pub build_delta :
    ℕ
    → List StoredRecord
    → List TypeRow
    → Option ℕ
    → Dict ℕ Bytes
    → List Tombstone
    → ℤ
    → ℕ
    → WireDelta
build_delta tid records new_types root_oid priors deletes actor at = record {
  f = some format_marker;
  v = some (Version.int contract_version);
  tid = some tid;
  actor = some actor;
  at = some at;
  ops = some (upsert_ops priors records ++ delete_ops deletes);
  types = some new_types;
  root = some root_oid;
}

unfoldable pub stored : Option StoredRecord → Result StoredRecord
stored none = err datacrystal_error
stored (some rec) = ok rec

-- `for oid in persisted_oids: ... priors[oid] = rec.payload`
unfoldable pub read_priors : Dict ℕ StoredRecord → Dict ℕ Bytes → List ℕ → Result (Dict ℕ Bytes)
unfolding stored
read_priors found priors [] = ok priors
read_priors found priors (oid ∷ oids) = do
  rec ← stored (Dict.get found oid)
  read_priors found (Dict.put priors oid rec.payload) oids

-- `for oid, _, _ in deletes: ... delete_ops.append((oid, rec.cid, rec.payload))`
unfoldable pub read_tombstones : Dict ℕ StoredRecord → List ℕ → Result (List Tombstone)
unfolding stored
read_tombstones found [] = ok []
read_tombstones found (oid ∷ oids) = do
  rec ← stored (Dict.get found oid)
  ts ← read_tombstones found oids
  ok ((oid, rec.cid, rec.payload) ∷ ts)

-- The gate's records, with what else is wanted loaded beside them.
unfoldable pub prior_records :
    Dict ℕ StoredRecord → Dict ℕ StoredRecord → List ℕ → Dict ℕ StoredRecord
prior_records objects gate want =
    Dict.update gate (load_many objects (filter (λ oid. not (Dict.has gate oid)) want))

-- `_read_delta_priors`, with a consumer attached: `is_new` tells the ids in `_new`, and `gate` holds the
-- records that the write gate has loaded.
unfoldable pub read_delta_priors :
    Dict ℕ StoredRecord
    → (ℕ → Bool)
    → Dict ℕ StoredRecord
    → List ℕ
    → List ℕ
    → Result (Dict ℕ Bytes × List Tombstone)
read_delta_priors objects is_new gate pending deletes = do
  let persisted = filter (λ oid. not (is_new oid)) pending
  let found = prior_records objects gate (persisted ++ deletes)
  priors ← read_priors found [] persisted
  tombstones ← read_tombstones found deletes
  ok (priors, tombstones)
