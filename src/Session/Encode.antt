-- ===== src/Session/Encode.antt =====
-- `_cid_for`, `_oid_for_encode` and `_encode_pending`.
use datacrystal.Base.{
  ℕ, List, [], ◌∷◌, ◌++◌, Option, none, some, any, contains, ◌==◌, ◌||◌, if◌then◌else◌, nat_eq,
  string_eq, list_eq, option_eq,
}
use datacrystal.Base.Dict
use datacrystal.Base.Dict.{Dict}
use datacrystal.Contract.{Bytes, TypeRow}
use datacrystal.Errors.{Result, ok, err, datacrystal_error}
use datacrystal.Errors
use datacrystal.Exec
use datacrystal.Exec.{Exec, ◌>>=◌}
use datacrystal.Ids.{IdAllocator, next_cid}
use datacrystal.Session.Live.{Value, TypeInfo, attributes, Heap, TypeTable, Session}

-- The latest class id of the type name, if the class still has the fields that were stored under it.
unfoldable pub current_cid : TypeTable → TypeInfo → Option ℕ
current_cid t ti = elim (Dict.get t.cid_by_typename ti.typename) [
  | none ↦ none
  | some cid ↦ if Dict.get t.persisted_fields cid == some ti.field_names then some cid else none
]

-- The maps of the type lineage with a new class id.
unfoldable pub add_lineage : ℕ → TypeInfo → TypeTable → TypeTable
add_lineage cid ti t = record t {
  cid_by_typename = Dict.put t.cid_by_typename ti.typename cid;
  persisted_fields = Dict.put t.persisted_fields cid ti.field_names;
}

-- A row for every class id that is not durable, once.
unfoldable pub add_row : TypeTable → ℕ → TypeInfo → List TypeRow → List TypeRow
add_row t cid ti rows =
    if contains t.durable_cids cid || any (λ row. row.0 == cid) rows
    then rows
    else rows ++ (cid, ti.typename, ti.field_names) ∷ []

-- `_cid_for`: the class id, the type table, the allocator and the rows of the batch.
unfoldable pub cid_for :
    TypeInfo → TypeTable → IdAllocator → List TypeRow → ℕ × TypeTable × IdAllocator × List TypeRow
cid_for ti t alloc rows = elim (current_cid t ti) [
  | some cid ↦ (cid, t, alloc, add_row t cid ti rows)
  | none ↦
      let cid = (next_cid alloc).0 in
      let t' = add_lineage cid ti t in (cid, t', (next_cid alloc).1, add_row t' cid ti rows)
]

-- `_EncodedBatch` without blobs: oid, cid and payload of each record, and the type rows.
abbrev pub EncodedBatch : Type 0
EncodedBatch = List (ℕ × ℕ × Bytes) × List TypeRow

-- `_oid_for_encode`
unfoldable pub oid_for_encode : Heap → ℕ → Result ℕ
oid_for_encode h r = elim (h r).oid [ none ↦ err datacrystal_error | some oid ↦ ok oid ]

-- The payload of an entity: the coding of all its columns, in the order of `ti.field_names`. `encode` is
-- `encode_payload`: the coding of their values, given the ids of the entities in them.
unfoldable pub entity_payload :
    ((ℕ → Result ℕ) → List Value → Result Bytes) → Heap → ℕ → Result Bytes
entity_payload encode h r =
    Errors.◌>>=◌ (attributes (h r) (h r).type.field_names)
      (λ values. encode (oid_for_encode h) values)

module _ {I Γ : Type 0} (encode : (ℕ → Result ℕ) → List Value → Result Bytes) where
  -- The loop of `_encode_pending` over oids and references.
  unfoldable pub encode_pending : List (ℕ × ℕ) → List TypeRow → Exec (Session I Γ) EncodedBatch
  unfolding cid_for
  encode_pending [] rows s = (ok ([], rows), s)
  encode_pending ((oid, r) ∷ pending) rows s =
      let (cid, types, alloc, rows') = cid_for (s.heap r).type s.types s.alloc rows in
      (do
        payload ← Exec.lift (entity_payload encode s.heap r)
        (records, rows'') ← encode_pending pending rows'
        Exec.pure ((oid, cid, payload) ∷ records, rows''))
        (record s { types = types; alloc = alloc })
