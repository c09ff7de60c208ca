-- ===== src/Session/Pending.antt =====
-- The parts of P1: what is pending, what the gate and the delta read of it, `_build_batch` and
-- `_flip_captured`; and what the store calls.
use datacrystal.Base.{
  ℕ, String, Bool, true, false, List, [], ◌∷◌, ◌++◌, Option, none, some, not, if◌then◌else◌, nat_eq,
}
use datacrystal.Base.Dict
use datacrystal.Base.Dict.{Dict}
use datacrystal.Contract.{Bytes, WireDelta}
use datacrystal.Entity.{EntityState, clean}
use datacrystal.Errors.{Result, ok}
use datacrystal.Exec.{Exec}
use datacrystal.Gate
use datacrystal.Gate.{Column, Stored, Staged}
use datacrystal.Ids.{IdAllocator}
use datacrystal.Permissions.{is_root}
use datacrystal.Pipeline.{read_delta_priors}
use datacrystal.Storage.{StoredRecord, CommitBatch, Memory, load_many}
use datacrystal.Session.Live.{Value, TypeInfo, Live, Heap, set_state, Session}
use datacrystal.Session.Encode.{EncodedBatch}

-- What the store calls: the coding of payloads and of numbers, the backend's `apply`, the index manager
-- (`check` is its unique, temporal and dangling checks, `fold` its four folds of P3) and a consumer.
pub record Services (I Γ : Type 0) : Type 0 where
  pub encode : (ℕ → Result ℕ) → List Value → Result Bytes
  pub decode : Bytes → List Column
  pub decimal : ℕ → String
  pub persist : CommitBatch → Exec Memory (Unit {0})
  pub check : I → List (ℕ × Live) → List ℕ → Result (Unit {0})
  pub fold : I → List (ℕ × Live) → List ℕ → I
  pub receive : WireDelta → Exec Γ (Unit {0})
  pub watermark : Γ → ℕ

-- `_deletes` of a capture, and its `flipped`: oid, object and the state before the flip.
abbrev pub Deletes : Type 0
Deletes = Dict ℕ (TypeInfo × Option ℕ)

abbrev pub Flipped : Type 0
Flipped = List (ℕ × ℕ × EntityState)

-- `_Capture`; `entries` are the values that the index manager folds in.
pub record Capture : Type 0 where
  pub tid : ℕ
  pub batch : CommitBatch
  pub entries : List (ℕ × Live)
  pub flipped : Flipped
  pub delta : Option WireDelta
  pub deletes : Deletes

abbrev pub is_empty {ℓ} : {A : Type ℓ} → List A → Bool
is_empty [] = true
is_empty (x ∷ xs) = false

-- `pending.pop(oid, None)` for each deleted id
unfoldable pub drop_deleted : Dict ℕ ℕ → List ℕ → Dict ℕ ℕ
drop_deleted pending [] = pending
drop_deleted pending (oid ∷ oids) = drop_deleted (Dict.remove pending oid) oids

unfoldable pub entries_of : Heap → List (ℕ × ℕ) → List (ℕ × Live)
entries_of h [] = []
entries_of h ((oid, r) ∷ pending) = (oid, h r) ∷ entries_of h pending

-- `prot_deletes`
unfoldable pub protected_deletes : Deletes → List ℕ
protected_deletes [] = []
protected_deletes ((oid, (ti, obj)) ∷ deletes) =
    let rest = protected_deletes deletes in if ti.protected then oid ∷ rest else rest

-- The records of an encoded batch, under their TID.
unfoldable pub records_of : ℕ → List (ℕ × ℕ × Bytes) → List StoredRecord
records_of tid [] = []
records_of tid ((oid, cid, payload) ∷ encoded) =
    record { oid = oid; cid = cid; tid = tid; payload = payload } ∷ records_of tid encoded

-- `_flip_captured`: each entity with the state that it had, the heap and the registry after it.
unfoldable pub flip_captured : List (ℕ × ℕ) → Heap → Dict ℕ ℕ → Flipped × Heap × Dict ℕ ℕ
flip_captured [] h registry = ([], h, registry)
flip_captured ((oid, r) ∷ pending) h registry =
    let (flipped, h', registry') =
      flip_captured pending (set_state h r clean) (Dict.put registry oid r) in
    ((oid, r, (h r).state) ∷ flipped, h', registry')

module _ {I Γ : Type 0} where
  abbrev pub deleted_oids : Session I Γ → List ℕ
  deleted_oids s = Dict.keys s.buffered_deleted

  -- `{**self._new, **self._dirty}` without the deleted ids
  unfoldable pub pending_of : Session I Γ → Dict ℕ ℕ
  pending_of s = drop_deleted (Dict.update s.buffered_new s.buffered_dirty) (deleted_oids s)

  -- `prot_pending`, with what the gate reads of each entity
  unfoldable pub staged_of : Session I Γ → List (ℕ × ℕ) → List Staged
  staged_of s [] = []
  staged_of s ((oid, r) ∷ pending) =
      let rest = staged_of s pending in
      if (s.heap r).type.protected
      then record {
        oid = oid;
        is_new = Dict.has s.buffered_new oid;
        labels = (s.heap r).labels;
        birth = Dict.get s.birth_labels oid;
        actor = (s.heap r).memberships;
      }
        ∷ rest
      else rest

  -- `self._persisted_fields.get(rec.cid, [])` and the decoded payload
  unfoldable pub stored_of : (Bytes → List Column) → Session I Γ → ℕ → Option Stored
  stored_of decode s oid = elim (Dict.get s.backend.objects oid) [
    | none ↦ none
    | some rec ↦ some record {
      fields = elim (Dict.get s.types.persisted_fields rec.cid) [ none ↦ [] | some names ↦ names ];
      values = decode rec.payload;
    }
  ]

  -- The records that the write gate has loaded.
  unfoldable pub gate_records : Session I Γ → List Staged → List ℕ → Dict ℕ StoredRecord
  gate_records s staged deletes =
      if is_root s.principal
      then []
      else load_many s.backend.objects (Gate.persisted_oids staged ++ deletes)

  -- `_build_batch`; `alloc` holds the watermarks.
  unfoldable pub build_batch :
      (ℕ → String) → Session I Γ → ℕ → IdAllocator → EncodedBatch → List ℕ → CommitBatch
  build_batch decimal s tid alloc (records, rows) deletes = record {
    tid = tid;
    records = records_of tid records;
    new_types = rows;
    meta =
        ("next_oid", decimal alloc.oid)
        ∷ ("next_cid", decimal alloc.cid)
        ∷ ("next_tid", decimal alloc.tid)
        ∷ ("root_oid", elim s.root_oid [ none ↦ "" | some oid ↦ decimal oid ])
        ∷ ("format_version", "2")
        ∷ [];
    deletes = deletes;
    blobs = [];
    blob_streams = [];
  }

  -- `if self._consumers`
  abbrev pub watched : Session I Γ → Bool
  watched s = not (is_empty s.consumers)

  -- `_read_delta_priors`, which reads nothing while nothing watches.
  unfoldable pub priors_of :
      Session I Γ
      → List ℕ
      → List ℕ
      → Dict ℕ StoredRecord
      → Result (Dict ℕ Bytes × List (ℕ × ℕ × Bytes))
  priors_of s pending deletes gate =
      if watched s
      then read_delta_priors s.backend.objects (Dict.has s.buffered_new) gate pending deletes
      else ok ([], [])
