-- ===== src/Tests/Session.antt =====
-- Commits of a small store with a replica attached.
use datacrystal.Base.{
  ℕ, ◌+◌, List, [], ◌∷◌, ◌++◌, Bool, true, false, none, some, eqb, if◌then◌else◌, ◌==◌, nat_eq, ◌≡◌,
  ◌≢◌, refl, arith, Bool-cases, inl, inr, option_beq, list_beq,
}
use datacrystal.Base.Int.{ℤ, pos, negsuc}
use datacrystal.Contract.{Bytes, Applier, WireDelta}
use datacrystal.Contract
use datacrystal.Entity.{new}
use datacrystal.Errors.{Result, ok, err, value_error, ◌>>=◌}
use datacrystal.Exec.{Exec}
use datacrystal.Ids.{fresh, oid_base}
use datacrystal.Storage.{start, CommitBatch, Memory}
use datacrystal.Storage
use datacrystal.Session.Live.{
  Value, Values, number, scalar, entity, loaded, unloaded, sequence, done, more, TypeInfo, Live,
  Session, attribute, attributes,
}
use datacrystal.Storage.Atomic.{IsAtomic, apply-IsAtomic}
use datacrystal.Session.Sequence.{Calm, Advances, Gapless, InStep, commit-sequence, commit-InStep}
use datacrystal.Session.Typed.{IsTypedStore, commit-IsTypedStore}
use datacrystal.Session.Buffers.{IsBuffered}
use datacrystal.Session.Failure.{Kept, commit-Kept}
use datacrystal.Session.Fuel.{refs_of}
use datacrystal.Session.Rounds.{Closed}
use datacrystal.Session.Weights.{total}
use datacrystal.Session.Finish.{LeavesNothing, references, discover-LeavesNothing}
use datacrystal.Session.Stuck.{IsStuck, commit-IsStuck}
use datacrystal.Session.Late.{attaching, commit-behind}
use datacrystal.Session.Effect.{Stores, commit-StoredAs}
use datacrystal.Session.Graph.{
  register_graph, stamp_perm_labels, untouched, birth_base, stamped_labels,
}
use datacrystal.Base.Dict
use datacrystal.Gate
use datacrystal.Ids.{next_oid, next_tid, next_cid}
use datacrystal.Permissions.{is_root, authority_towards, level, standing, is_owner}
use datacrystal.Pipeline.{
  build_delta, read_priors, read_tombstones, prior_records, read_delta_priors,
}
use datacrystal.Session.Live.{stamp, set_state}
use datacrystal.Session.Reach.{require_storable, is_buffered, walk_value, queue_field_entities}
use datacrystal.Session.Graph.{adopted, visit, walk, register_all, discover_new_graphs}
use datacrystal.Session.Encode.{
  current_cid, add_lineage, add_row, cid_for, entity_payload, oid_for_encode, encode_pending,
}
use datacrystal.Session.Pending.{
  staged_of, drop_deleted, pending_of, gate_records, flip_captured, build_batch, priors_of,
}
use datacrystal.Session.Capture.{validate_before_tid, capture_all, capture_discovered, p1_capture}
use datacrystal.Session.Commit.{settle_capture, bar_deleted, deliver}
use datacrystal.Session.Pending.{Services}
use datacrystal.Session.Commit.{commit, commit_racing}
use datacrystal.Session.Verbs.{delete_instance, attach}

abbrev encode_number : ℤ → Bytes
encode_number (pos n) = 0 ∷ n ∷ []
encode_number (negsuc n) = 1 ∷ n ∷ []

abbrev mutual
  encode_value : (ℕ → Result ℕ) → Value → Result Bytes
  encode_value ids (number n) = ok (encode_number n)
  encode_value ids (scalar b) = ok b
  encode_value ids (entity r) = do oid ← ids r; ok (oid ∷ [])
  encode_value ids (loaded r) = do oid ← ids r; ok (oid ∷ [])
  encode_value ids (unloaded oid) = ok (oid ∷ [])
  encode_value ids (sequence vs) = encode_values ids vs

  encode_values : (ℕ → Result ℕ) → Values → Result Bytes
  encode_values ids done = ok []
  encode_values ids (more v vs) = do b ← encode_value ids v; bs ← encode_values ids vs; ok (b ++ bs)

abbrev encode : (ℕ → Result ℕ) → List Value → Result Bytes
encode ids [] = ok []
encode ids (v ∷ vs) = do b ← encode_value ids v; bs ← encode ids vs; ok (b ++ bs)

abbrev no_digest : Bytes → Bytes
no_digest b = []

abbrev unit_of : Result Bool × Applier → Result (Unit {0}) × Applier
unit_of (ok b, c) = (ok tt, c)
unit_of (err e, c) = (err e, c)

abbrev replicate : WireDelta → Exec Applier (Unit {0})
replicate delta c = unit_of (Contract.apply delta c)

abbrev services : Services (Unit {0}) Applier
services = record {
  encode = encode;
  decode = λ b. [];
  decimal = λ n. if n == 0 then "0" else "1";
  persist = Storage.apply no_digest;
  check = λ index entries deletes. ok tt;
  fold = λ index entries deletes. tt;
  receive = λ delta. replicate delta;
  watermark = λ c. c.watermark;
}

abbrev mineral : TypeInfo
mineral = record {
  typename = "Mineral";
  field_names = "name" ∷ "host" ∷ [];
  protected = false;
  has_entity_refs = true;
}

abbrev rock : ℕ → Live
rock r = record {
  oid = none;
  state = new;
  redacted = false;
  type = mineral;
  fields =
      record { name = "name"; lazy_refs = false; value = scalar (r ∷ []) }
      ∷ record { name = "host"; lazy_refs = false; value = if eqb r 0 then entity 1 else scalar [] }
      ∷ [];
  labels = record { owner = pos 0; groups = []; read_floor = pos 0; write_floor = pos 0 };
  memberships = none;
}

abbrev empty_store : Session (Unit {0}) Applier
empty_store = record {
  heap = rock;
  buffered_new = [];
  buffered_dirty = [];
  buffered_deleted = [];
  cancelled_new = [];
  birth_labels = [];
  prestamp_labels = [];
  registry = [];
  alloc = fresh;
  types = record { cid_by_typename = []; persisted_fields = []; durable_cids = [] };
  root_oid = none;
  last_tid = 0;
  consumers = (7, Contract.start) ∷ [];
  index = tt;
  backend = start;
  principal = record { uid = pos 1; memberships = [] };
  lost = false;
}

-- The first entity is buffered as NEW; its host is not registered yet.
abbrev one_rock : Session (Unit {0}) Applier
one_rock = record empty_store {
  heap = λ r. if eqb r 0 then record (rock 0) { oid = some oid_base } else rock r;
  buffered_new = (oid_base, 0) ∷ [];
  alloc = record fresh { oid = oid_base + 1 };
}

abbrev idle : Session (Unit {0}) Applier → Session (Unit {0}) Applier
idle s = s

stored_both : (commit_racing services idle 100 9 one_rock).0 ≡ ok (some 1)
unfolding commit_racing p1_capture discover_new_graphs register_all register_graph walk visit
    require_storable is_buffered Dict.has queue_field_entities walk_value next_oid adopted Dict.put
    stamp pending_of drop_deleted capture_discovered encode_pending priors_of read_delta_priors
    read_priors read_tombstones prior_records Dict.update Dict.get Dict.remove validate_before_tid
    Gate.check_write_gate is_root gate_records settle_capture Storage.apply Storage.materialize
    Storage.put_records Storage.drop_all Storage.put_blobs Storage.load_many next_tid next_cid
    capture_all flip_captured set_state build_batch build_delta Contract.apply cid_for add_lineage
    add_row current_cid entity_payload attributes oid_for_encode deliver bar_deleted Gate.labels_of
    Gate.load_many Gate.gate_pending Gate.gate_deletes option_beq list_beq
stored_both = refl

-- A protected entity refers to another, which discovery registers and stamps; both payloads show their labels.
abbrev guarded : TypeInfo
guarded = record {
  typename = "Guarded";
  field_names =
      "name" ∷ "host" ∷ "_dc_owner" ∷ "_dc_groups" ∷ "_dc_read_floor" ∷ "_dc_write_floor" ∷ [];
  protected = true;
  has_entity_refs = true;
}

abbrev sealed : ℕ → Live
sealed r = record (rock r) {
  type = guarded;
  fields =
      record { name = "name"; lazy_refs = false; value = scalar (r ∷ []) }
      ∷ record { name = "host"; lazy_refs = true; value = if eqb r 0 then loaded 1 else scalar [] }
      ∷ [];
}

abbrev sealed_rock : Session (Unit {0}) Applier
sealed_rock = record one_rock {
  heap = λ r.
      if eqb r 0
      then record (sealed 0) {
        oid = some oid_base;
        labels = record {
          owner = pos 1;
          groups = pos 0 ∷ [];
          read_floor = pos 0;
          write_floor = pos 0;
        };
      }
      else sealed r;
}

stored_sealed : (commit_racing services idle 100 9 sealed_rock).0 ≡ ok (some 1)
unfolding commit_racing p1_capture discover_new_graphs register_all register_graph walk visit
    require_storable is_buffered Dict.has queue_field_entities walk_value next_oid adopted Dict.put
    stamp pending_of drop_deleted capture_discovered encode_pending priors_of read_delta_priors
    read_priors read_tombstones prior_records Dict.update Dict.get Dict.remove validate_before_tid
    Gate.check_write_gate is_root gate_records settle_capture Storage.apply Storage.materialize
    Storage.put_records Storage.drop_all Storage.put_blobs Storage.load_many next_tid next_cid
    capture_all flip_captured set_state build_batch build_delta Contract.apply cid_for add_lineage
    add_row current_cid entity_payload attributes oid_for_encode deliver bar_deleted Gate.labels_of
    Gate.load_many Gate.gate_pending Gate.gate_deletes option_beq list_beq staged_of
    stamp_perm_labels Gate.gate_one Gate.gate_actor Gate.gate_new_record Gate.gate_base
    Gate.gate_groups Gate.gate_floor Gate.gate_label_changes Gate.persisted_oids Gate.prior_of
    authority_towards level standing is_owner untouched birth_base stamped_labels attribute
stored_sealed = refl

-- The stamped entity inherits the group of the one that holds it.
inherited :
    (Dict.get (commit_racing services idle 100 9 sealed_rock).1.backend.objects (oid_base + 1))
    ≡ some record {
      oid = oid_base + 1;
      cid = 1;
      tid = 1;
      payload = 1 ∷ 0 ∷ 1 ∷ 0 ∷ 0 ∷ 0 ∷ 0 ∷ 0 ∷ 0 ∷ [];
    }
unfolding commit_racing p1_capture discover_new_graphs register_all register_graph walk visit
    require_storable is_buffered Dict.has queue_field_entities walk_value next_oid adopted Dict.put
    stamp pending_of drop_deleted capture_discovered encode_pending priors_of read_delta_priors
    read_priors read_tombstones prior_records Dict.update Dict.get Dict.remove validate_before_tid
    Gate.check_write_gate is_root gate_records settle_capture Storage.apply Storage.materialize
    Storage.put_records Storage.drop_all Storage.put_blobs Storage.load_many next_tid next_cid
    capture_all flip_captured set_state build_batch build_delta Contract.apply cid_for add_lineage
    add_row current_cid entity_payload attributes oid_for_encode deliver bar_deleted Gate.labels_of
    Gate.load_many Gate.gate_pending Gate.gate_deletes option_beq list_beq staged_of
    stamp_perm_labels Gate.gate_one Gate.gate_actor Gate.gate_new_record Gate.gate_base
    Gate.gate_groups Gate.gate_floor Gate.gate_label_changes Gate.persisted_oids Gate.prior_of
    authority_towards level standing is_owner untouched birth_base stamped_labels attribute
inherited = refl

commit-StoredAs_example :
    Stores encode 9 sealed_rock 1 (commit_racing services idle 100 9 sealed_rock).1
commit-StoredAs_example =
    commit-StoredAs services (apply-IsAtomic no_digest) idle (λ s. refl) 100 9 sealed_rock (tt, tt)
      tt 1 stored_sealed

closed : Closed (0 ∷ 1 ∷ []) one_rock
closed r here = elim (Bool-cases (eqb r 0)) [
  | inl y ↦ rw y (tt, (refl, tt))
  | inr n ↦ rw n (tt, (tt, tt))
]

discover-LeavesNothing_example : LeavesNothing (discover_new_graphs 9 one_rock).0
unfolding references total refs_of
discover-LeavesNothing_example =
    discover-LeavesNothing (0 ∷ 1 ∷ []) 9 one_rock closed (refl, tt) (omega arith)

calm : Calm services idle
calm = record { tid = λ s. refl; last_tid = λ s. refl; consumers = λ s. refl }

commit-sequence_example :
    Advances
      (commit_racing services idle 100 9 one_rock).0
      0
      (commit_racing services idle 100 9 one_rock).1.last_tid
    × Gapless (commit_racing services idle 100 9 one_rock).1
commit-sequence_example = commit-sequence services idle calm 100 9 one_rock refl

commit-InStep_example : InStep services (commit_racing services idle 100 9 one_rock).1
commit-InStep_example = commit-InStep services idle calm 100 9 one_rock (refl, tt)

commit-IsTypedStore_example : IsTypedStore (commit_racing services idle 100 9 one_rock).1
commit-IsTypedStore_example =
    commit-IsTypedStore services (apply-IsAtomic no_digest) idle (λ s. refl) (λ s. refl) 100 9
      one_rock (tt, tt)

-- A disk that refuses every batch.
abbrev broken : Services (Unit {0}) Applier
broken = record services { persist = λ b m. (err value_error, m) }

broken-IsAtomic : IsAtomic broken.persist
broken-IsAtomic = record {
  raised = λ b m e h. refl;
  objects = λ b m h. absurd (cc h);
  types = λ b m h. absurd (cc h);
}

one_rock-IsBuffered : IsBuffered one_rock
unfolding Dict.get
one_rock-IsBuffered = record {
  new_keys = (tt, tt);
  dirty_keys = tt;
  deleted_keys = tt;
  are_new = ((refl, refl, omega arith), tt);
  are_dirty = tt;
  apart = (refl, tt);
  loose = λ r h. elim (Bool-cases (eqb r 0)) [ inl y ↦ rw y refl | inr n ↦ rw n refl ];
}

refused : (commit broken 100 9 one_rock).0 ≡ err value_error
unfolding commit commit_racing p1_capture discover_new_graphs register_all register_graph walk visit
    require_storable is_buffered Dict.has queue_field_entities walk_value next_oid adopted Dict.put
    stamp pending_of drop_deleted capture_discovered encode_pending priors_of read_delta_priors
    read_priors read_tombstones prior_records Dict.update Dict.get Dict.remove validate_before_tid
    Gate.check_write_gate is_root gate_records settle_capture Storage.apply Storage.materialize
    Storage.put_records Storage.drop_all Storage.put_blobs Storage.load_many next_tid next_cid
    capture_all flip_captured set_state build_batch build_delta Contract.apply cid_for add_lineage
    add_row current_cid entity_payload attributes oid_for_encode deliver bar_deleted Gate.labels_of
    Gate.load_many Gate.gate_pending Gate.gate_deletes option_beq list_beq
refused = refl

commit-Kept_example : Kept one_rock (commit broken 100 9 one_rock).1
commit-Kept_example =
    commit-Kept broken broken-IsAtomic 100 9 one_rock one_rock-IsBuffered value_error refused

-- The entity is deleted while the disk refuses it.
abbrev deleting : Session (Unit {0}) Applier → Session (Unit {0}) Applier
deleting s = elim (delete_instance 0 s) [ ok p ↦ p.1 | err e ↦ s ]

abbrev torn : Session (Unit {0}) Applier
torn = (commit_racing broken deleting 100 9 one_rock).1

torn-IsStuck : IsStuck services 100 oid_base torn
unfolding delete_instance commit_racing p1_capture discover_new_graphs register_all register_graph
    walk visit require_storable is_buffered Dict.has queue_field_entities walk_value next_oid
    adopted Dict.put stamp pending_of drop_deleted capture_discovered encode_pending priors_of
    read_delta_priors read_priors read_tombstones prior_records Dict.update Dict.get Dict.remove
    validate_before_tid Gate.check_write_gate is_root gate_records settle_capture Storage.apply
    Storage.materialize Storage.put_records Storage.drop_all Storage.put_blobs Storage.load_many
    next_tid next_cid capture_all flip_captured set_state build_batch build_delta Contract.apply
    cid_for add_lineage add_row current_cid entity_payload attributes oid_for_encode deliver
    bar_deleted Gate.labels_of Gate.load_many Gate.gate_pending Gate.gate_deletes option_beq
    list_beq
torn-IsStuck = record { watched = refl; deleted = refl; missing = refl }

commit-IsStuck_example :
    ((t : ℕ) → (commit_racing services idle 100 9 torn).0 ≢ ok (some t))
    × IsStuck services 100 oid_base (commit_racing services idle 100 9 torn).1
commit-IsStuck_example = commit-IsStuck services 100 idle 9 oid_base torn torn-IsStuck

abbrev unwatched_rock : Session (Unit {0}) Applier
unwatched_rock = record one_rock { consumers = [] }

joined :
    (commit_racing services (attaching services 7 Contract.start) 100 9 unwatched_rock).0
    ≡ ok (some 1)
unfolding attach commit_racing p1_capture discover_new_graphs register_all register_graph walk visit
    require_storable is_buffered Dict.has queue_field_entities walk_value next_oid adopted Dict.put
    stamp pending_of drop_deleted capture_discovered encode_pending priors_of read_delta_priors
    read_priors read_tombstones prior_records Dict.update Dict.get Dict.remove validate_before_tid
    Gate.check_write_gate is_root gate_records settle_capture Storage.apply Storage.materialize
    Storage.put_records Storage.drop_all Storage.put_blobs Storage.load_many next_tid next_cid
    capture_all flip_captured set_state build_batch build_delta Contract.apply cid_for add_lineage
    add_row current_cid entity_payload attributes oid_for_encode deliver bar_deleted Gate.labels_of
    Gate.load_many Gate.gate_pending Gate.gate_deletes option_beq list_beq
joined = refl

commit-behind_example :
    ((commit_racing services (attaching services 7 Contract.start) 100 9 unwatched_rock).1.consumers
      ≡ (7, Contract.start) ∷ [])
    × ((commit_racing services
          (attaching services 7 Contract.start)
          100
          9
          unwatched_rock).1.last_tid
        ≡ 1)
commit-behind_example =
    commit-behind services 7 Contract.start 100 9 unwatched_rock 1 refl refl refl joined
