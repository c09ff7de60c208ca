-- ===== src/Session/Effect.antt =====
-- What a durable commit has written.
use mathlib.Core.Path.{subst, subst₂}
use datacrystal.Base.{
  ℕ, List, [], Option, none, some, contains, ◌≡◌, sym, ap, ◌∙◌, inl, inr, nat_eq, if◌then◌else◌,
}
use datacrystal.Base.Dict
use datacrystal.Base.Dict.{Dict}
use datacrystal.Contract.{Bytes}
use datacrystal.Errors.{Result, ok}
use datacrystal.Ids.{next_tid, next_oid}
use datacrystal.Storage.{StoredRecord, Memory, put_records, drop_all}
use datacrystal.Storage.Apply.{written, or_else, get-put_records, get-drop_all}
use datacrystal.Storage.Atomic.{IsAtomic}
use datacrystal.Session.Live.{Value, TypeInfo, Session}
use datacrystal.Session.Reach.{Entry}
use datacrystal.Session.Graph.{adopted, stamp_perm_labels, discover_new_graphs}
use datacrystal.Session.Walk.{discover-Keeps}
use datacrystal.Session.Keys.{
  HasOneEach, put-HasOneEach, update-HasOneEach, get-update, drop_deleted-HasOneEach,
  get-drop_deleted,
}
use datacrystal.Session.Pending.{
  Services, Capture, records_of, pending_of, deleted_oids, build_batch,
}
use datacrystal.Session.Capture.{capture_all}
use datacrystal.Session.Commit.{p3_finalize, run_p2, commit_racing}
use datacrystal.Session.Taken.{Taken, Taken-Same, Found-Same}
use datacrystal.Session.Outcome.{commit-cases}
use datacrystal.Session.Written.{WrittenAs, StoredAs, StoredAs-of-WrittenAs, encode-written}

module _ {I Γ : Type 0} where
  pub discover-HasOneEach :
      (fuel : ℕ) (s : Session I Γ)
      → HasOneEach s.buffered_new
      → HasOneEach (discover_new_graphs fuel s).1.buffered_new
  unfolding adopted stamp_perm_labels
  discover-HasOneEach =
      discover-Keeps (λ s t. HasOneEach s.buffered_new → HasOneEach t.buffered_new) (λ s h. h)
        (λ a b c p q h. q (p h))
        (λ r s h k one. put-HasOneEach s.buffered_new (next_oid s.alloc).0 r one)
        (λ r oid container s one. one)

-- The backend after a commit under the id `tid`, against the store `found` that discovery has left: under each id
-- what `StoredAs` says of its buffers.
pub record Stores {I Γ : Type 0} (encode : (ℕ → Result ℕ) → List Value → Result Bytes) (fuel : ℕ)
    (s : Session I Γ) (tid : ℕ) (after : Session I Γ) : Type 0 where
  pub left : List Entry
  pub found : Session I Γ
  pub discovered : discover_new_graphs fuel s ≡ (ok left, found)
  pub stored :
      (oid : ℕ)
      → StoredAs encode found.heap tid oid
          (Dict.get s.backend.objects oid)
          (contains (deleted_oids s) oid)
          (or_else (Dict.get s.buffered_dirty oid) (Dict.get found.buffered_new oid))
          (Dict.get after.backend.objects oid)

module _ {I Γ : Type 0} (sv : Services I Γ) (atomic : IsAtomic sv.persist)
    (race : Session I Γ → Session I Γ) (calm : (t : Session I Γ) → (race t).backend ≡ t.backend)
    (at fuel : ℕ) (s : Session I Γ) (new_keys : HasOneEach s.buffered_new)
    (dirty_keys : HasOneEach s.buffered_dirty) where
  module _ (c : Capture) (t : Session I Γ) (k : Taken sv at fuel s c t) where
    pending-lem :
        (oid : ℕ)
        → Dict.get (pending_of k.found) oid ≡ (
            if contains (deleted_oids s) oid
            then none
            else or_else (Dict.get s.buffered_dirty oid) (Dict.get k.found.buffered_new oid))
    unfolding pending_of
    pending-lem oid =
        let same = Found-Same sv at fuel s c t k in
        get-drop_deleted (Dict.update k.found.buffered_new k.found.buffered_dirty)
          (deleted_oids k.found) oid
        ∙ rw (same.deleted, same.dirty)
            (ap (λ o. if contains (deleted_oids s) oid then none else o)
              (get-update k.found.buffered_new s.buffered_dirty oid dirty_keys))

    begun-backend : (race t).backend ≡ s.backend
    unfolding capture_all
    begun-backend =
        calm t
        ∙ ap (λ (p : Capture × Session I Γ). p.1.backend) k.result
        ∙ (Taken-Same sv at fuel s c t k).backend

    batch-lem :
        (c.batch.records ≡ records_of c.tid k.encoded.0) × (c.batch.deletes ≡ deleted_oids s)
    unfolding capture_all build_batch next_tid
    batch-lem =
        let same = Taken-Same sv at fuel s c t k in
        let e = ap (λ (p : Capture × Session I Γ). p.0) k.result in
        (
          ap (λ c. c.batch.records) e
              ∙ ap (λ n. records_of n k.encoded.0) (sym (ap (λ c. c.tid) e)),
          ap (λ c. c.batch.deletes) e
              ∙ ap (λ (d : Dict ℕ (TypeInfo × Option ℕ)). Dict.keys d) same.deleted,
        )

    pending-HasOneEach : HasOneEach (pending_of k.found)
    unfolding pending_of
    pending-HasOneEach =
        drop_deleted-HasOneEach (Dict.update k.found.buffered_new k.found.buffered_dirty)
          (deleted_oids k.found)
          (update-HasOneEach k.found.buffered_new k.found.buffered_dirty (
            subst (λ (p : Result (List Entry) × Session I Γ). HasOneEach p.1.buffered_new)
              k.discovered (discover-HasOneEach fuel s new_keys)))

    objects-lem :
        (oid : ℕ)
        → StoredAs sv.encode k.found.heap c.tid oid
            (Dict.get s.backend.objects oid)
            (contains (deleted_oids s) oid)
            (or_else (Dict.get s.buffered_dirty oid) (Dict.get k.found.buffered_new oid))
            (Dict.get
              (drop_all (put_records s.backend.objects c.batch.records) c.batch.deletes)
              oid)
    objects-lem oid =
        let (records, deletes) = batch-lem in
        let old = Dict.get s.backend.objects oid in
        let p = or_else (Dict.get s.buffered_dirty oid) (Dict.get k.found.buffered_new oid) in
        let gone = contains (deleted_oids s) oid in
        let w = written (records_of c.tid k.encoded.0) oid in
        subst (StoredAs sv.encode k.found.heap c.tid oid old gone p)
          (sym (
            get-drop_all (put_records s.backend.objects c.batch.records) c.batch.deletes oid
            ∙ rw (records, deletes)
                (ap (λ o. if gone then none else o)
                  (get-put_records s.backend.objects (records_of c.tid k.encoded.0) oid))))
          (StoredAs-of-WrittenAs sv.encode k.found.heap c.tid oid old gone p w (
            subst (λ o. WrittenAs sv.encode k.found.heap c.tid oid o w) (pending-lem oid)
              (encode-written sv.encode c.tid (pending_of k.found) [] k.found k.encoded k.coded oid
                pending-HasOneEach k.encoding)))

  -- Where the buffers have each key once, the backend is atomic, and writes that come while P2 runs leave the
  -- backend alone, a commit that returns an id is durable: with the store as discovery has left it, each object
  -- id has nothing if its deletion was buffered, else the record of the entity in `_dirty` or `_new`, with the
  -- new id and the coding of all columns of its class, those of its labels as stamped included, else what it
  -- had before.
  pub commit-StoredAs :
      (tid : ℕ)
      → (commit_racing sv race at fuel s).0 ≡ ok (some tid)
      → Stores sv.encode fuel s tid (commit_racing sv race at fuel s).1
  unfolding p3_finalize run_p2
  commit-StoredAs tid h = elim (commit-cases sv race at fuel s) [
    | inl k ↦ elim k.nothing [
      | inl q ↦ absurd (cc (sym q ∙ h))
      | inr (e, q) ↦ absurd (cc (sym q ∙ h))
    ]
    | inr (inl k) ↦
        absurd (cc (sym (ap (λ (p : Result (Option ℕ) × Session I Γ). p.0) k.result) ∙ h))
    | inr (inr k) ↦
        let same : k.capture.tid ≡ tid =
          cc (sym (ap (λ (p : Result (Option ℕ) × Session I Γ). p.0) k.result) ∙ h) in
        record {
          left = k.taken.left;
          found = k.taken.found;
          discovered = k.taken.discovered;
          stored = λ oid.
              subst₂
                (λ n (d : Dict ℕ StoredRecord).
                  StoredAs sv.encode k.taken.found.heap n oid (Dict.get s.backend.objects oid)
                    (contains (deleted_oids s) oid)
                    (or_else (Dict.get s.buffered_dirty oid)
                      (Dict.get k.taken.found.buffered_new oid))
                    (Dict.get d oid))
                same
                (sym (
                  ap (λ (p : Result (Option ℕ) × Session I Γ). p.1.backend.objects) k.result
                  ∙ atomic.objects k.capture.batch (race k.begun).backend k.wrote
                  ∙ ap
                      (λ (m : Memory).
                        drop_all (put_records m.objects k.capture.batch.records)
                          k.capture.batch.deletes)
                      (begun-backend k.capture k.begun k.taken)))
                (objects-lem k.capture k.begun k.taken oid);
        }
  ]
