-- ===== src/Session/Failure.antt =====
-- What a commit that raises leaves as it was.
use mathlib.Core.Path.{subst}
use datacrystal.Base.{
  ℕ, false, List, [], ◌∷◌, Option, none, some, contains, ◌≡◌, refl, sym, ap, ◌∙◌, All-map,
  Option-cases, inl, inr, nat_eq,
}
use datacrystal.Base.Dict
use datacrystal.Base.Dict.{Dict, Every-get, Every-remove, Every-update}
use datacrystal.Entity.{EntityState, new, dirty}
use datacrystal.Errors.{Error, Result, err}
use datacrystal.Ids.{next_tid}
use datacrystal.Storage.Apply.{or_else}
use datacrystal.Storage.Atomic.{IsAtomic}
use datacrystal.Session.Live.{TypeInfo, Live, Heap, Session}
use datacrystal.Session.Keys.{
  HasOneEach, update-HasOneEach, get-update, drop_deleted-HasOneEach, get-drop_deleted,
}
use datacrystal.Session.Buffers.{InBuffer, IsBuffered}
use datacrystal.Session.Pending.{
  Services, Capture, drop_deleted, flip_captured, pending_of, deleted_oids,
}
use datacrystal.Session.Capture.{capture_all}
use datacrystal.Session.Commit.{p2_rollback, run_p2, commit}
use datacrystal.Session.Encoding.{encode-heap}
use datacrystal.Session.Taken.{Taken, Taken-Same, Found-Same}
use datacrystal.Session.Outcome.{commit-cases}
use datacrystal.Session.Restore.{IsPending, restore-heap, restore-buffers, back_new, back_dirty}

-- The store after a commit that has raised, against the store before it. Nothing is said of the object and class
-- ids that it has handed out, of the labels that it has stamped, of `_birth_labels` and `_cancelled_new`, and of
-- `_new` and `_dirty` under an id whose deletion is buffered.
pub record Kept {I Γ : Type 0} (s t : Session I Γ) : Type 0 where
  pub backend : t.backend ≡ s.backend
  pub last_tid : t.last_tid ≡ s.last_tid
  pub next_tid : t.alloc.tid ≡ s.alloc.tid
  pub consumers : t.consumers ≡ s.consumers
  pub index : t.index ≡ s.index
  pub deletions : (k : ℕ) → Dict.get t.buffered_deleted k ≡ Dict.get s.buffered_deleted k
  pub edited :
      (k : ℕ)
      → contains (deleted_oids s) k ≡ false
      → Dict.get t.buffered_dirty k ≡ Dict.get s.buffered_dirty k
  pub inserted :
      (k r : ℕ)
      → contains (deleted_oids s) k ≡ false
      → Dict.get s.buffered_new k ≡ some r
      → Dict.get t.buffered_new k ≡ some r
  pub states : (q : ℕ) → (t.heap q).state ≡ (s.heap q).state
  pub fields : (q : ℕ) → (t.heap q).fields ≡ (s.heap q).fields
  pub labels : (q k : ℕ) → (s.heap q).oid ≡ some k → (t.heap q).labels ≡ (s.heap q).labels

Every-drop_deleted :
    (P : ℕ → ℕ → Type 0) (d : Dict ℕ ℕ) (oids : List ℕ)
    → Dict.Every P d
    → Dict.Every P (drop_deleted d oids)
unfolding drop_deleted
Every-drop_deleted P d [] all = all
Every-drop_deleted P d (oid ∷ oids) all =
    Every-drop_deleted P (Dict.remove d oid) oids (Every-remove P d oid all)

or_else-none {ℓ} : {A : Type ℓ} (o : Option A) → or_else o none ≡ o
or_else-none none = refl
or_else-none (some a) = refl

get-update_nil :
    {V : Type 0} (d : Dict ℕ V) (k : ℕ)
    → HasOneEach d
    → Dict.get (Dict.update [] d) k ≡ Dict.get d k
get-update_nil d k one = get-update [] d k one ∙ unfold Dict.get in or_else-none (Dict.get d k)

back_dirty-dirty :
    (h : Heap) (r : ℕ) (old : Option ℕ) → (h r).state ≡ dirty → back_dirty h (some r) old ≡ some r
back_dirty-dirty h r old e = ap (λ (st : EntityState). elim st [ new ↦ none | _ ↦ some r ]) e

back_dirty-new :
    (h : Heap) (r : ℕ) (old : Option ℕ) → (h r).state ≡ new → back_dirty h (some r) old ≡ none
back_dirty-new h r old e = ap (λ (st : EntityState). elim st [ new ↦ none | _ ↦ some r ]) e

back_new-new :
    (h : Heap) (r : ℕ) (old : Option ℕ) → (h r).state ≡ new → back_new h (some r) old ≡ some r
back_new-new h r old e = ap (λ (st : EntityState). elim st [ new ↦ some r | _ ↦ old ]) e

module _ {I Γ : Type 0} where
  pending_of-IsPending :
      (s : Session I Γ) → IsBuffered s → Dict.Every (IsPending s.heap) (pending_of s)
  unfolding pending_of
  pending_of-IsPending s b =
      Every-drop_deleted (IsPending s.heap) (Dict.update s.buffered_new s.buffered_dirty)
        (deleted_oids s)
        (Every-update (IsPending s.heap) s.buffered_new s.buffered_dirty
          (All-map s.buffered_dirty (λ e p. (p.0, inr p.1)) b.are_dirty)
          (All-map s.buffered_new (λ e p. (p.0, inl p.1)) b.are_new))

  pending-HasOneEach : (s : Session I Γ) → IsBuffered s → HasOneEach (pending_of s)
  unfolding pending_of
  pending-HasOneEach s b =
      drop_deleted-HasOneEach (Dict.update s.buffered_new s.buffered_dirty) (deleted_oids s)
        (update-HasOneEach s.buffered_new s.buffered_dirty b.new_keys)

  get-pending :
      (s : Session I Γ) (k : ℕ)
      → IsBuffered s
      → contains (deleted_oids s) k ≡ false
      → Dict.get (pending_of s) k
        ≡ or_else (Dict.get s.buffered_dirty k) (Dict.get s.buffered_new k)
  unfolding pending_of
  get-pending s k b n =
      get-drop_deleted (Dict.update s.buffered_new s.buffered_dirty) (deleted_oids s) k
      ∙ rw n (get-update s.buffered_new s.buffered_dirty k b.dirty_keys)

  -- What was in a buffer goes back to it.
  back-edited :
      (s : Session I Γ) (k : ℕ)
      → IsBuffered s
      → contains (deleted_oids s) k ≡ false
      → back_dirty s.heap (Dict.get (pending_of s) k) none ≡ Dict.get s.buffered_dirty k
  back-edited s k b n = elim (Option-cases (Dict.get s.buffered_dirty k)) [
    | inr (r, e) ↦
        let (_, state, _) =
          Every-get (InBuffer s.heap s.alloc.oid dirty) s.buffered_dirty k r e b.are_dirty in
        let p : Dict.get (pending_of s) k ≡ some r = get-pending s k b n ∙ rw e refl in
        ap (λ o. back_dirty s.heap o none) p ∙ back_dirty-dirty s.heap r none state ∙ sym e
    | inl e ↦ elim (Option-cases (Dict.get s.buffered_new k)) [
      | inl f ↦
          let p : Dict.get (pending_of s) k ≡ none = get-pending s k b n ∙ rw (e, f) refl in
          ap (λ o. back_dirty s.heap o none) p ∙ sym e
      | inr (r, f) ↦
          let (_, state, _) =
            Every-get (InBuffer s.heap s.alloc.oid new) s.buffered_new k r f b.are_new in
          let p : Dict.get (pending_of s) k ≡ some r = get-pending s k b n ∙ rw (e, f) refl in
          ap (λ o. back_dirty s.heap o none) p ∙ back_dirty-new s.heap r none state ∙ sym e
    ]
  ]

  back-inserted :
      (s : Session I Γ) (k r : ℕ)
      → IsBuffered s
      → contains (deleted_oids s) k ≡ false
      → Dict.get s.buffered_new k ≡ some r
      → back_new s.heap (Dict.get (pending_of s) k) none ≡ some r
  back-inserted s k r b n h =
      let (_, state, _) =
        Every-get (InBuffer s.heap s.alloc.oid new) s.buffered_new k r h b.are_new in
      let free =
        Every-get (λ oid r. Dict.get s.buffered_dirty oid ≡ none) s.buffered_new k r h b.apart in
      let p : Dict.get (pending_of s) k ≡ some r = get-pending s k b n ∙ rw (free, h) refl in
      ap (λ o. back_new s.heap o none) p ∙ back_new-new s.heap r none state

module _ {I Γ : Type 0} (sv : Services I Γ) (atomic : IsAtomic sv.persist) (at fuel : ℕ)
    (s : Session I Γ) (well : IsBuffered s) where
  abbrev Undone : Capture × Session I Γ → Type 0
  Undone (c, t) =
      (sv.persist c.batch t.backend).1 ≡ t.backend → Kept s (p2_rollback c (run_p2 sv c.batch t).1)

  module _ (c : Capture) (t : Session I Γ) (k : Taken sv at fuel s c t) where
    captured-Kept : Undone (capture_all sv at (pending_of k.found) k.encoded k.read k.coded)
    unfolding capture_all p2_rollback run_p2 next_tid Dict.get
    captured-Kept kept =
        let same = Taken-Same sv at fuel s c t k in
        let found = Found-Same sv at fuel s c t k in
        let (b, grown) = found.buffers well in
        let heap =
          encode-heap sv.encode (pending_of k.found) [] k.found k.encoded k.coded k.encoding in
        let one = pending-HasOneEach k.found b in
        let all =
          subst (λ h. Dict.Every (IsPending h) (pending_of k.found)) (sym heap)
            (pending_of-IsPending k.found b) in
        let h' = (flip_captured (pending_of k.found) k.coded.heap k.coded.registry).1 in
        let back = λ (oid : ℕ).
          restore-buffers (pending_of k.found) k.coded.heap k.coded.registry (h', [], []) oid one
            all in
        let alive = λ (oid : ℕ) (n : contains (deleted_oids s) oid ≡ false).
          ap (λ (d : Dict ℕ (TypeInfo × Option ℕ)). contains (Dict.keys d) oid) found.deleted ∙ n in
        let undone = λ (q : ℕ).
          restore-heap (pending_of k.found) k.coded.heap k.coded.registry h' [] [] q one all refl
          ∙ ap (λ (h : Heap). h q) heap in
        record {
          backend = kept ∙ same.backend;
          last_tid = same.last_tid;
          next_tid = same.tid;
          consumers = same.consumers;
          index = same.index;
          deletions = λ oid.
              get-update_nil k.coded.buffered_deleted oid (
                subst (λ (d : Dict ℕ (TypeInfo × Option ℕ)). HasOneEach d) (sym same.deleted)
                  well.deleted_keys)
              ∙ ap (λ (d : Dict ℕ (TypeInfo × Option ℕ)). Dict.get d oid) same.deleted;
          edited = λ oid n.
              (back oid).1
              ∙ ap (λ (h : Heap). back_dirty h (Dict.get (pending_of k.found) oid) none) heap
              ∙ back-edited k.found oid b (alive oid n)
              ∙ ap (λ (d : Dict ℕ ℕ). Dict.get d oid) found.dirty;
          inserted = λ oid r n h.
              (back oid).0
              ∙ ap (λ (h : Heap). back_new h (Dict.get (pending_of k.found) oid) none) heap
              ∙ back-inserted k.found oid r b (alive oid n) (grown.kept oid r h);
          states = λ q. ap (λ (x : Live). x.state) (undone q) ∙ grown.states q;
          fields = λ q. ap (λ (x : Live). x.fields) (undone q) ∙ grown.fields q;
          labels = λ q k h. ap (λ (x : Live). x.labels) (undone q) ∙ (found.labels q k h).1;
        }

  -- Where the buffers are well formed and the backend changes nothing when it raises, a commit that raises, in P1
  -- or in P2, leaves the backend, the last and the next commit id, the consumers and the indexes as they were. It
  -- leaves the buffered deletions; under every id without one, the entity in `_dirty` if there was one, and in
  -- `_new` each entity that was there; the state of every entity and the values of its fields; and the labels of
  -- every entity that had an object id.
  pub commit-Kept : (e : Error) → (commit sv at fuel s).0 ≡ err e → Kept s (commit sv at fuel s).1
  unfolding commit
  commit-Kept e h = elim (commit-cases sv (λ s. s) at fuel s) [
    | inl k ↦
        let (b, grown) = k.same.buffers well in
        record {
          backend = k.same.backend;
          last_tid = k.same.last_tid;
          next_tid = k.same.tid;
          consumers = k.same.consumers;
          index = k.same.index;
          deletions =
              λ oid. ap (λ (d : Dict ℕ (TypeInfo × Option ℕ)). Dict.get d oid) k.same.deleted;
          edited = λ oid n. ap (λ (d : Dict ℕ ℕ). Dict.get d oid) k.same.dirty;
          inserted = λ oid r n h. grown.kept oid r h;
          states = grown.states;
          fields = grown.fields;
          labels = λ q oid h. (k.same.labels q oid h).1;
        }
    | inr (inl k) ↦ rw k.result (
        subst Undone (sym k.taken.result) (captured-Kept k.capture k.begun k.taken)
          (atomic.raised k.capture.batch k.begun.backend k.error k.raised))
    | inr (inr k) ↦
        absurd (cc (sym (ap (λ (p : Result (Option ℕ) × Session I Γ). p.0) k.result) ∙ h))
  ]
