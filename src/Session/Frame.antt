-- ===== src/Session/Frame.antt =====
-- What P1 leaves alone before it captures: registration and encoding change the heap, `_new`, the
-- labels at birth, the type lineage and the ids of objects and types.
use datacrystal.Base.{ℕ, List, [], ◌∷◌, Option, ◌≡◌, refl, ◌∙◌, Option-cases, inl, inr, nat_eq}
use datacrystal.Base.Dict.{Dict}
use datacrystal.Base.Int.{int_eq}
use datacrystal.Contract.{Bytes, TypeRow}
use datacrystal.Errors.{Result}
use datacrystal.Exec
use datacrystal.Exec.{Exec, ◌>>=◌, continue}
use datacrystal.Ids.{IdAllocator, next_oid, next_cid}
use datacrystal.Storage.{Memory}
use datacrystal.Session.Live.{Value, TypeInfo, TypeTable, Session}
use datacrystal.Session.Graph.{stamp_perm_labels, adopted, discover_new_graphs}
use datacrystal.Session.Buffers.{
  Grows, Grows-refl, Grows-trans, adopted-Grows, labels-Grows, types-Grows,
}
use datacrystal.Session.Labelled.{Labelled, Labelled-refl, Labelled-trans, discover-Labelled}
use datacrystal.Session.Walk.{Keeps, keeps_at, discover-Keeps}
use datacrystal.Session.Encode.{current_cid, add_lineage, cid_for, entity_payload, encode_pending}

pub cid_for-Same :
    (ti : TypeInfo) (t : TypeTable) (alloc : IdAllocator) (rows : List TypeRow)
    → ((cid_for ti t alloc rows).2.tid ≡ alloc.tid)
      × ((cid_for ti t alloc rows).2.oid ≡ alloc.oid)
      × ((cid_for ti t alloc rows).1.durable_cids ≡ t.durable_cids)
unfolding cid_for add_lineage next_cid
cid_for-Same ti t alloc rows = elim (Option-cases (current_cid t ti)) [
  | inl n ↦ rw (n, cid_for) (refl, refl, refl)
  | inr (cid, y) ↦ rw (y, cid_for) (refl, refl, refl)
]

module _ {I Γ : Type 0} where
  pub record Same (s t : Session I Γ) : Type 0 where
    pub backend : t.backend ≡ s.backend
    pub last_tid : t.last_tid ≡ s.last_tid
    pub consumers : t.consumers ≡ s.consumers
    pub deleted : t.buffered_deleted ≡ s.buffered_deleted
    pub dirty : t.buffered_dirty ≡ s.buffered_dirty
    pub tid : t.alloc.tid ≡ s.alloc.tid
    pub index : t.index ≡ s.index
    pub durable : t.types.durable_cids ≡ s.types.durable_cids
    pub root : t.root_oid ≡ s.root_oid
    pub buffers : Grows s t
    pub labels : Labelled s t

  pub Same-refl : (s : Session I Γ) → Same s s
  Same-refl s = record {
    backend = refl;
    last_tid = refl;
    consumers = refl;
    deleted = refl;
    dirty = refl;
    tid = refl;
    index = refl;
    durable = refl;
    root = refl;
    buffers = Grows-refl s;
    labels = Labelled-refl s;
  }

  -- The components that a step has to leave alone, as one tuple.
  abbrev kept_parts :
      Session I Γ
      → Memory × ℕ × Dict ℕ Γ × Dict ℕ (TypeInfo × Option ℕ) × Dict ℕ ℕ × ℕ × I × List ℕ × Option ℕ
  kept_parts s = (
    s.backend, s.last_tid, s.consumers, s.buffered_deleted, s.buffered_dirty, s.alloc.tid, s.index,
    s.types.durable_cids, s.root_oid,
  )

  Same-parts :
      (s t : Session I Γ) → kept_parts t ≡ kept_parts s → Grows s t → Labelled s t → Same s t
  Same-parts s t h g l = record {
    backend = cc;
    last_tid = cc;
    consumers = cc;
    deleted = cc;
    dirty = cc;
    tid = cc;
    index = cc;
    durable = cc;
    root = cc;
    buffers = g;
    labels = l;
  }

  pub Same-trans : (a b c : Session I Γ) → Same a b → Same b c → Same a c
  Same-trans a b c p q = record {
    backend = q.backend ∙ p.backend;
    last_tid = q.last_tid ∙ p.last_tid;
    consumers = q.consumers ∙ p.consumers;
    deleted = q.deleted ∙ p.deleted;
    dirty = q.dirty ∙ p.dirty;
    tid = q.tid ∙ p.tid;
    index = q.index ∙ p.index;
    durable = q.durable ∙ p.durable;
    root = q.root ∙ p.root;
    buffers = Grows-trans a b c p.buffers q.buffers;
    labels = Labelled-trans a b c p.labels q.labels;
  }

  Same-bind :
      {X Y : Type 0} (call : Exec (Session I Γ) X) (rest : X → Exec (Session I Γ) Y)
      → Keeps Same call
      → ((x : X) → Keeps Same (rest x))
      → Keeps Same (call >>= rest)
  Same-bind call rest first then s = keeps_at Same call rest Same-trans then s (first s)

  -- The parts and the buffers; the labels apart, which no single write keeps.
  abbrev Core : Session I Γ → Session I Γ → Type 0
  Core s t = (kept_parts t ≡ kept_parts s) × Grows s t

  discover-Core : (fuel : ℕ) → Keeps {S = Session I Γ} Core (discover_new_graphs fuel)
  unfolding adopted stamp_perm_labels next_oid
  discover-Core =
      discover-Keeps Core (λ s. (refl, Grows-refl s))
        (λ a b c p q. (q.0 ∙ p.0, Grows-trans a b c p.1 q.1))
        (λ r s h k. (refl, adopted-Grows r s h))
        (λ r oid container s. (refl, labels-Grows r oid container s))

  pub discover-Same : (fuel : ℕ) → Keeps {S = Session I Γ} Same (discover_new_graphs fuel)
  discover-Same fuel s =
      let (parts, grows) = discover-Core fuel s in
      Same-parts s (discover_new_graphs fuel s).1 parts grows (discover-Labelled fuel s)

  pub encode-Same :
      (encode : (ℕ → Result ℕ) → List Value → Result Bytes) (pending : List (ℕ × ℕ))
      (rows : List TypeRow)
      → Keeps {S = Session I Γ} Same (encode_pending encode pending rows)
  unfolding encode_pending
  encode-Same encode [] rows s = Same-refl s
  encode-Same encode ((oid, r) ∷ pending) rows s =
      let c = cid_for (s.heap r).type s.types s.alloc rows in
      let (tid, oids, durable) = cid_for-Same (s.heap r).type s.types s.alloc rows in
      Same-trans s (record s { types = c.1; alloc = c.2 }) _
        (record {
          backend = refl;
          last_tid = refl;
          consumers = refl;
          deleted = refl;
          dirty = refl;
          tid = tid;
          index = refl;
          durable = durable;
          root = refl;
          buffers = types-Grows s c.1 c.2 oids;
          labels = Labelled-refl s;
        })
        (Same-bind (Exec.lift (entity_payload encode s.heap r)) _ (λ t. Same-refl t)
          (λ payload.
            Same-bind (encode_pending encode pending c.3) _ (encode-Same encode pending c.3)
              (λ e t. Same-refl t))
          (record s { types = c.1; alloc = c.2 }))
