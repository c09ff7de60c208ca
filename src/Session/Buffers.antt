-- ===== src/Session/Buffers.antt =====
-- The buffers: what `_new` and `_dirty` hold is stamped with its key and in the state of its buffer.
use mathlib.Core.Path.{subst}
use datacrystal.Base.{
  ℕ, ◌+◌, ◌<◌, false, Option, none, some, eqb, ◌≡◌, refl, sym, ap, arith, ◌∙◌, All-map, Bool-cases,
  Option-cases, inl, inr, nat_eq, ==_iff, ==_refl,
}
use datacrystal.Base.Dict
use datacrystal.Base.Dict.{Dict, get-put, Every-put, Every-get}
use datacrystal.Entity.{EntityState, new, dirty}
use datacrystal.Ids.{IdAllocator, next_oid}
use datacrystal.Permissions.{Labels}
use datacrystal.Session.Live.{Heap, Live, write_at, stamp, TypeTable, Session}
use datacrystal.Session.Graph.{adopted, stamp_perm_labels}
use datacrystal.Session.Keys.{HasOneEach, put-HasOneEach}

-- An entry of a buffer: the entity has the key as its id, the buffer's state, and an id given out.
abbrev pub InBuffer : Heap → ℕ → EntityState → ℕ → ℕ → Type 0
InBuffer h bound st oid r = ((h r).oid ≡ some oid) × ((h r).state ≡ st) × (oid < bound)

pub record IsBuffered {I Γ : Type 0} (s : Session I Γ) : Type 0 where
  pub new_keys : HasOneEach s.buffered_new
  pub dirty_keys : HasOneEach s.buffered_dirty
  pub deleted_keys : HasOneEach s.buffered_deleted
  pub are_new : Dict.Every (InBuffer s.heap s.alloc.oid new) s.buffered_new
  pub are_dirty : Dict.Every (InBuffer s.heap s.alloc.oid dirty) s.buffered_dirty
  pub apart : Dict.Every (λ oid r. Dict.get s.buffered_dirty oid ≡ none) s.buffered_new
  pub loose : (r : ℕ) → (s.heap r).oid ≡ none → (s.heap r).state ≡ new

pub write_at-same : (h : Heap) (r : ℕ) (x : Live) → write_at h r x r ≡ x
unfolding write_at
write_at-same h r x = rw (==_refl r) refl

pub write_at-other : (h : Heap) (r q : ℕ) (x : Live) → eqb r q ≡ false → write_at h r x q ≡ h q
unfolding write_at
write_at-other h r q x n = rw n refl

-- A key under the bound is not the bound.
get-bound :
    (d : Dict ℕ ℕ) (h : Heap) (bound : ℕ) (st : EntityState)
    → Dict.Every (InBuffer h bound st) d
    → Dict.get d bound ≡ none
get-bound d h bound st all = elim (Option-cases (Dict.get d bound)) [
  | inl n ↦ n
  | inr (r, e) ↦
      let (_, _, less) = Every-get (InBuffer h bound st) d bound r e all in
      absurd (omega (arith, less))
]

-- A write to one entity that has no id yet leaves the entries of a buffer as they are.
InBuffer-stamp :
    (h : Heap) (r oid bound : ℕ) (x : Live) (st : EntityState) (d : Dict ℕ ℕ)
    → (h r).oid ≡ none
    → Dict.Every (InBuffer h bound st) d
    → Dict.Every (InBuffer (write_at h r x) (bound + 1) st) d
unfolding write_at
InBuffer-stamp h r oid bound x st d loose all =
    All-map d
      (λ e p. elim (Bool-cases (eqb r e.1)) [
        | inl y ↦ absurd (cc (loose, p.0, (==_iff r e.1).0 y))
        | inr n ↦ rw n (p.0, p.1, omega (arith, p.2))
      ])
      all

labels-InBuffer :
    (h : Heap) (r bound : ℕ) (l : Labels) (st : EntityState) (d : Dict ℕ ℕ)
    → Dict.Every (InBuffer h bound st) d
    → Dict.Every (InBuffer (write_at h r (record (h r) { labels = l })) bound st) d
unfolding write_at
labels-InBuffer h r bound l st d all =
    All-map d
      (λ e p. elim (Bool-cases (eqb r e.1)) [
        | inl y ↦ rw (y, (==_iff r e.1).0 y) p
        | inr n ↦ rw n p
      ])
      all

pub write_at-part :
    {A : Type 0} (f : Live → A) (h : Heap) (r q : ℕ) (x : Live)
    → f x ≡ f (h r)
    → f (write_at h r x q) ≡ f (h q)
unfolding write_at
write_at-part f h r q x e = elim (Bool-cases (eqb r q)) [
  | inl y ↦ rw y (e ∙ ap (λ q. f (h q)) ((==_iff r q).0 y))
  | inr n ↦ rw n refl
]

module _ {I Γ : Type 0} where
  adopted-IsBuffered :
      (r : ℕ) (s : Session I Γ) → (s.heap r).oid ≡ none → IsBuffered s → IsBuffered (adopted r s)
  unfolding adopted stamp next_oid write_at
  adopted-IsBuffered r s loose b = record {
    new_keys = put-HasOneEach s.buffered_new s.alloc.oid r b.new_keys;
    dirty_keys = b.dirty_keys;
    deleted_keys = b.deleted_keys;
    are_new =
        Every-put (InBuffer (stamp s.heap r s.alloc.oid (s.heap r).state) (s.alloc.oid + 1) new)
          s.buffered_new s.alloc.oid r
          (rw (write_at-same s.heap r (record (s.heap r) { oid = some s.alloc.oid }))
            (refl, b.loose r loose, omega arith))
          (InBuffer-stamp s.heap r s.alloc.oid s.alloc.oid _ new s.buffered_new loose b.are_new);
    are_dirty =
        InBuffer-stamp s.heap r s.alloc.oid s.alloc.oid _ dirty s.buffered_dirty loose b.are_dirty;
    apart =
        Every-put (λ oid r. Dict.get s.buffered_dirty oid ≡ none) s.buffered_new s.alloc.oid r
          (get-bound s.buffered_dirty s.heap s.alloc.oid dirty b.are_dirty) b.apart;
    loose = λ q h. elim (Bool-cases (eqb r q)) [
      | inl y ↦ absurd (cc (rw y at h))
      | inr n ↦ rw n (b.loose q (rw n at h))
    ];
  }

  labels-IsBuffered :
      (r oid : ℕ) (container : Option ℕ) (s : Session I Γ)
      → IsBuffered s
      → IsBuffered (stamp_perm_labels r oid container s)
  unfolding stamp_perm_labels write_at
  labels-IsBuffered r oid container s b = record {
    new_keys = b.new_keys;
    dirty_keys = b.dirty_keys;
    deleted_keys = b.deleted_keys;
    are_new = labels-InBuffer s.heap r s.alloc.oid _ new s.buffered_new b.are_new;
    are_dirty = labels-InBuffer s.heap r s.alloc.oid _ dirty s.buffered_dirty b.are_dirty;
    apart = b.apart;
    loose = λ q h. elim (Bool-cases (eqb r q)) [
      | inl y ↦ rw y (b.loose r (rw y at h))
      | inr n ↦ rw n (b.loose q (rw n at h))
    ];
  }

  -- What the entities and `_new` keep while P1 registers: states, fields, and what was buffered.
  pub record Grown (s t : Session I Γ) : Type 0 where
    pub states : (q : ℕ) → (t.heap q).state ≡ (s.heap q).state
    pub fields : (q : ℕ) → (t.heap q).fields ≡ (s.heap q).fields
    pub kept : (k r : ℕ) → Dict.get s.buffered_new k ≡ some r → Dict.get t.buffered_new k ≡ some r

  -- Well formed buffers stay so, and grow.
  abbrev pub Grows : Session I Γ → Session I Γ → Type 0
  Grows s t = IsBuffered s → IsBuffered t × Grown s t

  pub Grows-refl : (s : Session I Γ) → Grows s s
  Grows-refl s b = (b, record { states = λ q. refl; fields = λ q. refl; kept = λ k r h. h })

  pub Grows-trans : (a b c : Session I Γ) → Grows a b → Grows b c → Grows a c
  Grows-trans a b c p q x =
      let (y, g) = p x in
      let (z, g') = q y in
      (
        z,
        record {
          states = λ q. g'.states q ∙ g.states q;
          fields = λ q. g'.fields q ∙ g.fields q;
          kept = λ k r h. g'.kept k r (g.kept k r h);
        },
      )

  pub adopted-Grows : (r : ℕ) (s : Session I Γ) → (s.heap r).oid ≡ none → Grows s (adopted r s)
  unfolding adopted stamp next_oid
  adopted-Grows r s loose b =
      let x = record (s.heap r) { oid = some s.alloc.oid } in
      (
        adopted-IsBuffered r s loose b,
        record {
          states = λ q. write_at-part (λ x. x.state) s.heap r q x refl;
          fields = λ q. write_at-part (λ x. x.fields) s.heap r q x refl;
          kept = λ k q h. ground (
            arith,
            get-put s.buffered_new s.alloc.oid k r,
            h,
            get-bound s.buffered_new s.heap s.alloc.oid new b.are_new,
          );
        },
      )

  pub labels-Grows :
      (r oid : ℕ) (container : Option ℕ) (s : Session I Γ)
      → Grows s (stamp_perm_labels r oid container s)
  unfolding stamp_perm_labels
  labels-Grows r oid container s b = (
    labels-IsBuffered r oid container s b,
    record {
      states = λ q. write_at-part (λ x. x.state) s.heap r q (record (s.heap r) { labels = _ }) refl;
      fields =
          λ q. write_at-part (λ x. x.fields) s.heap r q (record (s.heap r) { labels = _ }) refl;
      kept = λ k q h. h;
    },
  )

  pub types-Grows :
      (s : Session I Γ) (types : TypeTable) (alloc : IdAllocator)
      → alloc.oid ≡ s.alloc.oid
      → Grows s (record s { types = types; alloc = alloc })
  types-Grows s types alloc e b = (
    record {
      new_keys = b.new_keys;
      dirty_keys = b.dirty_keys;
      deleted_keys = b.deleted_keys;
      are_new = subst (λ n. Dict.Every (InBuffer s.heap n new) s.buffered_new) (sym e) b.are_new;
      are_dirty =
          subst (λ n. Dict.Every (InBuffer s.heap n dirty) s.buffered_dirty) (sym e) b.are_dirty;
      apart = b.apart;
      loose = b.loose;
    },
    record { states = λ q. refl; fields = λ q. refl; kept = λ k r h. h },
  )
