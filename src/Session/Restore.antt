-- ===== src/Session/Restore.antt =====
-- The flip of P1 and the compensation of a failed P2 undo each other.
use mathlib.Core.Path.{subst}
use datacrystal.Base.{
  ℕ, false, [], ◌∷◌, Option, none, some, eqb, ◌≡◌, refl, sym, ap, arith, ◌∙◌, ◌⊎◌, All, All-map2,
  Bool-cases, inl, inr, nat_eq, if◌then◌else◌, ==_iff, ==_refl,
}
use datacrystal.Base.Dict
use datacrystal.Base.Dict.{Dict, get-put, get-remove, Every-get}
use datacrystal.Entity.{EntityState, new, clean, dirty, deleted}
use datacrystal.Session.Live.{Heap, Live, write_at, set_state}
use datacrystal.Session.Keys.{Lacks, HasOneEach, get-Lacks}
use datacrystal.Session.Buffers.{write_at-same, write_at-other}
use datacrystal.Session.Pending.{flip_captured}
use datacrystal.Session.Commit.{unflip, unflip_all}

-- A buffered entity: it has its key as id, and is NEW or DIRTY.
abbrev pub IsPending : Heap → ℕ → ℕ → Type 0
IsPending h oid r = ((h r).oid ≡ some oid) × (((h r).state ≡ new) ⊎ ((h r).state ≡ dirty))

-- No entity of the dictionary is `q`.
abbrev Avoids : ℕ → Dict ℕ ℕ → Type 0
Avoids q = All (λ e. eqb e.1 q ≡ false)

-- Entities of other keys are other entities.
Avoids-of-Lacks :
    (h : Heap) (k r : ℕ) (d : Dict ℕ ℕ)
    → (h r).oid ≡ some k
    → Lacks k d
    → Dict.Every (IsPending h) d
    → Avoids r d
Avoids-of-Lacks h k r d own lacks all =
    All-map2 d
      (λ e n p. elim (Bool-cases (eqb e.1 r)) [
        | inr f ↦ f
        | inl y ↦ absurd (ground (arith, own, n, p.0, y))
      ])
      lacks all

flip_other :
    (pending : Dict ℕ ℕ) (h : Heap) (reg : Dict ℕ ℕ) (q : ℕ)
    → Avoids q pending
    → (flip_captured pending h reg).1 q ≡ h q
unfolding flip_captured set_state
flip_other [] h reg q a = refl
flip_other ((oid, r) ∷ pending) h reg q a =
    flip_other pending (set_state h r clean) (Dict.put reg oid r) q a.1
    ∙ write_at-other h r q (record (h r) { state = clean }) a.0

unflip_other_one :
    (oid r : ℕ) (st : EntityState) (b : Heap × Dict ℕ ℕ × Dict ℕ ℕ) (q : ℕ)
    → eqb r q ≡ false
    → (unflip oid r st b).0 q ≡ b.0 q
unfolding unflip set_state write_at
unflip_other_one oid r new b q n = rw n refl
unflip_other_one oid r clean b q n = rw n refl
unflip_other_one oid r dirty b q n = rw n refl
unflip_other_one oid r deleted b q n = rw n refl

unflip_other :
    (pending : Dict ℕ ℕ) (h : Heap) (reg : Dict ℕ ℕ) (b : Heap × Dict ℕ ℕ × Dict ℕ ℕ) (q : ℕ)
    → Avoids q pending
    → (unflip_all (flip_captured pending h reg).0 b).0 q ≡ b.0 q
unfolding flip_captured unflip_all
unflip_other [] h reg b q a = refl
unflip_other ((oid, r) ∷ pending) h reg b q a =
    unflip_other pending (set_state h r clean) (Dict.put reg oid r) (unflip oid r (h r).state b) q
      a.1
    ∙ unflip_other_one oid r (h r).state b q a.0

-- The flip of one entity keeps the others pending.
still-IsPending :
    (h : Heap) (r : ℕ) (d : Dict ℕ ℕ)
    → Avoids r d
    → Dict.Every (IsPending h) d
    → Dict.Every (IsPending (set_state h r clean)) d
unfolding set_state write_at
still-IsPending h r d away all =
    All-map2 d (λ e n p. let f : eqb r e.1 ≡ false = ground (arith, n) in rw f p) away all

-- The state that a flip has noted gives back the entity.
unflip-own :
    (oid r : ℕ) (st : EntityState) (b : Heap × Dict ℕ ℕ × Dict ℕ ℕ) (x : Live)
    → x.state ≡ st
    → (st ≡ new) ⊎ (st ≡ dirty)
    → b.0 r ≡ record x { state = clean }
    → (unflip oid r st b).0 r ≡ x
unfolding unflip set_state write_at
unflip-own oid r new b x e k h =
    rw (==_refl r)
      (ap (λ (z : Live). record z { state = new }) h ∙ ap (λ st. record x { state = st }) (sym e))
unflip-own oid r dirty b x e k h =
    rw (==_refl r)
      (ap (λ (z : Live). record z { state = dirty }) h ∙ ap (λ st. record x { state = st }) (sym e))
unflip-own oid r clean b x e k h = elim k [ inl q ↦ cc | inr q ↦ cc ]
unflip-own oid r deleted b x e k h = elim k [ inl q ↦ cc | inr q ↦ cc ]

-- A flip that is undone leaves every entity as it was.
pub restore-heap :
    (pending : Dict ℕ ℕ) (h : Heap) (reg : Dict ℕ ℕ) (g : Heap) (n d : Dict ℕ ℕ) (q : ℕ)
    → HasOneEach pending
    → Dict.Every (IsPending h) pending
    → g q ≡ (flip_captured pending h reg).1 q
    → (unflip_all (flip_captured pending h reg).0 (g, n, d)).0 q ≡ h q
unfolding flip_captured unflip_all set_state Dict.get
restore-heap [] h reg g n d q one all same = same
restore-heap ((oid, r) ∷ pending) h reg g n d q one all same =
    let away = Avoids-of-Lacks h oid r pending all.0.0 one.0 all.1 in
    let h' = set_state h r clean in
    let b = unflip oid r (h r).state (g, n, d) in
    elim (Bool-cases (eqb r q)) [
      | inl y ↦
          subst
            (λ q.
              g q ≡ (flip_captured pending h' (Dict.put reg oid r)).1 q
              → (unflip_all (flip_captured pending h' (Dict.put reg oid r)).0 b).0 q ≡ h q)
            ((==_iff r q).0 y)
            (λ same_r.
              unflip_other pending h' (Dict.put reg oid r) b r away
              ∙ unflip-own oid r (h r).state (g, n, d) (h r) refl all.0.1
                  (same_r
                    ∙ flip_other pending h' (Dict.put reg oid r) r away
                    ∙ write_at-same h r (record (h r) { state = clean })))
            same
      | inr f ↦
          restore-heap pending h' (Dict.put reg oid r) b.0 b.1 b.2 q one.1
            (still-IsPending h r pending away all.1)
            (unflip_other_one oid r (h r).state (g, n, d) q f ∙ same)
          ∙ write_at-other h r q (record (h r) { state = clean }) f
    ]

-- What `_new` and `_dirty` hold under a key after the compensation, given what was pending under it.
abbrev pub back_new : Heap → Option ℕ → Option ℕ → Option ℕ
back_new h none old = old
back_new h (some r) old = elim (h r).state [ new ↦ some r | _ ↦ old ]

abbrev pub back_dirty : Heap → Option ℕ → Option ℕ → Option ℕ
back_dirty h none old = old
back_dirty h (some r) old = elim (h r).state [ new ↦ none | _ ↦ some r ]

unflip-get :
    (oid r : ℕ) (st : EntityState) (b : Heap × Dict ℕ ℕ × Dict ℕ ℕ) (k : ℕ)
    → (Dict.get (unflip oid r st b).1 k
        ≡ (if eqb oid k then elim st [ new ↦ some r | _ ↦ Dict.get b.1 k ] else Dict.get b.1 k))
      × (Dict.get (unflip oid r st b).2 k
          ≡ (if eqb oid k then elim st [ new ↦ none | _ ↦ some r ] else Dict.get b.2 k))
unfolding unflip
unflip-get oid r new b k = (get-put b.1 oid k r, get-remove b.2 oid k)
unflip-get oid r clean b k = (ground arith, get-put b.2 oid k r)
unflip-get oid r dirty b k = (ground arith, get-put b.2 oid k r)
unflip-get oid r deleted b k = (ground arith, get-put b.2 oid k r)

back_new-same :
    (h' h : Heap) (o old : Option ℕ)
    → ((r : ℕ) → o ≡ some r → h' r ≡ h r)
    → back_new h' o old ≡ back_new h o old
back_new-same h' h none old f = refl
back_new-same h' h (some r) old f =
    ap (λ (x : Live). elim x.state [ new ↦ some r | _ ↦ old ]) (f r refl)

back_dirty-same :
    (h' h : Heap) (o old : Option ℕ)
    → ((r : ℕ) → o ≡ some r → h' r ≡ h r)
    → back_dirty h' o old ≡ back_dirty h o old
back_dirty-same h' h none old f = refl
back_dirty-same h' h (some r) old f =
    ap (λ (x : Live). elim x.state [ new ↦ none | _ ↦ some r ]) (f r refl)

others_same :
    (h : Heap) (r : ℕ) (pending : Dict ℕ ℕ) (k : ℕ)
    → Avoids r pending
    → (q : ℕ) → Dict.get pending k ≡ some q
    → set_state h r clean q ≡ h q
unfolding set_state
others_same h r pending k away q e =
    let f = Every-get (λ j v. eqb v r ≡ false) pending k q e away in
    write_at-other h r q (record (h r) { state = clean }) (ground (arith, f))

-- Under each key the compensation gives back what was pending under it, in the buffer of its state.
pub restore-buffers :
    (pending : Dict ℕ ℕ) (h : Heap) (reg : Dict ℕ ℕ) (b : Heap × Dict ℕ ℕ × Dict ℕ ℕ) (k : ℕ)
    → HasOneEach pending
    → Dict.Every (IsPending h) pending
    → (Dict.get (unflip_all (flip_captured pending h reg).0 b).1 k
        ≡ back_new h (Dict.get pending k) (Dict.get b.1 k))
      × (Dict.get (unflip_all (flip_captured pending h reg).0 b).2 k
          ≡ back_dirty h (Dict.get pending k) (Dict.get b.2 k))
unfolding flip_captured unflip_all set_state Dict.get
restore-buffers [] h reg b k one all = unfold Dict.get in (refl, refl)
restore-buffers ((oid, r) ∷ pending) h reg b k one all =
    let away = Avoids-of-Lacks h oid r pending all.0.0 one.0 all.1 in
    let h' = set_state h r clean in
    let b' = unflip oid r (h r).state b in
    let rest =
      restore-buffers pending h' (Dict.put reg oid r) b' k one.1
        (still-IsPending h r pending away all.1) in
    let step = unflip-get oid r (h r).state b k in
    elim (Bool-cases (eqb oid k)) [
      | inl y ↦
          let gone : Dict.get pending k ≡ none =
            rw (sym ((==_iff oid k).0 y)) (get-Lacks pending oid one.0) in
          rw (Dict.get, y)
            (
              rest.0 ∙ ap (λ o. back_new h' o (Dict.get b'.1 k)) gone ∙ (rw y at step.0),
              rest.1 ∙ ap (λ o. back_dirty h' o (Dict.get b'.2 k)) gone ∙ (rw y at step.1),
            )
      | inr f ↦
          let same = others_same h r pending k away in
          rw (Dict.get, f)
            (
              rest.0
                  ∙ back_new-same h' h (Dict.get pending k) _ same
                  ∙ ap (back_new h (Dict.get pending k)) (rw f at step.0),
              rest.1
                  ∙ back_dirty-same h' h (Dict.get pending k) _ same
                  ∙ ap (back_dirty h (Dict.get pending k)) (rw f at step.1),
            )
    ]
