-- ===== src/Session/Fuel.antt =====
-- The rounds of a registration: each entity of a closed set is expanded once.
use datacrystal.Base.{
  ℕ, ◌+◌, ◌≤◌, Bool, List, [], ◌∷◌, Option, length, length-append, not, ◌&&◌, ◌≡◌, sym, arith, All,
  All-append, Bool-cases, inl, inr, nat_eq,
}
use datacrystal.Base.Dict.{Dict}
use datacrystal.Errors.{ok, >>=-eq-ok, ok-inj, require, type_error}
use datacrystal.Session.Live.{
  Value, number, scalar, entity, loaded, unloaded, sequence, Values, done, more, Field, Heap,
}
use datacrystal.Session.Reach.{
  Entry, queue_entity, walk_value, walk_values, queue_fields, queue_field_entities, pending_oid,
}

-- How many entities a value shows.
mutual
  refs_in : Value → ℕ
  refs_in (number n) = 0
  refs_in (scalar b) = 0
  refs_in (entity r) = 1
  refs_in (loaded r) = 1
  refs_in (unloaded oid) = 0
  refs_in (sequence vs) = refs_in_all vs

  refs_in_all : Values → ℕ
  refs_in_all done = 0
  refs_in_all (more v vs) = refs_in v + refs_in_all vs

unfoldable pub refs_of : List Field → ℕ
unfolding refs_in
refs_of [] = 0
refs_of (f ∷ fs) = refs_in f.value + refs_of fs

-- Every entity that a value shows has a property.
module _ (P : ℕ → Type 0) where
  abbrev mutual
    pub Shows : Value → Type 0
    Shows (number n) = Unit {0}
    Shows (scalar b) = Unit {0}
    Shows (entity r) = P r
    Shows (loaded r) = P r
    Shows (unloaded oid) = Unit {0}
    Shows (sequence vs) = ShowsAll vs

    pub ShowsAll : Values → Type 0
    ShowsAll done = Unit {0}
    ShowsAll (more v vs) = Shows v × ShowsAll vs

  abbrev pub ShowsIn : List Field → Type 0
  ShowsIn = All (λ f. Shows f.value)

  -- The queue grows by at most `n` entries, all with the property if those before had it.
  abbrev pub Extends : List Entry → ℕ → List Entry → Type 0
  Extends queue n queue' =
      (length queue' ≤ length queue + n) × (All (λ e. P e.0) queue → All (λ e. P e.0) queue')

  Extends-trans :
      (a b c : List Entry) (m n : ℕ) → Extends a m b → Extends b n c → Extends a (m + n) c
  Extends-trans a b c m n p q = (omega (arith, p.0, q.0), λ x. q.1 (p.1 x))

  module _ (h : Heap) (fresh edited : Dict ℕ ℕ) (container : Option ℕ) (eager : Bool) where
    queue_entity-Extends :
        (r : ℕ) (queue queue' : List Entry)
        → P r
        → queue_entity h fresh edited container eager r queue ≡ ok queue'
        → Extends queue 1 queue'
    unfolding queue_entity
    queue_entity-Extends r queue queue' p e =
        let (u, _, k) =
          >>=-eq-ok (require (not (eager && (h r).type.protected && not (h r).redacted)) type_error)
            _ e in
        elim (Bool-cases (pending_oid fresh edited (h r).oid)) [
          | inl y ↦ rw (sym (ok-inj (rw y at k))) (
            omega (arith, length-append queue ((r, container) ∷ [])),
            λ a. All-append (λ e. P e.0) queue _ a (p, tt),
          )
          | inr n ↦ rw (sym (ok-inj (rw n at k))) (omega arith, λ a. a)
        ]

    mutual
      unfolding walk_value refs_in

      walk_value-Extends :
          (v : Value) (queue queue' : List Entry)
          → Shows v
          → walk_value h fresh edited container eager v queue ≡ ok queue'
          → Extends queue (refs_in v) queue'
      walk_value-Extends (number n) queue queue' p e = rw (sym (ok-inj e)) (omega arith, λ a. a)
      walk_value-Extends (scalar b) queue queue' p e = rw (sym (ok-inj e)) (omega arith, λ a. a)
      walk_value-Extends (entity r) queue queue' p e = queue_entity-Extends r queue queue' p e
      walk_value-Extends (loaded r) queue queue' p e = queue_entity-Extends r queue queue' p e
      walk_value-Extends (unloaded oid) queue queue' p e = rw (sym (ok-inj e)) (omega arith, λ a. a)
      walk_value-Extends (sequence vs) queue queue' p e = walk_values-Extends vs queue queue' p e

      walk_values-Extends :
          (vs : Values) (queue queue' : List Entry)
          → ShowsAll vs
          → walk_values h fresh edited container eager vs queue ≡ ok queue'
          → Extends queue (refs_in_all vs) queue'
      walk_values-Extends done queue queue' p e = rw (sym (ok-inj e)) (omega arith, λ a. a)
      walk_values-Extends (more v vs) queue queue' p e =
          let (mid, q, e') = >>=-eq-ok (walk_value h fresh edited container eager v queue) _ e in
          Extends-trans queue mid queue' (refs_in v) (refs_in_all vs)
            (walk_value-Extends v queue mid p.0 q) (walk_values-Extends vs mid queue' p.1 e')

  queue_fields-Extends :
      (h : Heap) (fresh edited : Dict ℕ ℕ) (container : Option ℕ) (fs : List Field)
      (queue queue' : List Entry)
      → ShowsIn fs
      → queue_fields h fresh edited container fs queue ≡ ok queue'
      → Extends queue (refs_of fs) queue'
  unfolding queue_fields refs_of
  queue_fields-Extends h fresh edited container [] queue queue' p e =
      rw (sym (ok-inj e)) (omega arith, λ a. a)
  queue_fields-Extends h fresh edited container (f ∷ fs) queue queue' p e =
      let (mid, q, e') =
        >>=-eq-ok (walk_value h fresh edited container (not f.lazy_refs) f.value queue) _ e in
      Extends-trans queue mid queue' (refs_in f.value) (refs_of fs)
        (walk_value-Extends h fresh edited container (not f.lazy_refs) f.value queue mid p.0 q)
        (queue_fields-Extends h fresh edited container fs mid queue' p.1 e')

  pub expand-Extends :
      (h : Heap) (fresh edited : Dict ℕ ℕ) (r : ℕ) (queue queue' : List Entry)
      → ShowsIn (h r).fields
      → queue_field_entities h fresh edited r queue ≡ ok queue'
      → Extends queue (refs_of (h r).fields) queue'
  unfolding queue_field_entities
  expand-Extends h fresh edited r queue queue' p e = elim (Bool-cases (h r).type.has_entity_refs) [
    | inl y ↦ queue_fields-Extends h fresh edited _ (h r).fields queue queue' p (rw y at e)
    | inr n ↦ rw (sym (ok-inj (rw n at e))) (omega arith, λ a. a)
  ]
