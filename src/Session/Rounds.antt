-- ===== src/Session/Rounds.antt =====
-- The rounds of the registration of entities, over a set that is closed under their references.
use mathlib.Core.Path.{subst}
use datacrystal.Base.{
  ℕ, ◌+◌, ◌≤◌, ◌&&◌, ◌==◌, Bool, true, false, List, ◌∷◌, Option, none, some, contains, length, ◌≡◌,
  refl, sym, ap, arith, ◌∙◌, All, Bool-cases, inl, inr, nat_eq, ==_refl,
}
use datacrystal.Errors.{Result, ok, err, Result-cases}
use datacrystal.Exec
use datacrystal.Exec.{Exec, continue, ◌>>=◌, ◌>>◌}
use datacrystal.Base.Int.{pos, int_eq}
use datacrystal.Ids.{next_oid}
use datacrystal.Session.Live.{Session}
use datacrystal.Session.Reach.{Entry, require_storable, is_buffered, queue_field_entities}
use datacrystal.Session.Graph.{
  adopted, stamp_perm_labels, visit_as, expand, registered_oid, adopt_unregistered, is_none, visit,
}
use datacrystal.Session.Fuel.{refs_of, ShowsIn, Extends, expand-Extends}
use datacrystal.Session.Weights.{
  walked_at, weight, total, total-le, In, Shape, weight-le, total-drop, Shape-refl, Shape-trans,
  adopted-Shape, adopted-own, label-Shape,
}

module _ {I Γ : Type 0} where
  module _ (U : List ℕ) where
    -- What a round leaves: entries of the set, and a smaller measure with the entry that it has taken.
    pub record Step (s : Session I Γ) (walked : List ℕ) (queue : List Entry) (t : Session I Γ)
        (walked' : List ℕ) (queue' : List Entry) : Type 0 where
      pub shape : Shape s t
      pub inside : All (λ e. In U e.0) queue → All (λ e. In U e.0) queue'
      pub falls :
          length queue' + total (weight t.heap walked') U
          ≤ length queue + total (weight s.heap walked) U

    abbrev pub Good :
        Session I Γ → List ℕ → List Entry → Result (List ℕ × List Entry) → Session I Γ → Type 0
    Good s walked queue (err e) t = Unit {0}
    Good s walked queue (ok (walked', queue')) t = Step s walked queue t walked' queue'

    stay :
        (s t : Session I Γ) (walked : List ℕ) (queue : List Entry)
        → Shape s t
        → Step s walked queue t walked queue
    stay s t walked queue shape = record {
      shape = shape;
      inside = λ a. a;
      falls = omega (
        arith,
        total-le (weight s.heap walked) (weight t.heap walked) U
            (weight-le s t walked walked shape (λ oid h. h)),
      );
    }

    move :
        (s t : Session I Γ) (walked : List ℕ) (queue queue' : List Entry) (r oid : ℕ)
        → Shape s t
        → In U r
        → (t.heap r).oid ≡ some oid
        → walked_at (s.heap r).oid walked ≡ false
        → Extends (In U) queue (refs_of (s.heap r).fields) queue'
        → Step s walked queue t (oid ∷ walked) queue'
    move s t walked queue queue' r oid shape here own away grows =
        let f : weight t.heap (oid ∷ walked) r + refs_of (s.heap r).fields
            ≤ weight s.heap walked r =
          rw (away, ap (λ o. walked_at o (oid ∷ walked)) own, ==_refl oid) (omega arith) in
        let g =
          total-drop (weight s.heap walked) (weight t.heap (oid ∷ walked)) U r
            (refs_of (s.heap r).fields)
            (weight-le s t walked (oid ∷ walked) shape (λ k h. ground (arith, h))) f here in
        record { shape = shape; inside = grows.1; falls = omega (arith, g, grows.0) }

    module _ (s : Session I Γ) (walked : List ℕ) (queue : List Entry) (r oid : ℕ) (here : In U r)
        (closed : ShowsIn (In U) (s.heap r).fields)
        (new_id : contains walked oid ≡ false → walked_at (s.heap r).oid walked ≡ false) where
      queued :
          (t : Session I Γ)
          → Shape s t
          → (t.heap r).oid ≡ some oid
          → contains walked oid ≡ false
          → (found : Result (List Entry))
          → queue_field_entities t.heap t.buffered_new t.buffered_dirty r queue ≡ found
          → Good s walked queue
              (continue {Y = List ℕ × List Entry} found (λ q. Exec.pure (oid ∷ walked, q)) t).0
              (continue {Y = List ℕ × List Entry} found (λ q. Exec.pure (oid ∷ walked, q)) t).1
      queued t shape own n (err e) q = tt
      queued t shape own n (ok queue') q =
          move s t walked queue queue' r oid shape here own (new_id n) (
            subst (λ fs. Extends (In U) queue (refs_of fs) queue') (shape.fields r)
              (expand-Extends (In U) t.heap t.buffered_new t.buffered_dirty r queue queue'
                (subst (ShowsIn (In U)) (sym (shape.fields r)) closed) q))

      visit_as-Good :
          (t : Session I Γ) (container : Option ℕ) (fresh : Bool)
          → Shape s t
          → (t.heap r).oid ≡ some oid
          → Good s walked queue
              (visit_as r container fresh walked queue oid t).0
              (visit_as r container fresh walked queue oid t).1
      unfolding visit_as expand
      visit_as-Good t container fresh shape own = elim (Bool-cases (contains walked oid)) [
        | inl y ↦ rw y (stay s t walked queue shape)
        | inr n ↦ elim (Bool-cases (is_buffered t.buffered_new t.buffered_dirty oid)) [
          | inr f ↦
              rw (n, f)
                (move s t walked queue queue r oid shape here own (new_id n) (omega arith, λ a. a))
          | inl y ↦ elim (Bool-cases (fresh && (t.heap r).type.protected)) [
            | inr f ↦ rw (n, y, f) (queued t shape own n _ refl)
            | inl p ↦
                let l = label-Shape r oid container t in
                rw (n, y, p)
                  (queued (stamp_perm_labels r oid container t) (Shape-trans s t _ shape l)
                    (l.oids r oid own) n _ refl)
          ]
        ]
      ]

    -- The entities of the set show only entities of the set.
    abbrev pub Closed : Session I Γ → Type 0
    Closed s = (r : ℕ) → In U r → ShowsIn (In U) (s.heap r).fields

    pub Closed-Shape : (s t : Session I Γ) → Shape s t → Closed s → Closed t
    Closed-Shape s t shape closed r here =
        subst (ShowsIn (In U)) (sym (shape.fields r)) (closed r here)

    registered-Good :
        (s : Session I Γ) (walked : List ℕ) (queue : List Entry) (r : ℕ) (container : Option ℕ)
        (o : Option ℕ)
        → In U r
        → Closed s
        → (s.heap r).oid ≡ o
        → Good s walked queue
            ((registered_oid r o >>= visit_as r container (is_none o) walked queue) s).0
            ((registered_oid r o >>= visit_as r container (is_none o) walked queue) s).1
    unfolding registered_oid adopt_unregistered
    registered-Good s walked queue r container (some oid) here closed e =
        visit_as-Good s walked queue r oid here (closed r here)
          (λ n. ap (λ o. walked_at o walked) e ∙ n) s container false (Shape-refl s) e
    registered-Good s walked queue r container none here closed e =
        elim (Bool-cases ((s.heap r).type.protected && s.principal.uid == pos 0)) [
          | inl y ↦ rw y tt
          | inr n ↦ rw n (
              visit_as-Good s walked queue r (next_oid s.alloc).0 here (closed r here)
                (λ n. ap (λ o. walked_at o walked) e) (adopted r s) container true
                (adopted-Shape r s e) (adopted-own r s))
        ]

    pub visit-Good :
        (s : Session I Γ) (walked : List ℕ) (queue : List Entry) (r : ℕ) (container : Option ℕ)
        → In U r
        → Closed s
        → Good s walked queue
            (visit (r, container) walked queue s).0
            (visit (r, container) walked queue s).1
    unfolding visit
    visit-Good s walked queue r container here closed =
        elim (Result-cases (require_storable (s.heap r))) [
          | inl (e, q) ↦ rw q tt
          | inr (u, q) ↦
              rw q (registered-Good s walked queue r container (s.heap r).oid here closed refl)
        ]
