-- ===== src/Session/Walk.antt =====
-- Relations that the registration of entities keeps, because an adoption and a stamping of labels do.
use datacrystal.Base.{
  ℕ, zero, suc, ◌&&◌, ◌==◌, Bool, List, [], ◌∷◌, Option, none, some, ◌≡◌, refl, Bool-cases, inl,
  inr, contains, nat_eq,
}
use datacrystal.Base.Int.{pos, int_eq}
use datacrystal.Errors.{Result, ok, err, Result-cases}
use datacrystal.Exec
use datacrystal.Exec.{Exec, ◌>>=◌, ◌>>◌}
use datacrystal.Session.Live.{Session}
use datacrystal.Session.Reach.{Entry, require_storable, is_buffered}
use datacrystal.Session.Graph.{
  stamp_perm_labels, adopted, adopt_unregistered, registered_oid, expand, visit_as, is_none, visit,
  walk, register_graph, register_all, discover_new_graphs,
}

-- A call that keeps a relation between the object before and after it, whether it returns or raises.
abbrev pub Keeps {κ} : {S X : Type κ} → (S → S → Type κ) → Exec S X → Type κ
Keeps R call = (s : _) → R s (call s).1

module _ {κ} {S X Y : Type κ} (R : S → S → Type κ) (call : Exec S X) (rest : X → Exec S Y)
    (trans : (a b c : S) → R a b → R b c → R a c) (then : (x : X) → Keeps R (rest x)) where
  pub keeps_at : (s : S) → R s (call s).1 → R s ((call >>= rest) s).1
  keeps_at s first = elim (Result-cases (call s).0) [
    | inl (e, q) ↦ rw q first
    | inr (x, q) ↦ rw q (trans s (call s).1 (rest x (call s).1).1 first (then x (call s).1))
  ]

-- A reflexive and transitive relation that holds across the two writes of the registration of one entity.
module _ {I Γ : Type 0} (R : Session I Γ → Session I Γ → Type 0) (same : (s : Session I Γ) → R s s)
    (trans : (a b c : Session I Γ) → R a b → R b c → R a c) (r : ℕ)
    (adopt : (s : Session I Γ)
      → (s.heap r).oid ≡ none
      → require_storable (s.heap r) ≡ ok tt
      → R s (adopted r s))
    (label : (oid : ℕ) (container : Option ℕ) (s : Session I Γ)
      → R s (stamp_perm_labels r oid container s)) where
  bind-Keeps :
      {X Y : Type 0} (call : Exec (Session I Γ) X) (rest : X → Exec (Session I Γ) Y)
      → Keeps R call
      → ((x : X) → Keeps R (rest x))
      → Keeps R (call >>= rest)
  bind-Keeps call rest first then s = keeps_at R call rest trans then s (first s)

  registered-Keeps :
      (oid : Option ℕ) (s : Session I Γ)
      → (s.heap r).oid ≡ oid
      → require_storable (s.heap r) ≡ ok tt
      → R s (registered_oid r oid s).1
  unfolding registered_oid adopt_unregistered
  registered-Keeps (some oid) s h k = same s
  registered-Keeps none s h k =
      elim (Bool-cases ((s.heap r).type.protected && s.principal.uid == pos 0)) [
        | inl y ↦ rw y (same s)
        | inr n ↦ rw n (adopt s h k)
      ]

  expand-Keeps :
      (container : Option ℕ) (fresh : Bool) (oid : ℕ) (queue : List Entry)
      → Keeps R (expand r container fresh oid queue)
  unfolding expand
  expand-Keeps container fresh oid queue s =
      elim (Bool-cases (is_buffered s.buffered_new s.buffered_dirty oid)) [
        | inr n ↦ rw n (same s)
        | inl y ↦ elim (Bool-cases (fresh && (s.heap r).type.protected)) [
          | inl p ↦ rw (y, p) (label oid container s)
          | inr q ↦ rw (y, q) (same s)
        ]
      ]

  visit_as-Keeps :
      (container : Option ℕ) (fresh : Bool) (walked : List ℕ) (queue : List Entry) (oid : ℕ)
      → Keeps R (visit_as r container fresh walked queue oid)
  unfolding visit_as
  visit_as-Keeps container fresh walked queue oid s = elim (Bool-cases (contains walked oid)) [
    | inl y ↦ rw y (same s)
    | inr n ↦ rw n (
        bind-Keeps (expand r container fresh oid queue) _ (expand-Keeps container fresh oid queue)
          (λ x t. same t) s)
  ]

  visit_at-Keeps :
      (container : Option ℕ) (walked : List ℕ) (queue : List Entry) (s : Session I Γ)
      (oid : Option ℕ)
      → (s.heap r).oid ≡ oid
      → (check : Result (Unit {0})) → require_storable (s.heap r) ≡ check
      → R s
          ((do
            Exec.lift check
            k ← registered_oid r oid
            visit_as r container (is_none oid) walked queue k)
            s).1
  visit_at-Keeps container walked queue s oid h (err e) k = same s
  visit_at-Keeps container walked queue s oid h (ok u) k =
      keeps_at R (registered_oid r oid) _ trans
        (visit_as-Keeps container (is_none oid) walked queue) s (registered-Keeps oid s h k)

  pub visit-Keeps :
      (container : Option ℕ) (walked : List ℕ) (queue : List Entry)
      → Keeps R (visit (r, container) walked queue)
  unfolding visit
  visit-Keeps container walked queue s =
      visit_at-Keeps container walked queue s (s.heap r).oid refl (require_storable (s.heap r)) refl

-- A reflexive and transitive relation that holds across a round.
module _ {I Γ : Type 0} (R : Session I Γ → Session I Γ → Type 0) (same : (s : Session I Γ) → R s s)
    (trans : (a b c : Session I Γ) → R a b → R b c → R a c)
    (step : (e : Entry) (walked : List ℕ) (queue : List Entry)
      → Keeps {S = Session I Γ} R (visit e walked queue)) where
  chain-Keeps :
      {X Y : Type 0} (call : Exec (Session I Γ) X) (rest : X → Exec (Session I Γ) Y)
      → Keeps R call
      → ((x : X) → Keeps R (rest x))
      → Keeps R (call >>= rest)
  chain-Keeps call rest first then s = keeps_at R call rest trans then s (first s)

  walk-Rounds : (fuel : ℕ) (walked : List ℕ) (queue : List Entry) → Keeps R (walk fuel walked queue)
  unfolding walk
  walk-Rounds fuel walked [] s = same s
  walk-Rounds zero walked (e ∷ queue) s = same s
  walk-Rounds (suc fuel) walked (e ∷ queue) s =
      chain-Keeps (visit e walked queue) _ (step e walked queue) (λ w. walk-Rounds fuel w.0 w.1) s

  pub register-Rounds :
      (fuel : ℕ) (r : ℕ) (walked : List ℕ) → Keeps R (register_graph fuel r walked)
  unfolding register_graph
  register-Rounds fuel r walked = walk-Rounds fuel walked ((r, none) ∷ [])

  register_all-Rounds :
      (fuel : ℕ) (walked : List ℕ) (rs : List ℕ) → Keeps R (register_all fuel walked rs)
  unfolding register_all
  register_all-Rounds fuel walked [] s = same s
  register_all-Rounds fuel walked (r ∷ rs) s =
      chain-Keeps (register_graph fuel r walked) _ (register-Rounds fuel r walked)
        (λ w.
          chain-Keeps (register_all fuel w.0 rs) _ (register_all-Rounds fuel w.0 rs)
            (λ more t. same t))
        s

  pub discover-Rounds : (fuel : ℕ) → Keeps R (discover_new_graphs fuel)
  unfolding discover_new_graphs
  discover-Rounds fuel s = register_all-Rounds fuel [] _ s

-- A reflexive and transitive relation that holds across the two writes of the registration of any entity.
module _ {I Γ : Type 0} (R : Session I Γ → Session I Γ → Type 0) (same : (s : Session I Γ) → R s s)
    (trans : (a b c : Session I Γ) → R a b → R b c → R a c)
    (adopt : (r : ℕ) (s : Session I Γ)
      → (s.heap r).oid ≡ none
      → require_storable (s.heap r) ≡ ok tt
      → R s (adopted r s))
    (label : (r oid : ℕ) (container : Option ℕ) (s : Session I Γ)
      → R s (stamp_perm_labels r oid container s)) where
  round-Keeps : (e : Entry) (walked : List ℕ) (queue : List Entry) → Keeps R (visit e walked queue)
  round-Keeps (r, container) walked queue =
      visit-Keeps R same trans r (adopt r) (label r) container walked queue

  pub register-Keeps : (fuel : ℕ) (r : ℕ) (walked : List ℕ) → Keeps R (register_graph fuel r walked)
  register-Keeps = register-Rounds R same trans round-Keeps

  pub discover-Keeps : (fuel : ℕ) → Keeps R (discover_new_graphs fuel)
  discover-Keeps = discover-Rounds R same trans round-Keeps
