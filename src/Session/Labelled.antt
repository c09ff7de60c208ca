-- ===== src/Session/Labelled.antt =====
-- The labels of an entity with an id: no registration stamps them again.
use mathlib.Core.Path.{subst}
use datacrystal.Base.{
  ℕ, false, List, Option, some, eqb, contains, ◌≡◌, refl, sym, ap, ◌∙◌, Option-cases, Bool-cases,
  inl, inr, nat_eq, ==_iff,
}
use datacrystal.Exec
use datacrystal.Exec.{◌>>=◌, ◌>>◌}
use datacrystal.Session.Live.{Live, Session, stamp}
use datacrystal.Session.Reach.{Entry, require_storable, is_buffered}
use datacrystal.Session.Graph.{
  stamp_perm_labels, adopted, visit, visit_as, expand, registered_oid, discover_new_graphs,
}
use datacrystal.Session.Buffers.{write_at-other}
use datacrystal.Session.Walk.{Keeps, keeps_at, visit-Keeps, discover-Rounds}

module _ {I Γ : Type 0} where
  -- An entity with an id keeps it, and its labels.
  abbrev pub Labelled : Session I Γ → Session I Γ → Type 0
  Labelled s t =
      (q k : ℕ)
      → (s.heap q).oid ≡ some k
      → ((t.heap q).oid ≡ some k) × ((t.heap q).labels ≡ (s.heap q).labels)

  pub Labelled-refl : (s : Session I Γ) → Labelled s s
  Labelled-refl s q k h = (h, refl)

  pub Labelled-trans : (a b c : Session I Γ) → Labelled a b → Labelled b c → Labelled a c
  Labelled-trans a b c f g q k h =
      let (own, l) = f q k h in let (own', l') = g q k own in (own', l' ∙ l)

  -- Every entity but one is as it was.
  abbrev Others : ℕ → Session I Γ → Session I Γ → Type 0
  Others r s t = (q : ℕ) → eqb r q ≡ false → t.heap q ≡ s.heap q

  visit-Others :
      (r : ℕ) (container : Option ℕ) (walked : List ℕ) (queue : List Entry)
      → Keeps {S = Session I Γ} (Others r) (visit (r, container) walked queue)
  unfolding adopted stamp stamp_perm_labels
  visit-Others r =
      visit-Keeps (Others r) (λ s q n. refl) (λ a b c f g q n. g q n ∙ f q n) r
        (λ s h k q n. write_at-other s.heap r q _ n)
        (λ oid container s q n. write_at-other s.heap r q _ n)

  expand-known :
      (r : ℕ) (container : Option ℕ) (queue : List Entry) (oid : ℕ) (s : Session I Γ)
      → (expand r container false oid queue s).1 ≡ s
  unfolding expand
  expand-known r container queue oid s =
      elim (Bool-cases (is_buffered s.buffered_new s.buffered_dirty oid)) [
        | inl y ↦ rw y refl
        | inr m ↦ rw m refl
      ]

  visit_as-known :
      (r : ℕ) (container : Option ℕ) (walked : List ℕ) (queue : List Entry) (oid : ℕ)
      (s : Session I Γ)
      → (visit_as r container false walked queue oid s).1 ≡ s
  unfolding visit_as
  visit_as-known r container walked queue oid s = elim (Bool-cases (contains walked oid)) [
    | inl y ↦ rw y refl
    | inr n ↦ rw n (
        keeps_at (λ a b. b ≡ a) (expand r container false oid queue) _ (λ a b c p q. q ∙ p)
          (λ x t. refl) s (expand-known r container queue oid s))
  ]

  -- A round over an entity with an id writes nothing.
  visit-known :
      (r : ℕ) (container : Option ℕ) (walked : List ℕ) (queue : List Entry) (s : Session I Γ)
      (oid : ℕ)
      → (s.heap r).oid ≡ some oid
      → (visit (r, container) walked queue s).1 ≡ s
  unfolding visit registered_oid require_storable
  visit-known r container walked queue s oid h = rw h (
      keeps_at (λ a b. b ≡ a) (Exec.lift (require_storable (s.heap r))) _ (λ a b c p q. q ∙ p)
        (λ u t. visit_as-known r container walked queue oid t) s refl)

  visit-Labelled :
      (e : Entry) (walked : List ℕ) (queue : List Entry)
      → Keeps {S = Session I Γ} Labelled (visit e walked queue)
  visit-Labelled (r, container) walked queue s = elim (Option-cases (s.heap r).oid) [
    | inr (k, e) ↦
        subst (Labelled s) (sym (visit-known r container walked queue s k e)) (Labelled-refl s)
    | inl e ↦ λ q k h. elim (Bool-cases (eqb r q)) [
      | inl y ↦ absurd (cc ((==_iff r q).0 y, e, h))
      | inr n ↦
          let kept = visit-Others r container walked queue s q n in
          (ap (λ (x : Live). x.oid) kept ∙ h, ap (λ (x : Live). x.labels) kept)
    ]
  ]

  pub discover-Labelled : (fuel : ℕ) → Keeps {S = Session I Γ} Labelled (discover_new_graphs fuel)
  discover-Labelled = discover-Rounds Labelled Labelled-refl Labelled-trans visit-Labelled
