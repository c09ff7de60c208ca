-- ===== src/Session/Weights.antt =====
-- What is left to expand of a set of entities, and what registration keeps of them.
use datacrystal.Base.{
  ℕ, ◌+◌, ◌≤◌, Bool, true, false, List, [], ◌∷◌, Option, none, some, contains, eqb, ◌≡◌, refl, ap,
  arith, ◌∙◌, Bool-cases, inl, inr, nat_eq, if◌then◌else◌, ==_iff, ==_refl,
}
use datacrystal.Base.Int.{int_eq}
use datacrystal.Ids.{next_oid}
use datacrystal.Session.Live.{Heap, write_at, stamp, Session}
use datacrystal.Session.Graph.{adopted, stamp_perm_labels}
use datacrystal.Session.Fuel.{refs_of}

-- An id that is among those walked.
abbrev pub walked_at : Option ℕ → List ℕ → Bool
walked_at none walked = false
walked_at (some oid) walked = contains walked oid

-- What an entity may still add to the queue.
abbrev pub weight : Heap → List ℕ → ℕ → ℕ
weight h walked r = if walked_at (h r).oid walked then 0 else refs_of (h r).fields

unwalked :
    (o o' : Option ℕ) (walked walked' : List ℕ)
    → ((oid : ℕ) → o ≡ some oid → o' ≡ some oid)
    → ((oid : ℕ) → contains walked oid ≡ true → contains walked' oid ≡ true)
    → walked_at o' walked' ≡ false
    → walked_at o walked ≡ false
unwalked none o' walked walked' keep more f = refl
unwalked (some oid) o' walked walked' keep more f = elim (Bool-cases (contains walked oid)) [
  | inr n ↦ n
  | inl y ↦
      let e : walked_at o' walked' ≡ true =
        ap (λ o. walked_at o walked') (keep oid refl) ∙ more oid y in
      absurd (cc (e, f))
]

weight_at-le :
    (o o' : Option ℕ) (walked walked' : List ℕ) (n n' : ℕ)
    → n' ≡ n
    → ((oid : ℕ) → o ≡ some oid → o' ≡ some oid)
    → ((oid : ℕ) → contains walked oid ≡ true → contains walked' oid ≡ true)
    → (if walked_at o' walked' then 0 else n') ≤ (if walked_at o walked then 0 else n)
weight_at-le o o' walked walked' n n' e keep more = elim (Bool-cases (walked_at o' walked')) [
  | inl y ↦ rw y (omega arith)
  | inr f ↦ rw (f, unwalked o o' walked walked' keep more f) (omega (arith, e))
]

unfoldable pub total : (ℕ → ℕ) → List ℕ → ℕ
total w [] = 0
total w (r ∷ rs) = w r + total w rs

pub total-le : (w w' : ℕ → ℕ) (rs : List ℕ) → ((r : ℕ) → w' r ≤ w r) → total w' rs ≤ total w rs
unfolding total
total-le w w' [] h = omega arith
total-le w w' (r ∷ rs) h = omega (arith, h r, total-le w w' rs h)

-- One entity of the list falls by `d`.
pub total-drop :
    (w w' : ℕ → ℕ) (rs : List ℕ) (k d : ℕ)
    → ((r : ℕ) → w' r ≤ w r)
    → w' k + d ≤ w k
    → contains rs k ≡ true
    → total w' rs + d ≤ total w rs
unfolding total
total-drop w w' [] k d h f c = absurd (cc)
total-drop w w' (r ∷ rs) k d h f c = elim (Bool-cases (eqb r k)) [
  | inl y ↦ let g : w' r + d ≤ w r = rw ((==_iff r k).0 y) f in omega (arith, g, total-le w w' rs h)
  | inr n ↦ omega (arith, h r, total-drop w w' rs k d h f (rw n at c))
]

-- An entity of the set.
abbrev pub In : List ℕ → ℕ → Type 0
In U r = contains U r ≡ true

module _ {I Γ : Type 0} where
  -- Registration writes no fields and takes no id away.
  pub record Shape (s t : Session I Γ) : Type 0 where
    pub fields : (q : ℕ) → (t.heap q).fields ≡ (s.heap q).fields
    pub oids : (q oid : ℕ) → (s.heap q).oid ≡ some oid → (t.heap q).oid ≡ some oid

  pub Shape-refl : (s : Session I Γ) → Shape s s
  Shape-refl s = record { fields = λ q. refl; oids = λ q oid h. h }

  pub Shape-trans : (a b c : Session I Γ) → Shape a b → Shape b c → Shape a c
  Shape-trans a b c p q = record {
    fields = λ r. q.fields r ∙ p.fields r;
    oids = λ r oid h. q.oids r oid (p.oids r oid h);
  }

  pub adopted-Shape : (r : ℕ) (s : Session I Γ) → (s.heap r).oid ≡ none → Shape s (adopted r s)
  unfolding adopted stamp write_at
  adopted-Shape r s loose = record {
    fields = λ q. elim (Bool-cases (eqb r q)) [
      | inl y ↦ rw y (ap (λ q. (s.heap q).fields) ((==_iff r q).0 y))
      | inr n ↦ rw n refl
    ];
    oids = λ q oid h. elim (Bool-cases (eqb r q)) [
      | inl y ↦ absurd (cc (loose, h, (==_iff r q).0 y))
      | inr n ↦ rw n h
    ];
  }

  pub adopted-own :
      (r : ℕ) (s : Session I Γ) → ((adopted r s).heap r).oid ≡ some (next_oid s.alloc).0
  unfolding adopted stamp write_at
  adopted-own r s = rw (==_refl r) refl

  pub label-Shape :
      (r oid : ℕ) (container : Option ℕ) (s : Session I Γ)
      → Shape s (stamp_perm_labels r oid container s)
  unfolding stamp_perm_labels write_at
  label-Shape r oid container s = record {
    fields = λ q. elim (Bool-cases (eqb r q)) [
      | inl y ↦ rw y (ap (λ q. (s.heap q).fields) ((==_iff r q).0 y))
      | inr n ↦ rw n refl
    ];
    oids = λ q oid h. elim (Bool-cases (eqb r q)) [
      | inl y ↦ rw (y, (==_iff r q).0 y) h
      | inr n ↦ rw n h
    ];
  }

  pub weight-le :
      (s t : Session I Γ) (walked walked' : List ℕ)
      → Shape s t
      → ((oid : ℕ) → contains walked oid ≡ true → contains walked' oid ≡ true)
      → (q : ℕ) → weight t.heap walked' q ≤ weight s.heap walked q
  weight-le s t walked walked' shape more q =
      weight_at-le (s.heap q).oid (t.heap q).oid walked walked' (refs_of (s.heap q).fields)
        (refs_of (t.heap q).fields) (ap refs_of (shape.fields q)) (shape.oids q) more
