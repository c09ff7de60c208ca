-- ===== src/Query/Runs.antt =====
-- Sorted runs: `insort` keeps the order, and a slice between two bisections holds the keys of a range.
use datacrystal.Base.{
  ℕ, suc, List, [], ◌∷◌, Bool, Bool-cases, inl, inr, true, false, not, ◌==◌, ==_iff, ◌&&◌, ◌||◌,
  contains, take, drop, All, All-map, if◌then◌else◌, ◌≡◌, refl, ◌∙◌, sym, arith,
}
use mathlib.Core.Path.{subst}
use datacrystal.Query.ClassIndexes.{insort, sort_keys}
use datacrystal.Query.Keys.{Keys, lt, key_eq}
use datacrystal.Query.Plan.{Ordering, ge, gt, le, lt_, bisect_left, bisect_right, bounds}

module _ {K : Type 0} ⦃o : Keys K⦄ where
  -- A run in ascending order.
  abbrev pub Sorted : List K → Type 0
  Sorted [] = Unit
  Sorted (k ∷ ks) = All (λ j. o.le k j ≡ true) ks × Sorted ks

  pub contains-insort :
      (ks : List K) (v k : K) → contains (insort ks v) k ≡ (v == k || contains ks k)
  unfolding insort
  contains-insort [] v k = refl
  contains-insort (j ∷ ks) v k = elim (Bool-cases (o.le j v)) [
    | inl y ↦ rw (insort, y, contains-insort ks v k) (ground arith)
    | inr n ↦ rw (insort, n) refl
  ]

  All-insort : (P : K → Type 0) (ks : List K) (v : K) → P v → All P ks → All P (insort ks v)
  unfolding insort
  All-insort P [] v p all = (p, tt)
  All-insort P (j ∷ ks) v p all = elim (Bool-cases (o.le j v)) [
    | inl y ↦ rw (insort, y) (all.0, All-insort P ks v p all.1)
    | inr n ↦ rw (insort, n) (p, (all.0, all.1))
  ]

  pub insort-Sorted : (ks : List K) (v : K) → Sorted ks → Sorted (insort ks v)
  unfolding insort
  insort-Sorted [] v s = (tt, tt)
  insort-Sorted (j ∷ ks) v s = elim (Bool-cases (o.le j v)) [
    | inl y ↦ rw (insort, y) (All-insort (λ k. o.le j k ≡ true) ks v y s.0, insort-Sorted ks v s.1)
    | inr n ↦
        let below : o.le v j ≡ true = ground (arith, n, o.le_total j v) in
        rw (insort, n) ((below, All-map ks (λ k h. o.le_trans v j k below h) s.0), (s.0, s.1))
  ]

  pub sort_keys-Sorted : (ks : List K) → Sorted (sort_keys ks)
  unfolding sort_keys
  sort_keys-Sorted [] = tt
  sort_keys-Sorted (k ∷ ks) = insort-Sorted (sort_keys ks) k (sort_keys-Sorted ks)

  pub contains-sort_keys : (ks : List K) (k : K) → contains (sort_keys ks) k ≡ contains ks k
  unfolding sort_keys
  contains-sort_keys [] k = refl
  contains-sort_keys (j ∷ ks) k =
      contains-insort (sort_keys ks) j k ∙ rw (contains-sort_keys ks k) refl

  -- The keys up to the first that fails a test.
  abbrev cut : (K → Bool) → List K → ℕ
  cut p [] = 0
  cut p (k ∷ ks) = let rest = cut p ks in if p k then suc rest else 0

  bisect_left-cut : (ks : List K) (v : K) → bisect_left ks v ≡ cut (λ k. lt k v) ks
  unfolding bisect_left
  bisect_left-cut [] v = refl
  bisect_left-cut (k ∷ ks) v = rw (bisect_left-cut ks v) refl

  bisect_right-cut : (ks : List K) (v : K) → bisect_right ks v ≡ cut (λ k. o.le k v) ks
  unfolding bisect_right
  bisect_right-cut [] v = refl
  bisect_right-cut (k ∷ ks) v = rw (bisect_right-cut ks v) refl

  module _ (p : K → Bool) (down : (k j : K) → o.le k j ≡ true → p j ≡ true → p k ≡ true) where
    -- Above a key that fails no key passes.
    above :
        (k : K) (ks : List K)
        → p k ≡ false
        → All (λ j. o.le k j ≡ true) ks
        → (j : K) → (contains ks j && p j) ≡ false
    above k [] f all j = refl
    above k (i ∷ ks) f all j = elim (Bool-cases (i == j)) [
      | inl y ↦ elim (Bool-cases (p j)) [
        | inl z ↦
            absurd (cc (f, down k j (subst (λ i. o.le k i ≡ true) ((==_iff i j).0 y) all.0) z))
        | inr z ↦ rw z (ground arith)
      ]
      | inr n ↦ rw n (above k ks f all.1 j)
    ]

    at : (k j : K) (x : Bool) → (k == j) ≡ true → p k ≡ x → p j ≡ x
    at k j x y e = subst (λ j. p j ≡ x) ((==_iff k j).0 y) e

    contains-take-cut :
        (ks : List K) (j : K) → Sorted ks → contains (take (cut p ks) ks) j ≡ (contains ks j && p j)
    contains-take-cut [] j s = refl
    contains-take-cut (k ∷ ks) j s = elim (Bool-cases (p k)) [
      | inl y ↦
          rw (y, contains-take-cut ks j s.1)
            (elim (Bool-cases (k == j)) [
              | inl e ↦ rw (e, at k j true e y) refl
              | inr n ↦ rw n refl
            ])
      | inr f ↦ rw f (
          sym (
            above k (k ∷ ks) f
              (
                elim (Bool-cases (o.le k k)) [
                  | inl y ↦ y
                  | inr n ↦ ground (arith, n, o.le_total k k)
                ],
                s.0,
              )
              j))
    ]

    contains-drop-cut :
        (ks : List K) (j : K)
        → Sorted ks
        → contains (drop (cut p ks) ks) j ≡ (contains ks j && not (p j))
    contains-drop-cut [] j s = refl
    contains-drop-cut (k ∷ ks) j s = elim (Bool-cases (p k)) [
      | inl y ↦
          rw (y, contains-drop-cut ks j s.1)
            (elim (Bool-cases (k == j)) [
              | inl e ↦ rw (e, at k j true e y) (ground arith)
              | inr n ↦ rw n refl
            ])
      | inr f ↦ rw f (elim (Bool-cases (k == j)) [
        | inl e ↦ rw (e, at k j false e f) refl
        | inr n ↦ rw n (ground (arith, above k ks f s.0 j))
      ])
    ]

  -- The keys in the range of an ordering and its bound.
  abbrev pub in_range : Ordering → K → K → Bool
  in_range ge v k = o.le v k
  in_range gt v k = lt v k
  in_range le v k = o.le k v
  in_range lt_ v k = lt k v

  lt_down : (v k j : K) → o.le k j ≡ true → lt j v ≡ true → lt k v ≡ true
  lt_down v k j h q = elim (Bool-cases (o.le v k)) [
    | inl y ↦ absurd (ground (arith, q, o.le_trans v k j y h))
    | inr n ↦ rw n refl
  ]

  le_down : (v k j : K) → o.le k j ≡ true → o.le j v ≡ true → o.le k v ≡ true
  le_down v k j h q = o.le_trans k j v h q

  -- The slice that the bisections cut from a run in ascending order has exactly its keys in the range.
  pub contains-bounds :
      (op : Ordering) (ks : List K) (v k : K)
      → Sorted ks
      → contains (bounds op ks v) k ≡ (contains ks k && in_range op v k)
  unfolding bounds
  contains-bounds ge ks v k s =
      rw (bisect_left-cut ks v, contains-drop-cut (λ k. lt k v) (lt_down v) ks k s) (ground arith)
  contains-bounds gt ks v k s =
      rw (bisect_right-cut ks v, contains-drop-cut (λ k. o.le k v) (le_down v) ks k s) refl
  contains-bounds le ks v k s =
      rw (bisect_right-cut ks v, contains-take-cut (λ k. o.le k v) (le_down v) ks k s) refl
  contains-bounds lt_ ks v k s =
      rw (bisect_left-cut ks v, contains-take-cut (λ k. lt k v) (lt_down v) ks k s) refl
