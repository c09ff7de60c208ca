-- ===== src/Query/Exact.antt =====
-- `Store.query` against a scan of the extent.
use datacrystal.Base.{
  ℕ, ◌<◌, String, List, [], ◌∷◌, Option, none, some, Bool, Bool-cases, inl, inr, true, false, ◌==◌,
  ==_iff, ==_refl, ◌&&◌, contains, contains-filter, filter, All, ◌≡◌, refl, ◌∙◌, sym, ap, arith,
  nat_eq,
}
use mathlib.Core.Path.{subst}
use datacrystal.Errors.{ok, ok-inj}
use datacrystal.Query.Bitmap.{BitMap64, Ascending}
use datacrystal.Query.ClassIndexes.{ClassIndexes}
use datacrystal.Query.Condition.{Value, Condition, evaluate}
use datacrystal.Query.Keys.{Keys}
use datacrystal.Query.Plan.{plan}
use datacrystal.Query.Mirror.{Mirrors}
use datacrystal.Query.Tidy.{Tidy}
use datacrystal.Query.Sound.{Shown, checked, answer}
use datacrystal.Query.Soundness.{answerable}
use datacrystal.Query.Compose.{plan-evaluate}
use datacrystal.Query.Absent.{Shut, plan-Shut}
use datacrystal.Query.Window.{apply_window, window_iter-apply_window}
use datacrystal.Query.Search.{
  readable_part, or_extent, candidates, keep_matching, finish_query, query,
}

-- An ascending list is fixed by its members.
not_below : (xs : List ℕ) (m n : ℕ) → All (λ y. m < y) xs → contains xs n ≡ true → m < n
not_below [] m n a h = absurd (cc (h))
not_below (x ∷ xs) m n a h = elim (Bool-cases (x == n)) [
  | inl y ↦ subst (λ n. m < n) ((==_iff x n).0 y) a.0
  | inr q ↦ not_below xs m n a.1 (ground (arith, h, q))
]

fresh_head : (x : ℕ) (xs : List ℕ) → All (λ y. x < y) xs → contains xs x ≡ false
fresh_head x xs a = elim (Bool-cases (contains xs x)) [
  | inl y ↦ let h = not_below xs x x a y in absurd (omega (arith, h))
  | inr q ↦ q
]

same_head :
    (x y : ℕ) (xs ys : List ℕ)
    → Ascending (x ∷ xs)
    → Ascending (y ∷ ys)
    → ((n : ℕ) → contains (x ∷ xs) n ≡ contains (y ∷ ys) n)
    → x ≡ y
same_head x y xs ys a b h = elim (Bool-cases (x == y)) [
  | inl e ↦ (==_iff x y).0 e
  | inr q ↦
      let back : (y == x) ≡ false = ground (arith, q) in
      let up : y < x = not_below ys y x b.0 (ground (arith, h x, ==_refl x, back)) in
      let down : x < y = not_below xs x y a.0 (ground (arith, h y, ==_refl y, q)) in
      absurd (omega (arith, up, down))
]

pub Ascending-unique :
    (xs ys : List ℕ)
    → Ascending xs
    → Ascending ys
    → ((n : ℕ) → contains xs n ≡ contains ys n)
    → xs ≡ ys
Ascending-unique [] [] a b h = refl
Ascending-unique [] (y ∷ ys) a b h = absurd (ground (arith, h y, ==_refl y))
Ascending-unique (x ∷ xs) [] a b h = absurd (ground (arith, h x, ==_refl x))
Ascending-unique (x ∷ xs) (y ∷ ys) a b h =
    let e : x ≡ y = same_head x y xs ys a b h in
    let b' : Ascending (x ∷ ys) = subst (λ y. Ascending (y ∷ ys)) (sym e) b in
    rw (sym e) (
      ap (λ zs. x ∷ zs)
        (Ascending-unique xs ys a.1 b'.1 (λ n. elim (Bool-cases (x == n)) [
          | inl z ↦
              subst (λ n. contains xs n ≡ contains ys n) ((==_iff x n).0 z)
                (fresh_head x xs a.0 ∙ sym (fresh_head x ys b'.0))
          | inr z ↦
              let g : contains (x ∷ xs) n ≡ contains (x ∷ ys) n =
                subst (λ y. contains (x ∷ xs) n ≡ contains (y ∷ ys) n) (sym e) (h n) in
              ground (arith, g, z)
        ])))

All-filter :
    (p : ℕ → Bool) (m : ℕ) (xs : List ℕ) → All (λ y. m < y) xs → All (λ y. m < y) (filter p xs)
All-filter p m [] a = tt
All-filter p m (x ∷ xs) a = elim (Bool-cases (p x)) [
  | inl y ↦ rw y (a.0, All-filter p m xs a.1)
  | inr n ↦ rw n (All-filter p m xs a.1)
]

filter-Ascending : (p : ℕ → Bool) (xs : List ℕ) → Ascending xs → Ascending (filter p xs)
filter-Ascending p [] a = tt
filter-Ascending p (x ∷ xs) a = elim (Bool-cases (p x)) [
  | inl y ↦ rw y (All-filter p x xs a.0, filter-Ascending p xs a.1)
  | inr n ↦ rw n (filter-Ascending p xs a.1)
]

filter_all :
    (p : ℕ → Bool) (xs : List ℕ) → ((n : ℕ) → contains xs n ≡ true → p n ≡ true) → filter p xs ≡ xs
filter_all p [] h = refl
filter_all p (x ∷ xs) h =
    rw (h x (ground (arith, ==_refl x)), filter_all p xs (λ n g. h n (ground (arith, g)))) refl

module _ {K : Type 0} ⦃o : Keys K⦄ (objects : ℕ → String → Value K) (holds : ℕ → Bool)
    (residual : Condition K) where
  keep_matching-filter :
      (xs : List ℕ)
      → ((n : ℕ) → contains xs n ≡ true → evaluate residual (objects n) ≡ ok (holds n))
      → keep_matching objects residual xs ≡ ok (filter holds xs)
  unfolding keep_matching
  keep_matching-filter [] h = refl
  keep_matching-filter (x ∷ xs) h =
      rw
        (
          keep_matching,
          h x (ground (arith, ==_refl x)),
          keep_matching-filter xs (λ n g. h n (ground (arith, g))),
        )
        refl

module _ {B : Type 0} ⦃bm : BitMap64 B⦄ where
  -- The readable ids, where a session has such a set.
  abbrev pub visible : Option B → ℕ → Bool
  visible none n = true
  visible (some readable) n = bm.mem readable n

  mem-readable_part :
      (ids : B) (readable : Option B) (n : ℕ)
      → bm.mem (readable_part ids readable) n ≡ (bm.mem ids n && visible readable n)
  mem-readable_part ids none n = ground arith
  mem-readable_part ids (some readable) n = bm.mem_inter ids readable n

module _ {K B : Type 0} ⦃o : Keys K⦄ ⦃bm : BitMap64 B⦄ where
  abbrev pub answers_all : ClassIndexes K B → Option (Condition K) → Bool
  answers_all ci none = true
  answers_all ci (some c) = answerable ci c

  module _ (ci : ClassIndexes K B) (objects : ℕ → String → Value K) (holds : ℕ → Bool)
      (readable : Option B) where
    -- A plan that answers each id of the extent, and has no other.
    module _ (ids : Option B) (residual : Option (Condition K))
        (inside : (n : ℕ)
          → bm.mem ci.extent n ≡ true
          → answer (ids, residual) n (objects n) ≡ ok (holds n))
        (outside : (n : ℕ) → bm.mem ci.extent n ≡ false → bm.mem (or_extent ci ids) n ≡ false) where
      abbrev chosen : B
      chosen = readable_part (or_extent ci ids) readable

      in_extent : (n : ℕ) → bm.mem (or_extent ci ids) n ≡ true → bm.mem ci.extent n ≡ true
      in_extent n h = elim (Bool-cases (bm.mem ci.extent n)) [
        | inl y ↦ y
        | inr q ↦ absurd (cc (h, outside n q))
      ]

      residue :
          (ids' : Option B)
          → ids ≡ ids'
          → (n : ℕ) → bm.mem (or_extent ci ids') n ≡ true
          → checked residual (objects n) ≡ ok (holds n)
      residue none e n h = rw e at (inside n (in_extent n (rw e h)))
      residue (some x) e n h = rw (e, h) at (inside n (in_extent n (rw e h)))

      left_out :
          (ids' : Option B)
          → ids ≡ ids'
          → (n : ℕ) → bm.mem ci.extent n ≡ true
          → bm.mem (or_extent ci ids') n ≡ false
          → holds n ≡ false
      left_out none e n h q = absurd (cc (h, q))
      left_out (some x) e n h q = sym (ok-inj (rw (e, q) at (inside n h)))

      chosen_residue :
          (n : ℕ) → contains (bm.iter chosen) n ≡ true → checked residual (objects n) ≡ ok (holds n)
      chosen_residue n h =
          let g : (bm.mem (or_extent ci ids) n && visible readable n) ≡ true =
            sym (bm.contains_iter chosen n ∙ mem-readable_part (or_extent ci ids) readable n) ∙ h in
          residue ids refl n (ground (arith, g))

      scan_same :
          filter holds (bm.iter chosen)
          ≡ filter (λ n. visible readable n && holds n) (bm.iter ci.extent)
      scan_same =
          Ascending-unique (filter holds (bm.iter chosen))
            (filter (λ n. visible readable n && holds n) (bm.iter ci.extent))
            (filter-Ascending holds (bm.iter chosen) (bm.ascending_iter chosen))
            (filter-Ascending (λ n. visible readable n && holds n) (bm.iter ci.extent)
              (bm.ascending_iter ci.extent))
            (λ n.
              rw
                (
                  contains-filter holds (bm.iter chosen) n,
                  contains-filter (λ n. visible readable n && holds n) (bm.iter ci.extent) n,
                  bm.contains_iter chosen n,
                  bm.contains_iter ci.extent n,
                  mem-readable_part (or_extent ci ids) readable n,
                )
                (elim (Bool-cases (bm.mem ci.extent n)) [
                  | inr q ↦ rw (q, outside n q) refl
                  | inl y ↦ elim (Bool-cases (bm.mem (or_extent ci ids) n)) [
                    | inl z ↦ rw (y, z) refl
                    | inr z ↦ rw (y, z, left_out ids refl n y z) (ground arith)
                  ]
                ]))

      finish_exact :
          (residual' : Option (Condition K)) (limit : Option ℕ) (offset : ℕ)
          → residual ≡ residual'
          → finish_query objects chosen residual' limit offset
            ≡ ok (
                apply_window
                  (filter (λ n. visible readable n && holds n) (bm.iter ci.extent))
                  limit
                  offset)
      unfolding finish_query
      finish_exact none limit offset e =
          let all : filter holds (bm.iter chosen) ≡ bm.iter chosen =
            filter_all holds (bm.iter chosen)
              (λ n h. sym (ok-inj (rw e at (chosen_residue n h)))) in
          rw (window_iter-apply_window (bm.iter chosen) limit offset)
            (ap (λ xs. ok (apply_window xs limit offset)) (sym all ∙ scan_same))
      finish_exact (some r) limit offset e =
          rw
            (keep_matching-filter objects holds r (bm.iter chosen)
              (λ n h. rw e at (chosen_residue n h)))
            (ap (λ xs. ok (apply_window xs limit offset)) scan_same)

    -- On indexes of a tidy shape that mirror the rows and show the objects, a condition that asks no pure-Unique
    -- field for `None` and evaluates to a Boolean on each object finds, with any readable set, exactly the
    -- readable ids of the extent whose object satisfies it, in ascending order and cut to the window. No
    -- condition finds them all.
    pub query_exact :
        (cond : Option (Condition K)) (limit : Option ℕ) (offset : ℕ)
        → Tidy ci
        → Mirrors ci
        → answers_all ci cond ≡ true
        → ((n : ℕ)
            → bm.mem ci.extent n ≡ true
            → Shown ci n (objects n) × (checked cond (objects n) ≡ ok (holds n)))
        → query ci objects cond readable limit offset
          ≡ ok (
              apply_window
                (filter (λ n. visible readable n && holds n) (bm.iter ci.extent))
                limit
                offset)
    unfolding query candidates
    query_exact none limit offset t m a shown =
        finish_exact none none (λ n h. (shown n h).1) (λ n h. h) none limit offset refl
    query_exact (some c) limit offset t m a shown =
        finish_exact (plan c ci).0 (plan c ci).1
          (λ n h. plan-evaluate ci t n (objects n) (shown n h).0 c (holds n) a (shown n h).1)
          (λ n h. no_candidate (plan c ci).0 n (plan-Shut ci t n m h c) h) (plan c ci).1 limit
          offset refl
      where
        no_candidate :
            (ids : Option B) (n : ℕ)
            → Shut ci t n ids
            → bm.mem ci.extent n ≡ false
            → bm.mem (or_extent ci ids) n ≡ false
        no_candidate none n s h = h
        no_candidate (some ids) n s h = s
