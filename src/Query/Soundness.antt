-- ===== src/Query/Soundness.antt =====
-- The plan of a condition against its evaluation.
use datacrystal.Base.{
  ℕ, String, none, some, Bool, Bool-cases, Option-cases, inl, inr, true, false, not, ◌&&◌, ◌||◌,
  contains, ◌≡◌, refl, ◌∙◌, sym, ap, arith, nat_eq, string_eq, option_eq,
}
use mathlib.Core.Path.{subst}
use datacrystal.Base.Dict
use datacrystal.Base.Dict.{Dict}
use datacrystal.Errors.{ok}
use datacrystal.Query.Bitmap.{BitMap64}
use datacrystal.Query.ClassIndexes.{ClassIndexes, as_scalar}
use datacrystal.Query.Condition.{
  Value, scalar, Test, is_eq, is_ne, is_lt, is_le, is_gt, is_ge, is_in, has_part, starts_with, Pred,
  Condition, Conditions, nil, cons, pred, conj, disj, neg, evaluate, evaluate_test, value_contains,
}
use datacrystal.Query.Keys.{Keys, key_eq}
use datacrystal.Query.Plan.{
  ordering_of, plan_list_field, plan_unordered, plan_eq_indexed, plan_unique_only, plan_unique,
  plan_pred, plan_eq_column,
}
use datacrystal.Query.Postings.{posted}
use datacrystal.Query.Tidy.{Tidy}
use datacrystal.Query.Sound.{
  Shown, asks_none, answer, settled, ok_if, answer-or_planned, settled-plan_eq_indexed,
  settled-plan_unique_only,
}

module _ {K B : Type 0} ⦃o : Keys K⦄ ⦃bm : BitMap64 B⦄ where
  -- A condition that asks no pure-Unique field for `None`.
  abbrev mutual
    pub answerable : ClassIndexes K B → Condition K → Bool
    answerable ci (pred p) =
        Dict.has ci.eq p.field || (not (Dict.has ci.unique p.field) || not (asks_none p.test))
    answerable ci (conj cs) = all_answerable ci cs
    answerable ci (disj cs) = all_answerable ci cs
    answerable ci (neg c) = true

    pub all_answerable : ClassIndexes K B → Conditions K → Bool
    all_answerable ci nil = true
    all_answerable ci (cons c cs) = answerable ci c && all_answerable ci cs

  -- A test that the columns leave asks for no `None`.
  no_eq_asks :
      (ci : ClassIndexes K B) (c : ℕ) (f : String) (test : Test K)
      → plan_eq_indexed (record { cls = c; field = f; test = test }) ci ≡ none
      → asks_none test ≡ false
  unfolding plan_eq_indexed plan_unordered ordering_of plan_eq_column
  no_eq_asks ci c f (is_eq v) e = elim (Bool-cases (contains ci.list_fields f)) [
    | inl y ↦ absurd (cc (rw (plan_unordered, y) at e))
    | inr m ↦ absurd (cc (rw (plan_unordered, m) at e))
  ]
  no_eq_asks ci c f (is_in vs) e = elim (Bool-cases (contains ci.list_fields f)) [
    | inl y ↦ absurd (cc (rw (plan_unordered, y) at e))
    | inr m ↦ absurd (cc (rw (plan_unordered, m) at e))
  ]
  no_eq_asks ci c f (has_part v) e = refl
  no_eq_asks ci c f (starts_with v) e = refl
  no_eq_asks ci c f (is_ne v) e = refl
  no_eq_asks ci c f (is_lt v) e = refl
  no_eq_asks ci c f (is_le v) e = refl
  no_eq_asks ci c f (is_gt v) e = refl
  no_eq_asks ci c f (is_ge v) e = refl

  module _ (ci : ClassIndexes K B) (t : Tidy ci) (n : ℕ) (obj : String → Value K)
      (shown : Shown ci n obj) where
    -- A list field: its column answers `contains` by element.
    module _ (c : ℕ) (f : String) (h : Dict.has ci.eq f ≡ true)
        (l : contains ci.list_fields f ≡ true) where
      element : (v : K) → posted ci f (some v) n ≡ value_contains (obj f) v
      unfolding value_contains
      element v =
          shown.posts f (some v) h
          ∙ elim (shown.lists f l) [ inl e ↦ rw (l, e) refl | inr e ↦ rw (l, e) refl ]

      list_unordered :
          (test : Test K)
          → settled
              (plan_unordered (record { cls = c; field = f; test = test }) ci)
              n
              obj
              (evaluate_test test (obj f))
            ≡ evaluate_test test (obj f)
      unfolding plan_unordered plan_list_field evaluate_test evaluate
      list_unordered (has_part v) = rw (plan_unordered, l) (ok_if _ ∙ ap ok (element v))
      list_unordered (is_eq v) = rw (plan_unordered, l) refl
      list_unordered (is_in vs) = rw (plan_unordered, l) refl
      list_unordered (starts_with v) = rw (plan_unordered, l) refl
      list_unordered (is_ne v) = rw (plan_unordered, l) refl
      list_unordered (is_lt v) = rw (plan_unordered, l) refl
      list_unordered (is_le v) = rw (plan_unordered, l) refl
      list_unordered (is_gt v) = rw (plan_unordered, l) refl
      list_unordered (is_ge v) = rw (plan_unordered, l) refl

      list_indexed :
          (test : Test K)
          → settled
              (plan_eq_indexed (record { cls = c; field = f; test = test }) ci)
              n
              obj
              (evaluate_test test (obj f))
            ≡ evaluate_test test (obj f)
      unfolding plan_eq_indexed
      list_indexed test = elim (Option-cases (ordering_of test)) [
        | inl e ↦ rw (plan_eq_indexed, e) (list_unordered test)
        | inr ((op, v), e) ↦ elim (Bool-cases (contains ci.sorted_fields f)) [
          | inl y ↦ absurd (cc (l, t.apart f y))
          | inr m ↦ rw (plan_eq_indexed, e, m) (list_unordered test)
        ]
      ]

    indexed_pred :
        (p : Pred K)
        → Dict.has ci.eq p.field ≡ true
        → settled (plan_eq_indexed p ci) n obj (evaluate_test p.test (obj p.field))
          ≡ evaluate_test p.test (obj p.field)
    indexed_pred p h = elim (Bool-cases (contains ci.list_fields p.field)) [
      | inl y ↦ list_indexed p.cls p.field h y p.test
      | inr m ↦
          let a = as_scalar (obj p.field) in
          let e : scalar a ≡ obj p.field = sym (shown.scalars p.field m) in
          subst
            (λ x.
              settled (plan_eq_indexed p ci) n obj (evaluate_test p.test x)
              ≡ evaluate_test p.test x)
            e
            (settled-plan_eq_indexed ci t n obj p.cls p.field a
              (λ k. shown.posts p.field k h ∙ rw m refl) m (evaluate_test p.test (scalar a)) p.test
              refl)
    ]

    unique_pred :
        (p : Pred K)
        → (not (Dict.has ci.unique p.field) || not (asks_none p.test)) ≡ true
        → answer (plan_unique p ci) n obj ≡ evaluate_test p.test (obj p.field)
    unfolding plan_unique evaluate
    unique_pred p w = elim (Bool-cases (Dict.has ci.unique p.field)) [
      | inr m ↦ rw (plan_unique, m) refl
      | inl y ↦
          let a = as_scalar (obj p.field) in
          let m = shown.single_valued p.field y in
          let e : scalar a ≡ obj p.field = sym (shown.scalars p.field m) in
          rw (plan_unique, y)
            (answer-or_planned (plan_unique_only p ci) (none, some (pred p)) n obj
              ∙ subst
                  (λ x.
                    settled (plan_unique_only p ci) n obj (evaluate_test p.test x)
                    ≡ evaluate_test p.test x)
                  e
                  (settled-plan_unique_only ci t n obj p.cls p.field a
                    (λ w. shown.owners p.field w y ∙ rw m refl) p.test
                    (evaluate_test p.test (scalar a)) (ground (arith, y, w)) refl))
    ]

    pub unasked_pred :
        (p : Pred K)
        → answerable ci (pred p) ≡ true
        → answer (plan_pred p ci) n obj ≡ evaluate_test p.test (obj p.field)
    unfolding plan_pred
    unasked_pred p w = elim (Bool-cases (Dict.has ci.eq p.field)) [
      | inr m ↦ rw (plan_pred, m) (unique_pred p (ground (arith, m, w)))
      | inl y ↦
          rw (plan_pred, y)
            (answer-or_planned (plan_eq_indexed p ci) (plan_unique p ci) n obj
              ∙ elim (Option-cases (plan_eq_indexed p ci)) [
                | inr (r, e) ↦
                    let E = evaluate_test p.test (obj p.field) in
                    ap (λ x. settled x n obj (answer (plan_unique p ci) n obj)) e
                    ∙ sym (ap (λ x. settled x n obj E) e)
                    ∙ indexed_pred p y
                | inl e ↦
                    rw e (unique_pred p (rw (no_eq_asks ci p.cls p.field p.test e) (ground arith)))
              ])
    ]
