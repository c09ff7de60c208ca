-- ===== src/Query/Absent.antt =====
-- An id outside the extent is in no candidates of a plan.
use datacrystal.Base.{
  ℕ, String, List, [], ◌∷◌, Option, none, some, Bool, Bool-cases, Option-cases, inl, inr, false,
  ◌==◌, contains, ◌≡◌, refl, ◌∙◌, sym, ap, nat_eq, string_eq, option_eq, option_beq,
}
use datacrystal.Base.Dict
use datacrystal.Base.Dict.{Dict, has-eq-get}
use datacrystal.Query.Bitmap.{BitMap64}
use datacrystal.Query.ClassIndexes.{ClassIndexes, posting_of}
use datacrystal.Query.Condition.{
  Test, is_eq, is_ne, is_lt, is_le, is_gt, is_ge, is_in, has_part, starts_with, Pred, Condition,
  Conditions, nil, cons, pred, conj, disj, neg,
}
use datacrystal.Query.Keys.{Keys, key_eq}
use datacrystal.Query.Mirror.{Mirrors, present}
use datacrystal.Query.Owners.{owns}
use datacrystal.Query.Plan.{
  Planned, Ordering, column, run_of, holders_of, range_slice, bounds, ordering_of, union_keys,
  union_values, union_matching, holder_of, add_holders, add_matching, matches_string_key,
  plan_list_field, plan_eq_column, plan_unordered, plan_eq_indexed, plan_unique_only, or_planned,
  plan_unique, plan_pred, plan, plan_parts, plan_branches, meet, finish_or, join_branch,
}
use datacrystal.Query.Postings.{posted}
use datacrystal.Query.Tidy.{Tidy}
use datacrystal.Query.Answers.{mem-union_matching, mem-single, mem-add_matching}

module _ {K B : Type 0} ⦃o : Keys K⦄ ⦃bm : BitMap64 B⦄ (ci : ClassIndexes K B) (t : Tidy ci)
    (n : ℕ) where
  -- No posting and no unique map has the id.
  record Unseen : Type 0 where
    unposted : (f : String) (k : Option K) → posted ci f k n ≡ false
    unheld : (f : String) (w : K) → owns ci f w n ≡ false

  Mirrors-Unseen : Mirrors ci → bm.mem ci.extent n ≡ false → Unseen
  unfolding column holders_of posting_of Dict.get option_beq
  Mirrors-Unseen m out = record {
    unposted = λ f k. elim (Option-cases (Dict.get ci.eq f)) [
      | inl e ↦ rw (posted, column, e) (bm.mem_empty n)
      | inr (col, e) ↦ rw (m.posts f k n (has-eq-get ci.eq f col e), unremembered) refl
    ];
    unheld = λ f w. elim (Option-cases (Dict.get ci.unique f)) [
      | inl e ↦ rw (owns, holders_of, e) refl
      | inr (holders, e) ↦ rw (m.owners f w n (has-eq-get ci.unique f holders e), unremembered) refl
    ];
  }
    where
      unremembered : Dict.get ci.last_values n ≡ none
      unremembered = elim (Option-cases (Dict.get ci.last_values n)) [
        | inl e ↦ e
        | inr (row, e) ↦ absurd (cc (out, m.within n, ap present e))
      ]

  -- Candidates without the id, if there are any.
  abbrev pub Shut : Option B → Type 0
  Shut none = Unit
  Shut (some ids) = bm.mem ids n ≡ false

  abbrev ShutPlan : Option (Planned K B) → Type 0
  ShutPlan none = Unit
  ShutPlan (some r) = Shut r.0

  or_planned-Shut :
      (r : Option (Planned K B)) (q : Planned K B) → ShutPlan r → Shut q.0 → Shut (or_planned r q).0
  unfolding or_planned
  or_planned-Shut none q a b = b
  or_planned-Shut (some r) q a b = a

  module _ (u : Unseen) (c : ℕ) (f : String) where
    union_values-false : (vs : List (Option K)) → bm.mem (union_values (column ci f) vs) n ≡ false
    unfolding union_values
    union_values-false [] = bm.mem_empty n
    union_values-false (v ∷ vs) =
        bm.mem_union (posting_of (column ci f) v) (union_values (column ci f) vs) n
        ∙ rw (u.unposted f v, union_values-false vs) refl

    union_keys-false : (ks : List K) → bm.mem (union_keys (column ci f) ks) n ≡ false
    unfolding union_keys
    union_keys-false [] = bm.mem_empty n
    union_keys-false (k ∷ ks) =
        bm.mem_union (posting_of (column ci f) (some k)) (union_keys (column ci f) ks) n
        ∙ rw (u.unposted f (some k), union_keys-false ks) refl

    range_slice-false : (op : Ordering) (v : Option K) → bm.mem (range_slice ci f op v) n ≡ false
    unfolding range_slice
    range_slice-false op none = bm.mem_empty n
    range_slice-false op (some v) = union_keys-false (bounds op (run_of ci f) v)

    matching-false : (test : Option K → Bool) → bm.mem (union_matching test (column ci f)) n ≡ false
    matching-false test =
        mem-union_matching test (column ci f) false none n (t.cols f) (λ k. u.unposted f k)

    add_holders-false : (vs : List (Option K)) → bm.mem (add_holders (holders_of ci f) vs) n ≡ false
    unfolding add_holders holder_of option_beq
    add_holders-false [] = bm.mem_empty n
    add_holders-false (none ∷ vs) = add_holders-false vs
    add_holders-false (some v ∷ vs) = elim (Option-cases (Dict.get (holders_of ci f) v)) [
      | inl e ↦ rw (add_holders, holder_of, e) (add_holders-false vs)
      | inr (oid, e) ↦
          let other : (oid == n) ≡ false = sym (rw e refl) ∙ u.unheld f v in
          rw (add_holders, holder_of, e)
            (bm.mem_add (add_holders (holders_of ci f) vs) oid n
              ∙ rw (other, add_holders-false vs) refl)
    ]

    adding-false :
        (matcher : K → K → Bool) (v : K)
        → bm.mem (add_matching (matches_string_key matcher v) (holders_of ci f)) n ≡ false
    unfolding matches_string_key
    adding-false matcher v =
        mem-add_matching B (matches_string_key matcher v) (holders_of ci f) false none n refl
          (t.maps f) (λ w. u.unheld f w)

    plan_eq_column-Shut :
        (test : Test K)
        → ShutPlan (plan_eq_column (record { cls = c; field = f; test = test }) (column ci f))
    unfolding plan_eq_column
    plan_eq_column-Shut (is_eq v) = u.unposted f v
    plan_eq_column-Shut (is_in vs) = union_values-false vs
    plan_eq_column-Shut (has_part v) = matching-false (matches_string_key o.substring v)
    plan_eq_column-Shut (starts_with v) = matching-false (matches_string_key o.prefix v)
    plan_eq_column-Shut (is_ne v) = tt
    plan_eq_column-Shut (is_lt v) = tt
    plan_eq_column-Shut (is_le v) = tt
    plan_eq_column-Shut (is_gt v) = tt
    plan_eq_column-Shut (is_ge v) = tt

    plan_list_field-Shut :
        (test : Test K) → Shut (plan_list_field (record { cls = c; field = f; test = test }) ci).0
    unfolding plan_list_field
    plan_list_field-Shut (has_part v) = u.unposted f (some v)
    plan_list_field-Shut (is_eq v) = tt
    plan_list_field-Shut (is_in vs) = tt
    plan_list_field-Shut (starts_with v) = tt
    plan_list_field-Shut (is_ne v) = tt
    plan_list_field-Shut (is_lt v) = tt
    plan_list_field-Shut (is_le v) = tt
    plan_list_field-Shut (is_gt v) = tt
    plan_list_field-Shut (is_ge v) = tt

    plan_unordered-Shut :
        (test : Test K) → ShutPlan (plan_unordered (record { cls = c; field = f; test = test }) ci)
    unfolding plan_unordered
    plan_unordered-Shut test = elim (Bool-cases (contains ci.list_fields f)) [
      | inl y ↦ rw (plan_unordered, y) (plan_list_field-Shut test)
      | inr m ↦ rw (plan_unordered, m) (plan_eq_column-Shut test)
    ]

    plan_eq_indexed-Shut :
        (test : Test K) → ShutPlan (plan_eq_indexed (record { cls = c; field = f; test = test }) ci)
    unfolding plan_eq_indexed
    plan_eq_indexed-Shut test = elim (Option-cases (ordering_of test)) [
      | inl e ↦ rw (plan_eq_indexed, e) (plan_unordered-Shut test)
      | inr ((op, v), e) ↦ elim (Bool-cases (contains ci.sorted_fields f)) [
        | inl y ↦ rw (plan_eq_indexed, e, y) (range_slice-false op v)
        | inr m ↦ rw (plan_eq_indexed, e, m) (plan_unordered-Shut test)
      ]
    ]

    plan_unique_only-Shut :
        (test : Test K)
        → ShutPlan (plan_unique_only (record { cls = c; field = f; test = test }) ci)
    unfolding plan_unique_only holder_of
    plan_unique_only-Shut (is_eq none) = mem-single B none n ∙ unfold option_beq in refl
    plan_unique_only-Shut (is_eq (some v)) =
        mem-single B (Dict.get (holders_of ci f) v) n ∙ u.unheld f v
    plan_unique_only-Shut (is_in vs) = add_holders-false vs
    plan_unique_only-Shut (has_part v) = adding-false o.substring v
    plan_unique_only-Shut (starts_with v) = adding-false o.prefix v
    plan_unique_only-Shut (is_ne v) = tt
    plan_unique_only-Shut (is_lt v) = tt
    plan_unique_only-Shut (is_le v) = tt
    plan_unique_only-Shut (is_gt v) = tt
    plan_unique_only-Shut (is_ge v) = tt

  module _ (u : Unseen) where
    plan_unique-Shut : (p : Pred K) → Shut (plan_unique p ci).0
    unfolding plan_unique
    plan_unique-Shut p = elim (Bool-cases (Dict.has ci.unique p.field)) [
      | inl y ↦
          rw (plan_unique, y)
            (or_planned-Shut (plan_unique_only p ci) (none, some (pred p))
              (plan_unique_only-Shut u p.cls p.field p.test) tt)
      | inr m ↦ rw (plan_unique, m) tt
    ]

    plan_pred-Shut : (p : Pred K) → Shut (plan_pred p ci).0
    unfolding plan_pred
    plan_pred-Shut p = elim (Bool-cases (Dict.has ci.eq p.field)) [
      | inl y ↦
          rw (plan_pred, y)
            (or_planned-Shut (plan_eq_indexed p ci) (plan_unique p ci)
              (plan_eq_indexed-Shut u p.cls p.field p.test) (plan_unique-Shut p))
      | inr m ↦ rw (plan_pred, m) (plan_unique-Shut p)
    ]

    meet-Shut : (a b : Option B) → Shut a → Shut b → Shut (meet a b)
    unfolding meet
    meet-Shut none b p q = q
    meet-Shut (some a) none p q = p
    meet-Shut (some a) (some b) p q = bm.mem_inter a b n ∙ rw p refl

    join_branch-Shut :
        (r : Planned K B) (rest : Option B) → Shut r.0 → Shut rest → Shut (join_branch r rest)
    join_branch-Shut (none, residual) rest p q = tt
    join_branch-Shut (some a, some c) rest p q = tt
    join_branch-Shut (some a, none) none p q = tt
    join_branch-Shut (some a, none) (some b) p q = bm.mem_union a b n ∙ rw (p, q) refl

    finish_or-Shut : (cs : Conditions K) (ids : Option B) → Shut ids → Shut (finish_or cs ids).0
    finish_or-Shut cs none p = tt
    finish_or-Shut cs (some ids) p = p

    mutual
      unfolding plan

      closed : (c : Condition K) → Shut (plan c ci).0
      closed (pred p) = plan_pred-Shut p
      closed (conj cs) = closed_parts cs
      closed (disj cs) = finish_or-Shut cs (plan_branches cs ci) (closed_branches cs)
      closed (neg c) = tt

      closed_parts : (cs : Conditions K) → Shut (plan_parts cs ci).0
      closed_parts nil = tt
      closed_parts (cons c cs) =
          meet-Shut (plan c ci).0 (plan_parts cs ci).0 (closed c) (closed_parts cs)

      closed_branches : (cs : Conditions K) → Shut (plan_branches cs ci)
      closed_branches nil = bm.mem_empty n
      closed_branches (cons c cs) =
          join_branch-Shut (plan c ci) (plan_branches cs ci) (closed c) (closed_branches cs)

  -- Where the indexes mirror the rows, an id outside the extent is no candidate.
  pub plan-Shut : Mirrors ci → bm.mem ci.extent n ≡ false → (c : Condition K) → Shut (plan c ci).0
  plan-Shut m out c = closed (Mirrors-Unseen m out) c
