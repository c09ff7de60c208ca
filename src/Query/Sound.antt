-- ===== src/Query/Sound.antt =====
-- The plan of one test against the evaluation of the test on the object of an id.
use datacrystal.Base.{
  ℕ, String, Option, none, some, Bool, Bool-cases, inl, inr, true, false, ◌==◌, contains,
  if◌then◌else◌, ◌≡◌, refl, ◌∙◌, sym, ap, nat_eq, string_eq, option_eq, ◌⊎◌,
}
use datacrystal.Base.Dict
use datacrystal.Base.Dict.{Dict}
use datacrystal.Errors.{Result, ok}
use datacrystal.Query.Bitmap.{BitMap64}
use datacrystal.Query.ClassIndexes.{ClassIndexes, as_list, as_scalar}
use datacrystal.Query.Condition.{
  Value, scalar, many, Test, is_eq, is_ne, is_lt, is_le, is_gt, is_ge, is_in, has_part, starts_with,
  Condition, evaluate, evaluate_test, ordered, is_equal, is_among, value_contains, value_startswith,
}
use datacrystal.Query.Keys.{Keys, key_eq}
use datacrystal.Query.Frame.{keyed}
use datacrystal.Query.Owners.{owns}
use datacrystal.Query.Plan.{
  Planned, Ordering, ge, gt, le, lt_, column, run_of, holders_of, range_slice, ordering_of,
  union_values, union_matching, holder_of, add_matching, matches_string_key, plan_eq_column,
  plan_unordered, plan_eq_indexed, plan_unique_only, or_planned, bounds,
}
use datacrystal.Query.Postings.{posted}
use datacrystal.Query.Rows.{holds}
use datacrystal.Query.Runs.{in_range}
use datacrystal.Query.Tidy.{Tidy}
use datacrystal.Query.Answers.{
  mem-union_matching, mem-union_values, none-union_keys, mem_slice, mem-single, mem-add_holders,
  mem-add_matching,
}

module _ {K : Type 0} ⦃o : Keys K⦄ where
  -- A literal that is, or that has, `None`.
  abbrev pub asks_none : Test K → Bool
  asks_none (is_eq none) = true
  asks_none (is_eq (some v)) = false
  asks_none (is_in vs) = contains vs none
  asks_none (is_ne v) = false
  asks_none (is_lt v) = false
  asks_none (is_le v) = false
  asks_none (is_gt v) = false
  asks_none (is_ge v) = false
  asks_none (has_part v) = false
  asks_none (starts_with v) = false

  -- The residual on an object.
  abbrev pub checked : Option (Condition K) → (String → Value K) → Result Bool
  checked none obj = ok true
  checked (some c) obj = evaluate c obj

  -- A range, on a value.
  within : Ordering → (a v : Option K) → Bool
  within op (some x) (some v) = in_range op v x
  within op (some x) none = false
  within op none v = false

  ordered-within :
      (op : Ordering) (a v : Option K)
      → ordered (λ x v. in_range op v x) (scalar a) v ≡ ok (within op a v)
  unfolding ordered within
  ordered-within op (some x) (some v) = refl
  ordered-within op (some x) none = refl
  ordered-within op none (some v) = refl
  ordered-within op none none = refl

  matches-value_contains :
      (v : K) (a : Option K) → matches_string_key o.substring v a ≡ value_contains (scalar a) v
  unfolding matches_string_key value_contains
  matches-value_contains v none = refl
  matches-value_contains v (some x) = refl

  matches-value_startswith :
      (v : K) (a : Option K) → matches_string_key o.prefix v a ≡ value_startswith (scalar a) v
  unfolding matches_string_key value_startswith
  matches-value_startswith v none = refl
  matches-value_startswith v (some x) = refl

pub ok_if : (b : Bool) → (if b then ok true else ok false) ≡ ok b
ok_if true = refl
ok_if false = refl

module _ {K B : Type 0} ⦃o : Keys K⦄ ⦃bm : BitMap64 B⦄ where
  -- An object whose values stand in the indexes under its id: a list where the field is a list, else a scalar.
  pub record Shown (ci : ClassIndexes K B) (n : ℕ) (obj : String → Value K) : Type 0 where
    pub posts :
        (f : String) (k : Option K)
        → Dict.has ci.eq f ≡ true
        → posted ci f k n ≡ keyed ci.list_fields f (obj f) k
    pub owners :
        (f : String) (w : K)
        → Dict.has ci.unique f ≡ true
        → owns ci f w n ≡ holds ci.list_fields f (obj f) w
    pub scalars :
        (f : String) → contains ci.list_fields f ≡ false → obj f ≡ scalar (as_scalar (obj f))
    pub lists :
        (f : String)
        → contains ci.list_fields f ≡ true
        → (obj f ≡ many (as_list (obj f))) ⊎ (obj f ≡ scalar none)
    pub single_valued :
        (f : String) → Dict.has ci.unique f ≡ true → contains ci.list_fields f ≡ false

  -- The candidates and the residual, on one object.
  abbrev pub answer : Planned K B → ℕ → (String → Value K) → Result Bool
  answer (none, residual) n obj = checked residual obj
  answer (some ids, residual) n obj = if bm.mem ids n then checked residual obj else ok false

  -- An answer of an index, or what is done without one.
  abbrev pub settled : Option (Planned K B) → ℕ → (String → Value K) → Result Bool → Result Bool
  settled none n obj d = d
  settled (some r) n obj d = answer r n obj

  pub answer-or_planned :
      (r : Option (Planned K B)) (q : Planned K B) (n : ℕ) (obj : String → Value K)
      → answer (or_planned r q) n obj ≡ settled r n obj (answer q n obj)
  unfolding or_planned
  answer-or_planned none q n obj = refl
  answer-or_planned (some r) q n obj = refl

  module _ (ci : ClassIndexes K B) (t : Tidy ci) (n : ℕ) (obj : String → Value K) (c : ℕ)
      (f : String) (a : Option K) where
    -- The tests that a column answers.
    module _ (h : (k : Option K) → posted ci f k n ≡ (a == k)) where
      mem-range_slice :
          (op : Ordering) (x v : Option K)
          → a ≡ x
          → contains ci.sorted_fields f ≡ true
          → bm.mem (range_slice ci f op v) n ≡ within op x v
      unfolding range_slice within
      mem-range_slice op (some x) (some v) e s =
          mem_slice (column ci f) (run_of ci f) op v x n (t.runs f s) (λ k. rw (h k, e) refl)
      mem-range_slice op none (some v) e s =
          none-union_keys (column ci f) n (λ k. rw (h k, e) refl) (bounds op (run_of ci f) v)
      mem-range_slice op (some x) none e s = bm.mem_empty n
      mem-range_slice op none none e s = bm.mem_empty n

      matching_answer :
          (matcher : K → K → Bool) (v : K)
          → bm.mem (union_matching (matches_string_key matcher v) (column ci f)) n
            ≡ matches_string_key matcher v a
      matching_answer matcher v =
          mem-union_matching (matches_string_key matcher v) (column ci f) true a n (t.cols f)
            (λ k. h k)

      settled-plan_eq_column :
          (test : Test K) (d : Result Bool)
          → d ≡ evaluate_test test (scalar a)
          → settled
              (plan_eq_column (record { cls = c; field = f; test = test }) (column ci f))
              n
              obj
              d
            ≡ evaluate_test test (scalar a)
      unfolding plan_eq_column evaluate_test is_equal is_among value_contains value_startswith
          matches_string_key
      settled-plan_eq_column (is_eq v) d e = ok_if (posted ci f v n) ∙ rw (h v) refl
      settled-plan_eq_column (is_in vs) d e =
          ok_if (bm.mem (union_values (column ci f) vs) n)
          ∙ ap ok (mem-union_values (column ci f) a n h vs)
      settled-plan_eq_column (has_part v) d e =
          ok_if _ ∙ ap ok (matching_answer o.substring v ∙ matches-value_contains v a)
      settled-plan_eq_column (starts_with v) d e =
          ok_if _ ∙ ap ok (matching_answer o.prefix v ∙ matches-value_startswith v a)
      settled-plan_eq_column (is_ne v) d e = e
      settled-plan_eq_column (is_lt v) d e = e
      settled-plan_eq_column (is_le v) d e = e
      settled-plan_eq_column (is_gt v) d e = e
      settled-plan_eq_column (is_ge v) d e = e

      module _ (l : contains ci.list_fields f ≡ false) (d : Result Bool) where
        settled-plan_unordered :
            (test : Test K)
            → d ≡ evaluate_test test (scalar a)
            → settled (plan_unordered (record { cls = c; field = f; test = test }) ci) n obj d
              ≡ evaluate_test test (scalar a)
        unfolding plan_unordered
        settled-plan_unordered test e = rw (plan_unordered, l) (settled-plan_eq_column test d e)

        settled_range :
            (op : Ordering) (v : Option K) (test : Test K)
            → evaluate_test test (scalar a) ≡ ordered (λ x v. in_range op v x) (scalar a) v
            → ordering_of test ≡ some (op, v)
            → d ≡ evaluate_test test (scalar a)
            → settled (plan_eq_indexed (record { cls = c; field = f; test = test }) ci) n obj d
              ≡ evaluate_test test (scalar a)
        unfolding plan_eq_indexed
        settled_range op v test q w e = elim (Bool-cases (contains ci.sorted_fields f)) [
          | inl y ↦
              rw (plan_eq_indexed, w, y)
                (ok_if (bm.mem (range_slice ci f op v) n)
                  ∙ ap ok (mem-range_slice op a v refl y)
                  ∙ sym (ordered-within op a v)
                  ∙ sym q)
          | inr m ↦ rw (plan_eq_indexed, w, m) (settled-plan_unordered test e)
        ]

        pub settled-plan_eq_indexed :
            (test : Test K)
            → d ≡ evaluate_test test (scalar a)
            → settled (plan_eq_indexed (record { cls = c; field = f; test = test }) ci) n obj d
              ≡ evaluate_test test (scalar a)
        unfolding plan_eq_indexed evaluate_test ordering_of
        settled-plan_eq_indexed (is_eq v) e = settled-plan_unordered (is_eq v) e
        settled-plan_eq_indexed (is_in vs) e = settled-plan_unordered (is_in vs) e
        settled-plan_eq_indexed (has_part v) e = settled-plan_unordered (has_part v) e
        settled-plan_eq_indexed (starts_with v) e = settled-plan_unordered (starts_with v) e
        settled-plan_eq_indexed (is_ne v) e = settled-plan_unordered (is_ne v) e
        settled-plan_eq_indexed (is_lt v) e = settled_range lt_ v (is_lt v) refl refl e
        settled-plan_eq_indexed (is_le v) e = settled_range le v (is_le v) refl refl e
        settled-plan_eq_indexed (is_gt v) e = settled_range gt v (is_gt v) refl refl e
        settled-plan_eq_indexed (is_ge v) e = settled_range ge v (is_ge v) refl refl e

    -- The tests that a unique map answers.
    module _ (h : (w : K) → owns ci f w n ≡ (a == some w)) where
      holding_answer :
          (matcher : K → K → Bool) (v : K)
          → bm.mem (add_matching (matches_string_key matcher v) (holders_of ci f)) n
            ≡ matches_string_key matcher v a
      unfolding matches_string_key
      holding_answer matcher v =
          mem-add_matching B (matches_string_key matcher v) (holders_of ci f) true a n refl
            (t.maps f) (λ w. h w)

      pub settled-plan_unique_only :
          (test : Test K) (d : Result Bool)
          → asks_none test ≡ false
          → d ≡ evaluate_test test (scalar a)
          → settled (plan_unique_only (record { cls = c; field = f; test = test }) ci) n obj d
            ≡ evaluate_test test (scalar a)
      unfolding plan_unique_only evaluate_test is_equal is_among holder_of
      settled-plan_unique_only (is_eq none) d p e = absurd (cc p)
      settled-plan_unique_only (is_eq (some v)) d p e =
          ok_if _ ∙ ap ok (mem-single B (Dict.get (holders_of ci f) v) n ∙ h v)
      settled-plan_unique_only (is_in vs) d p e =
          ok_if _ ∙ ap ok (mem-add_holders B (holders_of ci f) a n h vs p)
      settled-plan_unique_only (has_part v) d p e =
          ok_if _ ∙ ap ok (holding_answer o.substring v ∙ matches-value_contains v a)
      settled-plan_unique_only (starts_with v) d p e =
          ok_if _ ∙ ap ok (holding_answer o.prefix v ∙ matches-value_startswith v a)
      settled-plan_unique_only (is_ne v) d p e = e
      settled-plan_unique_only (is_lt v) d p e = e
      settled-plan_unique_only (is_le v) d p e = e
      settled-plan_unique_only (is_gt v) d p e = e
      settled-plan_unique_only (is_ge v) d p e = e
