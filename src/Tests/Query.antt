-- ===== src/Tests/Query.antt =====
-- Indexes of a small class: an ordered field, a list field and a unique field.
use datacrystal.Base.{
  Option, option_eq, filter, ◌||◌, ℕ, String, List, [], ◌∷◌, none, some, Bool-cases, inl, inr, true,
  false, ◌==◌, contains, if◌then◌else◌, ◌≡◌, ◌&&◌, refl, arith, string_eq, nat_eq, ==_iff,
  option_beq, sym, ◌∙◌,
}
use datacrystal.Base.Dict
use datacrystal.Base.Dict.{Dict}
use datacrystal.Errors.{ok}
use datacrystal.Query.ClassIndexes.{
  finalize_build, Row, ClassIndexes, new_indexes, insert, forget, unindex, index_row, index_field,
  index_scalar_field, index_list_field, index_eq, index_unique, post, post_all, runs_after,
  enter_sorted_run, insort, posting_of,
}
use datacrystal.Query.Condition.{
  Value, scalar, many, Condition, nil, cons, pred, conj, disj, is_ge, is_eq, has_part, evaluate,
  evaluate_test, ordered, value_contains, is_equal,
}
use datacrystal.Query.Keys.{key_eq}
use datacrystal.Query.Plan.{holders_of, plan, ge, bounds}
use datacrystal.Query.Nulls.{plan_misses_none}
use datacrystal.Query.Owners.{owns}
use datacrystal.Query.Sound.{answer, Shown}
use datacrystal.Query.Runs.{contains-bounds, in_range}
use datacrystal.Query.Mirror.{Mirrors}
use datacrystal.Query.Keep.{Free, insert-Mirrors}
use datacrystal.Query.Batch.{commit-Mirrors}
use datacrystal.Query.Unique.{
  apply_entries, apply_deletes, check_unique, check_entries, check_fields, check_value,
  existing_holder, prior, value_of,
}
use datacrystal.Query.Window.{apply_window}
use datacrystal.Query.Search.{query}
use datacrystal.Query.Order.{
  order_via_index, windowed_index_order, windowed_index_order-order_via_index,
}
use datacrystal.Query.Ordered.{contains-order_via_index}
use datacrystal.Query.Build.{finalize_build-Tidy}
use datacrystal.Query.Postings.{posted}
use datacrystal.Query.Exact.{query_exact, visible}
use datacrystal.Query.Tidy.{Tidy}
use datacrystal.Query.Upkeep.{insert-Tidy}
use datacrystal.Query.Soundness.{answerable}
use datacrystal.Query.Compose.{plan-evaluate}
use datacrystal.Query.Fresh.{project, new_indexes-Mirrors, new_indexes-Tidy, project-Shown}
use datacrystal.Tests.Ids.{id_list, number_keys, ascend}

abbrev fields : List String
fields = "age" ∷ "tags" ∷ "code" ∷ []

abbrev quartz : String → Value ℕ
quartz f =
    if "tags" == f then many (some 1 ∷ some 2 ∷ []) else scalar (some (if "age" == f then 3 else 7))

abbrev start : ClassIndexes ℕ (List ℕ)
start = new_indexes ("age" ∷ "tags" ∷ []) ("code" ∷ []) ("tags" ∷ []) ("age" ∷ [])

abbrev stocked : ClassIndexes ℕ (List ℕ)
stocked = insert start 5 (project fields quartz)

start-Mirrors : Mirrors start
start-Mirrors =
    new_indexes-Mirrors (List ℕ) ("age" ∷ "tags" ∷ []) ("code" ∷ []) ("tags" ∷ []) ("age" ∷ [])

start-Tidy : Tidy start
start-Tidy =
    new_indexes-Tidy (List ℕ) ("age" ∷ "tags" ∷ []) ("code" ∷ []) ("tags" ∷ []) ("age" ∷ []) (λ f s.
      elim (Bool-cases ("age" == f)) [
        | inl y ↦ rw (← ((==_iff "age" f).0 y)) refl
        | inr n ↦ absurd (cc (n, s))
      ])

start-Free : Free start 5 (project fields quartz)
unfolding new_indexes Dict.get
start-Free f w n h c p = absurd (cc (p, nobody))
  where
    nobody : owns start f w n ≡ false
    nobody = start-Mirrors.owners f w n h

stocked-Mirrors : Mirrors stocked
stocked-Mirrors = (insert-Mirrors start start-Mirrors 5 (project fields quartz) start-Free).0

stocked-Tidy : Tidy stocked
stocked-Tidy = insert-Tidy start 5 (project fields quartz) start-Tidy

insert-Mirrors_example :
    Mirrors stocked
    × ((k : ℕ)
        → Dict.get stocked.last_values k
          ≡ (if 5 == k then some (project fields quartz) else Dict.get start.last_values k))
insert-Mirrors_example = insert-Mirrors start start-Mirrors 5 (project fields quartz) start-Free

insert-Tidy_example : Tidy stocked
insert-Tidy_example = insert-Tidy start 5 (project fields quartz) start-Tidy

stocked_memory : Dict.get stocked.last_values 5 ≡ some (project fields quartz)
unfolding insert new_indexes forget unindex index_row index_field index_scalar_field
    index_list_field index_eq index_unique post post_all runs_after enter_sorted_run insort
    posting_of Dict.get Dict.put
stocked_memory = refl

stocked_cols : (f : String) → Dict.has stocked.eq f ≡ contains ("age" ∷ "tags" ∷ []) f
unfolding insert new_indexes forget unindex index_row index_field index_scalar_field
    index_list_field index_eq index_unique post post_all runs_after enter_sorted_run insort
    posting_of Dict.get Dict.put Dict.has
stocked_cols f = refl

stocked_maps : (f : String) → Dict.has stocked.unique f ≡ contains ("code" ∷ []) f
unfolding insert new_indexes forget unindex index_row index_field index_scalar_field
    index_list_field index_eq index_unique post post_all runs_after enter_sorted_run insort
    posting_of Dict.get Dict.put Dict.has
stocked_maps f = refl

stocked_lists : stocked.list_fields ≡ "tags" ∷ []
unfolding insert new_indexes forget unindex index_row index_field index_scalar_field
    index_list_field index_eq index_unique post post_all runs_after enter_sorted_run insort
    posting_of Dict.get Dict.put
stocked_lists = refl

no_list : (f : String) → contains stocked.list_fields f ≡ false → ("tags" == f) ≡ false
no_list f l = ground (arith, rw (stocked_lists) at l)

unique_only : (f : String) → contains ("code" ∷ []) f ≡ true → contains ("tags" ∷ []) f ≡ false
unique_only f h = elim (Bool-cases ("code" == f)) [
  | inl y ↦ rw (← ((==_iff "code" f).0 y)) refl
  | inr n ↦ absurd (cc (n, h))
]

quartz-Shown : Shown stocked 5 quartz
quartz-Shown =
    project-Shown stocked 5 quartz fields stocked-Mirrors stocked_memory
      (λ f h. ground (arith, sym (stocked_cols f) ∙ h))
      (λ f h. (
        ground (arith, sym (stocked_maps f) ∙ h),
        rw stocked_lists (unique_only f (sym (stocked_maps f) ∙ h)),
      ))
      (λ f l. rw (no_list f l) refl)
      (λ f l. elim (Bool-cases ("tags" == f)) [
        | inl y ↦ inl (rw y refl)
        | inr n ↦ absurd (cc (n, rw (stocked_lists) at l))
      ])

-- age >= 2 and "tags" contains 1, or code == 8
abbrev asked : Condition ℕ
asked = disj (
    cons
      (conj (
        cons (pred (record { cls = 1; field = "age"; test = is_ge (some 2) }))
          (cons (pred (record { cls = 1; field = "tags"; test = has_part 1 })) nil)))
      (cons (pred (record { cls = 1; field = "code"; test = is_eq (some 8) })) nil))

asked_matches : evaluate asked quartz ≡ ok true
unfolding evaluate evaluate_test ordered value_contains is_equal option_beq
asked_matches = refl

plan-evaluate_example : answer (plan asked stocked) 5 quartz ≡ ok true
unfolding Dict.has insert Dict.get new_indexes Dict.put
plan-evaluate_example =
    plan-evaluate stocked stocked-Tidy 5 quartz quartz-Shown asked true refl asked_matches

abbrev ages : List ℕ
ages = 2 ∷ 4 ∷ 9 ∷ []

abbrev four : ℕ
four = 4

contains-bounds_example :
    contains (bounds ge ages 3) four ≡ (contains ages four && in_range ge 3 four)
contains-bounds_example =
    contains-bounds ge ages 3 four ((refl, (refl, tt)), ((refl, tt), (tt, tt)))

abbrev nameless : String → Value ℕ
nameless f = scalar none

plan_misses_none_example :
    (evaluate (pred (record { cls = 1; field = "code"; test = is_eq none })) nameless ≡ ok true)
    × (answer
          (plan (pred (record { cls = 1; field = "code"; test = is_eq none })) stocked)
          5
          nameless
        ≡ ok false)
plan_misses_none_example =
    plan_misses_none stocked 1 5 "code" nameless (stocked_cols "code") (stocked_maps "code") refl

-- The next specimen takes over the code of the one that is deleted.
abbrev batch : List (ℕ × Row ℕ)
batch = (6, project fields quartz) ∷ []

batch_passes : check_unique stocked batch (5 ∷ []) ≡ ok tt
unfolding check_unique check_entries check_fields check_value existing_holder prior value_of
    holders_of insert new_indexes forget unindex index_row index_field index_scalar_field
    index_list_field index_eq index_unique post post_all runs_after enter_sorted_run insort
    posting_of Dict.get Dict.put
batch_passes = refl

commit-Mirrors_example : Mirrors (apply_deletes (apply_entries stocked batch) (5 ∷ []))
unfolding Dict.has
commit-Mirrors_example =
    commit-Mirrors stocked batch (5 ∷ []) stocked-Mirrors
      (λ f h. rw stocked_lists (unique_only f (sym (stocked_maps f) ∙ h))) (refl, tt) batch_passes

stocked_extent : (n : ℕ) → contains stocked.extent n ≡ (5 == n || false)
unfolding insert new_indexes forget unindex index_row index_field index_scalar_field
    index_list_field index_eq index_unique post post_all runs_after enter_sorted_run insort
    posting_of Dict.get Dict.put
stocked_extent n = refl

asked-answerable : answerable stocked asked ≡ true
unfolding Dict.has insert Dict.get new_indexes Dict.put
asked-answerable = refl

only_quartz : (n : ℕ) → contains stocked.extent n ≡ true → n ≡ 5
only_quartz n h = sym ((==_iff 5 n).0 (ground (arith, sym (stocked_extent n) ∙ h)))

query_exact_example :
    query stocked (λ n. quartz) (some asked) none (some 1) 0
    ≡ ok (
        apply_window
          (filter (λ n. visible {B = List ℕ} none n && true) (ascend stocked.extent))
          (some 1)
          0)
query_exact_example =
    query_exact stocked (λ n. quartz) (λ n. true) none (some asked) (some 1) 0 stocked-Tidy
      stocked-Mirrors asked-answerable (λ n h. (rw (only_quartz n h) quartz-Shown, asked_matches))

windowed_index_order-order_via_index_example :
    windowed_index_order stocked (5 ∷ []) "age" false (some 1) 0
    ≡ apply_window (order_via_index stocked (5 ∷ []) "age" false) (some 1) 0
windowed_index_order-order_via_index_example =
    windowed_index_order-order_via_index stocked (5 ∷ []) "age" false (some 1) 0

posted_age : (k : Option ℕ) → posted stocked "age" k 5 ≡ (some 3 == k)
posted_age k = quartz-Shown.posts "age" k (stocked_cols "age") ∙ rw stocked_lists refl

contains-order_via_index_example :
    contains (order_via_index stocked (5 ∷ []) "age" true) 5 ≡ contains {A = ℕ} (5 ∷ []) 5
contains-order_via_index_example =
    contains-order_via_index stocked stocked-Tidy (5 ∷ []) "age" 5 true (some 3) posted_age

finalize_build-Tidy_example : Tidy (finalize_build stocked)
finalize_build-Tidy_example =
    finalize_build-Tidy stocked stocked-Tidy.cols stocked-Tidy.maps stocked-Tidy.apart
