-- ===== src/Query/Ordered.antt =====
-- An ordered result against the ids that it orders.
use datacrystal.Base.{
  ℕ, String, List, [], ◌∷◌, Option, none, some, Bool, Bool-cases, inl, inr, true, false, ◌==◌,
  ==_iff, ==_refl, ◌&&◌, contains, contains-append, if◌then◌else◌, ◌≡◌, refl, ◌∙◌, arith, nat_eq,
  string_eq, option_eq, option_beq,
}
use datacrystal.Base.Dict
use datacrystal.Query.Bitmap.{BitMap64}
use datacrystal.Query.ClassIndexes.{ClassIndexes, posting_of, present_keys, sort_keys}
use datacrystal.Query.Keys.{Keys, key_eq}
use datacrystal.Query.Plan.{column, run_of}
use datacrystal.Query.Postings.{posted}
use datacrystal.Query.Runs.{contains-sort_keys}
use datacrystal.Query.Tidy.{Tidy}
use datacrystal.Query.Answers.{absent_posting}
use datacrystal.Query.Build.{contains-present_keys}
use datacrystal.Query.Order.{reverse, ordered_keys, matched_of, extend_all, order_via_index}

module _ {K : Type 0} ⦃o : Keys K⦄ where
  contains-reverse : (ks : List K) (x : K) → contains (reverse ks) x ≡ contains ks x
  contains-reverse [] x = refl
  contains-reverse (k ∷ ks) x =
      contains-append (reverse ks) (k ∷ []) x ∙ rw (contains-reverse ks x) (ground arith)

module _ {K B : Type 0} ⦃o : Keys K⦄ ⦃bm : BitMap64 B⦄ (ci : ClassIndexes K B) (t : Tidy ci)
    (matched : B) (f : String) (n : ℕ) where
  contains-ordered_keys :
      (descending : Bool) (x : K)
      → contains (ordered_keys ci f descending) x ≡ Dict.has (column ci f) (some x)
  unfolding ordered_keys
  contains-ordered_keys descending x = elim (Bool-cases descending) [
    | inl y ↦ rw (ordered_keys, y) (contains-reverse _ x ∙ either)
    | inr q ↦ rw (ordered_keys, q) either
  ]
    where
      either :
          contains
            (if contains ci.sorted_fields f
              then run_of ci f
              else sort_keys (present_keys (column ci f)))
            x
          ≡ Dict.has (column ci f) (some x)
      either = elim (Bool-cases (contains ci.sorted_fields f)) [
        | inl y ↦ rw y ((t.runs f y).members x)
        | inr q ↦ rw q (
            contains-sort_keys (present_keys (column ci f)) x
            ∙ contains-present_keys (column ci f) x)
      ]

  contains-matched_of :
      (k : Option K)
      → contains (matched_of ci matched f k) n ≡ (posted ci f k n && bm.mem matched n)
  contains-matched_of k =
      bm.contains_iter (bm.inter (posting_of (column ci f) k) matched) n
      ∙ bm.mem_inter (posting_of (column ci f) k) matched n

  contains-extend_all :
      (x : K)
      → ((k : Option K) → posted ci f k n ≡ (some x == k))
      → (keys : List K)
      → contains (extend_all ci matched f keys) n ≡ (contains keys x && bm.mem matched n)
  unfolding extend_all option_beq
  contains-extend_all x h [] = refl
  contains-extend_all x h (k ∷ keys) =
      contains-append (matched_of ci matched f (some k)) (extend_all ci matched f keys) n
      ∙ rw (contains-matched_of (some k), h (some k), contains-extend_all x h keys)
          (ground (arith, ==_iff x k, ==_iff k x))

  none-extend_all :
      ((k : Option K) → posted ci f k n ≡ (none == k))
      → (keys : List K) → contains (extend_all ci matched f keys) n ≡ false
  unfolding extend_all option_beq
  none-extend_all h [] = refl
  none-extend_all h (k ∷ keys) =
      contains-append (matched_of ci matched f (some k)) (extend_all ci matched f keys) n
      ∙ rw (contains-matched_of (some k), h (some k), none-extend_all h keys) refl

  -- On indexes of a tidy shape, ordering by a field keeps exactly the matched ids: one whose value in the field is
  -- posted, `None` included, is in the ordered result if and only if it is matched.
  pub contains-order_via_index :
      (descending : Bool) (a : Option K)
      → ((k : Option K) → posted ci f k n ≡ (a == k))
      → contains (order_via_index ci matched f descending) n ≡ bm.mem matched n
  unfolding order_via_index option_beq
  contains-order_via_index descending none h =
      contains-append (extend_all ci matched f (ordered_keys ci f descending))
        (matched_of ci matched f none) n
      ∙ rw (none-extend_all h (ordered_keys ci f descending), contains-matched_of none, h none) refl
  contains-order_via_index descending (some x) h =
      let there : Dict.has (column ci f) (some x) ≡ true =
        elim (Bool-cases (Dict.has (column ci f) (some x))) [
          | inl y ↦ y
          | inr m ↦
              absurd (cc (absent_posting (column ci f) (some x) n m, h (some x), ==_refl (some x)))
        ] in
      contains-append (extend_all ci matched f (ordered_keys ci f descending))
        (matched_of ci matched f none) n
      ∙ rw
          (
            contains-extend_all x h (ordered_keys ci f descending),
            contains-ordered_keys descending x,
            there,
            contains-matched_of none,
            h none,
          )
          (ground arith)
