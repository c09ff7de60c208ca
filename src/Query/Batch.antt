-- ===== src/Query/Batch.antt =====
-- A commit on the indexes of a class: the check, the entries, and then the deletions.
use datacrystal.Base.{
  ℕ, String, List, [], ◌∷◌, some, Bool-cases, inl, inr, true, false, ◌==◌, ==_iff, ◌&&◌, contains,
  ◌≡◌, refl, ◌∙◌, sym, ap, arith, nat_eq, string_eq, option_eq, ◌⊎◌, All,
}
use datacrystal.Base.Dict
use datacrystal.Base.Dict.{Dict}
use datacrystal.Errors.{ok, >>=-eq-ok}
use datacrystal.Query.Bitmap.{BitMap64}
use datacrystal.Query.ClassIndexes.{ClassIndexes, Row, insert, remove}
use datacrystal.Query.Keys.{Keys, key_eq}
use datacrystal.Query.Plan.{holders_of}
use datacrystal.Query.Owners.{owns}
use datacrystal.Query.Rows.{claims}
use datacrystal.Query.Tidy.{distinct}
use datacrystal.Query.Mirror.{Mirrors, Halfway, Mirrors-Halfway, Halfway-Mirrors}
use datacrystal.Query.Halfway.{
  insert-Halfway, remove-Halfway, owns-insert, maps-insert, lists-insert,
}
use datacrystal.Query.Unique.{
  Seen, prior, value_of, existing_holder, check_fields, check_entries, check_unique, apply_entries,
  apply_deletes,
}
use datacrystal.Query.Checked.{claims-value_of, check_fields-Passed}

keys-has : {V : Type 0} (d : Dict String V) (f : String) → contains (Dict.keys d) f ≡ Dict.has d f
unfolding Dict.has
keys-has [] f = refl
keys-has ((g, v) ∷ d) f = rw (keys-has d f) refl

module _ {K B : Type 0} ⦃o : Keys K⦄ ⦃bm : BitMap64 B⦄ where
  module _ (base : ClassIndexes K B) (deleted : List ℕ)
      (flat : (f : String)
        → Dict.has base.unique f ≡ true
        → contains base.list_fields f ≡ false) where
    -- The holders on the way: noted by the check, or there before.
    record Tracked (ci : ClassIndexes K B) (seen : Seen K) : Type 0 where
      maps : (f : String) → Dict.has ci.unique f ≡ Dict.has base.unique f
      lists : ci.list_fields ≡ base.list_fields
      held :
          (f : String) (w : K) (n : ℕ)
          → Dict.has base.unique f ≡ true
          → owns ci f w n ≡ true
          → (prior seen f w ≡ some n) ⊎ (owns base f w n ≡ true)

    owner_exists :
        (f : String) (w : K) (n : ℕ)
        → owns base f w n ≡ true
        → contains deleted n ≡ false
        → existing_holder base deleted f w ≡ some n
    unfolding existing_holder
    owner_exists f w n p g =
        let e : Dict.get (holders_of base f) w ≡ some n =
          (==_iff (Dict.get (holders_of base f) w) (some n)).0 p in
        rw (existing_holder, e, g) refl

    module _ (ci : ClassIndexes K B) (m : Halfway deleted ci) (seen now : Seen K)
        (t : Tracked ci seen) (oid : ℕ) (row : Row K) (d : distinct row ≡ true)
        (passed : check_fields base deleted oid row (Dict.keys base.unique) seen ≡ ok now) where
      claimed :
          (f : String) (w : K)
          → Dict.has base.unique f ≡ true
          → claims ci.list_fields row f w
            ≡ (contains (Dict.keys base.unique) f && (value_of row f == some w))
      claimed f w h =
          rw (t.lists, keys-has base.unique f, h)
            (claims-value_of base.list_fields row f w d (flat f h))

      entry-Halfway : Halfway deleted (insert ci oid row)
      entry-Halfway = insert-Halfway deleted ci m oid row (λ f w n h c p g.
          let h' = sym (t.maps f) ∙ h in
          let a =
            check_fields-Passed base deleted oid row (Dict.keys base.unique) seen now passed in
          let c' = sym (claimed f w h') ∙ c in
          elim (t.held f w n h' p) [
            | inl s ↦ a.unseen f w n c' s
            | inr b ↦ a.unheld f w n c' (owner_exists f w n b g)
          ])

      entry-Tracked : Tracked (insert ci oid row) now
      entry-Tracked = record {
        maps = λ f. maps-insert deleted ci m oid row f ∙ t.maps f;
        lists = lists-insert deleted ci m oid row ∙ t.lists;
        held = λ f w n h p.
            let a =
              check_fields-Passed base deleted oid row (Dict.keys base.unique) seen now passed in
            let e = sym (owns-insert deleted ci m oid row f w n (t.maps f ∙ h)) ∙ p in
            elim (Bool-cases (claims ci.list_fields row f w)) [
              | inl y ↦ inl (
                  a.noted f w
                  ∙ rw (sym (claimed f w h) ∙ y) (ap some ((==_iff oid n).0 (rw y at e))))
              | inr q ↦
                  let before : owns ci f w n ≡ true = ground (arith, rw q at e) in
                  elim (t.held f w n h before) [
                    | inl s ↦ inl (a.noted f w ∙ rw (sym (claimed f w h) ∙ q) s)
                    | inr b ↦ inr b
                  ]
            ];
      }

    entries-Halfway :
        (entries : List (ℕ × Row K)) (ci : ClassIndexes K B) (seen now : Seen K)
        → Halfway deleted ci
        → Tracked ci seen
        → All (λ e. distinct e.1 ≡ true) entries
        → check_entries base deleted entries seen ≡ ok now
        → Halfway deleted (apply_entries ci entries)
    unfolding check_entries apply_entries
    entries-Halfway [] ci seen now m t d e = m
    entries-Halfway ((oid, row) ∷ entries) ci seen now m t d e =
        let (mid, q, r) =
          >>=-eq-ok (check_fields base deleted oid row (Dict.keys base.unique) seen)
            (λ s. check_entries base deleted entries s) e in
        entries-Halfway entries (insert ci oid row) mid now
          (entry-Halfway ci m seen mid t oid row d.0 q)
          (entry-Tracked ci m seen mid t oid row d.0 q) d.1 r

  deletes-Halfway :
      (deletes : List ℕ) (ci : ClassIndexes K B)
      → Halfway deletes ci
      → Halfway [] (apply_deletes ci deletes)
  unfolding apply_deletes
  deletes-Halfway [] ci m = m
  deletes-Halfway (oid ∷ deletes) ci m =
      deletes-Halfway deletes (remove ci oid) (remove-Halfway (oid ∷ deletes) ci m oid deletes refl)

  -- A commit whose entries pass the check of the unique values, with one value for each field of a row and no
  -- Unique list field, keeps the indexes equal to what the remembered rows say: its entries are folded in before
  -- its deletions, and may reuse the unique values of what it deletes.
  pub commit-Mirrors :
      (ci : ClassIndexes K B) (entries : List (ℕ × Row K)) (deletes : List ℕ)
      → Mirrors ci
      → ((f : String) → Dict.has ci.unique f ≡ true → contains ci.list_fields f ≡ false)
      → All (λ e. distinct e.1 ≡ true) entries
      → check_unique ci entries deletes ≡ ok tt
      → Mirrors (apply_deletes (apply_entries ci entries) deletes)
  unfolding check_unique prior
  commit-Mirrors ci entries deletes m flat d e =
      let (now, q, r) = >>=-eq-ok (check_entries ci deletes entries []) (λ s. ok tt) e in
      Halfway-Mirrors (apply_deletes (apply_entries ci entries) deletes) (
        deletes-Halfway deletes (apply_entries ci entries) (
          entries-Halfway ci deletes flat entries ci [] now (Mirrors-Halfway deletes ci m)
            (record { maps = λ f. refl; lists = refl; held = λ f w n h p. inr p }) d q))
