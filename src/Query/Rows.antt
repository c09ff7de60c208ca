-- ===== src/Query/Rows.antt =====
-- The loops of `insert` and `_unindex` over the fields of a row.
use datacrystal.Base.{
  ℕ, String, List, [], ◌∷◌, Option, some, Bool, Bool-cases, inl, inr, true, false, not, ◌==◌, ◌&&◌,
  ◌||◌, contains, if◌then◌else◌, ◌≡◌, refl, ◌∙◌, arith, nat_eq, string_eq, option_eq,
}
use datacrystal.Base.Dict
use datacrystal.Base.Dict.{Dict}
use datacrystal.Query.Bitmap.{BitMap64}
use datacrystal.Query.ClassIndexes.{
  ClassIndexes, Row, as_list, as_scalar, index_list_field, index_eq, index_unique,
  index_scalar_field, index_field, index_row, unindex_list_field, unindex_eq, unindex_unique,
  unindex_field, unindex,
}
use datacrystal.Query.Condition.{Value}
use datacrystal.Query.Keys.{Keys, key_eq}
use datacrystal.Query.Plan.{holders_of}
use datacrystal.Query.Postings.{posted}
use datacrystal.Query.Frame.{
  Frame, Frame-refl, Frame-trans, keyed, index_list_field-Adds, unindex_list_field-Takes,
  index_eq-Adds, unindex_eq-Takes,
}
use datacrystal.Query.Owners.{owns, index_unique-Gives, unindex_unique-Frees}

module _ {K : Type 0} ⦃o : Keys K⦄ (lists : List String) where
  -- The value that a field holds in a unique map.
  abbrev pub holds : String → Value K → K → Bool
  holds f v w = not (contains lists f) && (as_scalar v == some w)

  -- The keys, and the unique values, of a field in a row.
  abbrev pub hits : Row K → String → Option K → Bool
  hits [] f k = false
  hits ((g, v) ∷ row) f k = (g == f && keyed lists g v k) || hits row f k

  abbrev pub claims : Row K → String → K → Bool
  claims [] f w = false
  claims ((g, v) ∷ row) f w = (g == f && holds g v w) || claims row f w

module _ {K B : Type 0} ⦃o : Keys K⦄ ⦃bm : BitMap64 B⦄ where
  -- Keys and unique values that are given to an id, and taken from it.
  pub record Indexed (ci ci' : ClassIndexes K B) (P : String → Option K → Bool)
      (Q : String → K → Bool) (oid : ℕ) : Type 0 where
    pub kept : Frame ci ci'
    pub posts :
        (f : String) (k : Option K) (n : ℕ)
        → Dict.has ci.eq f ≡ true
        → posted ci' f k n ≡ ((P f k && oid == n) || posted ci f k n)
    pub owners :
        (f : String) (w : K) (n : ℕ)
        → Dict.has ci.unique f ≡ true
        → owns ci' f w n ≡ (if Q f w then oid == n else owns ci f w n)

  pub record Unindexed (ci ci' : ClassIndexes K B) (P : String → Option K → Bool)
      (Q : String → K → Bool) (oid : ℕ) : Type 0 where
    pub kept : Frame ci ci'
    pub posts :
        (f : String) (k : Option K) (n : ℕ)
        → Dict.has ci.eq f ≡ true
        → posted ci' f k n ≡ (not (P f k && oid == n) && posted ci f k n)
    pub owners :
        (f : String) (w : K) (n : ℕ)
        → Dict.has ci.unique f ≡ true
        → owns ci' f w n ≡ (not (Q f w && oid == n) && owns ci f w n)

  same_owners :
      (ci ci' : ClassIndexes K B) (f : String) (w : K) (n : ℕ)
      → ci'.unique ≡ ci.unique
      → owns ci' f w n ≡ owns ci f w n
  unfolding holders_of
  same_owners ci ci' f w n e = rw (owns, holders_of, e) refl

  index_field-Indexed :
      (ci : ClassIndexes K B) (oid : ℕ) (g : String) (v : Value K)
      → Indexed ci
          (index_field ci oid g v)
          (λ f k. g == f && keyed ci.list_fields g v k)
          (λ f w. g == f && holds ci.list_fields g v w)
          oid
  unfolding index_field index_scalar_field
  index_field-Indexed ci oid g v = elim (Bool-cases (contains ci.list_fields g)) [
    | inl y ↦
        let a = index_list_field-Adds ci oid g (as_list v) in
        rw (index_field, y)
          (record {
            kept = a.kept;
            posts = λ f k n h. rw (a.posts f k n h) (ground arith);
            owners = λ f w n h.
                rw (same_owners ci (index_list_field ci oid g (as_list v)) f w n a.uniques)
                  (ground arith);
          })
    | inr m ↦
        let a = index_eq-Adds ci oid g (as_scalar v) in
        let mid = index_eq ci oid g (as_scalar v) in
        let b = index_unique-Gives mid oid g (as_scalar v) in
        rw (index_field, m)
          (record {
            kept = Frame-trans ci mid (index_unique mid oid g (as_scalar v)) a.kept b.kept;
            posts = λ f k n h. b.posts f k n ∙ rw (a.posts f k n h) (ground arith);
            owners = λ f w n h.
                b.owners f w n (a.kept.maps f ∙ h) ∙ rw (same_owners ci mid f w n a.uniques) refl;
          })
  ]

  unindex_field-Unindexed :
      (ci : ClassIndexes K B) (oid : ℕ) (g : String) (v : Value K)
      → Unindexed ci
          (unindex_field ci oid g v)
          (λ f k. g == f && keyed ci.list_fields g v k)
          (λ f w. g == f && holds ci.list_fields g v w)
          oid
  unfolding unindex_field
  unindex_field-Unindexed ci oid g v = elim (Bool-cases (contains ci.list_fields g)) [
    | inl y ↦
        let a = unindex_list_field-Takes ci oid g (as_list v) in
        rw (unindex_field, y)
          (record {
            kept = a.kept;
            posts = λ f k n h. rw (a.posts f k n h) (ground arith);
            owners = λ f w n h.
                rw (same_owners ci (unindex_list_field ci oid g (as_list v)) f w n a.uniques)
                  (ground arith);
          })
    | inr m ↦
        let a = unindex_eq-Takes ci oid g (as_scalar v) in
        let mid = unindex_eq ci oid g (as_scalar v) in
        let b = unindex_unique-Frees mid oid g (as_scalar v) in
        rw (unindex_field, m)
          (record {
            kept = Frame-trans ci mid (unindex_unique mid oid g (as_scalar v)) a.kept b.kept;
            posts = λ f k n h. b.posts f k n ∙ rw (a.posts f k n h) (ground arith);
            owners = λ f w n h.
                b.owners f w n (a.kept.maps f ∙ h)
                ∙ rw (same_owners ci mid f w n a.uniques) (ground arith);
          })
  ]

  pub index_row-Indexed :
      (ci : ClassIndexes K B) (oid : ℕ) (row : Row K)
      → Indexed ci (index_row ci oid row) (hits ci.list_fields row) (claims ci.list_fields row) oid
  unfolding index_row
  index_row-Indexed ci oid [] = record {
    kept = Frame-refl ci;
    posts = λ f k n h. refl;
    owners = λ f w n h. refl;
  }
  index_row-Indexed ci oid ((g, v) ∷ row) =
      let mid = index_field ci oid g v in
      let a = index_field-Indexed ci oid g v in
      let b = index_row-Indexed mid oid row in
      record {
        kept = Frame-trans ci mid (index_row mid oid row) a.kept b.kept;
        posts = λ f k n h.
            b.posts f k n (a.kept.cols f ∙ h) ∙ rw (a.posts f k n h, a.kept.lists) (ground arith);
        owners = λ f w n h.
            b.owners f w n (a.kept.maps f ∙ h) ∙ rw (a.owners f w n h, a.kept.lists) (ground arith);
      }

  pub unindex-Unindexed :
      (ci : ClassIndexes K B) (oid : ℕ) (row : Row K)
      → Unindexed ci (unindex ci oid row) (hits ci.list_fields row) (claims ci.list_fields row) oid
  unfolding unindex
  unindex-Unindexed ci oid [] = record {
    kept = Frame-refl ci;
    posts = λ f k n h. ground arith;
    owners = λ f w n h. ground arith;
  }
  unindex-Unindexed ci oid ((g, v) ∷ row) =
      let mid = unindex_field ci oid g v in
      let a = unindex_field-Unindexed ci oid g v in
      let b = unindex-Unindexed mid oid row in
      record {
        kept = Frame-trans ci mid (unindex mid oid row) a.kept b.kept;
        posts = λ f k n h.
            b.posts f k n (a.kept.cols f ∙ h) ∙ rw (a.posts f k n h, a.kept.lists) (ground arith);
        owners = λ f w n h.
            b.owners f w n (a.kept.maps f ∙ h) ∙ rw (a.owners f w n h, a.kept.lists) (ground arith);
      }
