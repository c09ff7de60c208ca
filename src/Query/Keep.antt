-- ===== src/Query/Keep.antt =====
-- `insert` and `remove` keep the indexes in step with the memory of the rows.
use datacrystal.Base.{
  ℕ, String, [], ◌∷◌, true, none, some, ◌==◌, if◌then◌else◌, Bool-cases, inl, inr, ◌≡◌, refl,
  nat_eq, string_eq,
}
use datacrystal.Base.Dict
use datacrystal.Base.Dict.{Dict, get-put, get-remove}
use datacrystal.Query.Bitmap.{BitMap64}
use datacrystal.Query.ClassIndexes.{ClassIndexes, Row, forget, insert, remove}
use datacrystal.Query.Keys.{Keys, key_eq}
use datacrystal.Query.Owners.{owns}
use datacrystal.Query.Rows.{claims, index_row-Indexed}
use datacrystal.Query.Mirror.{Mirrors, Mirrors-Halfway, Halfway-Mirrors}
use datacrystal.Query.Halfway.{forget-Cleared, insert-Halfway, remove-Halfway}

module _ {K B : Type 0} ⦃o : Keys K⦄ ⦃bm : BitMap64 B⦄ where
  -- No other id has one of the unique values of a row.
  abbrev pub Free : ClassIndexes K B → ℕ → Row K → Type 0
  Free ci oid row =
      (f : String) (w : K) (n : ℕ)
      → Dict.has ci.unique f ≡ true
      → claims ci.list_fields row f w ≡ true
      → owns ci f w n ≡ true
      → oid ≡ n

  module _ (ci : ClassIndexes K B) (m : Mirrors ci) (oid : ℕ) where
    removed :
        (k : ℕ)
        → Dict.get (remove ci oid).last_values k
          ≡ (if oid == k then none else Dict.get ci.last_values k)
    unfolding remove
    removed k = (forget-Cleared [] ci (Mirrors-Halfway [] ci m) oid).memory k

    inserted :
        (row : Row K) (k : ℕ)
        → Dict.get (insert ci oid row).last_values k
          ≡ (if oid == k then some row else Dict.get ci.last_values k)
    unfolding insert
    inserted row k =
        let c = forget-Cleared [] ci (Mirrors-Halfway [] ci m) oid in
        let mid = record (forget ci oid) { extent = bm.add (forget ci oid).extent oid } in
        rw
          (
            (index_row-Indexed mid oid row).kept.memory,
            get-put (forget ci oid).last_values oid k row,
            c.memory k,
          )
          (elim (Bool-cases (oid == k)) [ inl y ↦ rw y refl | inr q ↦ rw q refl ])

    -- `remove` forgets the row of its id and no other, and keeps the extent, the postings and the unique maps
    -- equal to what the remembered rows say.
    pub remove-Mirrors :
        Mirrors (remove ci oid)
        × ((k : ℕ)
            → Dict.get (remove ci oid).last_values k
              ≡ (if oid == k then none else Dict.get ci.last_values k))
    remove-Mirrors = (
      Halfway-Mirrors (remove ci oid)
          (remove-Halfway (oid ∷ []) ci (Mirrors-Halfway (oid ∷ []) ci m) oid [] refl),
      removed,
    )

    -- Where no other id holds one of the unique values of the row, `insert` remembers it under its id, keeps every
    -- other remembered row, and keeps the extent, the postings and the unique maps equal to what the remembered
    -- rows say.
    pub insert-Mirrors :
        (row : Row K)
        → Free ci oid row
        → Mirrors (insert ci oid row)
          × ((k : ℕ)
              → Dict.get (insert ci oid row).last_values k
                ≡ (if oid == k then some row else Dict.get ci.last_values k))
    insert-Mirrors row free = (
      Halfway-Mirrors (insert ci oid row) (
          insert-Halfway [] ci (Mirrors-Halfway [] ci m) oid row
            (λ f w n h c p q. free f w n h c p)),
      inserted row,
    )
