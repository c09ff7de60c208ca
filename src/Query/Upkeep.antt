-- ===== src/Query/Upkeep.antt =====
-- `insert` and `remove` keep the shape of the columns, the unique maps and the runs.
use datacrystal.Base.{
  ℕ, String, [], ◌∷◌, Option, none, some, Bool-cases, Option-cases, inl, inr, true, ◌==◌, contains,
  ◌≡◌, refl, nat_eq, string_eq, option_eq,
}
use mathlib.Core.Path.{subst}
use datacrystal.Base.Dict
use datacrystal.Base.Dict.{Dict, get-put, get_of_has, has-eq-get}
use datacrystal.Query.Bitmap.{BitMap64}
use datacrystal.Query.ClassIndexes.{
  ClassIndexes, Row, as_list, as_scalar, release, index_eq, index_unique, index_scalar_field,
  index_field, index_row, unindex_eq, unindex_unique, unindex_field, unindex, forget, insert,
  remove,
}
use datacrystal.Query.Keys.{Keys, key_eq}
use datacrystal.Query.Plan.{column, holders_of, run_of}
use datacrystal.Query.Tidy.{distinct, distinct-put, Tidy, release-distinct}
use datacrystal.Query.Columns.{
  index_list_field-Tidy, unindex_list_field-Tidy, unindex_eq-Tidy, index_eq-Tidy,
}

module _ {K B : Type 0} ⦃o : Keys K⦄ ⦃bm : BitMap64 B⦄ where
  set_holders-Tidy :
      (ci : ClassIndexes K B) (g : String) (holders : Dict K ℕ)
      → distinct holders ≡ true
      → Tidy ci
      → Tidy (record ci { unique = Dict.put ci.unique g holders })
  unfolding holders_of column run_of
  set_holders-Tidy ci g holders d t = record {
    live = t.live;
    cols = t.cols;
    maps = λ f.
        rw (holders_of, get-put ci.unique g f holders)
          (elim (Bool-cases (g == f)) [ inl y ↦ rw y d | inr n ↦ rw n (t.maps f) ]);
    apart = t.apart;
    carried = t.carried;
    runs = t.runs;
  }

  holders_distinct :
      (ci : ClassIndexes K B) (g : String) (holders : Dict K ℕ)
      → Tidy ci
      → Dict.get ci.unique g ≡ some holders
      → distinct holders ≡ true
  unfolding holders_of
  holders_distinct ci g holders t e =
      let same : holders_of ci g ≡ holders = rw (holders_of, e) refl in
      subst (λ h. distinct h ≡ true) same (t.maps g)

  index_unique-Tidy :
      (ci : ClassIndexes K B) (oid : ℕ) (g : String) (v : Option K)
      → Tidy ci
      → Tidy (index_unique ci oid g v)
  unfolding index_unique
  index_unique-Tidy ci oid g none t = t
  index_unique-Tidy ci oid g (some v) t = elim (Option-cases (Dict.get ci.unique g)) [
    | inl e ↦ rw (index_unique, e) t
    | inr (holders, e) ↦
        rw (index_unique, e)
          (set_holders-Tidy ci g (Dict.put holders v oid)
            (distinct-put holders v oid (holders_distinct ci g holders t e)) t)
  ]

  unindex_unique-Tidy :
      (ci : ClassIndexes K B) (oid : ℕ) (g : String) (v : Option K)
      → Tidy ci
      → Tidy (unindex_unique ci oid g v)
  unfolding unindex_unique
  unindex_unique-Tidy ci oid g none t = t
  unindex_unique-Tidy ci oid g (some v) t = elim (Option-cases (Dict.get ci.unique g)) [
    | inl e ↦ rw (unindex_unique, e) t
    | inr (holders, e) ↦
        rw (unindex_unique, e)
          (set_holders-Tidy ci g (release holders v oid)
            (release-distinct holders v oid (holders_distinct ci g holders t e)) t)
  ]

  index_row-Tidy :
      (ci : ClassIndexes K B) (oid : ℕ) (row : Row K) → Tidy ci → Tidy (index_row ci oid row)
  unfolding index_row index_field index_scalar_field
  index_row-Tidy ci oid [] t = t
  index_row-Tidy ci oid ((g, v) ∷ row) t =
      index_row-Tidy (index_field ci oid g v) oid row
        (elim (Bool-cases (contains ci.list_fields g)) [
          | inl y ↦ rw (index_field, y) (index_list_field-Tidy ci oid g (as_list v) y t)
          | inr n ↦
              rw (index_field, n)
                (index_unique-Tidy (index_eq ci oid g (as_scalar v)) oid g (as_scalar v)
                  (index_eq-Tidy ci oid g (as_scalar v) t))
        ])

  unindex-Tidy :
      (ci : ClassIndexes K B) (oid : ℕ) (row : Row K) → Tidy ci → Tidy (unindex ci oid row)
  unfolding unindex unindex_field
  unindex-Tidy ci oid [] t = t
  unindex-Tidy ci oid ((g, v) ∷ row) t =
      unindex-Tidy (unindex_field ci oid g v) oid row
        (elim (Bool-cases (contains ci.list_fields g)) [
          | inl y ↦ rw (unindex_field, y) (unindex_list_field-Tidy ci oid g (as_list v) y t)
          | inr n ↦
              rw (unindex_field, n)
                (unindex_unique-Tidy (unindex_eq ci oid g (as_scalar v)) oid g (as_scalar v)
                  (unindex_eq-Tidy ci oid g (as_scalar v) t))
        ])

  -- The extent and the memory are no part of the shape.
  aside-Tidy :
      (ci : ClassIndexes K B) (extent : B) (memory : Dict ℕ (Row K))
      → Tidy ci
      → Tidy (record ci { extent = extent; last_values = memory })
  unfolding column holders_of run_of
  aside-Tidy ci extent memory t = record {
    live = t.live;
    cols = t.cols;
    maps = t.maps;
    apart = t.apart;
    carried = t.carried;
    runs = t.runs;
  }

  forget-Tidy : (ci : ClassIndexes K B) (oid : ℕ) → Tidy ci → Tidy (forget ci oid)
  unfolding forget
  forget-Tidy ci oid t = elim (Option-cases (Dict.get ci.last_values oid)) [
    | inl e ↦ rw (forget, e) t
    | inr (old, e) ↦
        rw (forget, e)
          (unindex-Tidy (record ci { last_values = Dict.remove ci.last_values oid }) oid old
            (aside-Tidy ci ci.extent (Dict.remove ci.last_values oid) t))
  ]

  pub remove-Tidy : (ci : ClassIndexes K B) (oid : ℕ) → Tidy ci → Tidy (remove ci oid)
  unfolding remove
  remove-Tidy ci oid t =
      aside-Tidy (forget ci oid) (bm.discard (forget ci oid).extent oid) (forget ci oid).last_values
        (forget-Tidy ci oid t)

  -- `insert` outside a bulk build keeps each sorted run in order, with exactly the keys of its column that are not
  -- `None`, and leaves no key twice in a column or in a unique map.
  pub insert-Tidy :
      (ci : ClassIndexes K B) (oid : ℕ) (row : Row K) → Tidy ci → Tidy (insert ci oid row)
  unfolding insert
  insert-Tidy ci oid row t =
      let mid = record (forget ci oid) { extent = bm.add (forget ci oid).extent oid } in
      let done = index_row mid oid row in
      aside-Tidy done done.extent (Dict.put done.last_values oid row) (
        index_row-Tidy mid oid row
          (aside-Tidy (forget ci oid) mid.extent mid.last_values (forget-Tidy ci oid t)))
