-- ===== src/Query/Unique.antt =====
-- `IndexManager.check_unique`, `apply` and `apply_deletes`, for the entries of one class whose indexes are
-- built.
use datacrystal.Base.{
  ℕ, String, List, [], ◌∷◌, Option, none, some, Bool, false, not, ◌==◌, ◌&&◌, contains,
  if◌then◌else◌, nat_eq, string_eq,
}
use datacrystal.Base.Dict
use datacrystal.Base.Dict.{Dict}
use datacrystal.Errors.{Result, ok, require, unique_violation, ◌>>=◌, ◌>>◌}
use datacrystal.Query.Bitmap.{BitMap64}
use datacrystal.Query.ClassIndexes.{ClassIndexes, Row, as_scalar, insert, remove}
use datacrystal.Query.Keys.{Keys, key_eq}
use datacrystal.Query.Plan.{holders_of}

-- `seen`: the unique values that the entries so far set, the latest first.
abbrev pub Seen : Type 0 → Type 0
Seen K = List (String × K × ℕ)

-- `holder is not None and holder != oid`
abbrev pub taken : Option ℕ → ℕ → Bool
taken none oid = false
taken (some holder) oid = not (holder == oid)

module _ {K : Type 0} ⦃o : Keys K⦄ where
  -- `seen.get(key)`
  unfoldable pub prior : Seen K → String → K → Option ℕ
  prior [] f w = none
  prior ((g, v, oid) ∷ seen) f w =
      let rest = prior seen f w in if g == f && v == w then some oid else rest

-- `values.get(field)`
unfoldable pub value_of : {K : Type 0} → Row K → String → Option K
value_of row f = elim (Dict.get row f) [ none ↦ none | some v ↦ as_scalar v ]

module _ {K B : Type 0} ⦃o : Keys K⦄ ⦃bm : BitMap64 B⦄ where
  -- The holder of a value, unless the commit deletes it.
  unfoldable pub existing_holder : ClassIndexes K B → List ℕ → String → K → Option ℕ
  existing_holder ci deleted field v = elim (Dict.get (holders_of ci field) v) [
    | none ↦ none
    | some holder ↦ if contains deleted holder then none else some holder
  ]

  unfoldable pub check_value :
      ClassIndexes K B → List ℕ → ℕ → String → Option K → Seen K → Result (Seen K)
  unfolding existing_holder prior
  check_value ci deleted oid field none seen = ok seen
  check_value ci deleted oid field (some v) seen = do
    require (not (taken (existing_holder ci deleted field v) oid)) unique_violation
    require (not (taken (prior seen field v) oid)) unique_violation
    ok ((field, v, oid) ∷ seen)

  unfoldable pub check_fields :
      ClassIndexes K B → List ℕ → ℕ → Row K → List String → Seen K → Result (Seen K)
  unfolding check_value value_of
  check_fields ci deleted oid row [] seen = ok seen
  check_fields ci deleted oid row (field ∷ fields) seen = do
    now ← check_value ci deleted oid field (value_of row field) seen
    check_fields ci deleted oid row fields now

  unfoldable pub check_entries :
      ClassIndexes K B → List ℕ → List (ℕ × Row K) → Seen K → Result (Seen K)
  unfolding check_fields
  check_entries ci deleted [] seen = ok seen
  check_entries ci deleted ((oid, row) ∷ entries) seen = do
    now ← check_fields ci deleted oid row (Dict.keys ci.unique) seen
    check_entries ci deleted entries now

  unfoldable pub check_unique : ClassIndexes K B → List (ℕ × Row K) → List ℕ → Result (Unit {0})
  unfolding check_entries
  check_unique ci entries deleted = do seen ← check_entries ci deleted entries []; ok tt

  -- `apply` and `apply_deletes`
  unfoldable pub apply_entries : ClassIndexes K B → List (ℕ × Row K) → ClassIndexes K B
  unfolding insert
  apply_entries ci [] = ci
  apply_entries ci ((oid, row) ∷ entries) = apply_entries (insert ci oid row) entries

  unfoldable pub apply_deletes : ClassIndexes K B → List ℕ → ClassIndexes K B
  unfolding remove
  apply_deletes ci [] = ci
  apply_deletes ci (oid ∷ deletes) = apply_deletes (remove ci oid) deletes
