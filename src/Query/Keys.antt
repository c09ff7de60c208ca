-- ===== src/Query/Keys.antt =====
-- The values of an indexed field: hashable scalars with Python's `==` and `<=`, and its tests on `str`.
use datacrystal.Base.{Bool, true, not, ◌≡◌, ◌||◌, Eq}

-- The keys of one field, taken to be mutually orderable. `_guard_temporal_comparable` refuses a mix of naive and
-- aware datetimes and a `Decimal` NaN; a `float` NaN, or a field that mixes types, passes it and is outside
-- of this model, as are the errors that `_sorted_run` raises on keys that cannot be sorted.
pub record Keys (K : Type 0) : Type 0 where
  pub equal : Eq K
  pub le : K → K → Bool
  pub le_total : (a b : K) → (le a b || le b a) ≡ true
  pub le_trans : (a b c : K) → le a b ≡ true → le b c ≡ true → le a c ≡ true
  pub le_antisymm : (a b : K) → le a b ≡ true → le b a ≡ true → a ≡ b
  -- `needle in key` and `key.startswith(needle)`, false where the key is no `str`
  pub substring : (needle key : K) → Bool
  pub prefix : (needle key : K) → Bool

-- Python's `a < b` on them.
abbrev pub lt : {K : Type 0} ⦃o : Keys K⦄ → K → K → Bool
lt ⦃o⦄ a b = not (o.le b a)

instance abbrev pub key_eq : {K : Type 0} ⦃o : Keys K⦄ → Eq K
key_eq ⦃o⦄ = o.equal
