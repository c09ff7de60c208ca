-- ===== src/Query/Mirror.antt =====
-- The postings and the unique maps against the memory of the rows.
use datacrystal.Base.{
  ℕ, String, List, [], contains, Option, none, some, Bool, true, false, not, ◌==◌, ◌&&◌,
  if◌then◌else◌, ◌≡◌, refl, ◌∙◌, sym, nat_eq, string_eq,
}
use datacrystal.Base.Dict
use datacrystal.Base.Dict.{Dict, get-put, get-remove}
use datacrystal.Query.Bitmap.{BitMap64}
use datacrystal.Query.ClassIndexes.{ClassIndexes, Row}
use datacrystal.Query.Keys.{Keys, key_eq}
use datacrystal.Query.Postings.{posted}
use datacrystal.Query.Owners.{owns}
use datacrystal.Query.Rows.{hits, claims}

module _ {K : Type 0} ⦃o : Keys K⦄ (lists : List String) where
  -- The keys and the unique values of the row of an id, if it has one.
  abbrev pub keyed_by : Option (Row K) → String → Option K → Bool
  keyed_by none f k = false
  keyed_by (some row) f k = hits lists row f k

  abbrev pub claimed_by : Option (Row K) → String → K → Bool
  claimed_by none f w = false
  claimed_by (some row) f w = claims lists row f w

abbrev pub present : {A : Type 0} → Option A → Bool
present none = false
present (some a) = true

module _ {K B : Type 0} ⦃o : Keys K⦄ ⦃bm : BitMap64 B⦄ where
  -- The indexes say of each id what its remembered row says.
  pub record Mirrors (ci : ClassIndexes K B) : Type 0 where
    pub within : (n : ℕ) → bm.mem ci.extent n ≡ present (Dict.get ci.last_values n)
    pub posts :
        (f : String) (k : Option K) (n : ℕ)
        → Dict.has ci.eq f ≡ true
        → posted ci f k n ≡ keyed_by ci.list_fields (Dict.get ci.last_values n) f k
    pub owners :
        (f : String) (w : K) (n : ℕ)
        → Dict.has ci.unique f ≡ true
        → owns ci f w n ≡ claimed_by ci.list_fields (Dict.get ci.last_values n) f w

  -- The same in the middle of a commit: an id that the commit deletes may have lost a unique value already.
  pub record Halfway (gone : List ℕ) (ci : ClassIndexes K B) : Type 0 where
    pub within : (n : ℕ) → bm.mem ci.extent n ≡ present (Dict.get ci.last_values n)
    pub posts :
        (f : String) (k : Option K) (n : ℕ)
        → Dict.has ci.eq f ≡ true
        → posted ci f k n ≡ keyed_by ci.list_fields (Dict.get ci.last_values n) f k
    pub owners :
        (f : String) (w : K) (n : ℕ)
        → Dict.has ci.unique f ≡ true
        → contains gone n ≡ false
        → owns ci f w n ≡ claimed_by ci.list_fields (Dict.get ci.last_values n) f w
    pub stale :
        (f : String) (w : K) (n : ℕ)
        → Dict.has ci.unique f ≡ true
        → owns ci f w n ≡ true
        → claimed_by ci.list_fields (Dict.get ci.last_values n) f w ≡ true

  -- No other id that stays has one of the unique values of a row.
  abbrev pub FreeBut : List ℕ → ClassIndexes K B → ℕ → Row K → Type 0
  FreeBut gone ci oid row =
      (f : String) (w : K) (n : ℕ)
      → Dict.has ci.unique f ≡ true
      → claims ci.list_fields row f w ≡ true
      → owns ci f w n ≡ true
      → contains gone n ≡ false
      → oid ≡ n

  -- No other id has one of the unique values of a row.
  abbrev pub Free : ClassIndexes K B → ℕ → Row K → Type 0
  Free ci oid row =
      (f : String) (w : K) (n : ℕ)
      → Dict.has ci.unique f ≡ true
      → claims ci.list_fields row f w ≡ true
      → owns ci f w n ≡ true
      → oid ≡ n

  -- Nothing is left of an id but its place in the extent.
  pub record Cleared (ci ci' : ClassIndexes K B) (oid : ℕ) : Type 0 where
    pub cols : (f : String) → Dict.has ci'.eq f ≡ Dict.has ci.eq f
    pub maps : (f : String) → Dict.has ci'.unique f ≡ Dict.has ci.unique f
    pub lists : ci'.list_fields ≡ ci.list_fields
    pub extent : ci'.extent ≡ ci.extent
    pub memory :
        (n : ℕ)
        → Dict.get ci'.last_values n ≡ (if oid == n then none else Dict.get ci.last_values n)
    pub posts :
        (f : String) (k : Option K) (n : ℕ)
        → Dict.has ci.eq f ≡ true
        → posted ci' f k n ≡ (not (oid == n) && posted ci f k n)
    pub owners :
        (f : String) (w : K) (n : ℕ)
        → Dict.has ci.unique f ≡ true
        → owns ci' f w n ≡ (not (oid == n) && owns ci f w n)

  pub Mirrors-Halfway : (gone : List ℕ) (ci : ClassIndexes K B) → Mirrors ci → Halfway gone ci
  Mirrors-Halfway gone ci m = record {
    within = m.within;
    posts = m.posts;
    owners = λ f w n h g. m.owners f w n h;
    stale = λ f w n h p. sym (m.owners f w n h) ∙ p;
  }

  pub Halfway-Mirrors : (ci : ClassIndexes K B) → Halfway [] ci → Mirrors ci
  Halfway-Mirrors ci m = record {
    within = m.within;
    posts = m.posts;
    owners = λ f w n h. m.owners f w n h refl;
  }
