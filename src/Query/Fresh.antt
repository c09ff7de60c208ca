-- ===== src/Query/Fresh.antt =====
-- New indexes, and the object of an id whose row the indexes remember.
use datacrystal.Base.{
  ℕ, String, List, [], ◌∷◌, Option, none, some, Bool-cases, inl, inr, true, false, ◌==◌, ==_iff,
  ◌&&◌, contains, map, ◌≡◌, refl, ◌∙◌, arith, nat_eq, string_eq, option_eq, option_beq, ◌⊎◌,
}
use datacrystal.Base.Dict
use datacrystal.Base.Dict.{Dict}
use datacrystal.Query.Bitmap.{BitMap64}
use datacrystal.Query.ClassIndexes.{ClassIndexes, Row, as_list, as_scalar, posting_of, new_indexes}
use datacrystal.Query.Condition.{Value, scalar, many}
use datacrystal.Query.Keys.{Keys, key_eq}
use datacrystal.Query.Frame.{keyed}
use datacrystal.Query.Mirror.{Mirrors}
use datacrystal.Query.Owners.{owns}
use datacrystal.Query.Plan.{column, holders_of, run_of}
use datacrystal.Query.Postings.{posted}
use datacrystal.Query.Rows.{hits, claims, holds}
use datacrystal.Query.Sound.{Shown}
use datacrystal.Query.Tidy.{Tidy}

module _ {A : Type 0} where
  -- An empty value for each field.
  abbrev empties : List String → Dict String (List A)
  empties = map (λ f. (f, []))

  empties-get :
      (fields : List String) (f : String)
      → (elim (Dict.get (empties fields) f) as (λ x. List A) [ none ↦ [] | some x ↦ x ]) ≡ []
  unfolding Dict.get
  empties-get [] f = refl
  empties-get (g ∷ fields) f = elim (Bool-cases (g == f)) [
    | inl y ↦ rw (Dict.get, y) refl
    | inr n ↦ rw (Dict.get, n) (empties-get fields f)
  ]

module _ (A : Type 0) where
  empties-has :
      (fields : List String) (f : String) → Dict.has (empties {A = A} fields) f ≡ contains fields f
  unfolding Dict.has
  empties-has [] f = refl
  empties-has (g ∷ fields) f = rw (empties-has fields f) refl

-- The values of the maintained fields of an object.
abbrev pub project : {K : Type 0} → List String → (String → Value K) → Row K
project fields obj = map (λ f. (f, obj f)) fields

module _ {K : Type 0} ⦃o : Keys K⦄ (lists : List String) (obj : String → Value K) where
  hits-project :
      (fields : List String) (f : String) (k : Option K)
      → hits lists (project fields obj) f k ≡ (contains fields f && keyed lists f (obj f) k)
  hits-project [] f k = refl
  hits-project (g ∷ fields) f k = rw (hits-project fields f k) (elim (Bool-cases (g == f)) [
    | inl y ↦ rw (y, (==_iff g f).0 y) (ground arith)
    | inr n ↦ rw n refl
  ])

  claims-project :
      (fields : List String) (f : String) (w : K)
      → claims lists (project fields obj) f w ≡ (contains fields f && holds lists f (obj f) w)
  claims-project [] f w = refl
  claims-project (g ∷ fields) f w = rw (claims-project fields f w) (elim (Bool-cases (g == f)) [
    | inl y ↦ rw (y, (==_iff g f).0 y) (ground arith)
    | inr n ↦ rw n refl
  ])

module _ {K : Type 0} (B : Type 0) ⦃o : Keys K⦄ ⦃bm : BitMap64 B⦄
    (indexed unique lists sorteds : List String) where
  abbrev fresh : ClassIndexes K B
  fresh = new_indexes indexed unique lists sorteds

  fresh_column : (f : String) → column fresh f ≡ []
  unfolding column new_indexes
  fresh_column f = empties-get indexed f

  fresh_holders : (f : String) → holders_of fresh f ≡ []
  unfolding holders_of new_indexes
  fresh_holders f = empties-get unique f

  fresh_run : (f : String) → run_of fresh f ≡ []
  unfolding run_of new_indexes
  fresh_run f = empties-get sorteds f

  -- New indexes mirror an empty memory.
  pub new_indexes-Mirrors : Mirrors fresh
  unfolding new_indexes posting_of option_beq Dict.get
  new_indexes-Mirrors = record {
    within = λ n. bm.mem_empty n;
    posts = λ f k n h. rw (posted, fresh_column f) (bm.mem_empty n);
    owners = λ f w n h. rw (owns, fresh_holders f) refl;
  }

  pub new_indexes-Tidy :
      ((f : String) → contains sorteds f ≡ true → contains lists f ≡ false) → Tidy fresh
  unfolding new_indexes Dict.has
  new_indexes-Tidy apart = record {
    live = refl;
    cols = λ f. rw (fresh_column f) refl;
    maps = λ f. rw (fresh_holders f) refl;
    apart = apart;
    carried = λ f s. empties-has K sorteds f ∙ s;
    runs = λ f s. rw (fresh_run f, fresh_column f) (record { sorted = tt; members = λ k. refl });
  }

module _ {K B : Type 0} ⦃o : Keys K⦄ ⦃bm : BitMap64 B⦄ where
  -- The object behind a remembered row: a list in the list fields, a scalar in the others.
  pub project-Shown :
      (ci : ClassIndexes K B) (n : ℕ) (obj : String → Value K) (fields : List String)
      → Mirrors ci
      → Dict.get ci.last_values n ≡ some (project fields obj)
      → ((f : String) → Dict.has ci.eq f ≡ true → contains fields f ≡ true)
      → ((f : String)
          → Dict.has ci.unique f ≡ true
          → (contains fields f ≡ true) × (contains ci.list_fields f ≡ false))
      → ((f : String) → contains ci.list_fields f ≡ false → obj f ≡ scalar (as_scalar (obj f)))
      → ((f : String)
          → contains ci.list_fields f ≡ true
          → (obj f ≡ many (as_list (obj f))) ⊎ (obj f ≡ scalar none))
      → Shown ci n obj
  project-Shown ci n obj fields m e cover cover_unique scalars lists = record {
    posts = λ f k h.
        m.posts f k n h ∙ rw e (hits-project ci.list_fields obj fields f k ∙ rw (cover f h) refl);
    owners = λ f w h.
        m.owners f w n h
        ∙ rw e (claims-project ci.list_fields obj fields f w ∙ rw ((cover_unique f h).0) refl);
    scalars = scalars;
    lists = lists;
    single_valued = λ f h. (cover_unique f h).1;
  }
