-- ===== src/Query/Frame.antt =====
-- One field at a time: what indexing and un-indexing it does to the postings, and what it leaves alone.
use datacrystal.Base.{
  ℕ, String, List, Option, none, some, Bool, Bool-cases, Option-cases, inl, inr, true, false, not,
  ◌==◌, ==_iff, ◌&&◌, ◌||◌, contains, if◌then◌else◌, ◌≡◌, refl, ◌∙◌, sym, arith, nat_eq, string_eq,
  option_eq,
}
use mathlib.Core.Path.{subst}
use datacrystal.Base.Dict
use datacrystal.Base.Dict.{Dict, get-put, has-put, get_of_has, has-eq-get}
use datacrystal.Query.Bitmap.{BitMap64}
use datacrystal.Query.ClassIndexes.{
  ClassIndexes, Postings, posting_of, as_list, as_scalar, post, unpost, post_all, unpost_all,
  runs_after, index_list_field, index_eq, unindex_list_field, unindex_eq,
}
use datacrystal.Query.Condition.{Value}
use datacrystal.Query.Keys.{Keys, key_eq}
use datacrystal.Query.Plan.{column}
use datacrystal.Query.Postings.{posted, mem-post, mem-unpost, mem-post_all, mem-unpost_all}

module _ {V : Type 0} (d : Dict String V) (g f : String) where
  -- A write to a key that is there adds no key.
  pub has-put-found : (v w : V) → Dict.get d g ≡ some w → Dict.has (Dict.put d g v) f ≡ Dict.has d f
  has-put-found v w e = has-put d g f v ∙ elim (Bool-cases (g == f)) [
    | inl y ↦
        rw y (sym (has-eq-get d f w (subst (λ g. Dict.get d g ≡ some w) ((==_iff g f).0 y) e)))
    | inr n ↦ rw n refl
  ]

  pub absent : Dict.get d g ≡ none → Dict.has d f ≡ true → (g == f) ≡ false
  absent e h = elim (Bool-cases (g == f)) [
    | inr n ↦ n
    | inl y ↦
        let (v, q) = get_of_has d f h in
        absurd (cc (subst (λ g. Dict.get d g ≡ none) ((==_iff g f).0 y) e, q))
  ]

-- The keys under which a value of a field stands.
abbrev pub keyed : {K : Type 0} ⦃o : Keys K⦄ → List String → String → Value K → Option K → Bool
keyed lists f v k = if contains lists f then contains (as_list v) k else (as_scalar v == k)

module _ {K B : Type 0} ⦃o : Keys K⦄ ⦃bm : BitMap64 B⦄ where
  -- What the loops over the fields leave alone.
  pub record Frame (ci ci' : ClassIndexes K B) : Type 0 where
    pub cols : (f : String) → Dict.has ci'.eq f ≡ Dict.has ci.eq f
    pub maps : (f : String) → Dict.has ci'.unique f ≡ Dict.has ci.unique f
    pub lists : ci'.list_fields ≡ ci.list_fields
    pub sorteds : ci'.sorted_fields ≡ ci.sorted_fields
    pub extent : ci'.extent ≡ ci.extent
    pub memory : ci'.last_values ≡ ci.last_values

  pub Frame-refl : (ci : ClassIndexes K B) → Frame ci ci
  Frame-refl ci = record {
    cols = λ f. refl;
    maps = λ f. refl;
    lists = refl;
    sorteds = refl;
    extent = refl;
    memory = refl;
  }

  pub Frame-trans : (a b c : ClassIndexes K B) → Frame a b → Frame b c → Frame a c
  Frame-trans a b c p q = record {
    cols = λ f. q.cols f ∙ p.cols f;
    maps = λ f. q.maps f ∙ p.maps f;
    lists = q.lists ∙ p.lists;
    sorteds = q.sorteds ∙ p.sorteds;
    extent = q.extent ∙ p.extent;
    memory = q.memory ∙ p.memory;
  }

  -- The postings after a column is replaced.
  posted-set :
      (ci : ClassIndexes K B) (runs : Dict String (List K)) (g f : String) (col : Postings K B)
      (k : Option K) (n : ℕ)
      → posted (record ci { eq = Dict.put ci.eq g col; sorted_keys = runs }) f k n
        ≡ (if g == f then bm.mem (posting_of col k) n else posted ci f k n)
  unfolding column
  posted-set ci runs g f col k n = rw (posted, column, get-put ci.eq g f col) (ground arith)

  posted-found :
      (ci : ClassIndexes K B) (g f : String) (col : Postings K B) (k : Option K) (n : ℕ)
      → Dict.get ci.eq g ≡ some col
      → (g == f) ≡ true
      → posted ci f k n ≡ bm.mem (posting_of col k) n
  unfolding column
  posted-found ci g f col k n e y =
      subst (λ f. posted ci f k n ≡ bm.mem (posting_of col k) n) ((==_iff g f).0 y)
        (rw (posted, column, e) refl)

  -- Keys that are added to, and taken from, the posting of an id in one field.
  pub record Adds (ci ci' : ClassIndexes K B) (g : String) (P : Option K → Bool) (oid : ℕ)
      : Type 0 where
    pub kept : Frame ci ci'
    pub uniques : ci'.unique ≡ ci.unique
    pub posts :
        (f : String) (k : Option K) (n : ℕ)
        → Dict.has ci.eq f ≡ true
        → posted ci' f k n ≡ ((g == f && (P k && oid == n)) || posted ci f k n)

  pub record Takes (ci ci' : ClassIndexes K B) (g : String) (P : Option K → Bool) (oid : ℕ)
      : Type 0 where
    pub kept : Frame ci ci'
    pub uniques : ci'.unique ≡ ci.unique
    pub posts :
        (f : String) (k : Option K) (n : ℕ)
        → Dict.has ci.eq f ≡ true
        → posted ci' f k n ≡ (not (g == f && (P k && oid == n)) && posted ci f k n)

  module _ (ci : ClassIndexes K B) (runs : Dict String (List K)) (g : String)
      (col col' : Postings K B) (P : Option K → Bool) (oid : ℕ)
      (found : Dict.get ci.eq g ≡ some col) where
    set-Frame : Frame ci (record ci { eq = Dict.put ci.eq g col'; sorted_keys = runs })
    set-Frame = record {
      cols = λ f. has-put-found ci.eq g f col' col found;
      maps = λ f. refl;
      lists = refl;
      sorteds = refl;
      extent = refl;
      memory = refl;
    }

    set-Adds :
        ((k : Option K) (n : ℕ)
          → bm.mem (posting_of col' k) n ≡ ((P k && oid == n) || bm.mem (posting_of col k) n))
        → Adds ci (record ci { eq = Dict.put ci.eq g col'; sorted_keys = runs }) g P oid
    set-Adds step = record {
      kept = set-Frame;
      uniques = refl;
      posts = λ f k n h. posted-set ci runs g f col' k n ∙ elim (Bool-cases (g == f)) [
        | inl y ↦ rw (y, step k n, posted-found ci g f col k n found y) refl
        | inr m ↦ rw m refl
      ];
    }

    set-Takes :
        ((k : Option K) (n : ℕ)
          → bm.mem (posting_of col' k) n ≡ (not (P k && oid == n) && bm.mem (posting_of col k) n))
        → Takes ci (record ci { eq = Dict.put ci.eq g col'; sorted_keys = runs }) g P oid
    set-Takes step = record {
      kept = set-Frame;
      uniques = refl;
      posts = λ f k n h. posted-set ci runs g f col' k n ∙ elim (Bool-cases (g == f)) [
        | inl y ↦ rw (y, step k n, posted-found ci g f col k n found y) refl
        | inr m ↦ rw m refl
      ];
    }

  -- A field without a column.
  none-Adds :
      (ci : ClassIndexes K B) (g : String) (P : Option K → Bool) (oid : ℕ)
      → Dict.get ci.eq g ≡ none
      → Adds ci ci g P oid
  none-Adds ci g P oid e = record {
    kept = Frame-refl ci;
    uniques = refl;
    posts = λ f k n h. rw (absent ci.eq g f e h) refl;
  }

  none-Takes :
      (ci : ClassIndexes K B) (g : String) (P : Option K → Bool) (oid : ℕ)
      → Dict.get ci.eq g ≡ none
      → Takes ci ci g P oid
  none-Takes ci g P oid e = record {
    kept = Frame-refl ci;
    uniques = refl;
    posts = λ f k n h. rw (absent ci.eq g f e h) refl;
  }

  pub index_list_field-Adds :
      (ci : ClassIndexes K B) (oid : ℕ) (g : String) (keys : List (Option K))
      → Adds ci (index_list_field ci oid g keys) g (contains keys) oid
  unfolding index_list_field
  index_list_field-Adds ci oid g keys = elim (Option-cases (Dict.get ci.eq g)) [
    | inl e ↦ rw (index_list_field, e) (none-Adds ci g (contains keys) oid e)
    | inr (col, e) ↦
        rw (index_list_field, e)
          (set-Adds ci ci.sorted_keys g col (post_all col keys oid) (contains keys) oid e
            (λ k n. mem-post_all col keys k oid n))
  ]

  pub unindex_list_field-Takes :
      (ci : ClassIndexes K B) (oid : ℕ) (g : String) (keys : List (Option K))
      → Takes ci (unindex_list_field ci oid g keys) g (contains keys) oid
  unfolding unindex_list_field
  unindex_list_field-Takes ci oid g keys = elim (Option-cases (Dict.get ci.eq g)) [
    | inl e ↦ rw (unindex_list_field, e) (none-Takes ci g (contains keys) oid e)
    | inr (col, e) ↦
        rw (unindex_list_field, e)
          (set-Takes ci ci.sorted_keys g col (unpost_all col keys oid) (contains keys) oid e
            (λ k n. mem-unpost_all col keys k oid n))
  ]

  pub index_eq-Adds :
      (ci : ClassIndexes K B) (oid : ℕ) (g : String) (v : Option K)
      → Adds ci (index_eq ci oid g v) g (λ k. v == k) oid
  unfolding index_eq
  index_eq-Adds ci oid g v = elim (Option-cases (Dict.get ci.eq g)) [
    | inl e ↦ rw (index_eq, e) (none-Adds ci g (λ k. v == k) oid e)
    | inr (col, e) ↦
        rw (index_eq, e)
          (set-Adds ci (runs_after ci g col v) g col (post col v oid) (λ k. v == k) oid e
            (λ k n. mem-post col v k oid n))
  ]

  pub unindex_eq-Takes :
      (ci : ClassIndexes K B) (oid : ℕ) (g : String) (v : Option K)
      → Takes ci (unindex_eq ci oid g v) g (λ k. v == k) oid
  unfolding unindex_eq
  unindex_eq-Takes ci oid g v = elim (Option-cases (Dict.get ci.eq g)) [
    | inl e ↦ rw (unindex_eq, e) (none-Takes ci g (λ k. v == k) oid e)
    | inr (col, e) ↦
        rw (unindex_eq, e)
          (set-Takes ci ci.sorted_keys g col (unpost col v oid) (λ k. v == k) oid e
            (λ k n. mem-unpost col v k oid n))
  ]
