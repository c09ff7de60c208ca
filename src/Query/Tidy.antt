-- ===== src/Query/Tidy.antt =====
-- The shape of the columns, the unique maps and the runs, through the loops of `insert` and `remove`.
use datacrystal.Base.{
  ℕ, String, List, [], ◌∷◌, Option, none, some, Bool, Bool-cases, Option-cases, inl, inr, true,
  false, not, ◌==◌, ==_iff, ◌&&◌, contains, Eq, ◌≡◌, refl, ◌∙◌, sym, arith, nat_eq, string_eq,
  option_eq, option_beq,
}
use mathlib.Core.Path.{subst}
use datacrystal.Base.Dict
use datacrystal.Base.Dict.{Dict, get-put, has-put, get-remove, get_of_has, has-eq-get}
use datacrystal.Query.Bitmap.{BitMap64}
use datacrystal.Query.ClassIndexes.{
  ClassIndexes, Postings, insort, post, unpost, post_all, unpost_all, release,
}
use datacrystal.Query.Keys.{Keys, key_eq}
use datacrystal.Query.Plan.{column, holders_of, run_of}
use datacrystal.Query.Runs.{Sorted, contains-insort, insort-Sorted}

module _ {ℓ} {K V : Type ℓ} ⦃e : Eq K⦄ where
  -- No key stands twice in an association list.
  abbrev pub distinct : Dict K V → Bool
  distinct [] = true
  distinct ((k, v) ∷ d) = not (Dict.has d k) && distinct d

  pub distinct-put :
      (d : Dict K V) (k : K) (v : V) → distinct d ≡ true → distinct (Dict.put d k v) ≡ true
  unfolding Dict.put Dict.has
  distinct-put [] k v h = refl
  distinct-put ((j, w) ∷ d) k v h = elim (Bool-cases (j == k)) [
    | inl y ↦ rw (Dict.put, y) h
    | inr n ↦
        rw (Dict.put, n, has-put d k j v, distinct-put d k v (ground arith))
          (ground (arith, n, e.beq_iff k j, e.beq_iff j k))
  ]

  has-remove :
      (d : Dict K V) (k j : K) → Dict.has d j ≡ false → Dict.has (Dict.remove d k) j ≡ false
  unfolding Dict.remove Dict.has
  has-remove [] k j h = refl
  has-remove ((i, w) ∷ d) k j h = ground (arith, has-remove d k j)

  pub distinct-remove :
      (d : Dict K V) (k : K) → distinct d ≡ true → distinct (Dict.remove d k) ≡ true
  unfolding Dict.remove
  distinct-remove [] k h = refl
  distinct-remove ((j, w) ∷ d) k h = ground (arith, has-remove d k j, distinct-remove d k)

  pub has_after_put :
      (d : Dict K V) (k j : K) (v w : V)
      → Dict.get d k ≡ some w
      → Dict.has (Dict.put d k v) j ≡ Dict.has d j
  has_after_put d k j v w g = has-put d k j v ∙ elim (Bool-cases (k == j)) [
    | inl y ↦
        rw y (sym (has-eq-get d j w (subst (λ k. Dict.get d k ≡ some w) ((==_iff k j).0 y) g)))
    | inr n ↦ rw n refl
  ]

  pub has-none : (d : Dict K V) (k : K) → Dict.get d k ≡ none → Dict.has d k ≡ false
  has-none d k g = elim (Bool-cases (Dict.has d k)) [
    | inr n ↦ n
    | inl y ↦ let (v, q) = get_of_has d k y in absurd (cc (g, q))
  ]

module _ {K : Type 0} ⦃o : Keys K⦄ where
  pub release-distinct :
      (holders : Dict K ℕ) (v : K) (oid : ℕ)
      → distinct holders ≡ true
      → distinct (release holders v oid) ≡ true
  unfolding release
  release-distinct holders v oid h = elim (Bool-cases (Dict.get holders v == some oid)) [
    | inl y ↦ rw (release, y) (distinct-remove holders v h)
    | inr n ↦ rw (release, n) h
  ]

module _ {K B : Type 0} ⦃o : Keys K⦄ ⦃bm : BitMap64 B⦄ where
  -- A sorted run and its column.
  pub record Run (run : List K) (col : Postings K B) : Type 0 where
    pub sorted : Sorted run
    pub members : (k : K) → contains run k ≡ Dict.has col (some k)

  pub record Tidy (ci : ClassIndexes K B) : Type 0 where
    pub live : ci.building ≡ false
    pub cols : (f : String) → distinct (column ci f) ≡ true
    pub maps : (f : String) → distinct (holders_of ci f) ≡ true
    pub apart :
        (f : String) → contains ci.sorted_fields f ≡ true → contains ci.list_fields f ≡ false
    pub carried :
        (f : String) → contains ci.sorted_fields f ≡ true → Dict.has ci.sorted_keys f ≡ true
    pub runs : (f : String) → contains ci.sorted_fields f ≡ true → Run (run_of ci f) (column ci f)

  pub post-distinct :
      (col : Postings K B) (k : Option K) (oid : ℕ)
      → distinct col ≡ true
      → distinct (post col k oid) ≡ true
  unfolding post
  post-distinct col k oid h = distinct-put col k _ h

  pub unpost-distinct :
      (col : Postings K B) (k : Option K) (oid : ℕ)
      → distinct col ≡ true
      → distinct (unpost col k oid) ≡ true
  unfolding unpost
  unpost-distinct col k oid h = elim (Option-cases (Dict.get col k)) [
    | inl e ↦ rw (unpost, e) h
    | inr (ids, e) ↦ rw (unpost, e) (distinct-put col k (bm.discard ids oid) h)
  ]

  pub post_all-distinct :
      (col : Postings K B) (ks : List (Option K)) (oid : ℕ)
      → distinct col ≡ true
      → distinct (post_all col ks oid) ≡ true
  unfolding post_all
  post_all-distinct col [] oid h = h
  post_all-distinct col (k ∷ ks) oid h =
      post_all-distinct (post col k oid) ks oid (post-distinct col k oid h)

  pub unpost_all-distinct :
      (col : Postings K B) (ks : List (Option K)) (oid : ℕ)
      → distinct col ≡ true
      → distinct (unpost_all col ks oid) ≡ true
  unfolding unpost_all
  unpost_all-distinct col [] oid h = h
  unpost_all-distinct col (k ∷ ks) oid h =
      unpost_all-distinct (unpost col k oid) ks oid (unpost-distinct col k oid h)

  pub has-unpost :
      (col : Postings K B) (k j : Option K) (oid : ℕ)
      → Dict.has (unpost col k oid) j ≡ Dict.has col j
  unfolding unpost
  has-unpost col k j oid = elim (Option-cases (Dict.get col k)) [
    | inl e ↦ rw (unpost, e) refl
    | inr (ids, e) ↦ rw (unpost, e) (has_after_put col k j (bm.discard ids oid) ids e)
  ]

  -- A key that is there already changes no run; a new one is sorted in.
  pub post-Run :
      (run : List K) (col : Postings K B) (v : Option K) (oid : ℕ) (ids : B)
      → Dict.get col v ≡ some ids
      → Run run col
      → Run run (post col v oid)
  unfolding post
  post-Run run col v oid ids e r = record {
    sorted = r.sorted;
    members = λ k. r.members k ∙ sym (has_after_put col v (some k) _ ids e);
  }

  pub none-Run :
      (run : List K) (col : Postings K B) (oid : ℕ) → Run run col → Run run (post col none oid)
  unfolding post option_beq
  none-Run run col oid r = record {
    sorted = r.sorted;
    members = λ k. r.members k ∙ sym (has-put col none (some k) _);
  }

  pub insort-Run :
      (run : List K) (col : Postings K B) (v : K) (oid : ℕ)
      → Run run col
      → Run (insort run v) (post col (some v) oid)
  unfolding post option_beq
  insort-Run run col v oid r = record {
    sorted = insort-Sorted run v r.sorted;
    members =
        λ k. contains-insort run v k ∙ rw (r.members k) (sym (has-put col (some v) (some k) _));
  }

  pub unpost-Run :
      (run : List K) (col : Postings K B) (v : Option K) (oid : ℕ)
      → Run run col
      → Run run (unpost col v oid)
  unpost-Run run col v oid r = record {
    sorted = r.sorted;
    members = λ k. r.members k ∙ sym (has-unpost col v (some k) oid);
  }
