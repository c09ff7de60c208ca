-- ===== src/Query/Postings.antt =====
-- What the loops over the postings of a class do to each posting.
use datacrystal.Base.{
  ℕ, String, List, [], ◌∷◌, Option, Bool, Bool-cases, Option-cases, inl, inr, false, not, ◌==◌,
  ==_iff, ==_refl, ◌&&◌, ◌||◌, contains, if◌then◌else◌, ◌≡◌, refl, arith, nat_eq, string_eq,
  option_eq,
}
use mathlib.Core.Path.{subst}
use datacrystal.Base.Dict
use datacrystal.Base.Dict.{Dict, get-put, has-put, get_of_has, has-eq-get}
use datacrystal.Query.Bitmap.{BitMap64}
use datacrystal.Query.ClassIndexes.{
  ClassIndexes, Postings, posting_of, post, unpost, post_all, unpost_all,
}
use datacrystal.Query.Keys.{Keys, key_eq}
use datacrystal.Query.Plan.{column}

module _ {K B : Type 0} ⦃o : Keys K⦄ ⦃bm : BitMap64 B⦄ where
  posting_of-put :
      (col : Postings K B) (key k : Option K) (ids : B)
      → posting_of (Dict.put col key ids) k ≡ (if key == k then ids else posting_of col k)
  unfolding posting_of
  posting_of-put col key k ids = rw (get-put col key k ids, posting_of) (ground arith)

  pub mem-post :
      (col : Postings K B) (key k : Option K) (oid n : ℕ)
      → bm.mem (posting_of (post col key oid) k) n
        ≡ ((key == k && oid == n) || bm.mem (posting_of col k) n)
  unfolding post
  mem-post col key k oid n =
      rw (posting_of-put col key k (bm.add (posting_of col key) oid))
        (elim (Bool-cases (key == k)) [
          | inl y ↦ rw ((==_iff key k).0 y, ==_refl k) (bm.mem_add (posting_of col k) oid n)
          | inr f ↦ rw (f) refl
        ])

  pub mem-unpost :
      (col : Postings K B) (key k : Option K) (oid n : ℕ)
      → bm.mem (posting_of (unpost col key oid) k) n
        ≡ (not (key == k && oid == n) && bm.mem (posting_of col k) n)
  unfolding unpost posting_of
  mem-unpost col key k oid n = elim (Option-cases (Dict.get col key)) [
    | inl e ↦
        rw (e, unpost)
          (elim (Bool-cases (key == k)) [
            | inl y ↦
                let nothing : bm.mem (posting_of col k) n ≡ false =
                  subst (λ k. bm.mem (posting_of col k) n ≡ false) ((==_iff key k).0 y)
                    (rw (e, posting_of) (bm.mem_empty n)) in
                rw (y, nothing) (ground arith)
            | inr f ↦ rw f refl
          ])
    | inr (ids, e) ↦
        rw (e, unpost)
          (rw (posting_of-put col key k (bm.discard ids oid)) (elim (Bool-cases (key == k)) [
            | inl y ↦
                let same : posting_of col k ≡ ids =
                  subst (λ k. posting_of col k ≡ ids) ((==_iff key k).0 y)
                    (rw (e, posting_of) refl) in
                rw (y, same) (bm.mem_discard ids oid n)
            | inr f ↦ rw f refl
          ]))
  ]

  pub mem-post_all :
      (col : Postings K B) (keys : List (Option K)) (k : Option K) (oid n : ℕ)
      → bm.mem (posting_of (post_all col keys oid) k) n
        ≡ ((contains keys k && oid == n) || bm.mem (posting_of col k) n)
  unfolding post_all
  mem-post_all col [] k oid n = refl
  mem-post_all col (key ∷ keys) k oid n =
      ground (arith, mem-post_all (post col key oid) keys k oid n, mem-post col key k oid n)

  pub mem-unpost_all :
      (col : Postings K B) (keys : List (Option K)) (k : Option K) (oid n : ℕ)
      → bm.mem (posting_of (unpost_all col keys oid) k) n
        ≡ (not (contains keys k && oid == n) && bm.mem (posting_of col k) n)
  unfolding unpost_all
  mem-unpost_all col [] k oid n = refl
  mem-unpost_all col (key ∷ keys) k oid n =
      ground (arith, mem-unpost_all (unpost col key oid) keys k oid n, mem-unpost col key k oid n)

  -- Whether an id is in the posting of a key.
  abbrev pub posted : ClassIndexes K B → String → Option K → ℕ → Bool
  posted ci f k n = bm.mem (posting_of (column ci f) k) n
