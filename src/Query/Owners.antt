-- ===== src/Query/Owners.antt =====
-- The unique maps: who holds a value, after one field is indexed or un-indexed.
use datacrystal.Base.{
  ℕ, String, Option, none, some, Bool, Bool-cases, Option-cases, inl, inr, true, false, not, ◌==◌,
  ==_iff, ◌&&◌, if◌then◌else◌, ◌≡◌, refl, ◌∙◌, arith, nat_eq, string_eq, option_eq, option_beq,
}
use mathlib.Core.Path.{subst}
use datacrystal.Base.Dict
use datacrystal.Base.Dict.{Dict, get-put, get-remove}
use datacrystal.Query.Bitmap.{BitMap64}
use datacrystal.Query.ClassIndexes.{ClassIndexes, index_unique, unindex_unique, release}
use datacrystal.Query.Keys.{Keys, key_eq}
use datacrystal.Query.Plan.{holders_of, column}
use datacrystal.Query.Postings.{posted}
use datacrystal.Query.Frame.{Frame, Frame-refl, absent, has-put-found}

module _ {K : Type 0} ⦃o : Keys K⦄ where
  get-release :
      (holders : Dict K ℕ) (v w : K) (oid n : ℕ)
      → (Dict.get (release holders v oid) w == some n)
        ≡ (not (v == w && oid == n) && (Dict.get holders w == some n))
  unfolding release option_beq
  get-release holders v w oid n = elim (Bool-cases (Dict.get holders v == some oid)) [
    | inl y ↦
        rw (release, y)
          (rw (get-remove holders v w) (elim (Bool-cases (v == w)) [
            | inl e ↦
                let here : Dict.get holders w ≡ some oid =
                  subst (λ w. Dict.get holders w ≡ some oid) ((==_iff v w).0 e)
                    ((==_iff (Dict.get holders v) (some oid)).0 y) in
                rw (e, here) (ground arith)
            | inr f ↦ rw f refl
          ]))
    | inr m ↦
        rw (release, m)
          (elim (Bool-cases (v == w)) [
            | inl e ↦
                let other : (Dict.get holders w == some oid) ≡ false =
                  subst (λ w. (Dict.get holders w == some oid) ≡ false) ((==_iff v w).0 e) m in
                rw e (ground (arith, other, ==_iff oid n))
            | inr f ↦ rw f refl
          ])
  ]

module _ {K B : Type 0} ⦃o : Keys K⦄ ⦃bm : BitMap64 B⦄ where
  -- Whether an id holds a value in a unique map.
  abbrev pub owns : ClassIndexes K B → String → K → ℕ → Bool
  owns ci f w n = Dict.get (holders_of ci f) w == some n

  owns-set :
      (ci : ClassIndexes K B) (g f : String) (holders : Dict K ℕ) (w : K) (n : ℕ)
      → owns (record ci { unique = Dict.put ci.unique g holders }) f w n
        ≡ (if g == f then (Dict.get holders w == some n) else owns ci f w n)
  unfolding holders_of
  owns-set ci g f holders w n = rw (owns, holders_of, get-put ci.unique g f holders) (ground arith)

  owns-found :
      (ci : ClassIndexes K B) (g f : String) (holders : Dict K ℕ) (w : K) (n : ℕ)
      → Dict.get ci.unique g ≡ some holders
      → (g == f) ≡ true
      → owns ci f w n ≡ (Dict.get holders w == some n)
  unfolding holders_of
  owns-found ci g f holders w n e y =
      subst (λ f. owns ci f w n ≡ (Dict.get holders w == some n)) ((==_iff g f).0 y)
        (rw (owns, holders_of, e) refl)

  -- A value is given to an id.
  pub record Gives (ci ci' : ClassIndexes K B) (g : String) (v : Option K) (oid : ℕ) : Type 0 where
    pub kept : Frame ci ci'
    pub posts : (f : String) (k : Option K) (n : ℕ) → posted ci' f k n ≡ posted ci f k n
    pub owners :
        (f : String) (w : K) (n : ℕ)
        → Dict.has ci.unique f ≡ true
        → owns ci' f w n ≡ (if g == f && (v == some w) then oid == n else owns ci f w n)

  -- A value is taken from an id that holds it.
  pub record Frees (ci ci' : ClassIndexes K B) (g : String) (v : Option K) (oid : ℕ) : Type 0 where
    pub kept : Frame ci ci'
    pub posts : (f : String) (k : Option K) (n : ℕ) → posted ci' f k n ≡ posted ci f k n
    pub owners :
        (f : String) (w : K) (n : ℕ)
        → Dict.has ci.unique f ≡ true
        → owns ci' f w n ≡ (not (g == f && (v == some w) && oid == n) && owns ci f w n)

  unique-Frame :
      (ci : ClassIndexes K B) (g : String) (holders holders' : Dict K ℕ)
      → Dict.get ci.unique g ≡ some holders
      → Frame ci (record ci { unique = Dict.put ci.unique g holders' })
  unique-Frame ci g holders holders' e = record {
    cols = λ f. refl;
    maps = λ f. has-put-found ci.unique g f holders' holders e;
    lists = refl;
    sorteds = refl;
    extent = refl;
    memory = refl;
  }

  pub index_unique-Gives :
      (ci : ClassIndexes K B) (oid : ℕ) (g : String) (v : Option K)
      → Gives ci (index_unique ci oid g v) g v oid
  unfolding index_unique option_beq
  index_unique-Gives ci oid g none = record {
    kept = Frame-refl ci;
    posts = λ f k n. refl;
    owners = λ f w n h. elim (Bool-cases (g == f)) [ inl y ↦ rw y refl | inr m ↦ rw m refl ];
  }
  index_unique-Gives ci oid g (some v) = elim (Option-cases (Dict.get ci.unique g)) [
    | inl e ↦
        rw (index_unique, e)
          (record {
            kept = Frame-refl ci;
            posts = λ f k n. refl;
            owners = λ f w n h. rw (absent ci.unique g f e h) refl;
          })
    | inr (holders, e) ↦
        rw (index_unique, e)
          (record {
            kept = unique-Frame ci g holders (Dict.put holders v oid) e;
            posts = λ f k n. unfold column in refl;
            owners = λ f w n h.
                owns-set ci g f (Dict.put holders v oid) w n ∙ elim (Bool-cases (g == f)) [
                  | inl y ↦
                      rw (y, get-put holders v w oid, owns-found ci g f holders w n e y)
                        (ground arith)
                  | inr m ↦ rw m refl
                ];
          })
  ]

  pub unindex_unique-Frees :
      (ci : ClassIndexes K B) (oid : ℕ) (g : String) (v : Option K)
      → Frees ci (unindex_unique ci oid g v) g v oid
  unfolding unindex_unique option_beq
  unindex_unique-Frees ci oid g none = record {
    kept = Frame-refl ci;
    posts = λ f k n. refl;
    owners = λ f w n h. elim (Bool-cases (g == f)) [ inl y ↦ rw y refl | inr m ↦ rw m refl ];
  }
  unindex_unique-Frees ci oid g (some v) = elim (Option-cases (Dict.get ci.unique g)) [
    | inl e ↦
        rw (unindex_unique, e)
          (record {
            kept = Frame-refl ci;
            posts = λ f k n. refl;
            owners = λ f w n h. rw (absent ci.unique g f e h) refl;
          })
    | inr (holders, e) ↦
        rw (unindex_unique, e)
          (record {
            kept = unique-Frame ci g holders (release holders v oid) e;
            posts = λ f k n. unfold column in refl;
            owners = λ f w n h.
                owns-set ci g f (release holders v oid) w n ∙ elim (Bool-cases (g == f)) [
                  | inl y ↦
                      rw (y, get-release holders v w oid n, owns-found ci g f holders w n e y)
                        (ground arith)
                  | inr m ↦ rw m refl
                ];
          })
  ]
