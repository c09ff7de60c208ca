-- ===== src/Query/Answers.antt =====
-- What the unions over a column, and over a unique map, hold of one id whose value in the field is known.
use datacrystal.Base.{
  ℕ, List, [], ◌∷◌, Option, none, some, Bool, Bool-cases, Option-cases, inl, inr, true, false, not,
  ◌==◌, ==_iff, ==_refl, ◌&&◌, contains, ◌≡◌, refl, ◌∙◌, sym, ap, arith, nat_eq, option_eq,
  option_beq,
}
use mathlib.Core.Path.{subst}
use datacrystal.Base.Dict
use datacrystal.Base.Dict.{Dict}
use datacrystal.Query.Bitmap.{BitMap64}
use datacrystal.Query.ClassIndexes.{Postings, posting_of}
use datacrystal.Query.Keys.{Keys, key_eq}
use datacrystal.Query.Plan.{
  bounds, holder_of, single, Ordering, union_keys, union_values, union_matching, add_holders,
  add_matching,
}
use datacrystal.Query.Runs.{contains-bounds, in_range}
use datacrystal.Query.Tidy.{distinct, Run}

module _ {K B : Type 0} ⦃o : Keys K⦄ ⦃bm : BitMap64 B⦄ where
  pub absent_posting :
      (col : Postings K B) (k : Option K) (n : ℕ)
      → Dict.has col k ≡ false
      → bm.mem (posting_of col k) n ≡ false
  unfolding posting_of
  absent_posting col k n h = elim (Option-cases (Dict.get col k)) [
    | inl e ↦ rw (posting_of, e) (bm.mem_empty n)
    | inr (ids, e) ↦ absurd (cc (h, Dict.has-eq-get col k ids e))
  ]

  -- The postings of the rest of a column.
  posting_of-rest :
      (key : Option K) (ids : B) (col : Postings K B) (k : Option K) (n : ℕ)
      → Dict.has col key ≡ false
      → bm.mem (posting_of col k) n ≡ (not (key == k) && bm.mem (posting_of ((key, ids) ∷ col) k) n)
  unfolding posting_of Dict.get
  posting_of-rest key ids col k n h = elim (Bool-cases (key == k)) [
    | inl y ↦
        rw y (absent_posting col k n (subst (λ k. Dict.has col k ≡ false) ((==_iff key k).0 y) h))
    | inr m ↦ rw (posting_of, Dict.get, m) refl
  ]

  pub mem-union_matching :
      (test : Option K → Bool) (col : Postings K B) (live : Bool) (a : Option K) (n : ℕ)
      → distinct col ≡ true
      → ((k : Option K) → bm.mem (posting_of col k) n ≡ (live && (a == k)))
      → bm.mem (union_matching test col) n ≡ (live && test a)
  unfolding union_matching posting_of Dict.get
  mem-union_matching test [] live a n d h =
      let dead : live ≡ false = ground (arith, h a, bm.mem_empty n, ==_refl a) in
      rw dead (bm.mem_empty n)
  mem-union_matching test ((key, ids) ∷ col) live a n d h =
      let head : bm.mem ids n ≡ (live && (a == key)) =
        rw (sym (h key), posting_of, Dict.get, ==_refl key) refl in
      let fresh : Dict.has col key ≡ false = ground (arith, d) in
      let rest : bm.mem (union_matching test col) n ≡ ((live && not (a == key)) && test a) =
        mem-union_matching test col (live && not (a == key)) a n (ground (arith, d)) (λ k.
          posting_of-rest key ids col k n fresh
          ∙ rw (h k) (elim (Bool-cases (a == key)) [
            | inl y ↦
                subst
                  (λ b.
                    (not (b == k) && (live && (a == k))) ≡ ((live && not (a == key)) && (a == k)))
                  ((==_iff a key).0 y) (rw y (ground arith))
            | inr m ↦ elim (Bool-cases (a == k)) [
              | inl z ↦
                  let apart : (key == k) ≡ false =
                    ground (arith, m, ==_iff a key, ==_iff a k, ==_iff key k, z) in
                  rw (apart, m) (ground arith)
              | inr z ↦ rw z (ground arith)
            ]
          ])) in
      elim (Bool-cases (test key)) [
        | inl y ↦
            rw (union_matching, y)
              (bm.mem_union ids (union_matching test col) n
                ∙ rw (head, rest)
                    (elim (Bool-cases (a == key)) [
                      | inl z ↦ rw (z, ap test ((==_iff a key).0 z), y) (ground arith)
                      | inr z ↦ rw z (ground arith)
                    ]))
        | inr m ↦
            rw (union_matching, m)
              (rest ∙ elim (Bool-cases (a == key)) [
                | inl z ↦ rw (z, ap test ((==_iff a key).0 z), m) (ground arith)
                | inr z ↦ rw z (ground arith)
              ])
      ]

  -- One id, one column: the id is posted under its value alone.
  module _ (col : Postings K B) (a : Option K) (n : ℕ)
      (h : (k : Option K) → bm.mem (posting_of col k) n ≡ (a == k)) where
    pub mem-union_values : (vs : List (Option K)) → bm.mem (union_values col vs) n ≡ contains vs a
    unfolding union_values
    mem-union_values [] = bm.mem_empty n
    mem-union_values (v ∷ vs) =
        bm.mem_union (posting_of col v) (union_values col vs) n
        ∙ rw (h v, mem-union_values vs) (ground (arith, ==_iff a v, ==_iff v a))

  pub mem-union_keys :
      (col : Postings K B) (x : K) (n : ℕ)
      (h : (k : Option K) → bm.mem (posting_of col k) n ≡ (some x == k)) (ks : List K)
      → bm.mem (union_keys col ks) n ≡ contains ks x
  unfolding union_keys option_beq
  mem-union_keys col x n h [] = bm.mem_empty n
  mem-union_keys col x n h (k ∷ ks) =
      bm.mem_union (posting_of col (some k)) (union_keys col ks) n
      ∙ rw (h (some k), mem-union_keys col x n h ks) (ground (arith, ==_iff x k, ==_iff k x))

  pub none-union_keys :
      (col : Postings K B) (n : ℕ) (h : (k : Option K) → bm.mem (posting_of col k) n ≡ (none == k))
      (ks : List K)
      → bm.mem (union_keys col ks) n ≡ false
  unfolding union_keys option_beq
  none-union_keys col n h [] = bm.mem_empty n
  none-union_keys col n h (k ∷ ks) =
      bm.mem_union (posting_of col (some k)) (union_keys col ks) n
      ∙ rw (h (some k), none-union_keys col n h ks) refl

  -- A slice of the run holds the ids whose value is in the range.
  pub mem_slice :
      (col : Postings K B) (run : List K) (op : Ordering) (v x : K) (n : ℕ)
      → Run run col
      → ((k : Option K) → bm.mem (posting_of col k) n ≡ (some x == k))
      → bm.mem (union_keys col (bounds op run v)) n ≡ in_range op v x
  mem_slice col run op v x n r h =
      let there : Dict.has col (some x) ≡ true = elim (Bool-cases (Dict.has col (some x))) [
        | inl y ↦ y
        | inr m ↦ absurd (cc (absent_posting col (some x) n m, h (some x), ==_refl (some x)))
      ] in
      mem-union_keys col x n h (bounds op run v)
      ∙ contains-bounds op run v x r.sorted
      ∙ rw (r.members x, there) refl

module _ {K : Type 0} ⦃o : Keys K⦄ where
  get_of_absent :
      (holders : Dict K ℕ) (k : K) → Dict.has holders k ≡ false → Dict.get holders k ≡ none
  get_of_absent holders k h = elim (Option-cases (Dict.get holders k)) [
    | inl e ↦ e
    | inr (oid, e) ↦ absurd (cc (h, Dict.has-eq-get holders k oid e))
  ]

  other_key :
      (key w : K) (a : Option K)
      → (key == w) ≡ false
      → (a == some w) ≡ true
      → (a == some key) ≡ false
  unfolding option_beq
  other_key key w none m q = refl
  other_key key w (some x) m q =
      subst (λ x. (x == key) ≡ false) (sym ((==_iff x w).0 q))
        (ground (arith, ==_iff w key, ==_iff key w, m))

module _ (B : Type 0) ⦃bm : BitMap64 B⦄ where
  pub mem-single : (oid : Option ℕ) (n : ℕ) → bm.mem (single oid) n ≡ (oid == some n)
  unfolding single option_beq
  mem-single none n = bm.mem_empty n
  mem-single (some oid) n = bm.mem_add bm.empty oid n ∙ rw (bm.mem_empty n) (ground arith)

-- One id and a unique map.
module _ {K : Type 0} (B : Type 0) ⦃o : Keys K⦄ ⦃bm : BitMap64 B⦄ where
  pub mem-add_holders :
      (holders : Dict K ℕ) (a : Option K) (n : ℕ)
      → ((w : K) → (Dict.get holders w == some n) ≡ (a == some w))
      → (vs : List (Option K)) → contains vs none ≡ false
      → bm.mem (add_holders holders vs) n ≡ contains vs a
  unfolding add_holders holder_of option_beq
  mem-add_holders holders a n h [] p = bm.mem_empty n
  mem-add_holders holders a n h (none ∷ vs) p = absurd (cc (p))
  mem-add_holders holders a n h (some v ∷ vs) p =
      let rest = mem-add_holders holders a n h vs p in
      let turn : (a == some v) ≡ (some v == a) =
        ground (arith, ==_iff a (some v), ==_iff (some v) a) in
      elim (Option-cases (Dict.get holders v)) [
        | inl e ↦
            let other : (some v == a) ≡ false = sym turn ∙ sym (h v) ∙ rw e refl in
            rw (add_holders, holder_of, e) (rest ∙ rw other refl)
        | inr (oid, e) ↦
            let held : (oid == n) ≡ (some v == a) = sym (rw e refl) ∙ h v ∙ turn in
            rw (add_holders, holder_of, e)
              (bm.mem_add (add_holders holders vs) oid n ∙ rw (rest, held) refl)
      ]

  pub mem-add_matching :
      (test : Option K → Bool) (holders : Dict K ℕ) (live : Bool) (a : Option K) (n : ℕ)
      → test none ≡ false
      → distinct holders ≡ true
      → ((w : K) → (Dict.get holders w == some n) ≡ (live && (a == some w)))
      → bm.mem (add_matching test holders) n ≡ (live && test a)
  unfolding add_matching Dict.get option_beq
  mem-add_matching test [] live none n z d h = bm.mem_empty n ∙ rw z (ground arith)
  mem-add_matching test [] live (some x) n z d h =
      let dead : live ≡ false = ground (arith, h x, ==_refl x) in rw dead (bm.mem_empty n)
  mem-add_matching test ((key, oid) ∷ holders) live a n z d h =
      let head : (oid == n) ≡ (live && (a == some key)) =
        rw (sym (h key), Dict.get, ==_refl key) refl in
      let rest : bm.mem (add_matching test holders) n ≡ ((live && not (a == some key)) && test a) =
        mem-add_matching test holders (live && not (a == some key)) a n z (ground (arith, d)) (λ w.
          elim (Bool-cases (key == w)) [
            | inl y ↦
                let fresh : Dict.get holders w ≡ none =
                  subst (λ w. Dict.get holders w ≡ none) ((==_iff key w).0 y)
                    (get_of_absent holders key (ground (arith, d))) in
                rw fresh (elim (Bool-cases (a == some w)) [
                  | inl q ↦
                      rw (q, subst (λ w. (a == some w) ≡ true) (sym ((==_iff key w).0 y)) q)
                        (ground arith)
                  | inr q ↦ rw q (ground arith)
                ])
            | inr m ↦ sym (rw (Dict.get, m) refl) ∙ h w ∙ elim (Bool-cases (a == some w)) [
              | inl q ↦ rw (q, other_key key w a m q) (ground arith)
              | inr q ↦ rw q (ground arith)
            ]
          ]) in
      elim (Bool-cases (test (some key))) [
        | inl y ↦
            rw (add_matching, y)
              (bm.mem_add (add_matching test holders) oid n
                ∙ rw (head, rest)
                    (elim (Bool-cases (a == some key)) [
                      | inl q ↦ rw (q, ap test ((==_iff a (some key)).0 q), y) (ground arith)
                      | inr q ↦ rw q (ground arith)
                    ]))
        | inr m ↦
            rw (add_matching, m)
              (rest ∙ elim (Bool-cases (a == some key)) [
                | inl q ↦ rw (q, ap test ((==_iff a (some key)).0 q), m) (ground arith)
                | inr q ↦ rw q (ground arith)
              ])
      ]
