-- ===== src/Query/Checked.antt =====
-- What a passed check of the unique values says.
use datacrystal.Base.{
  ℕ, String, List, [], ◌∷◌, Option, none, some, Bool, Bool-cases, inl, inr, true, false, ◌==◌,
  ==_iff, ◌&&◌, ◌||◌, contains, if◌then◌else◌, ◌≡◌, refl, ◌∙◌, sym, arith, nat_eq, string_eq,
  option_eq, option_beq, some-inj,
}
use mathlib.Core.Path.{subst}
use datacrystal.Base.Dict
use datacrystal.Base.Dict.{Dict}
use datacrystal.Errors.{ok, >>=-eq-ok, ok-inj}
use datacrystal.Query.Bitmap.{BitMap64}
use datacrystal.Query.ClassIndexes.{ClassIndexes, Row}
use datacrystal.Query.Keys.{Keys, key_eq}
use datacrystal.Query.Rows.{claims}
use datacrystal.Query.Tidy.{distinct}
use datacrystal.Query.Unique.{
  Seen, taken, prior, value_of, existing_holder, check_value, check_fields,
}

module _ {K : Type 0} ⦃o : Keys K⦄ (lists : List String) where
  unclaimed :
      (row : Row K) (f : String) (w : K) → Dict.has row f ≡ false → claims lists row f w ≡ false
  unfolding Dict.has
  unclaimed [] f w h = refl
  unclaimed ((g, v) ∷ row) f w h = ground (arith, unclaimed row f w, h)

  -- The claim of a row on a scalar field is its value there.
  pub claims-value_of :
      (row : Row K) (f : String) (w : K)
      → distinct row ≡ true
      → contains lists f ≡ false
      → claims lists row f w ≡ (value_of row f == some w)
  unfolding value_of Dict.get option_beq
  claims-value_of [] f w d l = refl
  claims-value_of ((g, v) ∷ row) f w d l = elim (Bool-cases (g == f)) [
    | inl y ↦
        let gone : claims lists row f w ≡ false =
          unclaimed row f w
            (subst (λ f. Dict.has row f ≡ false) ((==_iff g f).0 y) (ground (arith, d))) in
        let flat : contains lists g ≡ false =
          subst (λ f. contains lists f ≡ false) (sym ((==_iff g f).0 y)) l in
        rw (value_of, Dict.get, y, gone, flat) (ground arith)
    | inr n ↦
        rw (n, claims-value_of row f w (ground (arith, d)) l) (rw (value_of, Dict.get, n) refl)
  ]

taken_same : (holder : Option ℕ) (oid n : ℕ) → taken holder oid ≡ false → holder ≡ some n → oid ≡ n
taken_same none oid n t e = absurd (cc (e))
taken_same (some m) oid n t e = sym ((==_iff m oid).0 (ground (arith, t))) ∙ some-inj e

module _ {K B : Type 0} ⦃o : Keys K⦄ ⦃bm : BitMap64 B⦄ (ci : ClassIndexes K B) (deleted : List ℕ)
    (oid : ℕ) where
  -- Values that the check has let pass: no other id has them, and they are noted.
  pub record Passed (P : String → K → Bool) (seen now : Seen K) : Type 0 where
    pub unheld :
        (f : String) (w : K) (n : ℕ)
        → P f w ≡ true
        → existing_holder ci deleted f w ≡ some n
        → oid ≡ n
    pub unseen : (f : String) (w : K) (n : ℕ) → P f w ≡ true → prior seen f w ≡ some n → oid ≡ n
    pub noted : (f : String) (w : K) → prior now f w ≡ (if P f w then some oid else prior seen f w)

  check_value-Passed :
      (g : String) (v : Option K) (seen now : Seen K)
      → check_value ci deleted oid g v seen ≡ ok now
      → Passed (λ f w. g == f && (v == some w)) seen now
  unfolding check_value option_beq prior
  check_value-Passed g none seen now e = record {
    unheld = λ f w n p. absurd (ground (arith, p));
    unseen = λ f w n p. absurd (ground (arith, p));
    noted = λ f w.
        rw (sym (ok-inj e)) (elim (Bool-cases (g == f)) [ inl y ↦ rw y refl | inr m ↦ rw m refl ]);
  }
  check_value-Passed g (some x) seen now e =
      elim (Bool-cases (taken (existing_holder ci deleted g x) oid)) [
        | inl y ↦ absurd (cc (rw (check_value, y) at e))
        | inr a ↦ elim (Bool-cases (taken (prior seen g x) oid)) [
          | inl y ↦ absurd (cc (rw (check_value, a, y) at e))
          | inr b ↦ record {
            unheld = λ f w n p.
                let fg : g ≡ f = (==_iff g f).0 (ground (arith, p)) in
                let xw : x ≡ w = (==_iff x w).0 (ground (arith, p)) in
                λ q. taken_same (existing_holder ci deleted g x) oid n a (rw (fg, xw) q);
            unseen = λ f w n p.
                let fg : g ≡ f = (==_iff g f).0 (ground (arith, p)) in
                let xw : x ≡ w = (==_iff x w).0 (ground (arith, p)) in
                λ q. taken_same (prior seen g x) oid n b (rw (fg, xw) q);
            noted = λ f w. rw (sym (ok-inj (rw (check_value, a, b) at e))) refl;
          }
        ]
      ]

  -- The fields of a row, one after another.
  pub check_fields-Passed :
      (row : Row K) (fields : List String) (seen now : Seen K)
      → check_fields ci deleted oid row fields seen ≡ ok now
      → Passed (λ f w. contains fields f && (value_of row f == some w)) seen now
  unfolding check_fields
  check_fields-Passed row [] seen now e = record {
    unheld = λ f w n p. absurd (ground (arith, p));
    unseen = λ f w n p. absurd (ground (arith, p));
    noted = λ f w. rw (sym (ok-inj e)) refl;
  }
  check_fields-Passed row (g ∷ fields) seen now e =
      let (mid, q, r) =
        >>=-eq-ok (check_value ci deleted oid g (value_of row g) seen)
          (λ s. check_fields ci deleted oid row fields s) e in
      let head = check_value-Passed g (value_of row g) seen mid q in
      let tail = check_fields-Passed row fields mid now r in
      let own : (f : String) (w : K)
          → (g == f) ≡ true
          → (value_of row g == some w) ≡ (value_of row f == some w) =
        λ f w y.
          subst (λ f. (value_of row g == some w) ≡ (value_of row f == some w)) ((==_iff g f).0 y)
            refl in
      record {
        unheld = λ f w n p. elim (Bool-cases (g == f)) [
          | inl y ↦
              head.unheld f w n (
                rw (y, own f w y)
                  (valued (value_of row f == some w) (contains fields f) (g == f) p))
          | inr m ↦ tail.unheld f w n (rw m at p)
        ];
        unseen = λ f w n p s. elim (Bool-cases (g == f)) [
          | inl y ↦
              head.unseen f w n
                (rw (y, own f w y)
                  (valued (value_of row f == some w) (contains fields f) (g == f) p))
                s
          | inr m ↦ tail.unseen f w n (rw m at p) (head.noted f w ∙ rw m s)
        ];
        noted = λ f w.
            tail.noted f w
            ∙ rw (head.noted f w) (elim (Bool-cases (g == f)) [
              | inl y ↦ rw (y, own f w y) (ground arith)
              | inr m ↦ rw m refl
            ]);
      }
    where
      valued : (v c y : Bool) → ((y || c) && v) ≡ true → v ≡ true
      valued v c y p = ground (arith, p)
