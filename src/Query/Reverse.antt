-- ===== src/Query/Reverse.antt =====
-- The reverse references of `IndexManager`, once they are built: who refers to an id, and to what an id refers.
use datacrystal.Base.{
  ℕ, List, [], ◌∷◌, Option, none, some, Bool-cases, Option-cases, inl, inr, false, not, ◌==◌,
  ==_iff, ◌&&◌, ◌||◌, contains, if◌then◌else◌, ◌≡◌, refl, ◌∙◌, arith, nat_eq,
}
use mathlib.Core.Path.{subst}
use datacrystal.Base.Dict
use datacrystal.Base.Dict.{Dict, get-put, get-remove}
use datacrystal.Query.Bitmap.{BitMap64}

-- `_reverse` and `_reverse_refs`; the targets of a referrer are the list of its set.
pub record Reverse (B : Type 0) : Type 0 where
  pub reverse : Dict ℕ B
  pub reverse_refs : Dict ℕ (List ℕ)

abbrev pub all_targets : Option (List ℕ) → List ℕ
all_targets none = []
all_targets (some targets) = targets

module _ {B : Type 0} ⦃bm : BitMap64 B⦄ where
  abbrev pub referrers : Dict ℕ B → ℕ → B
  referrers rev target = elim (Dict.get rev target) [ none ↦ bm.empty | some ids ↦ ids ]

  -- `posting = rev.get(t)`, `posting.discard(referrer)`
  unfoldable pub drop_edges : Dict ℕ B → List ℕ → ℕ → Dict ℕ B
  drop_edges rev [] referrer = rev
  drop_edges rev (t ∷ ts) referrer =
      drop_edges
        (elim (Dict.get rev t) [ none ↦ rev | some ids ↦ Dict.put rev t (bm.discard ids referrer) ])
        ts referrer

  -- `rev.setdefault(t, BitMap64()).add(referrer)`
  unfoldable pub add_edges : Dict ℕ B → List ℕ → ℕ → Dict ℕ B
  add_edges rev [] referrer = rev
  add_edges rev (t ∷ ts) referrer =
      add_edges (Dict.put rev t (bm.add (referrers rev t) referrer)) ts referrer

  -- One entry of `apply_reverse`, and one id of `remove_reverse`.
  unfoldable pub apply_ref : Reverse B → ℕ → List ℕ → Reverse B
  unfolding drop_edges add_edges
  apply_ref x referrer [] = record {
    reverse = drop_edges x.reverse (all_targets (Dict.get x.reverse_refs referrer)) referrer;
    reverse_refs = Dict.remove x.reverse_refs referrer;
  }
  apply_ref x referrer (t ∷ ts) = record {
    reverse =
        add_edges (drop_edges x.reverse (all_targets (Dict.get x.reverse_refs referrer)) referrer)
          (t ∷ ts) referrer;
    reverse_refs = Dict.put x.reverse_refs referrer (t ∷ ts);
  }

  unfoldable pub remove_ref : Reverse B → ℕ → Reverse B
  unfolding drop_edges
  remove_ref x deleted = record {
    reverse = drop_edges x.reverse (all_targets (Dict.get x.reverse_refs deleted)) deleted;
    reverse_refs = Dict.remove x.reverse_refs deleted;
  }

  unfoldable pub apply_reverse : Reverse B → List (ℕ × List ℕ) → Reverse B
  unfolding apply_ref
  apply_reverse x [] = x
  apply_reverse x ((referrer, targets) ∷ entries) =
      apply_reverse (apply_ref x referrer targets) entries

  unfoldable pub remove_reverse : Reverse B → List ℕ → Reverse B
  unfolding remove_ref
  remove_reverse x [] = x
  remove_reverse x (deleted ∷ rest) = remove_reverse (remove_ref x deleted) rest

  referrers-put :
      (rev : Dict ℕ B) (t u : ℕ) (ids : B)
      → referrers (Dict.put rev t ids) u ≡ (if t == u then ids else referrers rev u)
  referrers-put rev t u ids = rw (referrers, get-put rev t u ids) (ground arith)

  mem-add_edges :
      (rev : Dict ℕ B) (ts : List ℕ) (r u n : ℕ)
      → bm.mem (referrers (add_edges rev ts r) u) n
        ≡ ((contains ts u && r == n) || bm.mem (referrers rev u) n)
  unfolding add_edges
  mem-add_edges rev [] r u n = refl
  mem-add_edges rev (t ∷ ts) r u n =
      mem-add_edges (Dict.put rev t (bm.add (referrers rev t) r)) ts r u n
      ∙ rw (referrers-put rev t u (bm.add (referrers rev t) r)) (elim (Bool-cases (t == u)) [
        | inl y ↦ rw (y, (==_iff t u).0 y, bm.mem_add (referrers rev u) r n) (ground arith)
        | inr q ↦ rw q refl
      ])

  -- One edge is dropped.
  mem_dropped :
      (rev : Dict ℕ B) (t r u n : ℕ)
      → bm.mem
          (referrers
            (elim (Dict.get rev t) [ none ↦ rev | some ids ↦ Dict.put rev t (bm.discard ids r) ])
            u)
          n
        ≡ (not (t == u && r == n) && bm.mem (referrers rev u) n)
  mem_dropped rev t r u n = elim (Option-cases (Dict.get rev t)) [
    | inl e ↦ rw e (elim (Bool-cases (t == u)) [
      | inl y ↦
          let nobody : bm.mem (referrers rev u) n ≡ false =
            subst (λ u. bm.mem (referrers rev u) n ≡ false) ((==_iff t u).0 y)
              (rw (referrers, e) (bm.mem_empty n)) in
          rw (y, nobody) (ground arith)
      | inr q ↦ rw q refl
    ])
    | inr (ids, e) ↦ rw e (
        rw (referrers-put rev t u (bm.discard ids r)) (elim (Bool-cases (t == u)) [
          | inl y ↦
              let same : referrers rev u ≡ ids =
                subst (λ u. referrers rev u ≡ ids) ((==_iff t u).0 y) (rw (referrers, e) refl) in
              rw (y, same) (bm.mem_discard ids r n)
          | inr q ↦ rw q refl
        ]))
  ]

  mem-drop_edges :
      (rev : Dict ℕ B) (ts : List ℕ) (r u n : ℕ)
      → bm.mem (referrers (drop_edges rev ts r) u) n
        ≡ (not (contains ts u && r == n) && bm.mem (referrers rev u) n)
  unfolding drop_edges
  mem-drop_edges rev [] r u n = refl
  mem-drop_edges rev (t ∷ ts) r u n =
      mem-drop_edges
        (elim (Dict.get rev t) [ none ↦ rev | some ids ↦ Dict.put rev t (bm.discard ids r) ]) ts r u
        n
      ∙ rw (mem_dropped rev t r u n) (ground arith)

  -- An id refers to a target if and only if it is among the referrers of the target.
  abbrev pub Inverse : Reverse B → Type 0
  Inverse x =
      (u n : ℕ)
      → bm.mem (referrers x.reverse u) n ≡ contains (all_targets (Dict.get x.reverse_refs n)) u

  module _ (x : Reverse B) (inverse : Inverse x) (r u n : ℕ) where
    cut_off :
        bm.mem (referrers (drop_edges x.reverse (all_targets (Dict.get x.reverse_refs r)) r) u) n
        ≡ (if r == n then false else contains (all_targets (Dict.get x.reverse_refs n)) u)
    cut_off =
        mem-drop_edges x.reverse (all_targets (Dict.get x.reverse_refs r)) r u n
        ∙ rw (inverse u n) (elim (Bool-cases (r == n)) [
          | inl y ↦ rw (y, (==_iff r n).0 y) (ground arith)
          | inr q ↦ rw q (ground arith)
        ])

  apply_ref-Inverse :
      (x : Reverse B) (r : ℕ) (targets : List ℕ) → Inverse x → Inverse (apply_ref x r targets)
  unfolding apply_ref
  apply_ref-Inverse x r [] inverse u n =
      cut_off x inverse r u n
      ∙ rw (get-remove x.reverse_refs r n)
          (elim (Bool-cases (r == n)) [ inl y ↦ rw y refl | inr q ↦ rw q refl ])
  apply_ref-Inverse x r (t ∷ ts) inverse u n =
      mem-add_edges (drop_edges x.reverse (all_targets (Dict.get x.reverse_refs r)) r) (t ∷ ts) r u
        n
      ∙ rw (cut_off x inverse r u n, get-put x.reverse_refs r n (t ∷ ts))
          (elim (Bool-cases (r == n)) [ inl y ↦ rw y (ground arith) | inr q ↦ rw q (ground arith) ])

  remove_ref-Inverse : (x : Reverse B) (deleted : ℕ) → Inverse x → Inverse (remove_ref x deleted)
  unfolding remove_ref
  remove_ref-Inverse x deleted inverse u n =
      cut_off x inverse deleted u n
      ∙ rw (get-remove x.reverse_refs deleted n)
          (elim (Bool-cases (deleted == n)) [ inl y ↦ rw y refl | inr q ↦ rw q refl ])

  apply_reverse-Inverse :
      (x : Reverse B) (entries : List (ℕ × List ℕ)) → Inverse x → Inverse (apply_reverse x entries)
  unfolding apply_reverse
  apply_reverse-Inverse x [] inverse = inverse
  apply_reverse-Inverse x ((r, targets) ∷ entries) inverse =
      apply_reverse-Inverse (apply_ref x r targets) entries (apply_ref-Inverse x r targets inverse)

  removed : (x : Reverse B) (deleted : List ℕ) → Inverse x → Inverse (remove_reverse x deleted)
  unfolding remove_reverse
  removed x [] inverse = inverse
  removed x (d ∷ deleted) inverse =
      removed (remove_ref x d) deleted (remove_ref-Inverse x d inverse)

  -- The references of a commit, those of its entries and then its deletions, keep the two directions inverse to
  -- each other: an id refers to a target if and only if it is among the referrers of the target.
  pub remove_reverse-Inverse :
      (x : Reverse B) (entries : List (ℕ × List ℕ)) (deleted : List ℕ)
      → Inverse x
      → Inverse (remove_reverse (apply_reverse x entries) deleted)
  remove_reverse-Inverse x entries deleted inverse =
      removed (apply_reverse x entries) deleted (apply_reverse-Inverse x entries inverse)
