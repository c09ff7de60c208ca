-- ===== src/DeltaLog/Reconcile.antt =====
-- `_reconcile_segments` on the files that a crash leaves.
use datacrystal.Base.{
  ℕ, ◌≤◌, ◌<◌, ◌≡◌, refl, sym, ◌∙◌, ap, Bool-cases, Option-cases, inl, inr, true, false, List, [],
  ◌∷◌, ◌++◌, none, some, length, All, All-of-map, All-contains, contains, map, eqb, eqb_iff,
  if◌then◌else◌, arith, nat_eq, ==_iff, ==_refl, ◌≢◌, length-append,
}
use datacrystal.Base.Dict
use datacrystal.Base.Dict.{Dict, get-put}
use mathlib.Core.List.{append-nil}
use datacrystal.Contract.{Bytes}
use datacrystal.DeltaLog.Defs.{Segment}
use datacrystal.DeltaLog.Reopen.{truncate, truncate_all, unlink_unnamed}
use datacrystal.DeltaLog.Invariant.{
  Entries, Begins, Holds, Zip, Increasing, Zip-map, Begins-get, Holds-get,
}

truncate-append : (file debris : Bytes) → truncate (length file) (file ++ debris) ≡ file
unfolding truncate
truncate-append [] debris = refl
truncate-append (b ∷ file) debris = rw (truncate-append file debris)

no_debris : (file debris : Bytes) → length file ≡ length (file ++ debris) → file ++ debris ≡ file
no_debris file [] h = append-nil file
no_debris file (b ∷ debris) h = absurd (omega (arith, h, length-append file (b ∷ debris)))

-- One round of the loop of truncations.
abbrev cut : Segment → Dict ℕ Bytes → Dict ℕ Bytes
cut s files = elim (Dict.get files s.number) [
  | none ↦ files
  | some file ↦
      if eqb (length file) s.nbytes then files else Dict.put files s.number (truncate s.nbytes file)
]

get-cut :
    (s : Segment) (files : Dict ℕ Bytes) (k : ℕ)
    → s.number ≢ k
    → Dict.get (cut s files) k ≡ Dict.get files k
get-cut s files k h = elim (Option-cases (Dict.get files s.number)) [
  | inl n ↦ rw (n, cut) refl
  | inr (file, e) ↦
      rw (e, cut)
        (ground (arith, get-put files s.number k (truncate s.nbytes file), ==_iff s.number k))
]

cut-found :
    (s : Segment) (files : Dict ℕ Bytes) (g : Entries) (h : Begins files s g)
    → Dict.get (cut s files) s.number ≡ some h.file
cut-found s files g h = elim (Bool-cases (eqb (length (h.file ++ h.debris)) s.nbytes)) [
  | inl y ↦
      rw (h.found, y, cut)
        (h.found ∙ ap some (no_debris h.file h.debris (sym h.size ∙ sym ((eqb_iff _ _).0 y))))
  | inr n ↦
      rw (h.found, n, cut)
        (get-put files s.number s.number (truncate s.nbytes (h.file ++ h.debris))
          ∙ rw (h.size, ==_refl s.number, truncate-append h.file h.debris))
]

get-truncate_all :
    (ss : List Segment) (files : Dict ℕ Bytes) (k : ℕ)
    → All (λ t. k < t.number) ss
    → Dict.get (truncate_all ss files) k ≡ Dict.get files k
unfolding truncate_all
get-truncate_all [] files k h = refl
get-truncate_all (s ∷ ss) files k h =
    get-truncate_all ss (cut s files) k h.1 ∙ get-cut s files k (omega (arith, h.0))

-- Every segment is cut back to its committed bytes.
truncate_all-Holds :
    (ss : List Segment) (gs : List Entries) (files : Dict ℕ Bytes)
    → Increasing ss
    → Zip (Begins files) ss gs
    → Zip (Holds (truncate_all ss files)) ss gs
unfolding truncate_all
truncate_all-Holds [] [] files i z = tt
truncate_all-Holds (s ∷ ss) (g ∷ gs) files i z = (
  record {
    file = z.0.file;
    found = get-truncate_all ss (cut s files) s.number i.0 ∙ cut-found s files g z.0;
    framed = z.0.framed;
    size = z.0.size;
    below = z.0.below;
  },
  truncate_all-Holds ss gs (cut s files) i.1 (
      Zip-map {P = λ t. s.number < t.number} {R = Begins files} {Q = Begins (cut s files)} ss gs
        (λ t g l b.
          Begins-get files (cut s files) t g (get-cut s files t.number (omega (arith, l))) b)
        i.0 z.1),
)
truncate_all-Holds [] (g ∷ gs) files i z = absurd z
truncate_all-Holds (s ∷ ss) [] files i z = absurd z

get-unlink_unnamed :
    (named : List ℕ) (files : Dict ℕ Bytes) (k : ℕ)
    → Dict.get (unlink_unnamed named files) k
      ≡ (if contains named k then Dict.get files k else none)
unfolding unlink_unnamed Dict.get
get-unlink_unnamed named [] k = ground arith
get-unlink_unnamed named ((number, file) ∷ files) k =
    ground (arith, get-unlink_unnamed named files k, ==_iff number k)

abbrev numbers : List Segment → List ℕ
numbers = map (λ s. s.number)

-- The files after the reconciliation.
abbrev pub reconciled : List Segment → Dict ℕ Bytes → Dict ℕ Bytes
reconciled ss files = unlink_unnamed (map (λ s. s.number) ss) (truncate_all ss files)

pub reconciled-Holds :
    (ss : List Segment) (gs : List Entries) (files : Dict ℕ Bytes)
    → Increasing ss
    → Zip (Begins files) ss gs
    → Zip (Holds (reconciled ss files)) ss gs
reconciled-Holds ss gs files i z =
    Zip-map {P = λ s. contains (numbers ss) s.number ≡ true} {R = Holds (truncate_all ss files)}
      {Q = Holds (reconciled ss files)} ss gs
      (λ s g c h.
        Holds-get (truncate_all ss files) (reconciled ss files) s g
          (get-unlink_unnamed (numbers ss) (truncate_all ss files) s.number ∙ rw c) h)
      (All-of-map (λ n. contains (numbers ss) n ≡ true) (λ s. s.number) ss
        (All-contains (numbers ss)))
      (truncate_all-Holds ss gs files i z)

contains-numbers :
    (ss : List Segment) (next n : ℕ)
    → All (λ s. s.number < next) ss
    → next ≤ n
    → contains (numbers ss) n ≡ false
contains-numbers [] next n h le = refl
contains-numbers (s ∷ ss) next n h le =
    ground (arith, contains-numbers ss next n h.1 le, h.0, ==_iff s.number n)

-- Nothing is left under a number that is not in use.
pub reconciled-clear :
    (ss : List Segment) (files : Dict ℕ Bytes) (next n : ℕ)
    → All (λ s. s.number < next) ss
    → next ≤ n
    → Dict.get (reconciled ss files) n ≡ none
reconciled-clear ss files next n u le =
    get-unlink_unnamed (numbers ss) (truncate_all ss files) n ∙ rw (contains-numbers ss next n u le)
