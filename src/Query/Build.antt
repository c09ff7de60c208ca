-- ===== src/Query/Build.antt =====
-- The end of a bulk build.
use datacrystal.Base.{
  String, List, [], ◌∷◌, none, some, Bool-cases, Option-cases, inl, inr, true, false, ◌==◌, ==_iff,
  contains, if◌then◌else◌, ◌≡◌, refl, ◌∙◌, arith, nat_eq, string_eq, option_eq, option_beq,
}
use datacrystal.Base.Dict
use datacrystal.Base.Dict.{Dict, get-put, has-eq-get}
use datacrystal.Query.Bitmap.{BitMap64}
use datacrystal.Query.ClassIndexes.{
  ClassIndexes, Postings, sort_keys, present_keys, finalize_runs, finalize_build,
}
use datacrystal.Query.Keys.{Keys, key_eq}
use datacrystal.Query.Plan.{column, holders_of, run_of}
use datacrystal.Query.Runs.{sort_keys-Sorted, contains-sort_keys}
use datacrystal.Query.Tidy.{distinct, Run, Tidy}

module _ {K B : Type 0} ⦃o : Keys K⦄ ⦃bm : BitMap64 B⦄ where
  pub contains-present_keys :
      (col : Postings K B) (k : K) → contains (present_keys col) k ≡ Dict.has col (some k)
  unfolding present_keys Dict.has option_beq
  contains-present_keys [] k = refl
  contains-present_keys ((none, ids) ∷ col) k = contains-present_keys col k
  contains-present_keys ((some j, ids) ∷ col) k = rw (contains-present_keys col k) refl

  sorted-Run : (col : Postings K B) → Run (sort_keys (present_keys col)) col
  sorted-Run col = record {
    sorted = sort_keys-Sorted (present_keys col);
    members = λ k. contains-sort_keys (present_keys col) k ∙ contains-present_keys col k;
  }

  module _ (ci : ClassIndexes K B) where
    -- The run that the build enters for a field.
    abbrev entered : String → List K
    entered f = sort_keys (elim (Dict.get ci.eq f) [ none ↦ [] | some col ↦ present_keys col ])

    entered-column : (f : String) → entered f ≡ sort_keys (present_keys (column ci f))
    unfolding column present_keys
    entered-column f = elim (Option-cases (Dict.get ci.eq f)) [
      | inl e ↦ rw (column, e) refl
      | inr (col, e) ↦ rw (column, e) refl
    ]

    finalized :
        (fields : List String) (runs : Dict String (List K)) (f : String)
        → Dict.get (finalize_runs ci.eq fields runs) f
          ≡ (if contains fields f then some (entered f) else Dict.get runs f)
    unfolding finalize_runs
    finalized [] runs f = refl
    finalized (g ∷ fields) runs f =
        finalized fields (Dict.put runs g (entered g)) f
        ∙ rw (get-put runs g f (entered g)) (elim (Bool-cases (g == f)) [
          | inl y ↦ rw (y, (==_iff g f).0 y) (ground arith)
          | inr n ↦ rw n refl
        ])

    -- `finalize_build` ends a bulk build with the shape that `insert` keeps: every sorted run is in order, with
    -- exactly the keys of its column that are not `None`, whatever the runs were, where no key stands twice in a
    -- column or a unique map and no sorted field is a list.
    pub finalize_build-Tidy :
        ((f : String) → distinct (column ci f) ≡ true)
        → ((f : String) → distinct (holders_of ci f) ≡ true)
        → ((f : String) → contains ci.sorted_fields f ≡ true → contains ci.list_fields f ≡ false)
        → Tidy (finalize_build ci)
    unfolding finalize_build column holders_of run_of
    finalize_build-Tidy cols maps apart = record {
      live = refl;
      cols = cols;
      maps = maps;
      apart = apart;
      carried = λ f s.
          has-eq-get (finalize_runs ci.eq ci.sorted_fields ci.sorted_keys) f (entered f)
            (finalized ci.sorted_fields ci.sorted_keys f ∙ rw s refl);
      runs = λ f s.
          rw (run_of, finalized ci.sorted_fields ci.sorted_keys f, s, entered-column f)
            (sorted-Run (column ci f));
    }
