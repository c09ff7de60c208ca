-- ===== src/Query/Columns.antt =====
-- What indexing and un-indexing one field does to the shape of its column and run.
use datacrystal.Base.{
  ℕ, String, List, Option, none, some, Bool-cases, Option-cases, inl, inr, true, false, not, ◌==◌,
  ==_iff, ==_refl, ◌||◌, contains, ◌≡◌, refl, ◌∙◌, sym, nat_eq, string_eq, option_eq,
}
use mathlib.Core.Path.{subst}
use datacrystal.Base.Dict
use datacrystal.Base.Dict.{Dict, get-put, get_of_has, has-eq-get}
use datacrystal.Query.Bitmap.{BitMap64}
use datacrystal.Query.ClassIndexes.{
  ClassIndexes, Postings, insort, post, unpost, post_all, unpost_all, enter_sorted_run, runs_after,
  index_list_field, index_eq, unindex_list_field, unindex_eq,
}
use datacrystal.Query.Keys.{Keys, key_eq}
use datacrystal.Query.Plan.{column, holders_of, run_of}
use datacrystal.Query.Tidy.{
  distinct, Run, Tidy, post-distinct, unpost-distinct, post_all-distinct, unpost_all-distinct,
  post-Run, none-Run, insort-Run, unpost-Run,
}

module _ {K B : Type 0} ⦃o : Keys K⦄ ⦃bm : BitMap64 B⦄ where
  module _ (ci : ClassIndexes K B) (t : Tidy ci) (g : String) (col col' : Postings K B)
      (found : Dict.get ci.eq g ≡ some col) where
    column_found : column ci g ≡ col
    unfolding column
    column_found = rw (column, found) refl

    col_distinct : distinct col ≡ true
    col_distinct = subst (λ c. distinct c ≡ true) column_found (t.cols g)

    -- A column and its run are replaced.
    set-Tidy :
        (runs : Dict String (List K))
        → distinct col' ≡ true
        → ((f : String) → (g == f) ≡ false → Dict.get runs f ≡ Dict.get ci.sorted_keys f)
        → (contains ci.sorted_fields g ≡ true
            → (run : List K) × (Dict.get runs g ≡ some run) × Run run col')
        → Tidy (record ci { eq = Dict.put ci.eq g col'; sorted_keys = runs })
    unfolding column run_of holders_of
    set-Tidy runs d keep own = record {
      live = t.live;
      cols = λ f.
          rw (column, get-put ci.eq g f col')
            (elim (Bool-cases (g == f)) [ inl y ↦ rw y d | inr n ↦ rw n (t.cols f) ]);
      maps = t.maps;
      apart = t.apart;
      carried = λ f s. elim (Bool-cases (g == f)) [
        | inl y ↦
            let (run, e, r) =
              own (subst (λ f. contains ci.sorted_fields f ≡ true) (sym ((==_iff g f).0 y)) s) in
            has-eq-get runs f run (subst (λ f. Dict.get runs f ≡ some run) ((==_iff g f).0 y) e)
        | inr n ↦
            let (run, e) = get_of_has ci.sorted_keys f (t.carried f s) in
            has-eq-get runs f run (keep f n ∙ e)
      ];
      runs = λ f s. elim (Bool-cases (g == f)) [
        | inl y ↦
            let (run, e, r) =
              own (subst (λ f. contains ci.sorted_fields f ≡ true) (sym ((==_iff g f).0 y)) s) in
            rw
              (
                run_of,
                column,
                get-put ci.eq g f col',
                y,
                subst (λ f. Dict.get runs f ≡ some run) ((==_iff g f).0 y) e,
              )
              r
        | inr n ↦ rw (run_of, column, get-put ci.eq g f col', n, keep f n) (t.runs f s)
      ];
    }

    -- The run of the column before.
    run_before :
        contains ci.sorted_fields g ≡ true
        → (run : List K) × (Dict.get ci.sorted_keys g ≡ some run) × Run run col
    unfolding run_of
    run_before s =
        let (run, e) = get_of_has ci.sorted_keys g (t.carried g s) in
        let same : run_of ci g ≡ run = rw (run_of, e) refl in
        (
          run,
          e,
          subst (λ c. Run run c) column_found (subst (λ r. Run r (column ci g)) same (t.runs g s)),
        )

  pub index_list_field-Tidy :
      (ci : ClassIndexes K B) (oid : ℕ) (g : String) (ks : List (Option K))
      → contains ci.list_fields g ≡ true
      → Tidy ci
      → Tidy (index_list_field ci oid g ks)
  unfolding index_list_field
  index_list_field-Tidy ci oid g ks l t = elim (Option-cases (Dict.get ci.eq g)) [
    | inl e ↦ rw (index_list_field, e) t
    | inr (col, e) ↦
        rw (index_list_field, e)
          (set-Tidy ci t g col (post_all col ks oid) e ci.sorted_keys
            (post_all-distinct col ks oid (col_distinct ci t g col col e)) (λ f n. refl)
            (λ s. absurd (cc (l, t.apart g s))))
  ]

  pub unindex_list_field-Tidy :
      (ci : ClassIndexes K B) (oid : ℕ) (g : String) (ks : List (Option K))
      → contains ci.list_fields g ≡ true
      → Tidy ci
      → Tidy (unindex_list_field ci oid g ks)
  unfolding unindex_list_field
  unindex_list_field-Tidy ci oid g ks l t = elim (Option-cases (Dict.get ci.eq g)) [
    | inl e ↦ rw (unindex_list_field, e) t
    | inr (col, e) ↦
        rw (unindex_list_field, e)
          (set-Tidy ci t g col (unpost_all col ks oid) e ci.sorted_keys
            (unpost_all-distinct col ks oid (col_distinct ci t g col col e)) (λ f n. refl)
            (λ s. absurd (cc (l, t.apart g s))))
  ]

  pub unindex_eq-Tidy :
      (ci : ClassIndexes K B) (oid : ℕ) (g : String) (v : Option K)
      → Tidy ci
      → Tidy (unindex_eq ci oid g v)
  unfolding unindex_eq
  unindex_eq-Tidy ci oid g v t = elim (Option-cases (Dict.get ci.eq g)) [
    | inl e ↦ rw (unindex_eq, e) t
    | inr (col, e) ↦
        rw (unindex_eq, e)
          (set-Tidy ci t g col (unpost col v oid) e ci.sorted_keys
            (unpost-distinct col v oid (col_distinct ci t g col col e)) (λ f n. refl)
            (λ s.
              let (run, q, r) = run_before ci t g col col e s in
              (run, q, unpost-Run run col v oid r)))
  ]

  -- The runs after a key is used.
  module _ (ci : ClassIndexes K B) (t : Tidy ci) (g : String) (col : Postings K B) (oid : ℕ) where
    runs_elsewhere :
        (v : Option K) (f : String)
        → (g == f) ≡ false
        → Dict.get (runs_after ci g col v) f ≡ Dict.get ci.sorted_keys f
    unfolding runs_after enter_sorted_run
    runs_elsewhere none f n = elim (Option-cases (Dict.get col none)) [
      | inl e ↦ rw (runs_after, e) refl
      | inr (ids, e) ↦ rw (runs_after, e) refl
    ]
    runs_elsewhere (some v) f n = elim (Option-cases (Dict.get col (some v))) [
      | inr (ids, e) ↦ rw (runs_after, e) refl
      | inl e ↦
          rw (runs_after, e)
            (elim (Bool-cases (not (contains ci.sorted_fields g) || ci.building)) [
              | inl y ↦ rw (enter_sorted_run, y) refl
              | inr m ↦
                  rw (enter_sorted_run, m)
                    (elim (Option-cases (Dict.get ci.sorted_keys g)) [
                      | inl q ↦ rw q refl
                      | inr (run, q) ↦ rw (q, get-put ci.sorted_keys g f (insort run v), n) refl
                    ])
            ])
    ]

    run_after :
        (v : Option K) (run : List K)
        → contains ci.sorted_fields g ≡ true
        → Dict.get ci.sorted_keys g ≡ some run
        → Run run col
        → (run' : List K) × (Dict.get (runs_after ci g col v) g ≡ some run')
          × Run run' (post col v oid)
    unfolding runs_after enter_sorted_run
    run_after none run s q r = elim (Option-cases (Dict.get col none)) [
      | inl e ↦ (run, rw (runs_after, e) q, none-Run run col oid r)
      | inr (ids, e) ↦ (run, rw (runs_after, e) q, post-Run run col none oid ids e r)
    ]
    run_after (some v) run s q r = elim (Option-cases (Dict.get col (some v))) [
      | inr (ids, e) ↦ (run, rw (runs_after, e) q, post-Run run col (some v) oid ids e r)
      | inl e ↦ (
        insort run v,
        rw
            (
              runs_after,
              e,
              enter_sorted_run,
              s,
              t.live,
              q,
              get-put ci.sorted_keys g g (insort run v),
              ==_refl g,
            )
            refl,
        insort-Run run col v oid r,
      )
    ]

  pub index_eq-Tidy :
      (ci : ClassIndexes K B) (oid : ℕ) (g : String) (v : Option K)
      → Tidy ci
      → Tidy (index_eq ci oid g v)
  unfolding index_eq
  index_eq-Tidy ci oid g v t = elim (Option-cases (Dict.get ci.eq g)) [
    | inl e ↦ rw (index_eq, e) t
    | inr (col, e) ↦
        rw (index_eq, e)
          (set-Tidy ci t g col (post col v oid) e (runs_after ci g col v)
            (post-distinct col v oid (col_distinct ci t g col col e))
            (runs_elsewhere ci t g col oid v)
            (λ s.
              let (run, q, r) = run_before ci t g col col e s in
              run_after ci t g col oid v run s q r))
  ]
