-- ===== src/Query/Halfway.antt =====
-- `insert` and `remove` against the memory of the rows, in the middle of a commit.
use datacrystal.Base.{
  ℕ, String, List, ◌∷◌, contains, Option, none, some, Bool, Bool-cases, Option-cases, inl, inr,
  true, false, not, ◌==◌, ==_iff, ◌&&◌, if◌then◌else◌, ◌≡◌, refl, ◌∙◌, sym, arith, nat_eq,
  string_eq,
}
use mathlib.Core.Path.{subst}
use datacrystal.Base.Dict
use datacrystal.Base.Dict.{Dict, get-put, get-remove}
use datacrystal.Query.Bitmap.{BitMap64}
use datacrystal.Query.ClassIndexes.{ClassIndexes, Row, forget, insert, remove}
use datacrystal.Query.Keys.{Keys, key_eq}
use datacrystal.Query.Plan.{column, holders_of}
use datacrystal.Query.Postings.{posted}
use datacrystal.Query.Owners.{owns}
use datacrystal.Query.Rows.{claims, unindex-Unindexed, index_row-Indexed}
use datacrystal.Query.Mirror.{keyed_by, claimed_by, Halfway, FreeBut, Cleared}

dropped : (a b : Bool) → (a ≡ true → b ≡ true) → b ≡ false → a ≡ false
dropped true b h e = absurd (cc (h refl, e))
dropped false b h e = refl

released : (a b : Bool) → (a ≡ true → b ≡ true) → (not (b && true) && a) ≡ false
released true b h = rw (h refl) refl
released false b h = ground arith

given_here : (c e w : Bool) → (if c then e else (not e && w)) ≡ true → e ≡ true → c ≡ true
given_here c e w h y = ground arith

held_before : (c e w : Bool) → (if c then e else (not e && w)) ≡ true → e ≡ false → w ≡ true
held_before c e w h y = ground arith

module _ {K B : Type 0} ⦃o : Keys K⦄ ⦃bm : BitMap64 B⦄ where
  module _ (gone : List ℕ) (ci : ClassIndexes K B) (m : Halfway gone ci) (oid : ℕ) where
    -- What a remembered row says of its own id.
    module _ (r : Option (Row K)) (e : Dict.get ci.last_values oid ≡ r) (n : ℕ)
        (same : (oid == n) ≡ true) where
      own_posts :
          (f : String) (k : Option K)
          → Dict.has ci.eq f ≡ true
          → posted ci f k n ≡ keyed_by ci.list_fields r f k
      own_posts f k h =
          subst (λ n. posted ci f k n ≡ keyed_by ci.list_fields r f k) ((==_iff oid n).0 same)
            (rw (m.posts f k oid h, e) refl)

      own_owners :
          (f : String) (w : K)
          → Dict.has ci.unique f ≡ true
          → owns ci f w n ≡ true
          → claimed_by ci.list_fields r f w ≡ true
      own_owners f w h =
          subst (λ n. owns ci f w n ≡ true → claimed_by ci.list_fields r f w ≡ true)
            ((==_iff oid n).0 same) (λ p. rw (sym e) (m.stale f w oid h p))

    nothing-Cleared : Dict.get ci.last_values oid ≡ none → Cleared ci ci oid
    nothing-Cleared e = record {
      cols = λ f. refl;
      maps = λ f. refl;
      lists = refl;
      extent = refl;
      memory = λ n. elim (Bool-cases (oid == n)) [
        | inl y ↦ rw y (subst (λ n. Dict.get ci.last_values n ≡ none) ((==_iff oid n).0 y) e)
        | inr q ↦ rw q refl
      ];
      posts = λ f k n h. elim (Bool-cases (oid == n)) [
        | inl y ↦ rw (y, own_posts none e n y f k h) refl
        | inr q ↦ rw q refl
      ];
      owners = λ f w n h. elim (Bool-cases (oid == n)) [
        | inl y ↦ rw y (dropped (owns ci f w n) false (own_owners none e n y f w h) refl)
        | inr q ↦ rw q refl
      ];
    }

    pub forget-Cleared : Cleared ci (forget ci oid) oid
    unfolding forget column holders_of
    forget-Cleared = elim (Option-cases (Dict.get ci.last_values oid)) [
      | inl e ↦ rw (forget, e) (nothing-Cleared e)
      | inr (old, e) ↦
          let u =
            unindex-Unindexed (record ci { last_values = Dict.remove ci.last_values oid }) oid
              old in
          rw (forget, e)
            (record {
              cols = u.kept.cols;
              maps = u.kept.maps;
              lists = u.kept.lists;
              extent = u.kept.extent;
              memory = λ n. rw (u.kept.memory) (get-remove ci.last_values oid n);
              posts = λ f k n h. u.posts f k n h ∙ elim (Bool-cases (oid == n)) [
                | inl y ↦ rw (y, own_posts (some old) e n y f k h) (ground arith)
                | inr q ↦ rw q (ground arith)
              ];
              owners = λ f w n h. u.owners f w n h ∙ elim (Bool-cases (oid == n)) [
                | inl y ↦ rw y (
                    released (owns ci f w n) (claims ci.list_fields old f w)
                      (own_owners (some old) e n y f w h))
                | inr q ↦ rw q (ground arith)
              ];
            })
    ]

    pub remove-Halfway : (gone' : List ℕ) → gone ≡ oid ∷ gone' → Halfway gone' (remove ci oid)
    unfolding remove column holders_of
    remove-Halfway gone' g =
        let c = forget-Cleared in
        record {
          within = λ n.
              bm.mem_discard (forget ci oid).extent oid n
              ∙ rw (c.extent, m.within n, c.memory n)
                  (elim (Bool-cases (oid == n)) [ inl y ↦ rw y refl | inr q ↦ rw q refl ]);
          posts = λ f k n h.
              c.posts f k n (sym (c.cols f) ∙ h)
              ∙ rw (m.posts f k n (sym (c.cols f) ∙ h), c.memory n, c.lists)
                  (elim (Bool-cases (oid == n)) [ inl y ↦ rw y refl | inr q ↦ rw q refl ]);
          owners = λ f w n h p.
              let h' = sym (c.maps f) ∙ h in
              c.owners f w n h'
              ∙ rw (c.memory n, c.lists)
                  (elim (Bool-cases (oid == n)) [
                    | inl y ↦ rw y refl
                    | inr q ↦
                        let left : contains gone n ≡ false = rw (g, q) p in
                        rw (q, m.owners f w n h' left) refl
                  ]);
          stale = λ f w n h p.
              let h' = sym (c.maps f) ∙ h in
              let here : (not (oid == n) && owns ci f w n) ≡ true = sym (c.owners f w n h') ∙ p in
              rw (c.memory n, c.lists)
                (elim (Bool-cases (oid == n)) [
                  | inl y ↦ absurd (ground (arith, y, here))
                  | inr q ↦ rw q (m.stale f w n h' (ground (arith, q, here)))
                ]);
        }

    -- The holders after `insert`.
    pub owns-insert :
        (row : Row K) (f : String) (w : K) (n : ℕ)
        → Dict.has ci.unique f ≡ true
        → owns (insert ci oid row) f w n
          ≡ (if claims ci.list_fields row f w then oid == n else (not (oid == n) && owns ci f w n))
    unfolding insert holders_of
    owns-insert row f w n h =
        let c = forget-Cleared in
        let mid = record (forget ci oid) { extent = bm.add (forget ci oid).extent oid } in
        let i = index_row-Indexed mid oid row in
        i.owners f w n (c.maps f ∙ h) ∙ rw (c.lists, c.owners f w n h) refl

    pub maps-insert :
        (row : Row K) (f : String) → Dict.has (insert ci oid row).unique f ≡ Dict.has ci.unique f
    unfolding insert
    maps-insert row f =
        let mid = record (forget ci oid) { extent = bm.add (forget ci oid).extent oid } in
        (index_row-Indexed mid oid row).kept.maps f ∙ forget-Cleared.maps f

    pub lists-insert : (row : Row K) → (insert ci oid row).list_fields ≡ ci.list_fields
    unfolding insert
    lists-insert row =
        let mid = record (forget ci oid) { extent = bm.add (forget ci oid).extent oid } in
        (index_row-Indexed mid oid row).kept.lists ∙ forget-Cleared.lists

    module _ (row : Row K) (free : FreeBut gone ci oid row) where
      -- One holder after `insert`.
      owner_after :
          (f : String) (w : K) (n : ℕ)
          → contains gone n ≡ false
          → Dict.has ci.unique f ≡ true
          → (if claims ci.list_fields row f w then oid == n else (not (oid == n) && owns ci f w n))
            ≡ (if oid == n then claims ci.list_fields row f w else owns ci f w n)
      owner_after f w n p h = elim (Bool-cases (claims ci.list_fields row f w)) [
        | inl y ↦ elim (Bool-cases (owns ci f w n)) [
          | inl z ↦ rw (y, z, (==_iff oid n).1 (free f w n h y z p)) refl
          | inr z ↦ rw (y, z) (ground arith)
        ]
        | inr q ↦ rw q (ground arith)
      ]

      pub insert-Halfway : Halfway gone (insert ci oid row)
      unfolding insert column holders_of
      insert-Halfway =
          let c = forget-Cleared in
          let mid = record (forget ci oid) { extent = bm.add (forget ci oid).extent oid } in
          let i = index_row-Indexed mid oid row in
          record {
            within = λ n.
                rw
                  (
                    i.kept.extent,
                    i.kept.memory,
                    get-put (forget ci oid).last_values oid n row,
                    c.memory n,
                    bm.mem_add (forget ci oid).extent oid n,
                    c.extent,
                    m.within n,
                  )
                  (elim (Bool-cases (oid == n)) [ inl y ↦ rw y refl | inr q ↦ rw q refl ]);
            posts = λ f k n h.
                let h' = sym (i.kept.cols f) ∙ h in
                let h'' = sym (c.cols f) ∙ h' in
                i.posts f k n h'
                ∙ rw
                    (
                      i.kept.memory,
                      i.kept.lists,
                      get-put (forget ci oid).last_values oid n row,
                      c.memory n,
                      c.lists,
                      c.posts f k n h'',
                      m.posts f k n h'',
                    )
                    (elim (Bool-cases (oid == n)) [
                      | inl y ↦ rw y (ground arith)
                      | inr q ↦ rw q (ground arith)
                    ]);
            owners = λ f w n h p.
                let h' = sym (i.kept.maps f) ∙ h in
                let h'' = sym (c.maps f) ∙ h' in
                owns-insert row f w n h''
                ∙ owner_after f w n p h''
                ∙ rw (m.owners f w n h'' p) (
                    rw
                      (
                        i.kept.memory,
                        i.kept.lists,
                        get-put (forget ci oid).last_values oid n row,
                        c.memory n,
                        c.lists,
                      )
                      (elim (Bool-cases (oid == n)) [ inl y ↦ rw y refl | inr q ↦ rw q refl ]));
            stale = λ f w n h p.
                let h' = sym (i.kept.maps f) ∙ h in
                let h'' = sym (c.maps f) ∙ h' in
                let here : (if claims ci.list_fields row f w
                      then oid == n
                      else (not (oid == n) && owns ci f w n))
                    ≡ true =
                  sym (owns-insert row f w n h'') ∙ p in
                rw
                  (
                    i.kept.memory,
                    i.kept.lists,
                    get-put (forget ci oid).last_values oid n row,
                    c.memory n,
                    c.lists,
                  )
                  (elim (Bool-cases (oid == n)) [
                    | inl y ↦ rw y (
                        given_here (claims ci.list_fields row f w) (oid == n) (owns ci f w n) here
                          y)
                    | inr q ↦ rw q (
                        m.stale f w n h'' (
                          held_before (claims ci.list_fields row f w) (oid == n) (owns ci f w n)
                            here q))
                  ]);
          }
