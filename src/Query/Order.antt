-- ===== src/Query/Order.antt =====
-- The order of a result by an indexed field: `order_via_index` and `windowed_index_order`.
use datacrystal.Base.{
  ℕ, zero, suc, ◌+◌, ◌≤◌, String, List, [], ◌∷◌, ◌++◌, Option, none, some, Bool, Bool-cases, inl,
  inr, contains, length, take, drop, leb, ltb, if◌then◌else◌, ◌≡◌, refl, ◌∙◌, sym, ap, arith,
  nat_eq, string_eq, option_eq,
}
use datacrystal.Query.Bitmap.{BitMap64}
use datacrystal.Query.ClassIndexes.{ClassIndexes, posting_of, present_keys, sort_keys}
use datacrystal.Query.Keys.{Keys, key_eq}
use datacrystal.Query.Plan.{column, run_of}
use datacrystal.Query.Window.{apply_window, drop-take}

abbrev pub reverse : {A : Type 0} → List A → List A
reverse [] = []
reverse (x ∷ xs) = reverse xs ++ x ∷ []

take-append : (n : ℕ) (xs ys : List ℕ) → n ≤ length xs → take n (xs ++ ys) ≡ take n xs
take-append zero xs ys h = refl
take-append (suc n) [] ys h = absurd (omega (arith, h))
take-append (suc n) (x ∷ xs) ys h = ap (λ zs. x ∷ zs) (take-append n xs ys (omega (arith, h)))

append_assoc : (xs ys zs : List ℕ) → (xs ++ ys) ++ zs ≡ xs ++ (ys ++ zs)
append_assoc [] ys zs = refl
append_assoc (x ∷ xs) ys zs = ap (λ ws. x ∷ ws) (append_assoc xs ys zs)

module _ {K B : Type 0} ⦃o : Keys K⦄ ⦃bm : BitMap64 B⦄ where
  -- The keys of the field in their order: the sorted run, or the keys sorted once.
  unfoldable pub ordered_keys : ClassIndexes K B → String → Bool → List K
  unfolding column run_of present_keys sort_keys
  ordered_keys ci field descending =
      let keys =
        if contains ci.sorted_fields field
        then run_of ci field
        else sort_keys (present_keys (column ci field)) in
      if descending then reverse keys else keys

  -- `postings[key] & matched`
  abbrev pub matched_of : ClassIndexes K B → B → String → Option K → List ℕ
  matched_of ci matched field key = bm.iter (bm.inter (posting_of (column ci field) key) matched)

  unfoldable pub extend_all : ClassIndexes K B → B → String → List K → List ℕ
  extend_all ci matched field [] = []
  extend_all ci matched field (key ∷ keys) =
      matched_of ci matched field (some key) ++ extend_all ci matched field keys

  unfoldable pub order_via_index : ClassIndexes K B → B → String → Bool → List ℕ
  unfolding ordered_keys extend_all
  order_via_index ci matched field descending =
      extend_all ci matched field (ordered_keys ci field descending)
      ++ matched_of ci matched field none

  -- The loop that stops when the window is full, and the nulls if it is not.
  unfoldable pub fill_window : ClassIndexes K B → B → String → ℕ → List ℕ → List K → List ℕ
  fill_window ci matched field stop out [] =
      if ltb (length out) stop then out ++ matched_of ci matched field none else out
  fill_window ci matched field stop out (key ∷ keys) =
      let more = out ++ matched_of ci matched field (some key) in
      let rest = fill_window ci matched field stop more keys in
      if leb stop (length more) then more else rest

  unfoldable pub windowed_index_order : ClassIndexes K B → B → String → Bool → Option ℕ → ℕ → List ℕ
  unfolding order_via_index fill_window
  windowed_index_order ci matched field descending none offset =
      drop offset (order_via_index ci matched field descending)
  windowed_index_order ci matched field descending (some limit) offset = drop offset (
      take (offset + limit)
        (fill_window ci matched field (offset + limit) [] (ordered_keys ci field descending)))

  take-fill_window :
      (ci : ClassIndexes K B) (matched : B) (field : String) (stop : ℕ) (out : List ℕ)
      (keys : List K)
      → take stop (fill_window ci matched field stop out keys)
        ≡ take stop (out ++ (extend_all ci matched field keys ++ matched_of ci matched field none))
  unfolding fill_window extend_all
  take-fill_window ci matched field stop out [] = elim (Bool-cases (ltb (length out) stop)) [
    | inl y ↦ rw (fill_window, y) refl
    | inr n ↦
        rw (fill_window, n)
          (sym (take-append stop out (matched_of ci matched field none) (ground (arith, n))))
  ]
  take-fill_window ci matched field stop out (key ∷ keys) =
      let more = out ++ matched_of ci matched field (some key) in
      let rest = extend_all ci matched field keys ++ matched_of ci matched field none in
      let joined : more ++ rest
          ≡ out
            ++ ((matched_of ci matched field (some key) ++ extend_all ci matched field keys)
                ++ matched_of ci matched field none) =
        append_assoc out (matched_of ci matched field (some key)) rest
        ∙ ap (λ zs. out ++ zs)
            (sym (
              append_assoc (matched_of ci matched field (some key))
                (extend_all ci matched field keys) (matched_of ci matched field none))) in
      elim (Bool-cases (leb stop (length more))) [
        | inl y ↦
            rw (fill_window, y)
              (sym (take-append stop more rest (ground (arith, y))) ∙ ap (take stop) joined)
        | inr n ↦
            rw (fill_window, n)
              (take-fill_window ci matched field stop more keys ∙ ap (take stop) joined)
      ]

  -- The window that is filled key by key is the window of the whole order.
  pub windowed_index_order-order_via_index :
      (ci : ClassIndexes K B) (matched : B) (field : String) (descending : Bool) (limit : Option ℕ)
      (offset : ℕ)
      → windowed_index_order ci matched field descending limit offset
        ≡ apply_window (order_via_index ci matched field descending) limit offset
  unfolding windowed_index_order order_via_index apply_window
  windowed_index_order-order_via_index ci matched field descending none offset = refl
  windowed_index_order-order_via_index ci matched field descending (some limit) offset =
      ap (drop offset)
        (take-fill_window ci matched field (offset + limit) [] (ordered_keys ci field descending))
      ∙ drop-take offset limit (order_via_index ci matched field descending)
