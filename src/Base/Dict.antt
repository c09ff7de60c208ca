-- ===== src/Base/Dict.antt =====
-- Python's `dict`: an association list in insertion order. A write to a key that is there keeps its
-- place; a new key comes last.
use datacrystal.Base.Tests.{if◌then◌else◌, Bool-cases, some-inj}
use datacrystal.Base.Lists.{All}
use datacrystal.Base.Equality.{Eq, ◌==◌, ==_iff}
use mathlib.Core.Path.{◌≡◌, refl, sym, subst, subst₂}
use mathlib.Core.Logic.{inl, inr}
use mathlib.Core.Bool.{Bool, true, false, ◌||◌}
use mathlib.Core.Option.{Option, none, some}
use mathlib.Core.List.{List, [], ◌∷◌, map}
use native.Mathlib.Omega.{arith}

abbrev pub Dict {ℓ} : Type ℓ → Type ℓ → Type ℓ
Dict K V = List (K × V)

module _ {ℓ} {K V : Type ℓ} ⦃e : Eq K⦄ where
  -- d.get(k)
  unfoldable pub get : Dict K V → K → Option V
  get [] k = none
  get ((j, v) ∷ d) k = if j == k then some v else get d k

  -- k in d
  unfoldable pub has : Dict K V → K → Bool
  has [] k = false
  has ((j, v) ∷ d) k = j == k || has d k

  -- d[k] = v
  unfoldable pub put : Dict K V → K → V → Dict K V
  put [] k v = (k, v) ∷ []
  put ((j, w) ∷ d) k v = if j == k then (j, v) ∷ d else (j, w) ∷ put d k v

  -- d.pop(k, None), del d[k]
  unfoldable pub remove : Dict K V → K → Dict K V
  remove [] k = []
  remove ((j, v) ∷ d) k = let rest = remove d k in if j == k then rest else (j, v) ∷ rest

  pub get-put :
      (d : Dict K V) (k j : K) (v : V) → get (put d k v) j ≡ (if k == j then some v else get d j)
  unfolding get put
  get-put [] k j v = refl
  get-put ((i, w) ∷ d) k j v =
      ground (arith, e.beq_iff k j, e.beq_iff i k, e.beq_iff i j, get-put d k j v)

  pub get-remove :
      (d : Dict K V) (k j : K) → get (remove d k) j ≡ (if k == j then none else get d j)
  unfolding get remove
  get-remove [] k j = ground arith
  get-remove ((i, w) ∷ d) k j =
      ground (arith, e.beq_iff k j, e.beq_iff i k, e.beq_iff i j, get-remove d k j)

  -- d.update(pairs)
  unfoldable pub update : Dict K V → List (K × V) → Dict K V
  update d [] = d
  update d ((k, v) ∷ rest) = update (put d k v) rest

  abbrev pub keys : Dict K V → List K
  keys = map (λ e. e.0)

  pub has-eq-get : (d : Dict K V) (k : K) (v : V) → get d k ≡ some v → has d k ≡ true
  unfolding get has
  has-eq-get [] k v h = ground arith
  has-eq-get ((j, w) ∷ d) k v h = ground (arith, has-eq-get d k v)

  pub get_of_has : (d : Dict K V) (k : K) → has d k ≡ true → (v : V) × (get d k ≡ some v)
  unfolding get has
  get_of_has [] k h = absurd (cc)
  get_of_has ((j, v) ∷ d) k h = elim (Bool-cases (j == k)) [
    | inl y ↦ (v, rw y)
    | inr n ↦ rw n (get_of_has d k (rw n at h))
  ]

  pub has-put : (d : Dict K V) (k j : K) (v : V) → has (put d k v) j ≡ (k == j || has d j)
  unfolding has put
  has-put [] k j v = refl
  has-put ((i, w) ∷ d) k j v =
      ground (arith, e.beq_iff k j, e.beq_iff i k, e.beq_iff i j, has-put d k j v)

pub ruleset dict_laws = (get-put, get-remove)

-- A property of every entry, through the operations.
module _ {ℓ κ} {K V : Type ℓ} ⦃e : Eq K⦄ (P : K → V → Type κ) where
  abbrev pub Every : Dict K V → Type κ
  Every = All (λ e. P e.0 e.1)

  pub Every-get : (d : Dict K V) (k : K) (v : V) → get d k ≡ some v → Every d → P k v
  unfolding get
  Every-get [] k v h all = absurd (cc)
  Every-get ((j, w) ∷ d) k v h all = elim (Bool-cases (j == k)) [
    | inl y ↦ subst₂ P ((==_iff j k).0 y) (some-inj (rw y at h)) all.0
    | inr n ↦ Every-get d k v (rw n at h) all.1
  ]

  pub Every-put : (d : Dict K V) (k : K) (v : V) → P k v → Every d → Every (put d k v)
  unfolding put
  Every-put [] k v p all = (p, tt)
  Every-put ((j, w) ∷ d) k v p all = elim (Bool-cases (j == k)) [
    | inl y ↦ rw y (subst (λ k. P k v) (sym ((==_iff j k).0 y)) p, all.1)
    | inr n ↦ rw n (all.0, Every-put d k v p all.1)
  ]

  pub Every-remove : (d : Dict K V) (k : K) → Every d → Every (remove d k)
  unfolding remove
  Every-remove [] k all = tt
  Every-remove ((j, w) ∷ d) k all = elim (Bool-cases (j == k)) [
    | inl y ↦ rw y (Every-remove d k all.1)
    | inr n ↦ rw n (all.0, Every-remove d k all.1)
  ]

  pub Every-update : (d : Dict K V) (ps : List (K × V)) → Every ps → Every d → Every (update d ps)
  unfolding update
  Every-update d [] all keep = keep
  Every-update d ((k, v) ∷ ps) all keep =
      Every-update (put d k v) ps all.1 (Every-put d k v all.0 keep)

module _ {ℓ} {K V : Type ℓ} ⦃e : Eq K⦄ where
  pub has-update :
      (d : Dict K V) (ps : List (K × V)) (k : K) → has (update d ps) k ≡ (has ps k || has d k)
  unfolding update has
  has-update d [] k = refl
  has-update d ((j, v) ∷ ps) k = ground (arith, has-update (put d j v) ps k, has-put d j k v)
