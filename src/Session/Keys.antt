-- ===== src/Session/Keys.antt =====
-- Dictionaries with one entry for each key.
use datacrystal.Base.{
  ℕ, false, List, [], ◌∷◌, none, contains, eqb, ◌≡◌, refl, ap, arith, ◌∙◌, Bool-cases, inl, inr,
  nat_eq, if◌then◌else◌,
}
use datacrystal.Base.Dict
use datacrystal.Base.Dict.{Dict, get-put, get-remove, Every-put, Every-remove}
use datacrystal.Storage.Apply.{or_else}
use datacrystal.Session.Pending.{drop_deleted}

-- `k` is no key of a dictionary.
abbrev pub Lacks : {V : Type 0} → ℕ → Dict ℕ V → Type 0
Lacks k = Dict.Every (λ j v. eqb k j ≡ false)

abbrev pub HasOneEach : {V : Type 0} → Dict ℕ V → Type 0
HasOneEach [] = Unit {0}
HasOneEach ((k, v) ∷ d) = Lacks k d × HasOneEach d

module _ {V : Type 0} where
  pub get-Lacks : (d : Dict ℕ V) (k : ℕ) → Lacks k d → Dict.get d k ≡ none
  unfolding Dict.get
  get-Lacks [] k h = refl
  get-Lacks ((j, v) ∷ d) k h = ground (arith, get-Lacks d k h.1, h.0)

  pub put-HasOneEach : (d : Dict ℕ V) (k : ℕ) (v : V) → HasOneEach d → HasOneEach (Dict.put d k v)
  unfolding Dict.put
  put-HasOneEach [] k v h = (tt, tt)
  put-HasOneEach ((j, w) ∷ d) k v h = elim (Bool-cases (eqb j k)) [
    | inl y ↦ rw y h
    | inr n ↦ rw n (Every-put (λ i v. eqb j i ≡ false) d k v n h.0, put-HasOneEach d k v h.1)
  ]

  pub remove-HasOneEach : (d : Dict ℕ V) (k : ℕ) → HasOneEach d → HasOneEach (Dict.remove d k)
  unfolding Dict.remove
  remove-HasOneEach [] k h = tt
  remove-HasOneEach ((j, w) ∷ d) k h = elim (Bool-cases (eqb j k)) [
    | inl y ↦ rw y (remove-HasOneEach d k h.1)
    | inr n ↦ rw n (Every-remove (λ i v. eqb j i ≡ false) d k h.0, remove-HasOneEach d k h.1)
  ]

  pub update-HasOneEach : (d ps : Dict ℕ V) → HasOneEach d → HasOneEach (Dict.update d ps)
  unfolding Dict.update
  update-HasOneEach d [] h = h
  update-HasOneEach d ((k, v) ∷ ps) h =
      update-HasOneEach (Dict.put d k v) ps (put-HasOneEach d k v h)

  -- What an update has under a key: what it writes there, else what was there.
  pub get-update :
      (d ps : Dict ℕ V) (k : ℕ)
      → HasOneEach ps
      → Dict.get (Dict.update d ps) k ≡ or_else (Dict.get ps k) (Dict.get d k)
  unfolding Dict.update Dict.get
  get-update d [] k h = refl
  get-update d ((j, v) ∷ ps) k h = elim (Bool-cases (eqb j k)) [
    | inl y ↦
        ground (arith, y, get-update (Dict.put d j v) ps k h.1, get-put d j k v, get-Lacks ps j h.0)
    | inr n ↦ rw n (
        get-update (Dict.put d j v) ps k h.1
        ∙ ap (or_else (Dict.get ps k)) (get-put d j k v ∙ rw n refl))
  ]

pub drop_deleted-HasOneEach :
    (d : Dict ℕ ℕ) (oids : List ℕ) → HasOneEach d → HasOneEach (drop_deleted d oids)
unfolding drop_deleted
drop_deleted-HasOneEach d [] h = h
drop_deleted-HasOneEach d (oid ∷ oids) h =
    drop_deleted-HasOneEach (Dict.remove d oid) oids (remove-HasOneEach d oid h)

pub get-drop_deleted :
    (d : Dict ℕ ℕ) (oids : List ℕ) (k : ℕ)
    → Dict.get (drop_deleted d oids) k ≡ (if contains oids k then none else Dict.get d k)
unfolding drop_deleted
get-drop_deleted d [] k = refl
get-drop_deleted d (oid ∷ oids) k =
    ground (arith, get-drop_deleted (Dict.remove d oid) oids k, get-remove d oid k)
