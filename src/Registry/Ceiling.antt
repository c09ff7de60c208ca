-- ===== src/Registry/Ceiling.antt =====
-- No escalation through the registry: what no session holds, no session can come to hold.
use datacrystal.Base.{
  ℕ, true, false, Bool-cases, Option-cases, some-inj, [], ◌∷◌, Option, none, some, ◌==◌, ◌≡◌, ◌⊎◌,
  inl, inr, arith, nat_eq,
}
use mathlib.Core.Path.{subst}
use datacrystal.Base.Int.{ℤ, pos, ◌≤ℤ◌, int_eq, leb_ℤ}
use datacrystal.Base.Dict
use datacrystal.Base.Dict.{Dict, get-put, get-remove}
use datacrystal.Errors.{ok, >>=-eq-ok, ok-inj}
use datacrystal.Permissions.{Principal, level, is_root, world, executive}
use datacrystal.Gate.{gate_memberships}
use datacrystal.Gate.Laws.{gate_memberships_iff}
use datacrystal.Registry.Defs.{
  Actor, Registry, by_uid, find_actor, resolve_registry_actor, acting_as,
}

-- The memberships of a row; a new row has none before.
abbrev pub prior_row : Option Actor → Dict ℤ ℤ
prior_row none = []
prior_row (some a) = a.memberships

abbrev pub as_principal : Actor → Principal
as_principal a = record { uid = a.uid; memberships = a.memberships }

-- One commit by a session that acts as `subject`: it stages a row, new or changed, which the root may
-- always do and others only as the gate allows; or it deletes one. A principal that is passed as it
-- is comes from outside, and is one of the `Trusted`.
pub data Step (Trusted : Principal → Type 0) (reg : Registry) : Registry → Type 0 where
  stage_as :
      (uid : ℤ) (p : Principal) (oid : ℕ) (row : Actor)
      → acting_as reg (by_uid uid) ≡ ok p
      → (is_root p ≡ true)
        ⊎ (gate_memberships p row.memberships (prior_row (Dict.get reg oid)) ≡ ok tt)
      → Step Trusted reg (Dict.put reg oid row)
  stage_trusted :
      (p : Principal) (oid : ℕ) (row : Actor)
      → Trusted p
      → (is_root p ≡ true)
        ⊎ (gate_memberships p row.memberships (prior_row (Dict.get reg oid)) ≡ ok tt)
      → Step Trusted reg (Dict.put reg oid row)
  drop : (oid : ℕ) → Step Trusted reg (Dict.remove reg oid)

pub data Reach (Trusted : Principal → Type 0) (reg : Registry) : Registry → Type 0 where
  here : Reach Trusted reg reg
  next : {mid end : Registry} → Reach Trusted reg mid → Step Trusted mid end → Reach Trusted reg end

-- Every row of a registry holds at most `b` in the group `g`.
abbrev pub Capped : ℤ → ℤ → Registry → Type 0
Capped g b = Dict.Every (λ oid a. level (as_principal a) g ≤ℤ b)

abbrev pub nobody : Principal
nobody = record { uid = pos 0; memberships = [] }

resolve-found :
    (reg : Registry) (uid : ℤ) (a : Actor)
    → resolve_registry_actor reg uid ≡ ok a
    → find_actor reg uid ≡ some a
unfolding resolve_registry_actor
resolve-found reg uid a h = ground arith

-- A bound on a group that the implicit level respects.
module _ (g b : ℤ) (floor : level nobody g ≤ℤ b) where
  find_actor-Capped :
      (reg : Registry) (uid : ℤ) (a : Actor)
      → find_actor reg uid ≡ some a
      → Capped g b reg
      → level (as_principal a) g ≤ℤ b
  unfolding find_actor
  find_actor-Capped [] uid a h c = absurd (cc)
  find_actor-Capped ((oid, x) ∷ reg) uid a h c = elim (Bool-cases (x.uid == uid)) [
    | inl y ↦ subst (λ a. level (as_principal a) g ≤ℤ b) (some-inj (rw y at h)) c.0
    | inr n ↦ find_actor-Capped reg uid a (rw n at h) c.1
  ]

  acting_as-Capped :
      (reg : Registry) (uid : ℤ) (p : Principal)
      → acting_as reg (by_uid uid) ≡ ok p
      → Capped g b reg
      → level p g ≤ℤ b
  unfolding acting_as
  acting_as-Capped reg uid p h c =
      let (a, ha, h') = >>=-eq-ok (resolve_registry_actor reg uid) _ h in
      subst (λ p. level p g ≤ℤ b) (ok-inj h')
        (find_actor-Capped reg uid a (resolve-found reg uid a ha) c)

  -- A row that the gate accepts holds no more than the committer or the row before it.
  row-capped :
      (p : Principal) (row : Actor) (prior : Dict ℤ ℤ)
      → level p g ≤ℤ b
      → level (record { uid = pos 0; memberships = prior }) g ≤ℤ b
      → gate_memberships p row.memberships prior ≡ ok tt
      → level (as_principal row) g ≤ℤ b
  row-capped p row prior hp hr h = elim (Option-cases (Dict.get row.memberships g)) [
    | inl n ↦ unfold level Dict.get in rw n floor
    | inr (l, e) ↦ unfold level in rw e (go l e)
  ]
    where
      go : (l : ℤ) → Dict.get row.memberships g ≡ some l → l ≤ℤ b
      go l e =
          elim (Dict.Every-get (λ k v. (Dict.get prior k ≡ some v) ⊎ (v ≤ℤ level p k))
            row.memberships g l e ((gate_memberships_iff p row.memberships prior).0 h)) [
              | inl same ↦ unfold level in (rw same at hr)
              | inr held ↦ omega arith
            ]

  prior_row-capped :
      (reg : Registry) (oid : ℕ)
      → Capped g b reg
      → level (record { uid = pos 0; memberships = prior_row (Dict.get reg oid) }) g ≤ℤ b
  prior_row-capped reg oid c = elim (Option-cases (Dict.get reg oid)) [
    | inl n ↦ rw n floor
    | inr (a, e) ↦
        unfold level in rw e (Dict.Every-get (λ oid a. level (as_principal a) g ≤ℤ b) reg oid a e c)
  ]

-- A bound below the root's level, on the group that makes a root.
module _ (Trusted : Principal → Type 0) (w : ℤ) (below : leb_ℤ executive w ≡ false)
    (worldly : level nobody world ≤ℤ w)
    (trusted_world : (p : Principal) → Trusted p → level p world ≤ℤ w) where
  not-is_root : (p : Principal) → level p world ≤ℤ w → is_root p ≡ false
  unfolding is_root level
  not-is_root p h = ground arith

  module _ (g b : ℤ) (floor : level nobody g ≤ℤ b)
      (trusted : (p : Principal) → Trusted p → level p g ≤ℤ b) where
    staged-Capped :
        (reg : Registry) (p : Principal) (oid : ℕ) (row : Actor)
        → level p world ≤ℤ w
        → level p g ≤ℤ b
        → Capped g b reg
        → (is_root p ≡ true)
          ⊎ (gate_memberships p row.memberships (prior_row (Dict.get reg oid)) ≡ ok tt)
        → Capped g b (Dict.put reg oid row)
    staged-Capped reg p oid row hw hg c (inl r) = absurd (cc (not-is_root p hw))
    staged-Capped reg p oid row hw hg c (inr h) =
        Dict.Every-put (λ oid a. level (as_principal a) g ≤ℤ b) reg oid row
          (row-capped g b floor p row _ hg (prior_row-capped g b floor reg oid c) h) c

    Step-Capped :
        {reg reg' : Registry}
        → Step Trusted reg reg'
        → Capped world w reg
        → Capped g b reg
        → Capped g b reg'
    Step-Capped {reg = reg} (stage_as uid p oid row a h) cw c =
        staged-Capped reg p oid row (acting_as-Capped world w worldly reg uid p a cw)
          (acting_as-Capped g b floor reg uid p a c) c h
    Step-Capped {reg = reg} (stage_trusted p oid row t h) cw c =
        staged-Capped reg p oid row (trusted_world p t) (trusted p t) c h
    Step-Capped {reg = reg} (drop oid) cw c =
        Dict.Every-remove (λ oid a. level (as_principal a) g ≤ℤ b) reg oid c

  Reach-Capped :
      (g b : ℤ) (floor : level nobody g ≤ℤ b)
      (trusted : (p : Principal) → Trusted p → level p g ≤ℤ b) {reg reg' : Registry}
      → Reach Trusted reg reg'
      → Capped world w reg
      → Capped g b reg
      → Capped world w reg' × Capped g b reg'
  Reach-Capped g b floor trusted here cw c = (cw, c)
  Reach-Capped g b floor trusted (next r s) cw c =
      let (cw', c') = Reach-Capped g b floor trusted r cw c in
      (Step-Capped world w worldly trusted_world s cw' cw', Step-Capped g b floor trusted s cw' c')

  -- No escalation: if no row and no trusted principal holds more than `w`, a level below the root's,
  -- in the world group, nor more than `b` in a group `g`, then after any commits by any sessions
  -- whoever acts by a uid is not the root and holds at most `b` in `g`.
  pub no_escalation :
      (g b : ℤ) (floor : level nobody g ≤ℤ b)
      (trusted : (p : Principal) → Trusted p → level p g ≤ℤ b) {reg reg' : Registry} (uid : ℤ)
      (p : Principal)
      → Capped world w reg
      → Capped g b reg
      → Reach Trusted reg reg'
      → acting_as reg' (by_uid uid) ≡ ok p
      → (is_root p ≡ false) × (level p g ≤ℤ b)
  no_escalation g b floor trusted {reg' = reg'} uid p cw c r h =
      let (cw', c') = Reach-Capped g b floor trusted r cw c in
      (
        not-is_root p (acting_as-Capped world w worldly reg' uid p h cw'),
        acting_as-Capped g b floor reg' uid p h c',
      )
