-- ===== src/Gate/Defs.antt =====
-- `_prior_labels`, `_prior_actor_memberships`, `_gate_new_record`, `_gate_persisted_record`,
-- `_gate_label_changes`, `_gate_actor_memberships`, `_gate_delete` and `_check_write_gate`.
use datacrystal.Base.{
  ℕ, zero, suc, String, Bool, List, [], ◌∷◌, ◌++◌, Option, none, some, ◌==◌, contains, not,
  if◌then◌else◌, nat_eq, string_eq, option_eq,
}
use datacrystal.Base.Int.{ℤ, pos, leb_ℤ, int_eq}
use datacrystal.Base.Dict
use datacrystal.Base.Dict.{Dict}
use datacrystal.Errors.{
  Result, ok, err, require, type_error, index_error, key_error, write_denied, ◌>>=◌, ◌>>◌,
}
use datacrystal.Permissions.{
  Principal, Labels, level, is_root, authority_towards, viewer, no_standing, perm_legacy_fills,
}

-- A decoded column of a record, as far as the gate reads it.
pub data Column : Type 0 where
  int : ℤ → Column
  ints : List ℤ → Column
  table : Dict ℤ ℤ → Column
  other : Column

-- A stored record: the field names of its class id, and the decoded payload in their order.
pub record Stored : Type 0 where
  pub fields : List String
  pub values : List Column

-- `persisted.index(name)`, `none` for its `ValueError`
unfoldable pub position : String → List String → Option ℕ
position n [] = none
position n (f ∷ fs) =
    if f == n then some 0 else elim (position n fs) [ none ↦ none | some i ↦ some (suc i) ]

unfoldable pub value_at : List Column → ℕ → Result Column
value_at [] i = err index_error
value_at (v ∷ vs) zero = ok v
value_at (v ∷ vs) (suc i) = value_at vs i

unfoldable pub as_int : Column → Result ℤ
as_int (int n) = ok n
as_int _ = err type_error

unfoldable pub as_list : Column → Result (List ℤ)
as_list (ints l) = ok l
as_list _ = err type_error

unfoldable pub as_dict : Column → Result (Dict ℤ ℤ)
as_dict (table d) = ok d
as_dict _ = err type_error

unfoldable pub labels_at : List Column → Option ℕ → Option ℕ → Option ℕ → Option ℕ → Result Labels
unfolding value_at as_int as_list
labels_at vs (some a) (some b) (some c) (some d) = do
  o ← as_int (← value_at vs a)
  g ← as_list (← value_at vs b)
  r ← as_int (← value_at vs c)
  w ← as_int (← value_at vs d)
  ok (record { owner = o; groups = g; read_floor = r; write_floor = w })
labels_at vs _ _ _ _ = ok perm_legacy_fills

-- `_prior_labels`: a shape without all four columns gets the legacy labels.
unfoldable pub prior_labels : Stored → Result Labels
unfolding position labels_at
prior_labels rec =
    labels_at rec.values (position "_dc_owner" rec.fields) (position "_dc_groups" rec.fields)
      (position "_dc_read_floor" rec.fields) (position "_dc_write_floor" rec.fields)

unfoldable pub memberships_at : List Column → Option ℕ → Result (Dict ℤ ℤ)
unfolding value_at as_dict
memberships_at vs none = ok []
memberships_at vs (some i) = do as_dict (← value_at vs i)

-- `_prior_actor_memberships`
unfoldable pub prior_memberships : Stored → Result (Dict ℤ ℤ)
unfolding position memberships_at
prior_memberships rec = memberships_at rec.values (position "memberships" rec.fields)

-- `_gate_new_record`; `birth` is the entry of `_birth_labels`
unfoldable pub gate_new_record : Principal → Labels → Option Labels → Result Labels
gate_new_record p obj birth = do
  let base : Labels = elim birth [
    | some l ↦ l
    | none ↦ record { owner = obj.owner; groups = []; read_floor = viewer; write_floor = viewer }
  ]
  require (not (p.uid == pos 0)) write_denied
  require (obj.owner == base.owner) write_denied
  ok base

unfoldable pub gate_persisted_record : Principal → Labels → Labels → Result Labels
gate_persisted_record p obj prior = do
  require (leb_ℤ prior.write_floor (authority_towards p prior.owner prior.groups)) write_denied
  require (obj.owner == prior.owner) write_denied
  ok prior

-- The loop over `set(staged_groups) - base_groups`: it only raises, so its order does not matter.
unfoldable pub gate_groups : Principal → List ℤ → List ℤ → Result (Unit {0})
gate_groups p base [] = ok tt
gate_groups p base (g ∷ gs) =
    let rest = gate_groups p base gs in
    if contains base g then rest else (if level p g == no_standing then err write_denied else rest)

unfoldable pub gate_floor : ℤ → ℤ → ℤ → Result (Unit {0})
gate_floor ceiling staged was =
    if staged == was then ok tt else require (leb_ℤ staged ceiling) write_denied

unfoldable pub gate_label_changes : Principal → Labels → Labels → Result (Unit {0})
gate_label_changes p obj base = do
  let ceiling = authority_towards p obj.owner obj.groups
  gate_groups p base.groups obj.groups
  gate_floor ceiling obj.read_floor base.read_floor
  gate_floor ceiling obj.write_floor base.write_floor

-- `_gate_actor_memberships`: the staged memberships against the prior ones
unfoldable pub gate_memberships : Principal → Dict ℤ ℤ → Dict ℤ ℤ → Result (Unit {0})
gate_memberships p [] prior = ok tt
gate_memberships p ((g, lvl) ∷ staged) prior =
    let rest = gate_memberships p staged prior in
    if Dict.get prior g == some lvl
    then rest
    else (if leb_ℤ lvl (level p g) then rest else err write_denied)

unfoldable pub gate_delete : Principal → Labels → Result (Unit {0})
gate_delete p prior =
    require (leb_ℤ prior.write_floor (authority_towards p prior.owner prior.groups)) write_denied

-- A protected entity in the buffer: its id, whether it is in `_new`, its staged labels, its entry of
-- `_birth_labels`, and its staged memberships if it is an `Actor`.
pub record Staged : Type 0 where
  pub oid : ℕ
  pub is_new : Bool
  pub labels : Labels
  pub birth : Option Labels
  pub actor : Option (Dict ℤ ℤ)

-- `load_many`: the records that are there
unfoldable pub load_many : (ℕ → Option Stored) → List ℕ → Dict ℕ Stored
load_many load [] = []
load_many load (oid ∷ oids) =
    let rest = load_many load oids in elim (load oid) [ none ↦ rest | some r ↦ (oid, r) ∷ rest ]

-- `{oid: self._prior_labels(rec) for oid, rec in records.items()}`
unfoldable pub labels_of : Dict ℕ Stored → Result (Dict ℕ Labels)
labels_of [] = ok []
labels_of ((oid, rec) ∷ rest) = do l ← prior_labels rec; ls ← labels_of rest; ok ((oid, l) ∷ ls)

unfoldable pub prior_members_of : Option Stored → Result (Dict ℤ ℤ)
prior_members_of none = ok []
prior_members_of (some rec) = prior_memberships rec

unfoldable pub gate_actor : Principal → Option (Dict ℤ ℤ) → Option Stored → Result (Unit {0})
unfolding prior_members_of
gate_actor p none rec = ok tt
gate_actor p (some staged) rec = do prior ← prior_members_of rec; gate_memberships p staged prior

unfoldable pub gate_base : Principal → Staged → Option Labels → Result Labels
gate_base p s none = gate_new_record p s.labels s.birth
gate_base p s (some prior) = gate_persisted_record p s.labels prior

-- One round of the loop over the buffered writes.
unfoldable pub gate_one : Principal → Option Stored → Option Labels → Staged → Result (Unit {0})
unfolding gate_actor gate_base
gate_one p rec prior s = do
  base ← gate_base p s prior
  gate_label_changes p s.labels base
  gate_actor p s.actor rec

unfoldable pub gate_pending :
    Principal → Dict ℕ Stored → Dict ℕ Labels → List Staged → Result (Unit {0})
gate_pending p records labels [] = ok tt
gate_pending p records labels (s ∷ rest) = do
  gate_one p (Dict.get records s.oid) (Dict.get labels s.oid) s
  gate_pending p records labels rest

-- `labels[oid]` raises where the record is not there.
unfoldable pub prior_of : Option Labels → Result Labels
prior_of none = err key_error
prior_of (some l) = ok l

unfoldable pub gate_deletes : Principal → Dict ℕ Labels → List ℕ → Result (Unit {0})
gate_deletes p labels [] = ok tt
gate_deletes p labels (oid ∷ rest) = do
  prior ← prior_of (Dict.get labels oid)
  gate_delete p prior
  gate_deletes p labels rest

unfoldable pub persisted_oids : List Staged → List ℕ
persisted_oids [] = []
persisted_oids (s ∷ pending) =
    let rest = persisted_oids pending in if s.is_new then rest else s.oid ∷ rest

unfoldable pub check_write_gate :
    Principal → (ℕ → Option Stored) → List Staged → List ℕ → Result (Dict ℕ Stored)
unfolding persisted_oids
check_write_gate p load pending deletes = if is_root p then ok [] else do
  let records = load_many load (persisted_oids pending ++ deletes)
  labels ← labels_of records
  gate_pending p records labels pending
  gate_deletes p labels deletes
  ok records
