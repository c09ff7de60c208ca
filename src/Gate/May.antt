-- ===== src/Gate/May.antt =====
-- What a single write or delete that passes its part of the gate may contain.
use datacrystal.Base.{
  ℕ, [], ◌∷◌, Option, none, some, ◌≡◌, ◌≢◌, refl, ◌⊎◌, inl, inr, All, arith, nat_eq,
}
use datacrystal.Base.Int.{ℤ, pos, ◌≤ℤ◌, int_eq, eqb_ℤ_iff, leb_ℤ_iff}
use datacrystal.Base.Dict
use datacrystal.Base.Dict.{Dict}
use datacrystal.Errors.{Result, ok, >>=-eq-ok}
use datacrystal.Permissions.{Principal, Labels, level, authority_towards, viewer}
use datacrystal.Gate.Defs.{
  Stored, Staged, gate_new_record, gate_persisted_record, gate_label_changes, gate_delete, prior_of,
  gate_actor, gate_one, labels_of, prior_labels, prior_members_of,
}
use datacrystal.Gate.Laws.{IsGranted, label_changes_sound, gate_memberships_iff}

-- The labels of what `load_many` found.
abbrev pub decoded : Option Stored → Option (Result Labels)
decoded none = none
decoded (some rec) = some (prior_labels rec)

abbrev pub as_ok : Option Labels → Option (Result Labels)
as_ok none = none
as_ok (some l) = some (ok l)

pub labels_of-decoded :
    (records : Dict ℕ Stored) (labels : Dict ℕ Labels) (oid : ℕ)
    → labels_of records ≡ ok labels
    → decoded (Dict.get records oid) ≡ as_ok (Dict.get labels oid)
unfolding labels_of Dict.get
labels_of-decoded [] labels oid h = ground arith
labels_of-decoded ((j, rec) ∷ rest) labels oid h =
    let (l, hl, h') = >>=-eq-ok (prior_labels rec) _ h in
    let (ls, hls, h'') = >>=-eq-ok (labels_of rest) _ h' in
    ground (arith, hl, hls, h'', labels_of-decoded rest ls oid hls)

-- A write to a stored record: the committer clears its write floor, and answers for every label that
-- it changed.
pub record MayUpdate (p : Principal) (rec : Option Stored) (obj : Labels) : Type 0 where
  pub prior : Labels
  pub found : decoded rec ≡ some (ok prior)
  pub cleared : prior.write_floor ≤ℤ authority_towards p prior.owner prior.groups
  pub granted : IsGranted p obj prior

-- The labels that a new record starts from.
abbrev pub birth_labels : Labels → Option Labels → Labels
birth_labels obj none = record {
  owner = obj.owner;
  groups = [];
  read_floor = viewer;
  write_floor = viewer;
}
birth_labels obj (some l) = l

-- A new record: nobody anonymous, and only what the committer holds on top of the birth labels.
pub record MayCreate (p : Principal) (rec : Option Stored) (s : Staged) : Type 0 where
  pub absent : rec ≡ none
  pub named : p.uid ≢ pos 0
  pub granted : IsGranted p s.labels (birth_labels s.labels s.birth)

-- The memberships of a staged actor.
abbrev pub MayGrant : Principal → Option (Dict ℤ ℤ) → Option Stored → Type 0
MayGrant p none rec = Unit
MayGrant p (some staged) rec =
    (prior : Dict ℤ ℤ) × (prior_members_of rec ≡ ok prior)
    × All (λ e. (Dict.get prior e.0 ≡ some e.1) ⊎ (e.1 ≤ℤ level p e.0)) staged

abbrev pub MayWrite : Principal → Option Stored → Staged → Type 0
MayWrite p rec s = (MayUpdate p rec s.labels ⊎ MayCreate p rec s) × MayGrant p s.actor rec

gate_actor_sound :
    (p : Principal) (actor : Option (Dict ℤ ℤ)) (rec : Option Stored)
    → gate_actor p actor rec ≡ ok tt
    → MayGrant p actor rec
unfolding gate_actor
gate_actor_sound p none rec h = tt
gate_actor_sound p (some staged) rec h =
    let (prior, hp, h') = >>=-eq-ok (prior_members_of rec) _ h in
    (prior, hp, (gate_memberships_iff p staged prior).0 h')

gate_new_record-inv :
    (p : Principal) (obj : Labels) (birth : Option Labels) (base : Labels)
    → gate_new_record p obj birth ≡ ok base
    → (base ≡ birth_labels obj birth) × (obj.owner ≡ base.owner) × (p.uid ≢ pos 0)
unfolding gate_new_record
gate_new_record-inv p obj none base h =
    ground (arith, eqb_ℤ_iff p.uid (pos 0), eqb_ℤ_iff obj.owner obj.owner)
gate_new_record-inv p obj (some l) base h =
    ground (arith, eqb_ℤ_iff p.uid (pos 0), eqb_ℤ_iff obj.owner l.owner)

gate_persisted_record-inv :
    (p : Principal) (obj prior base : Labels)
    → gate_persisted_record p obj prior ≡ ok base
    → (base ≡ prior)
      × (obj.owner ≡ prior.owner)
      × (prior.write_floor ≤ℤ authority_towards p prior.owner prior.groups)
unfolding gate_persisted_record
gate_persisted_record-inv p obj prior base h = ground (
  arith,
  eqb_ℤ_iff obj.owner prior.owner,
  leb_ℤ_iff prior.write_floor (authority_towards p prior.owner prior.groups),
)

create_sound :
    (p : Principal) (s : Staged) (base : Labels)
    → gate_new_record p s.labels s.birth ≡ ok base
    → gate_label_changes p s.labels base ≡ ok tt
    → MayCreate p none s
create_sound p s base h c =
    let (eq, o, n) = gate_new_record-inv p s.labels s.birth base h in
    record {
      absent = refl;
      named = n;
      granted = rw eq at (label_changes_sound p s.labels base o c);
    }

update_sound :
    (p : Principal) (rec : Option Stored) (obj prior base : Labels)
    → decoded rec ≡ some (ok prior)
    → gate_persisted_record p obj prior ≡ ok base
    → gate_label_changes p obj base ≡ ok tt
    → MayUpdate p rec obj
update_sound p rec obj prior base d h c =
    let (eq, o, f) = gate_persisted_record-inv p obj prior base h in
    record {
      prior = prior;
      found = d;
      cleared = f;
      granted = label_changes_sound p obj prior o (rw eq at c);
    }

pub gate_one_sound :
    (p : Principal) (rec : Option Stored) (prior : Option Labels) (s : Staged)
    → decoded rec ≡ as_ok prior
    → gate_one p rec prior s ≡ ok tt
    → MayWrite p rec s
unfolding gate_one
gate_one_sound p none none s d h =
    let (base, hb, h') = >>=-eq-ok (gate_new_record p s.labels s.birth) _ h in
    let (_, hc, ha) = >>=-eq-ok (gate_label_changes p s.labels base) _ h' in
    (inr (create_sound p s base hb hc), gate_actor_sound p s.actor none ha)
gate_one_sound p (some rec) (some prior) s d h =
    let (base, hb, h') = >>=-eq-ok (gate_persisted_record p s.labels prior) _ h in
    let (_, hc, ha) = >>=-eq-ok (gate_label_changes p s.labels base) _ h' in
    (
      inl (update_sound p (some rec) s.labels prior base d hb hc),
      gate_actor_sound p s.actor (some rec) ha,
    )
gate_one_sound p none (some prior) s d h = cc
gate_one_sound p (some rec) none s d h = cc

-- A delete: the committer clears the write floor of the stored record.
pub record MayDelete (p : Principal) (rec : Option Stored) : Type 0 where
  pub prior : Labels
  pub found : decoded rec ≡ some (ok prior)
  pub cleared : prior.write_floor ≤ℤ authority_towards p prior.owner prior.groups

pub prior_of-inv : (o : Option Labels) (l : Labels) → prior_of o ≡ ok l → o ≡ some l
unfolding prior_of
prior_of-inv none l h = cc
prior_of-inv (some x) l h = cc

pub gate_delete-inv :
    (p : Principal) (prior : Labels)
    → gate_delete p prior ≡ ok tt
    → prior.write_floor ≤ℤ authority_towards p prior.owner prior.groups
unfolding gate_delete
gate_delete-inv p prior h =
    ground (arith, leb_ℤ_iff prior.write_floor (authority_towards p prior.owner prior.groups))
