-- ===== src/Tests/Access.antt =====
-- Sessions, labels and the write gate at concrete principals and records.
use datacrystal.Base.{
  ℕ, [], ◌∷◌, Option, none, some, ◌≡◌, ◌↔◌, refl, true, false, ◌||◌, ◌⊎◌, inr, any, All, arith,
  ◌&&◌, ◌==◌, not, contains, list_eq, if◌then◌else◌, option_beq, list_beq, nat_eq,
}
use datacrystal.Base.Dict
use datacrystal.Base.Dict.{Dict}
use datacrystal.Base.Int.{ℤ, pos, leb_ℤ, ◌≤ℤ◌, int_eq, max_or, max_from}
use datacrystal.Entity.{EntityState, touch}
use datacrystal.Entity.Verbs.{Kind, Target, Argument, share, unshare, protect}
use datacrystal.Entity.Verbs.Laws.{
  is_ok, writable, is_level, is_group, is_stageable, IsShared, share-ok_iff, share-IsShared,
  verbs_atomic, unshare-ok_iff,
}
use datacrystal.Errors.{ok}
use datacrystal.Gate.{
  Column, Stored, Staged, value_at, as_int, as_list, as_dict, labels_at, memberships_at, gate_base,
  gate_groups, gate_floor, load_many, labels_of, prior_members_of, gate_actor, gate_one,
  gate_pending, prior_of, gate_deletes, persisted_oids, position, prior_labels, prior_memberships,
  gate_new_record, gate_persisted_record, gate_label_changes, gate_memberships, gate_delete,
  check_write_gate,
}
use datacrystal.Gate.May.{MayWrite, MayDelete}
use datacrystal.Gate.Safety.{check_write_gate_sound}
use datacrystal.Gate.Laws.{gate_memberships_iff}
use datacrystal.Permissions.{
  Principal, Labels, level, is_owner, is_root, standing, authority_towards, can_read_row,
  no_standing,
}
use datacrystal.Permissions.Authority.{can_read_row_iff}
use datacrystal.Registry.{Actor, Registry, acting_as, resolve_registry_actor, find_actor}
use datacrystal.Registry.Ceiling.{Reach, Step, no_escalation}

-- A curator of group 5.
abbrev curator : Principal
curator = record { uid = pos 7; memberships = (pos 5, pos 400) ∷ [] }

abbrev anonymous : Principal
anonymous = record { uid = pos 0; memberships = (pos 0, pos 600) ∷ [] }

abbrev labels : Labels
labels = record { owner = pos 9; groups = pos 5 ∷ []; read_floor = pos 100; write_floor = pos 300 }

can_read_row_iff_example : can_read_row curator (pos 9) (pos 5 ∷ []) (pos 100) ≡ (
    is_root curator
    || (is_owner curator (pos 9)
        || (any (λ g. leb_ℤ (pos 100) (level curator g)) (pos 5 ∷ [])
            || (pos 5 ∷ [] == [] && leb_ℤ (pos 100) no_standing))))
can_read_row_iff_example = can_read_row_iff curator (pos 9) (pos 5 ∷ []) (pos 100)

abbrev target : Target
target = record {
  kind = Kind.entity;
  protected = true;
  frozen = false;
  life = record {
    state = EntityState.clean;
    store = some (record { on_owner_thread = true; closed = false });
    buffered = false;
  };
  labels = labels;
}

abbrev dirty_target : Target
dirty_target = record target {
  life = record {
    state = EntityState.dirty;
    store = some (record { on_owner_thread = true; closed = false });
    buffered = true;
  };
  labels = record {
    owner = pos 9;
    groups = pos 5 ∷ pos 6 ∷ [];
    read_floor = pos 0;
    write_floor = pos 400;
  };
}

share-ok_iff_example :
    is_ok (share (Argument.int (pos 6)) (Argument.int (pos 0)) (Argument.int (pos 400)) target).0
    ≡ (is_stageable target
        && (is_group (Argument.int (pos 6))
            && (is_level (Argument.int (pos 0))
                && (is_level (Argument.int (pos 400)) && writable target.life))))
share-ok_iff_example =
    share-ok_iff (Argument.int (pos 6)) (Argument.int (pos 0)) (Argument.int (pos 400)) target

share-IsShared_example : IsShared target dirty_target (pos 6) (pos 0) (pos 400)
unfolding share touch
share-IsShared_example = share-IsShared (pos 6) (pos 0) (pos 400) target dirty_target refl

verbs_atomic_example :
    (((share (Argument.int (pos 6)) Argument.not_int Argument.not_int target).0 ≡ ok tt)
      ⊎ ((share (Argument.int (pos 6)) Argument.not_int Argument.not_int target).1 ≡ target))
    × (((unshare (Argument.int (pos 6)) target).0 ≡ ok tt)
        ⊎ ((unshare (Argument.int (pos 6)) target).1 ≡ target))
    × (((protect none none target).0 ≡ ok tt) ⊎ ((protect none none target).1 ≡ target))
verbs_atomic_example =
    verbs_atomic (Argument.int (pos 6)) Argument.not_int Argument.not_int none none target

unshare-ok_iff_example : is_ok (unshare (Argument.int (pos 5)) target).0 ≡ (
    is_stageable target
    && (true && (not (contains target.labels.groups (pos 5)) || writable target.life)))
unshare-ok_iff_example = unshare-ok_iff (Argument.int (pos 5)) target

abbrev unshared : Target
unshared = (unshare (Argument.int (pos 5)) target).1

-- The curator rewrites a record of group 5, and shares it no further.
abbrev row : Stored
row = record {
  fields = "name" ∷ "_dc_owner" ∷ "_dc_groups" ∷ "_dc_read_floor" ∷ "_dc_write_floor" ∷ [];
  values =
      Column.other
      ∷ Column.int (pos 9)
      ∷ Column.ints (pos 5 ∷ [])
      ∷ Column.int (pos 100)
      ∷ Column.int (pos 300)
      ∷ [];
}

abbrev load : ℕ → Option Stored
load oid = if oid == 11 then some row else none

abbrev curated : Staged
curated = record {
  oid = 11;
  is_new = false;
  labels = record labels { read_floor = pos 400 };
  birth = none;
  actor = none;
}

check_write_gate_sound_example :
    All (λ s. MayWrite curator (load s.oid) s) (curated ∷ [])
    × All (λ oid. MayDelete curator (load oid)) (11 ∷ [])
unfolding value_at as_int as_list as_dict labels_at memberships_at gate_base gate_groups gate_floor
    load_many labels_of prior_members_of gate_actor gate_one gate_pending prior_of gate_deletes
    persisted_oids position prior_labels prior_memberships gate_new_record gate_persisted_record
    gate_label_changes gate_memberships gate_delete check_write_gate option_beq list_beq is_owner
    authority_towards standing level max_or is_root Dict.get Dict.put max_from
check_write_gate_sound_example =
    check_write_gate_sound load (curated ∷ []) (11 ∷ []) curator ((11, row) ∷ (11, row) ∷ []) refl
      ((λ e. absurd (cc e)), tt) refl

gate_memberships_iff_example :
    (gate_memberships curator ((pos 5, pos 300) ∷ []) [] ≡ ok tt)
    ↔ All {A = ℤ × ℤ}
        (λ e. (Dict.get {K = ℤ} {V = ℤ} [] e.0 ≡ some e.1) ⊎ (e.1 ≤ℤ level curator e.0))
        ((pos 5, pos 300) ∷ [])
gate_memberships_iff_example = gate_memberships_iff curator ((pos 5, pos 300) ∷ []) []

-- A registry with one curator, who registers an assistant.
abbrev first : Actor
first = record {
  uid = pos 7;
  human = true;
  sponsor = none;
  memberships = (pos 5, pos 400) ∷ [];
  state = EntityState.clean;
}

abbrev assistant : Actor
assistant = record first { uid = pos 8; memberships = (pos 5, pos 300) ∷ [] }

abbrev before : Registry
before = (1, first) ∷ []

abbrev after : Registry
after = (1, first) ∷ (2, assistant) ∷ []

abbrev OnlyAnonymous : Principal → Type 0
OnlyAnonymous p = p ≡ record { uid = pos 0; memberships = [] }

promotion : Reach OnlyAnonymous before after
unfolding acting_as resolve_registry_actor find_actor gate_memberships level option_beq Dict.get
    Dict.put
promotion = Reach.next Reach.here (Step.stage_as (pos 7) curator 2 assistant refl (inr refl))

no_escalation_example : (is_root curator ≡ false) × (level curator (pos 5) ≤ℤ pos 400)
unfolding acting_as resolve_registry_actor find_actor level Dict.get
no_escalation_example =
    no_escalation OnlyAnonymous (pos 0) refl (omega arith) (λ p e. rw e (omega arith)) (pos 5)
      (pos 400) (omega arith) (λ p e. rw e (omega arith)) (pos 7) curator (omega arith)
      (omega arith) promotion refl
