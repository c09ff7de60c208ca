-- ===== src/Gate/Laws.antt =====
-- What the write gate lets through: the tests of its helpers, read as conditions.
use datacrystal.Base.{
  true, List, [], ◌∷◌, some, contains, ◌≡◌, ◌≢◌, refl, ◌↔◌, ◌⊎◌, All, arith, nat_eq, option_eq,
  ==_iff,
}
use datacrystal.Base.Int.{ℤ, ◌≤ℤ◌, int_eq, eqb_ℤ_iff, leb_ℤ_iff}
use datacrystal.Base.Dict
use datacrystal.Base.Dict.{Dict}
use datacrystal.Errors.{ok, >>=-eq-ok}
use datacrystal.Permissions.{Principal, Labels, level, authority_towards, no_standing}
use datacrystal.Gate.Defs.{gate_groups, gate_floor, gate_label_changes, gate_memberships}

gate_groups_iff :
    (p : Principal) (base gs : List ℤ)
    → (gate_groups p base gs ≡ ok tt)
      ↔ All (λ g. (contains base g ≡ true) ⊎ (level p g ≢ no_standing)) gs
unfolding gate_groups
gate_groups_iff p base [] = (λ _. tt, λ _. refl)
gate_groups_iff p base (g ∷ gs) =
    ground (arith, gate_groups_iff p base gs, eqb_ℤ_iff (level p g) no_standing)

gate_floor_iff : (c s w : ℤ) → (gate_floor c s w ≡ ok tt) ↔ ((s ≡ w) ⊎ (s ≤ℤ c))
unfolding gate_floor
gate_floor_iff c s w = ground (arith, eqb_ℤ_iff s w, leb_ℤ_iff s c)

-- The gate accepts a membership map exactly when each level in it is the prior one, or no more than the
-- committer's own in that group. So a level that is lowered, but stays above the committer's own, is refused.
pub gate_memberships_iff :
    (p : Principal) (staged prior : Dict ℤ ℤ)
    → (gate_memberships p staged prior ≡ ok tt)
      ↔ All (λ e. (Dict.get prior e.0 ≡ some e.1) ⊎ (e.1 ≤ℤ level p e.0)) staged
unfolding gate_memberships
gate_memberships_iff p [] prior = (λ _. tt, λ _. refl)
gate_memberships_iff p ((g, lvl) ∷ staged) prior = ground (
  arith,
  gate_memberships_iff p staged prior,
  ==_iff (Dict.get prior g) (some lvl),
  leb_ℤ_iff lvl (level p g),
)

-- Staged labels against the labels that they start from.
pub record IsGranted (p : Principal) (obj base : Labels) : Type 0 where
  pub owner_kept : obj.owner ≡ base.owner
  pub groups_held :
      All (λ g. (contains base.groups g ≡ true) ⊎ (level p g ≢ no_standing)) obj.groups
  pub read_held :
      (obj.read_floor ≡ base.read_floor)
      ⊎ (obj.read_floor ≤ℤ authority_towards p obj.owner obj.groups)
  pub write_held :
      (obj.write_floor ≡ base.write_floor)
      ⊎ (obj.write_floor ≤ℤ authority_towards p obj.owner obj.groups)

pub label_changes_sound :
    (p : Principal) (obj base : Labels)
    → obj.owner ≡ base.owner
    → gate_label_changes p obj base ≡ ok tt
    → IsGranted p obj base
unfolding gate_label_changes
label_changes_sound p obj base o h =
    let (_, hg, h') = >>=-eq-ok (gate_groups p base.groups obj.groups) _ h in
    let (_, hr, h'') = >>=-eq-ok (gate_floor _ obj.read_floor base.read_floor) _ h' in
    record {
      owner_kept = o;
      groups_held = (gate_groups_iff p base.groups obj.groups).0 hg;
      read_held = (gate_floor_iff _ obj.read_floor base.read_floor).0 hr;
      write_held = (gate_floor_iff _ obj.write_floor base.write_floor).0 h'';
    }
