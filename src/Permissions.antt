-- ===== src/Permissions.antt =====
-- src/datacrystal/_permissions.py and the `Principal` of src/datacrystal/_actors.py: who acts, what
-- a protected record carries, and the predicates that compare the two. Ids and levels are Python
-- integers.
pub mod Authority
use datacrystal.Base.{
  Bool, true, ◌&&◌, ◌||◌, not, Option, none, some, List, [], ◌∷◌, map, ◌==◌, if◌then◌else◌,
}
use datacrystal.Base.Int.{ℤ, pos, negsuc, leb_ℤ, int_eq, max_or}
use datacrystal.Base.Dict
use datacrystal.Base.Dict.{Dict}

abbrev pub world : ℤ
world = pos 0

abbrev pub no_standing : ℤ
no_standing = negsuc 0

abbrev pub viewer : ℤ
viewer = pos 0

abbrev pub admin : ℤ
admin = pos 500

abbrev pub executive : ℤ
executive = pos 600

pub record Principal : Type 0 where
  pub uid : ℤ
  pub memberships : Dict ℤ ℤ

-- The four columns of a protected record.
pub record Labels : Type 0 where
  pub owner : ℤ
  pub groups : List ℤ
  pub read_floor : ℤ
  pub write_floor : ℤ

-- `PERM_LEGACY_FILLS`: the labels of a record that was stored before its class was protected.
abbrev pub perm_legacy_fills : Labels
perm_legacy_fills = record {
  owner = pos 0;
  groups = world ∷ [];
  read_floor = viewer;
  write_floor = admin;
}

-- `memberships.get(g, default)`
abbrev pub or_default : Option ℤ → ℤ → ℤ
or_default none d = d
or_default (some l) d = l

unfoldable pub level : Principal → ℤ → ℤ
level p g = or_default (Dict.get p.memberships g) (if g == world then viewer else no_standing)

unfoldable pub is_owner : Principal → ℤ → Bool
is_owner p owner = not (p.uid == pos 0) && owner == p.uid

-- The levels that count towards a record: those in its groups, and the personal best of the owner
-- of an unshared record.
unfoldable pub standing : Principal → ℤ → List ℤ → List ℤ
standing p owner [] =
    if is_owner p owner then max_or viewer (map (λ e. e.1) p.memberships) ∷ [] else []
standing p owner (g ∷ groups) = level p g ∷ map (level p) groups

unfoldable pub authority_towards : Principal → ℤ → List ℤ → ℤ
authority_towards p owner groups = max_or no_standing (standing p owner groups)

unfoldable pub is_root : Principal → Bool
is_root p =
    not (p.uid == pos 0) && leb_ℤ executive (or_default (Dict.get p.memberships world) viewer)

unfoldable pub can_read_row : Principal → ℤ → List ℤ → ℤ → Bool
can_read_row p owner groups read_floor =
    if is_root p
    then true
    else is_owner p owner || leb_ℤ read_floor (authority_towards p owner groups)

-- `root_principal`: the extra memberships, with the world level of the root over them.
unfoldable pub root_principal : ℤ → Dict ℤ ℤ → Principal
root_principal uid memberships = record {
  uid = uid;
  memberships = Dict.put memberships world executive;
}
