-- ===== src/Registry/Defs.antt =====
-- `_resolve_registry_actor`, `acting_as` and the registry that they read.
use datacrystal.Base.{
  ℕ, Bool, true, false, [], ◌∷◌, Option, none, some, ◌==◌, if◌then◌else◌, not, ◌||◌, nat_eq,
}
use datacrystal.Base.Int.{ℤ, int_eq}
use datacrystal.Base.Dict.{Dict}
use datacrystal.Entity.{EntityState, new, clean, dirty, deleted}
use datacrystal.Errors.{
  Result, ok, err, require, unknown_actor, uncommitted_actor, sponsor_required, ◌>>=◌, ◌>>◌,
}
use datacrystal.Permissions.{Principal}

-- An `Actor` row with its life cycle; `subject` and `display` are not read here.
pub record Actor : Type 0 where
  pub uid : ℤ
  pub human : Bool
  pub sponsor : Option ℤ
  pub memberships : Dict ℤ ℤ
  pub state : EntityState

-- The committed rows by object id.
abbrev pub Registry : Type 0
Registry = Dict ℕ Actor

-- `_get_by_key_unchecked(Actor, "uid", uid)`: `uid` is `Unique`, so there is at most one.
unfoldable pub find_actor : Registry → ℤ → Option Actor
find_actor [] uid = none
find_actor ((oid, a) ∷ rest) uid = if a.uid == uid then some a else find_actor rest uid

found : Option Actor → Result Actor
found none = err unknown_actor
found (some a) = ok a

is_pending : EntityState → Bool
is_pending new = true
is_pending dirty = true
is_pending clean = false
is_pending deleted = false

is_human : Option Actor → Bool
is_human none = false
is_human (some a) = a.human

sponsored : Registry → Option ℤ → Bool
unfolding is_human
sponsored reg none = false
sponsored reg (some uid) = is_human (find_actor reg uid)

unfoldable pub resolve_registry_actor : Registry → ℤ → Result Actor
unfolding found is_pending sponsored
resolve_registry_actor reg uid = do
  actor ← found (find_actor reg uid)
  require (not (is_pending actor.state)) uncommitted_actor
  require (actor.human || sponsored reg actor.sponsor) sponsor_required
  ok actor

-- What `acting_as` takes: a uid or a principal.
pub data Subject : Type 0 where
  by_uid : ℤ → Subject
  as_is : Principal → Subject

unfoldable pub acting_as : Registry → Subject → Result Principal
acting_as reg (as_is p) = ok p
acting_as reg (by_uid uid) = do
  actor ← resolve_registry_actor reg uid
  ok (record { uid = actor.uid; memberships = actor.memberships })
