-- ===== src/Entity/Verbs/Defs.antt =====
-- `_staged`, `_check_level`, `_check_group` and the three verbs of src/datacrystal/_permissions.py.
-- A field write goes through `_tracked_setattr` (src/datacrystal/_entity.py) and a change of the
-- groups through `PersistentList` (src/datacrystal/_containers.py); both touch the entity first.
use datacrystal.Base.{
  Bool, true, false, List, [], ◌∷◌, ◌++◌, Option, none, some, ◌==◌, contains, if◌then◌else◌, not,
}
use datacrystal.Base.Int.{ℤ, leb_ℤ, int_eq}
use datacrystal.Errors.{
  Error, Result, ok, err, type_error, value_error, attribute_error, not_an_entity, frozen_entity,
}
use datacrystal.Errors
use datacrystal.Exec.{Exec, pure, raise, lift, attempt, require, ◌>>=◌, ◌>>◌}
use datacrystal.Permissions.{Labels, viewer}
use datacrystal.Entity.{Entity, touch}

-- What `share(rec, ...)` may be handed: an entity, a view of a snapshot, or something else.
pub data Kind : Type 0 where
  entity view other : Kind

pub record Target : Type 0 where
  pub kind : Kind
  pub protected : Bool
  pub frozen : Bool
  pub life : Entity
  pub labels : Labels

-- A Python value where an `int` is wanted; `bool` is not an `int` here.
pub data Argument : Type 0 where
  int : ℤ → Argument
  not_int : Argument

kind_check : Kind → Exec Target Unit
kind_check entity = pure tt
kind_check view = raise attribute_error
kind_check other = raise not_an_entity

unfoldable pub staged : Exec Target Unit
unfolding kind_check
staged r =
    (do kind_check r.kind; require r.protected type_error; require (not r.frozen) frozen_entity) r

unfoldable pub check_level : Argument → Result ℤ
check_level not_int = err type_error
check_level (int l) = if leb_ℤ viewer l then ok l else err value_error

unfoldable pub check_group : Argument → Result ℤ
check_group not_int = err type_error
check_group (int g) = ok g

touched : (Labels → Labels) → Target → Result Target
touched f r = Errors.◌>>=◌ (touch r.life) (λ e. ok (record r { life = e; labels = f r.labels }))

-- `labelled._dc_read_floor = read`
unfoldable pub set_read_floor : ℤ → Exec Target Unit
unfolding touched
set_read_floor l = attempt (touched (λ x. record x { read_floor = l }))

-- `labelled._dc_write_floor = write`
unfoldable pub set_write_floor : ℤ → Exec Target Unit
unfolding touched
set_write_floor l = attempt (touched (λ x. record x { write_floor = l }))

-- `groups.append(group)`
unfoldable pub append_group : ℤ → Exec Target Unit
unfolding touched
append_group g = attempt (touched (λ x. record x { groups = x.groups ++ g ∷ [] }))

-- The first of them only, as `list.remove`.
unfoldable pub without_first : ℤ → List ℤ → List ℤ
without_first g [] = []
without_first g (x ∷ xs) = if x == g then xs else x ∷ without_first g xs

-- `groups.remove(group)`
unfoldable pub remove_group : ℤ → Exec Target Unit
unfolding touched without_first
remove_group g = attempt (touched (λ x. record x { groups = without_first g x.groups }))

share_group : ℤ → Exec Target Unit
unfolding append_group
share_group g r = (if contains r.labels.groups g then pure tt else append_group g) r

unfoldable pub share : Argument → Argument → Argument → Exec Target Unit
unfolding staged check_level check_group set_read_floor set_write_floor share_group
share group read write = do
  staged
  g ← lift (check_group group)
  rd ← lift (check_level read)
  wr ← lift (check_level write)
  set_read_floor rd
  set_write_floor wr
  share_group g

unshare_group : ℤ → Exec Target Unit
unfolding remove_group
unshare_group g r = (if contains r.labels.groups g then remove_group g else pure tt) r

unfoldable pub unshare : Argument → Exec Target Unit
unfolding staged check_group unshare_group
unshare group = do staged; g ← lift (check_group group); unshare_group g

level_if_given : Option Argument → Exec Target (Option ℤ)
level_if_given none = pure none
level_if_given (some a) = do l ← lift (check_level a); pure (some l)

write_if_given : (ℤ → Exec Target Unit) → Option ℤ → Exec Target Unit
write_if_given set none = pure tt
write_if_given set (some l) = set l

given : Option Argument → Option Argument → Bool
given none none = false
given _ _ = true

unfoldable pub protect : Option Argument → Option Argument → Exec Target Unit
unfolding staged check_level set_read_floor set_write_floor level_if_given write_if_given given
protect read write = do
  staged
  require (given read write) type_error
  rd ← level_if_given read
  wr ← level_if_given write
  write_if_given set_read_floor rd
  write_if_given set_write_floor wr
