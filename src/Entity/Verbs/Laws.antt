-- ===== src/Entity/Verbs/Laws.antt =====
-- What the label verbs do and refuse.
use datacrystal.Base.{
  ℕ, ◌+◌, Bool, true, false, ◌≡◌, List, [], ◌∷◌, ◌++◌, Option, contains, arith, not, ◌⊎◌, ◌&&◌,
  ◌||◌, ◌==◌, if◌then◌else◌,
}
use datacrystal.Base.Int.{ℤ, leb_ℤ, int_eq}
use datacrystal.Errors.{Result, ok, err}
use datacrystal.Permissions.{viewer}
use datacrystal.Entity.{Entity, touch}
use datacrystal.Entity.Verbs.Defs.{
  Kind, Target, Argument, int, not_int, entity, view, other, share, unshare, protect,
}

abbrev pub is_ok {ℓ} : {A : Type ℓ} → Result A → Bool
is_ok (ok a) = true
is_ok (err e) = false

-- Whether the hook lets a write through.
abbrev pub writable : Entity → Bool
writable e = is_ok (touch e)

abbrev pub is_entity : Kind → Bool
is_entity entity = true
is_entity view = false
is_entity other = false

abbrev pub is_level : Argument → Bool
is_level (int l) = leb_ℤ viewer l
is_level not_int = false

abbrev pub is_group : Argument → Bool
is_group (int g) = true
is_group not_int = false

abbrev pub in_group : List ℤ → Argument → Bool
in_group groups (int g) = contains groups g
in_group groups not_int = false

-- A target that a verb takes.
abbrev pub is_stageable : Target → Bool
is_stageable t = is_entity t.kind && (t.protected && not t.frozen)

-- After one write is let through, the next one is, and changes no more of the life cycle.
pub touch_twice : (e e' : Entity) → touch e ≡ ok e' → touch e' ≡ ok e'
unfolding touch
touch_twice e e' h = ground arith

-- `share` succeeds exactly on an entity that is protected, not frozen and writable, with an integer
-- group and two grantable levels.
pub share-ok_iff :
    (group read write : Argument) (t : Target)
    → is_ok (share group read write t).0 ≡ (
        is_stageable t
        && (is_group group && (is_level read && (is_level write && writable t.life))))
unfolding share touch
share-ok_iff group read write t = ground arith

-- A record before and after it is shared.
pub record IsShared (t t' : Target) (g r w : ℤ) : Type 0 where
  pub read_set : t'.labels.read_floor ≡ r
  pub write_set : t'.labels.write_floor ≡ w
  pub groups_set :
      t'.labels.groups
      ≡ (if contains t.labels.groups g then t.labels.groups else t.labels.groups ++ g ∷ [])
  pub owner_kept : t'.labels.owner ≡ t.labels.owner
  pub tracked : touch t.life ≡ ok t'.life

-- After a `share` that succeeds the record has the floors given, the group among its groups with the
-- earlier ones in place, its owner as it was, and the life cycle of one touched entity.
pub share-IsShared :
    (g r w : ℤ) (t t' : Target)
    → share (int g) (int r) (int w) t ≡ (ok tt, t')
    → IsShared t t' g r w
unfolding share touch
share-IsShared g r w t t' h = ground arith

-- A verb succeeds or leaves the record as it was: no floor, group or life cycle is half written.
pub verbs_atomic :
    (group read write : Argument) (r w : Option Argument) (t : Target)
    → (((share group read write t).0 ≡ ok tt) ⊎ ((share group read write t).1 ≡ t))
      × (((unshare group t).0 ≡ ok tt) ⊎ ((unshare group t).1 ≡ t))
      × (((protect r w t).0 ≡ ok tt) ⊎ ((protect r w t).1 ≡ t))
unfolding share unshare protect touch
verbs_atomic group read write r w t = (ground arith, ground arith, ground arith)

-- `unshare` succeeds exactly on an entity that is protected and not frozen, with an integer group, if it is not
-- in the group or is writable.
pub unshare-ok_iff :
    (group : Argument) (t : Target)
    → is_ok (unshare group t).0 ≡ (
        is_stageable t
        && (is_group group && (not (in_group t.labels.groups group) || writable t.life)))
unfolding unshare touch
unshare-ok_iff (int g) t = ground arith
unshare-ok_iff not_int t = ground arith

-- How often a group is listed.
abbrev pub count : ℤ → List ℤ → ℕ
count g [] = 0
count g (x ∷ xs) = (if x == g then 1 else 0) + count g xs

-- A record before and after it is taken out of a group.
pub record IsUnshared (t t' : Target) (g : ℤ) : Type 0 where
  pub one_less :
      (x : ℤ)
      → count x t.labels.groups
        ≡ (if x == g && contains t.labels.groups g then 1 else 0) + count x t'.labels.groups
  pub owner_kept : t'.labels.owner ≡ t.labels.owner
  pub read_kept : t'.labels.read_floor ≡ t.labels.read_floor
  pub write_kept : t'.labels.write_floor ≡ t.labels.write_floor
  pub tracked :
      touch t.life ≡ ok t'.life ⊎ (contains t.labels.groups g ≡ false) × (t'.life ≡ t.life)
