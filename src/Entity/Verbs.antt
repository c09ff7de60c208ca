-- ===== src/Entity/Verbs.antt =====
-- The label verbs `share`, `unshare` and `protect` of src/datacrystal/_permissions.py, on an object
-- that may or may not be a protected entity, with arguments that may or may not be integers.
mod Defs
pub mod Laws
pub use Defs.{Kind, Target, Argument}
unfoldable pub use Defs.{
  staged, check_level, check_group, set_read_floor, set_write_floor, append_group, remove_group,
  share, unshare, protect,
}
