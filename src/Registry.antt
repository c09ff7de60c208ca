-- ===== src/Registry.antt =====
-- The actor registry: the `Actor` rows of src/datacrystal/_actors.py, `Store.acting_as` with
-- `_resolve_registry_actor` of src/datacrystal/_store.py, and the commits that change the rows.
mod Defs
pub mod Ceiling
pub use Defs.{Actor, Registry, Subject}
unfoldable pub use Defs.{find_actor, resolve_registry_actor, acting_as}
