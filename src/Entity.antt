-- ===== src/Entity.antt =====
-- src/datacrystal/_state.py: the lifecycle of an entity and the one-shot hook before a write, with
-- `Store._on_first_write` of src/datacrystal/_store.py, which the hook calls.
pub mod Verbs
use datacrystal.Base.{Bool, true, false, Option, none, some, if◌then◌else◌}
use datacrystal.Errors.{Error, Result, ok, err, deleted_entity, wrong_thread, store_closed}

pub data EntityState : Type 0 where
  new clean dirty deleted : EntityState

-- What the hook sees of the store: whether the writer is its owner thread, and whether it is closed.
pub record StoreGuard : Type 0 where
  pub on_owner_thread : Bool
  pub closed : Bool

-- `store` is the `__dc_store__` reference, `none` when the store is gone; `buffered` says whether the
-- store's `_dirty` map holds the entity.
pub record Entity : Type 0 where
  pub state : EntityState
  pub store : Option StoreGuard
  pub buffered : Bool

unfoldable pub on_first_write : StoreGuard → Entity → Result Entity
on_first_write g e =
    if g.on_owner_thread
    then if g.closed then err store_closed else ok (record e { state = dirty; buffered = true })
    else err wrong_thread

unfoldable pub flip_clean : Option StoreGuard → Entity → Result Entity
unfolding on_first_write
flip_clean (some g) e = on_first_write g e
flip_clean none e = ok (record e { state = dirty })

touch_at : EntityState → Entity → Result Entity
touch_at deleted e = err deleted_entity
touch_at clean e = flip_clean e.store e
touch_at new e = ok e
touch_at dirty e = ok e

unfoldable pub touch : Entity → Result Entity
unfolding touch_at flip_clean
touch e = touch_at e.state e
