-- ===== src/Session/Reach.antt =====
-- What an entity reaches: `_require_storable`, `_queue_field_entities`, `_walk_value` and
-- `_queue_entity`.
use datacrystal.Base.{
  ℕ, Bool, true, false, List, [], ◌∷◌, ◌++◌, Option, none, some, not, ◌&&◌, ◌||◌, if◌then◌else◌,
  nat_eq,
}
use datacrystal.Base.Dict
use datacrystal.Base.Dict.{Dict}
use datacrystal.Entity.{EntityState, deleted, new, clean, dirty}
use datacrystal.Errors.{
  Result, ok, err, require, read_denied, deleted_entity, type_error, ◌>>=◌, ◌>>◌,
}
use datacrystal.Session.Live.{
  Value, number, scalar, entity, loaded, unloaded, sequence, Values, done, more, Field, Live, Heap,
}

-- A queue entry: an entity, with the protected container that it was reached from.
abbrev pub Entry : Type 0
Entry = ℕ × Option ℕ

-- `state_of(obj) == STATE_DELETED`
abbrev pub is_deleted : EntityState → Bool
is_deleted deleted = true
is_deleted new = false
is_deleted clean = false
is_deleted dirty = false

-- `_require_storable`
unfoldable pub require_storable : Live → Result (Unit {0})
require_storable x =
    if x.redacted then err read_denied else if is_deleted x.state then err deleted_entity else ok tt

-- `oid in self._new or oid in self._dirty`
unfoldable pub is_buffered : Dict ℕ ℕ → Dict ℕ ℕ → ℕ → Bool
is_buffered fresh edited oid = Dict.has fresh oid || Dict.has edited oid

pub pending_oid : Dict ℕ ℕ → Dict ℕ ℕ → Option ℕ → Bool
unfolding is_buffered
pending_oid fresh edited none = true
pending_oid fresh edited (some oid) = is_buffered fresh edited oid

module _ (h : Heap) (fresh edited : Dict ℕ ℕ) (container : Option ℕ) (eager : Bool) where
  -- `_queue_entity`; the queue grows at its end.
  unfoldable pub queue_entity : ℕ → List Entry → Result (List Entry)
  unfolding pending_oid
  queue_entity r queue = do
    require (not (eager && (h r).type.protected && not (h r).redacted)) type_error
    ok (if pending_oid fresh edited (h r).oid then queue ++ (r, container) ∷ [] else queue)

  -- `_walk_value`
  unfoldable mutual
    unfolding queue_entity

    pub walk_value : Value → List Entry → Result (List Entry)
    walk_value (number n) queue = ok queue
    walk_value (scalar b) queue = ok queue
    walk_value (entity r) queue = queue_entity r queue
    walk_value (loaded r) queue = queue_entity r queue
    walk_value (unloaded oid) queue = ok queue
    walk_value (sequence vs) queue = walk_values vs queue

    pub walk_values : Values → List Entry → Result (List Entry)
    walk_values done queue = ok queue
    walk_values (more v vs) queue = do queue' ← walk_value v queue; walk_values vs queue'

-- The fields of `_queue_field_entities`.
unfoldable pub queue_fields :
    Heap → Dict ℕ ℕ → Dict ℕ ℕ → Option ℕ → List Field → List Entry → Result (List Entry)
queue_fields h fresh edited container [] queue = ok queue
queue_fields h fresh edited container (f ∷ fs) queue = do
  queue' ← walk_value h fresh edited container (not f.lazy_refs) f.value queue
  queue_fields h fresh edited container fs queue'

unfoldable pub queue_field_entities :
    Heap → Dict ℕ ℕ → Dict ℕ ℕ → ℕ → List Entry → Result (List Entry)
unfolding queue_fields
queue_field_entities h fresh edited r queue =
    if (h r).type.has_entity_refs
    then queue_fields h fresh edited (if (h r).type.protected then some r else none) (h r).fields
        queue
    else ok queue
