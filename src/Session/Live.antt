-- ===== src/Session/Live.antt =====
-- The live entities of a store: their engine slots (`stamp`, `detach` and `set_state` of
-- src/datacrystal/_entity.py), their fields, and the state of the `Store` of src/datacrystal/_store.py
-- that a commit reads and writes. Blob fields and the debug fingerprints are left out.
use datacrystal.Base.{
  ℕ, String, Bool, List, [], ◌∷◌, Option, none, some, eqb, ◌==◌, if◌then◌else◌, nat_eq, string_eq,
}
use datacrystal.Base.Int.{ℤ}
use datacrystal.Base.Dict.{Dict}
use datacrystal.Contract.{Bytes}
use datacrystal.Entity.{EntityState, new}
use datacrystal.Errors.{Result, ok, err, attribute_error, ◌>>=◌}
use datacrystal.Ids.{IdAllocator}
use datacrystal.Permissions.{Principal, Labels}
use datacrystal.Storage.{Memory}

-- What a field holds: a number, another scalar as the bytes of its coding, an entity, a `Lazy` that is loaded or not,
-- or a container. A dictionary is the sequence of its values here.
mutual
  pub data Value : Type 0 where
    number : ℤ → Value
    scalar : Bytes → Value
    entity : ℕ → Value
    loaded : ℕ → Value
    unloaded : ℕ → Value
    sequence : Values → Value

  pub data Values : Type 0 where
    done : Values
    more : Value → Values → Values

-- A field: its name, whether its references decode as `Lazy`, and its value.
pub record Field : Type 0 where
  pub name : String
  pub lazy_refs : Bool
  pub value : Value

pub record TypeInfo : Type 0 where
  pub typename : String
  pub field_names : List String
  pub protected : Bool
  pub has_entity_refs : Bool

-- A live object. `labels` are the four columns that a protected class has next to `fields`, see `attribute`.
-- `oid` is `none` until it is stamped; `redacted` marks a twin; `memberships` is there
-- if the class is `Actor`.
pub record Live : Type 0 where
  pub oid : Option ℕ
  pub state : EntityState
  pub redacted : Bool
  pub type : TypeInfo
  pub fields : List Field
  pub labels : Labels
  pub memberships : Option (Dict ℤ ℤ)

unfoldable pub numbers : List ℤ → Values
numbers [] = done
numbers (n ∷ ns) = more (number n) (numbers ns)

-- The columns of `_inject_perm_columns`.
unfoldable pub label_column : Labels → String → Option Value
unfolding numbers
label_column l name =
    if name == "_dc_owner"
    then some (number l.owner)
    else if name == "_dc_groups"
    then some (sequence (numbers l.groups))
    else if name == "_dc_read_floor"
    then some (number l.read_floor)
    else if name == "_dc_write_floor"
    then some (number l.write_floor)
    else none

unfoldable pub field_value : List Field → String → Result Value
field_value [] name = err attribute_error
field_value (f ∷ fs) name = if f.name == name then ok f.value else field_value fs name

unfoldable pub column_value : Option Value → List Field → String → Result Value
unfolding field_value
column_value (some v) fs name = ok v
column_value none fs name = field_value fs name

-- `getattr(obj, name)`
unfoldable pub attribute : Live → String → Result Value
unfolding label_column column_value
attribute x name =
    column_value (if x.type.protected then label_column x.labels name else none) x.fields name

-- `[getattr(obj, name) for name in names]`
unfoldable pub attributes : Live → List String → Result (List Value)
unfolding attribute
attributes x [] = ok []
attributes x (name ∷ names) = do v ← attribute x name; vs ← attributes x names; ok (v ∷ vs)

abbrev pub Heap : Type 0
Heap = ℕ → Live

unfoldable pub write_at : Heap → ℕ → Live → Heap
write_at h r x = λ q. if eqb r q then x else h q

unfoldable pub set_state : Heap → ℕ → EntityState → Heap
unfolding write_at
set_state h r st = write_at h r (record (h r) { state = st })

unfoldable pub stamp : Heap → ℕ → ℕ → EntityState → Heap
unfolding write_at
stamp h r oid st = write_at h r (record (h r) { oid = some oid; state = st })

unfoldable pub detach_entity : Heap → ℕ → Heap
unfolding write_at
detach_entity h r = write_at h r (record (h r) { oid = none; state = new })

-- The type lineage: `_cid_by_typename`, `_persisted_fields` and `_durable_cids`.
pub record TypeTable : Type 0 where
  pub cid_by_typename : Dict String ℕ
  pub persisted_fields : Dict ℕ (List String)
  pub durable_cids : List ℕ

-- The `Store`; `I` is the state of the index manager, `Γ` that of a consumer. Entities are references
-- into the heap. `consumers` is keyed by the identity of the consumer; `lost` is `_lock.lost`.
pub record Session (I Γ : Type 0) : Type 0 where
  pub heap : Heap
  pub buffered_new : Dict ℕ ℕ
  pub buffered_dirty : Dict ℕ ℕ
  pub buffered_deleted : Dict ℕ (TypeInfo × Option ℕ)
  pub cancelled_new : Dict ℕ ℕ
  pub birth_labels : Dict ℕ Labels
  pub prestamp_labels : Dict ℕ Labels
  pub registry : Dict ℕ ℕ
  pub alloc : IdAllocator
  pub types : TypeTable
  pub root_oid : Option ℕ
  pub last_tid : ℕ
  pub consumers : Dict ℕ Γ
  pub index : I
  pub backend : Memory
  pub principal : Principal
  pub lost : Bool
