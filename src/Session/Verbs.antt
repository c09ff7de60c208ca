-- ===== src/Session/Verbs.antt =====
-- The calls that buffer and those that attach consumers: `store`, `mark_dirty`, `_delete_instance`,
-- `_delete_oid`, `_on_first_write`, `discard`, `attach` and `detach`. `_enter` is left out, and every
-- stamped entity is taken to be of this store.
use datacrystal.Base.{
  ℕ, Bool, true, false, List, [], ◌∷◌, ◌++◌, ◌-◌, Option, none, some, ◌==◌, ltb, if◌then◌else◌,
  nat_eq, option_eq,
}
use datacrystal.Base.Dict
use datacrystal.Base.Dict.{Dict}
use datacrystal.Entity.{EntityState, new, clean, dirty, deleted}
use datacrystal.Errors.{Result, ok, err, read_denied, deleted_entity, datacrystal_error, delta_gap}
use datacrystal.Exec
use datacrystal.Exec.{Exec, ◌>>=◌}
use datacrystal.Ids.{IdAllocator}
use datacrystal.Storage.{Memory}
use datacrystal.Session.Live.{TypeInfo, write_at, set_state, detach_entity, TypeTable, Session}
use datacrystal.Session.Graph.{register_graph}

abbrev pub is_new : EntityState → Bool
is_new new = true
is_new clean = false
is_new dirty = false
is_new deleted = false

module _ {I Γ : Type 0} where
  -- `set_state(obj, STATE_DIRTY)` and `_dirty[oid] = obj`: the end of `_on_first_write`, once the guards
  -- of the thread and of the closed store are passed.
  unfoldable pub buffer_dirty : ℕ → ℕ → Session I Γ → Session I Γ
  buffer_dirty oid r s = record s {
    heap = set_state s.heap r dirty;
    buffered_dirty = Dict.put s.buffered_dirty oid r;
  }

  -- A write of the content of an entity: the hook of a CLEAN one buffers it first, a NEW or DIRTY one is
  -- written, a DELETED one refuses.
  write_in : EntityState → Option ℕ → ℕ → Session I Γ → Result (Session I Γ)
  unfolding buffer_dirty
  write_in new oid r s = ok s
  write_in dirty oid r s = ok s
  write_in deleted oid r s = err deleted_entity
  write_in clean none r s = ok s
  write_in clean (some oid) r s = ok (buffer_dirty oid r s)

  unfoldable pub first_write : ℕ → Session I Γ → Result (Session I Γ)
  unfolding write_in
  first_write r s = write_in (s.heap r).state (s.heap r).oid r s

  -- `_delete_oid`
  unfoldable pub delete_oid : Option ℕ → ℕ → TypeInfo → Session I Γ → Result (Bool × Session I Γ)
  delete_oid none oid ti s =
      if s.root_oid == some oid
      then err datacrystal_error
      else ok (
        true,
        record s {
          buffered_dirty = Dict.remove s.buffered_dirty oid;
          buffered_deleted = Dict.put s.buffered_deleted oid (ti, none);
        },
      )
  delete_oid (some r) oid ti s =
      if s.root_oid == some oid
      then err datacrystal_error
      else if is_new (s.heap r).state
      then ok (
        true,
        record s {
          buffered_new = Dict.remove s.buffered_new oid;
          buffered_dirty = Dict.remove s.buffered_dirty oid;
          cancelled_new = Dict.put s.cancelled_new oid r;
          heap = set_state s.heap r deleted;
        },
      )
      else ok (
        true,
        record s {
          buffered_dirty = Dict.remove s.buffered_dirty oid;
          heap = set_state s.heap r deleted;
          buffered_deleted = Dict.put s.buffered_deleted oid (ti, some r);
        },
      )

  delete_as : EntityState → Option ℕ → ℕ → Session I Γ → Result (Bool × Session I Γ)
  unfolding delete_oid
  delete_as st none r s = ok (false, s)
  delete_as deleted (some oid) r s = ok (false, s)
  delete_as new (some oid) r s = delete_oid (some r) oid (s.heap r).type s
  delete_as clean (some oid) r s = delete_oid (some r) oid (s.heap r).type s
  delete_as dirty (some oid) r s = delete_oid (some r) oid (s.heap r).type s

  -- `_delete_instance`
  unfoldable pub delete_instance : ℕ → Session I Γ → Result (Bool × Session I Γ)
  unfolding delete_as
  delete_instance r s =
      if (s.heap r).redacted then err read_denied else delete_as (s.heap r).state (s.heap r).oid r s

  mark_as : EntityState → Option ℕ → ℕ → ℕ → Exec (Session I Γ) (Unit {0})
  unfolding buffer_dirty
  mark_as deleted oid fuel r = Exec.raise deleted_entity
  mark_as clean (some oid) fuel r = Exec.modify (buffer_dirty oid r)
  mark_as new (some oid) fuel r = Exec.pure tt
  mark_as dirty (some oid) fuel r = Exec.pure tt
  mark_as clean none fuel r = register_graph fuel r [] >>= λ _. Exec.pure tt
  mark_as new none fuel r = register_graph fuel r [] >>= λ _. Exec.pure tt
  mark_as dirty none fuel r = register_graph fuel r [] >>= λ _. Exec.pure tt

  -- `mark_dirty`
  unfoldable pub mark_dirty : ℕ → ℕ → Exec (Session I Γ) (Unit {0})
  unfolding mark_as
  mark_dirty fuel r s =
      if (s.heap r).redacted
      then (err read_denied, s)
      else mark_as (s.heap r).state (s.heap r).oid fuel r s

  -- `_restore_prestamp_labels`, and `detach` before it.
  unfoldable pub untrack : ℕ → ℕ → Session I Γ → Session I Γ
  untrack oid r s =
      let heap = detach_entity s.heap r in
      record s {
        heap = elim (Dict.get s.prestamp_labels oid) [
          | none ↦ heap
          | some before ↦ write_at heap r (record (heap r) { labels = before })
        ];
        prestamp_labels = Dict.remove s.prestamp_labels oid;
      }

  unfoldable pub untrack_all : List (ℕ × ℕ) → Session I Γ → Session I Γ
  unfolding untrack
  untrack_all [] s = s
  untrack_all ((oid, r) ∷ entities) s = untrack_all entities (untrack oid r s)

  -- `discard` with `_refresh_from_backend`; `reload` is `_load_state`, which reads the allocator, the
  -- types, the root and the index manager back from the backend.
  unfoldable pub discard :
      (Memory → IdAllocator × TypeTable × Option ℕ × I) → Session I Γ → ℕ × Session I Γ
  unfolding untrack_all
  discard reload s =
      let s' = untrack_all (s.buffered_new ++ s.cancelled_new) s in
      let (alloc, types, root, index) = reload s.backend in
      (
        alloc.tid - 1,
        record s' {
          registry = [];
          buffered_new = [];
          buffered_dirty = [];
          buffered_deleted = [];
          cancelled_new = [];
          birth_labels = [];
          prestamp_labels = [];
          alloc = alloc;
          types = types;
          root_oid = root;
          index = index;
          last_tid = alloc.tid - 1;
        },
      )

  -- `attach`, given the watermark of a consumer and its identity.
  unfoldable pub attach : (Γ → ℕ) → ℕ → Γ → Session I Γ → Result (Session I Γ)
  attach watermark i c s =
      if ltb (watermark c) s.last_tid
      then err delta_gap
      else if ltb s.last_tid (watermark c)
      then err delta_gap
      else if Dict.has s.consumers i
      then err datacrystal_error
      else ok (record s { consumers = s.consumers ++ (i, c) ∷ [] })

  -- `detach`
  unfoldable pub detach : ℕ → Session I Γ → Result (Session I Γ)
  detach i s =
      if Dict.has s.consumers i
      then ok (record s { consumers = Dict.remove s.consumers i })
      else err datacrystal_error
