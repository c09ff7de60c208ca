-- ===== src/Session/Graph.antt =====
-- The registration of entities: `_register_graph`, `_adopt_unregistered`, `_stamp_perm_labels` and
-- `_discover_new_graphs`.
use datacrystal.Base.{
  ℕ, zero, suc, Bool, true, false, List, [], ◌∷◌, ◌++◌, Option, none, some, map, contains, ◌&&◌,
  ◌==◌, if◌then◌else◌, nat_eq, list_eq,
}
use datacrystal.Base.Int.{ℤ, pos, int_eq}
use datacrystal.Base.Dict
use datacrystal.Errors.{ok, err, write_denied}
use datacrystal.Exec
use datacrystal.Exec.{Exec, ◌>>=◌, ◌>>◌}
use datacrystal.Ids.{next_oid}
use datacrystal.Permissions.{Labels, viewer}
use datacrystal.Session.Live.{write_at, stamp, Session}
use datacrystal.Session.Reach.{Entry, require_storable, is_buffered, queue_field_entities}

-- Labels that nothing has touched since birth: no groups and both floors at `VIEWER`.
unfoldable pub untouched : Labels → Bool
untouched l = l.groups == [] && (l.read_floor == viewer && l.write_floor == viewer)

-- The gate's baseline, `base_groups`, `base_read` and `base_write`, with the acting uid as the owner:
-- untouched labels take those of the container.
unfoldable pub birth_base : ℤ → Labels → Option Labels → Labels
birth_base uid l none = record {
  owner = uid;
  groups = [];
  read_floor = viewer;
  write_floor = viewer;
}
birth_base uid l (some container) =
    if untouched l
    then record container { owner = uid }
    else record { owner = uid; groups = []; read_floor = viewer; write_floor = viewer }

-- The labels of the object after `_stamp_perm_labels`.
unfoldable pub stamped_labels : ℤ → Labels → Option Labels → Labels
stamped_labels uid l none = record l { owner = uid }
stamped_labels uid l (some container) =
    if untouched l then record container { owner = uid } else record l { owner = uid }

abbrev pub is_none : Option ℕ → Bool
is_none none = true
is_none (some oid) = false

module _ {I Γ : Type 0} where
  -- `_stamp_perm_labels`
  unfoldable pub stamp_perm_labels : ℕ → ℕ → Option ℕ → Session I Γ → Session I Γ
  unfolding birth_base stamped_labels
  stamp_perm_labels r oid container s =
      let x = s.heap r in
      let uid = s.principal.uid in
      let given : Option Labels = elim container [
        | none ↦ none
        | some c ↦ some (s.heap c).labels
      ] in
      record s {
        heap = write_at s.heap r (record x { labels = stamped_labels uid x.labels given });
        prestamp_labels = Dict.put s.prestamp_labels oid x.labels;
        birth_labels = Dict.put s.birth_labels oid (birth_base uid x.labels given);
      }

  -- The writes of `_adopt_unregistered`, under the next object id.
  unfoldable pub adopted : ℕ → Session I Γ → Session I Γ
  adopted r s = record s {
    alloc = (next_oid s.alloc).1;
    heap = stamp s.heap r (next_oid s.alloc).0 (s.heap r).state;
    buffered_new = Dict.put s.buffered_new (next_oid s.alloc).0 r;
  }

  unfoldable pub adopt_unregistered : ℕ → Exec (Session I Γ) ℕ
  adopt_unregistered r s =
      if (s.heap r).type.protected && s.principal.uid == pos 0
      then (err write_denied, s)
      else (ok (next_oid s.alloc).0, adopted r s)

  -- `oid_of(current)`, or the id of an adoption.
  unfoldable pub registered_oid : ℕ → Option ℕ → Exec (Session I Γ) ℕ
  unfolding adopt_unregistered
  registered_oid r none = adopt_unregistered r
  registered_oid r (some oid) = Exec.pure oid

  -- The round's end, for an id that was not walked before; `fresh` says that it was just given.
  unfoldable pub expand : ℕ → Option ℕ → Bool → ℕ → List Entry → Exec (Session I Γ) (List Entry)
  unfolding stamp_perm_labels
  expand r container fresh oid queue s =
      if is_buffered s.buffered_new s.buffered_dirty oid
      then (let s' =
            if fresh && (s.heap r).type.protected then stamp_perm_labels r oid container s else s in
          (queue_field_entities s'.heap s'.buffered_new s'.buffered_dirty r queue, s'))
      else (ok queue, s)

  -- The rest of a round once the id is known.
  unfoldable pub visit_as :
      ℕ → Option ℕ → Bool → List ℕ → List Entry → ℕ → Exec (Session I Γ) (List ℕ × List Entry)
  unfolding expand
  visit_as r container fresh walked queue oid s =
      if contains walked oid
      then (ok (walked, queue), s)
      else (expand r container fresh oid queue >>= λ queue'. Exec.pure (oid ∷ walked, queue')) s

  -- One round of the loop of `_register_graph`: the ids walked and the queue after it.
  unfoldable pub visit : Entry → List ℕ → List Entry → Exec (Session I Γ) (List ℕ × List Entry)
  unfolding registered_oid visit_as
  visit (r, container) walked queue s =
      (do
        Exec.lift (require_storable (s.heap r))
        oid ← registered_oid r (s.heap r).oid
        visit_as r container (is_none (s.heap r).oid) walked queue oid)
        s

  -- The loop, with fuel for its rounds; it returns the ids walked and what is left of the queue.
  unfoldable pub walk : ℕ → List ℕ → List Entry → Exec (Session I Γ) (List ℕ × List Entry)
  walk fuel walked [] = Exec.pure (walked, [])
  walk zero walked (e ∷ queue) = Exec.pure (walked, e ∷ queue)
  walk (suc fuel) walked (e ∷ queue) = do
    (walked', queue') ← visit e walked queue
    walk fuel walked' queue'

  -- `_register_graph`
  unfoldable pub register_graph : ℕ → ℕ → List ℕ → Exec (Session I Γ) (List ℕ × List Entry)
  register_graph fuel r walked = walk fuel walked ((r, none) ∷ [])

  -- The loop of `_discover_new_graphs` over the buffered entities, one set of walked ids for all; it
  -- returns what a walk without fuel for it has left.
  unfoldable pub register_all : ℕ → List ℕ → List ℕ → Exec (Session I Γ) (List Entry)
  register_all fuel walked [] = Exec.pure []
  register_all fuel walked (r ∷ rs) = do
    (walked', left) ← register_graph fuel r walked
    more ← register_all fuel walked' rs
    Exec.pure (left ++ more)

  -- `_discover_new_graphs`
  unfoldable pub discover_new_graphs : ℕ → Exec (Session I Γ) (List Entry)
  discover_new_graphs fuel s =
      register_all fuel [] (map (λ e. e.1) s.buffered_new ++ map (λ e. e.1) s.buffered_dirty) s
