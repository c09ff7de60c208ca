-- ===== src/Session/Commit.antt =====
-- P2 and P3 of a commit: `_run_p2`, `_p2_rollback`, `_p3_finalize`, `_deliver` and `commit`, with
-- `_commit_unlocked` of src/datacrystal/_async.py, where writes of the owner may come between P1 and
-- the end of P2.
use datacrystal.Base.{
  ℕ, Bool, true, false, List, [], ◌∷◌, ◌++◌, Option, none, some, map, ◌&&◌, eqb, if◌then◌else◌,
  nat_eq,
}
use datacrystal.Base.Dict
use datacrystal.Base.Dict.{Dict}
use datacrystal.Contract.{TypeRow, WireDelta}
use datacrystal.Entity.{EntityState, new, clean, dirty, deleted}
use datacrystal.Errors.{Result, ok, err}
use datacrystal.Exec.{Exec, ◌>>=◌}
use datacrystal.Permissions.{Labels}
use datacrystal.Storage.{CommitBatch}
use datacrystal.Session.Live.{Heap, set_state, TypeTable, Session}
use datacrystal.Session.Capture.{p1_capture}
use datacrystal.Session.Pending.{Services, Deletes, Flipped, Capture}

-- One entity of the loop of `_p2_rollback`: the heap, `_new` and `_dirty`.
unfoldable pub unflip :
    ℕ → ℕ → EntityState → Heap × Dict ℕ ℕ × Dict ℕ ℕ → Heap × Dict ℕ ℕ × Dict ℕ ℕ
unflip oid r new (h, fresh, edited) =
    (set_state h r new, Dict.put fresh oid r, Dict.remove edited oid)
unflip oid r clean (h, fresh, edited) = (set_state h r dirty, fresh, Dict.put edited oid r)
unflip oid r dirty (h, fresh, edited) = (set_state h r dirty, fresh, Dict.put edited oid r)
unflip oid r deleted (h, fresh, edited) = (set_state h r dirty, fresh, Dict.put edited oid r)

unfoldable pub unflip_all : Flipped → Heap × Dict ℕ ℕ × Dict ℕ ℕ → Heap × Dict ℕ ℕ × Dict ℕ ℕ
unflip_all [] b = b
unflip_all ((oid, r, prior) ∷ flipped) b = unflip_all flipped (unflip oid r prior b)

-- The end of the identity contract: each live instance of a deleted id is barred, and the id forgotten.
unfoldable pub bar_deleted : Deletes → Heap × Dict ℕ ℕ → Heap × Dict ℕ ℕ
bar_deleted [] b = b
bar_deleted ((oid, (ti, obj)) ∷ deletes) (h, registry) =
    let live : Option ℕ = elim obj [ some r ↦ some r | none ↦ Dict.get registry oid ] in
    bar_deleted deletes
      (elim live [ none ↦ h | some r ↦ set_state h r deleted ], Dict.remove registry oid)

-- `self._prestamp_labels.pop(oid, None)` for each flipped entity
unfoldable pub drop_flipped : Flipped → Dict ℕ Labels → Dict ℕ Labels
drop_flipped [] d = d
drop_flipped ((oid, r, prior) ∷ flipped) d = drop_flipped flipped (Dict.remove d oid)

-- The result of a call to the outside, carried into the object that holds its state.
abbrev pub outcome : Result (Unit {0}) → Bool
outcome (ok u) = true
outcome (err e) = false

-- `self._durable_cids.update(...)`
unfoldable pub make_durable : List TypeRow → TypeTable → TypeTable
make_durable rows t = record t { durable_cids = map (λ row. row.0) rows ++ t.durable_cids }

module _ {I Γ : Type 0} where
  -- `_p2_rollback`
  unfoldable pub p2_rollback : Capture → Session I Γ → Session I Γ
  unfolding unflip_all
  p2_rollback c s =
      let (heap, fresh, edited) = unflip_all c.flipped (s.heap, s.buffered_new, s.buffered_dirty) in
      record s {
        alloc = record (s.alloc) { tid = c.tid };
        heap = heap;
        buffered_new = fresh;
        buffered_dirty = edited;
        buffered_deleted = Dict.update s.buffered_deleted c.deletes;
      }

module _ {I Γ : Type 0} (sv : Services I Γ) where
  -- One round of `_deliver`: a consumer that raises, or whose watermark is not the TID, is detached.
  unfoldable pub deliver : ℕ → WireDelta → Dict ℕ Γ → Dict ℕ Γ
  deliver tid delta [] = []
  deliver tid delta ((i, c) ∷ consumers) =
      let rest = deliver tid delta consumers in
      let (result, c') = sv.receive delta c in
      if outcome result && eqb (sv.watermark c') tid then (i, c') ∷ rest else rest

  -- `_p3_finalize`
  unfoldable pub p3_finalize : Capture → Session I Γ → ℕ × Session I Γ
  unfolding bar_deleted make_durable deliver
  p3_finalize c s =
      let (heap, registry) = bar_deleted c.deletes (s.heap, s.registry) in
      (
        c.tid,
        record s {
          heap = heap;
          registry = registry;
          index = sv.fold s.index c.entries (Dict.keys c.deletes);
          prestamp_labels = drop_flipped c.flipped s.prestamp_labels;
          types = make_durable c.batch.new_types s.types;
          last_tid = c.tid;
          consumers = elim c.delta [ none ↦ s.consumers | some d ↦ deliver c.tid d s.consumers ];
        },
      )

  -- `_run_p2`
  unfoldable pub run_p2 : CommitBatch → Exec (Session I Γ) (Unit {0})
  run_p2 batch s =
      let (result, backend) = sv.persist batch s.backend in (result, record s { backend = backend })

  -- What follows P2: the rollback, or P3.
  unfoldable pub settle :
      Capture → Result (Unit {0}) × Session I Γ → Result (Option ℕ) × Session I Γ
  unfolding p2_rollback p3_finalize
  settle c (err e, s) = (err e, p2_rollback c s)
  settle c (ok u, s) = (ok (some (p3_finalize c s).0), (p3_finalize c s).1)

  module _ (race : Session I Γ → Session I Γ) where
    unfoldable pub settle_capture : Option Capture → Exec (Session I Γ) (Option ℕ)
    unfolding settle run_p2
    settle_capture none s = (ok none, s)
    settle_capture (some c) s = settle c (run_p2 c.batch (race s))

    -- `_commit_unlocked`; `race` is what the owner writes while P2 runs.
    unfoldable pub commit_racing : ℕ → ℕ → Exec (Session I Γ) (Option ℕ)
    unfolding settle_capture
    commit_racing at fuel s = (p1_capture sv at fuel >>= settle_capture) s

  -- `commit` of a store that is no follower
  unfoldable pub commit : ℕ → ℕ → Exec (Session I Γ) (Option ℕ)
  unfolding commit_racing
  commit = commit_racing (λ s. s)
