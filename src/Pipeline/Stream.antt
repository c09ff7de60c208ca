-- ===== src/Pipeline/Stream.antt =====
-- A run of commits over the in-memory backend, and the replay of the deltas that it emits.
use datacrystal.Base.{ℕ, ◌+◌, List, [], ◌∷◌, ◌++◌, Option, none, ◌≡◌, refl, true, inl, inr, ◌∙◌, ap}
use datacrystal.Base.Dict.{Dict}
use datacrystal.Base.Dict
use datacrystal.Contract
use datacrystal.Contract.{Bytes, TypeRow, WireDelta, Applier}
use datacrystal.Errors.{Result, ok, Result-cases}
use datacrystal.Exec.{Exec, pure, ◌>>=◌}
use datacrystal.Storage
use datacrystal.Storage.{CommitBatch, Memory, StoredRecord, put_records, drop_all}
use datacrystal.Storage.Apply.{apply-lem}
use datacrystal.Pipeline.Defs.{Tombstone, build_delta, read_delta_priors}
use datacrystal.Pipeline.Replica.{InSync, IsTyped}
use datacrystal.Pipeline.Capture.{Commit, IsCapture, oids_of}
use datacrystal.Pipeline.Step.{replica_follows}

-- `for delta in deltas: applier.apply(delta)`, as in `DeltaLog.replayed_state`
unfoldable pub replay : List WireDelta → Exec Applier (Unit {0})
replay [] = pure tt
replay (d ∷ ds) = do _ ← Contract.apply d; replay ds

replay-append :
    (ds es : List WireDelta) (s t : Applier)
    → replay ds s ≡ (ok tt, t)
    → replay (ds ++ es) s ≡ replay es t
unfolding replay
replay-append [] es s t h = ap (λ (p : Result (Unit {0}) × Applier). replay es p.1) h
replay-append (d ∷ ds) es s t h = elim (Result-cases (Contract.apply d s).0) [
  | inl (e, q) ↦ absurd (cc (rw q at h))
  | inr (u, q) ↦ rw q (replay-append ds es (Contract.apply d s).1 t (rw q at h))
]

replay_one :
    (d : WireDelta) (s : Applier)
    → (Contract.apply d s).0 ≡ ok true
    → replay (d ∷ []) s ≡ (ok tt, (Contract.apply d s).1)
unfolding replay
replay_one d s h = rw h

batch-lem :
    (sha256 : Bytes → Bytes) (batch : CommitBatch) (c : Commit) (m m' : Memory)
    → batch.records ≡ c.records
    → batch.new_types ≡ c.new_types
    → batch.deletes ≡ c.deletes
    → Storage.apply sha256 batch m ≡ (ok tt, m')
    → (m'.objects ≡ drop_all (put_records m.objects c.records) c.deletes)
      × (m'.types ≡ m.types ++ c.new_types)
batch-lem sha256 batch c m m' er et ed run =
    let (eo, ey) = apply-lem sha256 batch m m' run in
    (
      eo
          ∙ ap (λ rs. drop_all (put_records m.objects rs) batch.deletes) er
          ∙ ap (drop_all (put_records m.objects c.records)) ed,
      ey ∙ ap (◌++◌ m.types) et,
    )

-- A store between two commits.
pub record Db : Type 0 where
  pub memory : Memory
  pub last : ℕ
  pub root : Option ℕ

abbrev pub empty : Db
empty = record { memory = Storage.start; last = 0; root = none }

module _ (sha256 : Bytes → Bytes) where
  -- A run that starts at `db`, the deltas that its commits emit, and where it ends. Each commit reads
  -- its priors, takes the next TID and has its batch applied.
  pub data Emits (db : Db) : List WireDelta → Db → Type 0 where
    here : Emits db [] db
    next :
        {ds : List WireDelta} {mid : Db}
        → Emits db ds mid
        → (c : Commit) (priors : Dict ℕ Bytes) (ts : List Tombstone) (batch : CommitBatch)
          (m : Memory)
        → IsCapture mid.memory.objects mid.memory.types c
        → read_delta_priors mid.memory.objects c.is_new c.gate (oids_of c.records) c.deletes
          ≡ ok (priors, ts)
        → batch.records ≡ c.records
        → batch.new_types ≡ c.new_types
        → batch.deletes ≡ c.deletes
        → Storage.apply sha256 batch mid.memory ≡ (ok tt, m)
        → Emits db
            (ds
              ++ build_delta (mid.last + 1) c.records c.new_types c.root priors ts c.actor c.at
                ∷ [])
            (record { memory = m; last = mid.last + 1; root = c.root })

  -- Replaying what the store has emitted since it was empty gives an applier that holds the store:
  -- every payload, class id, the last TID and the root. Nothing is refused on the way.
  pub replay_stream :
      {ds : List WireDelta} {db : Db}
      → Emits empty ds db
      → ((replay ds Contract.start).0 ≡ ok tt)
        × InSync (replay ds Contract.start).1 db.memory.objects db.memory.types db.last db.root
        × IsTyped db.memory.objects db.memory.types
  unfolding replay
  replay_stream here = (
    refl,
    record {
      same = λ k. unfold Dict.get in refl;
      cids = λ k. unfold Dict.has in refl;
      mark = refl;
      root_same = refl;
    },
    tt,
  )
  replay_stream (next {ds = ds} {mid = mid} r c priors ts batch m cap read er et ed run) =
      let (done, sync, typed) = replay_stream r in
      let app = (replay ds Contract.start).1 in
      let d = build_delta (mid.last + 1) c.records c.new_types c.root priors ts c.actor c.at in
      let (one, sync', typed') =
        replica_follows app mid.memory.objects mid.memory.types mid.last mid.root sync typed c cap
          priors ts read in
      let (eo, ey) = batch-lem sha256 batch c mid.memory m er et ed run in
      rw
        (
          replay-append ds (d ∷ []) Contract.start app
                (ap (λ (r : Result (Unit {0})). (r, app)) done)
              ∙ replay_one d app one,
          eo,
          ey,
        )
        (refl, sync', typed')
