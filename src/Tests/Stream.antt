-- ===== src/Tests/Stream.antt =====
-- Two commits of a small store, and an applier that follows them.
use datacrystal.Base.{ℕ, ◌+◌, [], ◌∷◌, none, some, ◌≡◌, refl, true, false}
use datacrystal.Base.Dict.{Dict}
use datacrystal.Base.Dict
use datacrystal.Base.Int.{pos}
use datacrystal.Contract
use datacrystal.Contract.{Bytes, TypeRow, WireDelta, Applier}
use datacrystal.Errors.{ok}
use datacrystal.Storage
use datacrystal.Storage.{CommitBatch, Memory, StoredRecord}
use datacrystal.Ids.{oid_base}
use datacrystal.Pipeline.{
  build_delta, prior_records, read_delta_priors, read_priors, read_tombstones,
}
use datacrystal.Pipeline.Replica.{InSync, IsTyped}
use datacrystal.Pipeline.Capture.{Commit, IsCapture, oids_of}
use datacrystal.Pipeline.Step.{replica_follows}
use datacrystal.Pipeline.Stream.{Emits, here, next, empty, replay, replay_stream}

abbrev digest : Bytes → Bytes
digest b = b

abbrev quartz : ℕ → Bytes → StoredRecord
quartz tid payload = record { oid = oid_base; cid = 1; tid = tid; payload = payload }

abbrev azurite : StoredRecord
azurite = record { oid = oid_base + 1; cid = 1; tid = 1; payload = 7 ∷ [] }

abbrev mineral : TypeRow
mineral = (1, "Mineral", "qid" ∷ "name" ∷ [])

abbrev birth : Commit
birth = record {
  records = quartz 1 (1 ∷ 2 ∷ []) ∷ azurite ∷ [];
  new_types = mineral ∷ [];
  deletes = [];
  root = some oid_base;
  actor = pos 7;
  at = 100;
  is_new = λ k. true;
  gate = [];
}

abbrev change : Commit
change = record {
  records = quartz 2 (1 ∷ 3 ∷ []) ∷ [];
  new_types = [];
  deletes = azurite.oid ∷ [];
  root = some oid_base;
  actor = pos 7;
  at = 200;
  is_new = λ k. false;
  gate = [];
}

abbrev batch_of : ℕ → Commit → CommitBatch
batch_of tid c = record {
  tid = tid;
  records = c.records;
  new_types = c.new_types;
  meta = [];
  deletes = c.deletes;
  blobs = [];
  blob_streams = [];
}

abbrev after_birth : Memory
after_birth = record {
  meta = Storage.start.meta;
  types = mineral ∷ [];
  objects = (oid_base, quartz 1 (1 ∷ 2 ∷ [])) ∷ (azurite.oid, azurite) ∷ [];
  blobs = [];
}

abbrev after_change : Memory
after_change = record after_birth { objects = (oid_base, quartz 2 (1 ∷ 3 ∷ [])) ∷ [] }

abbrev delta_1 : WireDelta
delta_1 = build_delta 1 birth.records birth.new_types birth.root [] [] birth.actor birth.at

abbrev delta_2 : WireDelta
delta_2 =
    build_delta 2 change.records change.new_types change.root ((oid_base, 1 ∷ 2 ∷ []) ∷ [])
      ((azurite.oid, 1, 7 ∷ []) ∷ []) change.actor change.at

birth-IsCapture : IsCapture [] [] birth
unfolding Dict.get
birth-IsCapture = record {
  loaded = tt;
  fresh = (λ _. refl, (λ _. refl, tt));
  distinct = ((refl, tt), (tt, tt));
  distinct_deletes = tt;
  apart = tt;
  typed = (refl, (refl, tt));
}

change-IsCapture : IsCapture after_birth.objects after_birth.types change
unfolding Dict.get
change-IsCapture = record {
  loaded = tt;
  fresh = (λ e. absurd (cc e), tt);
  distinct = (tt, tt);
  distinct_deletes = (tt, tt);
  apart = (refl, tt);
  typed = (refl, tt);
}

program : Unit {0}
unfolding read_delta_priors read_priors read_tombstones prior_records Storage.load_many Dict.get
    Dict.has Dict.put Dict.update Dict.remove Storage.apply Storage.write_batch Storage.materialize
    Storage.put_records Storage.put_blobs Storage.drop_all
program = tt

change_priors :
    read_delta_priors after_birth.objects change.is_new change.gate
      (oids_of change.records)
      change.deletes
    ≡ ok ((oid_base, 1 ∷ 2 ∷ []) ∷ [], (azurite.oid, 1, 7 ∷ []) ∷ [])
unfolding program
change_priors = refl

run :
    Emits digest empty
      (delta_1 ∷ delta_2 ∷ [])
      (record { memory = after_change; last = 2; root = some oid_base })
unfolding program
run =
    next
      (next here birth [] [] (batch_of 1 birth) after_birth birth-IsCapture refl refl refl refl
        refl)
      change ((oid_base, 1 ∷ 2 ∷ []) ∷ []) ((azurite.oid, 1, 7 ∷ []) ∷ []) (batch_of 2 change)
      after_change change-IsCapture refl refl refl refl refl

replay_stream_example :
    ((replay (delta_1 ∷ delta_2 ∷ []) Contract.start).0 ≡ ok tt)
    × InSync
        (replay (delta_1 ∷ delta_2 ∷ []) Contract.start).1
        after_change.objects
        after_change.types
        2
        (some oid_base)
    × IsTyped after_change.objects after_change.types
replay_stream_example = replay_stream digest run

replica_follows_example :
    ((Contract.apply delta_1 Contract.start).0 ≡ ok true)
    × InSync
        (Contract.apply delta_1 Contract.start).1
        after_birth.objects
        after_birth.types
        1
        (some oid_base)
    × IsTyped after_birth.objects after_birth.types
unfolding program
replica_follows_example =
    replica_follows Contract.start [] [] 0 none
      (record { same = λ k. refl; cids = λ k. refl; mark = refl; root_same = refl }) tt birth
      birth-IsCapture [] [] refl
