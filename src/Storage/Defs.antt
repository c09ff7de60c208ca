-- ===== src/Storage/Defs.antt =====
-- `StoredRecord`, `StoredBlob`, `StreamedBlob`, `CommitBatch` of protocol.py and
-- `MemoryBackend` of memory.py. Its lock makes every call one step, so a call is a function here.
use datacrystal.Base.{
  ℕ, String, List, [], ◌∷◌, ◌++◌, Option, none, some, ◌==◌, eqb, length, nat_eq, string_eq, list_eq,
}
use datacrystal.Base.Dict
use datacrystal.Base.Dict.{Dict}
use datacrystal.Contract.{Bytes, TypeRow}
use datacrystal.Errors.{Result, ok, err, require, value_error, ◌>>=◌, ◌>>◌}
use datacrystal.Exec.{Exec}

pub record StoredRecord : Type 0 where
  pub oid : ℕ
  pub cid : ℕ
  pub tid : ℕ
  pub payload : Bytes

pub record StoredBlob : Type 0 where
  pub oid : ℕ
  pub tid : ℕ
  pub size : ℕ
  pub hash : Bytes
  pub content : Bytes

-- `open_chunks()` yields chunks, or raises on the way.
pub record StreamedBlob : Type 0 where
  pub oid : ℕ
  pub tid : ℕ
  pub size : ℕ
  pub hash : Bytes
  pub chunks : Result (List Bytes)

pub record CommitBatch : Type 0 where
  pub tid : ℕ
  pub records : List StoredRecord
  pub new_types : List TypeRow
  pub meta : Dict String String
  pub deletes : List ℕ
  pub blobs : List StoredBlob
  pub blob_streams : List StreamedBlob

pub record Memory : Type 0 where
  pub meta : Dict String String
  pub types : List TypeRow
  pub objects : Dict ℕ StoredRecord
  pub blobs : Dict ℕ StoredBlob

-- `MemoryBackend()`; the text is `str(FORMAT_VERSION)`.
abbrev pub start : Memory
start = record { meta = ("format_version", "2") ∷ []; types = []; objects = []; blobs = [] }

-- `{oid: objects[oid] for oid in oids if oid in objects}`
unfoldable pub load_many : Dict ℕ StoredRecord → List ℕ → Dict ℕ StoredRecord
load_many objects [] = []
load_many objects (oid ∷ oids) =
    let rest = load_many objects oids in
    elim (Dict.get objects oid) [ none ↦ rest | some r ↦ Dict.put rest oid r ]

unfoldable pub load_blob : Memory → ℕ → Option StoredBlob
load_blob m oid = Dict.get m.blobs oid

unfoldable pub put_records : Dict ℕ StoredRecord → List StoredRecord → Dict ℕ StoredRecord
put_records d [] = d
put_records d (r ∷ rs) = put_records (Dict.put d r.oid r) rs

unfoldable pub put_blobs : Dict ℕ StoredBlob → List StoredBlob → Dict ℕ StoredBlob
put_blobs d [] = d
put_blobs d (b ∷ bs) = put_blobs (Dict.put d b.oid b) bs

-- `pop(oid, None)` for each id
unfoldable pub drop_all : Dict ℕ StoredRecord → List ℕ → Dict ℕ StoredRecord
drop_all d [] = d
drop_all d (oid ∷ oids) = drop_all (Dict.remove d oid) oids

-- `b"".join(chunks)`
unfoldable pub join : List Bytes → Bytes
join [] = []
join (c ∷ cs) = c ++ join cs

-- `sha256` is the digest of Python's `hashlib`.
module _ (sha256 : Bytes → Bytes) where
  -- One round of the loop that reads the streamed blobs.
  unfoldable pub materialize_one : StreamedBlob → Result StoredBlob
  unfolding join
  materialize_one sb = do
    cs ← sb.chunks
    let content = join cs
    require (eqb (length content) sb.size) value_error
    require (sha256 content == sb.hash) value_error
    ok (record { oid = sb.oid; tid = sb.tid; size = sb.size; hash = sb.hash; content = content })

  unfoldable pub materialize : List StreamedBlob → Result (List StoredBlob)
  materialize [] = ok []
  materialize (sb ∷ sbs) = do b ← materialize_one sb; bs ← materialize sbs; ok (b ∷ bs)

  -- The writes of `apply`, once the streams are read.
  unfoldable pub write_batch : CommitBatch → List StoredBlob → Memory → Memory
  write_batch batch streamed m = record m {
    types = m.types ++ batch.new_types;
    objects = drop_all (put_records m.objects batch.records) batch.deletes;
    blobs = put_blobs (put_blobs m.blobs batch.blobs) streamed;
    meta = Dict.update m.meta batch.meta;
  }

  finish : CommitBatch → Result (List StoredBlob) → Exec Memory (Unit {0})
  unfolding write_batch
  finish batch (err e) m = (err e, m)
  finish batch (ok streamed) m = (ok tt, write_batch batch streamed m)

  unfoldable pub apply : CommitBatch → Exec Memory (Unit {0})
  unfolding finish
  apply batch m = finish batch (materialize batch.blob_streams) m
