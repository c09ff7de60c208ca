-- ===== src/DeltaLog/Defs.antt =====
-- The state of `DeltaLog`, its manifest and `flush`, on a directory. A segment file goes by the number
-- in its name, and the manifest is the decoded JSON map.
use datacrystal.Base.{
  ℕ, ◌+◌, List, [], ◌∷◌, ◌++◌, Option, none, some, String, Bool, true, false, ◌==◌, length, ltb,
  if◌then◌else◌, nat_eq, string_eq,
}
use datacrystal.Base.Dict
use datacrystal.Base.Dict.{Dict}
use datacrystal.Base.Int.{ℤ, int_eq}
use datacrystal.Contract.{Bytes, TypeRow, contract_version}
use datacrystal.DeltaLog.Frame.{frame_all}
use datacrystal.Errors.{Result, ok, err}
use datacrystal.Exec.{Exec}

abbrev pub log_format : String
log_format = "datacrystal-delta-log"

abbrev pub log_version : ℕ
log_version = 1

pub record Segment : Type 0 where
  pub number : ℕ
  pub first_tid : ℕ
  pub last_tid : ℕ
  pub nbytes : ℕ

pub record Manifest : Type 0 where
  pub format : Option String
  pub version : ℕ
  pub recorded : Option ℤ
  pub watermark : ℕ
  pub genesis_tid : ℕ
  pub genesis_types : List TypeRow
  pub next_segment : ℕ
  pub segments : List Segment

-- The directory: the files under `data`, and `manifest.json` if it exists.
pub record Disk : Type 0 where
  pub files : Dict ℕ Bytes
  pub manifest : Option Manifest

pub record DeltaLog : Type 0 where
  pub flush_every : ℕ
  pub max_segment_bytes : ℕ
  pub segments : List Segment
  pub next_segment : ℕ
  pub watermark : ℕ
  pub applied : ℕ
  pub genesis_tid : ℕ
  pub genesis_types : List TypeRow
  pub buffer : List (ℕ × Bytes)
  pub applies_since_flush : ℕ
  pub bytes_flushed : ℕ
  pub disk : Disk

-- What `_write_manifest` puts in place, by an atomic rename.
unfoldable pub manifest_of : DeltaLog → Manifest
manifest_of log = record {
  format = some log_format;
  version = log_version;
  recorded = some contract_version;
  watermark = log.watermark;
  genesis_tid = log.genesis_tid;
  genesis_types = log.genesis_types;
  next_segment = log.next_segment;
  segments = log.segments;
}

unfoldable pub write_manifest : DeltaLog → DeltaLog
unfolding manifest_of
write_manifest log = record log { disk = record log.disk { manifest = some (manifest_of log) } }

-- `self._segments[-1].nbytes < self._max_segment_bytes`, `false` where there is no segment
unfoldable pub has_room : ℕ → List Segment → Bool
has_room bound [] = false
has_room bound (s ∷ []) = ltb s.nbytes bound
has_room bound (s ∷ t ∷ ss) = has_room bound (t ∷ ss)

-- `_ensure_current_segment`: whether a segment was created, and the log after it.
unfoldable pub ensure_current_segment : DeltaLog → Bool × DeltaLog
ensure_current_segment log = if has_room log.max_segment_bytes log.segments then (false, log) else (
  true,
  record log {
    next_segment = log.next_segment + 1;
    segments =
        log.segments
        ++ (record { number = log.next_segment; first_tid = 0; last_tid = 0; nbytes = 0 }) ∷ [];
  },
)

-- The append of `flush` to the file of the last segment; mode "ab" creates a file that is not there.
unfoldable pub append_file : List Segment → Bytes → Dict ℕ Bytes → Dict ℕ Bytes
append_file [] blob files = files
append_file (s ∷ []) blob files =
    Dict.put files s.number
      (elim (Dict.get files s.number) [ none ↦ blob | some old ↦ old ++ blob ])
append_file (s ∷ t ∷ ss) blob files = append_file (t ∷ ss) blob files

-- `seg.first_tid`, `seg.last_tid` and `seg.nbytes` of the last segment after the append.
unfoldable pub grow : (first last size : ℕ) → List Segment → List Segment
grow first last size [] = []
grow first last size (s ∷ []) =
    (record s {
      first_tid = if s.first_tid == 0 then first else s.first_tid;
      last_tid = last;
      nbytes = s.nbytes + size;
    })
    ∷ []
grow first last size (s ∷ t ∷ ss) = s ∷ grow first last size (t ∷ ss)

-- `self._buffer[-1][0]`, from the first entry on.
unfoldable pub last_tid_of : ℕ → List (ℕ × Bytes) → ℕ
last_tid_of tid [] = tid
last_tid_of tid ((next, raw) ∷ rest) = last_tid_of next rest

-- `flush` after the blob is made, on the log with its current segment.
unfoldable pub commit_blob : (first last : ℕ) → Bytes → DeltaLog → DeltaLog
unfolding append_file grow write_manifest
commit_blob first last blob log =
    let written = write_manifest (record log {
      disk = record log.disk { files = append_file log.segments blob log.disk.files };
      segments = grow first last (length blob) log.segments;
      watermark = log.applied;
    }) in
    record written { bytes_flushed = length blob; buffer = []; applies_since_flush = 0 }

unfoldable pub flush_blob :
    (first last : ℕ) → DeltaLog → Result Bytes → Result (Unit {0}) × DeltaLog
unfolding ensure_current_segment commit_blob
flush_blob first last log (err e) = (err e, log)
flush_blob first last log (ok blob) =
    (ok tt, commit_blob first last blob (ensure_current_segment log).1)

unfoldable pub flush_entries : List (ℕ × Bytes) → Exec DeltaLog (Unit {0})
unfolding flush_blob last_tid_of frame_all
flush_entries [] log = (ok tt, log)
flush_entries ((tid, raw) ∷ rest) log =
    flush_blob tid (last_tid_of tid rest) log (frame_all ((tid, raw) ∷ rest))

unfoldable pub flush : Exec DeltaLog (Unit {0})
unfolding flush_entries
flush log = flush_entries log.buffer (record log { bytes_flushed = 0 })
