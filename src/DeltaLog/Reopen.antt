-- ===== src/DeltaLog/Reopen.antt =====
-- The constructor of `DeltaLog` on an existing directory, and `bootstrap` on an empty one.
use datacrystal.Base.{
  ℕ, zero, suc, ◌+◌, List, [], ◌∷◌, Option, none, some, false, ◌||◌, ◌==◌, length, leb, ltb, eqb,
  if◌then◌else◌, map, contains, nat_eq, string_eq,
}
use datacrystal.Base.Dict
use datacrystal.Base.Dict.{Dict}
use datacrystal.Base.Int.{int_eq}
use datacrystal.Contract.{Bytes, TypeRow, contract_version}
use datacrystal.DeltaLog.Frame.{frame_size}
use datacrystal.Errors.{Result, ok, err, delta_log_config, ◌>>=◌, ◌>>◌}
use datacrystal.DeltaLog.Defs.{
  Segment, Manifest, Disk, DeltaLog, log_format, log_version, write_manifest,
}

-- `os.truncate`, which fills up with zero bytes.
unfoldable pub truncate : ℕ → Bytes → Bytes
truncate zero file = []
truncate (suc n) [] = 0 ∷ truncate n []
truncate (suc n) (b ∷ file) = b ∷ truncate n file

unfoldable pub truncate_all : List Segment → Dict ℕ Bytes → Dict ℕ Bytes
unfolding truncate
truncate_all [] files = files
truncate_all (s ∷ ss) files = truncate_all ss (elim (Dict.get files s.number) [
  | none ↦ files
  | some file ↦
      if eqb (length file) s.nbytes then files else Dict.put files s.number (truncate s.nbytes file)
])

unfoldable pub unlink_unnamed : List ℕ → Dict ℕ Bytes → Dict ℕ Bytes
unlink_unnamed named [] = []
unlink_unnamed named ((number, file) ∷ files) =
    let rest = unlink_unnamed named files in
    if contains named number then (number, file) ∷ rest else rest

unfoldable pub reconcile_segments : DeltaLog → DeltaLog
unfolding truncate_all unlink_unnamed
reconcile_segments log = record log {
  disk = record log.disk {
    files =
        unlink_unnamed (map (λ s. s.number) log.segments)
          (truncate_all log.segments log.disk.files);
  };
}

unfoldable pub check_manifest : Manifest → Result (Unit {0})
check_manifest m =
    if elim m.format [ none ↦ false | some f ↦ f == log_format ]
    then (if leb m.version log_version
        then (if elim m.recorded [ none ↦ false | some v ↦ v == contract_version ]
            then ok tt
            else err delta_log_config)
        else err delta_log_config)
    else err delta_log_config

unfoldable pub load_manifest : Option Manifest → DeltaLog → Result DeltaLog
unfolding check_manifest
load_manifest none log = ok log
load_manifest (some m) log = do
  check_manifest m
  ok (record log {
    watermark = m.watermark;
    applied = m.watermark;
    genesis_tid = m.genesis_tid;
    genesis_types = m.genesis_types;
    next_segment = m.next_segment;
    segments = m.segments;
  })

-- The constructor on an existing directory.
unfoldable pub open_log : (flush_every max_segment_bytes : ℕ) → Disk → Result DeltaLog
unfolding load_manifest reconcile_segments
open_log flush_every max_segment_bytes disk =
    if ltb flush_every 1 || ltb max_segment_bytes (frame_size + 1) then err delta_log_config else do
      log ← load_manifest disk.manifest (record {
        flush_every = flush_every;
        max_segment_bytes = max_segment_bytes;
        segments = [];
        next_segment = 1;
        watermark = 0;
        applied = 0;
        genesis_tid = 0;
        genesis_types = [];
        buffer = [];
        applies_since_flush = 0;
        bytes_flushed = 0;
        disk = disk;
      })
      ok (reconcile_segments log)

-- `bootstrap` on an empty directory: the log that joins a store at a snapshot's TID.
unfoldable pub bootstrap : (flush_every max_segment_bytes tid : ℕ) → List TypeRow → Result DeltaLog
unfolding open_log write_manifest
bootstrap flush_every max_segment_bytes tid types = do
  log ← open_log flush_every max_segment_bytes (record { files = []; manifest = none })
  ok (
      write_manifest
        (record log { genesis_tid = tid; genesis_types = types; watermark = tid; applied = tid }))
