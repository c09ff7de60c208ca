-- ===== src/Tests/Log.antt =====
-- A delta log with one segment and one buffered delta, and a crash in its flush.
use datacrystal.Base.{
  option_beq, Option-cases, inr, ℕ, List, [], ◌∷◌, ◌++◌, Option, none, some, ◌≡◌, refl, inl, arith,
  nat_eq, ==_iff,
}
use datacrystal.Base.Dict
use datacrystal.Base.Int.{pos}
use datacrystal.Contract.{Bytes, WireDelta, Version, required, need, check_delta_header}
use datacrystal.DeltaLog.{
  Segment, Disk, DeltaLog, manifest_of, ensure_current_segment, has_room, append_file, replay,
  open_log, flush, apply, apply_required, record_delta, valid_ops, write_manifest, grow,
  last_tid_of, commit_blob, flush_blob, flush_entries, truncate_all, unlink_unnamed,
  reconcile_segments, check_manifest, load_manifest,
}
use datacrystal.DeltaLog.Crash.{Crash, Reopened, open_log-Reopened}
use datacrystal.DeltaLog.Flush.{Flushed, flush-Flushed}
use datacrystal.DeltaLog.Frame.{frame, frame_all, to_bytes, read_frames, read_back}
use datacrystal.DeltaLog.History.{Keeps, apply-Keeps}
use datacrystal.DeltaLog.Invariant.{Entries, concat, IsLog}
use datacrystal.DeltaLog.Life.{Life, nowhere, replay-Life}
use datacrystal.DeltaLog.Replay.{after, decoded, replay_exact}
use datacrystal.Errors.{ok}

-- A coding of the TID alone.
abbrev encode : WireDelta → Bytes
encode d = elim d.tid [ none ↦ [] | some t ↦ t ∷ [] ]

abbrev numbered : Option ℕ → WireDelta
numbered t = record {
  f = none;
  v = none;
  tid = t;
  actor = none;
  at = none;
  ops = none;
  types = none;
  root = none;
}

abbrev decode : Bytes → WireDelta
decode [] = numbered none
decode (t ∷ bs) = numbered (some t)

abbrev entries : Entries
entries = (1, 7 ∷ 5 ∷ []) ∷ (2, []) ∷ []

abbrev blob : Bytes
blob = 0 ∷ 0 ∷ 0 ∷ 0 ∷ 0 ∷ 0 ∷ 0 ∷ 2 ∷ 7 ∷ 5 ∷ 0 ∷ 0 ∷ 0 ∷ 0 ∷ 0 ∷ 0 ∷ 0 ∷ 0 ∷ []

read_back_example : read_frames 18 (blob ++ 9 ∷ 9 ∷ []) 18 ≡ (7 ∷ 5 ∷ []) ∷ [] ∷ []
unfolding frame_all frame to_bytes
read_back_example = read_back entries blob (9 ∷ 9 ∷ []) refl

abbrev segment : Segment
segment = record { number = 1; first_tid = 1; last_tid = 1; nbytes = 9 }

abbrev on_disk : Bytes
on_disk = 0 ∷ 0 ∷ 0 ∷ 0 ∷ 0 ∷ 0 ∷ 0 ∷ 1 ∷ 1 ∷ []

abbrev log : DeltaLog
log = record {
  flush_every = 3;
  max_segment_bytes = 1000;
  segments = segment ∷ [];
  next_segment = 2;
  watermark = 1;
  applied = 2;
  genesis_tid = 0;
  genesis_types = [];
  buffer = (2, 2 ∷ []) ∷ [];
  applies_since_flush = 1;
  bytes_flushed = 9;
  disk = record {
    files = (1, on_disk) ∷ [];
    manifest = some (record {
      format = some "datacrystal-delta-log";
      version = 1;
      recorded = some (pos 2);
      watermark = 1;
      genesis_tid = 0;
      genesis_types = [];
      next_segment = 2;
      segments = segment ∷ [];
    });
  };
}

abbrev held : List Entries
held = ((1, 1 ∷ []) ∷ []) ∷ []

log-IsLog : IsLog log held
unfolding frame_all frame to_bytes Dict.get manifest_of
log-IsLog = record {
  holds = (
    record { file = on_disk; found = refl; framed = refl; size = refl; below = (omega arith, tt) },
    tt,
  );
  increasing = (tt, tt);
  under = (omega arith, tt);
  clear = λ n le. ground (arith, le, ==_iff 1 n);
  named = inl refl;
}

replay_exact_example :
    replay encode decode 1 log ≡ decoded encode decode (after 1 (concat held ++ log.buffer))
replay_exact_example = replay_exact encode decode 1 log held log-IsLog (refl, tt)

abbrev torn : Disk
torn = record log.disk { files = (1, on_disk ++ 0 ∷ 0 ∷ 0 ∷ []) ∷ [] }

torn-Crash : Crash log torn
unfolding frame_all frame to_bytes ensure_current_segment has_room append_file Dict.get Dict.put
torn-Crash = Crash.appending (0 ∷ 0 ∷ 0 ∷ 0 ∷ 0 ∷ 0 ∷ 0 ∷ 1 ∷ 2 ∷ []) 3 refl

open_log-Reopened_example :
    (next : DeltaLog) × (open_log 1 1000 torn ≡ ok next) × Reopened log held next
open_log-Reopened_example =
    open_log-Reopened log held torn 1 1000 log-IsLog torn-Crash (omega arith) (omega arith)

flush-Flushed_example : ((flush log).0 ≡ ok tt) × Flushed log held (flush log).1
flush-Flushed_example = flush-Flushed log held log-IsLog (refl, refl) (refl, refl) (omega arith, tt)

abbrev third : WireDelta
third = record {
  f = some "datacrystal-delta";
  v = some (Version.int (pos 2));
  tid = some 3;
  actor = some (pos 7);
  at = some 0;
  ops = some [];
  types = some [];
  root = some none;
}

log-Keeps : Keeps log ((1, 1 ∷ []) ∷ (2, 2 ∷ []) ∷ [])
log-Keeps = record {
  held = held;
  kept = log-IsLog;
  durable = (refl, refl);
  buffered = (refl, refl);
  all = refl;
}

abbrev log_after : DeltaLog
log_after = record log {
  buffer = (2, 2 ∷ []) ∷ (3, 3 ∷ []) ∷ [];
  applied = 3;
  applies_since_flush = 2;
}

apply-Keeps_example : Keeps log_after ((1, 1 ∷ []) ∷ (2, 2 ∷ []) ∷ (3, 3 ∷ []) ∷ [])
unfolding apply apply_required record_delta valid_ops required need check_delta_header option_beq
apply-Keeps_example =
    apply-Keeps encode decode third log log_after ((1, 1 ∷ []) ∷ (2, 2 ∷ []) ∷ []) log-Keeps refl

-- A log that flushes every delta, from an empty directory on.
abbrev born : DeltaLog
born = record {
  flush_every = 1;
  max_segment_bytes = 1000;
  segments = [];
  next_segment = 1;
  watermark = 0;
  applied = 0;
  genesis_tid = 0;
  genesis_types = [];
  buffer = [];
  applies_since_flush = 0;
  bytes_flushed = 0;
  disk = nowhere;
}

abbrev grown : DeltaLog
grown = record born {
  segments = segment ∷ [];
  next_segment = 2;
  watermark = 1;
  applied = 1;
  bytes_flushed = 9;
  disk = log.disk;
}

grown-Life : Life encode decode ((1, 1 ∷ []) ∷ []) grown
unfolding open_log load_manifest check_manifest reconcile_segments truncate_all unlink_unnamed apply
    apply_required record_delta valid_ops required need check_delta_header option_beq flush
    flush_entries flush_blob commit_blob last_tid_of grow append_file has_room
    ensure_current_segment write_manifest manifest_of frame_all frame to_bytes Dict.get Dict.put
grown-Life =
    Life.applied (Life.opened 1 1000 born (omega arith) (omega arith) refl)
      (record third { tid = some 1 }) grown refl

keeps_tid : (d : WireDelta) → (decode (encode d)).tid ≡ d.tid
keeps_tid d = elim (Option-cases d.tid) [ inl n ↦ rw n refl | inr (t, e) ↦ rw e refl ]

replay-Life_example :
    replay encode decode 0 grown ≡ decoded encode decode (after 0 ((1, 1 ∷ []) ∷ []))
replay-Life_example = replay-Life encode decode keeps_tid 0 grown-Life
