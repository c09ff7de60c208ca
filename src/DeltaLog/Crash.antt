-- ===== src/DeltaLog/Crash.antt =====
-- A crash of the process that owns a delta log, at any point, and the log that is opened next.
use datacrystal.Base.{
  ℕ, ◌+◌, ◌≤◌, ◌<◌, ◌≡◌, ◌≢◌, refl, ap, ◌∙◌, inl, inr, Bool-cases, false, List, [], ◌∷◌, ◌++◌, All,
  All-map, take, arith, nat_eq, ==_iff, ==_refl, ltb,
}
use datacrystal.Base.Dict
use datacrystal.Base.Dict.{Dict, get-put}
use datacrystal.Contract.{Bytes}
use datacrystal.DeltaLog.Defs.{
  Segment, Disk, DeltaLog, manifest_of, ensure_current_segment, has_room, append_file,
}
use datacrystal.DeltaLog.Reopen.{open_log, load_manifest, check_manifest, reconcile_segments}
use datacrystal.DeltaLog.Frame.{frame_all, frame_size}
use datacrystal.DeltaLog.Invariant.{
  Entries, Begins, Holds, Zip, Increasing, IsNamed, IsLog, Zip-map, Begins-get, Holds-Begins,
}
use datacrystal.DeltaLog.Reconcile.{reconciled-Holds, reconciled-clear}
use datacrystal.Errors.{ok}

-- What a crash may leave on disk: nothing of a flush, or any part of its append. A crash after the
-- rename of the manifest leaves the disk of the flushed log.
pub data Crash (log : DeltaLog) : Disk → Type 0 where
  idle : Crash log log.disk
  appending :
      (blob : Bytes) (k : ℕ)
      → frame_all log.buffer ≡ ok blob
      → Crash log (record log.disk {
        files = append_file (ensure_current_segment log).1.segments (take k blob) log.disk.files;
      })

pub get-append_file :
    (ss : List Segment) (blob : Bytes) (files : Dict ℕ Bytes) (k : ℕ)
    → All (λ t. k ≢ t.number) ss
    → Dict.get (append_file ss blob files) k ≡ Dict.get files k
unfolding append_file
get-append_file [] blob files k h = refl
get-append_file (s ∷ []) blob files k h =
    get-put files s.number k _ ∙ ground (arith, h.0, ==_iff s.number k)
get-append_file (s ∷ t ∷ ss) blob files k h = get-append_file (t ∷ ss) blob files k h.1

-- An append puts debris behind the last segment.
append_file-Begins :
    (ss : List Segment) (gs : List Entries) (blob : Bytes) (files : Dict ℕ Bytes)
    → Increasing ss
    → Zip (Holds files) ss gs
    → Zip (Begins (append_file ss blob files)) ss gs
unfolding append_file
append_file-Begins [] [] blob files i z = tt
append_file-Begins (s ∷ []) (g ∷ []) blob files i z = (
  record {
    file = z.0.file;
    debris = blob;
    found = get-put files s.number s.number _ ∙ rw (==_refl s.number, z.0.found) refl;
    framed = z.0.framed;
    size = z.0.size;
    below = z.0.below;
  },
  tt,
)
append_file-Begins (s ∷ t ∷ ss) (g ∷ gs) blob files i z = (
  Begins-get files (append_file (s ∷ t ∷ ss) blob files) s g
      (get-append_file (t ∷ ss) blob files s.number
        (All-map (t ∷ ss) (λ u l. omega (arith, l)) i.0))
      (Holds-Begins files s g z.0),
  append_file-Begins (t ∷ ss) gs blob files i.1 z.1,
)
append_file-Begins [] (g ∷ gs) blob files i z = absurd z
append_file-Begins (s ∷ ss) [] blob files i z = absurd z
append_file-Begins (s ∷ []) (g ∷ h ∷ gs) blob files i z = absurd z.1

-- An append to a new segment touches no other.
pub append_file-new :
    (ss : List Segment) (n : Segment) (blob : Bytes) (files : Dict ℕ Bytes) (k : ℕ)
    → k ≢ n.number
    → Dict.get (append_file (ss ++ n ∷ []) blob files) k ≡ Dict.get files k
unfolding append_file
append_file-new [] n blob files k h = get-append_file (n ∷ []) blob files k (h, tt)
append_file-new (s ∷ []) n blob files k h = get-append_file (n ∷ []) blob files k (h, tt)
append_file-new (s ∷ t ∷ ss) n blob files k h = append_file-new (t ∷ ss) n blob files k h

files-Begins :
    (log : DeltaLog) (gs : List Entries) (d : Disk)
    → IsLog log gs
    → Crash log d
    → (d.manifest ≡ log.disk.manifest) × Zip (Begins d.files) log.segments gs
unfolding ensure_current_segment
files-Begins log gs d h idle = (
  refl,
  Zip-map {P = λ s. s.number < log.next_segment} {R = Holds log.disk.files}
      {Q = Begins log.disk.files} log.segments gs (λ s g _ b. Holds-Begins log.disk.files s g b)
      h.under h.holds,
)
files-Begins log gs d h (appending blob k e) =
    elim (Bool-cases (has_room log.max_segment_bytes log.segments)) [
      | inl y ↦ rw (y) (
        refl,
        append_file-Begins log.segments gs (take k blob) log.disk.files h.increasing h.holds,
      )
      | inr n ↦ rw (n) (
        refl,
        Zip-map {P = λ s. s.number < log.next_segment} {R = Holds log.disk.files} log.segments gs
            (λ s g u b.
              Begins-get log.disk.files _ s g
                (append_file-new log.segments _ (take k blob) log.disk.files s.number
                  (omega (arith, u)))
                (Holds-Begins log.disk.files s g b))
            h.under h.holds,
      )
    ]

-- The log that `open_log` starts from, and the one that a manifest of `log` makes of it.
abbrev pub blank : (flush_every max_segment_bytes : ℕ) → Disk → DeltaLog
blank flush_every max_segment_bytes disk = record {
  flush_every = flush_every;
  max_segment_bytes = max_segment_bytes;
  segments = [];
  next_segment = 1;
  watermark = 0;
  applied = 0;
  genesis_tid = 0;
  genesis_types = [];
  buffer = [];
  applies_since_flush = 0;
  bytes_flushed = 0;
  disk = disk;
}

-- What the next owner finds: the segments and the watermark of the last manifest, and an empty
-- buffer.
pub record Reopened (log : DeltaLog) (gs : List Entries) (next : DeltaLog) : Type 0 where
  pub kept : IsLog next gs
  pub mark : next.watermark ≡ log.watermark
  pub resumed : next.applied ≡ log.watermark
  pub genesis : next.genesis_tid ≡ log.genesis_tid
  pub emptied : next.buffer ≡ []

abbrev resumed_log : (flush_every max_segment_bytes : ℕ) → DeltaLog → Disk → DeltaLog
resumed_log fe mb log d = record (blank fe mb d) {
  watermark = log.watermark;
  applied = log.watermark;
  genesis_tid = log.genesis_tid;
  genesis_types = log.genesis_types;
  next_segment = log.next_segment;
  segments = log.segments;
}

-- A log that is opened on the files of a crash, once its manifest is read.
reopened :
    (fe mb : ℕ) (log : DeltaLog) (gs : List Entries) (d : Disk)
    → IsLog log gs
    → d.manifest ≡ log.disk.manifest
    → Zip (Begins d.files) log.segments gs
    → Reopened log gs (reconcile_segments (resumed_log fe mb log d))
unfolding reconcile_segments
reopened fe mb log gs d h same z = record {
  kept = record {
    holds = reconciled-Holds log.segments gs d.files h.increasing z;
    increasing = h.increasing;
    under = h.under;
    clear = λ n le. reconciled-clear log.segments d.files log.next_segment n h.under le;
    named = unfold manifest_of in (rw same h.named);
  };
  mark = refl;
  resumed = refl;
  genesis = refl;
  emptied = refl;
}

loaded :
    (fe mb : ℕ) (log : DeltaLog) (d : Disk)
    → IsNamed log
    → load_manifest log.disk.manifest (blank fe mb d) ≡ ok (resumed_log fe mb log d)
unfolding load_manifest check_manifest manifest_of
loaded fe mb log d (inl m) = rw m refl
loaded fe mb log d (inr (m, ss, w, g, ts, n)) = rw (m, ss, w, g, ts, n) refl

-- Crash safety: whatever part of a flush of a well-formed log is on disk when the process dies, the log
-- that is opened next, with a `flush_every` of at least 1 and a `max_segment_bytes` of at least 9,
-- opens, and holds exactly the entries that the last manifest names, with its watermark and an empty
-- buffer; its files again hold nothing else.
pub open_log-Reopened :
    (log : DeltaLog) (gs : List Entries) (d : Disk) (flush_every max_segment_bytes : ℕ)
    → IsLog log gs
    → Crash log d
    → 1 ≤ flush_every
    → 9 ≤ max_segment_bytes
    → (next : DeltaLog) × (open_log flush_every max_segment_bytes d ≡ ok next)
      × Reopened log gs next
unfolding open_log
open_log-Reopened log gs d fe mb h c one nine =
    let (same, z) = files-Begins log gs d h c in
    let load = ap (λ m. load_manifest m (blank fe mb d)) same ∙ loaded fe mb log d h.named in
    let small : ltb fe 1 ≡ false = ground arith in
    let narrow : ltb mb (frame_size + 1) ≡ false = ground arith in
    (
      reconcile_segments (resumed_log fe mb log d),
      rw (small, narrow, load) refl,
      reopened fe mb log gs d h same z,
    )
