-- ===== src/DeltaLog/Flush.antt =====
-- What `DeltaLog.flush` leaves.
use datacrystal.Base.{
  ℕ, ◌+◌, ◌≤◌, ◌<◌, ◌≡◌, refl, sym, ap, ◌∙◌, inl, inr, Bool-cases, true, List, [], ◌∷◌, ◌++◌,
  length, All, All-map, ltb, ◌^◌, arith, nat_eq,
}
use mathlib.Core.Path.{subst}
use mathlib.Core.List.{append-nil}
use datacrystal.Base.Dict.{Dict}
use datacrystal.Contract.{Bytes}
use datacrystal.DeltaLog.Defs.{
  Segment, DeltaLog, manifest_of, write_manifest, ensure_current_segment, has_room, commit_blob,
  flush_blob, flush_entries, flush,
}
use datacrystal.DeltaLog.Frame.{frame_all, frame, to_bytes, frame_size}
use datacrystal.DeltaLog.Invariant.{Entries, concat, Holds, Zip, IsLog}
use datacrystal.DeltaLog.Crash.{get-append_file, append_file-new}
use datacrystal.DeltaLog.Append.{
  extend, grow-Holds, new-Holds, All-grow, grow-Increasing, concat-extend, concat-snoc,
  snoc-Increasing, All-snoc, Run, Run-le, Run-last_tid_of, Run-append,
}
use datacrystal.Errors.{Result, ok, Result-cases}

-- The log after a flush: its segments hold what they held and then the buffer, which is empty now, and
-- its durable watermark is the last TID that was applied.
pub record Flushed (log : DeltaLog) (gs : List Entries) (next : DeltaLog) : Type 0 where
  pub held : List Entries
  pub kept : IsLog next held
  pub all : concat held ≡ concat gs ++ log.buffer
  pub emptied : next.buffer ≡ []
  pub mark : next.watermark ≡ log.applied
  pub same : next.applied ≡ log.applied
  pub run : Run next.genesis_tid (concat held) next.watermark

module _ (log : DeltaLog) (gs : List Entries) (h : IsLog log gs) (first : ℕ) (blob : Bytes)
    (framed : frame_all log.buffer ≡ ok blob)
    (durable : Run log.genesis_tid (concat gs) log.watermark)
    (buffered : Run log.watermark log.buffer log.applied) where
  old : All (λ e. e.0 ≤ log.applied) (concat gs)
  old =
      let (l, _) = Run-le log.watermark log.applied log.buffer buffered in
      All-map (concat gs) (λ e b. omega (arith, b, l))
        (Run-le log.genesis_tid log.watermark (concat gs) durable).1

  new : All (λ e. e.0 ≤ log.applied) log.buffer
  new = (Run-le log.watermark log.applied log.buffer buffered).1

  ran : Run log.genesis_tid (concat gs ++ log.buffer) log.applied
  ran = Run-append log.genesis_tid log.watermark log.applied (concat gs) log.buffer durable buffered

  commit-new : Flushed log gs (
      commit_blob first log.applied blob (record log {
        next_segment = log.next_segment + 1;
        segments =
            log.segments
            ++ (record { number = log.next_segment; first_tid = 0; last_tid = 0; nbytes = 0 }) ∷ [];
      }))
  unfolding commit_blob write_manifest
  commit-new =
      let n : Segment = record {
        number = log.next_segment;
        first_tid = 0;
        last_tid = 0;
        nbytes = 0;
      } in
      let under : All (λ s. s.number < log.next_segment + 1) (log.segments ++ n ∷ []) =
        All-snoc (λ s. s.number < log.next_segment + 1) log.segments n
          (All-map log.segments (λ s u. omega (arith, u)) h.under) (omega arith) in
      record {
        held = gs ++ log.buffer ∷ [];
        kept = record {
          holds =
              new-Holds first log.applied log.buffer blob framed new log.segments gs log.disk.files
                n h.under (h.clear log.next_segment (omega arith)) refl h.holds;
          increasing =
              grow-Increasing first log.applied (length blob) (log.segments ++ n ∷ [])
                (snoc-Increasing log.segments n h.under h.increasing);
          under =
              All-grow (λ k. k < log.next_segment + 1) first log.applied (length blob)
                (log.segments ++ n ∷ []) under;
          clear = λ k le.
              append_file-new log.segments n blob log.disk.files k (omega (arith, le))
              ∙ h.clear k (omega (arith, le));
          named = inl refl;
        };
        all = concat-snoc gs log.buffer;
        emptied = refl;
        mark = refl;
        same = refl;
        run = rw (concat-snoc gs log.buffer) ran;
      }

  room-concat :
      (bound : ℕ) (files : Dict ℕ Bytes) (ss : List Segment) (gs : List Entries)
      → has_room bound ss ≡ true
      → Zip (Holds files) ss gs
      → concat (extend gs log.buffer) ≡ concat gs ++ log.buffer
  unfolding has_room
  room-concat bound files [] gs r z = absurd (cc r)
  room-concat bound files (s ∷ ss) [] r z = absurd z
  room-concat bound files (s ∷ ss) (g ∷ gs) r z = concat-extend gs g log.buffer

  commit-last :
      has_room log.max_segment_bytes log.segments ≡ true
      → Flushed log gs (commit_blob first log.applied blob log)
  unfolding commit_blob write_manifest
  commit-last room =
      let all = room-concat log.max_segment_bytes log.disk.files log.segments gs room h.holds in
      record {
        held = extend gs log.buffer;
        kept = record {
          holds =
              grow-Holds first log.applied log.buffer blob framed new log.segments gs log.disk.files
                h.increasing old h.holds;
          increasing = grow-Increasing first log.applied (length blob) log.segments h.increasing;
          under =
              All-grow (λ k. k < log.next_segment) first log.applied (length blob) log.segments
                h.under;
          clear = λ k le.
              get-append_file log.segments blob log.disk.files k
                (All-map log.segments (λ s u. omega (arith, u, le)) h.under)
              ∙ h.clear k le;
          named = inl refl;
        };
        all = all;
        emptied = refl;
        mark = refl;
        same = refl;
        run = rw all ran;
      }

  commit-Flushed :
      Flushed log gs (commit_blob first log.applied blob (ensure_current_segment log).1)
  unfolding ensure_current_segment
  commit-Flushed = elim (Bool-cases (has_room log.max_segment_bytes log.segments)) [
    | inl y ↦ rw y (commit-last y)
    | inr n ↦ rw n commit-new
  ]

-- The two things that a flush can be called on.
nothing-Flushed :
    (log : DeltaLog) (gs : List Entries)
    → IsLog log gs
    → Run log.genesis_tid (concat gs) log.watermark
    → Run log.watermark log.buffer log.applied
    → log.buffer ≡ []
    → Flushed log gs log
nothing-Flushed log gs h durable buffered e = record {
  held = gs;
  kept = h;
  all = rw e (sym (append-nil (concat gs)));
  emptied = e;
  same = refl;
  mark = subst (λ es. Run log.watermark es log.applied) e buffered;
  run = durable;
}

flush_entries-Flushed :
    (entries : Entries) (log : DeltaLog) (gs : List Entries) (next : DeltaLog)
    → IsLog log gs
    → Run log.genesis_tid (concat gs) log.watermark
    → Run log.watermark log.buffer log.applied
    → log.buffer ≡ entries
    → flush_entries entries log ≡ (ok tt, next)
    → Flushed log gs next
unfolding flush_entries flush_blob
flush_entries-Flushed [] log gs next h durable buffered e run =
    subst (Flushed log gs) (ap (λ (p : Result (Unit {0}) × DeltaLog). p.1) run)
      (nothing-Flushed log gs h durable buffered e)
flush_entries-Flushed ((tid, raw) ∷ rest) log gs next h durable buffered e run =
    elim (Result-cases (frame_all ((tid, raw) ∷ rest))) [
      | inl (x, q) ↦ absurd (cc (rw q at run))
      | inr (blob, q) ↦
          let numbered = subst (λ es. Run log.watermark es log.applied) e buffered in
          let last = Run-last_tid_of tid log.applied rest numbered.1 in
          subst (Flushed log gs)
            (ap (λ (p : Result (Unit {0}) × DeltaLog). p.1) (rw (q, last) at run))
            (commit-Flushed log gs h tid blob (ap frame_all e ∙ q) durable buffered)
    ]

-- What 8 bytes of length can announce.
abbrev pub Fits : Entries → Type 0
Fits = All (λ e. length e.1 < 256 ^ frame_size)

frame_all-Fits : (es : Entries) → Fits es → (blob : Bytes) × (frame_all es ≡ ok blob)
unfolding frame_all frame
frame_all-Fits [] h = ([], refl)
frame_all-Fits ((tid, raw) ∷ es) h =
    let (blob, e) = frame_all-Fits es h.1 in
    let small : ltb (length raw) (256 ^ frame_size) ≡ true = ground (arith, h.0) in
    (to_bytes frame_size (length raw) ++ raw ++ blob, rw (small, e) refl)

flush_entries-ok :
    (entries : Entries) (log : DeltaLog) → Fits entries → (flush_entries entries log).0 ≡ ok tt
unfolding flush_entries flush_blob
flush_entries-ok [] log h = refl
flush_entries-ok ((tid, raw) ∷ rest) log h =
    let (blob, e) = frame_all-Fits ((tid, raw) ∷ rest) h in rw e refl

pub flush-next :
    (log : DeltaLog) (gs : List Entries) (next : DeltaLog)
    → IsLog log gs
    → Run log.genesis_tid (concat gs) log.watermark
    → Run log.watermark log.buffer log.applied
    → flush log ≡ (ok tt, next)
    → Flushed log gs next
unfolding flush
flush-next log gs next h durable buffered run =
    let f =
      flush_entries-Flushed log.buffer (record log { bytes_flushed = 0 }) gs next
        (record {
          holds = h.holds;
          increasing = h.increasing;
          under = h.under;
          clear = h.clear;
          named = unfold manifest_of in h.named;
        })
        durable buffered refl run in
    record {
      held = f.held;
      kept = f.kept;
      all = f.all;
      emptied = f.emptied;
      mark = f.mark;
      same = f.same;
      run = f.run;
    }

-- On a well-formed log whose TIDs run without a gap, a flush of deltas that are shorter than 2 ^ 64
-- bytes succeeds and moves the whole buffer to disk: the segments then hold what they held and the
-- buffer after it, file by file, under a manifest with the last applied TID as its watermark, and
-- the TIDs on disk still run without a gap.
pub flush-Flushed :
    (log : DeltaLog) (gs : List Entries)
    → IsLog log gs
    → Run log.genesis_tid (concat gs) log.watermark
    → Run log.watermark log.buffer log.applied
    → Fits log.buffer
    → ((flush log).0 ≡ ok tt) × Flushed log gs (flush log).1
unfolding flush
flush-Flushed log gs h durable buffered fits =
    let went = flush_entries-ok log.buffer (record log { bytes_flushed = 0 }) fits in
    (went, flush-next log gs (flush log).1 h durable buffered (ap (λ r. (r, (flush log).1)) went))
