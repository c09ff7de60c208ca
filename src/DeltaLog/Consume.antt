-- ===== src/DeltaLog/Consume.antt =====
-- `DeltaLog.apply`, which buffers a delta, and `DeltaLog.replay`, which reads all of them back.
use datacrystal.Base.{
  ℕ, ◌+◌, List, [], ◌∷◌, ◌++◌, none, some, Bool, true, false, ◌||◌, ◌==◌, leb, ltb, eqb,
  if◌then◌else◌, map, filter, nat_eq, string_eq,
}
use datacrystal.Base.Dict
use datacrystal.Base.Dict.{Dict}
use datacrystal.Base.Int.{int_eq}
use datacrystal.Contract.{Bytes, WireOp, WireDelta, Delta, required, need}
use datacrystal.DeltaLog.Frame.{read_frames}
use datacrystal.Errors.{Result, ok, err, delta_format, delta_gap, key_error}
use datacrystal.Exec.{Exec, pure, continue}
use datacrystal.DeltaLog.Defs.{Segment, DeltaLog, flush}

unfoldable pub valid_ops : List WireOp → Result (Unit {0})
unfolding need
valid_ops [] = ok tt
valid_ops (w ∷ ws) = elim w.op [
  | none ↦ err key_error
  | some op ↦ if op == "upsert" || op == "delete" then valid_ops ws else err delta_format
]

-- The msgpack coding of msgspec.
module _ (encode : WireDelta → Bytes) (decode : Bytes → WireDelta) where
  -- The new entry, its count, and the flush when `flush_every` are buffered.
  unfoldable pub record_delta : WireDelta → ℕ → Exec DeltaLog Bool
  unfolding flush
  record_delta delta tid log =
      let kept = record log {
        buffer = log.buffer ++ (tid, encode delta) ∷ [];
        applied = tid;
        applies_since_flush = log.applies_since_flush + 1;
      } in
      if leb kept.flush_every kept.applies_since_flush
      then (let (result, left) = flush kept in continue result (λ _. pure true) left)
      else (ok true, kept)

  unfoldable pub apply_required : WireDelta → Result Delta → Exec DeltaLog Bool
  unfolding record_delta valid_ops
  apply_required delta (err e) log = (err e, log)
  apply_required delta (ok d) log =
      if leb d.tid log.applied
      then (ok false, log)
      else if eqb d.tid (log.applied + 1)
      then continue (valid_ops d.ops) (λ _. record_delta delta d.tid) log
      else (err delta_gap, log)

  unfoldable pub apply : WireDelta → Exec DeltaLog Bool
  unfolding apply_required
  apply delta log = apply_required delta (required delta) log

  -- `delta["tid"] > after_tid` on a decoded delta, which has a TID.
  unfoldable pub is_after : ℕ → WireDelta → Bool
  is_after after_tid d = elim d.tid [ none ↦ false | some t ↦ ltb after_tid t ]

  -- `_iter_segment`. A missing file, on which Python raises `FileNotFoundError`, has no frames here; a log
  -- of which the invariant holds has the file of every segment that it lists.
  unfoldable pub iter_segment : Dict ℕ Bytes → Segment → List WireDelta
  iter_segment files s = elim (Dict.get files s.number) [
    | none ↦ []
    | some file ↦ map decode (read_frames s.nbytes file s.nbytes)
  ]

  unfoldable pub replay_segments : ℕ → Dict ℕ Bytes → List Segment → List WireDelta
  unfolding iter_segment is_after
  replay_segments after_tid files [] = []
  replay_segments after_tid files (s ∷ ss) =
      let rest = replay_segments after_tid files ss in
      if leb s.last_tid after_tid
      then rest
      else filter (is_after after_tid) (iter_segment files s) ++ rest

  unfoldable pub replay_buffer : ℕ → List (ℕ × Bytes) → List WireDelta
  replay_buffer after_tid [] = []
  replay_buffer after_tid ((tid, raw) ∷ entries) =
      let rest = replay_buffer after_tid entries in
      if ltb after_tid tid then decode raw ∷ rest else rest

  unfoldable pub replay : ℕ → DeltaLog → List WireDelta
  unfolding replay_segments replay_buffer
  replay after_tid log =
      replay_segments after_tid log.disk.files log.segments ++ replay_buffer after_tid log.buffer
