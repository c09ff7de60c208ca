-- ===== src/Session/Capture.antt =====
-- P1 of a commit: `_p1_capture` and `_validate_before_tid`.
use datacrystal.Base.{ℕ, List, [], Option, none, some, not, ◌&&◌, if◌then◌else◌, nat_eq}
use datacrystal.Base.Dict
use datacrystal.Base.Dict.{Dict}
use datacrystal.Contract.{Bytes}
use datacrystal.Errors.{ok, lease_lost}
use datacrystal.Exec
use datacrystal.Exec.{Exec, ◌>>=◌, ◌>>◌}
use datacrystal.Gate
use datacrystal.Gate.{Column, Stored, Staged}
use datacrystal.Ids.{next_tid}
use datacrystal.Pipeline.{build_delta}
use datacrystal.Storage.{StoredRecord}
use datacrystal.Session.Live.{Session}
use datacrystal.Session.Graph.{discover_new_graphs}
use datacrystal.Session.Encode.{EncodedBatch, encode_pending}
use datacrystal.Session.Pending.{
  Services, Capture, is_empty, entries_of, protected_deletes, records_of, flip_captured,
  deleted_oids, pending_of, staged_of, stored_of, gate_records, build_batch, watched, priors_of,
}

module _ {I Γ : Type 0} (sv : Services I Γ) (at : ℕ) where
  -- `_validate_before_tid`: the checks of the index manager, then the write gate.
  unfoldable pub validate_before_tid : List (ℕ × ℕ) → Exec (Session I Γ) (Dict ℕ StoredRecord)
  unfolding staged_of protected_deletes entries_of
  validate_before_tid pending s =
      let staged = staged_of s pending in
      let deletes = protected_deletes s.buffered_deleted in
      (do
        Exec.lift (sv.check s.index (entries_of s.heap pending) (deleted_oids s))
        decoded ←
            Exec.lift (Gate.check_write_gate s.principal (stored_of sv.decode s) staged deletes)
        Exec.pure (gate_records s staged deletes))
        s

  -- The rest of P1 once nothing can be refused any more: the TID, the batch, the delta and the flip.
  unfoldable pub capture_all :
      List (ℕ × ℕ)
      → EncodedBatch
      → Dict ℕ Bytes × List (ℕ × ℕ × Bytes)
      → Session I Γ
      → Capture × Session I Γ
  unfolding build_batch records_of
  capture_all pending encoded (priors, tombstones) s =
      let (tid, alloc) = next_tid s.alloc in
      let batch = build_batch sv.decimal s tid alloc encoded (deleted_oids s) in
      let (flipped, heap, registry) = flip_captured pending s.heap s.registry in
      (
        record {
          tid = tid;
          batch = batch;
          entries = entries_of s.heap pending;
          flipped = flipped;
          delta =
              if watched s
              then some (
                  build_delta tid batch.records encoded.1 s.root_oid priors tombstones
                    s.principal.uid at)
              else none;
          deletes = s.buffered_deleted;
        },
        record s {
          alloc = alloc;
          heap = heap;
          registry = registry;
          buffered_new = [];
          buffered_dirty = [];
          buffered_deleted = [];
          birth_labels = [];
          cancelled_new = [];
        },
      )

  unfoldable pub captured :
      List (ℕ × ℕ)
      → EncodedBatch
      → Dict ℕ Bytes × List (ℕ × ℕ × Bytes)
      → Exec (Session I Γ) (Option Capture)
  unfolding capture_all
  captured pending encoded read s =
      (ok (some (capture_all pending encoded read s).0), (capture_all pending encoded read s).1)

  -- The steps of P1 that may refuse, then the capture.
  unfoldable pub capture_pending : List (ℕ × ℕ) → Exec (Session I Γ) (Option Capture)
  unfolding priors_of validate_before_tid captured
  capture_pending pending s =
      (do
        gate ← validate_before_tid pending
        encoded ← encode_pending sv.encode pending []
        read ← Exec.lift (priors_of s (Dict.keys pending) (deleted_oids s) gate)
        captured pending encoded read)
        s

  -- P1 after the discovery; nothing buffered is `none`.
  unfoldable pub capture_discovered : Exec (Session I Γ) (Option Capture)
  unfolding capture_pending
  capture_discovered s =
      if is_empty (pending_of s) && is_empty s.buffered_deleted
      then (ok none, s)
      else capture_pending (pending_of s) s

  -- `_p1_capture`
  unfoldable pub p1_capture : ℕ → Exec (Session I Γ) (Option Capture)
  unfolding capture_discovered
  p1_capture fuel s =
      (do Exec.require (not s.lost) lease_lost; left ← discover_new_graphs fuel; capture_discovered)
        s
