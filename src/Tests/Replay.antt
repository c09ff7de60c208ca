-- ===== src/Tests/Replay.antt =====
-- One delta through the reference applier, and one batch through the backend.
use datacrystal.Base.{
  ℕ, [], ◌∷◌, none, some, ◌≡◌, refl, true, false, ◌⊎◌, nat_eq, option_beq, list_beq,
}
use datacrystal.Base.Dict
use datacrystal.Base.Int.{pos}
use datacrystal.Contract
use datacrystal.Contract.{WireOp, WireDelta, Applier, Version, format_marker}
use datacrystal.Contract.Watermark.{Outcome, apply-Outcome, apply_twice}
use datacrystal.Errors.{Error, ok, err}
use datacrystal.Storage
use datacrystal.Storage.{CommitBatch, StreamedBlob}
use datacrystal.Storage.Apply.{Applied, apply_atomic}

abbrev create : WireOp
create = record {
  op = some "upsert";
  oid = some 9;
  cid = some 1;
  payload = some (some (5 ∷ []));
  prior = some none;
}

abbrev delta_at : ℕ → WireDelta
delta_at tid = record {
  f = some format_marker;
  v = some (Version.int (pos 2));
  tid = some tid;
  actor = some (pos 0);
  at = some 0;
  ops = some (create ∷ []);
  types = some ((1, "Mineral", []) ∷ []);
  root = some (some 9);
}

abbrev created : Applier
created = record {
  objects = (9, 5 ∷ []) ∷ [];
  types = (1, ("Mineral", [])) ∷ [];
  root_oid = some 9;
  watermark = 1;
}

program : Unit {0}
unfolding Contract.apply Contract.required Contract.check_delta_header Contract.need
    Contract.apply_at Contract.apply_next Contract.apply_ops Contract.apply_op Contract.required_op
    Contract.apply_known Contract.change_object Contract.put_types option_beq list_beq Dict.get
    Dict.has Dict.put Dict.remove
program = tt

created_lem : Contract.apply (delta_at 1) Contract.start ≡ (ok true, created)
unfolding program
created_lem = refl

apply_twice_example : Contract.apply (delta_at 1) created ≡ (ok false, created)
apply_twice_example = apply_twice (delta_at 1) Contract.start created created_lem

apply-Outcome_example :
    Outcome
      (delta_at 1)
      Contract.start
      (Contract.apply (delta_at 1) Contract.start).0
      (Contract.apply (delta_at 1) Contract.start).1
apply-Outcome_example = apply-Outcome (delta_at 1) Contract.start

-- A batch of every kind; the digest of a blob is its content here.
abbrev mixed : CommitBatch
mixed = record {
  tid = 1;
  records = record { oid = 4; cid = 1; tid = 1; payload = 1 ∷ [] } ∷ [];
  new_types = [];
  meta = ("last_tid", "1") ∷ [];
  deletes = 3 ∷ [];
  blobs = record { oid = 6; tid = 1; size = 1; hash = 2 ∷ []; content = 2 ∷ [] } ∷ [];
  blob_streams =
      record {
        oid = 5;
        tid = 1;
        size = 2;
        hash = 1 ∷ 7 ∷ [];
        chunks = ok ((1 ∷ []) ∷ (7 ∷ []) ∷ []);
      }
      ∷ [];
}

apply_atomic_example :
    ((e : Error) × (Storage.apply (λ b. b) mixed Storage.start ≡ (err e, Storage.start)))
    ⊎ ((Storage.apply (λ b. b) mixed Storage.start).0 ≡ ok tt)
      × Applied (λ b. b) mixed Storage.start (Storage.apply (λ b. b) mixed Storage.start).1
apply_atomic_example = apply_atomic (λ b. b) mixed Storage.start
