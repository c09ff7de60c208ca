-- ===== src/Storage/Atomic.antt =====
-- What a backend promises of `apply`: all of the batch, or nothing of it. The in-memory backend does.
use datacrystal.Base.{◌++◌, ◌≡◌, refl, inl, inr}
use datacrystal.Contract.{Bytes}
use datacrystal.Errors.{Error, ok, err, Result-cases}
use datacrystal.Exec.{Exec}
use datacrystal.Storage.Defs.{
  CommitBatch, Memory, put_records, drop_all, materialize, write_batch, apply,
}

pub record IsAtomic (persist : CommitBatch → Exec Memory (Unit {0})) : Type 0 where
  pub raised :
      (b : CommitBatch) (m : Memory) (e : Error) → (persist b m).0 ≡ err e → (persist b m).1 ≡ m
  pub objects :
      (b : CommitBatch) (m : Memory)
      → (persist b m).0 ≡ ok tt
      → (persist b m).1.objects ≡ drop_all (put_records m.objects b.records) b.deletes
  pub types :
      (b : CommitBatch) (m : Memory)
      → (persist b m).0 ≡ ok tt
      → (persist b m).1.types ≡ m.types ++ b.new_types

module _ (sha256 : Bytes → Bytes) where
  pub apply-IsAtomic : IsAtomic (apply sha256)
  unfolding apply write_batch
  apply-IsAtomic = record {
    raised = λ b m e h. elim (Result-cases (materialize sha256 b.blob_streams)) [
      | inl (e', q) ↦ rw q refl
      | inr (bs, q) ↦ absurd (cc (rw q at h))
    ];
    objects = λ b m h. elim (Result-cases (materialize sha256 b.blob_streams)) [
      | inl (e', q) ↦ absurd (cc (rw q at h))
      | inr (bs, q) ↦ rw q refl
    ];
    types = λ b m h. elim (Result-cases (materialize sha256 b.blob_streams)) [
      | inl (e', q) ↦ absurd (cc (rw q at h))
      | inr (bs, q) ↦ rw q refl
    ];
  }
