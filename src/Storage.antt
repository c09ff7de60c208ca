-- ===== src/Storage.antt =====
-- src/datacrystal/_storage: the shapes of protocol.py and the in-memory backend of memory.py.
mod Defs
pub mod Apply
pub mod Atomic
pub use Defs.{StoredRecord, StoredBlob, StreamedBlob, CommitBatch, Memory, start}
unfoldable pub use Defs.{
  load_many, load_blob, put_records, put_blobs, drop_all, materialize_one, materialize, write_batch,
  apply,
}
