-- ===== src/DeltaLog.antt =====
-- src/datacrystal/deltalog.py: the durable, replayable log of the deltas that a store emits.
pub mod Frame
mod Defs
mod Consume
mod Reopen
pub mod Invariant
pub mod Reconcile
pub mod History
pub mod Life
pub mod Replay
pub mod Append
pub mod Flush
pub mod Crash
pub use Defs.{Segment, Manifest, Disk, DeltaLog}
unfoldable pub use Defs.{
  manifest_of, write_manifest, has_room, ensure_current_segment, append_file, grow, last_tid_of,
  commit_blob, flush_blob, flush_entries, flush,
}
unfoldable pub use Consume.{valid_ops, record_delta, apply_required, apply, replay}
unfoldable pub use Reopen.{
  truncate_all, unlink_unnamed, reconcile_segments, check_manifest, load_manifest, open_log,
}
