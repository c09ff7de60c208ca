-- ===== src/Pipeline.antt =====
-- The emission of deltas: `build_delta` of src/datacrystal/_pipeline.py, and the priors that
-- `Store._read_delta_priors` of src/datacrystal/_store.py takes from the backend.
mod Defs
pub mod Priors
pub mod Replica
pub mod Capture
pub mod Step
pub mod Stream
unfoldable pub use Defs.{
  upsert_op, upsert_ops, delete_op, delete_ops, build_delta, read_priors, read_tombstones,
  prior_records, read_delta_priors,
}
