-- ===== src/Contract.antt =====
-- src/datacrystal/contract/applier.py: the delta map, its header, and the reference applier that
-- replays a stream of deltas.
mod Wire
mod Defs
pub mod Watermark
pub use Wire.{
  Bytes, Version, WireOp, WireDelta, TypeRow, Op, Delta, format_marker, contract_version,
}
unfoldable pub use Wire.{check_delta_header, need, required_op, required}
pub use Defs.{Applier, start}
unfoldable pub use Defs.{
  change_object, apply_known, apply_op, apply_ops, put_types, apply_next, apply_at, apply,
}
