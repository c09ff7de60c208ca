-- ===== src/Gate.antt =====
-- The write gate of a commit: `Store._check_write_gate` and its helpers in
-- src/datacrystal/_store.py. A denial is `err write_denied`.
mod Defs
pub mod Laws
pub mod May
pub mod Safety
pub use Defs.{Column, Stored, Staged}
unfoldable pub use Defs.{
  value_at, as_int, as_list, as_dict, labels_at, memberships_at, gate_base, gate_groups, gate_floor,
  load_many, labels_of, prior_members_of, gate_actor, gate_one, gate_pending, prior_of,
  gate_deletes, persisted_oids, position, prior_labels, prior_memberships, gate_new_record,
  gate_persisted_record, gate_label_changes, gate_memberships, gate_delete, check_write_gate,
}
