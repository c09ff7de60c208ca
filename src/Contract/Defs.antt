-- ===== src/Contract/Defs.antt =====
-- `ReferenceApplier`: the objects, the types, the root and one watermark.
use datacrystal.Base.{
  ℕ, ◌+◌, String, Bool, true, false, List, [], ◌∷◌, Option, none, some, ◌==◌, leb, eqb,
  if◌then◌else◌, nat_eq, string_eq, list_eq, option_eq,
}
use datacrystal.Base.Int.{int_eq}
use datacrystal.Base.Dict
use datacrystal.Base.Dict.{Dict}
use datacrystal.Errors.{ok, err, delta_format, delta_gap}
use datacrystal.Contract.Wire.{Bytes, TypeRow, WireOp, Op, required_op, WireDelta, Delta, required}
use datacrystal.Exec.{Exec, pure, raise, lift, modify, require, ◌>>=◌, ◌>>◌}

pub record Applier : Type 0 where
  pub objects : Dict ℕ Bytes
  pub types : Dict ℕ (String × List String)
  pub root_oid : Option ℕ
  pub watermark : ℕ

-- `ReferenceApplier()`
abbrev pub start : Applier
start = record { objects = []; types = []; root_oid = none; watermark = 0 }

put_object : ℕ → Option Bytes → Exec Applier (Unit {0})
put_object oid none = raise delta_format
put_object oid (some payload) = modify (λ s. record s { objects = Dict.put s.objects oid payload })

drop_object : ℕ → Option Bytes → Exec Applier (Unit {0})
drop_object oid none = raise delta_format
drop_object oid (some current) = modify (λ s. record s { objects = Dict.remove s.objects oid })

-- The branches of `_apply_op` on the kind of the op; `current` is the payload before it.
unfoldable pub change_object : Op → Option Bytes → Exec Applier (Unit {0})
unfolding put_object drop_object
change_object x current =
    if x.op == "upsert"
    then put_object x.oid x.payload
    else if x.op == "delete"
    then drop_object x.oid current
    else raise delta_format

-- The rest of `_apply_op`, behind its keys.
unfoldable pub apply_known : Op → Exec Applier (Unit {0})
apply_known x s =
    (do
      require (Dict.has s.types x.cid) delta_format
      require (x.prior == Dict.get s.objects x.oid) delta_format
      change_object x (Dict.get s.objects x.oid))
      s

-- `_apply_op`
unfoldable pub apply_op : WireOp → Exec Applier (Unit {0})
apply_op w = do x ← lift (required_op w); apply_known x

unfoldable pub apply_ops : List WireOp → Exec Applier (Unit {0})
apply_ops [] = pure tt
apply_ops (w ∷ ws) = do apply_op w; apply_ops ws

unfoldable pub put_types :
    Dict ℕ (String × List String) → List TypeRow → Dict ℕ (String × List String)
put_types d [] = d
put_types d ((cid, typename, fields) ∷ rows) = put_types (Dict.put d cid (typename, fields)) rows

-- The part of `apply` that changes the applier.
unfoldable pub apply_next : Delta → Exec Applier Bool
apply_next x = do
  modify (λ s. record s { types = put_types s.types x.types })
  apply_ops x.ops
  modify (λ s. record s { root_oid = x.root; watermark = x.tid })
  pure true

unfoldable pub apply_at : Delta → Exec Applier Bool
apply_at x s =
    if leb x.tid s.watermark
    then (ok false, s)
    else if eqb x.tid (s.watermark + 1)
    then apply_next x s
    else (err delta_gap, s)

unfoldable pub apply : WireDelta → Exec Applier Bool
apply d = do x ← lift (required d); apply_at x
