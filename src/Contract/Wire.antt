-- ===== src/Contract/Wire.antt =====
-- The delta map and the checks of its header and keys. A decoded delta is a map whose keys may be
-- missing: each field is an `Option`, and a value that may be `None` is an `Option` in it.
use datacrystal.Base.{
  ℕ, String, List, Option, none, some, ◌==◌, if◌then◌else◌, string_eq, option_eq,
}
use datacrystal.Base.Int.{ℤ, pos, leb_ℤ, int_eq}
use datacrystal.Errors.{Result, ok, err, delta_format, ◌>>=◌, ◌>>◌}

abbrev pub Bytes : Type 0
Bytes = List ℕ

abbrev pub format_marker : String
format_marker = "datacrystal-delta"

abbrev pub contract_version : ℤ
contract_version = pos 2

-- The value under "v": an integer, or something else.
pub data Version : Type 0 where
  int : ℤ → Version
  other : Version

-- cid, typename, fields
abbrev pub TypeRow : Type 0
TypeRow = ℕ × String × List String

-- A payload that is no `bytes` object is `none`, inside the `some` of a key that is there.
pub record WireOp : Type 0 where
  pub op : Option String
  pub oid : Option ℕ
  pub cid : Option ℕ
  pub payload : Option (Option Bytes)
  pub prior : Option (Option Bytes)

pub record WireDelta : Type 0 where
  pub f : Option String
  pub v : Option Version
  pub tid : Option ℕ
  pub actor : Option ℤ
  pub at : Option ℕ
  pub ops : Option (List WireOp)
  pub types : Option (List TypeRow)
  pub root : Option (Option ℕ)

check_version : Option Version → Result (Unit {0})
check_version none = err delta_format
check_version (some other) = err delta_format
check_version (some (int version)) =
    if version == contract_version
    then ok tt
    else if leb_ℤ version contract_version
    then err delta_format
    else err delta_format

unfoldable pub check_delta_header : WireDelta → Result (Unit {0})
unfolding check_version
check_delta_header d = if d.f == some format_marker then check_version d.v else err delta_format

-- A required key: its value, or the refusal of a delta without it.
unfoldable pub need {ℓ} : {A : Type ℓ} → Option A → Result A
need none = err delta_format
need (some a) = ok a

-- The required keys of an op, judged before anything else of it.
pub record Op : Type 0 where
  pub op : String
  pub oid : ℕ
  pub cid : ℕ
  pub payload : Option Bytes
  pub prior : Option Bytes

unfoldable pub required_op : WireOp → Result Op
required_op w = do
  k ← need w.op
  o ← need w.oid
  c ← need w.cid
  p ← need w.payload
  q ← need w.prior
  ok (record { op = k; oid = o; cid = c; payload = p; prior = q })

-- What `apply` reads of a delta, once the header and the required keys are there.
pub record Delta : Type 0 where
  pub tid : ℕ
  pub ops : List WireOp
  pub types : List TypeRow
  pub root : Option ℕ

unfoldable pub required : WireDelta → Result Delta
unfolding need
required d = do
  check_delta_header d
  t ← need d.tid
  _ ← need d.actor
  _ ← need d.at
  o ← need d.ops
  y ← need d.types
  r ← need d.root
  ok (record { tid = t; ops = o; types = y; root = r })
