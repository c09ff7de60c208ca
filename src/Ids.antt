-- ===== src/Ids.antt =====
-- _ids.py: the partitioned id space and the allocator of object, class and commit ids.
use datacrystal.Base.{ℕ, ◌+◌, ◌^◌, Bool, ◌&&◌, leb, ltb}

abbrev pub format_version : ℕ
format_version = 2

abbrev pub cid_base : ℕ
cid_base = 1

-- `1 << 40`
abbrev pub oid_base : ℕ
oid_base = 2 ^ 40

abbrev pub tid_base : ℕ
tid_base = 1

pub is_oid : ℕ → Bool
is_oid value = leb oid_base value

pub is_cid : ℕ → Bool
is_cid value = leb cid_base value && ltb value oid_base

-- The fields are also the watermarks `oid_watermark`, `cid_watermark` and `tid_watermark`.
pub record IdAllocator : Type 0 where
  pub oid : ℕ
  pub cid : ℕ
  pub tid : ℕ

abbrev pub fresh : IdAllocator
fresh = record { oid = oid_base; cid = cid_base; tid = tid_base }

unfoldable pub next_oid : IdAllocator → ℕ × IdAllocator
next_oid a = (a.oid, record a { oid = a.oid + 1 })

unfoldable pub next_cid : IdAllocator → ℕ × IdAllocator
next_cid a = (a.cid, record a { cid = a.cid + 1 })

unfoldable pub next_tid : IdAllocator → ℕ × IdAllocator
next_tid a = (a.tid, record a { tid = a.tid + 1 })
