-- ===== src/Contract/Watermark.antt =====
-- The watermark of the reference applier: gapless, never moved by a refused delta, and a delta applied
-- twice is a delta applied once.
use datacrystal.Base.{
  ℕ, ◌+◌, ◌≤◌, Bool, true, false, List, [], ◌∷◌, Option, some, ◌≡◌, refl, arith, inl, inr, leb,
  leb→le, eqb, eqb_iff, Bool-cases, some-inj, sym, ◌∙◌, ◌==◌, nat_eq, list_eq, option_eq,
}
use mathlib.Core.Path.{subst}
use native.Mathlib.Nat.{le_of_eq}
use datacrystal.Errors.{Result, ok, err, Result-cases}
use datacrystal.Base.Dict
use datacrystal.Contract.Wire.{
  Bytes, WireOp, WireDelta, Op, Delta, Delta, required, required_op, check_delta_header,
}
use datacrystal.Contract.Defs.{
  Applier, change_object, apply_known, apply_op, apply_ops, put_types, apply_next, apply_at, apply,
}

-- What a run may change: the objects and the types, and not the watermark or the root.
abbrev SameMark : Applier → Applier → Type 0
SameMark s t = (t.watermark ≡ s.watermark) × (t.root_oid ≡ s.root_oid)

change_object-SameMark :
    (x : Op) (current : Option Bytes) (s : Applier) → SameMark s (change_object x current s).1
unfolding change_object
change_object-SameMark x current s = ground arith

apply_known-SameMark : (x : Op) (s : Applier) → SameMark s (apply_known x s).1
unfolding apply_known
apply_known-SameMark x s = elim (Bool-cases (Dict.has s.types x.cid)) [
  | inr n ↦ rw n (refl, refl)
  | inl y ↦ elim (Bool-cases (x.prior == Dict.get s.objects x.oid)) [
    | inr m ↦ rw (y, m) (refl, refl)
    | inl z ↦ rw (y, z) (change_object-SameMark x (Dict.get s.objects x.oid) s)
  ]
]

apply_op-SameMark : (w : WireOp) (s : Applier) → SameMark s (apply_op w s).1
unfolding apply_op
apply_op-SameMark w s = elim (Result-cases (required_op w)) [
  | inl (e, h) ↦ rw h (refl, refl)
  | inr (x, h) ↦ rw h (apply_known-SameMark x s)
]

apply_ops-SameMark : (ws : List WireOp) (s : Applier) → SameMark s (apply_ops ws s).1
unfolding apply_ops
apply_ops-SameMark [] s = (refl, refl)
apply_ops-SameMark (w ∷ ws) s =
    ground (arith, apply_op-SameMark w s, apply_ops-SameMark ws (apply_op w s).1)

-- How `apply` can end, as the TID and the marks show it: the result, and what it says.
abbrev pub Outcome : WireDelta → Applier → Result Bool → Applier → Type 0
Outcome d s (ok false) t = (t ≡ s) × ((tid : ℕ) × (d.tid ≡ some tid) × (tid ≤ s.watermark))
Outcome d s (ok true) t =
    (t.watermark ≡ s.watermark + 1) × (d.tid ≡ some t.watermark) × (d.root ≡ some t.root_oid)
Outcome d s (err e) t = SameMark s t

apply_next-Outcome :
    (d : WireDelta) (x : Delta) (s : Applier)
    → d.tid ≡ some x.tid
    → d.root ≡ some x.root
    → x.tid ≡ s.watermark + 1
    → Outcome d s (apply_next x s).0 (apply_next x s).1
unfolding apply_next
apply_next-Outcome d x s h r e =
    let mid : Applier = record s { types = put_types s.types x.types } in
    let keep : SameMark mid (apply_ops x.ops mid).1 = apply_ops-SameMark x.ops mid in
    elim (Result-cases (apply_ops x.ops mid).0) [
      | inl (e', q) ↦ rw q keep
      | inr (u, q) ↦ rw q (e, h, r)
    ]

apply_at-Outcome :
    (d : WireDelta) (x : Delta) (s : Applier)
    → d.tid ≡ some x.tid
    → d.root ≡ some x.root
    → Outcome d s (apply_at x s).0 (apply_at x s).1
unfolding apply_at
apply_at-Outcome d x s h r = elim (Bool-cases (leb x.tid s.watermark)) [
  | inl old ↦ rw old (refl, (x.tid, h, leb→le _ _ old))
  | inr more ↦ elim (Bool-cases (eqb x.tid (s.watermark + 1))) [
    | inl one ↦ rw (more, one) (apply_next-Outcome d x s h r ((eqb_iff _ _).0 one))
    | inr gap ↦ rw (more, gap) (refl, refl)
  ]
]

-- The keys that a delta was read by.
pub required-inv :
    (d : WireDelta) (x : Delta)
    → required d ≡ ok x
    → (d.tid ≡ some x.tid) × (d.root ≡ some x.root) × (check_delta_header d ≡ ok tt)
unfolding required
required-inv d x h = ground arith

-- However `apply` ends: a skip changes nothing and its TID is not above the watermark; success has the
-- TID one above the watermark, which moves to it with the root; a refusal keeps the watermark and the
-- root.
pub apply-Outcome : (d : WireDelta) (s : Applier) → Outcome d s (apply d s).0 (apply d s).1
unfolding apply
apply-Outcome d s = elim (Result-cases (required d)) [
  | inl (e, h) ↦ rw h (refl, refl)
  | inr (x, h) ↦ let (t, r, _) = required-inv d x h in rw h (apply_at-Outcome d x s t r)
]

apply_at-old : (x : Delta) (s : Applier) → x.tid ≤ s.watermark → apply_at x s ≡ (ok false, s)
unfolding apply_at
apply_at-old x s h = ground arith

-- A delta that was applied is skipped the next time, and changes nothing.
pub apply_twice :
    (d : WireDelta) (s t : Applier) → apply d s ≡ (ok true, t) → apply d t ≡ (ok false, t)
unfolding apply
apply_twice d s t h = elim (Result-cases (required d)) [
  | inl (e, n) ↦ cc (n, h)
  | inr (x, r) ↦
      let (_, same, _) = subst (λ p. Outcome d s p.0 p.1) h (apply-Outcome d s) in
      let (seen, _, _) = required-inv d x r in
      rw r (apply_at-old x t (le_of_eq (some-inj (sym seen ∙ same))))
]
