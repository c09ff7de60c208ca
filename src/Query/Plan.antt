-- ===== src/Query/Plan.antt =====
-- The planner: range slices, the readable set, and the split of a condition into the ids that an index
-- gives and a residual condition.
use datacrystal.Base.{
  ℕ, suc, String, List, [], ◌∷◌, Option, none, some, Bool, false, contains, take, drop,
  if◌then◌else◌, nat_eq, string_eq, option_eq,
}
use datacrystal.Base.Int.{int_eq}
use datacrystal.Base.Dict
use datacrystal.Base.Dict.{Dict}
use datacrystal.Query.Bitmap.{BitMap64}
use datacrystal.Query.ClassIndexes.{ClassIndexes, Postings, posting_of}
use datacrystal.Query.Condition.{
  Test, is_eq, is_lt, is_le, is_gt, is_ge, is_in, has_part, starts_with, Pred, Condition, pred,
  conj, disj, neg, Conditions, nil, cons,
}
use datacrystal.Query.Keys.{Keys, lt, key_eq}

pub data Ordering : Type 0 where
  ge gt le lt_ : Ordering

-- `bisect_left` and `bisect_right` on a sorted run
module _ {K : Type 0} ⦃o : Keys K⦄ where
  unfoldable pub bisect_left : List K → K → ℕ
  bisect_left [] v = 0
  bisect_left (k ∷ ks) v = let rest = bisect_left ks v in if lt k v then suc rest else 0

  unfoldable pub bisect_right : List K → K → ℕ
  bisect_right [] v = 0
  bisect_right (k ∷ ks) v = let rest = bisect_right ks v in if o.le k v then suc rest else 0

  -- `_matches_string_key`: `None` is no string.
  unfoldable pub matches_string_key : (K → K → Bool) → K → Option K → Bool
  matches_string_key matcher needle none = false
  matches_string_key matcher needle (some key) = matcher needle key

  -- `keys[lo:hi]`
  unfoldable pub bounds : Ordering → List K → K → List K
  unfolding bisect_left bisect_right
  bounds ge keys v = drop (bisect_left keys v) keys
  bounds gt keys v = drop (bisect_right keys v) keys
  bounds le keys v = take (bisect_right keys v) keys
  bounds lt_ keys v = take (bisect_left keys v) keys

  -- An ordering and its bound.
  unfoldable pub ordering_of : Test K → Option (Ordering × Option K)
  ordering_of (is_ge v) = some (ge, v)
  ordering_of (is_gt v) = some (gt, v)
  ordering_of (is_le v) = some (le, v)
  ordering_of (is_lt v) = some (lt_, v)
  ordering_of _ = none

  -- `holder.get(value)`; `None` is never a key of a unique map.
  unfoldable pub holder_of : Dict K ℕ → Option K → Option ℕ
  holder_of holders none = none
  holder_of holders (some v) = Dict.get holders v

  unfoldable pub conj_residual : Conditions K → Option (Condition K)
  conj_residual nil = none
  conj_residual (cons c nil) = some c
  conj_residual (cons c (cons d cs)) = some (conj (cons c (cons d cs)))

  abbrev pub add_residual : Option (Condition K) → Conditions K → Conditions K
  add_residual none cs = cs
  add_residual (some c) cs = cons c cs

module _ {B : Type 0} ⦃bm : BitMap64 B⦄ where
  unfoldable pub single : Option ℕ → B
  single none = bm.empty
  single (some oid) = bm.add bm.empty oid

  -- `sub_bm if bitmap is None else bitmap & sub_bm`
  unfoldable pub meet : Option B → Option B → Option B
  meet none b = b
  meet (some a) none = some a
  meet (some a) (some b) = some (bm.inter a b)

-- What `plan` returns: candidates, if an index gives them, and the residual.
abbrev pub Planned : Type 0 → Type 0 → Type 0
Planned K B = Option B × Option (Condition K)

module _ {K B : Type 0} ⦃o : Keys K⦄ ⦃bm : BitMap64 B⦄ where
  -- A column and a run of the class, empty where there is none.
  unfoldable pub column : ClassIndexes K B → String → Postings K B
  column ci field = elim (Dict.get ci.eq field) [ none ↦ [] | some col ↦ col ]

  unfoldable pub run_of : ClassIndexes K B → String → List K
  run_of ci field = elim (Dict.get ci.sorted_keys field) [ none ↦ [] | some run ↦ run ]

  unfoldable pub holders_of : ClassIndexes K B → String → Dict K ℕ
  holders_of ci field = elim (Dict.get ci.unique field) [ none ↦ [] | some holders ↦ holders ]

  -- `acc |= postings[key]` over a slice of the run
  unfoldable pub union_keys : Postings K B → List K → B
  unfolding posting_of
  union_keys col [] = bm.empty
  union_keys col (k ∷ ks) = bm.union (posting_of col (some k)) (union_keys col ks)

  -- `_range_slice`
  unfoldable pub range_slice : ClassIndexes K B → String → Ordering → Option K → B
  unfolding column run_of union_keys bounds
  range_slice ci field op none = bm.empty
  range_slice ci field op (some v) = union_keys (column ci field) (bounds op (run_of ci field) v)

  -- The union of the postings of `cond.value` for `in`.
  unfoldable pub union_values : Postings K B → List (Option K) → B
  unfolding posting_of
  union_values col [] = bm.empty
  union_values col (v ∷ vs) = bm.union (posting_of col v) (union_values col vs)

  -- The union of the postings whose key matches.
  unfoldable pub union_matching : (Option K → Bool) → Postings K B → B
  union_matching test [] = bm.empty
  union_matching test ((key, ids) ∷ col) =
      let rest = union_matching test col in if test key then bm.union ids rest else rest

  -- `_plan_list_field`
  unfoldable pub plan_list_field : Pred K → ClassIndexes K B → Planned K B
  unfolding column posting_of
  plan_list_field p ci = elim p.test [
    | has_part v ↦ (some (posting_of (column ci p.field) (some v)), none)
    | other ↦ (none, some (pred p))
  ]

  -- `_plan_eq_indexed` for the tests that are no ordering
  unfoldable pub plan_eq_column : Pred K → Postings K B → Option (Planned K B)
  unfolding posting_of union_values union_matching matches_string_key
  plan_eq_column p col = elim p.test [
    | is_eq v ↦ some (some (posting_of col v), none)
    | is_in vs ↦ some (some (union_values col vs), none)
    | has_part v ↦ some (some (union_matching (matches_string_key o.substring v) col), none)
    | starts_with v ↦ some (some (union_matching (matches_string_key o.prefix v) col), none)
    | other ↦ none
  ]

  unfoldable pub plan_unordered : Pred K → ClassIndexes K B → Option (Planned K B)
  unfolding plan_list_field plan_eq_column column
  plan_unordered p ci =
      if contains ci.list_fields p.field
      then some (plan_list_field p ci)
      else plan_eq_column p (column ci p.field)

  -- `_plan_eq_indexed`
  unfoldable pub plan_eq_indexed : Pred K → ClassIndexes K B → Option (Planned K B)
  unfolding range_slice plan_unordered ordering_of
  plan_eq_indexed p ci = elim (ordering_of p.test) [
    | none ↦ plan_unordered p ci
    | some (op, v) ↦
        if contains ci.sorted_fields p.field
        then some (some (range_slice ci p.field op v), none)
        else plan_unordered p ci
  ]

  unfoldable pub add_holders : Dict K ℕ → List (Option K) → B
  unfolding holder_of
  add_holders holders [] = bm.empty
  add_holders holders (v ∷ vs) =
      let rest = add_holders holders vs in
      elim (holder_of holders v) [ none ↦ rest | some oid ↦ bm.add rest oid ]

  unfoldable pub add_matching : (Option K → Bool) → Dict K ℕ → B
  add_matching test [] = bm.empty
  add_matching test ((key, oid) ∷ holders) =
      let rest = add_matching test holders in if test (some key) then bm.add rest oid else rest

  -- `_plan_unique_only`
  unfoldable pub plan_unique_only : Pred K → ClassIndexes K B → Option (Planned K B)
  unfolding holders_of holder_of single add_holders add_matching matches_string_key
  plan_unique_only p ci = elim p.test [
    | is_eq v ↦ some (some (single (holder_of (holders_of ci p.field) v)), none)
    | is_in vs ↦ some (some (add_holders (holders_of ci p.field) vs), none)
    | has_part v ↦
        some (some (add_matching (matches_string_key o.substring v) (holders_of ci p.field)), none)
    | starts_with v ↦
        some (some (add_matching (matches_string_key o.prefix v) (holders_of ci p.field)), none)
    | other ↦ none
  ]

  unfoldable pub or_planned : Option (Planned K B) → Planned K B → Planned K B
  or_planned none q = q
  or_planned (some r) q = r

  unfoldable pub plan_unique : Pred K → ClassIndexes K B → Planned K B
  unfolding or_planned plan_unique_only
  plan_unique p ci =
      if Dict.has ci.unique p.field
      then or_planned (plan_unique_only p ci) (none, some (pred p))
      else (none, some (pred p))

  -- `_plan_pred`
  unfoldable pub plan_pred : Pred K → ClassIndexes K B → Planned K B
  unfolding or_planned plan_eq_indexed plan_unique
  plan_pred p ci =
      if Dict.has ci.eq p.field
      then or_planned (plan_eq_indexed p ci) (plan_unique p ci)
      else plan_unique p ci

  -- A part of an `And` before the rest, and the result of its loop.
  abbrev pub join_part : Planned K B → Option B × Conditions K → Option B × Conditions K
  join_part (ids, residual) (rest, residuals) = (meet ids rest, add_residual residual residuals)

  abbrev pub finish_and : Option B × Conditions K → Planned K B
  finish_and (ids, residuals) = (ids, conj_residual residuals)

  -- A branch of an `Or` before the rest, if an index answers both.
  abbrev pub join_branch : Planned K B → Option B → Option B
  join_branch (none, residual) rest = none
  join_branch (some ids, some residual) rest = none
  join_branch (some ids, none) none = none
  join_branch (some ids, none) (some rest) = some (bm.union ids rest)

  abbrev pub finish_or : Conditions K → Option B → Planned K B
  finish_or cs none = (none, some (disj cs))
  finish_or cs (some ids) = (some ids, none)

  unfoldable mutual
    unfolding plan_pred meet conj_residual

    pub plan : Condition K → ClassIndexes K B → Planned K B
    plan (pred p) ci = plan_pred p ci
    plan (conj cs) ci = finish_and (plan_parts cs ci)
    plan (disj cs) ci = finish_or cs (plan_branches cs ci)
    plan (neg c) ci = (none, some (neg c))

    pub plan_parts : Conditions K → ClassIndexes K B → Option B × Conditions K
    plan_parts nil ci = (none, nil)
    plan_parts (cons c cs) ci = join_part (plan c ci) (plan_parts cs ci)

    pub plan_branches : Conditions K → ClassIndexes K B → Option B
    plan_branches nil ci = some bm.empty
    plan_branches (cons c cs) ci = join_branch (plan c ci) (plan_branches cs ci)
