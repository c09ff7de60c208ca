-- ===== src/Query/Condition.antt =====
-- The condition AST of _conditions.py: leaves, `&`, `|`, `~`, their normal form, the class that they are
-- about, and their evaluation on an object.
use datacrystal.Base.{
  ℕ, String, List, [], ◌∷◌, ◌++◌, Option, none, some, Bool, true, false, not, ◌==◌, contains,
  if◌then◌else◌, nat_eq, string_eq, option_eq,
}
use datacrystal.Errors.{Result, ok, err, type_error, query_error, ◌>>=◌}
use datacrystal.Query.Keys.{Keys, lt, key_eq}

-- A field of an object: a scalar or `None`, or a list of them.
pub data Value (K : Type 0) : Type 0 where
  scalar : Option K → Value K
  many : List (Option K) → Value K

-- `op` and `value` of a `Pred`. A literal is a scalar, or a tuple of them for `in`.
pub data Test (K : Type 0) : Type 0 where
  is_eq is_ne is_lt is_le is_gt is_ge : Option K → Test K
  is_in : List (Option K) → Test K
  has_part starts_with : K → Test K

pub record Pred (K : Type 0) : Type 0 where
  pub cls : ℕ
  pub field : String
  pub test : Test K

mutual
  pub data Condition (K : Type 0) : Type 0 where
    pred : Pred K → Condition K
    conj disj : Conditions K → Condition K
    neg : Condition K → Condition K

  pub data Conditions (K : Type 0) : Type 0 where
    nil : Conditions K
    cons : Condition K → Conditions K → Conditions K

abbrev pub append : {K : Type 0} → Conditions K → Conditions K → Conditions K
append nil ds = ds
append (cons c cs) ds = cons c (append cs ds)

-- `_flatten(And, cond)` and `_flatten(Or, cond)`
unfoldable pub conjuncts : {K : Type 0} → Condition K → Conditions K
conjuncts (conj cs) = cs
conjuncts (pred p) = cons (pred p) nil
conjuncts (disj cs) = cons (disj cs) nil
conjuncts (neg c) = cons (neg c) nil

unfoldable pub disjuncts : {K : Type 0} → Condition K → Conditions K
disjuncts (disj cs) = cs
disjuncts (pred p) = cons (pred p) nil
disjuncts (conj cs) = cons (conj cs) nil
disjuncts (neg c) = cons (neg c) nil

-- `a & b`, `a | b` and `~a`
unfoldable pub and_ : {K : Type 0} → Condition K → Condition K → Condition K
unfolding conjuncts
and_ a b = conj (append (conjuncts a) (conjuncts b))

unfoldable pub or_ : {K : Type 0} → Condition K → Condition K → Condition K
unfolding disjuncts
or_ a b = disj (append (disjuncts a) (disjuncts b))

unfoldable pub invert : {K : Type 0} → Condition K → Condition K
invert c = neg c

-- A set of classes, in the order of their first use.
unfoldable pub add_class : List ℕ → ℕ → List ℕ
add_class seen c = if contains seen c then seen else seen ++ c ∷ []

unfoldable mutual
  unfolding add_class

  pub collect_classes : {K : Type 0} → Condition K → List ℕ → List ℕ
  collect_classes (pred p) into = add_class into p.cls
  collect_classes (conj cs) into = collect_all cs into
  collect_classes (disj cs) into = collect_all cs into
  collect_classes (neg c) into = collect_classes c into

  pub collect_all : {K : Type 0} → Conditions K → List ℕ → List ℕ
  collect_all nil into = into
  collect_all (cons c cs) into = collect_all cs (collect_classes c into)

only_class : List ℕ → Result ℕ
only_class (c ∷ []) = ok c
only_class _ = err query_error

unfoldable pub entity_class : {K : Type 0} → Condition K → Result ℕ
unfolding collect_classes only_class
entity_class c = only_class (collect_classes c [])

module _ {K : Type 0} ⦃o : Keys K⦄ where
  -- `_ordered`: `None` never matches, on either side; a list is not orderable against a scalar. The scalars are
  -- of one ordered type here; Python raises a `TypeError` on scalars of types that it does not compare.
  unfoldable pub ordered : (K → K → Bool) → Value K → Option K → Result Bool
  ordered cmp (scalar (some a)) (some v) = ok (cmp a v)
  ordered cmp (many l) (some v) = err type_error
  ordered cmp (scalar none) v = ok false
  ordered cmp (scalar (some a)) none = ok false
  ordered cmp (many l) none = ok false

  unfoldable pub is_equal : Value K → Option K → Bool
  is_equal (scalar a) v = a == v
  is_equal (many l) v = false

  unfoldable pub is_among : Value K → List (Option K) → Bool
  is_among (scalar a) vs = contains vs a
  is_among (many l) vs = false

  -- `_contains`
  unfoldable pub value_contains : Value K → K → Bool
  value_contains (many l) v = contains l (some v)
  value_contains (scalar (some a)) v = o.substring v a
  value_contains (scalar none) v = false

  unfoldable pub value_startswith : Value K → K → Bool
  value_startswith (scalar (some a)) v = o.prefix v a
  value_startswith (scalar none) v = false
  value_startswith (many l) v = false

  -- `Pred.evaluate`, on the value of the field
  unfoldable pub evaluate_test : Test K → Value K → Result Bool
  unfolding ordered is_equal is_among value_contains value_startswith
  evaluate_test (is_eq v) a = ok (is_equal a v)
  evaluate_test (is_ne v) a = ok (not (is_equal a v))
  evaluate_test (is_in vs) a = ok (is_among a vs)
  evaluate_test (has_part v) a = ok (value_contains a v)
  evaluate_test (starts_with v) a = ok (value_startswith a v)
  evaluate_test (is_lt v) a = ordered (λ a v. lt a v) a v
  evaluate_test (is_le v) a = ordered (λ a v. o.le a v) a v
  evaluate_test (is_gt v) a = ordered (λ a v. lt v a) a v
  evaluate_test (is_ge v) a = ordered (λ a v. o.le v a) a v

  -- `evaluate` on an object, given by its fields; `all` and `any` stop at the first part that decides.
  unfoldable mutual
    unfolding evaluate_test

    pub evaluate : Condition K → (String → Value K) → Result Bool
    evaluate (pred p) obj = evaluate_test p.test (obj p.field)
    evaluate (conj cs) obj = all_parts cs obj
    evaluate (disj cs) obj = any_part cs obj
    evaluate (neg c) obj = do b ← evaluate c obj; ok (not b)

    pub all_parts : Conditions K → (String → Value K) → Result Bool
    all_parts nil obj = ok true
    all_parts (cons c cs) obj =
        let rest = all_parts cs obj in do b ← evaluate c obj; if b then rest else ok false

    pub any_part : Conditions K → (String → Value K) → Result Bool
    any_part nil obj = ok false
    any_part (cons c cs) obj =
        let rest = any_part cs obj in do b ← evaluate c obj; if b then ok true else rest
