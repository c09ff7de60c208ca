-- ===== src/Query/Nulls.antt =====
-- A pure-Unique field that is asked for `None`.
use datacrystal.Base.{ℕ, String, option_beq, string_eq, none, true, false, ◌≡◌, refl}
use datacrystal.Base.Dict
use datacrystal.Errors.{ok}
use datacrystal.Query.Bitmap.{BitMap64}
use datacrystal.Query.ClassIndexes.{ClassIndexes}
use datacrystal.Query.Condition.{Value, scalar, pred, is_eq, evaluate, evaluate_test, is_equal}
use datacrystal.Query.Keys.{Keys}
use datacrystal.Query.Plan.{
  plan, plan_pred, plan_unique, plan_unique_only, or_planned, holder_of, single,
}
use datacrystal.Query.Sound.{answer}

module _ {K B : Type 0} ⦃o : Keys K⦄ ⦃bm : BitMap64 B⦄ where
  -- On an object whose pure-Unique field is `None`, `field == None` evaluates to true, and the plan of it
  -- leaves the id out.
  pub plan_misses_none :
      (ci : ClassIndexes K B) (c n : ℕ) (f : String) (obj : String → Value K)
      → Dict.has ci.eq f ≡ false
      → Dict.has ci.unique f ≡ true
      → obj f ≡ scalar none
      → (evaluate (pred (record { cls = c; field = f; test = is_eq none })) obj ≡ ok true)
        × (answer (plan (pred (record { cls = c; field = f; test = is_eq none })) ci) n obj
            ≡ ok false)
  unfolding plan plan_pred plan_unique plan_unique_only or_planned holder_of single evaluate
      evaluate_test is_equal option_beq
  plan_misses_none ci c n f obj h u e =
      (rw e refl, rw (plan, plan_pred, h, plan_unique, u) (rw (bm.mem_empty n) refl))
