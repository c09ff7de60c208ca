-- ===== src/Query/Search.antt =====
-- `Store.query` without an order, on ids: the candidates, the residual on the objects, and the window.
use datacrystal.Base.{ℕ, String, List, [], ◌∷◌, Option, none, some, if◌then◌else◌}
use datacrystal.Errors.{Result, ok, ◌>>=◌}
use datacrystal.Query.Bitmap.{BitMap64}
use datacrystal.Query.ClassIndexes.{ClassIndexes}
use datacrystal.Query.Condition.{Value, Condition, evaluate}
use datacrystal.Query.Keys.{Keys}
use datacrystal.Query.Plan.{Planned, plan}
use datacrystal.Query.Window.{apply_window, window_iter}

module _ {B : Type 0} ⦃bm : BitMap64 B⦄ where
  -- `candidate & rb` where there is a readable set
  abbrev pub readable_part : B → Option B → B
  readable_part ids none = ids
  readable_part ids (some readable) = bm.inter ids readable

module _ {K : Type 0} ⦃o : Keys K⦄ where
  -- `[o for o in objs if residual.evaluate(o)]`, by the ids of the objects
  unfoldable pub keep_matching : (ℕ → String → Value K) → Condition K → List ℕ → Result (List ℕ)
  keep_matching objects residual [] = ok []
  keep_matching objects residual (oid ∷ oids) =
      let rest = keep_matching objects residual oids in
      do b ← evaluate residual (objects oid); others ← rest; ok (if b then oid ∷ others else others)

module _ {K B : Type 0} ⦃o : Keys K⦄ ⦃bm : BitMap64 B⦄ where
  abbrev pub or_extent : ClassIndexes K B → Option B → B
  or_extent ci none = ci.extent
  or_extent ci (some ids) = ids

  -- What the condition leaves to an index, if there is a condition.
  abbrev pub planned_for : ClassIndexes K B → Option (Condition K) → Planned K B
  planned_for ci none = (none, none)
  planned_for ci (some c) = plan c ci

  -- `_candidates`; the readable set is none for root and for a class without protection.
  unfoldable pub candidates :
      ClassIndexes K B → Option (Condition K) → Option B → B × Option (Condition K)
  candidates ci cond readable =
      (readable_part (or_extent ci (planned_for ci cond).0) readable, (planned_for ci cond).1)

  unfoldable pub finish_query :
      (ℕ → String → Value K) → B → Option (Condition K) → Option ℕ → ℕ → Result (List ℕ)
  unfolding window_iter keep_matching apply_window
  finish_query objects candidate none limit offset =
      ok (window_iter (bm.iter candidate) limit offset)
  finish_query objects candidate (some residual) limit offset = do
    kept ← keep_matching objects residual (bm.iter candidate)
    ok (apply_window kept limit offset)

  unfoldable pub query :
      ClassIndexes K B
      → (ℕ → String → Value K)
      → Option (Condition K)
      → Option B
      → Option ℕ
      → ℕ
      → Result (List ℕ)
  unfolding candidates finish_query
  query ci objects cond readable limit offset =
      finish_query objects (candidates ci cond readable).0 (candidates ci cond readable).1 limit
        offset
