-- ===== src/Query/Compose.antt =====
-- The planner on `&`, `|` and `~`: the plan of a condition against its evaluation.
use datacrystal.Base.{
  ℕ, String, Option, none, some, Bool, Bool-cases, inl, inr, true, false, ◌&&◌, if◌then◌else◌, ◌≡◌,
  refl, ◌∙◌, sym, ap, arith, some-inj,
}
use mathlib.Core.Path.{subst}
use datacrystal.Errors.{Result, ok, Result-cases, ok-inj, >>=-eq-ok}
use datacrystal.Query.Bitmap.{BitMap64}
use datacrystal.Query.ClassIndexes.{ClassIndexes}
use datacrystal.Query.Condition.{
  Value, Condition, Conditions, nil, cons, pred, conj, disj, neg, evaluate, all_parts, any_part,
}
use datacrystal.Query.Keys.{Keys}
use datacrystal.Query.Plan.{
  Planned, plan, plan_parts, plan_branches, meet, conj_residual, join_part, join_branch, finish_or,
  add_residual,
}
use datacrystal.Query.Tidy.{Tidy}
use datacrystal.Query.Sound.{Shown, checked, answer, ok_if}
use datacrystal.Query.Soundness.{answerable, all_answerable, unasked_pred}

module _ {B : Type 0} ⦃bm : BitMap64 B⦄ where
  -- Whether the candidates, if there are any, have an id.
  abbrev opens : Option B → ℕ → Bool
  opens none n = true
  opens (some ids) n = bm.mem ids n

  opens-meet : (a b : Option B) (n : ℕ) → opens (meet a b) n ≡ (opens a n && opens b n)
  unfolding meet
  opens-meet none b n = refl
  opens-meet (some a) none n = ground arith
  opens-meet (some a) (some b) n = bm.mem_inter a b n

module _ {K : Type 0} ⦃o : Keys K⦄ (obj : String → Value K) where
  checked-conj_residual : (cs : Conditions K) → checked (conj_residual cs) obj ≡ all_parts cs obj
  unfolding conj_residual all_parts evaluate
  checked-conj_residual nil = refl
  checked-conj_residual (cons c nil) = elim (Result-cases (evaluate c obj)) [
    | inl (e, q) ↦ rw q refl
    | inr (b, q) ↦ rw q (sym (ok_if b))
  ]
  checked-conj_residual (cons c (cons d cs)) = refl

module _ {K B : Type 0} ⦃o : Keys K⦄ ⦃bm : BitMap64 B⦄ where
  module _ (obj : String → Value K) where
    module _ (n : ℕ) where
      -- The parts of an `And` so far, on one object.
      abbrev parts_answer : Option B × Conditions K → Result Bool
      parts_answer (ids, residuals) = if opens ids n then all_parts residuals obj else ok false

      answer-opens :
          (ids : Option B) (residual : Option (Condition K))
          → answer (ids, residual) n obj ≡ (if opens ids n then checked residual obj else ok false)
      answer-opens none residual = refl
      answer-opens (some ids) residual = refl

      shut_part :
          (ids : Option B) (residual : Option (Condition K)) (rest : Option B)
          (residuals : Conditions K)
          → answer (ids, residual) n obj ≡ ok false
          → parts_answer (join_part (ids, residual) (rest, residuals)) ≡ ok false
      unfolding all_parts
      shut_part ids residual rest residuals h =
          rw (opens-meet ids rest n) (elim (Bool-cases (opens ids n)) [
            | inr m ↦ rw m refl
            | inl y ↦ shut residual (sym (answer-opens ids residual ∙ rw y refl) ∙ h)
          ])
        where
          shut :
              (r : Option (Condition K))
              → checked r obj ≡ ok false
              → (if opens ids n && opens rest n
                  then all_parts (add_residual r residuals) obj
                  else ok false)
                ≡ ok false
          shut none q = absurd (cc (q))
          shut (some c) q = rw q (elim (Bool-cases (opens ids n && opens rest n)) [
            | inl y ↦ rw y refl
            | inr m ↦ rw m refl
          ])

      open_part :
          (ids : Option B) (residual : Option (Condition K)) (rest : Option B)
          (residuals : Conditions K)
          → answer (ids, residual) n obj ≡ ok true
          → parts_answer (join_part (ids, residual) (rest, residuals))
            ≡ parts_answer (rest, residuals)
      unfolding all_parts
      open_part ids residual rest residuals h =
          rw (opens-meet ids rest n) (elim (Bool-cases (opens ids n)) [
            | inr m ↦ absurd (cc (rw (answer-opens ids residual, m) at h))
            | inl y ↦ rw y (passed residual (sym (answer-opens ids residual ∙ rw y refl) ∙ h))
          ])
        where
          passed :
              (r : Option (Condition K))
              → checked r obj ≡ ok true
              → (if opens rest n then all_parts (add_residual r residuals) obj else ok false)
                ≡ parts_answer (rest, residuals)
          passed none q = refl
          passed (some c) q = rw q refl

  -- The branches of an `Or`, if an index answers them all.
  joined :
      (r : Planned K B) (rest : Option B) (ids : B)
      → join_branch r rest ≡ some ids
      → (a b : B) × (r ≡ (some a, none)) × (rest ≡ some b) × (bm.union a b ≡ ids)
  joined (none, residual) rest ids e = absurd (cc (e))
  joined (some a, some c) rest ids e = absurd (cc (e))
  joined (some a, none) none ids e = absurd (cc (e))
  joined (some a, none) (some b) ids e = (a, b, refl, refl, some-inj e)

  module _ (ci : ClassIndexes K B) (t : Tidy ci) (n : ℕ) (obj : String → Value K)
      (shown : Shown ci n obj) where
    -- An `Or` from its branches.
    disj_answer :
        (cs : Conditions K) (b : Bool) (union : Option B)
        → any_part cs obj ≡ ok b
        → ((ids : B) → union ≡ some ids → bm.mem ids n ≡ b)
        → answer (finish_or cs union) n obj ≡ ok b
    unfolding evaluate
    disj_answer cs b none e h = e
    disj_answer cs b (some ids) e h = ok_if (bm.mem ids n) ∙ ap ok (h ids refl)

    -- A condition that evaluates to a Boolean, and one part after another.
    mutual
      unfolding plan evaluate

      planned :
          (c : Condition K) (b : Bool)
          → answerable ci c ≡ true
          → evaluate c obj ≡ ok b
          → answer (plan c ci) n obj ≡ ok b
      planned (pred p) b a e = unasked_pred ci t n obj shown p a ∙ e
      planned (conj cs) b a e =
          answer-opens obj n (plan_parts cs ci).0 (conj_residual (plan_parts cs ci).1)
          ∙ rw (checked-conj_residual obj (plan_parts cs ci).1) (planned_parts cs b a e)
      planned (disj cs) b a e =
          disj_answer cs b (plan_branches cs ci) e (λ ids q. planned_branches cs b ids a e q)
      planned (neg c) b a e = e

      planned_parts :
          (cs : Conditions K) (b : Bool)
          → all_answerable ci cs ≡ true
          → all_parts cs obj ≡ ok b
          → parts_answer obj n (plan_parts cs ci) ≡ ok b
      planned_parts nil b a e = e
      planned_parts (cons c cs) b a e =
          let (x, q, r) =
            >>=-eq-ok (evaluate c obj) (λ x. if x then all_parts cs obj else ok false) e in
          elim (Bool-cases x) [
            | inl y ↦
                open_part obj n (plan c ci).0 (plan c ci).1 (plan_parts cs ci).0
                  (plan_parts cs ci).1 (planned c true (ground (arith, a)) (q ∙ ap ok y))
                ∙ planned_parts cs b (ground (arith, a)) (rw y at r)
            | inr m ↦
                shut_part obj n (plan c ci).0 (plan c ci).1 (plan_parts cs ci).0
                  (plan_parts cs ci).1 (planned c false (ground (arith, a)) (q ∙ ap ok m))
                ∙ (rw m at r)
          ]

      planned_branches :
          (cs : Conditions K) (b : Bool) (ids : B)
          → all_answerable ci cs ≡ true
          → any_part cs obj ≡ ok b
          → plan_branches cs ci ≡ some ids
          → bm.mem ids n ≡ b
      planned_branches nil b ids a e q =
          subst (λ ids. bm.mem ids n ≡ b) (some-inj q) (bm.mem_empty n ∙ ok-inj e)
      planned_branches (cons c cs) b ids a e q =
          let (u, v, w, z, j) = joined (plan c ci) (plan_branches cs ci) ids q in
          let (x, p, r) =
            >>=-eq-ok (evaluate c obj) (λ x. if x then ok true else any_part cs obj) e in
          let head : bm.mem u n ≡ x = ok-inj (
            sym (ok_if (bm.mem u n))
            ∙ subst (λ r. answer r n obj ≡ ok x) w (planned c x (ground (arith, a)) p)) in
          subst (λ ids. bm.mem ids n ≡ b) j
            (bm.mem_union u v n ∙ elim (Bool-cases x) [
              | inl y ↦ rw (head, y) (ok-inj (rw y at r))
              | inr m ↦ rw (head, m) (planned_branches cs b v (ground (arith, a)) (rw m at r) z)
            ])

    -- On indexes of a tidy shape and an id whose object they show, where a condition that asks no pure-Unique field
    -- for `None` evaluates to a Boolean on the object, the candidates and the residual of its plan give that Boolean.
    pub plan-evaluate :
        (c : Condition K) (b : Bool)
        → answerable ci c ≡ true
        → evaluate c obj ≡ ok b
        → answer (plan c ci) n obj ≡ ok b
    plan-evaluate = planned
