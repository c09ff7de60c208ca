-- ===== src/Session/Finish.antt =====
-- Discovery with enough fuel finishes its queue.
use datacrystal.Base.{
  ℕ, zero, suc, ◌+◌, ◌≤◌, List, [], ◌∷◌, ◌++◌, map, none, length, ◌≡◌, refl, ap, arith, All,
  Bool-cases, inl, inr, nat_eq,
}
use datacrystal.Errors.{Result, ok, err, Result-cases}
use datacrystal.Session.Live.{Heap, Session}
use datacrystal.Session.Reach.{Entry}
use datacrystal.Session.Graph.{visit, walk, register_graph, register_all, discover_new_graphs}
use datacrystal.Session.Walk.{Keeps, register-Keeps}
use datacrystal.Session.Fuel.{refs_of}
use datacrystal.Session.Weights.{
  In, weight, walked_at, total, total-le, Shape, Shape-refl, Shape-trans, adopted-Shape,
  label-Shape,
}
use datacrystal.Session.Rounds.{Closed, Closed-Shape, Step, visit-Good}

-- What a walk returns leaves nothing in the queue; it may raise.
abbrev Finishes : Result (List ℕ × List Entry) → Type 0
Finishes (err e) = Unit {0}
Finishes (ok (walked, queue)) = queue ≡ []

-- The same of the discovery, which returns what is left.
abbrev pub LeavesNothing : Result (List Entry) → Type 0
LeavesNothing (err e) = Unit {0}
LeavesNothing (ok left) = left ≡ []

-- How many references the entities of a set show.
unfoldable pub references : Heap → List ℕ → ℕ
references h U = total (λ r. refs_of (h r).fields) U

weight-bound : (h : Heap) (walked : List ℕ) (r : ℕ) → weight h walked r ≤ refs_of (h r).fields
weight-bound h walked r = elim (Bool-cases (walked_at (h r).oid walked)) [
  | inl y ↦ rw y (omega arith)
  | inr n ↦ rw n (omega arith)
]

module _ {I Γ : Type 0} (U : List ℕ) where
  walk-Finishes :
      (fuel : ℕ) (s : Session I Γ) (walked : List ℕ) (queue : List Entry)
      → Closed U s
      → All (λ e. In U e.0) queue
      → length queue + total (weight s.heap walked) U ≤ fuel
      → Finishes (walk fuel walked queue s).0
  unfolding walk
  walk-Finishes fuel s walked [] closed all h = refl
  walk-Finishes zero s walked (e ∷ queue) closed all h = absurd (omega (arith, h))
  walk-Finishes (suc fuel) s walked ((r, container) ∷ queue) closed all h =
      let good = visit-Good U s walked queue r container all.0 closed in
      elim (Result-cases (visit (r, container) walked queue s).0) [
        | inl (e, q) ↦ rw q tt
        | inr ((walked', queue'), q) ↦
            let t = (visit (r, container) walked queue s).1 in
            let step : Step U s walked queue t walked' queue' = rw q at good in
            rw q (
              walk-Finishes fuel t walked' queue' (Closed-Shape U s t step.shape closed)
                (step.inside all.1) (omega (arith, h, step.falls)))
      ]

  register-Finishes :
      (fuel : ℕ) (s : Session I Γ) (walked : List ℕ) (r : ℕ)
      → Closed U s
      → In U r
      → suc (references s.heap U) ≤ fuel
      → Finishes (register_graph fuel r walked s).0
  unfolding register_graph references
  register-Finishes fuel s walked r closed here h =
      walk-Finishes fuel s walked ((r, none) ∷ []) closed (here, tt)
        (omega (
          arith,
          h,
          total-le (λ r. refs_of (s.heap r).fields) (weight s.heap walked) U
              (weight-bound s.heap walked),
        ))

  register-Shape :
      (fuel r : ℕ) (walked : List ℕ) → Keeps {S = Session I Γ} Shape (register_graph fuel r walked)
  register-Shape =
      register-Keeps Shape Shape-refl Shape-trans (λ r s h k. adopted-Shape r s h) label-Shape

  references-Shape : (s t : Session I Γ) → Shape s t → references t.heap U ≤ references s.heap U
  unfolding references
  references-Shape s t shape =
      total-le (λ r. refs_of (s.heap r).fields) (λ r. refs_of (t.heap r).fields) U
        (λ r. omega (arith, ap refs_of (shape.fields r)))

  register_all-LeavesNothing :
      (fuel : ℕ) (walked rs : List ℕ) (s : Session I Γ)
      → Closed U s
      → All (In U) rs
      → suc (references s.heap U) ≤ fuel
      → LeavesNothing (register_all fuel walked rs s).0
  unfolding register_all
  register_all-LeavesNothing fuel walked [] s closed all h = refl
  register_all-LeavesNothing fuel walked (r ∷ rs) s closed all h =
      let finished = register-Finishes fuel s walked r closed all.0 h in
      let t = (register_graph fuel r walked s).1 in
      let shape = register-Shape fuel r walked s in
      elim (Result-cases (register_graph fuel r walked s).0) [
        | inl (e, q) ↦ rw q tt
        | inr ((walked', left), q) ↦
            let nothing : left ≡ [] = rw q at finished in
            let rest =
              register_all-LeavesNothing fuel walked' rs t (Closed-Shape U s t shape closed) all.1
                (omega (arith, h, references-Shape s t shape)) in
            elim (Result-cases (register_all fuel walked' rs t).0) [
              | inl (e, p) ↦ rw (q, p) tt
              | inr (more, p) ↦
                  let none_left : more ≡ [] = rw p at rest in rw (q, p, nothing, none_left) refl
            ]
      ]

  -- Where a set of entities holds what is buffered and what its own entities show, discovery with fuel for one
  -- round more than they show references raises, or returns with nothing left in a queue.
  pub discover-LeavesNothing :
      (fuel : ℕ) (s : Session I Γ)
      → Closed U s
      → All (In U) (map (λ e. e.1) s.buffered_new ++ map (λ e. e.1) s.buffered_dirty)
      → suc (references s.heap U) ≤ fuel
      → LeavesNothing (discover_new_graphs fuel s).0
  unfolding discover_new_graphs
  discover-LeavesNothing fuel s closed all h = register_all-LeavesNothing fuel [] _ s closed all h
