-- ===== src/Committing.antt =====
-- Store.committing of _store.py: the loop that runs a block again after a conflict.
use datacrystal.Base.{
  ℕ, zero, suc, ◌+◌, ◌≤◌, ◌<◌, Option, none, some, Bool-cases, inl, inr, leb, if◌then◌else◌, ◌≡◌,
  refl, sym, arith, ◌⊎◌,
}

-- What became of an attempt when the loop resumes. Any other exception leaves the loop with the block.
pub data Attempt : Type 0 where
  committed unused conflicted : Attempt

-- How the loop ends, and at which attempt: it returns, or it raises RuntimeError or the ConflictError.
pub data Ending : Type 0 where
  returned not_entered conflict : ℕ → Ending

abbrev pub ending : Attempt → ℕ → Ending
ending committed tries = returned tries
ending unused tries = not_entered tries
ending conflicted tries = conflict tries

-- The loop, with fuel for its `while True`; attempt `tries` is the one after as many retries.
unfoldable pub committing : (ℕ → Attempt) → (retries tries fuel : ℕ) → Option Ending
committing attempt retries tries zero = none
committing attempt retries tries (suc fuel) =
    let rest = committing attempt retries (suc tries) fuel in
    elim (attempt tries) [
      | committed ↦ some (returned tries)
      | unused ↦ some (not_entered tries)
      | conflicted ↦ if leb retries tries then some (conflict tries) else rest
    ]

Attempt-cases : (a : Attempt) → (a ≡ conflicted) ⊎ ((a ≡ committed) ⊎ (a ≡ unused))
Attempt-cases committed = inr (inl refl)
Attempt-cases unused = inr (inr refl)
Attempt-cases conflicted = inl refl

-- The loop ends at an attempt: those before it met conflicts, and it is the last that `retries` allows if it met
-- one itself.
pub record Ends (attempt : ℕ → Attempt) (retries tries : ℕ) (result : Option Ending) : Type 0 where
  pub last : ℕ
  pub from : tries ≤ last
  pub within : last ≤ retries
  pub earlier : (j : ℕ) → tries ≤ j → j < last → attempt j ≡ conflicted
  pub result_is : result ≡ some (ending (attempt last) last)
  pub spent : attempt last ≡ conflicted → last ≡ retries

-- From the start, with fuel for one attempt more than `retries`, the loop ends: at the first attempt that meets no
-- conflict, or by raising the conflict of attempt `retries`; it makes no more attempts than that.
pub committing-Ends :
    (attempt : ℕ → Attempt) (retries tries fuel : ℕ)
    → tries ≤ retries
    → retries < tries + fuel
    → Ends attempt retries tries (committing attempt retries tries fuel)
unfolding committing
committing-Ends attempt retries tries zero h g = absurd (omega (arith, h, g))
committing-Ends attempt retries tries (suc fuel) h g = elim (Attempt-cases (attempt tries)) [
  | inr (inl e) ↦ record {
    last = tries;
    from = omega arith;
    within = h;
    earlier = λ j p q. absurd (omega (arith, p, q));
    result_is = rw (committing, e) refl;
    spent = λ c. absurd (cc (e, c));
  }
  | inr (inr e) ↦ record {
    last = tries;
    from = omega arith;
    within = h;
    earlier = λ j p q. absurd (omega (arith, p, q));
    result_is = rw (committing, e) refl;
    spent = λ c. absurd (cc (e, c));
  }
  | inl e ↦ elim (Bool-cases (leb retries tries)) [
    | inl y ↦ record {
      last = tries;
      from = omega arith;
      within = h;
      earlier = λ j p q. absurd (omega (arith, p, q));
      result_is = rw (committing, e, y) refl;
      spent = λ c. ground (arith, y, h);
    }
    | inr n ↦
        let more : suc tries ≤ retries = ground (arith, n) in
        let rest = committing-Ends attempt retries (suc tries) fuel more (omega (arith, g)) in
        record {
          last = rest.last;
          from = omega (arith, rest.from);
          within = rest.within;
          earlier = λ j p q. elim (at_or_after tries j p) [
            | inl s ↦ rw (sym s) e
            | inr s ↦ rest.earlier j s q
          ];
          result_is = rw (committing, e, n) rest.result_is;
          spent = rest.spent;
        }
  ]
]
  where
    at_or_after : (a b : ℕ) → a ≤ b → (a ≡ b) ⊎ (suc a ≤ b)
    at_or_after a b p = ground (arith, p)
