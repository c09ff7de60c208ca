-- ===== src/Query/Window.antt =====
-- The window of a result: `validate_window`, `apply_window` and `window_iter`.
use datacrystal.Base.{
  ℕ, zero, suc, ◌+◌, List, [], ◌∷◌, Option, none, some, take, drop, ◌≡◌, refl, arith, nat_eq,
}
use datacrystal.Base.Int.{ℤ, pos, leb_ℤ}
use datacrystal.Errors.{Result, require, value_error, ◌>>◌}

-- An argument that is no `int` has no model.
unfoldable pub validate_window : Option ℤ → ℤ → Result (Unit {0})
validate_window none offset = require (leb_ℤ (pos 0) offset) value_error
validate_window (some limit) offset = do
  require (leb_ℤ (pos 0) offset) value_error
  require (leb_ℤ (pos 0) limit) value_error

module _ {A : Type 0} where
  unfoldable pub apply_window : List A → Option ℕ → ℕ → List A
  apply_window seq none offset = drop offset seq
  apply_window seq (some limit) offset = take limit (drop offset seq)

  -- `itertools.islice`
  abbrev pub islice : List A → ℕ → Option ℕ → List A
  islice seq start none = drop start seq
  islice seq start (some stop) = drop start (take stop seq)

  unfoldable pub window_iter : List A → Option ℕ → ℕ → List A
  window_iter candidate none offset = islice candidate offset none
  window_iter candidate (some limit) offset = islice candidate offset (some (offset + limit))

  nothing : (n : ℕ) → [] ≡ take {A = A} n []
  nothing zero = refl
  nothing (suc n) = refl

  pub drop-take :
      (offset limit : ℕ) (seq : List A)
      → drop offset (take (offset + limit) seq) ≡ take limit (drop offset seq)
  drop-take zero limit seq = let e : zero + limit ≡ limit = omega arith in rw e refl
  drop-take (suc offset) limit [] =
      let e : suc offset + limit ≡ suc (offset + limit) = omega arith in rw e (nothing limit)
  drop-take (suc offset) limit (x ∷ seq) =
      let e : suc offset + limit ≡ suc (offset + limit) = omega arith in
      rw e (drop-take offset limit seq)

  -- The window that is taken lazily from a sequence is the window of the whole sequence.
  pub window_iter-apply_window :
      (seq : List A) (limit : Option ℕ) (offset : ℕ)
      → window_iter seq limit offset ≡ apply_window seq limit offset
  unfolding window_iter apply_window
  window_iter-apply_window seq none offset = refl
  window_iter-apply_window seq (some limit) offset = drop-take offset limit seq
