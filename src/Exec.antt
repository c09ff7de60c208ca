-- ===== src/Exec.antt =====
-- Methods that change an object and may raise. What was written before a raise stays written, so the
-- object comes back beside the error too.
use datacrystal.Base.{Bool, true, false}
use datacrystal.Errors.{Error, Result, ok, err}

-- A method of an object in `Obj` that returns an `X`.
abbrev pub Exec {κ} : (Obj X : Type κ) → Type κ
Exec Obj X = Obj → Result X × Obj

module _ {κ} {S A : Type κ} where
  abbrev pub pure : A → Exec S A
  pure a s = (ok a, s)

  abbrev pub raise : Error → Exec S A
  raise e s = (err e, s)

  abbrev pub lift : Result A → Exec S A
  lift r s = (r, s)

module _ {S : Type 0} where
  -- A write of the object, when the new object can be computed.
  abbrev pub modify : (S → S) → Exec S (Unit {0})
  modify f s = (ok tt, f s)

  -- A step that either raises and writes nothing, or writes.
  abbrev pub stored : Result S → S → Result (Unit {0}) × S
  stored (ok s') s = (ok tt, s')
  stored (err e) s = (err e, s)

  abbrev pub attempt : (S → Result S) → Exec S (Unit {0})
  attempt f s = stored (f s) s

  -- `if not test: raise e`
  abbrev pub require : Bool → Error → Exec S (Unit {0})
  require true e s = (ok tt, s)
  require false e s = (err e, s)

module _ {κ} {Obj X Y : Type κ} where
  -- What follows a call, which runs on the object that the call has left unless it has raised.
  abbrev pub continue : Result X → (X → Exec Obj Y) → Exec Obj Y
  continue (err raised) rest left = (err raised, left)
  continue (ok x) rest left = rest x left

  infixl 5 ◌>>=◌ ◌>>◌
  abbrev pub ◌>>=◌ : Exec Obj X → (X → Exec Obj Y) → Exec Obj Y
  ◌>>=◌ call rest obj = let (result, left) = call obj in continue result rest left

  abbrev pub ◌>>◌ : Exec Obj X → Exec Obj Y → Exec Obj Y
  first >> rest = first >>= λ _. rest
