-- ===== src/Errors.antt =====
-- The exceptions that the modelled code raises: classes of src/datacrystal/_errors.py and
-- src/datacrystal/contract/applier.py, and Python's own. The messages are not modelled.
use datacrystal.Base.{◌≡◌, refl, Bool, true, false, ◌⊎◌, inl, inr}

pub data Error : Type 0 where
  type_error value_error key_error index_error attribute_error : Error
  struct_error : Error
  frozen_entity : Error
  deleted_entity : Error
  not_an_entity : Error
  newer_store : Error
  lease_lost : Error
  wrong_thread store_closed : Error
  unique_violation : Error
  query_error : Error
  dangling_ref : Error
  delta_format : Error
  delta_gap : Error
  delta_log_config : Error
  write_denied : Error
  read_denied : Error
  unknown_actor : Error
  sponsor_required : Error
  uncommitted_actor : Error
  datacrystal_error : Error

pub data Result {ℓ} (X : Type ℓ) : Type ℓ where
  err : Error → Result X
  ok : X → Result X

infixl 5 ◌>>=◌ ◌>>◌
-- The rest of a method, which runs unless a call has raised.
abbrev pub ◌>>=◌ {ℓ κ} : {X : Type ℓ} {Y : Type κ} → Result X → (X → Result Y) → Result Y
err raised >>= rest = err raised
ok x >>= rest = rest x

abbrev pub ◌>>◌ {κ} : {Y : Type κ} → Result (Unit {0}) → Result Y → Result Y
check >> rest = check >>= λ _. rest

-- `if not test: raise e`
abbrev pub require : Bool → Error → Result (Unit {0})
require true e = ok tt
require false e = err e

pub Result-cases {ℓ} :
    {A : Type ℓ} (r : Result A) → ((e : Error) × (r ≡ err e)) ⊎ ((a : A) × (r ≡ ok a))
Result-cases (ok a) = inr (a, refl)
Result-cases (err e) = inl (e, refl)

-- Inversion of a successful bind.
pub >>=-eq-ok {ℓ κ} :
    {X : Type ℓ} {Y : Type κ} (call : Result X) (rest : X → Result Y) {y : Y}
    → (call >>= rest) ≡ ok y
    → (x : X) × (call ≡ ok x) × (rest x ≡ ok y)
>>=-eq-ok (err raised) rest h = cc
>>=-eq-ok (ok x) rest h = (x, refl, h)

pub ok-inj {ℓ} : {A : Type ℓ} {a b : A} → ok a ≡ ok b → a ≡ b
ok-inj h = cc
