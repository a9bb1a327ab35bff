-- ===== src/Common/Errors.antt =====
-- How C++ code of the repository can stop: a failed `assert`, a thrown exception, or an access
-- outside an object, which the language leaves undefined.

pub data Error : Type 0 where
  assertion : Error
  invalid_argument : Error
  runtime_error : Error
  logic_error : Error
  out_of_bounds : Error
  division_by_zero : Error

pub data Result {ℓ} (A : Type ℓ) : Type ℓ where
  ok : A → Result A
  err : Error → Result A

infixl 5 ◌>>=◌
abbrev pub ◌>>=◌ {ℓ κ} : {A : Type ℓ} {B : Type κ} → Result A → (A → Result B) → Result B
ok a >>= f = f a
err e >>= f = err e
