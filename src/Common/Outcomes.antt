-- ===== src/Common/Outcomes.antt =====
-- What holds of the value of a computation, where it has one.
use simple_quic.Common.Errors.{Result, ok, err, ◌>>=◌}

abbrev pub Yields {ℓ κ} : {A : Type ℓ} → (A → Type κ) → Result A → Type κ
Yields P (ok a) = P a
Yields P (err e) = Unit

pub Yields-bind {ℓ κ μ ν} :
    {A : Type ℓ} {B : Type κ} (P : A → Type μ) (Q : B → Type ν) (r : Result A) (f : A → Result B)
    → Yields P r
    → ((a : A) → P a → Yields Q (f a))
    → Yields Q (r >>= f)
Yields-bind P Q (ok a) f h k = k a h
Yields-bind P Q (err e) f h k = tt

pub Yields-weaken {ℓ μ ν} :
    {A : Type ℓ} (P : A → Type μ) (Q : A → Type ν) (r : Result A)
    → Yields P r
    → ((a : A) → P a → Q a)
    → Yields Q r
Yields-weaken P Q (ok a) h k = k a h
Yields-weaken P Q (err e) h k = tt

-- Nothing is known of the first value.
pub Yields-then {ℓ κ ν} :
    {A : Type ℓ} {B : Type κ} (Q : B → Type ν) (r : Result A) (f : A → Result B)
    → ((a : A) → Yields Q (f a))
    → Yields Q (r >>= f)
Yields-then Q (ok a) f k = k a
Yields-then Q (err e) f k = tt
