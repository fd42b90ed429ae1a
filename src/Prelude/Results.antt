-- ===== src/Prelude/Results.antt =====
-- What a call returns, the exception that leaves it, or the end of the process.

use mathlib.Core.Path.{◌≡◌, refl, subst}
use mathlib.Core.Logic.{◌⊎◌, inl, inr}
use mathlib.Core.Bool.{Bool, true, false}

-- The exception types that the sources throw.
pub data Error : Type 0 where
  runtime_error logic_error invalid_argument bad_alloc bad_variant_access : Error

pub data Outcome {ℓ} (A : Type ℓ) : Type ℓ where
  ok : A → Outcome A
  raise : Error → Outcome A
  -- `std::terminate`, as by an exception that leaves a destructor.
  abort : Outcome A

infixl 5 ◌>>=◌ ◌>>◌
abbrev pub ◌>>=◌ {ℓ κ} : {A : Type ℓ} {B : Type κ} → Outcome A → (A → Outcome B) → Outcome B
ok a >>= f = f a
raise e >>= f = raise e
abort >>= f = abort

abbrev pub ◌>>◌ {ℓ} : {B : Type ℓ} → Outcome (Unit {0}) → Outcome B → Outcome B
m >> k = m >>= λ _. k

-- RTCX_EXPECTS(condition, reason, exception type).
abbrev pub expects : Bool → Error → Outcome (Unit {0})
expects true e = ok tt
expects false e = raise e

pub Outcome-cases {ℓ} :
    {A : Type ℓ} (o : Outcome A)
    → ((a : A) × (o ≡ ok a)) ⊎ (((e : Error) × (o ≡ raise e)) ⊎ (o ≡ abort))
Outcome-cases (ok a) = inl (a, refl)
Outcome-cases (raise e) = inr (inl (e, refl))
Outcome-cases abort = inr (inr refl)

-- What holds of the value, if a call returns one.
abbrev pub Ensures {ℓ κ} : {A : Type ℓ} → (A → Type κ) → Outcome A → Type κ
Ensures P (ok a) = P a
Ensures P (raise e) = Unit
Ensures P abort = Unit

pub Ensures-bind {ℓ κ ι} :
    {A : Type ℓ} {B : Type κ} (P : B → Type ι) (m : Outcome A) (f : A → Outcome B)
    → ((a : A) → m ≡ ok a → Ensures P (f a))
    → Ensures P (m >>= f)
Ensures-bind P (ok a) f h = h a refl
Ensures-bind P (raise e) f h = tt
Ensures-bind P abort f h = tt

pub Ensures_elim {ℓ κ} :
    {A : Type ℓ} (P : A → Type κ) (m : Outcome A) (a : A) → Ensures P m → m ≡ ok a → P a
Ensures_elim P m a h e = subst (Ensures P) e h

pub Ensures-weakened {ℓ κ ι} :
    {A : Type ℓ} (P : A → Type κ) (Q : A → Type ι) (m : Outcome A)
    → ((a : A) → P a → Q a)
    → Ensures P m
    → Ensures Q m
Ensures-weakened P Q (ok a) w h = w a h
Ensures-weakened P Q (raise e) w h = tt
Ensures-weakened P Q abort w h = tt
