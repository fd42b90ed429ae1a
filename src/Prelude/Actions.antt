-- ===== src/Prelude/Actions.antt =====
-- Calls that change a state and return, throw or end the process: their composition.
use mathlib.Core.Path.{◌≡◌, ap, sym, transport}
use mathlib.Core.Bool.{Bool}
use librtcx.Prelude.Results.{Error, Outcome, ok, raise, abort, expects}

abbrev pub Act {ℓ} : Type 0 → Type ℓ → Type ℓ
Act S A = S → S × Outcome A

module _ {S : Type 0} where
  abbrev pub pure {ℓ} : {A : Type ℓ} → A → Act S A
  pure a s = (s, ok a)

  abbrev pub fail {ℓ} : {A : Type ℓ} → Error → Act S A
  fail e s = (s, raise e)

  infixl 5 ◌>>=◌ ◌>>◌
  abbrev pub ◌>>=◌ {ℓ κ} : {A : Type ℓ} {B : Type κ} → Act S A → (A → Act S B) → Act S B
  ◌>>=◌ m f s =
      let (t, o) = m s in elim o [ ok a ↦ f a t | raise e ↦ (t, raise e) | abort ↦ (t, abort) ]

  abbrev pub ◌>>◌ {κ} : {B : Type κ} → Act S (Unit {0}) → Act S B → Act S B
  m >> k = m >>= λ _. k

  -- RTCX_EXPECTS.
  abbrev pub require : Bool → Error → Act S (Unit {0})
  require condition e s = (s, expects condition e)

  -- RTCX_DEFER with a function that cannot throw: it runs at the end of the scope, which is left by
  -- a return or by an exception.
  abbrev pub deferred {ℓ} : {A : Type ℓ} → (S → S) → Act S A → Act S A
  deferred cleanup m s =
      let (t, o) = m s in
      elim o [ ok a ↦ (cleanup t, ok a) | raise e ↦ (cleanup t, raise e) | abort ↦ (t, abort) ]

  -- A first call that returns hands its value and its state on.
  pub bind-ok {ℓ κ} :
      {A : Type ℓ} {B : Type κ} (m : Act S A) (f : A → Act S B) {s t : S} {a : A}
      → m s ≡ (t, ok a)
      → (m >>= f) s ≡ f a t
  bind-ok {B = B} m f e =
      ap
        (λ r. elim r.1 as (λ _. S × Outcome B) [
          | ok a ↦ f a r.0
          | raise e ↦ (r.0, raise e)
          | abort ↦ (r.0, abort)
        ])
        e

  -- A first call that throws is the end.
  pub bind-raise {ℓ κ} :
      {A : Type ℓ} {B : Type κ} (m : Act S A) (f : A → Act S B) {s t : S} {e : Error}
      → m s ≡ (t, raise e)
      → (m >>= f) s ≡ (t, raise e)
  bind-raise {B = B} m f h =
      ap
        (λ r. elim r.1 as (λ _. S × Outcome B) [
          | ok a ↦ f a r.0
          | raise e ↦ (r.0, raise e)
          | abort ↦ (r.0, abort)
        ])
        h

  -- A call that returns a value and a state of the first kind, or throws in a state of the second.
  abbrev pub IsEnd {ℓ} : {A : Type ℓ} → (A → S → Type 0) → (S → Type 0) → S × Outcome A → Type 0
  IsEnd Q R (t, ok a) = Q a t
  IsEnd Q R (t, raise e) = R t
  IsEnd Q R (t, abort) = ⊥

  IsEnd-bound {ℓ κ} :
      {A : Type ℓ} {B : Type κ} (Q : A → S → Type 0) (R : S → Type 0) (Q' : B → S → Type 0)
      (f : A → Act S B) (t : S) (o : Outcome A)
      → IsEnd Q R (t, o)
      → ((a : A) (u : S) → Q a u → IsEnd Q' R (f a u))
      → IsEnd Q' R (elim o as (λ _. S × Outcome B) [
        | ok a ↦ f a t
        | raise e ↦ (t, raise e)
        | abort ↦ (t, abort)
      ])
  IsEnd-bound Q R Q' f t (ok a) h hf = hf a t h
  IsEnd-bound Q R Q' f t (raise e) h hf = h
  IsEnd-bound Q R Q' f t abort h hf = absurd h

  pub IsEnd-bind {ℓ κ} :
      {A : Type ℓ} {B : Type κ} (Q : A → S → Type 0) (R : S → Type 0) (Q' : B → S → Type 0)
      (m : Act S A) (f : A → Act S B) (s : S)
      → IsEnd Q R (m s)
      → ((a : A) (u : S) → Q a u → IsEnd Q' R (f a u))
      → IsEnd Q' R ((m >>= f) s)
  IsEnd-bind Q R Q' m f s h hf = IsEnd-bound Q R Q' f (m s).0 (m s).1 h hf

  -- The end of what follows a first call that returns.
  pub IsEnd-after_ok {ℓ κ} :
      {A : Type ℓ} {B : Type κ} (Q : B → S → Type 0) (R : S → Type 0) (m : Act S A)
      (f : A → Act S B) {s t : S} {a : A}
      → m s ≡ (t, ok a)
      → IsEnd Q R (f a t)
      → IsEnd Q R ((m >>= f) s)
  IsEnd-after_ok Q R m f e h = transport (λ i. IsEnd Q R (sym (bind-ok m f e) i)) h

  -- A call from a state of the kind `P` that returns a value and a state of the kind `Q`, or throws in
  -- a state of the kind `R`.
  unfoldable pub Ends {ℓ} :
      {A : Type ℓ} → (S → Type 0) → (A → S → Type 0) → (S → Type 0) → Act S A → Type 0
  Ends P Q R m = (s : S) → P s → IsEnd Q R (m s)

  pub Ends-bind {ℓ κ} :
      {A : Type ℓ} {B : Type κ} (P R : S → Type 0) (Q : A → S → Type 0) (Q' : B → S → Type 0)
      (m : Act S A) (f : A → Act S B)
      → Ends P Q R m
      → ((a : A) → Ends (Q a) Q' R (f a))
      → Ends P Q' R (m >>= f)
  unfolding Ends
  Ends-bind P R Q Q' m f hm hf s p = IsEnd-bind Q R Q' m f s (hm s p) hf

  IsEnd-weakened {ℓ} :
      {A : Type ℓ} (Q Q' : A → S → Type 0) (R : S → Type 0) (r : S × Outcome A)
      → ((a : A) (s : S) → Q a s → Q' a s)
      → IsEnd Q R r
      → IsEnd Q' R r
  IsEnd-weakened Q Q' R (t, ok a) w h = w a t h
  IsEnd-weakened Q Q' R (t, raise e) w h = h
  IsEnd-weakened Q Q' R (t, abort) w h = h

  pub Ends_weakened {ℓ} :
      {A : Type ℓ} (P R : S → Type 0) (Q Q' : A → S → Type 0) (m : Act S A)
      → ((a : A) (s : S) → Q a s → Q' a s)
      → Ends P Q R m
      → Ends P Q' R m
  unfolding Ends
  Ends_weakened P R Q Q' m w h s p = IsEnd-weakened Q Q' R (m s) w (h s p)
