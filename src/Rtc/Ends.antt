-- ===== src/Rtc/Ends.antt =====
-- How calls that hold a handle and buffers end: shared by the compiler and the linker.
use librtcx.Prelude.{
  ℕ, suc, ◌-◌, ◌≡◌, refl, ap, ◌∙◌, inl, inr, [], Bool, true, false, Error, Outcome, ok, raise,
  abort, runtime_error, Bytes, arith, if◌then◌else◌, ◌==◌, ltb, Bool-cases, take,
}
use librtcx.Prelude.Actions.{Act, ◌>>=◌, ◌>>◌, require, deferred}
use librtcx.Rtc.{
  Session, check, opened, closed, make_buffer, fill_buffer, OutputAnswers, read_output, LogAnswers,
  read_log,
}

-- A call that holds nothing more in the end, and returns or throws.
abbrev pub IsQuietEnd {ℓ} : {A : Type ℓ} → Session → Session × Outcome A → Type 0
IsQuietEnd s (t, ok a) = (t.handles ≡ s.handles) × (t.buffers ≡ s.buffers)
IsQuietEnd s (t, raise e) = (t.handles ≡ s.handles) × (t.buffers ≡ s.buffers)
IsQuietEnd s (t, abort) = ⊥

abbrev pub IsQuiet {ℓ} : {A : Type ℓ} → Act Session A → Type 0
IsQuiet m = (s : Session) → IsQuietEnd s (m s)

-- A call that returns a buffer with the bytes, or throws and holds nothing more.
abbrev pub IsMadeEnd : Bytes → Session → Session × Outcome Bytes → Type 0
IsMadeEnd bytes s (t, ok b) = (b ≡ bytes) × (t.handles ≡ s.handles) × (t.buffers ≡ suc s.buffers)
IsMadeEnd bytes s (t, raise e) = (t.handles ≡ s.handles) × (t.buffers ≡ s.buffers)
IsMadeEnd bytes s (t, abort) = ⊥

abbrev pub IsMade : Bytes → Act Session Bytes → Type 0
IsMade bytes m = (s : Session) → IsMadeEnd bytes s (m s)

IsQuiet_after {ℓ} :
    {B : Type ℓ} (s t u : Session) (o : Outcome B)
    → (t.handles ≡ s.handles) × (t.buffers ≡ s.buffers)
    → IsQuietEnd t (u, o)
    → IsQuietEnd s (u, o)
IsQuiet_after s t u (ok b) h k = (k.0 ∙ h.0, k.1 ∙ h.1)
IsQuiet_after s t u (raise e) h k = (k.0 ∙ h.0, k.1 ∙ h.1)
IsQuiet_after s t u abort h k = absurd k

IsMade_after :
    (bytes : Bytes) (s t u : Session) (o : Outcome Bytes)
    → (t.handles ≡ s.handles) × (t.buffers ≡ s.buffers)
    → IsMadeEnd bytes t (u, o)
    → IsMadeEnd bytes s (u, o)
IsMade_after bytes s t u (ok b) h k = (k.0, k.1 ∙ h.0, k.2 ∙ ap suc h.1)
IsMade_after bytes s t u (raise e) h k = (k.0 ∙ h.0, k.1 ∙ h.1)
IsMade_after bytes s t u abort h k = absurd k

bind_quiet {ℓ κ} :
    {A : Type ℓ} {B : Type κ} (f : A → Act Session B) (s t : Session) (o : Outcome A)
    → IsQuietEnd s (t, o)
    → ((a : A) → IsQuiet (f a))
    → IsQuietEnd s (elim o as (λ _. Session × Outcome B) [
      | ok a ↦ f a t
      | raise e ↦ (t, raise e)
      | abort ↦ (t, abort)
    ])
bind_quiet f s t (ok a) h hf = IsQuiet_after s t (f a t).0 (f a t).1 h (hf a t)
bind_quiet f s t (raise e) h hf = h
bind_quiet f s t abort h hf = absurd h

pub IsQuiet-bind {ℓ κ} :
    {A : Type ℓ} {B : Type κ} (m : Act Session A) (f : A → Act Session B)
    → IsQuiet m
    → ((a : A) → IsQuiet (f a))
    → IsQuiet (m >>= f)
IsQuiet-bind m f hm hf s = bind_quiet f s (m s).0 (m s).1 (hm s) hf

bind_made {ℓ} :
    {A : Type ℓ} (bytes : Bytes) (f : A → Act Session Bytes) (s t : Session) (o : Outcome A)
    → IsQuietEnd s (t, o)
    → ((a : A) → IsMade bytes (f a))
    → IsMadeEnd bytes s (elim o as (λ _. Session × Outcome Bytes) [
      | ok a ↦ f a t
      | raise e ↦ (t, raise e)
      | abort ↦ (t, abort)
    ])
bind_made bytes f s t (ok a) h hf = IsMade_after bytes s t (f a t).0 (f a t).1 h (hf a t)
bind_made bytes f s t (raise e) h hf = h
bind_made bytes f s t abort h hf = absurd h

pub IsMade-bind {ℓ} :
    {A : Type ℓ} (bytes : Bytes) (m : Act Session A) (f : A → Act Session Bytes)
    → IsQuiet m
    → ((a : A) → IsMade bytes (f a))
    → IsMade bytes (m >>= f)
IsMade-bind bytes m f hm hf s = bind_made bytes f s (m s).0 (m s).1 (hm s) hf

pub IsQuiet-then {ℓ} :
    {B : Type ℓ} (m : Act Session (Unit {0})) (n : Act Session B)
    → IsQuiet m
    → IsQuiet n
    → IsQuiet (m >> n)
IsQuiet-then m n hm hn = IsQuiet-bind m (λ _. n) hm (λ _. hn)

pub IsMade-then :
    (bytes : Bytes) (m : Act Session (Unit {0})) (n : Act Session Bytes)
    → IsQuiet m
    → IsMade bytes n
    → IsMade bytes (m >> n)
IsMade-then bytes m n hm hn = IsMade-bind bytes m (λ _. n) hm (λ _. hn)

pub require-IsQuiet : (condition : Bool) (e : Error) → IsQuiet (require condition e)
require-IsQuiet true e s = (refl, refl)
require-IsQuiet false e s = (refl, refl)

pub IsQuiet-if {ℓ} :
    {A : Type ℓ} (b : Bool) (m n : Act Session A)
    → IsQuiet m
    → IsQuiet n
    → IsQuiet (if b then m else n)
IsQuiet-if true m n hm hn = hm
IsQuiet-if false m n hm hn = hn

pub read_log-IsQuiet : (log : LogAnswers) → IsQuiet (read_log log)
unfolding read_log
read_log-IsQuiet log = IsQuiet-bind (check log.size_result) _ (require-IsQuiet _ _) (λ _.
    IsQuiet-if (ltb 1 log.size) _ _
      (IsQuiet-bind (check log.get_result) _ (require-IsQuiet _ _) (λ _ s. (refl, refl)))
      (λ s. (refl, refl)))

pub read_output-IsMade :
    (allocates : Bool) (output : OutputAnswers) → IsMade output.bytes (read_output allocates output)
unfolding read_output make_buffer fill_buffer
read_output-IsMade allocates output s = ground arith

closed_made :
    (bytes : Bytes) (s t : Session) (o : Outcome Bytes)
    → IsMadeEnd bytes (opened s) (t, o)
    → IsMadeEnd bytes s (elim o as (λ _. Session × Outcome Bytes) [
      | ok a ↦ (closed t, ok a)
      | raise e ↦ (closed t, raise e)
      | abort ↦ (t, abort)
    ])
closed_made bytes s t (ok b) h = ground arith
closed_made bytes s t (raise e) h = ground arith
closed_made bytes s t abort h = absurd h

-- A handle that is opened for a call and closed by RTCX_DEFER.
pub opened-IsMade :
    (bytes : Bytes) (result : ℕ) (m : Act Session Bytes)
    → IsMade bytes m
    → IsMade bytes
        (λ s. if result == 0 then deferred closed m (opened s) else (s, raise runtime_error))
opened-IsMade bytes result m h s = elim (Bool-cases (result == 0)) [
  | inl good ↦ rw good (closed_made bytes s (m (opened s)).0 (m (opened s)).1 (h (opened s)))
  | inr bad ↦ rw bad (refl, refl)
]

pub read_log_returns :
    (log : LogAnswers) (s : Session)
    → (log.size_result ≡ 0) × (log.get_result ≡ 0)
    → (text : Bytes) × (read_log log s ≡ (s, ok text))
unfolding read_log
read_log_returns log s h = elim (Bool-cases (ltb 1 log.size)) [
  | inl some_log ↦ (take (log.size - 1) log.characters, ground arith)
  | inr no_log ↦ ([], ground arith)
]

deferred_returns :
    (bytes : Bytes) (t : Session) (o : Outcome Bytes)
    → o ≡ ok bytes
    → (elim o as (λ _. Session × Outcome Bytes) [
      | ok a ↦ (closed t, ok a)
      | raise e ↦ (closed t, raise e)
      | abort ↦ (t, abort)
    ]).1
      ≡ ok bytes
deferred_returns bytes t (ok b) h = h
deferred_returns bytes t (raise e) h = h
deferred_returns bytes t abort h = h

pub opened_returns :
    (bytes : Bytes) (result : ℕ) (m : Act Session Bytes) (s : Session)
    → result ≡ 0
    → (m (opened s)).1 ≡ ok bytes
    → (if result == 0 then deferred closed m (opened s) else (s, raise runtime_error)).1 ≡ ok bytes
opened_returns bytes result m s good h =
    rw good (deferred_returns bytes (m (opened s)).0 (m (opened s)).1 h)
