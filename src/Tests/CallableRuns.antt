-- ===== src/Tests/CallableRuns.antt =====
-- A lambda that counts, called through a func.
use librtcx.Prelude.{ℕ, ◌+◌, ◌≡◌, ◌≢◌, refl, [], ◌∷◌, some, none, if◌then◌else◌, ◌==◌}
use librtcx.Callables.{Memory, from_functor, invoke_all, direct}
use librtcx.Callables.Calls.{invoke_all-from_functor}

abbrev count : ℕ → ℕ → ℕ × ℕ
count total n = (total + n, total)

abbrev memory : Memory ℕ
memory = λ i. if i == 5 then some 10 else if i == 6 then some 20 else none

invoke_all-from_functor_example :
    (m' : Memory ℕ) × (invoke_all (from_functor count 5) (1 ∷ 2 ∷ []) memory
      ≡ some (m', 10 ∷ 11 ∷ []))
    × (m' 5 ≡ some 13)
    × ((i : ℕ) → i ≢ 5 → m' i ≡ memory i)
unfolding direct
invoke_all-from_functor_example = invoke_all-from_functor count 5 10 (1 ∷ 2 ∷ []) memory refl
