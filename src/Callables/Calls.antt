-- ===== src/Callables/Calls.antt =====
-- A func calls the lambda that it was made from.
use librtcx.Prelude.{ℕ, ◌≡◌, refl, ◌≢◌, ◌∙◌, List, [], ◌∷◌, some, arith}
use librtcx.Callables.{Memory, write, from_functor, invoke, invoke_all, direct}

module _ {S A R : Type 0} where
  -- Calls through copies of a func give what the same calls of its lambda give, and leave the
  -- lambda's captures as those leave them and everything else as it was, where the lambda lives.
  pub invoke_all-from_functor :
      (body : S → A → S × R) (lambda : ℕ) (s : S) (args : List A) (m : Memory S)
      → m lambda ≡ some s
      → (m' : Memory S) × (invoke_all (from_functor body lambda) args m
          ≡ some (m', (direct body s args).1))
        × (m' lambda ≡ some (direct body s args).0)
        × ((i : ℕ) → i ≢ lambda → m' i ≡ m i)
  unfolding invoke_all invoke from_functor direct
  invoke_all-from_functor body lambda s [] m here = (m, refl, here, λ i other. refl)
  invoke_all-from_functor body lambda s (a ∷ more) m here =
      let (s', result) = body s a in
      let (m', e, after, same) =
        invoke_all-from_functor body lambda s' more (write m lambda s') (ground arith) in
      (m', ground (arith, here, e), after, λ i other. same i other ∙ ground arith)
