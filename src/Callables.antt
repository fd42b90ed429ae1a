-- ===== src/Callables.antt =====
-- `func` of include/rtcx/rtcx.hpp: a callable without its type, by the address of what it calls and a
-- function that invoke_all what is there. It owns nothing: a lambda's captures stay where they are.
pub mod Calls
use librtcx.Prelude.{ℕ, List, [], ◌∷◌, Bool, Option, none, some, if◌then◌else◌, ◌==◌}

-- The objects of a type that live, by their addresses.
abbrev pub Memory : Type 0 → Type 0
Memory S = ℕ → Option S

-- `func<R(Args...)>`. A call gives nothing where C++ does not define it.
pub record Func (S A R : Type 0) : Type 0 where
  pub user_data : ℕ
  pub thunk : ℕ → A → Memory S → Option (Memory S × R)

abbrev pub write : {S : Type 0} → Memory S → ℕ → S → Memory S
write m address s = λ i. if address == i then some s else m i

module _ {S A R : Type 0} where
  -- `func(R (*)(Args...))`, over the functions of the program by their addresses.
  unfoldable pub from_pointer : (ℕ → Option (A → Memory S → Memory S × R)) → ℕ → Func S A R
  from_pointer functions func_ptr = record {
    user_data = func_ptr;
    thunk =
        λ user_data args m. elim (functions user_data) [ none ↦ none | some f ↦ some (f args m) ];
  }

  -- `from_functor`: the body of the lambda works on its captures, where they are.
  unfoldable pub from_functor : (S → A → S × R) → ℕ → Func S A R
  from_functor body lambda = record {
    user_data = lambda;
    thunk = λ user_data args m. elim (m user_data) [
      | none ↦ none
      | some captures ↦
          let (captures', result) = body captures args in some (write m user_data captures', result)
    ];
  }

  -- `operator()`.
  unfoldable pub invoke : Func S A R → A → Memory S → Option (Memory S × R)
  invoke f args m = f.thunk f.user_data args m

  -- Calls one after the other, each through a copy of the func.
  unfoldable pub invoke_all : Func S A R → List A → Memory S → Option (Memory S × List R)
  unfolding invoke
  invoke_all f [] m = some (m, [])
  invoke_all f (args ∷ more) m = elim (invoke f args m) [
    | none ↦ none
    | some (m', result) ↦ elim (invoke_all f more m') [
      | none ↦ none
      | some (m'', results) ↦ some (m'', result ∷ results)
    ]
  ]

  -- The calls of the lambda itself.
  unfoldable pub direct : (S → A → S × R) → S → List A → S × List R
  direct body s [] = (s, [])
  direct body s (args ∷ more) =
      let (s', result) = body s args in
      let (s'', results) = direct body s' more in (s'', result ∷ results)
