-- ===== src/Nvrtc.antt =====
-- src/nvrtc_lto_fragment_compiler.cpp and its header: the compiler of fragments and its cache.
-- NVRTC and the CUDA runtime are arguments: what each of their calls answers.
pub mod Compile
use librtcx.Prelude.{
  ℕ, zero, suc, ◌+◌, ◌*◌, List, [], ◌∷◌, ◌++◌, Bool, true, false, Option, none, some, Outcome, ok,
  raise, abort, runtime_error, logic_error, ◌>>=◌, ◌>>◌, expects, Bytes, codes, text_eq, to_string,
  if◌then◌else◌,
}
use librtcx.Planner.{Fragment}

-- `nvrtc_lto_fragment_compiler::cache`.
abbrev pub FragmentCache : Type 0
FragmentCache = List (Bytes × Bytes)

unfoldable pub find_fragment : Bytes → FragmentCache → Option Bytes
find_fragment key [] = none
find_fragment key ((k, bytes) ∷ cache) =
    let rest = find_fragment key cache in if text_eq k key then some bytes else rest

-- The constructor: the options, if the three calls about the device succeed.
unfoldable pub standard_compile_opts : Option (ℕ × ℕ) → Outcome (List Bytes)
standard_compile_opts none = raise runtime_error
standard_compile_opts (some (major, minor)) = ok (
    (codes "-arch=sm_" ++ to_string (major * 10 + minor))
    ∷ codes "-dlto"
    ∷ codes "-rdc=true"
    ∷ codes "--std=c++20"
    ∷ codes "-default-device"
    ∷ [])

-- What NVRTC answers for a program.
pub record NvrtcAnswers : Type 0 where
  pub create_succeeds : Bytes → Bool
  pub compile_succeeds : List Bytes → Bytes → Bool
  pub destroy_succeeds : Bool
  -- The LTO IR of the code under the options, if its size and its bytes can be had.
  pub lto_ir : List Bytes → Bytes → Option Bytes

-- NVRTC_SAFE_CALL.
abbrev pub nvrtc_safe_call : Bool → Outcome (Unit {0})
nvrtc_safe_call succeeds = expects succeeds logic_error

module _ (answers : NvrtcAnswers) (opts : List Bytes) where
  -- The `try` block and its handler, for a compilation that failed: whether the log can be had or
  -- not, an exception leads to `nvrtcDestroyProgram`; all throw `std::logic_error`.
  unfoldable pub failed_compile : ℕ → ℕ × Outcome Bytes
  failed_compile programs = (
    if answers.destroy_succeeds then programs else suc programs,
    nvrtc_safe_call answers.destroy_succeeds >> raise logic_error,
  )

  -- From the LTO IR to the destruction of the program.
  unfoldable pub read_lto_ir : ℕ → Bytes → ℕ × Outcome Bytes
  read_lto_ir programs code = elim (answers.lto_ir opts code) [
    | none ↦ (suc programs, raise logic_error)
    | some lto_ir ↦
        if answers.destroy_succeeds
        then (programs, ok lto_ir)
        else (suc programs, raise logic_error)
  ]

  -- The NVRTC calls of `compile`: the number of programs that exist afterwards, and the LTO IR.
  unfoldable pub compile_program : ℕ → Bytes → ℕ × Outcome Bytes
  unfolding failed_compile read_lto_ir
  compile_program programs code =
      if answers.create_succeeds code
      then if answers.compile_succeeds opts code
        then read_lto_ir programs code
        else failed_compile programs
      else (programs, raise logic_error)

  -- `compile` from the write lock on.
  unfoldable pub locked_compile :
      FragmentCache → ℕ → Bytes → Bytes → (FragmentCache × ℕ) × Outcome Fragment
  unfolding compile_program
  locked_compile cache programs key code = elim (find_fragment key cache) [
    | some bytes ↦ ((cache, programs), ok (record { key = key; binary = bytes }))
    | none ↦
        let (programs', compiled) = compile_program programs code in
        elim compiled [
          | ok lto_ir ↦
              (((key, lto_ir) ∷ cache, programs'), ok (record { key = key; binary = lto_ir }))
          | raise e ↦ ((cache, programs'), raise e)
          | abort ↦ ((cache, programs'), abort)
        ]
  ]

  -- `compile`: `seen` is the cache under the read lock, `cache` that under the write lock.
  unfoldable pub compile :
      FragmentCache → FragmentCache → ℕ → Bytes → Bytes → (FragmentCache × ℕ) × Outcome Fragment
  unfolding locked_compile
  compile seen cache programs key code = elim (find_fragment key seen) [
    | some bytes ↦ ((cache, programs), ok (record { key = key; binary = bytes }))
    | none ↦ locked_compile cache programs key code
  ]
