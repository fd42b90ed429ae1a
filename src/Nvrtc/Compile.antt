-- ===== src/Nvrtc/Compile.antt =====
-- The fragments that the compiler returns, and the programs that it leaves.
use librtcx.Prelude.{
  ℕ, suc, ◌≡◌, ◌⊎◌, inl, inr, List, true, false, none, some, ok, raise, logic_error, Bytes,
  text_eq_iff, arith, Option-cases, Bool-cases,
}
use librtcx.Planner.{Fragment}
use librtcx.Nvrtc.{
  FragmentCache, NvrtcAnswers, find_fragment, failed_compile, read_lto_ir, compile_program,
  locked_compile, compile,
}

-- Each fragment of the cache is the LTO IR of the code that its key is for.
abbrev pub IsCompiled : NvrtcAnswers → List Bytes → (Bytes → Bytes) → FragmentCache → Type 0
IsCompiled answers opts code_of cache =
    (k b : Bytes) → find_fragment k cache ≡ some b → answers.lto_ir opts (code_of k) ≡ some b

module _ (answers : NvrtcAnswers) (opts : List Bytes) where
  compile_program-ok :
      (programs : ℕ) (code b : Bytes)
      → (compile_program answers opts programs code).1 ≡ ok b
      → answers.lto_ir opts code ≡ some b
  unfolding compile_program failed_compile read_lto_ir
  compile_program-ok programs code b h = ground arith

  locked_compile-IsCompiled :
      (code_of : Bytes → Bytes) (cache : FragmentCache) (programs : ℕ) (key : Bytes)
      → IsCompiled answers opts code_of cache
      → IsCompiled answers opts code_of
          (locked_compile answers opts cache programs key (code_of key)).0.0
  unfolding locked_compile find_fragment
  locked_compile-IsCompiled code_of cache programs key good k b here =
      ground (arith, good k b, text_eq_iff key k, compile_program-ok programs (code_of key) b)

  locked_compile-ok :
      (code_of : Bytes → Bytes) (cache : FragmentCache) (programs : ℕ) (key : Bytes) (f : Fragment)
      → IsCompiled answers opts code_of cache
      → (locked_compile answers opts cache programs key (code_of key)).1 ≡ ok f
      → (f.key ≡ key) × (answers.lto_ir opts (code_of key) ≡ some f.binary)
  unfolding locked_compile
  locked_compile-ok code_of cache programs key f good h =
      ground (arith, good key f.binary, compile_program-ok programs (code_of key) f.binary)

  -- Where each key is for one code, a call keeps every fragment of the cache the LTO IR of its key's
  -- code, and the fragment that it returns is that of its own key, whatever other threads added
  -- between the two lookups.
  pub compile-IsCompiled :
      (code_of : Bytes → Bytes) (seen cache : FragmentCache) (programs : ℕ) (key : Bytes)
      → IsCompiled answers opts code_of seen
      → IsCompiled answers opts code_of cache
      → IsCompiled answers opts code_of
          (compile answers opts seen cache programs key (code_of key)).0.0
        × ((f : Fragment)
            → (compile answers opts seen cache programs key (code_of key)).1 ≡ ok f
            → (f.key ≡ key) × (answers.lto_ir opts (code_of key) ≡ some f.binary))
  unfolding compile
  compile-IsCompiled code_of seen cache programs key good good' =
      elim (Option-cases (find_fragment key seen)) [
        | inr (bytes, e) ↦ rw (e, compile) (good', λ f h. ground (arith, good key bytes e))
        | inl miss ↦
            rw (miss, compile)
              (
                locked_compile-IsCompiled code_of cache programs key good',
                λ f h. locked_compile-ok code_of cache programs key f good' h,
              )
      ]

  -- Where programs can be created and destroyed, a compilation that succeeds or that NVRTC refuses
  -- leaves no program behind; one whose LTO IR cannot be read leaves its program.
  pub compile_program_ends :
      (programs : ℕ) (code : Bytes)
      → answers.destroy_succeeds ≡ true
      → answers.create_succeeds code ≡ true
      → let r = compile_program answers opts programs code in
        ((b : Bytes) × (r ≡ (programs, ok b)))
        ⊎ (((answers.compile_succeeds opts code ≡ false) × (r ≡ (programs, raise logic_error)))
            ⊎ ((answers.lto_ir opts code ≡ none) × (r ≡ (suc programs, raise logic_error))))
  unfolding compile_program failed_compile read_lto_ir
  compile_program_ends programs code destroys creates =
      elim (Option-cases (answers.lto_ir opts code)) [
        | inl missing ↦ ground arith
        | inr (b, e) ↦ elim (Bool-cases (answers.compile_succeeds opts code)) [
          | inl good ↦ inl (b, ground arith)
          | inr bad ↦ inr (inl (bad, ground arith))
        ]
      ]
