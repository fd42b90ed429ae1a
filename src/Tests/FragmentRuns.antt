-- ===== src/Tests/FragmentRuns.antt =====
-- The fragment compiler on a compiler that puts one byte in front of the code.
use librtcx.Prelude.{
  ◌≡◌, refl, ◌⊎◌, [], ◌∷◌, true, false, some, none, ok, raise, logic_error, Bytes, codes, text_eq,
  to_string, digits_from, arith,
}
use librtcx.Planner.{Fragment}
use librtcx.Nvrtc.{
  NvrtcAnswers, find_fragment, compile_program, failed_compile, read_lto_ir, locked_compile,
  compile, standard_compile_opts,
}
use librtcx.Nvrtc.Compile.{IsCompiled, compile-IsCompiled, compile_program_ends}

program : Unit {0}
unfolding compile locked_compile compile_program read_lto_ir failed_compile find_fragment
    standard_compile_opts to_string digits_from text_eq
program = tt

abbrev answers : NvrtcAnswers
answers = record {
  create_succeeds = λ code. true;
  compile_succeeds = λ opts code. true;
  destroy_succeeds = true;
  lto_ir = λ opts code. some (1 ∷ code);
}

abbrev unreadable : NvrtcAnswers
unreadable = record answers { lto_ir = λ opts code. none }

abbrev code_of : Bytes → Bytes
code_of key = 2 ∷ key

opts-nine :
    standard_compile_opts (some (9, 0))
    ≡ ok (
        codes "-arch=sm_90"
        ∷ codes "-dlto"
        ∷ codes "-rdc=true"
        ∷ codes "--std=c++20"
        ∷ codes "-default-device"
        ∷ [])
unfolding program
opts-nine = refl

-- A key that is there gives its bytes, whatever the code.
compile-hit :
    compile answers [] [] ((codes "k", codes "old") ∷ []) 0 (codes "k") (codes "new")
    ≡ (((codes "k", codes "old") ∷ [], 0), ok (record { key = codes "k"; binary = codes "old" }))
unfolding program
compile-hit = refl

compile-IsCompiled_example :
    IsCompiled answers [] code_of (compile answers [] [] [] 0 (codes "k") (code_of (codes "k"))).0.0
    × ((f : Fragment)
        → (compile answers [] [] [] 0 (codes "k") (code_of (codes "k"))).1 ≡ ok f
        → (f.key ≡ codes "k") × (answers.lto_ir [] (code_of (codes "k")) ≡ some f.binary))
unfolding program
compile-IsCompiled_example =
    compile-IsCompiled answers [] code_of [] [] 0 (codes "k") (λ k b h. absurd (ground arith))
      (λ k b h. absurd (ground arith))

compile_program_ends_example :
    let r = compile_program unreadable [] 0 (codes "c") in
    ((b : Bytes) × (r ≡ (0, ok b)))
    ⊎ (((true ≡ false) × (r ≡ (0, raise logic_error)))
        ⊎ ((unreadable.lto_ir [] (codes "c") ≡ none) × (r ≡ (1, raise logic_error))))
compile_program_ends_example = compile_program_ends unreadable [] 0 (codes "c") refl refl
