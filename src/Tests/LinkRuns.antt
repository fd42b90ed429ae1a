-- ===== src/Tests/LinkRuns.antt =====
-- Planners, embedded files and decompression on small data.
use librtcx.Prelude.{
  ℕ, ◌≡◌, refl, List, [], ◌∷◌, ◌++◌, map, true, false, Option, some, none, ok, Bytes, codes, arith,
  zero, suc, length, text_eq, to_string, digits_from,
}
use librtcx.Planner.{
  Fragment, AlgorithmPlanner, AlgorithmLauncher, LinkAnswers, Resources, Launchers, get_launcher,
  build, link, load, link_and_load, link_options, add_fragments, add_to, complete, create,
  locked_launcher, find_launcher, get_fragments_key,
}
use librtcx.Planner.Sharing.{get_launcher_shares}
use librtcx.Planner.Build.{AreTaken, linker, build-ok}
use librtcx.Embed.{
  merge_from, merge_bytes_with_null_terminators, compress_bytes, delimited, join_formatted,
}
use librtcx.Text.{within, decompress_blob, join_strings, join_loop, reflect_template, copy}
use librtcx.Text.Decompress.{decompress_blob-compress_bytes}

program : Unit {0}
unfolding get_launcher build link load link_and_load link_options add_fragments add_to complete
    locked_launcher find_launcher get_fragments_key merge_from merge_bytes_with_null_terminators
    compress_bytes delimited join_formatted join_strings join_loop reflect_template text_eq
    to_string digits_from decompress_blob copy
program = tt

abbrev fragment : Bytes → Fragment
fragment key = record { key = key; binary = codes "lto" }

abbrev planner : Bytes → List Bytes → AlgorithmPlanner
planner entrypoint keys = record {
  entrypoint = entrypoint;
  fragments = map fragment keys;
  linktime_extra_options = codes "-O3" ∷ [];
}

abbrev answers : LinkAnswers
answers = record {
  capability = some (9, 0);
  create_succeeds = λ opts. true;
  add_succeeds = λ handle f. true;
  complete_succeeds = λ handle. true;
  cubin = λ handle. some (codes "cubin");
  destroy_succeeds = true;
  load = λ cubin. some 3;
  kernel = λ library name. some (length name);
}

abbrev refused : LinkAnswers
refused = record answers { complete_succeeds = λ handle. false }

abbrev nothing_open : Resources
nothing_open = record { link_handles = 0; libraries = [] }

abbrev launcher : AlgorithmLauncher
launcher = record { kernel = 4; library = 3 }

abbrev joined : AlgorithmPlanner
joined = planner (codes "main") (codes "ab" ∷ codes "c" ∷ [])

-- Other fragments, whose keys join to the same text.
abbrev split : AlgorithmPlanner
split = planner (codes "other") (codes "a" ∷ codes "bc" ∷ [])

options :
    link_options (9, 0) (codes "-O3" ∷ []) ≡ codes "-lto" ∷ codes "-arch=sm_90" ∷ codes "-O3" ∷ []
unfolding program
options = refl

reflect : reflect_template (codes "f") (codes "int" ∷ codes "3" ∷ []) ≡ codes "f<int, 3>"
unfolding program
reflect = refl

build-ok_example :
    ((build answers joined nothing_open).0.link_handles ≡ 0)
    × ((build answers joined nothing_open).0.libraries ≡ 3 ∷ [])
    × (answers.kernel 3 (codes "main") ≡ some 4)
    × ((c : ℕ × ℕ) × (cubin : Bytes) × (some (9, 0) ≡ some c)
        × AreTaken answers.add_succeeds
            (create (link_options c (codes "-O3" ∷ [])))
            joined.fragments
        × (answers.complete_succeeds (linker answers joined c false) ≡ true)
        × (answers.cubin (linker answers joined c true) ≡ some cubin)
        × (answers.load cubin ≡ some 3))
unfolding program
build-ok_example = build-ok answers joined nothing_open launcher refl

abbrev after : Launchers
after = (get_launcher answers joined [] [] nothing_open).0.0

get_launcher_shares_example :
    get_launcher refused split [] after nothing_open ≡ ((after, nothing_open), ok launcher)
unfolding program
get_launcher_shares_example =
    get_launcher_shares answers refused joined split [] [] [] after nothing_open nothing_open
      launcher refl (λ k l h. h) refl (λ k l h. h) (λ k l h. absurd (ground arith))

abbrev files : List Bytes
files = codes "one" ∷ [] ∷ codes "three" ∷ []

merge :
    (merge_bytes_with_null_terminators files).0 ≡ codes "one" ++ (0 ∷ 0 ∷ codes "three") ++ 0 ∷ []
unfolding program
merge = refl

-- A compression that puts one byte in front.
abbrev pack : Bytes → Option Bytes
pack bytes = some (1 ∷ bytes)

abbrev unpack : ℕ → Bytes → Option Bytes
unpack size [] = none
unpack size (c ∷ bytes) = some bytes

abbrev zeros : ℕ → Bytes
zeros zero = []
zeros (suc n) = 0 ∷ zeros n

length-zeros : (n : ℕ) → length (zeros n) ≡ n
length-zeros zero = refl
length-zeros (suc n) = omega (arith, length-zeros n)

decompress_blob-compress_bytes_example :
    decompress_blob unpack zeros (1 ∷ codes "data") (length (codes "data")) (codes "zstd")
    ≡ ok (within (codes "data"))
unfolding program
decompress_blob-compress_bytes_example =
    decompress_blob-compress_bytes pack unpack zeros (codes "data") (codes "zstd")
      (1 ∷ codes "data") (λ b c e. ground arith) length-zeros refl
