-- ===== src/Embed/Generate.antt =====
-- `generate_cxx_source_files_data` and `generate_embed` of include/rtcx/embed.hpp, and the program
-- of cmake/modules/embed/embed.in.cpp that calls them.
pub mod Header
pub mod Unpacking
use librtcx.Prelude.{
  ℕ, zero, suc, ◌+◌, List, [], ◌∷◌, ◌++◌, map, Bool, true, false, not, Option, none, some, Outcome,
  ok, raise, abort, ◌>>=◌, Bytes, codes, length, text_eq, if◌then◌else◌, to_string,
}
use librtcx.Hash.{Hash128, size, subscript, hex_digits}
use librtcx.Embed.{
  SizeRange, merge_bytes_with_null_terminators, compress_bytes, compute_embed_hash, join_formatted,
  split_string,
}
use librtcx.Embed.Arrays.{generate_arrays}

-- `embed_output`.
pub record EmbedOutput : Type 0 where
  pub cxx_header : Bytes
  pub asm_source : Bytes
  pub bin_file_data : Bytes

-- What is embedded: the arguments of `generate_cxx_source_files_data`.
pub record EmbedInput : Type 0 where
  pub id : Bytes
  pub array_ids : List Bytes
  pub array_values : List Bytes
  pub file_ids : List Bytes
  pub file_paths : List Bytes
  pub file_dsts : List Bytes
  pub include_dirs : List Bytes
  pub compression : Bytes

-- What the build gives: the bytes of a file (`load_file_bytes`), zstd and xxHash.
pub record BuildTools : Type 0 where
  pub load : Bytes → Outcome Bytes
  pub compress : Bytes → Option Bytes
  pub xxh3 : Bytes → ℕ × ℕ

unfoldable pub load_files : (Bytes → Outcome Bytes) → List Bytes → Outcome (List Bytes)
load_files load [] = ok []
load_files load (path ∷ paths) =
    load path >>= λ bytes. load_files load paths >>= λ rest. ok (bytes ∷ rest)

abbrev pub quoted : Bytes → Bytes
quoted s = codes "\"" ++ (s ++ codes "\"")

-- The indices of the ids from a number on, each as a constant.
unfoldable pub index_constants : ℕ → List Bytes → List Bytes
index_constants i [] = []
index_constants i (id ∷ ids) =
    (codes "constexpr std::size_t " ++ (id ++ (codes " = " ++ (to_string i ++ codes "ULL;"))))
    ∷ index_constants (suc i) ids

unfoldable pub range_text : SizeRange → Bytes
range_text r = codes "{" ++ (to_string r.offset ++ (codes ", " ++ (to_string r.size ++ codes "}")))

unfoldable pub byte_text : ℕ → Bytes
unfolding hex_digits
byte_text b = codes "0x" ++ hex_digits (b ∷ [])

-- The bytes of a hash by their subscripts.
unfoldable pub hash_bytes : ℕ → Hash128 → List ℕ
unfolding subscript
hash_bytes zero hash = []
hash_bytes (suc n) hash = hash_bytes n hash ++ subscript hash n ∷ []

abbrev pub lines : List Bytes → Bytes
lines [] = []
lines (l ∷ ls) = l ++ 10 ∷ lines ls

-- The lines of the generated header, over the ranges and the size of the merged files, the size of the binary, the
-- hash and the arrays.
unfoldable pub header_lines : EmbedInput → List SizeRange → ℕ → ℕ → Hash128 → Bytes → List Bytes
unfolding join_formatted index_constants range_text byte_text hash_bytes
header_lines input file_ranges uncompressed_size binary_size hash arrays_list =
    []
    ∷ codes "// Auto-generated header for embedded files"
    ∷ codes "#pragma once"
    ∷ []
    ∷ codes "#include <cstdint>"
    ∷ codes "#include <cstddef>"
    ∷ codes "#include <span>"
    ∷ codes "#include <string_view>"
    ∷ []
    ∷ (codes "namespace " ++ (input.id ++ codes " {"))
    ∷ []
    ∷ []
    ∷ (codes "constexpr char const * include_directories["
        ++ (to_string (length input.include_dirs) ++ codes "] ="))
    ∷ codes "{"
    ∷ join_formatted input.include_dirs (codes ",\n") quoted
    ∷ codes "};"
    ∷ []
    ∷ join_formatted (index_constants 0 input.file_ids) (codes "\n") (λ l. l)
    ∷ []
    ∷ (codes "constexpr char const * file_ids["
        ++ (to_string (length input.file_ids) ++ codes "] ="))
    ∷ codes "{"
    ∷ join_formatted input.file_ids (codes ",\n") quoted
    ∷ codes "};"
    ∷ []
    ∷ (codes "constexpr char const * file_destinations["
        ++ (to_string (length input.file_dsts) ++ codes "] ="))
    ∷ codes "{"
    ∷ join_formatted input.file_dsts (codes ",\n") quoted
    ∷ codes "};"
    ∷ []
    ∷ (codes "constexpr std::size_t file_ranges["
        ++ (to_string (length file_ranges) ++ codes "][2] ="))
    ∷ codes "{"
    ∷ join_formatted file_ranges (codes ",\n") range_text
    ∷ codes "};"
    ∷ []
    ∷ (codes "constexpr std::size_t files_uncompressed_size = "
        ++ (to_string uncompressed_size ++ codes ";"))
    ∷ []
    ∷ (codes "constexpr char const * files_compression = "
        ++ (quoted input.compression ++ codes ";"))
    ∷ []
    ∷ (codes "extern \"C\" std::uint8_t const " ++ (input.id ++ codes "_files_begin[];"))
    ∷ []
    ∷ codes "static std::span<std::uint8_t const> const files ="
    ∷ codes "{"
    ∷ (input.id ++ codes "_files_begin,")
    ∷ (to_string binary_size ++ codes "L")
    ∷ codes "};"
    ∷ []
    ∷ (codes "constexpr std::uint8_t hash[" ++ (to_string size ++ codes "] ="))
    ∷ codes "{"
    ∷ join_formatted (hash_bytes size hash) (codes ", ") byte_text
    ∷ codes "};"
    ∷ []
    ∷ arrays_list
    ∷ []
    ∷ codes "}"
    ∷ []

-- The generated header.
unfoldable pub cxx_header_text : EmbedInput → List SizeRange → ℕ → ℕ → Hash128 → Bytes → Bytes
unfolding header_lines
cxx_header_text input file_ranges uncompressed_size binary_size hash arrays_list =
    lines (header_lines input file_ranges uncompressed_size binary_size hash arrays_list)

-- The generated assembly.
unfoldable pub asm_source_text : Bytes → Bytes
asm_source_text id = lines (
    []
    ∷ codes ".section .rodata"
    ∷ (codes ".global " ++ (id ++ codes "_files_begin"))
    ∷ (id ++ codes "_files_begin:")
    ∷ (codes ".incbin \"" ++ (id ++ codes ".bin\""))
    ∷ []
    ∷ codes ".section .note.GNU-stack,\"\",@progbits"
    ∷ [])

-- The binary: the merged files, compressed unless the compression is "none".
unfoldable pub binary_of : BuildTools → EmbedInput → Bytes → Outcome Bytes
unfolding compress_bytes
binary_of tools input merged =
    if text_eq input.compression (codes "none")
    then ok merged
    else compress_bytes tools.compress merged input.compression

-- The output for the contents of the files, their binary and the arrays.
unfoldable pub output_of : BuildTools → EmbedInput → List Bytes → Bytes → Bytes → EmbedOutput
unfolding merge_bytes_with_null_terminators compute_embed_hash cxx_header_text asm_source_text
output_of tools input file_bytes bytes arrays_list =
    let (merged, ranges) = merge_bytes_with_null_terminators file_bytes in
    let (dests, _) = merge_bytes_with_null_terminators input.file_dsts in
    let (dirs, _) = merge_bytes_with_null_terminators input.include_dirs in
    let hash = compute_embed_hash tools.xxh3 merged dests dirs input.compression in
    record {
      cxx_header = cxx_header_text input ranges (length merged) (length bytes) hash arrays_list;
      asm_source = asm_source_text input.id;
      bin_file_data = bytes;
    }

-- `generate_cxx_source_files_data`: `none` where `generate_arrays` has no result.
unfoldable pub generate_cxx_source_files_data :
    BuildTools → EmbedInput → Option (Outcome EmbedOutput)
unfolding load_files binary_of output_of merge_bytes_with_null_terminators generate_arrays
generate_cxx_source_files_data tools input = elim (load_files tools.load input.file_paths) [
  | raise e ↦ some (raise e)
  | abort ↦ some abort
  | ok file_bytes ↦ elim (binary_of tools input (merge_bytes_with_null_terminators file_bytes).0) [
    | raise e ↦ some (raise e)
    | abort ↦ some abort
    | ok bytes ↦ elim (generate_arrays input.array_ids input.array_values) [
      | none ↦ none
      | some arrays ↦
          some (arrays >>= λ arrays_list. ok (output_of tools input file_bytes bytes arrays_list))
    ]
  ]
]

-- `generate_embed`: the files that it writes, with their contents.
unfoldable pub generate_embed :
    BuildTools → EmbedInput → Bytes → Option (Outcome (List (Bytes × Bytes)))
unfolding generate_cxx_source_files_data
generate_embed tools input output_directory = elim (generate_cxx_source_files_data tools input) [
  | none ↦ none
  | some o ↦ some (
      o >>= λ output.
      let stem = output_directory ++ (codes "/" ++ input.id) in
      ok (
        (stem ++ codes ".hpp", output.cxx_header)
        ∷ (stem ++ codes ".s", output.asm_source)
        ∷ (stem ++ codes ".bin", output.bin_file_data)
        ∷ []))
]

-- `main`, over the texts that CMake puts in its place.
unfoldable pub main :
    BuildTools
    → (id array_ids array_values file_ids file_paths file_dests include_directories compression
        output_dir : Bytes)
    → Option (Outcome (List (Bytes × Bytes)))
unfolding generate_embed split_string
main tools id array_ids array_values file_ids file_paths file_dests include_directories compression
      output_dir =
    generate_embed tools
      (record {
        id = id;
        array_ids = split_string array_ids 59;
        array_values = split_string array_values 59;
        file_ids = split_string file_ids 59;
        file_paths = split_string file_paths 59;
        file_dsts = split_string file_dests 59;
        include_dirs = split_string include_directories 59;
        compression = compression;
      })
      output_dir
