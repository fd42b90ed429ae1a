-- ===== src/Tests/EmbedRuns.antt =====
-- Splitting, and the arrays of embedded constants, on small data.
use librtcx.Prelude.{
  ℕ, zero, suc, ap, length, ◌≡◌, ◌≢◌, ◌↔◌, refl, List, [], ◌∷◌, ◌++◌, some, none, ok, raise, Option,
  map, abort, bad_variant_access, Bytes, codes, arith, text_eq, to_string, digits_from,
  if◌then◌else◌,
}
use librtcx.Embed.{
  SizeRange, merge_from, merge_bytes_with_null_terminators, compress_bytes, find_delimiter,
  split_from, split_string, join_formatted, delimited,
}
use librtcx.Embed.Generate.{
  EmbedOutput, EmbedInput, BuildTools, load_files, generate_cxx_source_files_data, main, binary_of,
  asm_source_text, generate_embed,
}
use librtcx.Embed.Generate.Unpacking.{generate_cxx_source_files_data-slices}
use librtcx.Embed.Generate.Header.{Declares}
use librtcx.Embed.Merge.{slice}
use librtcx.Text.{within, decompress_blob}
use librtcx.Embed.Splitting.{IsSplit, split_string_iff}
use librtcx.Embed.Arrays.{
  ValueType, int, string, Arrays, get_type, int_from_chars, digits_value, text_less, lookup_array,
  put_array, pushed, add_value, collect, declaration, declarations, generate_arrays,
}
use librtcx.Embed.Arrays.Order.{IsAscending}
use librtcx.Embed.Arrays.Groups.{Describes, values_of}
use librtcx.Embed.Arrays.Totality.{AreTyped, generate_arrays_returns}

abbrev semicolon : ℕ
semicolon = 59

split_ends : split_string (codes "a;;b;") semicolon ≡ codes "a" ∷ [] ∷ codes "b" ∷ [] ∷ []
unfolding split_string split_from find_delimiter
split_ends = refl

not_empty : codes "a;b" ≢ []
not_empty e = ground (arith, e)

split_string_iff_example :
    IsSplit semicolon (codes "a;b") (codes "a" ∷ codes "b" ∷ [])
    ↔ (codes "a" ∷ codes "b" ∷ [] ≡ split_string (codes "a;b") semicolon)
split_string_iff_example =
    split_string_iff semicolon (codes "a;b") (codes "a" ∷ codes "b" ∷ []) not_empty

abbrev array_ids : List Bytes
array_ids = codes "n" ∷ codes "a" ∷ codes "n" ∷ []

abbrev array_values : List Bytes
array_values = codes "12" ∷ codes "x" ∷ codes "7up" ∷ []

abbrev type_of : Bytes → ValueType
type_of id = if text_eq id (codes "n") then int else string

-- A number is read up to what follows its digits.
declared :
    generate_arrays array_ids array_values
    ≡ some (
        ok (
          codes "constexpr char const* a[1] = { \"x\" };\n\n"
          ++ codes "constexpr std::int64_t n[2] = { 12, 7 };\n\n"))
unfolding generate_arrays collect add_value get_type int_from_chars digits_value text_less
    lookup_array put_array pushed declaration declarations join_formatted delimited text_eq
    to_string digits_from
declared = refl

mixed :
    generate_arrays (codes "n" ∷ codes "n" ∷ []) (codes "1" ∷ codes "x" ∷ [])
    ≡ some (raise bad_variant_access)
unfolding generate_arrays collect add_value get_type int_from_chars digits_value text_less
    lookup_array put_array pushed text_eq
mixed = refl

values_missing : generate_arrays array_ids (codes "12" ∷ []) ≡ none
unfolding generate_arrays collect add_value get_type int_from_chars digits_value text_less
    lookup_array put_array pushed text_eq
values_missing = refl

typed : AreTyped type_of array_ids array_values
unfolding get_type int_from_chars digits_value text_eq
typed = (refl, λ _. (12, refl), (refl, λ _. (0, refl), (refl, λ _. (7, refl), tt)))

generate_arrays_returns_example :
    (out : Arrays) × (generate_arrays array_ids array_values ≡ some (ok (declarations out)))
    × IsAscending out
    × ((k : Bytes) → Describes (lookup_array k out) (values_of k array_ids array_values))
generate_arrays_returns_example = generate_arrays_returns type_of array_ids array_values typed

-- Each path has itself for its contents; a compression puts one byte in front.
abbrev tools : BuildTools
tools = record {
  load = λ path. ok path;
  compress = λ bytes. some (1 ∷ bytes);
  xxh3 = λ bytes. (1, length bytes);
}

abbrev unpack : ℕ → Bytes → Option Bytes
unpack size [] = none
unpack size (c ∷ bytes) = some bytes

abbrev zeros : ℕ → Bytes
zeros zero = []
zeros (suc n) = 0 ∷ zeros n

length-zeros : (n : ℕ) → length (zeros n) ≡ n
length-zeros zero = refl
length-zeros (suc n) = ap suc (length-zeros n)

abbrev input : EmbedInput
input = record {
  id = codes "e";
  array_ids = array_ids;
  array_values = array_values;
  file_ids = codes "f" ∷ codes "g" ∷ [];
  file_paths = codes "one" ∷ codes "two" ∷ [];
  file_dsts = codes "a" ∷ codes "b" ∷ [];
  include_dirs = codes "i" ∷ [];
  compression = codes "zstd";
}

abbrev binary : Bytes
binary = 1 ∷ (codes "one" ++ 0 ∷ (codes "two" ++ 0 ∷ []))

read_all : load_files tools.load input.file_paths ≡ ok (codes "one" ∷ codes "two" ∷ [])
unfolding load_files
read_all = refl

packed :
    compress_bytes tools.compress
      (merge_bytes_with_null_terminators (codes "one" ∷ codes "two" ∷ [])).0
      (codes "zstd")
    ≡ ok binary
unfolding compress_bytes merge_bytes_with_null_terminators merge_from text_eq
packed = refl

generate_cxx_source_files_data-slices_example :
    (out : EmbedOutput) × (generate_cxx_source_files_data tools input ≡ some (ok out))
    × (merged : Bytes) × (ranges : List SizeRange) × Declares input out.cxx_header ranges
        (length merged)
        (length out.bin_file_data)
    × (decompress_blob unpack zeros out.bin_file_data (length merged) (codes "zstd")
        ≡ ok (within merged))
    × (map (slice merged) ranges ≡ codes "one" ∷ codes "two" ∷ [])
generate_cxx_source_files_data-slices_example =
    generate_cxx_source_files_data-slices tools input unpack zeros (codes "one" ∷ codes "two" ∷ [])
      binary
      (codes "constexpr char const* a[1] = { \"x\" };\n\n"
        ++ codes "constexpr std::int64_t n[2] = { 12, 7 };\n\n")
      (λ b c e. ground (arith, e)) length-zeros read_all packed declared

assembled :
    asm_source_text (codes "e")
    ≡ codes
        "\n.section .rodata\n.global e_files_begin\ne_files_begin:\n.incbin \"e.bin\"\n\n.section .note.GNU-stack,\"\",@progbits\n"
unfolding asm_source_text
assembled = refl

stems :
    elim (main tools
      (codes "e")
      []
      []
      (codes "f")
      (codes "one")
      (codes "a")
      (codes "i;j")
      (codes "none")
      (codes "out")) [
        | none ↦ []
        | some o ↦ elim o [ ok files ↦ map (λ f. f.0) files | raise e ↦ [] | abort ↦ [] ]
      ]
    ≡ codes "out/e.hpp" ∷ codes "out/e.s" ∷ codes "out/e.bin" ∷ []
unfolding main generate_embed generate_cxx_source_files_data load_files binary_of split_string
    split_from find_delimiter generate_arrays collect text_eq
stems = refl
