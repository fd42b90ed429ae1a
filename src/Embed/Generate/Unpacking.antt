-- ===== src/Embed/Generate/Unpacking.antt =====
-- What is embedded is found again in the program.
use librtcx.Prelude.{
  ℕ, ◌≡◌, refl, ◌∙◌, List, map, Option, some, ok, Bytes, codes, length, text_eq, Bool-cases, inl,
  inr,
}
use librtcx.Hash.{Hash128}
use librtcx.Embed.{SizeRange, merge_bytes_with_null_terminators, compress_bytes, compute_embed_hash}
use librtcx.Embed.Arrays.{generate_arrays}
use librtcx.Embed.Merge.{slice, merge_bytes_with_null_terminators-slices}
use librtcx.Embed.Generate.{
  EmbedOutput, EmbedInput, BuildTools, load_files, binary_of, output_of,
  generate_cxx_source_files_data,
}
use librtcx.Embed.Generate.Header.{Declares, cxx_header_text-Declares}
use librtcx.Text.{within, decompress_blob}
use librtcx.Text.Decompress.{decompress_blob-compress_bytes}

-- The binary is what `compress_bytes` gives, for the compression "none" too.
binary_of-compress_bytes :
    (tools : BuildTools) (input : EmbedInput) (merged : Bytes)
    → binary_of tools input merged ≡ compress_bytes tools.compress merged input.compression
unfolding binary_of compress_bytes
binary_of-compress_bytes tools input merged =
    elim (Bool-cases (text_eq input.compression (codes "none"))) [
      | inl e ↦ rw (e) refl
      | inr n ↦ rw (n) refl
    ]

module _ (tools : BuildTools) (input : EmbedInput) where
  abbrev embed_hash : Bytes → Hash128
  embed_hash merged =
      compute_embed_hash tools.xxh3 merged (merge_bytes_with_null_terminators input.file_dsts).0
        (merge_bytes_with_null_terminators input.include_dirs).0 input.compression

  generate_returns :
      (files : List Bytes) (bytes arrays : Bytes)
      → load_files tools.load input.file_paths ≡ ok files
      → binary_of tools input (merge_bytes_with_null_terminators files).0 ≡ ok bytes
      → generate_arrays input.array_ids input.array_values ≡ some (ok arrays)
      → generate_cxx_source_files_data tools input
        ≡ some (ok (output_of tools input files bytes arrays))
  unfolding generate_cxx_source_files_data
  generate_returns files bytes arrays f g h = rw (generate_cxx_source_files_data, f, g, h) refl

  -- Where the files can be read, their merged bytes compressed and the arrays written, the generated
  -- header declares a number of ranges whose initializers read as the ranges of the merged files, the
  -- size of the merged files, and as many bytes as the generated binary has; and `decompress_blob` of the generated
  -- binary with that size gives merged bytes of which the ranges cut out each file, if zstd undoes its
  -- own compression and a buffer has the size that it is made with.
  pub generate_cxx_source_files_data-slices :
      (decompress : ℕ → Bytes → Option Bytes) (fresh : ℕ → Bytes) (files : List Bytes)
      (bytes arrays : Bytes)
      → ((b c : Bytes) → tools.compress b ≡ some c → decompress (length b) c ≡ some b)
      → ((n : ℕ) → length (fresh n) ≡ n)
      → load_files tools.load input.file_paths ≡ ok files
      → compress_bytes tools.compress (merge_bytes_with_null_terminators files).0 input.compression
        ≡ ok bytes
      → generate_arrays input.array_ids input.array_values ≡ some (ok arrays)
      → (out : EmbedOutput) × (generate_cxx_source_files_data tools input ≡ some (ok out))
        × (merged : Bytes) × (ranges : List SizeRange) × Declares input out.cxx_header ranges
            (length merged)
            (length out.bin_file_data)
        × (decompress_blob decompress fresh out.bin_file_data (length merged) input.compression
            ≡ ok (within merged))
        × (map (slice merged) ranges ≡ files)
  unfolding output_of
  generate_cxx_source_files_data-slices decompress fresh files bytes arrays inverse sized f g h =
      let (merged, ranges) = merge_bytes_with_null_terminators files in
      (
        output_of tools input files bytes arrays,
        generate_returns files bytes arrays f (binary_of-compress_bytes tools input merged ∙ g) h,
        merged,
        ranges,
        cxx_header_text-Declares input ranges (length merged) (length bytes) (embed_hash merged)
            arrays,
        decompress_blob-compress_bytes tools.compress decompress fresh merged input.compression
            bytes inverse sized g,
        (merge_bytes_with_null_terminators-slices files).0,
      )
