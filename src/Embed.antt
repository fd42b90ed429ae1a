-- ===== src/Embed.antt =====
-- include/rtcx/embed.hpp: the bytes, the hash and the arrays of an embedded set of files.
pub mod Merge
pub mod Tokens
pub mod Splitting
pub mod Arrays
pub mod Generate
use librtcx.Prelude.{
  ℕ, zero, suc, ◌+◌, ◌-◌, ◌*◌, ◌/◌, ◌%◌, ◌^◌, List, [], ◌∷◌, ◌++◌, map, Bool, true, false, Option,
  none, some, Outcome, ok, raise, runtime_error, ◌>>◌, ◌>>=◌, expects, Bytes, codes, text_eq,
  if◌then◌else◌, ◌==◌, ltb, leb, length, take, drop, ◌||◌, ◌&&◌,
}
use librtcx.Hash.{Hash128, of_parts}

-- `size_range`.
pub record SizeRange : Type 0 where
  pub offset : ℕ
  pub size : ℕ

-- The loop of `merge_bytes_with_null_terminators`, from what is merged so far.
unfoldable pub merge_from : Bytes → List Bytes → Bytes × List SizeRange
merge_from merged [] = (merged, [])
merge_from merged (byte_data ∷ bytes_lists) =
    let (all, ranges) = merge_from (merged ++ (byte_data ++ 0 ∷ [])) bytes_lists in
    (all, record { offset = length merged; size = length byte_data } ∷ ranges)

-- `merge_bytes_with_null_terminators`.
unfoldable pub merge_bytes_with_null_terminators : List Bytes → Bytes × List SizeRange
unfolding merge_from
merge_bytes_with_null_terminators bytes_lists = merge_from [] bytes_lists

-- `load_file_bytes`, over whether the file opens, its size can be told, and what is read.
unfoldable pub load_file_bytes : Bool → Bool → Option Bytes → Outcome Bytes
load_file_bytes is_open has_size content =
    expects is_open runtime_error
    >> (expects has_size runtime_error
        >> (elim content [ none ↦ raise runtime_error | some bytes ↦ ok bytes ]))

-- `compress_bytes`; `compress` is `ZSTD_compress` at level 22, if it reports no error.
unfoldable pub compress_bytes : (Bytes → Option Bytes) → Bytes → Bytes → Outcome Bytes
compress_bytes compress bytes compression =
    expects (text_eq compression (codes "none") || text_eq compression (codes "zstd")) runtime_error
    >> (if text_eq compression (codes "none")
        then ok bytes
        else elim (compress bytes) [ none ↦ raise runtime_error | some compressed ↦ ok compressed ])

-- `compute_embed_hash`. `xxh3` is the digest of all updates: the high and the low 64 bits of the
-- hash of their bytes one after another.
unfoldable pub compute_embed_hash : (Bytes → ℕ × ℕ) → Bytes → Bytes → Bytes → Bytes → Hash128
compute_embed_hash xxh3 uncompressed_files_bytes merged_dests_bytes merged_include_dirs_bytes
      compression =
    let (high, low) = xxh3 (
      uncompressed_files_bytes
      ++ (merged_dests_bytes ++ (merged_include_dirs_bytes ++ compression))) in
    of_parts high low

-- `join_formatted`, from the second item on each after a delimiter.
unfoldable pub delimited {ℓ} : {A : Type ℓ} → List A → Bytes → (A → Bytes) → Bytes
delimited [] delimiter formatter = []
delimited (x ∷ items) delimiter formatter =
    delimiter ++ (formatter x ++ delimited items delimiter formatter)

unfoldable pub join_formatted {ℓ} : {A : Type ℓ} → List A → Bytes → (A → Bytes) → Bytes
unfolding delimited
join_formatted [] delimiter formatter = []
join_formatted (x ∷ items) delimiter formatter = formatter x ++ delimited items delimiter formatter

-- `find` of a byte: its first position.
unfoldable pub find_delimiter : ℕ → Bytes → Option ℕ
find_delimiter c [] = none
find_delimiter c (d ∷ s) =
    let rest = find_delimiter c s in
    if d == c then some 0 else elim rest [ none ↦ none | some p ↦ some (suc p) ]

-- The loop of `split_string` from `start` on: each round but the last moves `start` forward.
unfoldable pub split_from : ℕ → ℕ → Bytes → ℕ → List Bytes
unfolding find_delimiter
split_from zero delimiter str start = []
split_from (suc fuel) delimiter str start = elim (leb start (length str)) [
  | false ↦ []
  | true ↦ elim (find_delimiter delimiter (drop start str)) [
    | none ↦ drop start str ∷ []
    | some p ↦ take p (drop start str) ∷ split_from fuel delimiter str (suc (start + p))
  ]
]

-- `split_string`: one round for each byte and one more are enough.
unfoldable pub split_string : Bytes → ℕ → List Bytes
unfolding split_from
split_string [] delimiter = []
split_string (c ∷ str) delimiter = split_from (suc (suc (length str))) delimiter (c ∷ str) 0
