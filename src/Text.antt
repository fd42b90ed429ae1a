-- ===== src/Text.antt =====
-- The text helpers and `decompress_blob` of src/rtcx.cpp.
pub mod Decompress
pub mod Reflect
use librtcx.Prelude.{
  ℕ, ◌+◌, ◌<◌, List, [], ◌∷◌, ◌++◌, Bool, true, false, Option, none, some, Outcome, ok, raise,
  runtime_error, ◌>>◌, expects, Bytes, codes, text_eq, if◌then◌else◌, ◌==◌, ltb, length, drop, ◌||◌,
}

-- The loop of `join_strings`: the separator follows each string but the last.
unfoldable pub join_loop : List Bytes → Bytes → Bytes
join_loop [] separator = []
join_loop (s ∷ []) separator = s
join_loop (s ∷ t ∷ strings) separator = s ++ (separator ++ join_loop (t ∷ strings) separator)

-- `join_strings`; the early returns give what the loop would.
unfoldable pub join_strings : List Bytes → Bytes → Bytes
unfolding join_loop
join_strings [] separator = []
join_strings (s ∷ []) separator = s
join_strings (s ∷ t ∷ strings) separator = join_loop (s ∷ t ∷ strings) separator

-- Both overloads of `reflect_template`.
unfoldable pub reflect_template : Bytes → List Bytes → Bytes
reflect_template template_name template_args =
    template_name ++ (codes "<" ++ (join_strings template_args (codes ", ") ++ codes ">"))

-- What a write into a buffer does: it ends within the buffer, or writes behind its end.
pub data Filled : Type 0 where
  within : Bytes → Filled
  overrun : Filled

-- `std::copy` of bytes to the front of a buffer.
unfoldable pub copy : Bytes → Bytes → Filled
copy bytes buffer =
    if ltb (length buffer) (length bytes)
    then overrun
    else within (bytes ++ drop (length bytes) buffer)

-- `decompress_blob`. `decompress` is what `ZSTD_decompress` writes for a capacity and a source, if
-- it reports no error; the buffer's first contents are whatever its memory held.
unfoldable pub decompress_blob :
    (ℕ → Bytes → Option Bytes) → (ℕ → Bytes) → Bytes → ℕ → Bytes → Outcome Filled
unfolding copy
decompress_blob decompress fresh compressed_binary uncompressed_size compression =
    expects (text_eq compression (codes "none") || text_eq compression (codes "zstd")) runtime_error
    >> (if text_eq compression (codes "zstd")
        then (elim (decompress uncompressed_size compressed_binary) [
          | none ↦ raise runtime_error
          | some out ↦
              if length out == uncompressed_size then ok (within out) else raise runtime_error
        ])
        else ok (copy compressed_binary (fresh uncompressed_size)))
