-- ===== src/Embed/Generate/Header.antt =====
-- What a C++ compiler reads in the generated header: the sizes, and the ranges of the files.
use librtcx.Prelude.{
  ℕ, zero, suc, ◌≡◌, refl, ap, ◌∙◌, List, [], ◌∷◌, ◌++◌, Option, none, some, Bytes, codes, length,
  ◌==◌, if◌then◌else◌, to_string, take, drop,
}
use mathlib.Core.List.{append_assoc}
use librtcx.Hash.{Hash128}
use librtcx.Embed.{SizeRange, join_formatted, delimited}
use librtcx.Embed.Generate.{EmbedInput, lines, range_text, header_lines, cxx_header_text}
use librtcx.Text.Reflect.{read_decimal, read_decimal-text}

-- The lines stand in the text one after the other.
abbrev pub HasLines : Bytes → List Bytes → Type 0
HasLines text block =
    (before : List Bytes) × (after : List Bytes) × (text ≡ lines (before ++ (block ++ after)))

-- What follows a text at the front of another one.
unfoldable pub strip : Bytes → Bytes → Option Bytes
strip [] t = some t
strip (c ∷ s) [] = none
strip (c ∷ s) (d ∷ t) = let rest = strip s t in if c == d then rest else none

-- The initializer of a range, its offset and its size in braces, and what follows it.
unfoldable pub read_size : ℕ → ℕ × Bytes → Option (SizeRange × Bytes)
unfolding strip
read_size offset (size, t) = elim (strip (codes "}") t) [
  | none ↦ none
  | some rest ↦ some (record { offset = offset; size = size }, rest)
]

unfoldable pub read_offset : ℕ × Bytes → Option (SizeRange × Bytes)
unfolding strip read_size read_decimal
read_offset (offset, t) = elim (strip (codes ", ") t) [
  | none ↦ none
  | some rest ↦ read_size offset (read_decimal 0 rest)
]

unfoldable pub read_range : Bytes → Option (SizeRange × Bytes)
unfolding strip read_offset read_decimal
read_range t = elim (strip (codes "{") t) [
  | none ↦ none
  | some rest ↦ read_offset (read_decimal 0 rest)
]

-- Some ranges, each after a comma and a new line.
unfoldable pub read_delimited : ℕ → Bytes → Option (List SizeRange)
unfolding strip read_range
read_delimited zero [] = some []
read_delimited zero (c ∷ t) = none
read_delimited (suc n) t = elim (strip (codes ",\n") t) [
  | none ↦ none
  | some t' ↦ elim (read_range t') [
    | none ↦ none
    | some (range, rest) ↦ elim (read_delimited n rest) [
      | none ↦ none
      | some ranges ↦ some (range ∷ ranges)
    ]
  ]
]

-- The initializer of an array of some ranges.
unfoldable pub read_ranges : ℕ → Bytes → Option (List SizeRange)
unfolding read_delimited read_range
read_ranges zero t = read_delimited zero t
read_ranges (suc n) t = elim (read_range t) [
  | none ↦ none
  | some (range, rest) ↦ elim (read_delimited n rest) [
    | none ↦ none
    | some ranges ↦ some (range ∷ ranges)
  ]
]

range_text-append :
    (r : SizeRange) (rest : Bytes)
    → range_text r ++ rest
      ≡ codes "{"
        ++ (to_string r.offset ++ (codes ", " ++ (to_string r.size ++ (codes "}" ++ rest))))
unfolding range_text
range_text-append r rest =
    ap (λ t. codes "{" ++ t)
      (append_assoc (to_string r.offset) (codes ", " ++ (to_string r.size ++ codes "}")) rest
        ∙ ap (λ t. to_string r.offset ++ (codes ", " ++ t))
            (append_assoc (to_string r.size) (codes "}") rest))

read_size-text :
    (r : SizeRange) (rest : Bytes)
    → read_size r.offset (read_decimal 0 (to_string r.size ++ (codes "}" ++ rest))) ≡ some (r, rest)
unfolding read_size strip read_decimal
read_size-text r rest = ap (read_size r.offset) (read_decimal-text r.size (codes "}" ++ rest))

read_offset-text :
    (r : SizeRange) (rest : Bytes)
    → read_offset (
        read_decimal 0
          (to_string r.offset ++ (codes ", " ++ (to_string r.size ++ (codes "}" ++ rest)))))
      ≡ some (r, rest)
unfolding read_offset strip read_decimal
read_offset-text r rest =
    ap read_offset
      (read_decimal-text r.offset (codes ", " ++ (to_string r.size ++ (codes "}" ++ rest))))
    ∙ read_size-text r rest

read_range-text :
    (r : SizeRange) (rest : Bytes) → read_range (range_text r ++ rest) ≡ some (r, rest)
unfolding read_range strip
read_range-text r rest = ap read_range (range_text-append r rest) ∙ read_offset-text r rest

read_delimited-ranges :
    (ranges : List SizeRange)
    → read_delimited (length ranges) (delimited ranges (codes ",\n") range_text) ≡ some ranges
unfolding read_delimited delimited strip
read_delimited-ranges [] = refl
read_delimited-ranges (r ∷ ranges) =
    rw
      (
        read_delimited,
        read_range-text r (delimited ranges (codes ",\n") range_text),
        read_delimited-ranges ranges,
      )
      refl

-- What is written of ranges reads as these ranges.
pub read_ranges-text :
    (ranges : List SizeRange)
    → read_ranges (length ranges) (join_formatted ranges (codes ",\n") range_text) ≡ some ranges
unfolding read_ranges join_formatted read_delimited
read_ranges-text [] = refl
read_ranges-text (r ∷ ranges) =
    rw
      (
        read_ranges,
        read_range-text r (delimited ranges (codes ",\n") range_text),
        read_delimited-ranges ranges,
      )
      refl

-- The generated header declares these ranges and sizes.
abbrev pub Declares : EmbedInput → Bytes → List SizeRange → ℕ → ℕ → Type 0
Declares input header ranges uncompressed_size binary_size =
    ((initializer : Bytes) × HasLines header (
        (codes "constexpr std::size_t file_ranges["
          ++ (to_string (length ranges) ++ codes "][2] ="))
        ∷ codes "{"
        ∷ initializer
        ∷ codes "};"
        ∷ [])
      × (read_ranges (length ranges) initializer ≡ some ranges))
    × HasLines header (
        (codes "constexpr std::size_t files_uncompressed_size = "
          ++ (to_string uncompressed_size ++ codes ";"))
        ∷ [])
    × HasLines header (
        codes "static std::span<std::uint8_t const> const files ="
        ∷ codes "{"
        ∷ (input.id ++ codes "_files_begin,")
        ∷ (to_string binary_size ++ codes "L")
        ∷ codes "};"
        ∷ [])

pub cxx_header_text-Declares :
    (input : EmbedInput) (ranges : List SizeRange) (uncompressed_size binary_size : ℕ)
    (hash : Hash128) (arrays : Bytes)
    → Declares input
        (cxx_header_text input ranges uncompressed_size binary_size hash arrays)
        ranges
        uncompressed_size
        binary_size
unfolding cxx_header_text header_lines
cxx_header_text-Declares input ranges uncompressed_size binary_size hash arrays =
    let ls = header_lines input ranges uncompressed_size binary_size hash arrays in
    (
      (
        join_formatted ranges (codes ",\n") range_text,
        (take 29 ls, drop 33 ls, refl),
        read_ranges-text ranges,
      ),
      (take 34 ls, drop 35 ls, refl),
      (take 40 ls, drop 45 ls, refl),
    )
