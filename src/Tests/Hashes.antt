-- ===== src/Tests/Hashes.antt =====
-- src/hash.cpp on concrete hashes.

use librtcx.Prelude.{
  ◌≡◌, refl, [], ◌∷◌, ◌++◌, some, none, Option-cases, inl, inr, Bool, true, false, All, ok, raise,
  invalid_argument, arith, Bytes, codes,
}
use librtcx.Hash.{
  Hash128, of_parts, to_bytes, of_bytes, bytes, subscript, hex_digits, make, view, to_hex_string,
  hex_digit, read_digits, from_chars, parse_bytes, parse,
}
use librtcx.Hash.RoundTrip.{parse-to_hex_string}
use librtcx.Hash.Parsing.{IsHexDigit, parse_lenient}

program : Unit {0}
unfolding of_parts to_bytes of_bytes bytes subscript hex_digits make view to_hex_string hex_digit
    read_digits from_chars parse_bytes parse
program = tt

-- The low byte is printed first.
abbrev sample : Hash128
sample = 0x0123456789abcdef0011223344556677

abbrev printed : Bytes
printed = codes "7766554433221100efcdab8967452301"

to_hex_string-sample : view (to_hex_string sample) ≡ printed
unfolding program
to_hex_string-sample = refl

of_parts-sample : of_parts 0x0123456789abcdef 0x0011223344556677 ≡ sample
unfolding program
of_parts-sample = refl

subscript-sample : subscript sample 0 ≡ 1
unfolding program
subscript-sample = refl

parse-sample : parse printed ≡ ok sample
unfolding program
parse-sample = refl

parse-short : parse (codes "77") ≡ raise invalid_argument
unfolding program
parse-short = refl

parse-bad : parse (codes "g766554433221100efcdab8967452301") ≡ raise invalid_argument
unfolding program
parse-bad = refl

-- The second character of the first byte is no digit, and is passed over.
parse-half_bad :
    parse (codes "7g66554433221100efcdab8967452301")
    ≡ parse (codes "0766554433221100efcdab8967452301")
unfolding program
parse-half_bad = refl

parse-to_hex_string_example : parse (view (to_hex_string sample)) ≡ ok sample
parse-to_hex_string_example = parse-to_hex_string sample (omega arith)

parse_lenient_example :
    parse (codes "77" ++ b'6' ∷ b'-' ∷ codes "554433221100efcdab8967452301")
    ≡ parse (codes "77" ++ b'0' ∷ b'6' ∷ codes "554433221100efcdab8967452301")
unfolding program
parse_lenient_example =
    parse_lenient (codes "77") (codes "554433221100efcdab8967452301") b'6' b'-' 6 1 refl refl refl

all_digits : Bytes → Bool
all_digits [] = true
all_digits (c ∷ s) = elim (hex_digit c) [ none ↦ false | some _ ↦ all_digits s ]

all_digits-IsHexDigit : (s : Bytes) → all_digits s ≡ true → All IsHexDigit s
unfolding all_digits
all_digits-IsHexDigit [] h = tt
all_digits-IsHexDigit (c ∷ s) h = elim (Option-cases (hex_digit c)) [
  | inl none' ↦ absurd (ground arith)
  | inr (d, e) ↦ ((d, e), all_digits-IsHexDigit s (ground arith))
]

abbrev mixed : Bytes
mixed = codes "7766554433221100EFcdAB8967452301"

mixed_digits : All IsHexDigit mixed
unfolding program all_digits
mixed_digits = all_digits-IsHexDigit mixed refl
