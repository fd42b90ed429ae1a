-- ===== src/Hash.antt =====
-- include/rtcx/hash.hpp and src/hash.cpp: the 128-bit hash, its hexadecimal form and the parser.
-- A `hash128` is its one field, a number below 2 ^ 128; the machine is little-endian.
-- `from_chars` is `std::from_chars` of the standard library at `std::uint8_t` and base 16.
pub mod Layout
pub mod RoundTrip
pub mod Parsing
use librtcx.Prelude.{
  ℕ, zero, suc, ◌+◌, ◌-◌, ◌*◌, ◌/◌, ◌%◌, ◌^◌, ◌<◌, ◌&&◌, [], ◌∷◌, ◌++◌, Option, none, some, Outcome,
  ok, raise, invalid_argument, ◌>>=◌, Bytes, leb, ltb, ◌==◌, if◌then◌else◌, codes, length, get_or,
  take, drop,
}

-- `struct hash128`.
abbrev pub Hash128 : Type 0
Hash128 = ℕ

abbrev pub IsHash128 : Hash128 → Type 0
IsHash128 h = h < 2 ^ 128

-- The constructor from two 64-bit halves; the shift leaves the low bits 0, so `|` adds.
unfoldable pub of_parts : ℕ → ℕ → Hash128
of_parts high low = high * 2 ^ 64 + low

-- The first bytes of a number, lowest first.
unfoldable pub to_bytes : ℕ → ℕ → Bytes
to_bytes zero v = []
to_bytes (suc n) v = (v % 256) ∷ to_bytes n (v / 256)

-- The number that such bytes stand for.
unfoldable pub of_bytes : Bytes → ℕ
of_bytes [] = 0
of_bytes (b ∷ bs) = b + 256 * of_bytes bs

-- `hash128::data`: the bytes in memory.
unfoldable pub bytes : Hash128 → Bytes
unfolding to_bytes
bytes h = to_bytes 16 h

-- `hash128::size`.
abbrev pub size : ℕ
size = 16

-- `hash128::operator[]`.
unfoldable pub subscript : Hash128 → ℕ → ℕ
unfolding bytes
subscript h index = get_or (bytes h) (15 - index) 0

-- HEX_CHARS.
abbrev pub hex_chars : Bytes
hex_chars = codes "0123456789abcdef"

-- The body of the loop of `make`, over the bytes that are left.
unfoldable pub hex_digits : Bytes → Bytes
hex_digits [] = []
hex_digits (b ∷ bs) = get_or hex_chars (b / 16 % 16) 0 ∷ get_or hex_chars (b % 16) 0 ∷ hex_digits bs

-- `hash128_hex_string::make`: the 33 characters of `data_`, the terminator included.
unfoldable pub make : Bytes → Bytes
unfolding hex_digits
make input = hex_digits input ++ 0 ∷ []

-- `hash128_hex_string::view`: NUM_HEX_DIGITS characters of `data_`.
unfoldable pub view : Bytes → Bytes
view data_ = take 32 data_

-- `hash128::to_hex_string`.
unfoldable pub to_hex_string : Hash128 → Bytes
unfolding make bytes
to_hex_string h = make (bytes h)

unfoldable pub hex_digit : ℕ → Option ℕ
hex_digit c =
    if leb b'0' c && leb c b'9'
    then some (c - b'0')
    else if leb b'a' c && leb c b'f'
    then some (c - b'a' + 10)
    else if leb b'A' c && leb c b'F'
    then some (c - b'A' + 10)
    else none

-- The longest run of digits, added to what was read before.
unfoldable pub read_digits : ℕ → Bytes → ℕ
read_digits acc [] = acc
read_digits acc (c ∷ cs) = elim (hex_digit c) [
  | none ↦ acc
  | some d ↦ read_digits (acc * 16 + d) cs
]

-- `none` is an error code: no digit at the front, or a value that does not fit.
unfoldable pub from_chars : Bytes → Option ℕ
unfolding read_digits
from_chars [] = none
from_chars (c ∷ cs) = elim (hex_digit c) [
  | none ↦ none
  | some d ↦ let v = read_digits d cs in if ltb v 256 then some v else none
]

-- The loop of `parse`: two characters for each byte, over the characters that are left.
unfoldable pub parse_bytes : ℕ → Bytes → Outcome Bytes
unfolding from_chars
parse_bytes zero hex = ok []
parse_bytes (suc n) hex = elim (from_chars (take 2 hex)) [
  | none ↦ raise invalid_argument
  | some b ↦ parse_bytes n (drop 2 hex) >>= λ bs. ok (b ∷ bs)
]

-- `hash128::parse`.
unfoldable pub parse : Bytes → Outcome Hash128
unfolding parse_bytes of_bytes
parse hex =
    if length hex == 32
    then (parse_bytes 16 hex >>= λ bs. ok (of_bytes bs))
    else raise invalid_argument
