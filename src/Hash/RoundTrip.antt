-- ===== src/Hash/RoundTrip.antt =====
-- What `to_hex_string` prints, `parse` reads back.

use librtcx.Prelude.{
  ℕ, zero, suc, ◌*◌, ◌/◌, ◌%◌, ◌<◌, ◌≡◌, refl, ap, ◌∙◌, Bool, true, false, [], ◌∷◌, none, some,
  arith, ok, Bytes, length, get_or, All, ◌==◌, passes, of_passes, take-append_left,
}
use librtcx.Hash.{
  Hash128, IsHash128, of_bytes, bytes, hex_chars, hex_digits, make, view, to_hex_string, hex_digit,
  from_chars, parse_bytes, parse,
}
use librtcx.Hash.Layout.{IsByte, length-to_bytes, to_bytes-IsByte, of_bytes-to_bytes}

abbrev digit_pair : ℕ → Bytes
digit_pair b = get_or hex_chars (b / 16 % 16) 0 ∷ get_or hex_chars (b % 16) 0 ∷ []

abbrev reads : ℕ → Bool
reads b = elim (from_chars (digit_pair b)) [ none ↦ false | some v ↦ v == b ]

reads_all : passes reads 256 ≡ true
unfolding passes from_chars hex_digit
reads_all = refl

from_chars-digit_pair : (b : ℕ) → b < 256 → from_chars (digit_pair b) ≡ some b
from_chars-digit_pair b h = ground (arith, of_passes reads 256 b reads_all h)

pub length-hex_digits : (bs : Bytes) → length (hex_digits bs) ≡ 2 * length bs
unfolding hex_digits
length-hex_digits [] = refl
length-hex_digits (b ∷ bs) = omega (arith, length-hex_digits bs)

pub parse_bytes-hex_digits :
    (n : ℕ) (bs : Bytes) → length bs ≡ n → All IsByte bs → parse_bytes n (hex_digits bs) ≡ ok bs
unfolding hex_digits parse_bytes
parse_bytes-hex_digits zero [] e h = refl
parse_bytes-hex_digits zero (b ∷ bs) e h = absurd (omega arith)
parse_bytes-hex_digits (suc n) [] e h = absurd (omega arith)
parse_bytes-hex_digits (suc n) (b ∷ bs) e h =
    rw (from_chars-digit_pair b h.0, parse_bytes)
      (rw (parse_bytes-hex_digits n bs (omega arith) h.1))

pub view-make : (bs : Bytes) → length bs ≡ 16 → view (make bs) ≡ hex_digits bs
unfolding view make
view-make bs e = take-append_left 32 (hex_digits bs) (0 ∷ []) (omega (arith, length-hex_digits bs))

pub length-bytes : (h : Hash128) → length (bytes h) ≡ 16
unfolding bytes
length-bytes h = length-to_bytes 16 h

pub length-view : (h : Hash128) → length (view (to_hex_string h)) ≡ 32
unfolding to_hex_string
length-view h = omega (
  arith,
  ap length (view-make (bytes h) (length-bytes h)),
  length-hex_digits (bytes h),
  length-bytes h,
)

bytes-IsByte : (h : Hash128) → All IsByte (bytes h)
unfolding bytes
bytes-IsByte h = to_bytes-IsByte 16 h

pub parse_of_parse_bytes :
    (hex bs : Bytes) → length hex ≡ 32 → parse_bytes 16 hex ≡ ok bs → parse hex ≡ ok (of_bytes bs)
unfolding parse
parse_of_parse_bytes hex bs len e = ground arith

-- Every 128-bit hash is read back from the 32 characters that it is printed as.
pub parse-to_hex_string : (h : Hash128) → IsHash128 h → parse (view (to_hex_string h)) ≡ ok h
unfolding to_hex_string bytes
parse-to_hex_string h lt = rw (view-make (bytes h) (length-bytes h)) (
    parse_of_parse_bytes (hex_digits (bytes h)) (bytes h)
      (omega (arith, length-hex_digits (bytes h), length-bytes h))
      (parse_bytes-hex_digits 16 (bytes h) (length-bytes h) (bytes-IsByte h))
    ∙ ap ok (of_bytes-to_bytes 16 h lt))

-- Two hashes that print alike are equal.
pub to_hex_string-injective :
    (h k : Hash128)
    → IsHash128 h
    → IsHash128 k
    → view (to_hex_string h) ≡ view (to_hex_string k)
    → h ≡ k
to_hex_string-injective h k lh lk e =
    cc (parse-to_hex_string h lh, parse-to_hex_string k lk, ap parse e)
