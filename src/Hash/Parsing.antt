-- ===== src/Hash/Parsing.antt =====
-- Which texts `parse` accepts, and what it makes of them.
use librtcx.Prelude.{
  ℕ, zero, suc, ◌+◌, ◌*◌, ◌/◌, ◌%◌, ◌<◌, ◌≡◌, refl, ap, ap₂, ◌∙◌, inl, inr, Bool, true, ◌&&◌, [],
  ◌∷◌, ◌++◌, map, none, some, arith, ok, ◌>>=◌, Bytes, length, get_or, All, length-append, ◌==◌,
  ltb, leb, if◌then◌else◌, passes, of_passes, Option-cases,
}
use librtcx.Hash.{
  Hash128, IsHash128, of_bytes, bytes, hex_chars, hex_digits, hex_digit, make, view, to_hex_string,
  from_chars, parse_bytes, parse,
}
use librtcx.Hash.Layout.{IsByte, of_bytes-lt, to_bytes-of_bytes}
use librtcx.Hash.RoundTrip.{view-make, parse_of_parse_bytes}

abbrev pub IsHexDigit : ℕ → Type 0
IsHexDigit c = (d : ℕ) × (hex_digit c ≡ some d)

-- A letter digit in lower case.
abbrev pub lower : ℕ → ℕ
lower c = if leb b'A' c && leb c b'F' then c + 32 else c

abbrev digit_prints : ℕ → Bool
digit_prints c = elim (hex_digit c) [
  | none ↦ true
  | some d ↦ ltb d 16 && get_or hex_chars d 0 == lower c
]

digit_prints_all : passes digit_prints 128 ≡ true
unfolding passes hex_digit
digit_prints_all = refl

hex_digit_ascii : (c d : ℕ) → hex_digit c ≡ some d → c < 128
unfolding hex_digit
hex_digit_ascii c d e = ground arith

hex_digit_lem : (c d : ℕ) → hex_digit c ≡ some d → (d < 16) × (get_or hex_chars d 0 ≡ lower c)
hex_digit_lem c d e =
    ground (arith, hex_digit_ascii c d e, of_passes digit_prints 128 c digit_prints_all)

hex_digit_zero : hex_digit b'0' ≡ some 0
unfolding hex_digit
hex_digit_zero = refl

from_chars_pair :
    (c d x y : ℕ)
    → hex_digit c ≡ some x
    → hex_digit d ≡ some y
    → from_chars (c ∷ d ∷ []) ≡ some (x * 16 + y)
unfolding from_chars
from_chars_pair c d x y ec ed = ground (arith, hex_digit_lem c x ec, hex_digit_lem d y ed)

-- Bytes printed in lower case from a text of digits, and read from it.
parse_bytes_digits :
    (n : ℕ) (hex : Bytes)
    → length hex ≡ 2 * n
    → All IsHexDigit hex
    → (bs : Bytes) × (parse_bytes n hex ≡ ok bs)
      × (length bs ≡ n)
      × All IsByte bs
      × (hex_digits bs ≡ map lower hex)
unfolding parse_bytes hex_digits
parse_bytes_digits zero [] e h = ([], refl, refl, tt, refl)
parse_bytes_digits zero (c ∷ hex) e h = absurd (omega arith)
parse_bytes_digits (suc n) [] e h = absurd (omega arith)
parse_bytes_digits (suc n) (c ∷ []) e h = absurd (omega arith)
parse_bytes_digits (suc n) (c ∷ d ∷ hex) e ((x, ec), ((y, ed), h)) =
    let (bs, read, len, bytes_ok, prints) = parse_bytes_digits n hex (omega arith) h in
    let (cx, cp) = hex_digit_lem c x ec in
    let (dy, dp) = hex_digit_lem d y ed in
    let high : (x * 16 + y) / 16 % 16 ≡ x = omega arith in
    let low : (x * 16 + y) % 16 ≡ y = omega arith in
    (
      (x * 16 + y) ∷ bs,
      rw (from_chars_pair c d x y ec ed, parse_bytes) (rw read),
      omega arith,
      (omega arith, bytes_ok),
      ap₂ ◌∷◌ (ap (λ i. get_or hex_chars i 0) high ∙ cp)
          (ap₂ ◌∷◌ (ap (λ i. get_or hex_chars i 0) low ∙ dp) prints),
    )

-- A text of 32 hexadecimal digits, in either case, is read as a 128-bit hash, and that hash is
-- printed as the same text in lower case.
pub parse_digits :
    (hex : Bytes)
    → length hex ≡ 32
    → All IsHexDigit hex
    → (h : Hash128) × (parse hex ≡ ok h) × IsHash128 h × (view (to_hex_string h) ≡ map lower hex)
unfolding to_hex_string bytes
parse_digits hex len digits =
    let (bs, read, n, bytes_ok, prints) = parse_bytes_digits 16 hex len digits in
    (
      of_bytes bs,
      parse_of_parse_bytes hex bs len read,
      of_bytes-lt 16 bs n bytes_ok,
      ap (λ d. view (make d)) (to_bytes-of_bytes 16 bs n bytes_ok) ∙ view-make bs n ∙ prints,
    )

-- A character that is no digit ends the number that `from_chars` reads.
from_chars_lenient :
    (c d x : ℕ)
    → hex_digit c ≡ some x
    → hex_digit d ≡ none
    → from_chars (c ∷ d ∷ []) ≡ from_chars (b'0' ∷ c ∷ [])
unfolding from_chars
from_chars_lenient c d x ec ed = ground (arith, hex_digit_lem c x ec, hex_digit_zero)

parse_bytes_lenient :
    (n : ℕ) (p r : Bytes) (c d x : ℕ)
    → (k : ℕ) → length p ≡ 2 * k
    → hex_digit c ≡ some x
    → hex_digit d ≡ none
    → parse_bytes n (p ++ c ∷ d ∷ r) ≡ parse_bytes n (p ++ b'0' ∷ c ∷ r)
unfolding parse_bytes
parse_bytes_lenient zero p r c d x k e ec ed = refl
parse_bytes_lenient (suc n) [] r c d x k e ec ed =
    rw (from_chars_lenient c d x ec ed, parse_bytes) refl
parse_bytes_lenient (suc n) (a ∷ []) r c d x k e ec ed = absurd (omega arith)
parse_bytes_lenient (suc n) (a ∷ b ∷ p) r c d x zero e ec ed = absurd (omega arith)
parse_bytes_lenient (suc n) (a ∷ b ∷ p) r c d x (suc k) e ec ed =
    elim (Option-cases (from_chars (a ∷ b ∷ []))) [
      | inl bad ↦ rw (bad, parse_bytes) refl
      | inr (v, good) ↦
          rw (good, parse_bytes)
            (ap (λ r. r >>= λ bs. ok (v ∷ bs))
              (parse_bytes_lenient n p r c d x k (omega arith) ec ed))
    ]

-- A character that is no hexadecimal digit passes unnoticed wherever it stands behind a digit as
-- the second character of a byte: the text is read, or refused, as if the byte were a zero and
-- that digit.
pub parse_lenient :
    (p r : Bytes) (c d x k : ℕ)
    → length p ≡ 2 * k
    → hex_digit c ≡ some x
    → hex_digit d ≡ none
    → parse (p ++ c ∷ d ∷ r) ≡ parse (p ++ b'0' ∷ c ∷ r)
unfolding parse
parse_lenient p r c d x k e ec ed = ground (
  arith,
  parse_bytes_lenient 16 p r c d x k e ec ed,
  length-append p (c ∷ d ∷ r),
  length-append p (b'0' ∷ c ∷ r),
)
