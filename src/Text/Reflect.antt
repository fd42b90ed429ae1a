-- ===== src/Text/Reflect.antt =====
-- `reflect` and `reflect_enum` of include/rtcx/rtcx.hpp: values as they stand in CUDA code.
pub mod Literals
use librtcx.Prelude.{
  ℕ, zero, suc, ◌+◌, ◌-◌, ◌*◌, ◌/◌, ◌%◌, ◌≤◌, ◌<◌, ◌≡◌, refl, ap, ◌∙◌, [], ◌∷◌, ◌++◌, Bool, true,
  false, Option, none, some, Bytes, codes, if◌then◌else◌, ◌==◌, ltb, leb, ◌&&◌, arith, to_string,
  digits_from, Bool-cases, inl, inr,
}
use mathlib.Core.List.{append_assoc}

pub data IntegerType : Type 0 where
  uint8 uint16 uint32 uint64 int8 int16 int32 int64 : IntegerType

-- An integer by its sign and its magnitude, which IsValue of Text.Reflect.Literals bounds by the type.
pub record Integer : Type 0 where
  pub is_negative : Bool
  pub magnitude : ℕ

-- `std::format("{}", value)`.
unfoldable pub integer_text : Integer → Bytes
unfolding to_string
integer_text v = if v.is_negative then 45 ∷ to_string v.magnitude else to_string v.magnitude

unfoldable pub suffix : IntegerType → Bytes
suffix uint8 = codes "U"
suffix uint16 = codes "U"
suffix uint32 = codes "U"
suffix uint64 = codes "ULL"
suffix int8 = []
suffix int16 = []
suffix int32 = []
suffix int64 = codes "LL"

-- `reflect` of an integer, of a truth value, and of a number in floating point, for which the text
-- of `std::format` is an argument.
unfoldable pub reflect_integer : IntegerType → Integer → Bytes
unfolding integer_text suffix
reflect_integer type value = integer_text value ++ suffix type

unfoldable pub reflect_bool : Bool → Bytes
reflect_bool true = codes "true"
reflect_bool false = codes "false"

unfoldable pub reflect_float : Bytes → Bytes
reflect_float text = text ++ codes "F"

-- `reflect_enum`, of the value of the underlying type.
unfoldable pub reflect_enum : Bytes → Integer → Bytes
unfolding integer_text
reflect_enum type value = type ++ (codes "{" ++ (integer_text value ++ codes "}"))

abbrev pub is_digit : ℕ → Bool
is_digit c = leb 48 c && leb c 57

-- The number that the digits at the front make after a first part, and what follows them.
unfoldable pub read_decimal : ℕ → Bytes → ℕ × Bytes
read_decimal n [] = (n, [])
read_decimal n (c ∷ s) =
    let rest = read_decimal (10 * n + (c - 48)) s in if is_digit c then rest else (n, c ∷ s)

-- The sign and the digits at the front of a text, and what follows them.
unfoldable pub read_literal : Bytes → Option (Integer × Bytes)
unfolding read_decimal
read_literal [] = none
read_literal (c ∷ s) =
    if c == 45
    then some
        (record { is_negative = true; magnitude = (read_decimal 0 s).0 }, (read_decimal 0 s).1)
    else some (
      record { is_negative = false; magnitude = (read_decimal 0 (c ∷ s)).0 },
      (read_decimal 0 (c ∷ s)).1,
    )

read_decimal-digit :
    (m d : ℕ) (rest : Bytes)
    → d < 10
    → read_decimal m ((48 + d) ∷ rest) ≡ read_decimal (10 * m + d) rest
unfolding read_decimal
read_decimal-digit m d rest lt =
    let digit : is_digit (48 + d) ≡ true = ground (arith, lt) in
    let value : 10 * m + (48 + d - 48) ≡ 10 * m + d = omega arith in
    rw (read_decimal, digit) (ap (λ k. read_decimal k rest) value)

read_decimal-digits_from :
    (fuel n : ℕ) (rest : Bytes)
    → n < fuel
    → read_decimal 0 (digits_from fuel n ++ rest) ≡ read_decimal n rest
unfolding digits_from
read_decimal-digits_from zero n rest lt = absurd (omega (arith, lt))
read_decimal-digits_from (suc fuel) n rest lt = elim (Bool-cases (ltb n 10)) [
  | inl e ↦
      let small : n < 10 = ground (arith, e) in
      let value : 10 * 0 + n ≡ n = omega arith in
      rw (digits_from, e) (read_decimal-digit 0 n rest small ∙ ap (λ k. read_decimal k rest) value)
  | inr e ↦
      let large : 10 ≤ n = ground (arith, e) in
      let value : 10 * (n / 10) + n % 10 ≡ n = omega arith in
      rw (digits_from, e)
        (ap (read_decimal 0) (append_assoc (digits_from fuel (n / 10)) ((48 + n % 10) ∷ []) rest)
          ∙ read_decimal-digits_from fuel (n / 10) ((48 + n % 10) ∷ rest) (omega (arith, large, lt))
          ∙ read_decimal-digit (n / 10) (n % 10) rest (omega arith)
          ∙ ap (λ k. read_decimal k rest) value)
]

digits_from-first :
    (fuel n : ℕ) → (c : ℕ) × (s : Bytes) × (digits_from (suc fuel) n ≡ c ∷ s) × ((c == 45) ≡ false)
unfolding digits_from
digits_from-first zero n = elim (Bool-cases (ltb n 10)) [
  | inl e ↦ (48 + n, [], rw (digits_from, e) refl, ground arith)
  | inr e ↦ (48 + n % 10, [], rw (digits_from, e) refl, ground arith)
]
digits_from-first (suc fuel) n = elim (Bool-cases (ltb n 10)) [
  | inl e ↦ (48 + n, [], rw (digits_from, e) refl, ground arith)
  | inr e ↦
      let (c, s, front, first) = digits_from-first fuel (n / 10) in
      (
        c,
        s ++ (48 + n % 10) ∷ [],
        rw (digits_from, e) (ap (λ t. t ++ (48 + n % 10) ∷ []) front),
        first,
      )
]

-- The digits of a number in front of a text.
pub read_decimal-text :
    (n : ℕ) (rest : Bytes) → read_decimal 0 (to_string n ++ rest) ≡ read_decimal n rest
unfolding to_string
read_decimal-text n rest = read_decimal-digits_from (suc n) n rest (omega arith)

read_decimal-suffix : (n : ℕ) (type : IntegerType) → read_decimal n (suffix type) ≡ (n, suffix type)
unfolding read_decimal suffix
read_decimal-suffix n uint8 = refl
read_decimal-suffix n uint16 = refl
read_decimal-suffix n uint32 = refl
read_decimal-suffix n uint64 = refl
read_decimal-suffix n int8 = refl
read_decimal-suffix n int16 = refl
read_decimal-suffix n int32 = refl
read_decimal-suffix n int64 = refl

read_decimal-to_string :
    (n : ℕ) (type : IntegerType) → read_decimal 0 (to_string n ++ suffix type) ≡ (n, suffix type)
unfolding to_string
read_decimal-to_string n type = read_decimal-text n (suffix type) ∙ read_decimal-suffix n type

to_string_lem : (n : ℕ) → to_string n ≡ digits_from (suc n) n
unfolding to_string
to_string_lem n = refl

read_literal_unsigned :
    (t r : Bytes) (c : ℕ) (s : Bytes)
    → t ≡ c ∷ s
    → (c == 45) ≡ false
    → read_literal (t ++ r)
      ≡ some (
        record { is_negative = false; magnitude = (read_decimal 0 (t ++ r)).0 },
        (read_decimal 0 (t ++ r)).1,
      )
unfolding read_literal
read_literal_unsigned t r c s e f = rw (e, read_literal, f) refl

read_sign :
    (type : IntegerType) (is_negative : Bool) (n : ℕ)
    → read_literal (reflect_integer type (record { is_negative = is_negative; magnitude = n }))
      ≡ some (record { is_negative = is_negative; magnitude = n }, suffix type)
unfolding reflect_integer integer_text read_literal
read_sign type true n =
    ap (λ d. some (record { is_negative = true; magnitude = d.0 }, d.1))
      (read_decimal-to_string n type)
read_sign type false n =
    let (c, s, e, f) = digits_from-first n n in
    read_literal_unsigned (to_string n) (suffix type) c s (to_string_lem n ∙ e) f
    ∙ ap (λ d. some (record { is_negative = false; magnitude = d.0 }, d.1))
        (read_decimal-to_string n type)

-- What `reflect` writes for an integer of any of the eight types reads as a literal with the sign
-- and the magnitude of the integer, and then the suffix of the type.
pub read_literal-reflect_integer :
    (type : IntegerType) (value : Integer)
    → read_literal (reflect_integer type value) ≡ some (value, suffix type)
read_literal-reflect_integer type value = read_sign type value.is_negative value.magnitude
