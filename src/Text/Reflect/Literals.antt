-- ===== src/Text/Reflect/Literals.antt =====
-- What the reflected integers are in C++: literals of their value and of a type that holds it.
use librtcx.Prelude.{
  ℕ, ◌≡◌, ◌≢◌, ◌≤◌, ◌<◌, ◌^◌, ◌-◌, Bool, true, false, Option, none, some, Bytes, [], codes, text_eq,
  if◌then◌else◌, ltb, not, ◌&&◌, arith, refl,
}
use librtcx.Text.Reflect.{
  IntegerType, uint8, uint16, uint32, uint64, int8, int16, int32, int64, Integer, suffix,
  reflect_integer, read_literal, read_literal-reflect_integer,
}

-- The types of integers by their sign and width.
abbrev pub is_signed : IntegerType → Bool
is_signed uint8 = false
is_signed uint16 = false
is_signed uint32 = false
is_signed uint64 = false
is_signed int8 = true
is_signed int16 = true
is_signed int32 = true
is_signed int64 = true

abbrev pub width : IntegerType → ℕ
width uint8 = 8
width uint16 = 16
width uint32 = 32
width uint64 = 64
width int8 = 8
width int16 = 16
width int32 = 32
width int64 = 64

-- The integers of a type; there is one zero.
abbrev pub IsValue : IntegerType → Integer → Type 0
IsValue type v =
    if is_signed type
    then (if v.is_negative
        then (0 < v.magnitude) × (v.magnitude ≤ 2 ^ (width type - 1))
        else v.magnitude < 2 ^ (width type - 1))
    else (v.is_negative ≡ false) × (v.magnitude < 2 ^ width type)

-- The first of `int` and `long`, or of `unsigned` and `unsigned long`, that holds the number, where
-- `int` has 32 bits, `long` and `long long` have 64.
abbrev pub least_signed : ℕ → Option IntegerType
least_signed n = if ltb n (2 ^ 31) then some int32 else if ltb n (2 ^ 63) then some int64 else none

abbrev pub least_unsigned : ℕ → Option IntegerType
least_unsigned n =
    if ltb n (2 ^ 32) then some uint32 else if ltb n (2 ^ 64) then some uint64 else none

-- The type of a decimal literal of C++ by its suffix and its number, if it has one.
unfoldable pub literal_type : Bytes → ℕ → Option IntegerType
literal_type suffix n =
    if text_eq suffix []
    then least_signed n
    else if text_eq suffix (codes "U")
    then least_unsigned n
    else if text_eq suffix (codes "LL")
    then (if ltb n (2 ^ 63) then some int64 else none)
    else if text_eq suffix (codes "ULL")
    then (if ltb n (2 ^ 64) then some uint64 else none)
    else none

-- An integer of C++, read as its type and value: a decimal literal, or the negative of one of a
-- signed type.
unfoldable pub read_integer : Bytes → Option (IntegerType × Integer)
read_integer s = elim (read_literal s) [
  | none ↦ none
  | some (v, rest) ↦ elim (literal_type rest v.magnitude) [
    | none ↦ none
    | some type ↦ if v.is_negative && not (is_signed type) then none else some (type, v)
  ]
]

-- A type after the promotion to at least 32 bits, where `U` keeps the small types unsigned.
abbrev pub promoted : IntegerType → IntegerType
promoted type =
    if is_signed type
    then (if ltb 32 (width type) then int64 else int32)
    else (if ltb 32 (width type) then uint64 else uint32)

-- Not the least integer of `int` or `long long`, whose magnitude is no integer of the type.
abbrev pub IsOrdinary : IntegerType → Integer → Type 0
IsOrdinary type v = is_signed type ≡ true → v.magnitude ≢ 2 ^ (width (promoted type) - 1)

suffix-literal_type :
    (type : IntegerType) (v : Integer)
    → IsValue type v
    → IsOrdinary type v
    → literal_type (suffix type) v.magnitude ≡ some (promoted type)
unfolding literal_type suffix text_eq
suffix-literal_type uint8 v value ordinary = ground arith
suffix-literal_type uint16 v value ordinary = ground arith
suffix-literal_type uint32 v value ordinary = ground arith
suffix-literal_type uint64 v value ordinary = ground arith
suffix-literal_type int8 v value ordinary = ground (arith, ordinary refl)
suffix-literal_type int16 v value ordinary = ground (arith, ordinary refl)
suffix-literal_type int32 v value ordinary = ground (arith, ordinary refl)
suffix-literal_type int64 v value ordinary = ground (arith, ordinary refl)

read_integer_lem :
    (s rest : Bytes) (v : Integer) (type : IntegerType)
    → read_literal s ≡ some (v, rest)
    → literal_type rest v.magnitude ≡ some type
    → (v.is_negative && not (is_signed type)) ≡ false
    → read_integer s ≡ some (type, v)
unfolding read_integer
read_integer_lem s rest v type read typed signed =
    rw (read_integer, read) (rw (typed) (rw (signed) refl))

promoted-signed :
    (type : IntegerType) (v : Integer)
    → IsValue type v
    → (v.is_negative && not (is_signed (promoted type))) ≡ false
promoted-signed uint8 v value = ground (arith, value)
promoted-signed uint16 v value = ground (arith, value)
promoted-signed uint32 v value = ground (arith, value)
promoted-signed uint64 v value = ground (arith, value)
promoted-signed int8 v value = ground arith
promoted-signed int16 v value = ground arith
promoted-signed int32 v value = ground arith
promoted-signed int64 v value = ground arith

-- What `reflect` writes for an integer of any of the eight types, but for the least of
-- `std::int32_t` and of `std::int64_t`, is in C++ a decimal literal, or the negative of one, with the
-- integer's value, where `int` has 32 bits, and `long` and `long long` have 64. Its type is of the
-- sign of the integer's, and has 32 bits, or 64 if the integer's has them.
pub read_integer-reflect_integer :
    (type : IntegerType) (value : Integer)
    → IsValue type value
    → IsOrdinary type value
    → read_integer (reflect_integer type value) ≡ some (promoted type, value)
read_integer-reflect_integer type value is ordinary =
    read_integer_lem (reflect_integer type value) (suffix type) value (promoted type)
      (read_literal-reflect_integer type value) (suffix-literal_type type value is ordinary)
      (promoted-signed type value is)
