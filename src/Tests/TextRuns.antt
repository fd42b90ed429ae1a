-- ===== src/Tests/TextRuns.antt =====
-- Reflected values.
use librtcx.Prelude.{
  ◌≡◌, ◌^◌, arith, none, text_eq, refl, true, some, codes, digits_from, to_string,
}
use librtcx.Text.Reflect.{
  int64, Integer, integer_text, suffix, reflect_integer, reflect_float, reflect_enum,
  read_literal-reflect_integer,
}
use librtcx.Text.Reflect.Literals.{read_integer, literal_type, read_integer-reflect_integer}

abbrev minus_twelve : Integer
minus_twelve = record { is_negative = true; magnitude = 12 }

reflected : reflect_integer int64 minus_twelve ≡ codes "-12LL"
unfolding reflect_integer integer_text suffix to_string digits_from
reflected = refl

reflected_enum : reflect_enum (codes "E") minus_twelve ≡ codes "E{-12}"
unfolding reflect_enum integer_text to_string digits_from
reflected_enum = refl

-- `std::format` writes the number one without a point, so that this is no literal of C++.
reflected_one : reflect_float (codes "1") ≡ codes "1F"
unfolding reflect_float
reflected_one = refl

read_integer-reflect_integer_example :
    read_integer (reflect_integer int64 minus_twelve) ≡ some (int64, minus_twelve)
read_integer-reflect_integer_example =
    read_integer-reflect_integer int64 minus_twelve (omega arith, omega arith)
      (λ e f. ground (arith, f))

abbrev least : Integer
least = record { is_negative = true; magnitude = 2 ^ 63 }

-- The magnitude of the least integer of 64 bits is none of `long long`.
least_unread : read_integer (reflect_integer int64 least) ≡ none
unfolding read_integer literal_type text_eq suffix
least_unread = rw (read_integer, read_literal-reflect_integer int64 least) refl
