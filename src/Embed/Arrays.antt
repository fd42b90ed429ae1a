-- ===== src/Embed/Arrays.antt =====
-- `generate_arrays` of include/rtcx/embed.hpp: the constants of an embedded set of files, by name.
pub mod Groups
pub mod Order
pub mod Totality
use librtcx.Prelude.{
  ℕ, zero, suc, ◌+◌, ◌-◌, ◌*◌, ◌^◌, List, [], ◌∷◌, ◌++◌, Bool, true, false, Option, none, some,
  Outcome, ok, raise, abort, runtime_error, bad_variant_access, ◌>>=◌, ◌>>◌, expects, Bytes, codes,
  length, text_eq, if◌then◌else◌, ◌==◌, ltb, leb, ◌&&◌, to_string,
}
use librtcx.Embed.{join_formatted}

-- `value_type`.
pub data ValueType : Type 0 where
  int string : ValueType

-- The two alternatives of `values_t`.
pub data Values : Type 0 where
  strings : List Bytes → Values
  ints : List ℕ → Values

-- `std::isdigit` in the C locale.
abbrev pub is_digit : ℕ → Bool
is_digit c = leb 48 c && leb c 57

-- `get_type`.
unfoldable pub get_type : Bytes → Outcome ValueType
get_type [] = raise runtime_error
get_type (c ∷ value) = ok (if is_digit c then int else string)

-- The number that the digits at the front make, after what they made so far.
unfoldable pub digits_value : ℕ → Bytes → ℕ
digits_value n [] = n
digits_value n (c ∷ s) =
    let rest = digits_value (10 * n + (c - 48)) s in if is_digit c then rest else n

-- `std::from_chars` of a text that begins with a digit: what follows the digits is left, and a number
-- above the largest `std::int64_t` is an error.
unfoldable pub int_from_chars : Bytes → Option ℕ
unfolding digits_value
int_from_chars s = let n = digits_value 0 s in if ltb n (2 ^ 63) then some n else none

-- `operator<` of `std::string_view`.
unfoldable pub text_less : Bytes → Bytes → Bool
text_less [] [] = false
text_less [] (d ∷ t) = true
text_less (c ∷ s) [] = false
text_less (c ∷ s) (d ∷ t) =
    let rest = text_less s t in if ltb c d then true else if c == d then rest else false

-- `std::map`: the entries in the order of their keys.
abbrev pub Arrays : Type 0
Arrays = List (Bytes × Values)

unfoldable pub lookup_array : Bytes → Arrays → Option Values
lookup_array id [] = none
lookup_array id ((key, values) ∷ arrays) =
    let rest = lookup_array id arrays in if text_eq key id then some values else rest

unfoldable pub put_array : Bytes → Values → Arrays → Arrays
unfolding text_less
put_array id v [] = (id, v) ∷ []
put_array id v ((key, values) ∷ arrays) =
    let rest = put_array id v arrays in
    if text_eq key id
    then (id, v) ∷ arrays
    else if text_less id key
    then (id, v) ∷ (key, values) ∷ arrays
    else (key, values) ∷ rest

abbrev pub none_of : ValueType → Values
none_of int = ints []
none_of string = strings []

-- `emplace` of an empty array where the id is new, and `arrays[id]`.
abbrev pub array_of : ValueType → Option Values → Values
array_of type none = none_of type
array_of type (some values) = values

-- The second `switch`: `std::get` throws where the array has the other type.
unfoldable pub pushed : ValueType → Bytes → Values → Outcome Values
unfolding int_from_chars
pushed int value array = elim (int_from_chars value) [
  | none ↦ raise runtime_error
  | some n ↦ elim array [
    | ints ns ↦ ok (ints (ns ++ n ∷ []))
    | strings ss ↦ raise bad_variant_access
  ]
]
pushed string value array = elim array [
  | strings ss ↦ ok (strings (ss ++ value ∷ []))
  | ints ns ↦ raise bad_variant_access
]

-- A round of the loop.
unfoldable pub add_value : Bytes → Bytes → Arrays → Outcome Arrays
unfolding get_type lookup_array put_array pushed
add_value id value arrays = get_type value >>= λ type.
    pushed type value (array_of type (lookup_array id arrays)) >>= λ values.
    ok (put_array id values arrays)

-- The loop over the ids. With fewer values than ids it reads beyond the values: there is no result.
unfoldable pub collect : List Bytes → List Bytes → Arrays → Option (Outcome Arrays)
unfolding add_value
collect [] array_values arrays = some (ok arrays)
collect (id ∷ array_ids) [] arrays = none
collect (id ∷ array_ids) (value ∷ array_values) arrays = elim (add_value id value arrays) [
  | ok arrays' ↦ collect array_ids array_values arrays'
  | raise e ↦ some (raise e)
  | abort ↦ some abort
]

-- The text of an array.
unfoldable pub declaration : Bytes × Values → Bytes
unfolding join_formatted
declaration (id, ints ns) =
    codes "constexpr std::int64_t "
    ++ (id
        ++ (codes "["
            ++ (to_string (length ns)
                ++ (codes "] = { "
                    ++ (join_formatted ns (codes ", ") to_string ++ codes " };\n\n")))))
declaration (id, strings ss) =
    codes "constexpr char const* "
    ++ (id
        ++ (codes "["
            ++ (to_string (length ss)
                ++ (codes "] = { "
                    ++ (join_formatted ss (codes ", ") (λ s. codes "\"" ++ (s ++ codes "\""))
                        ++ codes " };\n\n")))))

unfoldable pub declarations : Arrays → Bytes
unfolding declaration
declarations [] = []
declarations (array ∷ arrays) = declaration array ++ declarations arrays

-- `generate_arrays`.
unfoldable pub generate_arrays : List Bytes → List Bytes → Option (Outcome Bytes)
unfolding collect declarations
generate_arrays array_ids array_values = elim (collect array_ids array_values []) [
  | none ↦ none
  | some o ↦ some (o >>= λ arrays. ok (declarations arrays))
]
