-- ===== src/Embed/Arrays/Totality.antt =====
-- When the loop of `generate_arrays` returns.
use librtcx.Prelude.{
  ℕ, ◌≡◌, refl, subst, List, [], ◌∷◌, ◌++◌, Option, none, some, ok, Bytes, text_eq, text_eq_iff,
  Bool-cases, inl, inr,
}
use librtcx.Embed.Arrays.{
  ValueType, int, string, Values, strings, ints, get_type, int_from_chars, Arrays, lookup_array,
  put_array, array_of, pushed, add_value, collect, generate_arrays, declarations,
}
use librtcx.Embed.Arrays.Order.{IsAscending, collect-IsAscending}
use librtcx.Embed.Arrays.Groups.{lookup_array-put_array, Describes, values_of, collect-groups}

-- There is a value for each id, of the type that the id has, and a number is one that fits.
abbrev pub AreTyped : (Bytes → ValueType) → List Bytes → List Bytes → Type 0
AreTyped type_of [] vs = Unit
AreTyped type_of (id ∷ ids) [] = ⊥
AreTyped type_of (id ∷ ids) (value ∷ vs) =
    (get_type value ≡ ok (type_of id))
    × (type_of id ≡ int → (n : ℕ) × (int_from_chars value ≡ some n))
    × AreTyped type_of ids vs

abbrev pub Agrees : ValueType → Option Values → Type 0
Agrees t none = Unit
Agrees int (some (ints ns)) = Unit
Agrees int (some (strings ss)) = ⊥
Agrees string (some (ints ns)) = ⊥
Agrees string (some (strings ss)) = Unit

pushed_returns :
    (t : ValueType) (value : Bytes) (o : Option Values)
    → (t ≡ int → (n : ℕ) × (int_from_chars value ≡ some n))
    → Agrees t o
    → (w : Values) × (pushed t value (array_of t o) ≡ ok w) × Agrees t (some w)
unfolding pushed
pushed_returns int value none p a = let (n, h) = p refl in (ints (n ∷ []), rw (pushed, h) refl, tt)
pushed_returns int value (some (ints ns)) p a =
    let (n, h) = p refl in (ints (ns ++ n ∷ []), rw (pushed, h) refl, tt)
pushed_returns int value (some (strings ss)) p a = absurd a
pushed_returns string value none p a = (strings (value ∷ []), refl, tt)
pushed_returns string value (some (ints ns)) p a = absurd a
pushed_returns string value (some (strings ss)) p a = (strings (ss ++ value ∷ []), refl, tt)

add_value_made :
    (id value : Bytes) (arrays : Arrays) (t : ValueType) (w : Values)
    → get_type value ≡ ok t
    → pushed t value (array_of t (lookup_array id arrays)) ≡ ok w
    → add_value id value arrays ≡ ok (put_array id w arrays)
unfolding add_value
add_value_made id value arrays t w g h = rw (add_value, g, h) refl

put_array-Agrees :
    (type_of : Bytes → ValueType) (id : Bytes) (w : Values) (arrays : Arrays)
    → ((k : Bytes) → Agrees (type_of k) (lookup_array k arrays))
    → Agrees (type_of id) (some w)
    → (k : Bytes) → Agrees (type_of k) (lookup_array k (put_array id w arrays))
put_array-Agrees type_of id w arrays h a k = elim (Bool-cases (text_eq id k)) [
  | inl e ↦
      rw (lookup_array-put_array k id w arrays, e)
        (subst (λ j. Agrees (type_of j) (some w)) ((text_eq_iff id k).0 e) a)
  | inr n ↦ rw (lookup_array-put_array k id w arrays, n) (h k)
]

collect_goes_on :
    (type_of : Bytes → ValueType) (ids vs : List Bytes) (arrays : Arrays)
    → AreTyped type_of ids vs
    → ((k : Bytes) → Agrees (type_of k) (lookup_array k arrays))
    → (out : Arrays) × (collect ids vs arrays ≡ some (ok out))
unfolding collect
collect_goes_on type_of [] vs arrays t h = (arrays, refl)
collect_goes_on type_of (id ∷ ids) [] arrays t h = absurd t
collect_goes_on type_of (id ∷ ids) (value ∷ vs) arrays t h =
    let (w, made, agrees) = pushed_returns (type_of id) value (lookup_array id arrays) t.1 (h id) in
    let (out, e) =
      collect_goes_on type_of ids vs (put_array id w arrays) t.2
        (put_array-Agrees type_of id w arrays h agrees) in
    (out, rw (collect, add_value_made id value arrays (type_of id) w t.0 made) e)

-- With a value for each id, all values of an id numbers that fit in 63 bits or all of them texts that
-- are not empty and begin with no digit, `generate_arrays` returns the declarations of arrays, which
-- stand in the order of their ids, each id less than all that follow. An id has an array, with the
-- values at its places in their order, as they stand or the numbers that `std::from_chars` reads of
-- them, and what has no such places has none.
pub generate_arrays_returns :
    (type_of : Bytes → ValueType) (ids vs : List Bytes)
    → AreTyped type_of ids vs
    → (out : Arrays) × (generate_arrays ids vs ≡ some (ok (declarations out)))
      × IsAscending out
      × ((k : Bytes) → Describes (lookup_array k out) (values_of k ids vs))
unfolding lookup_array generate_arrays
generate_arrays_returns type_of ids vs t =
    let (out, e) = collect_goes_on type_of ids vs [] t (λ k. tt) in
    (
      out,
      rw (generate_arrays, e) refl,
      collect-IsAscending ids vs [] out tt e,
      collect-groups ids vs out e,
    )
