-- ===== src/Embed/Arrays/Groups.antt =====
-- Each array has the values of its id, in their order.
use librtcx.Prelude.{
  ℕ, ◌≡◌, ◌≢◌, refl, ap, ap₂, sym, ◌∙◌, subst, List, [], ◌∷◌, ◌++◌, map, Option, none, some,
  Outcome, ok, raise, abort, Bytes, All, text_eq, text_eq_iff, if◌then◌else◌, arith, Bool-cases,
  Option-cases, Outcome-cases, inl, inr, All-append,
}
use mathlib.Core.List.{append-nil, append_assoc}
use librtcx.Embed.Arrays.{
  ValueType, int, string, Values, strings, ints, get_type, int_from_chars, Arrays, lookup_array,
  put_array, array_of, pushed, add_value, collect, text_less,
}

-- The values that stand at the places of an id.
unfoldable pub values_of : Bytes → List Bytes → List Bytes → List Bytes
values_of k [] values = []
values_of k (id ∷ ids) [] = []
values_of k (id ∷ ids) (value ∷ values) =
    let rest = values_of k ids values in if text_eq id k then value ∷ rest else rest

-- An array has values of one type, and holds them in their order: texts as they stand, and of the
-- others the numbers.
abbrev pub HasValues : Values → List Bytes → Type 0
HasValues (strings ss) vs = (ss ≡ vs) × All (λ v. get_type v ≡ ok string) vs
HasValues (ints ns) vs = (map some ns ≡ map int_from_chars vs) × All (λ v. get_type v ≡ ok int) vs

-- There is an array, with the values, exactly if there are values.
abbrev pub Describes : Option Values → List Bytes → Type 0
Describes none vs = vs ≡ []
Describes (some array) vs = HasValues array vs × (vs ≢ [])

pub lookup_array-put_array :
    (k id : Bytes) (v : Values) (arrays : Arrays)
    → lookup_array k (put_array id v arrays)
      ≡ (if text_eq id k then some v else lookup_array k arrays)
unfolding lookup_array put_array
lookup_array-put_array k id v [] = refl
lookup_array-put_array k id v ((key, values) ∷ arrays) = elim (Bool-cases (text_eq key id)) [
  | inl e ↦ let same : key ≡ id = (text_eq_iff key id).0 e in grind (arith, e, same)
  | inr n ↦ elim (Bool-cases (text_less id key)) [
    | inl l ↦ rw (put_array, n, l) refl
    | inr g ↦ grind (
      arith,
      n,
      g,
      lookup_array-put_array k id v arrays,
      text_eq_iff key k,
      text_eq_iff id k,
      text_eq_iff key id,
    )
  ]
]

map-append_one :
    {A : Type 0} {B : Type 0} (f : A → B) (xs : List A) (y : A)
    → map f (xs ++ y ∷ []) ≡ map f xs ++ f y ∷ []
map-append_one f [] y = refl
map-append_one f (x ∷ xs) y = ap (◌∷◌ (f x)) (map-append_one f xs y)

ok_injective : (v w : Values) → Path (Outcome Values) (ok v) (ok w) → v ≡ w
ok_injective v w e = ap (λ o. elim o [ ok a ↦ a | raise x ↦ v | abort ↦ v ]) e

pushed_ints :
    (value : Bytes) (ns : List ℕ) (vs : List Bytes) (w : Values)
    → get_type value ≡ ok int
    → HasValues (ints ns) vs
    → pushed int value (ints ns) ≡ ok w
    → HasValues w (vs ++ value ∷ [])
unfolding pushed
pushed_ints value ns vs w g d e = elim (Option-cases (int_from_chars value)) [
  | inl h ↦ absurd (ground (arith, e, h))
  | inr (n, h) ↦
      let made : ints (ns ++ n ∷ []) ≡ w = ok_injective _ _ (sym (rw (pushed, h) refl) ∙ e) in
      subst (λ u. HasValues u (vs ++ value ∷ [])) made
        (
          map-append_one some ns n
              ∙ ap₂ ◌++◌ d.0 (ap (λ o. o ∷ []) (sym h))
              ∙ sym (map-append_one int_from_chars vs value),
          All-append (λ v. get_type v ≡ ok int) vs (value ∷ []) d.1 (g, tt),
        )
]

pushed_strings :
    (value : Bytes) (ss vs : List Bytes) (w : Values)
    → get_type value ≡ ok string
    → HasValues (strings ss) vs
    → pushed string value (strings ss) ≡ ok w
    → HasValues w (vs ++ value ∷ [])
unfolding pushed
pushed_strings value ss vs w g d e =
    subst (λ u. HasValues u (vs ++ value ∷ [])) (ok_injective _ _ e)
      (
        ap (λ l. l ++ value ∷ []) d.0,
        All-append (λ v. get_type v ≡ ok string) vs (value ∷ []) d.1 (g, tt),
      )

pushed-HasValues :
    (t : ValueType) (value : Bytes) (o : Option Values) (vs : List Bytes) (w : Values)
    → get_type value ≡ ok t
    → Describes o vs
    → pushed t value (array_of t o) ≡ ok w
    → HasValues w (vs ++ value ∷ [])
unfolding pushed
pushed-HasValues int value none vs w g d e =
    pushed_ints value [] vs w g
      (ap (map int_from_chars) (sym d), subst (All (λ v. get_type v ≡ ok int)) (sym d) tt) e
pushed-HasValues int value (some (ints ns)) vs w g d e = pushed_ints value ns vs w g d.0 e
pushed-HasValues int value (some (strings ss)) vs w g d e =
    elim (Option-cases (int_from_chars value)) [
      | inl h ↦ absurd (ground (arith, e, h))
      | inr (n, h) ↦ absurd (ground (arith, e, h))
    ]
pushed-HasValues string value none vs w g d e =
    pushed_strings value [] vs w g (sym d, subst (All (λ v. get_type v ≡ ok string)) (sym d) tt) e
pushed-HasValues string value (some (ints ns)) vs w g d e = absurd (ground (arith, e))
pushed-HasValues string value (some (strings ss)) vs w g d e = pushed_strings value ss vs w g d.0 e

append_one-nonempty : {A : Type 0} (xs : List A) (y : A) → xs ++ y ∷ [] ≢ []
append_one-nonempty [] y e = ground (arith, e)
append_one-nonempty (x ∷ xs) y e = ground (arith, e)

pushed-Describes :
    (t : ValueType) (value : Bytes) (o : Option Values) (vs : List Bytes) (w : Values)
    → get_type value ≡ ok t
    → Describes o vs
    → pushed t value (array_of t o) ≡ ok w
    → Describes (some w) (vs ++ value ∷ [])
pushed-Describes t value o vs w g d e =
    (pushed-HasValues t value o vs w g d e, append_one-nonempty vs value)

-- A round that returns puts the array of its id with the value at the end.
pub add_value_returns :
    (id value : Bytes) (arrays out : Arrays)
    → add_value id value arrays ≡ ok out
    → (t : ValueType) × (w : Values) × (get_type value ≡ ok t)
      × (pushed t value (array_of t (lookup_array id arrays)) ≡ ok w)
      × (out ≡ put_array id w arrays)
unfolding add_value
add_value_returns id value arrays out e = elim (Outcome-cases (get_type value)) [
  | inl (t, g) ↦ elim (Outcome-cases (pushed t value (array_of t (lookup_array id arrays)))) [
    | inl (w, h) ↦ (t, w, g, h, ground (arith, e, g, h))
    | inr (inl (x, h)) ↦ absurd (ground (arith, e, g, h))
    | inr (inr h) ↦ absurd (ground (arith, e, g, h))
  ]
  | inr (inl (x, g)) ↦ absurd (ground (arith, e, g))
  | inr (inr g) ↦ absurd (ground (arith, e, g))
]

abbrev pub IsGrouped : (Bytes → List Bytes) → Arrays → Type 0
IsGrouped values arrays = (k : Bytes) → Describes (lookup_array k arrays) (values k)

abbrev with_value : Bytes → Bytes → (Bytes → List Bytes) → Bytes → List Bytes
with_value id value values k = if text_eq id k then values k ++ value ∷ [] else values k

put_array-IsGrouped :
    (id value : Bytes) (w : Values) (arrays : Arrays) (values : Bytes → List Bytes)
    → IsGrouped values arrays
    → Describes (some w) (values id ++ value ∷ [])
    → IsGrouped (with_value id value values) (put_array id w arrays)
put_array-IsGrouped id value w arrays values h d k = elim (Bool-cases (text_eq id k)) [
  | inl e ↦
      let same : id ≡ k = (text_eq_iff id k).0 e in
      rw (lookup_array-put_array k id w arrays, e)
        (subst (λ j. Describes (some w) (values j ++ value ∷ [])) same d)
  | inr n ↦ rw (lookup_array-put_array k id w arrays, n) (h k)
]

values_from :
    (k id value : Bytes) (ids vs : List Bytes) (values : Bytes → List Bytes)
    → with_value id value values k ++ values_of k ids vs
      ≡ values k ++ values_of k (id ∷ ids) (value ∷ vs)
unfolding values_of
values_from k id value ids vs values = elim (Bool-cases (text_eq id k)) [
  | inl e ↦ rw (values_of, e) (append_assoc (values k) (value ∷ []) (values_of k ids vs))
  | inr n ↦ rw (values_of, n) refl
]

pub some_ok_injective :
    (a b : Arrays) → Path (Option (Outcome Arrays)) (some (ok a)) (some (ok b)) → a ≡ b
some_ok_injective a b e =
    ap (λ o. elim o [ none ↦ a | some r ↦ elim r [ ok x ↦ x | raise x ↦ a | abort ↦ a ] ]) e

collect-IsGrouped :
    (ids vs : List Bytes) (arrays out : Arrays) (values : Bytes → List Bytes)
    → IsGrouped values arrays
    → collect ids vs arrays ≡ some (ok out)
    → IsGrouped (λ k. values k ++ values_of k ids vs) out
unfolding collect values_of
collect-IsGrouped [] vs arrays out values h e k =
    subst (λ a. Describes (lookup_array k a) (values k ++ [])) (some_ok_injective _ _ e)
      (subst (Describes (lookup_array k arrays)) (sym (append-nil (values k))) (h k))
collect-IsGrouped (id ∷ ids) [] arrays out values h e k = absurd (ground (arith, e))
collect-IsGrouped (id ∷ ids) (value ∷ vs) arrays out values h e k =
    elim (Outcome-cases (add_value id value arrays)) [
      | inl (arrays', g) ↦
          let (t, w, typed, made, put_there) = add_value_returns id value arrays arrays' g in
          let rest : collect ids vs arrays' ≡ some (ok out) = sym (rw (collect, g) refl) ∙ e in
          let grouped : IsGrouped (with_value id value values) arrays' =
            subst (IsGrouped (with_value id value values)) (sym put_there) (
              put_array-IsGrouped id value w arrays values h (
                pushed-Describes t value (lookup_array id arrays) (values id) w typed (h id)
                  made)) in
          subst (Describes (lookup_array k out)) (values_from k id value ids vs values)
            (collect-IsGrouped ids vs arrays' out (with_value id value values) grouped rest k)
      | inr (inl (x, g)) ↦ absurd (ground (arith, e, g))
      | inr (inr g) ↦ absurd (ground (arith, e, g))
    ]

-- Where the loop of `generate_arrays` returns, each id has an array of the values at its places, in
-- their order and all of one type, and what is no id has none: the texts as they stand, or the numbers
-- that `std::from_chars` reads of them.
pub collect-groups :
    (ids vs : List Bytes) (out : Arrays)
    → collect ids vs [] ≡ some (ok out)
    → (k : Bytes) → Describes (lookup_array k out) (values_of k ids vs)
unfolding lookup_array
collect-groups ids vs out e k = collect-IsGrouped ids vs [] out (λ _. []) (λ _. refl) e k
