-- ===== src/Embed/Arrays/Order.antt =====
-- The arrays stand in the strict order of their ids, as in a `std::map`: there are no two of one id.
use librtcx.Prelude.{
  ◌≡◌, refl, sym, ◌∙◌, subst, List, [], ◌∷◌, true, false, some, ok, Bytes, All, All-mono, text_eq,
  text_eq_iff, arith, Bool-cases, Outcome-cases, inl, inr,
}
use librtcx.Embed.Arrays.{Values, text_less, Arrays, put_array, add_value, collect}
use librtcx.Embed.Arrays.Groups.{add_value_returns, some_ok_injective}

pub text_less_trans :
    (s t u : Bytes) → text_less s t ≡ true → text_less t u ≡ true → text_less s u ≡ true
unfolding text_less
text_less_trans [] [] [] a b = a
text_less_trans [] (d ∷ t) [] a b = b
text_less_trans [] t (e ∷ u) a b = refl
text_less_trans (c ∷ s) [] u a b = absurd (ground (arith, a))
text_less_trans (c ∷ s) (d ∷ t) [] a b = absurd (ground (arith, b))
text_less_trans (c ∷ s) (d ∷ t) (e ∷ u) a b = ground (arith, a, b, text_less_trans s t u)

-- Of two different texts that are not in order the second is less.
text_less_total : (s t : Bytes) → text_eq s t ≡ false → text_less t s ≡ false → text_less s t ≡ true
unfolding text_less text_eq
text_less_total [] [] n g = ground (arith, n)
text_less_total [] (d ∷ t) n g = refl
text_less_total (c ∷ s) [] n g = ground (arith, g)
text_less_total (c ∷ s) (d ∷ t) n g = ground (arith, n, g, text_less_total s t)

-- A text is less than the ids of all the arrays.
abbrev pub IsBelow : Bytes → Arrays → Type 0
IsBelow id arrays = All (λ (a : Bytes × Values). text_less id a.0 ≡ true) arrays

abbrev pub IsAscending : Arrays → Type 0
IsAscending [] = Unit
IsAscending ((id, values) ∷ arrays) = IsBelow id arrays × IsAscending arrays

put_array-IsBelow :
    (k id : Bytes) (w : Values) (arrays : Arrays)
    → text_less k id ≡ true
    → IsBelow k arrays
    → IsBelow k (put_array id w arrays)
unfolding put_array
put_array-IsBelow k id w [] l h = (l, tt)
put_array-IsBelow k id w ((key, values) ∷ arrays) l (first, h) =
    elim (Bool-cases (text_eq key id)) [
      | inl e ↦ rw (put_array, e) (l, h)
      | inr n ↦ elim (Bool-cases (text_less id key)) [
        | inl g ↦ rw (put_array, n, g) (l, (first, h))
        | inr g ↦ rw (put_array, n, g) (first, put_array-IsBelow k id w arrays l h)
      ]
    ]

put_array-IsAscending :
    (id : Bytes) (w : Values) (arrays : Arrays)
    → IsAscending arrays
    → IsAscending (put_array id w arrays)
unfolding put_array
put_array-IsAscending id w [] a = (tt, tt)
put_array-IsAscending id w ((key, values) ∷ arrays) (h, a) = elim (Bool-cases (text_eq key id)) [
  | inl e ↦ rw (put_array, e) (subst (λ k. IsBelow k arrays) ((text_eq_iff key id).0 e) h, a)
  | inr n ↦ elim (Bool-cases (text_less id key)) [
    | inl g ↦
        let below : IsBelow id arrays =
          All-mono (λ b. text_less key b.0 ≡ true) (λ b. text_less id b.0 ≡ true) arrays
            (λ b l. text_less_trans id key b.0 g l) h in
        rw (put_array, n, g) ((g, below), (h, a))
    | inr g ↦
        rw (put_array, n, g)
          (
            put_array-IsBelow key id w arrays (text_less_total key id n g) h,
            put_array-IsAscending id w arrays a,
          )
  ]
]

pub collect-IsAscending :
    (ids vs : List Bytes) (arrays out : Arrays)
    → IsAscending arrays
    → collect ids vs arrays ≡ some (ok out)
    → IsAscending out
unfolding collect
collect-IsAscending [] vs arrays out a e = subst IsAscending (some_ok_injective _ _ e) a
collect-IsAscending (id ∷ ids) [] arrays out a e = absurd (ground (arith, e))
collect-IsAscending (id ∷ ids) (value ∷ vs) arrays out a e =
    elim (Outcome-cases (add_value id value arrays)) [
      | inl (arrays', g) ↦
          let (t, w, typed, made, put_there) = add_value_returns id value arrays arrays' g in
          collect-IsAscending ids vs arrays' out
            (subst IsAscending (sym put_there) (put_array-IsAscending id w arrays a))
            (sym (rw (collect, g) refl) ∙ e)
      | inr (inl (x, g)) ↦ absurd (ground (arith, e, g))
      | inr (inr g) ↦ absurd (ground (arith, e, g))
    ]
