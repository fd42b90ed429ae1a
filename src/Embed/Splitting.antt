-- ===== src/Embed/Splitting.antt =====
-- `split_string` of include/rtcx/embed.hpp, and that joining undoes it and is undone by it.
use librtcx.Prelude.{
  ℕ, zero, suc, ◌+◌, ◌-◌, ◌≤◌, ◌<◌, ◌≡◌, ◌≢◌, ◌↔◌, refl, ap, ap₂, subst, sym, ◌∙◌, List, [], ◌∷◌,
  ◌++◌, true, Option, none, some, Bytes, All, length, take, drop, leb, arith, Option-cases, inl,
  inr, length-drop, take-append_left, drop-append_left,
}
use mathlib.Core.List.{tail-eq_of_cons-eq}
use mathlib.Core.Option.{some-injective}
use librtcx.Embed.{find_delimiter, split_from, split_string}
use librtcx.Embed.Tokens.{
  joined, IsFree, find_delimiter-some, find_delimiter-none, find_delimiter-append, find_free,
  drop-drop, joined-cons, joined_one,
}

-- The tokens that a text is split into: one or more, without the delimiter, and the text is they
-- joined.
abbrev pub IsSplit : ℕ → Bytes → List Bytes → Type 0
IsSplit delimiter s tokens =
    ((t : Bytes) × (ts : List Bytes) × (tokens ≡ t ∷ ts))
    × (joined delimiter tokens ≡ s)
    × All (IsFree delimiter) tokens

split_from-last :
    (fuel delimiter : ℕ) (str : Bytes) (start : ℕ)
    → start ≤ length str
    → find_delimiter delimiter (drop start str) ≡ none
    → split_from (suc fuel) delimiter str start ≡ drop start str ∷ []
unfolding split_from
split_from-last fuel delimiter str start le h =
    let in_range : leb start (length str) ≡ true = ground (arith, le) in
    rw (split_from, in_range, h) refl

split_from-more :
    (fuel delimiter : ℕ) (str : Bytes) (start p : ℕ)
    → start ≤ length str
    → find_delimiter delimiter (drop start str) ≡ some p
    → split_from (suc fuel) delimiter str start
      ≡ take p (drop start str) ∷ split_from fuel delimiter str (suc (start + p))
unfolding split_from
split_from-more fuel delimiter str start p le h =
    let in_range : leb start (length str) ≡ true = ground (arith, le) in
    rw (split_from, in_range, h) refl

split_from-IsSplit :
    (fuel delimiter : ℕ) (str : Bytes) (start : ℕ)
    → start ≤ length str
    → length str - start < fuel
    → IsSplit delimiter (drop start str) (split_from fuel delimiter str start)
split_from-IsSplit zero delimiter str start le lt = absurd (omega (arith, lt))
split_from-IsSplit (suc fuel) delimiter str start le lt =
    elim (Option-cases (find_delimiter delimiter (drop start str))) [
      | inl h ↦
          subst (IsSplit delimiter (drop start str))
            (sym (split_from-last fuel delimiter str start le h))
            (
              (drop start str, [], refl),
              joined_one delimiter (drop start str),
              (find_delimiter-none delimiter (drop start str) h, tt),
            )
      | inr (p, h) ↦
          let (cut, free, less) = find_delimiter-some delimiter p (drop start str) h in
          let (some_token, whole, all_free) =
            split_from-IsSplit fuel delimiter str (suc (start + p))
              (omega (arith, less, le, length-drop start str))
              (omega (arith, less, le, lt, length-drop start str)) in
          let next : suc (start + p) ≡ start + suc p = omega arith in
          subst (IsSplit delimiter (drop start str))
            (sym (split_from-more fuel delimiter str start p le h))
            (
              (take p (drop start str), split_from fuel delimiter str (suc (start + p)), refl),
              joined-cons delimiter (take p (drop start str)) _ some_token.0 some_token.1
                    some_token.2
                  ∙ ap (λ w. take p (drop start str) ++ delimiter ∷ w)
                      (whole ∙ ap (λ n. drop n str) next ∙ sym (drop-drop (suc p) start str))
                  ∙ sym cut,
              (free, all_free),
            )
    ]

-- A text that is not empty is split into one or more tokens, none with the delimiter in it, and is
-- they joined by it; the loop ends within a round for each byte and one more.
split_string-IsSplit :
    (str : Bytes) (delimiter : ℕ) → str ≢ [] → IsSplit delimiter str (split_string str delimiter)
unfolding split_string
split_string-IsSplit [] delimiter n = absurd (n refl)
split_string-IsSplit (c ∷ str) delimiter n =
    split_from-IsSplit (suc (suc (length str))) delimiter (c ∷ str) 0 (omega arith) (omega arith)

find_joined_one :
    (delimiter : ℕ) (t : Bytes)
    → IsFree delimiter t
    → find_delimiter delimiter (joined delimiter (t ∷ [])) ≡ none
find_joined_one delimiter t f =
    ap (find_delimiter delimiter) (joined_one delimiter t) ∙ find_free delimiter t f

find_joined_more :
    (delimiter : ℕ) (t u : Bytes) (us : List Bytes)
    → IsFree delimiter t
    → find_delimiter delimiter (joined delimiter (t ∷ u ∷ us)) ≡ some (length t)
find_joined_more delimiter t u us f =
    ap (find_delimiter delimiter) (joined-cons delimiter t (u ∷ us) u us refl)
    ∙ find_delimiter-append delimiter t (joined delimiter (u ∷ us)) f

none_not_some : (n : ℕ) → ¬ Path (Option ℕ) none (some n)
none_not_some n e = ground (arith, e)

-- Two lists of one or more tokens without the delimiter are equal if they are when joined.
joined_injective :
    (delimiter : ℕ) (t u : Bytes) (ts us : List Bytes)
    → All (IsFree delimiter) (t ∷ ts)
    → All (IsFree delimiter) (u ∷ us)
    → joined delimiter (t ∷ ts) ≡ joined delimiter (u ∷ us)
    → t ∷ ts ≡ u ∷ us
joined_injective delimiter t u [] [] ft fu e =
    ap (λ w. w ∷ []) (sym (joined_one delimiter t) ∙ e ∙ joined_one delimiter u)
joined_injective delimiter t u [] (u' ∷ us) ft fu e = absurd (
    none_not_some _ (
      sym (find_joined_one delimiter t ft.0)
      ∙ ap (find_delimiter delimiter) e
      ∙ find_joined_more delimiter u u' us fu.0))
joined_injective delimiter t u (t' ∷ ts) [] ft fu e = absurd (
    none_not_some _ (
      sym (find_joined_one delimiter u fu.0)
      ∙ ap (find_delimiter delimiter) (sym e)
      ∙ find_joined_more delimiter t t' ts ft.0))
joined_injective delimiter t u (t' ∷ ts) (u' ∷ us) ft fu e =
    let lengths : length t ≡ length u = some-injective _ _ (
      sym (find_joined_more delimiter t t' ts ft.0)
      ∙ ap (find_delimiter delimiter) e
      ∙ find_joined_more delimiter u u' us fu.0) in
    let both =
      sym (joined-cons delimiter t (t' ∷ ts) t' ts refl)
      ∙ e
      ∙ joined-cons delimiter u (u' ∷ us) u' us refl in
    let first : t ≡ u =
      sym (take-append_left (length t) t (delimiter ∷ joined delimiter (t' ∷ ts)) refl)
      ∙ ap (take (length t)) both
      ∙ take-append_left (length t) u (delimiter ∷ joined delimiter (u' ∷ us)) (sym lengths) in
    let rest : joined delimiter (t' ∷ ts) ≡ joined delimiter (u' ∷ us) = tail-eq_of_cons-eq (
      sym (drop-append_left (length t) t (delimiter ∷ joined delimiter (t' ∷ ts)) refl)
      ∙ ap (drop (length t)) both
      ∙ drop-append_left (length t) u (delimiter ∷ joined delimiter (u' ∷ us)) (sym lengths)) in
    ap₂ ◌∷◌ first (joined_injective delimiter t' u' ts us ft.1 fu.1 rest)

only_split :
    (delimiter : ℕ) (str : Bytes) (ts us : List Bytes)
    → IsSplit delimiter str ts
    → IsSplit delimiter str us
    → ts ≡ us
only_split delimiter str ts us ((t, ts', e), whole, free) ((u, us', d), whole', free') =
    e
    ∙ joined_injective delimiter t u ts' us' (subst (All (IsFree delimiter)) e free)
        (subst (All (IsFree delimiter)) d free')
        (ap (joined delimiter) (sym e) ∙ whole ∙ sym whole' ∙ ap (joined delimiter) d)
    ∙ sym d

-- `split_string` gives, of a text that is not empty, the one list of one or more tokens without the
-- delimiter that make the text when they are joined by it.
pub split_string_iff :
    (delimiter : ℕ) (str : Bytes) (tokens : List Bytes)
    → str ≢ []
    → IsSplit delimiter str tokens ↔ (tokens ≡ split_string str delimiter)
split_string_iff delimiter str tokens n =
    let found = split_string-IsSplit str delimiter n in
    (
      λ h. only_split delimiter str tokens (split_string str delimiter) h found,
      λ e. subst (IsSplit delimiter str) (sym e) found,
    )
