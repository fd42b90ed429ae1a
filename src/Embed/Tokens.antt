-- ===== src/Embed/Tokens.antt =====
-- The first position of a byte in a text, and texts joined by a byte.
use librtcx.Prelude.{
  ℕ, zero, suc, ◌+◌, ◌<◌, ◌≡◌, ◌≢◌, refl, ap, sym, ◌∙◌, List, [], ◌∷◌, ◌++◌, none, some, Bytes, All,
  length, take, drop, ◌==◌, arith, Bool-cases, Option-cases, inl, inr, ==_iff,
}
use mathlib.Core.List.{append-nil}
use librtcx.Embed.{join_formatted, delimited, find_delimiter}

-- The tokens with a delimiter between each two.
abbrev pub joined : ℕ → List Bytes → Bytes
joined delimiter tokens = join_formatted tokens (delimiter ∷ []) (λ t. t)

abbrev pub IsFree : ℕ → Bytes → Type 0
IsFree delimiter t = All (λ c. c ≢ delimiter) t

pub find_delimiter-some :
    (c p : ℕ) (s : Bytes)
    → find_delimiter c s ≡ some p
    → (s ≡ take p s ++ c ∷ drop (suc p) s) × IsFree c (take p s) × (p < length s)
unfolding find_delimiter
find_delimiter-some c p [] e = ground arith
find_delimiter-some c p (d ∷ s) e = elim (Bool-cases (d == c)) [
  | inl h ↦
      let first : p ≡ 0 = ground (arith, e, h) in
      rw (first) (ap (λ w. w ∷ s) ((==_iff d c).0 h), tt, omega arith)
  | inr n ↦ elim (Option-cases (find_delimiter c s)) [
    | inl h ↦ absurd (ground (arith, e, n, h))
    | inr (q, h) ↦
        let later : p ≡ suc q = ground (arith, e, n, h) in
        let (cut, free, lt) = find_delimiter-some c q s h in
        rw (later) (ap (◌∷◌ d) cut, (λ i. ground (arith, n), free), omega (arith, lt))
  ]
]

pub find_delimiter-none : (c : ℕ) (s : Bytes) → find_delimiter c s ≡ none → IsFree c s
unfolding find_delimiter
find_delimiter-none c [] e = tt
find_delimiter-none c (d ∷ s) e = ground (arith, find_delimiter-none c s)

pub find_delimiter-append :
    (c : ℕ) (t s : Bytes) → IsFree c t → find_delimiter c (t ++ c ∷ s) ≡ some (length t)
unfolding find_delimiter
find_delimiter-append c [] s f = ground arith
find_delimiter-append c (d ∷ t) s f = ground (arith, find_delimiter-append c t s f.1, f.0)

pub find_free : (c : ℕ) (t : Bytes) → IsFree c t → find_delimiter c t ≡ none
unfolding find_delimiter
find_free c [] f = refl
find_free c (d ∷ t) f = ground (arith, find_free c t f.1, f.0)

drop_nil : {A : Type 0} (n : ℕ) → drop {A = A} n [] ≡ []
drop_nil zero = refl
drop_nil (suc n) = refl

pub drop-drop : {A : Type 0} (a b : ℕ) (xs : List A) → drop a (drop b xs) ≡ drop (b + a) xs
drop-drop a zero xs = let e : a ≡ 0 + a = omega arith in ap (λ n. drop n xs) e
drop-drop {A = A} a (suc b) [] = drop_nil {A = A} a ∙ sym (drop_nil {A = A} (suc b + a))
drop-drop a (suc b) (x ∷ xs) =
    let e : suc (b + a) ≡ suc b + a = omega arith in drop-drop a b xs ∙ ap (λ n. drop n (x ∷ xs)) e

pub joined-cons :
    (delimiter : ℕ) (t : Bytes) (ts : List Bytes) (u : Bytes) (us : List Bytes)
    → ts ≡ u ∷ us
    → joined delimiter (t ∷ ts) ≡ t ++ delimiter ∷ joined delimiter ts
unfolding join_formatted delimited
joined-cons delimiter t ts u us e = rw (e) refl

pub joined_one : (delimiter : ℕ) (t : Bytes) → joined delimiter (t ∷ []) ≡ t
unfolding join_formatted delimited
joined_one delimiter t = append-nil t
