-- ===== src/Prelude/Counting.antt =====
-- How often a list has an element, under a Boolean test, and the removal of its first occurrence.
use mathlib.Core.Bool.{true≢false}
use librtcx.Prelude.{
  ℕ, ◌+◌, ◌-◌, ◌≡◌, refl, List, [], ◌∷◌, Bool, true, false, arith, if◌then◌else◌, ap, sym, ◌∙◌, ◌⊎◌,
  inl, inr, Bool-cases, ◌==◌, ==_iff,
}

abbrev pub one_if : Bool → ℕ
one_if true = 1
one_if false = 0

module _ {A : Type 0} (same : A → A → Bool) where
  unfoldable pub count : A → List A → ℕ
  count k [] = 0
  count k (x ∷ xs) = one_if (same x k) + count k xs

  unfoldable pub removed : A → List A → List A
  removed x [] = []
  removed x (y ∷ ys) = let rest = removed x ys in if same y x then ys else y ∷ rest

  -- The test tells whether two elements are equal.
  abbrev pub IsEqualityTest : Type 0
  IsEqualityTest = ((x y : A) → same x y ≡ true → x ≡ y) × ((x : A) → same x x ≡ true)

  one_of_either :
      IsEqualityTest
      → (k x y : A) → same y x ≡ false
      → (one_if (same y k) ≡ 0) ⊎ (one_if (same x k) ≡ 0)
  one_of_either (sound, full) k x y e = elim (Bool-cases (same y k)) [
    | inr n ↦ inl (ap one_if n)
    | inl h ↦ elim (Bool-cases (same x k)) [
      | inr n ↦ inr (ap one_if n)
      | inl g ↦
          absurd
            (true≢false (sym (full x) ∙ ap (λ w. same w x) (sound x k g ∙ sym (sound y k h)) ∙ e))
    ]
  ]

  -- A removal takes one occurrence of the element.
  pub count-removed :
      IsEqualityTest
      → (k x : A) (xs : List A) → count k (removed x xs) ≡ count k xs - one_if (same x k)
  unfolding count removed
  count-removed eq k x [] = ground arith
  count-removed eq k x (y ∷ ys) = elim (Bool-cases (same y x)) [
    | inl e ↦ rw (e, ap (λ w. one_if (same w k)) (eq.0 y x e)) (ground arith)
    | inr e ↦ rw (e) (grind (arith, count-removed eq k x ys, one_of_either eq k x y e))
  ]

pub ==-IsEqualityTest : IsEqualityTest (◌==◌)
==-IsEqualityTest = (λ a b. (==_iff a b).0, λ a. (==_iff a a).1 refl)
