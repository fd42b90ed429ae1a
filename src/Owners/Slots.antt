-- ===== src/Owners/Slots.antt =====
-- Objects of a type that owns at most one resource and can only be moved, by their place in a list.
use librtcx.Prelude.{
  ℕ, zero, suc, ◌+◌, ◌≡◌, refl, List, [], ◌∷◌, false, Option, none, some, if◌then◌else◌, ◌==◌,
  arith,
}
use librtcx.Prelude.Counting.{one_if}
use librtcx.Owners.{Resource, same, Memory, give_back}

unfoldable pub let_go : Option Resource → Memory → Memory
unfolding give_back
let_go none m = m
let_go (some r) m = give_back r m

abbrev pub owns : Option Resource → Resource → ℕ
owns none k = 0
owns (some r) k = one_if (same r k)

-- The operations of such a type: the move constructor gives the new object and what is left of the
-- other; the move assignment to another object gives both and the memory.
pub record Owner (X : Type 0) : Type 0 where
  pub owned : X → Option Resource
  pub moved : X → X × X
  pub assigned : X → X → Memory → (X × X) × Memory
  pub destroyed : X → Memory → Memory
  pub moved_new : (x : X) → owned (moved x).0 ≡ owned x
  pub moved_old : (x : X) → owned (moved x).1 ≡ none
  pub assigned_new : (x y : X) (m : Memory) → owned (assigned x y m).0.0 ≡ owned y
  pub assigned_old : (x y : X) (m : Memory) → owned (assigned x y m).0.1 ≡ none
  pub assigned_memory : (x y : X) (m : Memory) → (assigned x y m).1 ≡ let_go (owned x) m
  pub destroyed_lets_go : (x : X) (m : Memory) → destroyed x m ≡ let_go (owned x) m

module _ {X : Type 0} where
  unfoldable pub at : ℕ → List X → Option X
  at i [] = none
  at zero (x ∷ xs) = some x
  at (suc i) (x ∷ xs) = at i xs

  unfoldable pub replaced : ℕ → X → List X → List X
  replaced i y [] = []
  replaced zero y (x ∷ xs) = y ∷ xs
  replaced (suc i) y (x ∷ xs) = x ∷ replaced i y xs

  unfoldable pub taken_out : ℕ → List X → List X
  taken_out i [] = []
  taken_out zero (x ∷ xs) = xs
  taken_out (suc i) (x ∷ xs) = x ∷ taken_out i xs

module _ {X : Type 0} (o : Owner X) where
  -- A new object, at the front, is made from the one at `i`.
  unfoldable pub move_at : ℕ → Memory → List X → Memory × List X
  unfolding at replaced
  move_at i m xs = elim (at i xs) [
    | none ↦ (m, xs)
    | some x ↦ let (new, old) = o.moved x in (m, new ∷ replaced i old xs)
  ]

  -- The object at `j` is assigned to the one at `i`: nothing is done if they are one object.
  unfoldable pub assign_at : ℕ → ℕ → Memory → List X → Memory × List X
  unfolding at replaced
  assign_at i j m xs = if i == j then (m, xs) else elim (at i xs) [
    | none ↦ (m, xs)
    | some x ↦ elim (at j xs) [
      | none ↦ (m, xs)
      | some y ↦
          let ((this, other), m') = o.assigned x y m in (m', replaced i this (replaced j other xs))
    ]
  ]

  -- The lifetime of the object at `i` ends.
  unfoldable pub destroy_at : ℕ → Memory → List X → Memory × List X
  unfolding at taken_out
  destroy_at i m xs = elim (at i xs) [ none ↦ (m, xs) | some x ↦ (o.destroyed x m, taken_out i xs) ]

  -- How many of the objects own a resource.
  unfoldable pub total : Resource → List X → ℕ
  total k [] = 0
  total k (x ∷ xs) = owns (o.owned x) k + total k xs

  pub total-replaced :
      (k : Resource) (i : ℕ) (x y : X) (xs : List X)
      → at i xs ≡ some x
      → total k (replaced i y xs) + owns (o.owned x) k ≡ total k xs + owns (o.owned y) k
  unfolding total at replaced
  total-replaced k i x y [] e = ground arith
  total-replaced k zero x y (z ∷ xs) e = grind arith
  total-replaced k (suc i) x y (z ∷ xs) e = ground (arith, total-replaced k i x y xs e)

  pub total-taken_out :
      (k : Resource) (i : ℕ) (x : X) (xs : List X)
      → at i xs ≡ some x
      → total k (taken_out i xs) + owns (o.owned x) k ≡ total k xs
  unfolding total at taken_out
  total-taken_out k i x [] e = ground arith
  total-taken_out k zero x (z ∷ xs) e = grind arith
  total-taken_out k (suc i) x (z ∷ xs) e = ground (arith, total-taken_out k i x xs e)

  pub at-replaced :
      (i j : ℕ) (y : X) (xs : List X) → (i == j) ≡ false → at i (replaced j y xs) ≡ at i xs
  unfolding at replaced
  at-replaced i j y [] n = ground arith
  at-replaced zero zero y (z ∷ xs) n = ground arith
  at-replaced zero (suc j) y (z ∷ xs) n = refl
  at-replaced (suc i) zero y (z ∷ xs) n = refl
  at-replaced (suc i) (suc j) y (z ∷ xs) n = at-replaced i j y xs (grind arith)
