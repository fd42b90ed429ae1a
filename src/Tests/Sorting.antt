-- ===== src/Tests/Sorting.antt =====
-- A sort that meets what is asked of `std::sort`: insertion from the right, which is stable.
use mathlib.Core.List.{Perm, Pairwise, mem-cons, not-mem-nil}
use mathlib.Core.List.Perm
use mathlib.Core.Logic.Or
use native.Mathlib.Bridge.{le_prop}
use librtcx.Prelude.{◌≤◌, List, [], ◌∷◌, arith, leb, if◌then◌else◌, Bool-cases, inl, inr}
use librtcx.Lru.{Ranking, StdSort}

unfoldable pub place : Ranking → List Ranking → List Ranking
place a [] = a ∷ []
place a (b ∷ l) = let rest = place a l in if leb a.1 b.1 then a ∷ b ∷ l else b ∷ rest

unfoldable pub insertion_sort : List Ranking → List Ranking
unfolding place
insertion_sort [] = []
insertion_sort (a ∷ l) = place a (insertion_sort l)

place-perm : (a : Ranking) (l : List Ranking) → Perm (place a l) (a ∷ l)
unfolding place
place-perm a [] = Perm.rfl
place-perm a (b ∷ l) = elim (Bool-cases (leb a.1 b.1)) [
  | inl le ↦ rw le Perm.rfl
  | inr gt ↦ rw gt (Perm.trans (Perm.cons b (place-perm a l)) (Perm.swap a b l))
]

pub insertion_sort-perm : (l : List Ranking) → Perm (insertion_sort l) l
unfolding insertion_sort
insertion_sort-perm [] = Perm.rfl
insertion_sort-perm (a ∷ l) =
    Perm.trans (place-perm a (insertion_sort l)) (Perm.cons a (insertion_sort-perm l))

abbrev InOrder : Ranking → Ranking → Type 0
InOrder a b = a.1 ≤ b.1

place-Pairwise :
    (a : Ranking) (l : List Ranking) → Pairwise InOrder l → Pairwise InOrder (place a l)
unfolding place
place-Pairwise a [] p = Pairwise.cons (λ b m. absurd (not-mem-nil m)) Pairwise.nil
place-Pairwise a (b ∷ l) (Pairwise.cons h p) = elim (Bool-cases (leb a.1 b.1)) [
  | inl le ↦ rw le (
      Pairwise.cons
        (λ c m. Or.elim le_prop (mem-cons.0 m) (λ e. ground arith) (λ r. ground (arith, h c r)))
        (Pairwise.cons h p))
  | inr gt ↦ rw gt (
      Pairwise.cons
        (λ c m.
          Or.elim le_prop (mem-cons.0 (Perm.subset (place-perm a l) c m)) (λ e. ground arith) (h c))
        (place-Pairwise a l p))
]

pub insertion_sort-Pairwise : (l : List Ranking) → Pairwise InOrder (insertion_sort l)
unfolding insertion_sort
insertion_sort-Pairwise [] = Pairwise.nil
insertion_sort-Pairwise (a ∷ l) = place-Pairwise a (insertion_sort l) (insertion_sort-Pairwise l)

abbrev pub std : StdSort
std = record {
  sort = insertion_sort;
  sort-perm = insertion_sort-perm;
  sort-pairwise = insertion_sort-Pairwise;
}
