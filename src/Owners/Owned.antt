-- ===== src/Owners/Owned.antt =====
-- Moves, assignments and ends of lifetime keep every resource with one owner.
use librtcx.Prelude.{
  ℕ, ◌+◌, ◌-◌, ◌≤◌, ◌≡◌, refl, ap, ◌∙◌, List, true, false, Option, none, some, ◌==◌, arith,
  Bool-cases, Option-cases, inl, inr, ==_iff,
}
use librtcx.Prelude.Counting.{count, removed, IsEqualityTest, count-removed}
use librtcx.Owners.{Resource, allocation, mapping, cuda_library, same, Memory, give_back}
use librtcx.Owners.Slots.{
  let_go, owns, Owner, at, replaced, move_at, assign_at, destroy_at, total, total-replaced,
  total-taken_out, at-replaced,
}

same_sound : (a b : Resource) → same a b ≡ true → a ≡ b
same_sound (allocation a) (allocation b) e = ap allocation ((==_iff a b).0 e)
same_sound (allocation a) (mapping b) e = ground arith
same_sound (allocation a) (cuda_library b) e = ground arith
same_sound (mapping a) (allocation b) e = ground arith
same_sound (mapping a) (mapping b) e = ap mapping ((==_iff a b).0 e)
same_sound (mapping a) (cuda_library b) e = ground arith
same_sound (cuda_library a) (allocation b) e = ground arith
same_sound (cuda_library a) (mapping b) e = ground arith
same_sound (cuda_library a) (cuda_library b) e = ap cuda_library ((==_iff a b).0 e)

same_full : (a : Resource) → same a a ≡ true
same_full (allocation a) = (==_iff a a).1 refl
same_full (mapping a) = (==_iff a a).1 refl
same_full (cuda_library a) = (==_iff a a).1 refl

pub same-IsEqualityTest : IsEqualityTest same
same-IsEqualityTest = (same_sound, same_full)

-- Each resource is live as often as the objects own it and as others do, and none was given back
-- that was not live.
abbrev pub IsOwned : {X : Type 0} → Owner X → (Resource → ℕ) → Memory → List X → Type 0
IsOwned o rest m xs =
    (m.faults ≡ 0) × ((k : Resource) → count same k m.live ≡ total o k xs + rest k)

pub give_back_live :
    (r : Resource) (m : Memory)
    → 1 ≤ count same r m.live
    → give_back r m ≡ record m { live = removed same r m.live }
unfolding give_back
give_back_live r m h = elim (Bool-cases (0 == count same r m.live)) [
  | inl e ↦ ground arith
  | inr e ↦ rw (e) refl
]

pub let_go_lem :
    (w : Option Resource) (m : Memory)
    → ((k : Resource) → owns w k ≤ count same k m.live)
    → ((let_go w m).faults ≡ m.faults)
      × ((k : Resource) → count same k (let_go w m).live ≡ count same k m.live - owns w k)
unfolding let_go
let_go_lem none m h = (refl, λ k. omega arith)
let_go_lem (some r) m h =
    let e = give_back_live r m (grind (arith, h r, same_full r)) in
    (
      ap (λ n. n.faults) e,
      λ k. ap (λ n. count same k n.live) e ∙ count-removed same same-IsEqualityTest k r m.live,
    )

module _ {X : Type 0} (o : Owner X) (rest : Resource → ℕ) where
  at_owned :
      (k : Resource) (i : ℕ) (x : X) (xs : List X)
      → at i xs ≡ some x
      → owns (o.owned x) k ≤ total o k xs
  at_owned k i x xs e = ground (arith, total-taken_out o k i x xs e)

  pub move_at-IsOwned :
      (i : ℕ) (m : Memory) (xs : List X)
      → IsOwned o rest m xs
      → IsOwned o rest (move_at o i m xs).0 (move_at o i m xs).1
  unfolding move_at total
  move_at-IsOwned i m xs h = elim (Option-cases (at i xs)) [
    | inl e ↦ rw (move_at, e) h
    | inr (x, e) ↦
        rw (move_at, e)
          (
            h.0,
            λ k. omega (
              arith,
              h.1 k,
              total-replaced o k i x (o.moved x).1 xs e,
              ap (λ w. owns w k) (o.moved_new x),
              ap (λ w. owns w k) (o.moved_old x),
            ),
          )
  ]

  pub destroy_at-IsOwned :
      (i : ℕ) (m : Memory) (xs : List X)
      → IsOwned o rest m xs
      → IsOwned o rest (destroy_at o i m xs).0 (destroy_at o i m xs).1
  unfolding destroy_at
  destroy_at-IsOwned i m xs h = elim (Option-cases (at i xs)) [
    | inl e ↦ rw (destroy_at, e) h
    | inr (x, e) ↦
        let (f, l) = let_go_lem (o.owned x) m (λ k. omega (arith, h.1 k, at_owned k i x xs e)) in
        rw (destroy_at, e, o.destroyed_lets_go x m)
          (f ∙ h.0, λ k. omega (arith, l k, h.1 k, total-taken_out o k i x xs e))
  ]

  assigned-IsOwned :
      (i j : ℕ) (x y : X) (m : Memory) (xs : List X)
      → (i == j) ≡ false
      → at i xs ≡ some x
      → at j xs ≡ some y
      → IsOwned o rest m xs
      → IsOwned o rest
          (o.assigned x y m).1
          (replaced i (o.assigned x y m).0.0 (replaced j (o.assigned x y m).0.1 xs))
  assigned-IsOwned i j x y m xs n e d h =
      let (f, l) = let_go_lem (o.owned x) m (λ k. omega (arith, h.1 k, at_owned k i x xs e)) in
      rw (o.assigned_memory x y m) (
        f ∙ h.0,
        λ k. omega (
          arith,
          l k,
          h.1 k,
          at_owned k i x xs e,
          total-replaced o k j y (o.assigned x y m).0.1 xs d,
          total-replaced o k i x (o.assigned x y m).0.0 (replaced j (o.assigned x y m).0.1 xs)
              (at-replaced o i j (o.assigned x y m).0.1 xs n ∙ e),
          ap (λ w. owns w k) (o.assigned_new x y m),
          ap (λ w. owns w k) (o.assigned_old x y m),
        ),
      )

  pub assign_at-IsOwned :
      (i j : ℕ) (m : Memory) (xs : List X)
      → IsOwned o rest m xs
      → IsOwned o rest (assign_at o i j m xs).0 (assign_at o i j m xs).1
  unfolding assign_at
  assign_at-IsOwned i j m xs h = elim (Bool-cases (i == j)) [
    | inl s ↦ rw (s) h
    | inr n ↦ elim (Option-cases (at i xs)) [
      | inl e ↦ rw (n, e) h
      | inr (x, e) ↦ elim (Option-cases (at j xs)) [
        | inl d ↦ rw (n, e, d) h
        | inr (y, d) ↦ rw (n, e, d) (assigned-IsOwned i j x y m xs n e d h)
      ]
    ]
  ]
