-- ===== src/Lru/Map.antt =====
-- The map of the cache: what `find` sees after each operation, and that keys stay distinct.
use mathlib.Core.HLevel.{⊥_prop}
use mathlib.Core.Bool.{Bool-set, false≢true}
use mathlib.Core.List.{Mem, mem-cons, mem-cons_self, mem-cons_of_mem, not-mem-nil}
use mathlib.Core.Logic.Or
use native.Mathlib.Nat.{ℕ_set}
use librtcx.Prelude.{
  ℕ, ◌≡◌, refl, ◌≢◌, inl, inr, List, [], ◌∷◌, Bool, true, false, ◌||◌, none, some, arith, ◌==◌,
  if◌then◌else◌, length, Bool-cases, ==_iff,
}
use librtcx.Hash.{Hash128}
use librtcx.Lru.{Entry, Ranking, find, erase, emplace, touch, rankings, hit, erase_all}

-- Whether a key is among those that are erased.
unfoldable pub has_key : Hash128 → List Ranking → Bool
has_key j [] = false
has_key j ((k, t) ∷ rs) = (k == j) || has_key j rs

pub has_key_of_mem : (k : Hash128) (t : ℕ) (rs : List Ranking) → Mem (k, t) rs → has_key k rs ≡ true
unfolding has_key
has_key_of_mem k t [] mem = absurd (not-mem-nil mem)
has_key_of_mem k t ((i, u) ∷ rs) mem =
    Or.elim (Bool-set _ _) (mem-cons.0 mem) (λ p. ground arith)
      (λ r. ground (arith, has_key_of_mem k t rs r))

pub mem_of_has_key :
    (k : Hash128) (rs : List Ranking) → has_key k rs ≡ true → (t : ℕ) × Mem (k, t) rs
unfolding has_key
mem_of_has_key k [] h = absurd (false≢true h)
mem_of_has_key k ((i, u) ∷ rs) h = elim (Bool-cases (i == k)) [
  | inl here ↦ (u, rw ((==_iff i k).0 here) mem-cons_self)
  | inr miss ↦ let (t, mem) = mem_of_has_key k rs (ground arith) in (t, mem-cons_of_mem (i, u) mem)
]

module _ {ℓ} {V : Type ℓ} where
  -- No key stands twice.
  abbrev pub Distinct : List (Hash128 × Entry V) → Type ℓ
  Distinct [] = Unit
  Distinct ((k, e) ∷ m) = (find k m ≡ none) × Distinct m

  pub find-erase :
      (j k : Hash128) (m : List (Hash128 × Entry V))
      → Distinct m
      → find j (erase k m) ≡ (if k == j then none else find j m)
  unfolding find erase
  find-erase j k [] d = ground arith
  find-erase j k ((i, e) ∷ m) d = ground (arith, find-erase j k m d.1)

  pub erase-Distinct :
      (k : Hash128) (m : List (Hash128 × Entry V)) → Distinct m → Distinct (erase k m)
  unfolding erase
  erase-Distinct k [] d = d
  erase-Distinct k ((i, e) ∷ m) d = ground (arith, erase-Distinct k m d.1, find-erase i k m d.1)

  pub find-emplace :
      (j k : Hash128) (e : Entry V) (m : List (Hash128 × Entry V))
      → find j (emplace k e m)
        ≡ (elim (find k m) [ none ↦ if k == j then some e else find j m | some _ ↦ find j m ])
  unfolding find emplace
  find-emplace j k e m = ground arith

  pub emplace-Distinct :
      (k : Hash128) (e : Entry V) (m : List (Hash128 × Entry V))
      → Distinct m
      → Distinct (emplace k e m)
  unfolding emplace
  emplace-Distinct k e m d = ground arith

  pub find-touch :
      (j k : Hash128) (tick : ℕ) (m : List (Hash128 × Entry V))
      → find j (touch k tick m)
        ≡ (elim (find j m) [ none ↦ none | some e ↦ some (if k == j then hit e tick else e) ])
  unfolding find touch
  find-touch j k tick [] = refl
  find-touch j k tick ((i, e) ∷ m) = ground (arith, find-touch j k tick m)

  pub touch-Distinct :
      (k : Hash128) (tick : ℕ) (m : List (Hash128 × Entry V))
      → Distinct m
      → Distinct (touch k tick m)
  unfolding touch
  touch-Distinct k tick [] d = d
  touch-Distinct k tick ((i, e) ∷ m) d =
      ground (arith, touch-Distinct k tick m d.1, find-touch i k tick m)

  pub length-touch :
      (k : Hash128) (tick : ℕ) (m : List (Hash128 × Entry V)) → length (touch k tick m) ≡ length m
  unfolding touch
  length-touch k tick [] = refl
  length-touch k tick ((i, e) ∷ m) = ground (arith, length-touch k tick m)

  pub erase_all-Distinct :
      (rs : List Ranking) (m : List (Hash128 × Entry V)) → Distinct m → Distinct (erase_all rs m)
  unfolding erase_all
  erase_all-Distinct [] m d = d
  erase_all-Distinct ((k, t) ∷ rs) m d = erase_all-Distinct rs (erase k m) (erase-Distinct k m d)

  pub find-erase_all :
      (j : Hash128) (rs : List Ranking) (m : List (Hash128 × Entry V))
      → Distinct m
      → find j (erase_all rs m) ≡ (if has_key j rs then none else find j m)
  unfolding erase_all has_key
  find-erase_all j [] m d = refl
  find-erase_all j ((k, t) ∷ rs) m d =
      ground (arith, find-erase_all j rs (erase k m) (erase-Distinct k m d), find-erase j k m d)

  pub mem-rankings_of_find :
      (k : Hash128) (m : List (Hash128 × Entry V)) (e : Entry V)
      → find k m ≡ some e
      → Mem (k, e.last_touched_tick) (rankings m)
  unfolding find
  mem-rankings_of_find k [] e h = absurd (ground arith)
  mem-rankings_of_find k ((i, x) ∷ m) e h = elim (Bool-cases (i == k)) [
    | inl here ↦ let same : x ≡ e = ground arith in rw ((==_iff i k).0 here, same) mem-cons_self
    | inr miss ↦
        mem-cons_of_mem (i, x.last_touched_tick) (mem-rankings_of_find k m e (ground arith))
  ]

  find_of_mem-rankings :
      (k : Hash128) (t : ℕ) (m : List (Hash128 × Entry V))
      → Mem (k, t) (rankings m)
      → find k m ≢ none
  unfolding find
  find_of_mem-rankings k t [] mem h = not-mem-nil mem
  find_of_mem-rankings k t ((i, x) ∷ m) mem h =
      Or.elim ⊥_prop (mem-cons.0 mem) (λ p. ground arith)
        (λ r. find_of_mem-rankings k t m r (ground arith))

  pub tick_of_mem-rankings :
      (k : Hash128) (t : ℕ) (m : List (Hash128 × Entry V)) (e : Entry V)
      → Distinct m
      → Mem (k, t) (rankings m)
      → find k m ≡ some e
      → t ≡ e.last_touched_tick
  unfolding find
  tick_of_mem-rankings k t [] e d mem h = absurd (not-mem-nil mem)
  tick_of_mem-rankings k t ((i, x) ∷ m) e d mem h =
      Or.elim (ℕ_set _ _) (mem-cons.0 mem) (λ p. ground arith)
        (λ r. ground (arith, find_of_mem-rankings k t m r, tick_of_mem-rankings k t m e d.1 r))
