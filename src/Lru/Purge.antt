-- ===== src/Lru/Purge.antt =====
-- What `purge` removes and what it leaves.
use mathlib.Core.Bool.{false≢true}
use mathlib.Core.List.{
  Mem, Perm, Permᴰ, Pairwise, Pairwise-append, map-append, mem-append, mem-append_left,
}
use mathlib.Core.List
use mathlib.Core.List.Perm
use mathlib.Core.Logic.Or
use mathlib.Core.Logic.{∥∥₁_elim, if_pos}
use native.Mathlib.Nat.{ℕ_set}
use native.Mathlib.Bridge.{le_prop}
use librtcx.Prelude.{
  suc, ◌+◌, ◌/◌, ◌≤◌, ◌≡◌, refl, sym, ap, subst, ◌∙◌, List, [], ◌∷◌, ◌++◌, map, false, none, some,
  arith, if◌then◌else◌, length, take, drop, ℕ_discrete, take-append-drop, length-drop, length-map,
}
use librtcx.Hash.{Hash128}
use librtcx.Lru.{Entry, Ranking, StdSort, find, erase, rankings, erase_all, purged}
use librtcx.Lru.Map.{
  Distinct, has_key, has_key_of_mem, mem_of_has_key, find-erase_all, erase_all-Distinct,
  mem-rankings_of_find, tick_of_mem-rankings,
}

length-permᴰ {ℓ} : {A : Type ℓ} {xs ys : List A} → Permᴰ xs ys → length xs ≡ length ys
length-permᴰ Permᴰ.nil = refl
length-permᴰ (Permᴰ.cons e p) = ap suc (length-permᴰ p)
length-permᴰ (Permᴰ.swap e f) = refl
length-permᴰ (Permᴰ.trans p q) = length-permᴰ p ∙ length-permᴰ q

length-perm {ℓ} : {A : Type ℓ} {xs ys : List A} → Perm xs ys → length xs ≡ length ys
length-perm p = ∥∥₁_elim p (ℕ_set _ _) length-permᴰ

module _ {ℓ} {V : Type ℓ} where
  abbrev pub keys : List (Hash128 × Entry V) → List Hash128
  keys m = map (λ e. e.0) m

  keys-erase :
      (k : Hash128) (m : List (Hash128 × Entry V))
      → keys (erase k m) ≡ List.erase ℕ_discrete (keys m) k
  unfolding erase
  keys-erase k [] = refl
  keys-erase k ((i, e) ∷ m) = ground (arith, keys-erase k m)

  -- Keys that the map has go one by one.
  keys-erase_all :
      (rs : List Ranking) (m : List (Hash128 × Entry V)) (rest : List Hash128)
      → Perm (keys m) (map (λ (r : Ranking). r.0) rs ++ rest)
      → Perm (keys (erase_all rs m)) rest
  unfolding erase_all
  keys-erase_all [] m rest p = p
  keys-erase_all ((k, t) ∷ rs) m rest p = keys-erase_all rs (erase k m) rest (
      rw (keys-erase k m) (
        subst (Perm (List.erase ℕ_discrete (keys m) k)) (if_pos (ℕ_discrete k k) refl _ _)
          (Perm.erase ℕ_discrete k p)))

  keys-rankings : (m : List (Hash128 × Entry V)) → map (λ (r : Ranking). r.0) (rankings m) ≡ keys m
  keys-rankings [] = refl
  keys-rankings (e ∷ m) = ap (◌∷◌ e.0) (keys-rankings m)

  purged_lem :
      (std : StdSort) (m : List (Hash128 × Entry V))
      → purged std m ≡ erase_all (take ((length m + 1) / 2) (std.sort (rankings m))) m
  unfolding purged erase_all
  purged_lem std [] = refl
  purged_lem std (e ∷ m) = refl

module _ {ℓ} {V : Type ℓ} (std : StdSort) (m : List (Hash128 × Entry V)) where
  -- The rankings that `purge` erases, and those that it leaves.
  abbrev victims : List Ranking
  victims = take ((length m + 1) / 2) (std.sort (rankings m))

  abbrev kept : List Ranking
  kept = drop ((length m + 1) / 2) (std.sort (rankings m))

  purged-erase_all : purged std m ≡ erase_all victims m
  purged-erase_all = purged_lem std m

  keys-split : Perm (keys m) (map (λ (r : Ranking). r.0) victims ++ map (λ (r : Ranking). r.0) kept)
  keys-split =
      let p : Perm (map (λ (r : Ranking). r.0) (rankings m))
          (map (λ (r : Ranking). r.0) (victims ++ kept)) =
        rw take-append-drop
          (Perm.map (λ (r : Ranking). r.0) (Perm.symm (std.sort-perm (rankings m)))) in
      rw (← map-append, ← keys-rankings m) p

  keys-purged : Perm (keys (purged std m)) (map (λ (r : Ranking). r.0) kept)
  keys-purged = rw purged-erase_all (keys-erase_all victims m _ keys-split)

  -- A purge leaves half of the entries, rounded down.
  pub length-purged : length (purged std m) ≡ length m / 2
  length-purged = omega (
    arith,
    length-perm keys-purged,
    length-map (λ (e : Hash128 × Entry V). e.0) (purged std m),
    length-map (λ (r : Ranking). r.0) kept,
    length-drop ((length m + 1) / 2) (std.sort (rankings m)),
    length-perm (std.sort-perm (rankings m)),
    length-map {B = Ranking} (λ e. (e.0, e.1.last_touched_tick)) m,
  )

  pub purged-Distinct : Distinct m → Distinct (purged std m)
  purged-Distinct d = rw purged-erase_all (erase_all-Distinct victims m d)

  pub find-purged :
      (j : Hash128)
      → Distinct m
      → find j (purged std m) ≡ (if has_key j victims then none else find j m)
  find-purged j d = rw purged-erase_all (find-erase_all j victims m d)

  victim-le-kept : (a b : Ranking) → Mem a victims → Mem b kept → a.1 ≤ b.1
  victim-le-kept a b ma mb =
      ((Pairwise-append (λ a b. le_prop)).0 (
          subst (Pairwise (λ (a b : Ranking). a.1 ≤ b.1))
            (sym (take-append-drop ((length m + 1) / 2) (std.sort (rankings m))))
            (std.sort-pairwise (rankings m)))).2
        a ma b mb

  mem-sorted :
      (j : Hash128) (e : Entry V)
      → find j m ≡ some e
      → Mem (j, e.last_touched_tick) (victims ++ kept)
  mem-sorted j e h =
      rw take-append-drop
        (Perm.subset (Perm.symm (std.sort-perm (rankings m))) _ (mem-rankings_of_find j m e h))

  mem-rankings : (r : Ranking) → Mem r victims → Mem r (rankings m)
  mem-rankings r v = Perm.subset (std.sort-perm (rankings m)) r (
      subst (Mem r) (take-append-drop ((length m + 1) / 2) (std.sort (rankings m)))
        (mem-append_left kept v))

  -- An entry that goes was never touched after one that stays.
  pub purged_oldest :
      (j k : Hash128) (e f : Entry V)
      → Distinct m
      → find j m ≡ some e
      → find j (purged std m) ≡ none
      → find k (purged std m) ≡ some f
      → e.last_touched_tick ≤ f.last_touched_tick
  purged_oldest j k e f d here gone stays =
      let (t, mem) = mem_of_has_key j victims (ground (arith, find-purged j d)) in
      let was : find k m ≡ some f = ground (arith, find-purged k d) in
      let free : has_key k victims ≡ false = ground (arith, find-purged k d) in
      let old : t ≡ e.last_touched_tick =
        tick_of_mem-rankings j t m e d (mem-rankings (j, t) mem) here in
      Or.elim le_prop (mem-append.0 (mem-sorted k f was))
        (λ v. absurd (false≢true (sym free ∙ has_key_of_mem k _ victims v)))
        (λ r. omega (arith, victim-le-kept (j, t) (k, f.last_touched_tick) mem r))
