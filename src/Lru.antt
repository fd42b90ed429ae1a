-- ===== src/Lru.antt =====
-- `lru_memory_cache` of include/rtcx/rtcx.hpp: the in-memory cache and its eviction.
-- The `std::unordered_map` is a list of its entries in the order of iteration; `emplace` puts a
-- new entry at the front. `std::sort` is a parameter, since it orders equal ticks as it likes.
pub mod Map
pub mod Purge
pub mod Insert
use mathlib.Core.List.{Perm, Pairwise}
use librtcx.Prelude.{
  ℕ, zero, suc, ◌+◌, ◌/◌, ◌%◌, ◌^◌, ◌≤◌, List, [], ◌∷◌, map, Bool, false, ◌||◌, Option, none, some,
  ◌==◌, ltb, if◌then◌else◌, length, take,
}
use librtcx.Hash.{Hash128}

-- `lru_memory_cache::entry`.
pub record Entry {ℓ} (V : Type ℓ) : Type ℓ where
  pub last_touched_tick : ℕ
  pub value : V

-- `hash128_hasher`: the lower 64 bits.
unfoldable pub hasher : Hash128 → ℕ
hasher obj = obj % 2 ^ 64

-- A key and the tick of its entry, as `purge` ranks them.
abbrev pub Ranking : Type 0
Ranking = Hash128 × ℕ

-- What the C++ standard says of `std::sort` with the comparison of `purge`.
pub record StdSort : Type 0 where
  pub sort : List Ranking → List Ranking
  pub sort-perm : (l : List Ranking) → Perm (sort l) l
  pub sort-pairwise : (l : List Ranking) → Pairwise (λ (a b : Ranking). a.1 ≤ b.1) (sort l)

module _ {ℓ} {V : Type ℓ} where
  -- `entry::hit`.
  abbrev pub hit : Entry V → ℕ → Entry V
  hit e tick = record e { last_touched_tick = tick }

  -- `entries_.find`.
  unfoldable pub find : Hash128 → List (Hash128 × Entry V) → Option (Entry V)
  find k [] = none
  find k ((j, e) ∷ m) = if j == k then some e else find k m

  -- `entries_.erase`.
  unfoldable pub erase : Hash128 → List (Hash128 × Entry V) → List (Hash128 × Entry V)
  erase k [] = []
  erase k ((j, e) ∷ m) = if j == k then m else (j, e) ∷ erase k m

  -- `entries_.emplace`, which keeps an entry that is there.
  unfoldable pub emplace : Hash128 → Entry V → List (Hash128 × Entry V) → List (Hash128 × Entry V)
  emplace k e m = elim (find k m) [ none ↦ (k, e) ∷ m | some _ ↦ m ]

  -- `it->second.hit(tick)` at the iterator that `find` returned.
  unfoldable pub touch : Hash128 → ℕ → List (Hash128 × Entry V) → List (Hash128 × Entry V)
  touch k tick [] = []
  touch k tick ((j, e) ∷ m) = if j == k then (j, hit e tick) ∷ m else (j, e) ∷ touch k tick m

  -- The first loop of `purge`.
  abbrev pub rankings : List (Hash128 × Entry V) → List Ranking
  rankings m = map (λ e. (e.0, e.1.last_touched_tick)) m

  -- The second loop of `purge`.
  unfoldable pub erase_all : List Ranking → List (Hash128 × Entry V) → List (Hash128 × Entry V)
  erase_all [] m = m
  erase_all ((key, _) ∷ rs) m = erase_all rs (erase key m)

pub record LruMemoryCache {ℓ} (V : Type ℓ) : Type ℓ where
  pub entries : List (Hash128 × Entry V)
  pub limit : ℕ

-- The constructor.
abbrev pub empty {ℓ} : {V : Type ℓ} → ℕ → LruMemoryCache V
empty limit = record { entries = []; limit = limit }

module _ {ℓ} {V : Type ℓ} (std : StdSort) where
  -- The entries that `purge` leaves.
  unfoldable pub purged : List (Hash128 × Entry V) → List (Hash128 × Entry V)
  purged [] = []
  purged (e ∷ m) =
      let num_to_purge = (length (e ∷ m) + 1) / 2 in
      erase_all (take num_to_purge (std.sort (rankings (e ∷ m)))) (e ∷ m)

  -- `purge`.
  unfoldable pub purge : LruMemoryCache V → LruMemoryCache V
  purge c = record c { entries = purged c.entries }

  -- `insert`.
  unfoldable pub insert : LruMemoryCache V → Hash128 → V → ℕ → LruMemoryCache V
  insert c sha value tick =
      if c.limit == 0
      then c
      else (let c' = if ltb c.limit (length c.entries + 1) then purge c else c in
          record c' {
            entries = emplace sha (record { last_touched_tick = tick; value = value }) c'.entries;
          })
