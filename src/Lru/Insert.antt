-- ===== src/Lru/Insert.antt =====
-- What `insert` does to the cache: its size, and what is found afterwards.
use librtcx.Prelude.{ℕ, suc, ◌+◌, ◌/◌, ◌≤◌, ◌<◌, ◌≡◌, ◌≢◌, ◌⊎◌, List, none, some, arith, length}
use librtcx.Hash.{Hash128}
use librtcx.Lru.{Entry, StdSort, LruMemoryCache, empty, find, emplace, purged, purge, insert}
use librtcx.Lru.Map.{Distinct, find-emplace, emplace-Distinct}
use librtcx.Lru.Purge.{length-purged, purged-Distinct, find-purged, purged_oldest}

pub record IsValid {ℓ} {V : Type ℓ} (c : LruMemoryCache V) : Type ℓ where
  pub distinct : Distinct c.entries
  pub bounded : length c.entries ≤ c.limit

pub empty-IsValid {ℓ} : {V : Type ℓ} (limit : ℕ) → IsValid (empty {V = V} limit)
empty-IsValid limit = record { distinct = tt; bounded = omega arith }

module _ {ℓ} {V : Type ℓ} where
  length-emplace :
      (k : Hash128) (e : Entry V) (m : List (Hash128 × Entry V))
      → length (emplace k e m) ≡ (elim (find k m) [ none ↦ suc (length m) | some _ ↦ length m ])
  unfolding emplace
  length-emplace k e m = ground arith

module _ {ℓ} {V : Type ℓ} (std : StdSort) (c : LruMemoryCache V) (k : Hash128) (v : V)
    (tick : ℕ) where
  abbrev fresh : Entry V
  fresh = record { last_touched_tick = tick; value = v }

  -- `insert` keeps the keys distinct and the number of entries within the limit.
  pub insert-IsValid : IsValid c → IsValid (insert std c k v tick)
  unfolding insert purge
  insert-IsValid h = ground (
    arith,
    emplace-Distinct k fresh c.entries h.distinct,
    emplace-Distinct k fresh (purged std c.entries) (purged-Distinct std c.entries h.distinct),
    length-purged std c.entries,
    length-emplace k fresh c.entries,
    length-emplace k fresh (purged std c.entries),
  )

  -- In a valid cache whose limit is not 0, a key that was not there is found after its `insert`
  -- with its value and its tick.
  pub find-insert_self :
      IsValid c
      → 0 < c.limit
      → find k c.entries ≡ none
      → find k (insert std c k v tick).entries ≡ some fresh
  unfolding insert purge
  find-insert_self h pos new = ground (
    arith,
    find-purged std c.entries k h.distinct,
    find-emplace k k fresh c.entries,
    find-emplace k k fresh (purged std c.entries),
  )

  -- With room for one more entry nothing else changes.
  pub find-insert_ne :
      (j : Hash128)
      → j ≢ k
      → length c.entries < c.limit
      → find j (insert std c k v tick).entries ≡ find j c.entries
  unfolding insert
  find-insert_ne j ne room = ground (arith, find-emplace j k fresh c.entries)

  -- With no room, a new key leaves half of the old entries, rounded down, besides its own.
  pub length-insert_full :
      IsValid c
      → 0 < c.limit
      → length c.entries ≡ c.limit
      → find k c.entries ≡ none
      → length (insert std c k v tick).entries ≡ c.limit / 2 + 1
  unfolding insert purge
  length-insert_full h pos full new = ground (
    arith,
    find-purged std c.entries k h.distinct,
    length-purged std c.entries,
    length-emplace k fresh (purged std c.entries),
  )

  -- Of two keys of a valid cache other than the inserted one, where `insert` evicts the first and
  -- keeps the second, the second has its entry as before, and was touched no earlier than the
  -- first.
  pub insert_evicts_oldest :
      (i j : Hash128) (e f : Entry V)
      → IsValid c
      → i ≢ k
      → j ≢ k
      → find j c.entries ≡ some e
      → find j (insert std c k v tick).entries ≡ none
      → find i (insert std c k v tick).entries ≡ some f
      → (find i c.entries ≡ some f) × (e.last_touched_tick ≤ f.last_touched_tick)
  unfolding insert purge
  insert_evicts_oldest i j e f h ni nj here gone stays = ground (
    arith,
    find-emplace i k fresh c.entries,
    find-emplace j k fresh c.entries,
    find-emplace i k fresh (purged std c.entries),
    find-emplace j k fresh (purged std c.entries),
    find-purged std c.entries i h.distinct,
    purged_oldest std c.entries j i e f h.distinct,
  )

  pub limit-insert : (insert std c k v tick).limit ≡ c.limit
  unfolding insert purge
  limit-insert = ground arith

  pub find-insert_cases :
      (j : Hash128) (e : Entry V)
      → Distinct c.entries
      → find j (insert std c k v tick).entries ≡ some e
      → (find j c.entries ≡ some e) ⊎ ((j ≡ k) × (e ≡ fresh))
  unfolding insert purge
  find-insert_cases j e d h = ground (
    arith,
    find-emplace j k fresh c.entries,
    find-emplace j k fresh (purged std c.entries),
    find-purged std c.entries j d,
  )
