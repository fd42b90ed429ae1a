-- ===== src/Tests/LruRuns.antt =====
-- `lru_memory_cache` on a full cache of three entries.
use librtcx.Prelude.{ℕ, ◌≤◌, ◌≡◌, refl, [], ◌∷◌, some, arith}
use librtcx.Lru.{
  Entry, LruMemoryCache, find, erase, emplace, touch, erase_all, purged, purge, insert,
}
use librtcx.Lru.Insert.{IsValid, insert_evicts_oldest}
use librtcx.Tests.Sorting.{std, place, insertion_sort}

program : Unit {0}
unfolding find erase emplace touch erase_all purged purge insert insertion_sort place
program = tt

abbrev entry : ℕ → ℕ → Entry ℕ
entry tick value = record { last_touched_tick = tick; value = value }

abbrev full : LruMemoryCache ℕ
full = record {
  entries = (10, entry 5 100) ∷ (11, entry 2 110) ∷ (12, entry 9 120) ∷ [];
  limit = 3;
}

-- Two of three go: the entries of ticks 2 and 5.
insert-full : (insert std full 13 130 11).entries ≡ (13, entry 11 130) ∷ (12, entry 9 120) ∷ []
unfolding program
insert-full = refl

-- A key that is there keeps its entry.
insert-present : (insert std (record full { limit = 4 }) 11 999 11).entries ≡ full.entries
unfolding program
insert-present = refl

insert-disabled :
    insert std (record full { entries = []; limit = 0 }) 11 999 11
    ≡ record full { entries = []; limit = 0 }
unfolding program
insert-disabled = refl

full-IsValid : IsValid full
unfolding find
full-IsValid = record { distinct = (refl, (refl, (refl, tt))); bounded = omega arith }

insert_evicts_oldest_example :
    (find 12 full.entries ≡ some (entry 9 120)) × (5 ≤ (entry 9 120).last_touched_tick)
unfolding program
insert_evicts_oldest_example =
    insert_evicts_oldest std full 13 130 11 12 10 (entry 5 100) (entry 9 120) full-IsValid
      (omega arith) (omega arith) refl refl refl
