-- ===== src/Cache/Stats.antt =====
-- The counters of `cache_stats_counter` over runs of requests.
use librtcx.Prelude.{
  ℕ, ◌+◌, ◌^◌, ◌≤◌, ◌<◌, ◌≡◌, refl, ◌⊎◌, inl, inr, List, [], ◌∷◌, Option, none, some, Outcome, ok,
  raise, abort, Bytes, arith, length,
}
use librtcx.Hash.{Hash128}
use librtcx.Lru.{StdSort}
use librtcx.Disk.{ReadFaults, WriteAnswers}
use librtcx.Cache.{CacheStats, System, incr, get_stats, clear_stats}
use librtcx.Cache.Lock.{
  Locked, found, publish, compile, take_tick, blob_hit, blob_missed, count_blob_miss, lock_blob,
  lock_blob_cases,
}
use librtcx.Cache.Requests.{run_blob_compile, after_lock_blob, get_or_add_blob}

-- A request with what its environment would answer.
pub record Request : Type 0 where
  pub hash : Hash128
  pub faults : ReadFaults
  pub compiled : Outcome Bytes
  pub answers : WriteAnswers

-- Requests for blobs one after another; the callers catch exceptions.
unfoldable pub run : StdSort → List Request → System → System
run std [] s = s
run std (r ∷ rs) s = run std rs (get_or_add_blob std r.faults r.compiled r.answers s r.hash).0

-- One request counts as a hit or a miss in memory; a miss also as a hit or a miss on the disk, unless
-- the disk cannot be read.
abbrev OneRequest : CacheStats → CacheStats → Type 0
OneRequest c d =
    ((d.blob_mem_hits ≡ incr c.blob_mem_hits)
      × (d.blob_mem_misses ≡ c.blob_mem_misses)
      × (d.blob_disk_hits ≡ c.blob_disk_hits)
      × (d.blob_disk_misses ≡ c.blob_disk_misses))
    ⊎ ((d.blob_mem_hits ≡ c.blob_mem_hits)
        × (d.blob_mem_misses ≡ incr c.blob_mem_misses)
        × (((d.blob_disk_hits ≡ incr c.blob_disk_hits) × (d.blob_disk_misses ≡ c.blob_disk_misses))
            ⊎ ((d.blob_disk_hits ≡ c.blob_disk_hits)
                × ((d.blob_disk_misses ≡ incr c.blob_disk_misses)
                    ⊎ (d.blob_disk_misses ≡ c.blob_disk_misses)))))

missed-counter :
    (std : StdSort) (s : System) (hash : Hash128) (tick : ℕ) (disk : Option Bytes)
    → OneRequest s.counter (blob_missed std (count_blob_miss s) hash tick disk).0.counter
unfolding blob_missed
missed-counter std s hash tick none = inr (refl, refl, inr (refl, inl refl))
missed-counter std s hash tick (some c) = inr (refl, refl, inl (refl, refl))

lock_blob-counter :
    (std : StdSort) (faults : ReadFaults) (s : System) (hash : Hash128) (tick : ℕ)
    → OneRequest s.counter (lock_blob std faults s hash tick).0.counter
unfolding blob_hit
lock_blob-counter std faults s hash tick =
    lock_blob_cases std faults s hash tick (λ r. OneRequest s.counter r.0.counter)
      (λ e h. inl (refl, refl, refl, refl)) (λ disk h r. missed-counter std s hash tick disk)
      (λ e. inr (refl, refl, inr (refl, inr refl))) (inr (refl, refl, inr (refl, inr refl)))

after_lock_blob-counter :
    (compiled : Outcome Bytes) (answers : WriteAnswers) (hash : Hash128)
    (r : System × Outcome (Locked Bytes))
    → (after_lock_blob compiled answers hash r).0.counter ≡ r.0.counter
unfolding after_lock_blob run_blob_compile
after_lock_blob-counter compiled answers hash (s, ok (found f)) = refl
after_lock_blob-counter compiled answers hash (s, ok (publish f c)) = refl
after_lock_blob-counter (ok result) answers hash (s, ok (compile f)) = refl
after_lock_blob-counter (raise e) answers hash (s, ok (compile f)) = refl
after_lock_blob-counter abort answers hash (s, ok (compile f)) = refl
after_lock_blob-counter compiled answers hash (s, raise e) = refl
after_lock_blob-counter compiled answers hash (s, abort) = refl

get_or_add_blob-counter :
    (std : StdSort) (r : Request) (s : System)
    → OneRequest s.counter (get_or_add_blob std r.faults r.compiled r.answers s r.hash).0.counter
unfolding get_or_add_blob
get_or_add_blob-counter std r s =
    rw after_lock_blob-counter (lock_blob-counter std r.faults (take_tick s) r.hash s.tick)

-- The counters of `n` requests.
abbrev Counted : ℕ → CacheStats → Type 0
Counted n c =
    (c.blob_mem_hits + c.blob_mem_misses ≡ n)
    × (c.blob_disk_hits + c.blob_disk_misses ≤ c.blob_mem_misses)

run-Counted :
    (std : StdSort) (rs : List Request) (s : System) (n : ℕ)
    → n + length rs < 2 ^ 64
    → Counted n s.counter
    → Counted (n + length rs) (run std rs s).counter
unfolding run incr
run-Counted std [] s n lt c = omega arith
run-Counted std (r ∷ rs) s n lt c =
    let t = (get_or_add_blob std r.faults r.compiled r.answers s r.hash).0 in
    let next : Counted (n + 1) t.counter = omega (arith, get_or_add_blob-counter std r s) in
    omega (arith, run-Counted std rs t (n + 1) (omega arith) next)

-- After the counters are cleared and fewer than 2 ^ 64 blobs are asked for, the hits and the misses
-- in memory add up to the number of requests, and those on the disk to no more than the misses in
-- memory.
pub get_stats-run :
    (std : StdSort) (rs : List Request) (s : System)
    → length rs < 2 ^ 64
    → let d = get_stats (run std rs (clear_stats s)) in
      (d.blob_mem_hits + d.blob_mem_misses ≡ length rs)
      × (d.blob_disk_hits + d.blob_disk_misses ≤ d.blob_mem_misses)
unfolding get_stats clear_stats
get_stats-run std rs s lt =
    omega (arith, run-Counted std rs (clear_stats s) 0 (omega arith) (omega arith))
