-- ===== src/Cache/Validity.antt =====
-- The invariant of the cache, kept by every operation.
pub mod Operations
use librtcx.Prelude.{
  ℕ, ◌<◌, ◌≡◌, refl, inl, inr, List, Bool, Option, none, some, Outcome, ok, raise, abort, Bytes,
  arith, Option-cases,
}
use librtcx.Hash.{Hash128}
use librtcx.Lru.{StdSort, LruMemoryCache, Entry, empty, find, touch, insert}
use librtcx.Lru.Map.{touch-Distinct, length-touch, find-touch}
use librtcx.Lru.Insert
use librtcx.Lru.Insert.{insert-IsValid, limit-insert, find-insert_cases}
use librtcx.Disk.{FileSystem, ReadFaults, WriteAnswers, LoadResult}
use librtcx.Cache.{
  Future, Promises, make_promise, set_value, abandon, System, CacheLimits, construct,
  clear_memory_store, clear_disk_store, clear_stats, enable,
}
use librtcx.Cache.Lock.{
  Locked, found, publish, compile, take_tick, blob_missed, lock_blob, library_missed, lock_library,
  count_blob_miss, count_library_miss, blob_hit, library_hit, lock_blob_cases, lock_library_cases,
}
use librtcx.Cache.Requests.{
  run_blob_compile, run_library_compile, after_lock_blob, after_lock_library, get_or_add_blob,
  get_or_add_library,
}

-- A memory cache of at most `limit` entries with distinct keys, whose futures have been made.
pub record IsBacked {A : Type 0} (limit : ℕ) (c : LruMemoryCache Future) (p : Promises A)
    : Type 0 where
  pub valid : Insert.IsValid c
  pub limited : c.limit ≡ limit
  pub known : (k : Hash128) (e : Entry Future) → find k c.entries ≡ some e → e.value < p.next

module _ {A : Type 0} {limit : ℕ} {c : LruMemoryCache Future} {p : Promises A} where
  pub insert-IsBacked :
      (std : StdSort) (k : Hash128) (tick : ℕ)
      → IsBacked limit c p
      → IsBacked limit (insert std c k p.next tick) (make_promise p)
  unfolding make_promise
  insert-IsBacked std k tick b = record {
    valid = insert-IsValid std c k p.next tick b.valid;
    limited = ground (arith, limit-insert std c k p.next tick);
    known = λ j e h.
        ground (arith, find-insert_cases std c k p.next tick j e b.valid.distinct h, b.known j e);
  }

  touch-IsBacked :
      (k : Hash128) (tick : ℕ)
      → IsBacked limit c p
      → IsBacked limit (record c { entries = touch k tick c.entries }) p
  touch-IsBacked k tick b = record {
    valid = record {
      distinct = touch-Distinct k tick c.entries b.valid.distinct;
      bounded = omega (arith, length-touch k tick c.entries, b.valid.bounded);
    };
    limited = b.limited;
    known = λ j e h. elim (Option-cases (find j c.entries)) [
      | inl miss ↦ ground (arith, find-touch j k tick c.entries)
      | inr (f, here) ↦ ground (arith, find-touch j k tick c.entries, b.known j f here)
    ];
  }

  pub set_value-IsBacked :
      (fut : Future) (a : A) → IsBacked limit c p → IsBacked limit c (set_value p fut a)
  unfolding set_value
  set_value-IsBacked fut a b = record { valid = b.valid; limited = b.limited; known = b.known }

  pub abandon-IsBacked : (fut : Future) → IsBacked limit c p → IsBacked limit c (abandon p fut)
  unfolding abandon
  abandon-IsBacked fut b = record { valid = b.valid; limited = b.limited; known = b.known }

pub record IsValid (s : System) : Type 0 where
  pub blobs : IsBacked s.limits.num_mem_blobs s.blobs_cache s.blob_promises
  pub libraries : IsBacked s.limits.num_mem_libraries s.libraries_cache s.library_promises

pub blob_missed-IsValid :
    (std : StdSort) (s : System) (hash : Hash128) (tick : ℕ) (disk : Option Bytes)
    → IsValid s
    → IsValid (blob_missed std s hash tick disk).0
unfolding blob_missed
blob_missed-IsValid std s hash tick none v = record {
  blobs = insert-IsBacked std hash tick v.blobs;
  libraries = v.libraries;
}
blob_missed-IsValid std s hash tick (some contents) v = record {
  blobs = set_value-IsBacked _ contents (insert-IsBacked std hash tick v.blobs);
  libraries = v.libraries;
}

pub library_missed-IsValid :
    (std : StdSort) (s : System) (hash : Hash128) (tick : ℕ) (disk : Option ℕ)
    → IsValid s
    → IsValid (library_missed std s hash tick disk).0
unfolding library_missed
library_missed-IsValid std s hash tick none v = record {
  blobs = v.blobs;
  libraries = insert-IsBacked std hash tick v.libraries;
}
library_missed-IsValid std s hash tick (some handle) v = record {
  blobs = v.blobs;
  libraries = insert-IsBacked std hash tick v.libraries;
}

pub counted_blobs : {s : System} → IsValid s → IsValid (count_blob_miss s)
counted_blobs v = record { blobs = v.blobs; libraries = v.libraries }

pub counted_libraries : {s : System} → IsValid s → IsValid (count_library_miss s)
counted_libraries v = record { blobs = v.blobs; libraries = v.libraries }

pub blob_hit-IsValid :
    {s : System} (hash : Hash128) (tick : ℕ) → IsValid s → IsValid (blob_hit s hash tick)
unfolding blob_hit
blob_hit-IsValid hash tick v = record {
  blobs = touch-IsBacked hash tick v.blobs;
  libraries = v.libraries;
}

pub library_hit-IsValid :
    {s : System} (hash : Hash128) (tick : ℕ) → IsValid s → IsValid (library_hit s hash tick)
unfolding library_hit
library_hit-IsValid hash tick v = record {
  blobs = v.blobs;
  libraries = touch-IsBacked hash tick v.libraries;
}

pub lock_blob-IsValid :
    (std : StdSort) (faults : ReadFaults) (s : System) (hash : Hash128) (tick : ℕ)
    → IsValid s
    → IsValid (lock_blob std faults s hash tick).0
lock_blob-IsValid std faults s hash tick v =
    let w = counted_blobs v in
    lock_blob_cases std faults s hash tick (λ r. IsValid r.0) (λ e h. blob_hit-IsValid hash tick v)
      (λ disk h r. blob_missed-IsValid std (count_blob_miss s) hash tick disk w) (λ e. w) w

pub lock_library-IsValid :
    (std : StdSort) (load : Bytes → LoadResult) (s : System) (hash : Hash128) (tick : ℕ)
    → IsValid s
    → IsValid (lock_library std load s hash tick).0
lock_library-IsValid std load s hash tick v =
    let w = counted_libraries v in
    lock_library_cases std load s hash tick (λ r. IsValid r.0)
      (λ e h. library_hit-IsValid hash tick v)
      (λ disk h r. library_missed-IsValid std (count_library_miss s) hash tick disk w) (λ e. w) w

pub after_lock_blob-IsValid :
    (compiled : Outcome Bytes) (answers : WriteAnswers) (hash : Hash128)
    (r : System × Outcome (Locked Bytes))
    → IsValid r.0
    → IsValid (after_lock_blob compiled answers hash r).0
unfolding after_lock_blob run_blob_compile
after_lock_blob-IsValid compiled answers hash (s, ok (found fut)) v = v
after_lock_blob-IsValid compiled answers hash (s, ok (publish fut contents)) v = record {
  blobs = set_value-IsBacked fut contents v.blobs;
  libraries = v.libraries;
}
after_lock_blob-IsValid (ok result) answers hash (s, ok (compile fut)) v = record {
  blobs = set_value-IsBacked fut result v.blobs;
  libraries = v.libraries;
}
after_lock_blob-IsValid (raise e) answers hash (s, ok (compile fut)) v = record {
  blobs = abandon-IsBacked fut v.blobs;
  libraries = v.libraries;
}
after_lock_blob-IsValid abort answers hash (s, ok (compile fut)) v = v
after_lock_blob-IsValid compiled answers hash (s, raise e) v = v
after_lock_blob-IsValid compiled answers hash (s, abort) v = v

pub after_lock_library-IsValid :
    (compiled : Outcome (ℕ × Bytes)) (answers : WriteAnswers) (hash : Hash128)
    (r : System × Outcome (Locked ℕ))
    → IsValid r.0
    → IsValid (after_lock_library compiled answers hash r).0
unfolding after_lock_library run_library_compile
after_lock_library-IsValid compiled answers hash (s, ok (found fut)) v = v
after_lock_library-IsValid compiled answers hash (s, ok (publish fut handle)) v = record {
  blobs = v.blobs;
  libraries = set_value-IsBacked fut handle v.libraries;
}
after_lock_library-IsValid (ok (handle, binary)) answers hash (s, ok (compile fut)) v = record {
  blobs = v.blobs;
  libraries = set_value-IsBacked fut handle v.libraries;
}
after_lock_library-IsValid (raise e) answers hash (s, ok (compile fut)) v = record {
  blobs = v.blobs;
  libraries = abandon-IsBacked fut v.libraries;
}
after_lock_library-IsValid abort answers hash (s, ok (compile fut)) v = v
after_lock_library-IsValid compiled answers hash (s, raise e) v = v
after_lock_library-IsValid compiled answers hash (s, abort) v = v

pub take_tick-IsValid : {s : System} → IsValid s → IsValid (take_tick s)
unfolding take_tick
take_tick-IsValid v = record { blobs = v.blobs; libraries = v.libraries }

-- Requests for a blob and for a library keep a cache valid, with distinct keys, entries within the
-- limits and futures that were made, whatever the disk, the driver and the compilation do.
pub get_or_add-IsValid :
    (std : StdSort) (faults : ReadFaults) (load : Bytes → LoadResult)
    (compiled_blob : Outcome Bytes) (compiled_library : Outcome (ℕ × Bytes))
    (answers : WriteAnswers) (s : System) (hash : Hash128)
    → IsValid s
    → IsValid (get_or_add_blob std faults compiled_blob answers s hash).0
      × IsValid (get_or_add_library std load compiled_library answers s hash).0
unfolding get_or_add_blob get_or_add_library
get_or_add-IsValid std faults load compiled_blob compiled_library answers s hash v = (
  after_lock_blob-IsValid compiled_blob answers hash _
      (lock_blob-IsValid std faults (take_tick s) hash s.tick (take_tick-IsValid v)),
  after_lock_library-IsValid compiled_library answers hash _
      (lock_library-IsValid std load (take_tick s) hash s.tick (take_tick-IsValid v)),
)
