-- ===== src/Cache/Lock.antt =====
-- The first parts of `get_or_add_blob` and `get_or_add_library` of src/rtcx.cpp: the tick, and what
-- is done under the lock.
use librtcx.Prelude.{
  ℕ, Bool, Option, none, some, Outcome, ok, raise, abort, Bytes, Error, ◌≡◌, inl, inr, Option-cases,
  Outcome-cases, if◌then◌else◌,
}
use librtcx.Hash.{Hash128}
use librtcx.Lru.{StdSort, LruMemoryCache, Entry, find, touch, insert}
use librtcx.Disk.{ReadFaults, LoadResult, blob, get_disk_blob, get_disk_library}
use librtcx.Cache.{Future, make_promise, set_value, incr, System}

-- How the part under the lock ends: with a future to return; with a library from the disk, whose
-- future is still to be set; or with a compilation to run.
pub data Locked (A : Type 0) : Type 0 where
  found : Future → Locked A
  publish : Future → A → Locked A
  compile : Future → Locked A

-- `tick.fetch_add(1)`; the old value is the caller's `current_tick`.
unfoldable pub take_tick : System → System
take_tick s = record s { tick = incr s.tick }

-- `enabled_ ? entries_.find(hash) : entries_.end()`.
unfoldable pub find_enabled : Bool → LruMemoryCache Future → Hash128 → Option (Entry Future)
find_enabled enabled c hash = if enabled then find hash c.entries else none

abbrev pub count_blob_miss : System → System
count_blob_miss s = record s {
  counter = record s.counter { blob_mem_misses = incr s.counter.blob_mem_misses };
}

-- The entry is found: `incr` on the counter, `hit` on the entry.
unfoldable pub blob_hit : System → Hash128 → ℕ → System
blob_hit s hash current_tick = record s {
  counter = record s.counter { blob_mem_hits = incr s.counter.blob_mem_hits };
  blobs_cache = record s.blobs_cache { entries = touch hash current_tick s.blobs_cache.entries };
}

-- The disk is looked at only if the cache is enabled.
unfoldable pub read_disk_blob : ReadFaults → System → Hash128 → Outcome (Option Bytes)
read_disk_blob faults s hash =
    if s.enabled then get_disk_blob faults s.files s.cache_dir blob hash else ok none

abbrev pub count_library_miss : System → System
count_library_miss s = record s {
  counter = record s.counter { library_mem_misses = incr s.counter.library_mem_misses };
}

-- The entry is found: `incr` on the counter, `hit` on the entry.
unfoldable pub library_hit : System → Hash128 → ℕ → System
library_hit s hash current_tick = record s {
  counter = record s.counter { library_mem_hits = incr s.counter.library_mem_hits };
  libraries_cache = record s.libraries_cache {
    entries = touch hash current_tick s.libraries_cache.entries;
  };
}

-- The disk is looked at only if the cache is enabled.
unfoldable pub read_disk_library : (Bytes → LoadResult) → System → Hash128 → Outcome (Option ℕ)
read_disk_library load s hash =
    if s.enabled then get_disk_library load s.files s.cache_dir hash else ok none

module _ (std : StdSort) where
  -- The memory cache misses, and the disk was looked at.
  unfoldable pub blob_missed : System → Hash128 → ℕ → Option Bytes → System × Locked Bytes
  blob_missed s hash current_tick (some contents) =
      let fut = s.blob_promises.next in
      (
        record s {
          counter = record s.counter { blob_disk_hits = incr s.counter.blob_disk_hits };
          blob_promises = set_value (make_promise s.blob_promises) fut contents;
          blobs_cache = insert std s.blobs_cache hash fut current_tick;
        },
        found fut,
      )
  blob_missed s hash current_tick none =
      let fut = s.blob_promises.next in
      (
        record s {
          counter = record s.counter { blob_disk_misses = incr s.counter.blob_disk_misses };
          blob_promises = make_promise s.blob_promises;
          blobs_cache = insert std s.blobs_cache hash fut current_tick;
        },
        compile fut,
      )

  -- `get_or_add_blob` under the lock. An exception of the disk read leaves the miss counted.
  unfoldable pub lock_blob : ReadFaults → System → Hash128 → ℕ → System × Outcome (Locked Bytes)
  lock_blob faults s hash current_tick = elim (find_enabled s.enabled s.blobs_cache hash) [
    | some e ↦ (blob_hit s hash current_tick, ok (found e.value))
    | none ↦
        let s' = count_blob_miss s in
        elim (read_disk_blob faults s hash) [
          | ok disk ↦ let (t, locked) = blob_missed s' hash current_tick disk in (t, ok locked)
          | raise e ↦ (s', raise e)
          | abort ↦ (s', abort)
        ]
  ]

  unfoldable pub library_missed : System → Hash128 → ℕ → Option ℕ → System × Locked ℕ
  library_missed s hash current_tick (some handle) =
      let fut = s.library_promises.next in
      (
        record s {
          counter = record s.counter { library_disk_hits = incr s.counter.library_disk_hits };
          library_promises = make_promise s.library_promises;
          libraries_cache = insert std s.libraries_cache hash fut current_tick;
        },
        publish fut handle,
      )
  library_missed s hash current_tick none =
      let fut = s.library_promises.next in
      (
        record s {
          counter = record s.counter { library_disk_misses = incr s.counter.library_disk_misses };
          library_promises = make_promise s.library_promises;
          libraries_cache = insert std s.libraries_cache hash fut current_tick;
        },
        compile fut,
      )

  -- `get_or_add_library` under the lock.
  unfoldable pub lock_library :
      (Bytes → LoadResult) → System → Hash128 → ℕ → System × Outcome (Locked ℕ)
  lock_library load s hash current_tick = elim (find_enabled s.enabled s.libraries_cache hash) [
    | some e ↦ (library_hit s hash current_tick, ok (found e.value))
    | none ↦
        let s' = count_library_miss s in
        elim (read_disk_library load s hash) [
          | ok disk ↦ let (t, locked) = library_missed s' hash current_tick disk in (t, ok locked)
          | raise e ↦ (s', raise e)
          | abort ↦ (s', abort)
        ]
  ]

module _ {ℓ} (std : StdSort) (faults : ReadFaults) (s : System) (hash : Hash128) (current_tick : ℕ)
    (P : System × Outcome (Locked Bytes) → Type ℓ) where
  pub lock_blob_cases :
      ((e : Entry Future)
        → find_enabled s.enabled s.blobs_cache hash ≡ some e
        → P (blob_hit s hash current_tick, ok (found e.value)))
      → ((disk : Option Bytes)
          → find_enabled s.enabled s.blobs_cache hash ≡ none
          → read_disk_blob faults s hash ≡ ok disk
          → P (
            (blob_missed std (count_blob_miss s) hash current_tick disk).0,
            ok (blob_missed std (count_blob_miss s) hash current_tick disk).1,
          ))
      → ((e : Error) → P (count_blob_miss s, raise e))
      → P (count_blob_miss s, abort)
      → P (lock_blob std faults s hash current_tick)
  unfolding lock_blob
  lock_blob_cases hit miss fail stop =
      elim (Option-cases (find_enabled s.enabled s.blobs_cache hash)) [
        | inr (e, h) ↦ rw (h, lock_blob) (hit e h)
        | inl h ↦ elim (Outcome-cases (read_disk_blob faults s hash)) [
          | inl (disk, r) ↦ rw (h, lock_blob) (rw (r, lock_blob) (miss disk h r))
          | inr (inl (e, r)) ↦ rw (h, lock_blob) (rw (r, lock_blob) (fail e))
          | inr (inr r) ↦ rw (h, lock_blob) (rw (r, lock_blob) stop)
        ]
      ]

module _ {ℓ} (std : StdSort) (load : Bytes → LoadResult) (s : System) (hash : Hash128)
    (current_tick : ℕ) (P : System × Outcome (Locked ℕ) → Type ℓ) where
  pub lock_library_cases :
      ((e : Entry Future)
        → find_enabled s.enabled s.libraries_cache hash ≡ some e
        → P (library_hit s hash current_tick, ok (found e.value)))
      → ((disk : Option ℕ)
          → find_enabled s.enabled s.libraries_cache hash ≡ none
          → read_disk_library load s hash ≡ ok disk
          → P (
            (library_missed std (count_library_miss s) hash current_tick disk).0,
            ok (library_missed std (count_library_miss s) hash current_tick disk).1,
          ))
      → ((e : Error) → P (count_library_miss s, raise e))
      → P (count_library_miss s, abort)
      → P (lock_library std load s hash current_tick)
  unfolding lock_library
  lock_library_cases hit miss fail stop =
      elim (Option-cases (find_enabled s.enabled s.libraries_cache hash)) [
        | inr (e, h) ↦ rw (h, lock_library) (hit e h)
        | inl h ↦ elim (Outcome-cases (read_disk_library load s hash)) [
          | inl (disk, r) ↦ rw (h, lock_library) (rw (r, lock_library) (miss disk h r))
          | inr (inl (e, r)) ↦ rw (h, lock_library) (rw (r, lock_library) (fail e))
          | inr (inr r) ↦ rw (h, lock_library) (rw (r, lock_library) stop)
        ]
      ]
