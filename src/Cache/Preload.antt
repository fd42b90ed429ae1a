-- ===== src/Cache/Preload.antt =====
-- `preload_from_disk` of src/rtcx.cpp.
pub mod Bounds
pub mod Contents
use librtcx.Prelude.{
  ℕ, ◌+◌, ◌%◌, ◌^◌, List, [], ◌∷◌, Bool, true, false, Option, none, some, Outcome, ok, raise, abort,
  ◌>>=◌, Bytes, codes, ends_with, if◌then◌else◌, length, take, min,
}
use librtcx.Hash.{Hash128}
use librtcx.Lru.{StdSort, insert}
use librtcx.Disk.{ReadFaults, LoadResult, path_hash, from_file, get_disk_library, get_disk_entries}
use librtcx.Cache.{System, CacheLimits, make_promise, set_value, incr}

-- `std::min<std::size_t>(entries.size(), num_mem_blobs + num_mem_libraries)`: the sum is one of
-- 32-bit unsigned numbers.
unfoldable pub load_count : CacheLimits → ℕ → ℕ
load_count limits size = min size ((limits.num_mem_blobs + limits.num_mem_libraries) % 2 ^ 32)

module _ (std : StdSort) where
  -- What a blob that was read does to the cache.
  unfoldable pub add_blob : System → Hash128 → Option Bytes → System
  add_blob s hash none = s
  add_blob s hash (some contents) =
      let fut = s.blob_promises.next in
      record s {
        blob_promises = set_value (make_promise s.blob_promises) fut contents;
        blobs_cache = insert std s.blobs_cache hash fut s.tick;
      }

  unfoldable pub add_library : System → Hash128 → Option ℕ → System
  add_library s hash none = s
  add_library s hash (some handle) =
      let fut = s.library_promises.next in
      record s {
        library_promises = set_value (make_promise s.library_promises) fut handle;
        libraries_cache = insert std s.libraries_cache hash fut s.tick;
      }

  -- The body of the `try` of the loop.
  unfoldable pub preload_entry :
      (Bytes → ReadFaults) → (Bytes → LoadResult) → System → Bytes → Outcome System
  preload_entry faults load s path = do
    hash ← path_hash path
    if ends_with path (codes ".blob.bin")
        then (do disk ← from_file (faults path) s.files path; ok (add_blob s hash disk))
        else if ends_with path (codes ".cuLibrary.bin")
        then (do
          disk ← get_disk_library load s.files s.cache_dir hash
          ok (add_library s hash disk))
        else ok s

  -- The loop: an exception is logged, and the entry passed over.
  unfoldable pub preload_entries :
      (Bytes → ReadFaults) → (Bytes → LoadResult) → System → List Bytes → Outcome System
  preload_entries faults load s [] = ok s
  preload_entries faults load s (path ∷ entries) = elim (preload_entry faults load s path) [
    | ok t ↦ preload_entries faults load t entries
    | raise e ↦ preload_entries faults load s entries
    | abort ↦ abort
  ]

  -- `preload_from_disk`, over what the directory iterator gives, if it can be opened.
  unfoldable pub preload_from_disk :
      (Bytes → ReadFaults)
      → (Bytes → LoadResult)
      → Outcome (List (Bytes × Bool))
      → System
      → Outcome System
  preload_from_disk faults load listing s = do
    found ← listing
    let entries = get_disk_entries found
    preload_entries faults load (record s { tick = incr s.tick })
        (take (load_count s.limits (length entries)) entries)

  -- The whole constructor of `cache_t`: the preloading follows, if it is asked for.
  unfoldable pub start :
      (Bytes → ReadFaults)
      → (Bytes → LoadResult)
      → Outcome (List (Bytes × Bool))
      → Bool
      → System
      → Outcome System
  start faults load listing preload constructed =
      if preload then preload_from_disk faults load listing constructed else ok constructed
