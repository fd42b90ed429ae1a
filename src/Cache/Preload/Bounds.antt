-- ===== src/Cache/Preload/Bounds.antt =====
-- Preloading keeps the invariant, ends, and reads no more entries than the limits add up to.
use librtcx.Prelude.{
  ℕ, ◌+◌, ◌^◌, ◌≤◌, ◌<◌, ◌≡◌, inl, inr, List, [], ◌∷◌, Bool, true, false, Option, none, some,
  Outcome, ok, Bytes, codes, ends_with, if◌then◌else◌, min, arith, Outcome-cases, Ensures,
  Ensures-bind, Ensures_elim,
}
use librtcx.Hash.{Hash128}
use librtcx.Lru.{StdSort}
use librtcx.Disk.{ReadFaults, LoadResult, path_hash, from_file, get_disk_library}
use librtcx.Cache.{System, CacheLimits, incr}
use librtcx.Cache.Validity.{IsValid, insert-IsBacked, set_value-IsBacked}
use librtcx.Cache.Preload.{
  load_count, add_blob, add_library, preload_entry, preload_entries, preload_from_disk,
}

-- Where the sum of the limits fits 32 bits, as many entries are read as there are, or as the two
-- caches hold together.
pub load_count_lem :
    (limits : CacheLimits) (size : ℕ)
    → limits.num_mem_blobs + limits.num_mem_libraries < 2 ^ 32
    → load_count limits size ≡ min size (limits.num_mem_blobs + limits.num_mem_libraries)
unfolding load_count
load_count_lem limits size small = omega arith

-- Where the sum of two 32-bit limits is 2 ^ 32 or more it wraps around, and preloading reads fewer
-- entries than either cache holds.
pub load_count_wraps :
    (limits : CacheLimits) (size : ℕ)
    → limits.num_mem_blobs < 2 ^ 32
    → limits.num_mem_libraries < 2 ^ 32
    → 2 ^ 32 ≤ limits.num_mem_blobs + limits.num_mem_libraries
    → (load_count limits size < limits.num_mem_blobs)
      × (load_count limits size < limits.num_mem_libraries)
unfolding load_count
load_count_wraps limits size b l large = (omega arith, omega arith)

module _ (std : StdSort) where
  add_blob-IsValid :
      (s : System) (hash : Hash128) (disk : Option Bytes)
      → IsValid s
      → IsValid (add_blob std s hash disk)
  unfolding add_blob
  add_blob-IsValid s hash none v = v
  add_blob-IsValid s hash (some c) v = record {
    blobs = set_value-IsBacked s.blob_promises.next c (insert-IsBacked std hash s.tick v.blobs);
    libraries = v.libraries;
  }

  add_library-IsValid :
      (s : System) (hash : Hash128) (disk : Option ℕ)
      → IsValid s
      → IsValid (add_library std s hash disk)
  unfolding add_library
  add_library-IsValid s hash none v = v
  add_library-IsValid s hash (some l) v = record {
    blobs = v.blobs;
    libraries =
        set_value-IsBacked s.library_promises.next l (insert-IsBacked std hash s.tick v.libraries);
  }

  module _ (faults : Bytes → ReadFaults) (load : Bytes → LoadResult) where
    Ensures-if :
        (b : Bool) (x y : Outcome System)
        → Ensures IsValid x
        → Ensures IsValid y
        → Ensures IsValid (if b then x else y)
    Ensures-if true x y hx hy = hx
    Ensures-if false x y hx hy = hy

    preload_entry-IsValid :
        (s : System) (path : Bytes)
        → IsValid s
        → Ensures IsValid (preload_entry std faults load s path)
    unfolding preload_entry
    preload_entry-IsValid s path v = Ensures-bind IsValid (path_hash path) _ λ hash _.
        Ensures-if (ends_with path (codes ".blob.bin")) _ _
          (Ensures-bind IsValid (from_file (faults path) s.files path) _
            (λ disk _. add_blob-IsValid s hash disk v))
          (Ensures-if (ends_with path (codes ".cuLibrary.bin")) _ _
            (Ensures-bind IsValid (get_disk_library load s.files s.cache_dir hash) _
              (λ disk _. add_library-IsValid s hash disk v))
            v)

    preload_entries-IsValid :
        (s : System) (entries : List Bytes)
        → IsValid s
        → Ensures IsValid (preload_entries std faults load s entries)
    unfolding preload_entries
    preload_entries-IsValid s [] v = v
    preload_entries-IsValid s (path ∷ entries) v =
        let one = preload_entry-IsValid s path v in
        elim (Outcome-cases (preload_entry std faults load s path)) [
          | inl (u, h) ↦
              rw (h, preload_entries)
                (preload_entries-IsValid u entries (Ensures_elim IsValid _ u one h))
          | inr (inl (x, h)) ↦ rw (h, preload_entries) (preload_entries-IsValid s entries v)
          | inr (inr h) ↦ rw (h, preload_entries) tt
        ]

    -- If preloading a valid cache returns, the cache is valid: its keys are distinct, it keeps its
    -- limits, and its futures were made.
    pub preload_from_disk-IsValid :
        (listing : Outcome (List (Bytes × Bool))) (s t : System)
        → IsValid s
        → preload_from_disk std faults load listing s ≡ ok t
        → IsValid t
    unfolding preload_from_disk
    preload_from_disk-IsValid listing s t v e =
        Ensures_elim IsValid (preload_from_disk std faults load listing s) t
          (Ensures-bind IsValid listing _ λ found _.
            preload_entries-IsValid (record s { tick = incr s.tick }) _
              (record { blobs = v.blobs; libraries = v.libraries }))
          e
