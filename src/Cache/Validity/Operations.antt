-- ===== src/Cache/Validity/Operations.antt =====
-- The operations that do not look anything up.
use librtcx.Prelude.{
  [], ◌∷◌, false, none, Ensures, All, text_eq_iff, ℕ, ◌≡◌, refl, List, Bool, none, Outcome, ok,
  raise, abort, Bytes, arith,
}
use librtcx.Lru.{LruMemoryCache, empty, find}
use librtcx.Lru.Insert
use librtcx.Lru.Insert.{insert-IsValid, limit-insert, find-insert_cases}
use librtcx.Disk.{FileSystem, get_disk_entries, read}
use librtcx.Cache.{
  Future, Promises, System, CacheLimits, construct, clear_memory_store, clear_disk_store,
  clear_stats, enable,
}
use librtcx.Cache.{remove_entries}
use librtcx.Disk.Files.{read-remove}
use librtcx.Cache.Validity.{IsBacked, IsValid}

pub empty-IsBacked : {A : Type 0} (limit : ℕ) (p : Promises A) → IsBacked limit (empty limit) p
unfolding find
empty-IsBacked limit p = record {
  valid = Insert.empty-IsValid limit;
  limited = refl;
  known = λ k e h. absurd (ground arith);
}

pub clear-IsBacked :
    {A : Type 0} {limit : ℕ} {c : LruMemoryCache Future} {p : Promises A}
    → IsBacked limit c p
    → IsBacked limit (empty c.limit) p
clear-IsBacked {limit = limit} {p = p} b = rw b.limited (empty-IsBacked limit p)

pub cleared_disk-IsValid :
    (throws : Bytes → Bool) (listing : Outcome (List (Bytes × Bool))) (s : System)
    → IsValid s
    → Ensures IsValid (clear_disk_store throws listing s)
unfolding clear_disk_store
cleared_disk-IsValid throws (ok entries) s v = record { blobs = v.blobs; libraries = v.libraries }
cleared_disk-IsValid throws (raise e) s v = tt
cleared_disk-IsValid throws abort s v = tt

-- The constructor and the operations that do not look anything up keep the
-- invariant.
pub operations-IsValid :
    (cache_dir tmp_dir : Bytes) (limits : CacheLimits) (disable : Bool) (blobs : Promises Bytes)
    (libraries : Promises ℕ) (files : FileSystem) (throws : Bytes → Bool)
    (listing : Outcome (List (Bytes × Bool))) (on : Bool) (s : System)
    → IsValid s
    → IsValid (construct cache_dir tmp_dir limits disable blobs libraries files)
      × IsValid (clear_memory_store s)
      × Ensures IsValid (clear_disk_store throws listing s)
      × IsValid (clear_stats s)
      × IsValid (enable on s)
unfolding construct clear_memory_store clear_stats enable
operations-IsValid cache_dir tmp_dir limits disable blobs libraries files throws listing on s v = (
  record {
    blobs = empty-IsBacked limits.num_mem_blobs blobs;
    libraries = empty-IsBacked limits.num_mem_libraries libraries;
  },
  record { blobs = clear-IsBacked v.blobs; libraries = clear-IsBacked v.libraries },
  cleared_disk-IsValid throws listing s v,
  record { blobs = v.blobs; libraries = v.libraries },
  record { blobs = v.blobs; libraries = v.libraries },
)

read-remove_entries :
    (throws : Bytes → Bool) (entries : List Bytes) (fs : FileSystem) (p : Bytes)
    → read p fs ≡ none
    → read p (remove_entries throws entries fs) ≡ none
unfolding remove_entries
read-remove_entries throws [] fs p h = h
read-remove_entries throws (q ∷ entries) fs p h =
    read-remove_entries throws entries _ p (ground (arith, read-remove p q fs))

remove_entries-clears :
    (throws : Bytes → Bool) (entries : List Bytes) (fs : FileSystem)
    → All (λ p. throws p ≡ false → read p (remove_entries throws entries fs) ≡ none) entries
unfolding remove_entries
remove_entries-clears throws [] fs = tt
remove_entries-clears throws (q ∷ entries) fs = (
  λ stays.
      read-remove_entries throws entries _ q (ground (arith, read-remove q q fs, text_eq_iff q q)),
  remove_entries-clears throws entries _,
)

-- Clearing the disk store removes each regular file that the directory lists, but those whose
-- removal throws, and touches nothing else of the cache.
pub clear_disk_store-clears :
    (throws : Bytes → Bool) (listing : List (Bytes × Bool)) (s : System)
    → (t : System) × (clear_disk_store throws (ok listing) s ≡ ok t)
      × All (λ p. throws p ≡ false → read p t.files ≡ none) (get_disk_entries listing)
      × (t ≡ record s { files = t.files })
unfolding clear_disk_store
clear_disk_store-clears throws listing s =
    (_, refl, remove_entries-clears throws (get_disk_entries listing) s.files, refl)
