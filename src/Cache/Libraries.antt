-- ===== src/Cache/Libraries.antt =====
-- The library cache against its specification: a function from hashes to binaries, of which the
-- handles that the cache gives are the loaded libraries.
pub mod Locks
pub mod Lent
use librtcx.Prelude.{
  ℕ, ◌≤◌, ◌<◌, ◌≡◌, refl, inl, inr, Option, none, some, Outcome, ok, raise, abort, Bytes, arith,
  if◌then◌else◌, ◌==◌, Option-cases,
}
use librtcx.Hash.{Hash128, IsHash128}
use librtcx.Lru.{StdSort, Entry, find}
use librtcx.Lru.Map.{find-touch}
use librtcx.Lru.Insert.{find-insert_cases}
use librtcx.Disk.{
  FileSystem, WriteAnswers, LoadResult, loaded, library, object_path, read, get_disk_library,
}
use librtcx.Cache.{Future, ready, make_promise, set_value, abandon, System}
use librtcx.Cache.Lock.{
  Locked, found, publish, compile, take_tick, find_enabled, library_missed, library_hit,
  read_disk_library, lock_library, count_library_miss, lock_library_cases,
}
use librtcx.Cache.Requests.{run_library_compile, after_lock_library, get_or_add_library}
use librtcx.Cache.Validity.{
  IsValid, take_tick-IsValid, library_missed-IsValid, library_hit-IsValid, counted_libraries,
  after_lock_library-IsValid, set_value-IsBacked,
}
use librtcx.Cache.Stored.{IsStored, stored_after}
use librtcx.Cache.Coherence.{IsMkstemp, IsServed, extend}

-- `holds handle binary`: the handle is that of a library which was loaded from the binary.
abbrev pub Holds : Type 1
Holds = ℕ → Bytes → Type 0

-- `cuLibraryLoadFromFile` gives a library of what the file holds.
abbrev pub IsLoader : Holds → FileSystem → (Bytes → LoadResult) → Type 0
IsLoader holds fs load =
    (path c : Bytes) (handle : ℕ)
    → read path fs ≡ some c
    → load path ≡ loaded handle
    → holds handle c

-- A compilation gives a library of the binary that it gives, which is the hash's.
abbrev pub IsCompiler : (Hash128 → Bytes) → Holds → Hash128 → Outcome (ℕ × Bytes) → Type 0
IsCompiler want holds hash compiled =
    (handle : ℕ) (c : Bytes) → compiled ≡ ok (handle, c) → holds handle c × (c ≡ want hash)

-- Each future belongs to the hash that it was made for, `owner`; a handle that it has is that of a
-- library of the hash, and the disk holds the hash's binary under the hash's path.
pub record IsShelved (want : Hash128 → Bytes) (holds : Holds) (owner : Future → Hash128)
    (s : System) : Type 0 where
  pub valid : IsValid s
  pub owned :
      (h : Hash128) (e : Entry Future)
      → find h s.libraries_cache.entries ≡ some e
      → owner e.value ≡ h
  pub values :
      (f : Future) (handle : ℕ)
      → f < s.library_promises.next
      → s.library_promises.state f ≡ ready handle
      → holds handle (want (owner f))
  pub stored : IsStored want s.cache_dir library s.files

-- What a request goes on with is the hash's.
abbrev pub IsFor :
    (Hash128 → Bytes) → Holds → (Future → Hash128) → ℕ → Hash128 → Outcome (Locked ℕ) → Type 0
IsFor want holds owner next hash (ok (found f)) = (owner f ≡ hash) × (f < next)
IsFor want holds owner next hash (ok (publish f handle)) =
    ((owner f ≡ hash) × (f < next)) × holds handle (want hash)
IsFor want holds owner next hash (ok (compile f)) = (owner f ≡ hash) × (f < next)
IsFor want holds owner next hash (raise e) = Unit
IsFor want holds owner next hash abort = Unit

abbrev pub IsLockedFor :
    (Hash128 → Bytes)
    → Holds
    → (Future → Hash128)
    → System
    → Hash128
    → System × Outcome (Locked ℕ)
    → Type 0
IsLockedFor want holds owner s hash r =
    (owner' : Future → Hash128) × IsShelved want holds owner' r.0
    × IsFor want holds owner' r.0.library_promises.next hash r.1
    × ((f : Future) → f < s.library_promises.next → owner' f ≡ owner f)
    × (s.library_promises.next ≤ r.0.library_promises.next)

-- What a whole request leaves: a cache with the libraries of their hashes, and a future that was served.
abbrev pub IsLent :
    (Hash128 → Bytes)
    → Holds
    → (Future → Hash128)
    → System
    → Hash128
    → System × Outcome Future
    → Type 0
IsLent want holds owner s hash q =
    (owner' : Future → Hash128) × IsShelved want holds owner' q.0
    × IsServed owner s.library_promises.next hash owner' q.0.library_promises.next q.1
