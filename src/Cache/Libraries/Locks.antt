-- ===== src/Cache/Libraries/Locks.antt =====
-- A request for a library up to the end of the lock.
use librtcx.Prelude.{
  ℕ, ◌≤◌, ◌≡◌, refl, inl, inr, Option, none, some, ok, Bytes, arith, Option-cases,
}
use librtcx.Hash.{Hash128, IsHash128}
use librtcx.Lru.{StdSort, Entry, find}
use librtcx.Lru.Map.{find-touch}
use librtcx.Lru.Insert.{find-insert_cases}
use librtcx.Disk.{LoadResult, library, object_path, read, get_disk_library}
use librtcx.Cache.{Future, make_promise, System}
use librtcx.Cache.Lock.{
  take_tick, find_enabled, library_missed, library_hit, read_disk_library, lock_library,
  count_library_miss, lock_library_cases,
}
use librtcx.Cache.Validity.{
  take_tick-IsValid, library_missed-IsValid, library_hit-IsValid, counted_libraries,
}
use librtcx.Cache.Coherence.{extend}
use librtcx.Cache.Libraries.{Holds, IsLoader, IsShelved, IsFor, IsLockedFor}

module _ (want : Hash128 → Bytes) (holds : Holds) (std : StdSort) {owner : Future → Hash128}
    {s : System} (sh : IsShelved want holds owner s) where
  library_missed-IsShelved :
      (hash : Hash128) (tick : ℕ) (disk : Option ℕ)
      → IsShelved want holds
          (extend owner s.library_promises.next hash)
          (library_missed std s hash tick disk).0
  unfolding library_missed make_promise
  library_missed-IsShelved hash tick none = record {
    valid = library_missed-IsValid std s hash tick none sh.valid;
    owned = λ h e here. ground (
      arith,
      find-insert_cases std s.libraries_cache hash s.library_promises.next tick h e
          sh.valid.libraries.valid.distinct here,
      sh.owned h e,
      sh.valid.libraries.known h e,
    );
    values = λ f c lt e. ground (arith, sh.values f c);
    stored = sh.stored;
  }
  library_missed-IsShelved hash tick (some handle) = record {
    valid = library_missed-IsValid std s hash tick (some handle) sh.valid;
    owned = λ h e here. ground (
      arith,
      find-insert_cases std s.libraries_cache hash s.library_promises.next tick h e
          sh.valid.libraries.valid.distinct here,
      sh.owned h e,
      sh.valid.libraries.known h e,
    );
    values = λ f c lt e. ground (arith, sh.values f c);
    stored = sh.stored;
  }

module _ (want : Hash128 → Bytes) (holds : Holds) {owner : Future → Hash128} {s : System}
    (sh : IsShelved want holds owner s) where
  library_hit-IsShelved :
      (hash : Hash128) (tick : ℕ) → IsShelved want holds owner (library_hit s hash tick)
  unfolding library_hit
  library_hit-IsShelved hash tick = record {
    valid = library_hit-IsValid hash tick sh.valid;
    owned = λ h e here. elim (Option-cases (find h s.libraries_cache.entries)) [
      | inl miss ↦ ground (arith, find-touch h hash tick s.libraries_cache.entries)
      | inr (f, old) ↦
          ground (arith, find-touch h hash tick s.libraries_cache.entries, sh.owned h f old)
    ];
    values = sh.values;
    stored = sh.stored;
  }

  pub library_tick-IsShelved : IsShelved want holds owner (take_tick s)
  unfolding take_tick
  library_tick-IsShelved = record {
    valid = take_tick-IsValid sh.valid;
    owned = sh.owned;
    values = sh.values;
    stored = sh.stored;
  }

  count_library_miss-IsShelved : IsShelved want holds owner (count_library_miss s)
  count_library_miss-IsShelved = record {
    valid = counted_libraries sh.valid;
    owned = sh.owned;
    values = sh.values;
    stored = sh.stored;
  }

  -- What the driver loads from the hash's file is a library of the hash.
  pub get_disk_library-holds :
      (load : Bytes → LoadResult) (hash : Hash128) (handle : ℕ)
      → IsHash128 hash
      → IsLoader holds s.files load
      → get_disk_library load s.files s.cache_dir hash ≡ ok (some handle)
      → holds handle (want hash)
  unfolding get_disk_library
  get_disk_library-holds load hash handle lt loads e =
      elim (Option-cases (read (object_path s.cache_dir library hash) s.files)) [
        | inl missing ↦ absurd (ground arith)
        | inr (c, here) ↦ ground (
          arith,
          sh.stored hash c lt here,
          loads (object_path s.cache_dir library hash) c handle here,
        )
      ]

missed-IsFor :
    (want : Hash128 → Bytes) (holds : Holds) (std : StdSort) (owner : Future → Hash128) (s : System)
    (hash : Hash128) (tick : ℕ) (disk : Option ℕ)
    → ((handle : ℕ) → disk ≡ some handle → holds handle (want hash))
    → IsFor want holds
        (extend owner s.library_promises.next hash)
        (library_missed std s hash tick disk).0.library_promises.next
        hash
        (ok (library_missed std s hash tick disk).1)
unfolding library_missed make_promise
missed-IsFor want holds std owner s hash tick none right = ground arith
missed-IsFor want holds std owner s hash tick (some handle) right =
    (ground arith, right handle refl)

missed-next :
    (std : StdSort) (s : System) (hash : Hash128) (tick : ℕ) (disk : Option ℕ)
    → s.library_promises.next ≤ (library_missed std s hash tick disk).0.library_promises.next
unfolding library_missed make_promise
missed-next std s hash tick none = omega arith
missed-next std s hash tick (some handle) = omega arith

find_of_enabled :
    (s : System) (hash : Hash128) (e : Entry Future)
    → find_enabled s.enabled s.libraries_cache hash ≡ some e
    → find hash s.libraries_cache.entries ≡ some e
unfolding find_enabled
find_of_enabled s hash e h = ground arith

read_disk_library_right :
    (want : Hash128 → Bytes) (holds : Holds) (load : Bytes → LoadResult) {owner : Future → Hash128}
    {s : System} (hash : Hash128) (disk : Option ℕ) (handle : ℕ)
    → IsHash128 hash
    → IsLoader holds s.files load
    → IsShelved want holds owner s
    → read_disk_library load s hash ≡ ok disk
    → disk ≡ some handle
    → holds handle (want hash)
unfolding read_disk_library
read_disk_library_right want holds load hash disk handle lt loads sh e is =
    ground (arith, get_disk_library-holds want holds sh load hash handle lt loads)

pub lock_library-IsLockedFor :
    (want : Hash128 → Bytes) (holds : Holds) (std : StdSort) (load : Bytes → LoadResult)
    (owner : Future → Hash128) (s : System) (hash : Hash128) (tick : ℕ)
    → IsHash128 hash
    → IsLoader holds s.files load
    → IsShelved want holds owner s
    → IsLockedFor want holds owner s hash (lock_library std load s hash tick)
unfolding library_hit
lock_library-IsLockedFor want holds std load owner s hash tick lt loads sh =
    let counted = count_library_miss-IsShelved want holds sh in
    lock_library_cases std load s hash tick (IsLockedFor want holds owner s hash)
      (λ e h. (
        owner,
        library_hit-IsShelved want holds sh hash tick,
        (
          sh.owned hash e (find_of_enabled s hash e h),
          sh.valid.libraries.known hash e (find_of_enabled s hash e h),
        ),
        λ f lt. refl,
        omega arith,
      ))
      (λ disk h r. (
        extend owner s.library_promises.next hash,
        library_missed-IsShelved want holds std counted hash tick disk,
        missed-IsFor want holds std owner (count_library_miss s) hash tick disk
            (λ handle. read_disk_library_right want holds load hash disk handle lt loads sh r),
        λ f lt. ground arith,
        missed-next std (count_library_miss s) hash tick disk,
      ))
      (λ e. (owner, counted, tt, λ f lt. refl, omega arith))
      (owner, counted, tt, λ f lt. refl, omega arith)
