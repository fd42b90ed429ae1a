-- ===== src/Cache/Threads/Mixed/Promises.antt =====
-- A step of a request for a blob keeps the promises of the libraries, and one for a library those of
-- the blobs.
use librtcx.Prelude.{ℕ, ◌≡◌, refl, ◌++◌, Outcome, Bytes}
use librtcx.Hash.{Hash128}
use librtcx.Lru.{StdSort}
use librtcx.Disk.{FileSystem, WriteAnswers, LoadResult, blob, library, cache_blob_to_disk}
use librtcx.Cache.{Future}
use librtcx.Cache.Lock.{take_tick, lock_blob, lock_library}
use librtcx.Cache.Histories.Futures.{lock_blob-BlobsLocked, lock_library-LibrariesLocked}
use librtcx.Cache.Threads.{World, Step, ticks, locks, compiles, saves}
use librtcx.Cache.Threads.Libraries.{
  LibraryWorld, LibraryStep, takes, looks, publishes, builds, archives, publish_library,
}
use librtcx.Cache.Threads.Mixed.Frames.{
  leave_lock-system, finish_compile-system, finish_library-system, return-system,
  leave_library_lock-system, return_library-system,
}

pub Step-library_promises :
    (std : StdSort) (compiled : Hash128 → Future → Outcome Bytes) (answers : Future → WriteAnswers)
    {u v : World}
    → Step std compiled answers u v
    → v.system.library_promises ≡ u.system.library_promises
unfolding take_tick
Step-library_promises std compiled answers ticks = refl
Step-library_promises std compiled answers {u} (locks faults hash tick lt) =
    let r = lock_blob std faults u.system hash tick in
    rw (leave_lock-system hash r.0 r.1 u) (lock_blob-BlobsLocked std faults u.system hash tick).1
Step-library_promises std compiled answers {u} (compiles before hash fut after at) =
    rw ((finish_compile-system (compiled hash fut) (hash, fut) (before ++ after) u).1) refl
Step-library_promises std compiled answers {u} (saves before hash fut result after at) =
    let s = u.system in
    let r = cache_blob_to_disk (answers fut) s.files s.cache_dir s.tmp_dir blob hash result in
    rw (return-system (hash, fut) r.0 r.1 (before ++ after) u) refl

pub LibraryStep-blob_promises :
    (std : StdSort) (load : FileSystem → Bytes → LoadResult)
    (compiled : Hash128 → Future → Outcome (ℕ × Bytes)) (answers : Future → WriteAnswers)
    {u v : LibraryWorld}
    → LibraryStep std load compiled answers u v
    → v.system.blob_promises ≡ u.system.blob_promises
unfolding take_tick publish_library
LibraryStep-blob_promises std load compiled answers takes = refl
LibraryStep-blob_promises std load compiled answers {u} (looks hash tick lt) =
    let r = lock_library std (load u.system.files) u.system hash tick in
    rw (leave_library_lock-system hash r.0 r.1 u)
      (lock_library-LibrariesLocked std (load u.system.files) u.system hash tick).1
LibraryStep-blob_promises std load compiled answers (publishes before (hash, fut) handle after at) =
    refl
LibraryStep-blob_promises std load compiled answers {u} (builds before hash fut after at) =
    rw ((finish_library-system (compiled hash fut) (hash, fut) (before ++ after) u).1) refl
LibraryStep-blob_promises std load compiled answers {u} (archives before hash fut binary after at) =
    let s = u.system in
    let r = cache_blob_to_disk (answers fut) s.files s.cache_dir s.tmp_dir library hash binary in
    rw (return_library-system (hash, fut) r.0 r.1 (before ++ after) u) refl
