-- ===== src/Cache/Threads/Mixed/Frames.antt =====
-- A step of a request for a blob leaves the libraries alone, and one for a library the blobs.
use librtcx.Prelude.{◌≡◌, refl, List, ◌++◌, Outcome, ok, raise, abort, Bytes, ℕ}
use librtcx.Hash.{Hash128}
use librtcx.Lru.{StdSort}
use librtcx.Disk.{
  FileSystem, WriteAnswers, LoadResult, ObjectType, blob, library, cache_blob_to_disk,
}
use librtcx.Cache.{Future, Promises, System}
use librtcx.Cache.Lock.{Locked, found, publish, compile, take_tick, lock_blob, lock_library}
use librtcx.Cache.Stored.{stored_after}
use librtcx.Cache.Coherence.{IsMkstemp}
use librtcx.Cache.Libraries.{Holds, IsCompiler}
use librtcx.Cache.Histories.Frames.{
  KeepsLibraries, KeepsBlobs, lock_blob-KeepsLibraries, lock_library-KeepsBlobs,
}
use librtcx.Cache.Threads.{
  Job, World, leave_lock, finish_compile, return, Step, ticks, locks, compiles, saves,
}
use librtcx.Cache.Threads.Sound.{IsResult, All-split, IsSound}
use librtcx.Cache.Threads.Libraries.{
  LibraryWorld, leave_library_lock, finish_library, return_library, publish_library, LibraryStep,
  takes, looks, publishes, builds, archives,
}
use librtcx.Cache.Threads.Libraries.Sound.{IsSoundLibrary}

pub leave_lock-system :
    (hash : Hash128) (s : System) (l : Outcome (Locked Bytes)) (w : World)
    → (leave_lock hash (s, l) w).system ≡ s
unfolding leave_lock
leave_lock-system hash s (ok (found f)) w = refl
leave_lock-system hash s (ok (publish f c)) w = refl
leave_lock-system hash s (ok (compile f)) w = refl
leave_lock-system hash s (raise e) w = refl
leave_lock-system hash s abort w = refl

pub finish_compile-system :
    (compiled : Outcome Bytes) (job : Job) (rest : List Job) (w : World)
    → (p : Promises Bytes) × ((finish_compile compiled job rest w).system
        ≡ record w.system { blob_promises = p })
unfolding finish_compile
finish_compile-system (ok c) job rest w = (_, refl)
finish_compile-system (raise e) job rest w = (_, refl)
finish_compile-system abort job rest w = (w.system.blob_promises, refl)

pub return-system :
    (job : Job) (fs : FileSystem) (end : Outcome (Unit {0})) (rest : List (Job × Bytes)) (w : World)
    → (return job (fs, end) rest w).system ≡ record w.system { files = fs }
unfolding return
return-system job fs (ok u) rest w = refl
return-system job fs (raise e) rest w = refl
return-system job fs abort rest w = refl

pub leave_library_lock-system :
    (hash : Hash128) (s : System) (l : Outcome (Locked ℕ)) (w : LibraryWorld)
    → (leave_library_lock hash (s, l) w).system ≡ s
unfolding leave_library_lock
leave_library_lock-system hash s (ok (found f)) w = refl
leave_library_lock-system hash s (ok (publish f c)) w = refl
leave_library_lock-system hash s (ok (compile f)) w = refl
leave_library_lock-system hash s (raise e) w = refl
leave_library_lock-system hash s abort w = refl

pub finish_library-system :
    (compiled : Outcome (ℕ × Bytes)) (job : Job) (rest : List Job) (w : LibraryWorld)
    → (p : Promises ℕ) × ((finish_library compiled job rest w).system
        ≡ record w.system { library_promises = p })
unfolding finish_library
finish_library-system (ok (handle, c)) job rest w = (_, refl)
finish_library-system (raise e) job rest w = (_, refl)
finish_library-system abort job rest w = (w.system.library_promises, refl)

pub return_library-system :
    (job : Job) (fs : FileSystem) (end : Outcome (Unit {0})) (rest : List (Job × Bytes))
    (w : LibraryWorld)
    → (return_library job (fs, end) rest w).system ≡ record w.system { files = fs }
unfolding return_library
return_library-system job fs (ok u) rest w = refl
return_library-system job fs (raise e) rest w = refl
return_library-system job fs abort rest w = refl

module _ (want : ObjectType → Hash128 → Bytes) (std : StdSort) where
  pub Step-KeepsLibraries :
      (compiled : Hash128 → Future → Outcome Bytes) (answers : Future → WriteAnswers)
      (portable : (fut : Future) → IsMkstemp (answers fut))
      (right : (hash : Hash128) (fut : Future) (c : Bytes)
        → compiled hash fut ≡ ok c
        → c ≡ want blob hash)
      (owner : Future → Hash128) {u v : World}
      → IsSound (want blob) owner u
      → Step std compiled answers u v
      → KeepsLibraries want u.system v.system
  unfolding take_tick
  Step-KeepsLibraries compiled answers portable right owner sound ticks = (refl, refl, λ h. h)
  Step-KeepsLibraries compiled answers portable right owner {u} sound (locks faults hash tick lt) =
      let r = lock_blob std faults u.system hash tick in
      rw (leave_lock-system hash r.0 r.1 u)
        (lock_blob-KeepsLibraries want std faults u.system hash tick)
  Step-KeepsLibraries compiled answers portable right owner {u} sound
        (compiles before hash fut after at) =
      rw ((finish_compile-system (compiled hash fut) (hash, fut) (before ++ after) u).1)
        (refl, refl, λ h. h)
  Step-KeepsLibraries compiled answers portable right owner {u} sound
        (saves before hash fut result after at) =
      let s = u.system in
      let ((mine, is), others) =
        All-split (IsResult (want blob) owner s.blob_promises.next) before ((hash, fut), result)
          after (rw (← at) sound.storing) in
      let r = cache_blob_to_disk (answers fut) s.files s.cache_dir s.tmp_dir blob hash result in
      rw (return-system (hash, fut) r.0 r.1 (before ++ after) u) (
        refl,
        refl,
        stored_after want (answers fut) s.files s.cache_dir s.tmp_dir blob library hash result
            mine.1 (portable fut) is,
      )

  pub LibraryStep-KeepsBlobs :
      (holds : Holds) (load : FileSystem → Bytes → LoadResult)
      (compiled : Hash128 → Future → Outcome (ℕ × Bytes)) (answers : Future → WriteAnswers)
      (portable : (fut : Future) → IsMkstemp (answers fut))
      (right : (hash : Hash128) (fut : Future)
        → IsCompiler (want library) holds hash (compiled hash fut))
      (owner : Future → Hash128) {u v : LibraryWorld}
      → IsSoundLibrary (want library) holds owner u
      → LibraryStep std load compiled answers u v
      → KeepsBlobs want u.system v.system
  unfolding take_tick publish_library
  LibraryStep-KeepsBlobs holds load compiled answers portable right owner sound takes =
      (refl, refl, λ h. h)
  LibraryStep-KeepsBlobs holds load compiled answers portable right owner {u} sound
        (looks hash tick lt) =
      let r = lock_library std (load u.system.files) u.system hash tick in
      rw (leave_library_lock-system hash r.0 r.1 u)
        (lock_library-KeepsBlobs want std (load u.system.files) u.system hash tick)
  LibraryStep-KeepsBlobs holds load compiled answers portable right owner {u} sound
        (publishes before (hash, fut) handle after at) =
      (refl, refl, λ h. h)
  LibraryStep-KeepsBlobs holds load compiled answers portable right owner {u} sound
        (builds before hash fut after at) =
      rw ((finish_library-system (compiled hash fut) (hash, fut) (before ++ after) u).1)
        (refl, refl, λ h. h)
  LibraryStep-KeepsBlobs holds load compiled answers portable right owner {u} sound
        (archives before hash fut binary after at) =
      let s = u.system in
      let ((mine, is), others) =
        All-split (IsResult (want library) owner s.library_promises.next) before
          ((hash, fut), binary) after (rw (← at) sound.storing) in
      let r = cache_blob_to_disk (answers fut) s.files s.cache_dir s.tmp_dir library hash binary in
      rw (return_library-system (hash, fut) r.0 r.1 (before ++ after) u) (
        refl,
        refl,
        stored_after want (answers fut) s.files s.cache_dir s.tmp_dir library blob hash binary
            mine.1 (portable fut) is,
      )
