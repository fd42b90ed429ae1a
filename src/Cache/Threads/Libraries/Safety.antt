-- ===== src/Cache/Threads/Libraries/Safety.antt =====
-- Each step of a request for a library keeps the libraries those of their hashes.
use librtcx.Prelude.{ℕ, ◌++◌, Outcome, Bytes}
use librtcx.Hash.{Hash128}
use librtcx.Lru.{StdSort}
use librtcx.Disk.{FileSystem, WriteAnswers, LoadResult, library, cache_blob_to_disk}
use librtcx.Cache.{Future}
use librtcx.Cache.Lock.{take_tick, lock_library}
use librtcx.Cache.Stored.{stored_after}
use librtcx.Cache.Coherence.{IsMkstemp}
use librtcx.Cache.Libraries.{Holds, IsLoader, IsCompiler}
use librtcx.Cache.Libraries.Locks.{library_tick-IsShelved, lock_library-IsLockedFor}
use librtcx.Cache.Threads.Sound.{IsJob, IsResult, All-split}
use librtcx.Cache.Threads.Libraries.{
  LibraryWorld, LibraryStep, takes, looks, publishes, builds, archives,
}
use librtcx.Cache.Threads.Libraries.Sound.{
  SoundLibrary, IsHeld, later-IsSoundLibrary, leave_library_lock-Sound, finish_library-Sound,
  return_library-Sound, publish_library-Sound,
}

module _ (want : Hash128 → Bytes) (holds : Holds) (std : StdSort)
    (load : FileSystem → Bytes → LoadResult) (compiled : Hash128 → Future → Outcome (ℕ × Bytes))
    (answers : Future → WriteAnswers) (loads : (fs : FileSystem) → IsLoader holds fs (load fs))
    (portable : (fut : Future) → IsMkstemp (answers fut))
    (right : (hash : Hash128) (fut : Future) → IsCompiler want holds hash (compiled hash fut)) where
  pub LibraryStep-Sound :
      {u v : LibraryWorld}
      → LibraryStep std load compiled answers u v
      → SoundLibrary want holds u
      → SoundLibrary want holds v
  unfolding take_tick
  LibraryStep-Sound {u} takes (o, sound) = (
    o,
    record {
      shelved = library_tick-IsShelved want holds sound.shelved;
      jobs = sound.jobs;
      storing = sound.storing;
      held = sound.held;
      given = sound.given;
    },
  )
  LibraryStep-Sound {u} (looks hash tick lt) (o, sound) =
      let r = lock_library std (load u.system.files) u.system hash tick in
      let (o', sh, mine, same, more) =
        lock_library-IsLockedFor want holds std (load u.system.files) o u.system hash tick lt
          (loads u.system.files) sound.shelved in
      leave_library_lock-Sound want holds u hash r.0 r.1 o' lt
        (later-IsSoundLibrary want holds o o' u r.0 same more sh sound) mine
  LibraryStep-Sound {u} (publishes before job handle after at) (o, sound) =
      let (mine, others) =
        All-split (IsHeld want holds o u.system.library_promises.next) before (job, handle) after
          (rw (← at) sound.held) in
      publish_library-Sound want holds o u job handle (before ++ after) sound mine others
  LibraryStep-Sound {u} (builds before hash fut after at) (o, sound) =
      let (mine, others) =
        All-split (IsJob o u.system.library_promises.next) before (hash, fut) after
          (rw (← at) sound.jobs) in
      finish_library-Sound want holds (compiled hash fut) u o hash fut (before ++ after)
        (right hash fut) sound mine others
  LibraryStep-Sound {u} (archives before hash fut binary after at) (o, sound) =
      let s = u.system in
      let ((mine, is), others) =
        All-split (IsResult want o s.library_promises.next) before ((hash, fut), binary) after
          (rw (← at) sound.storing) in
      let r = cache_blob_to_disk (answers fut) s.files s.cache_dir s.tmp_dir library hash binary in
      return_library-Sound want holds u hash fut r.0 r.1 (before ++ after) o
        (stored_after (λ type. want) (answers fut) s.files s.cache_dir s.tmp_dir library library
          hash binary mine.1 (portable fut) is sound.shelved.stored)
        sound others mine.0
