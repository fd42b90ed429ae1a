-- ===== src/Tests/MixedRuns.antt =====
-- Steps of two threads, one of which asks for a library, and the other for a blob.
use librtcx.Prelude.{
  ◌≡◌, refl, [], ◌∷◌, ◌++◌, false, Outcome, ok, abort, ◌≢◌, All, Bytes, arith, ℕ, length,
}
use librtcx.Hash.{Hash128}
use librtcx.Disk
use librtcx.Disk.{
  WriteAnswers, read, get_disk_library, get_disk_blob, from_file, cache_blob_to_disk,
}
use librtcx.Cache.{Future, System, ready, construct, make_promise, clear_memory_store}
use librtcx.Cache.Lock.{
  lock_blob, lock_library, find_enabled, read_disk_library, library_missed, read_disk_blob,
  blob_missed,
}
use librtcx.Cache.Persistence.{no_faults}
use librtcx.Cache.Libraries.{IsCompiler}
use librtcx.Cache.Histories.{clear_memory, opened, perform, is_request}
use librtcx.Cache.Histories.Life.{construct-IsRemembering}
use librtcx.Cache.Threads.{Job, World, leave_lock, locks}
use librtcx.Cache.Threads.Libraries.{
  LibraryWorld, leave_library_lock, finish_library, return_library, looks, builds, archives,
}
use librtcx.Cache.Threads.Mixed.{
  Callers, blob_world, library_world, with_blobs, with_libraries, for_blob, for_library, operates,
  MixedRun, none_yet, and_then, nobody,
}
use librtcx.Cache.Threads.Mixed.Safety.{MixedRun-returns}
use librtcx.Cache.Threads.Mixed.Once.{MixedRun-jobs_of}
use librtcx.Cache.Threads.Mixed.Settling.{SettlesLibrary, MixedRun-SettlesLibrary}
use librtcx.Cache.Threads.Once.{jobs_of}
use librtcx.Lru.{find}
use librtcx.Tests.Sorting.{std}
use librtcx.Tests.DiskRuns
use librtcx.Tests.DiskRuns.{cache_dir, tmp_dir, answers}
use librtcx.Tests.CacheRuns.{limits, answers-IsMkstemp}
use librtcx.Tests.HistoryRuns.{want, holds, load, files, history, load-IsLoader, files-IsStored}

abbrev s : System
s = history.system

abbrev blob_of : Hash128 → Future → Outcome Bytes
blob_of hash fut = ok (want Disk.blob hash)

abbrev library_of : Hash128 → Future → Outcome (ℕ × Bytes)
library_of hash fut = ok (length (want Disk.library hash), want Disk.library hash)

abbrev stores : Future → WriteAnswers
stores fut = answers

abbrev looked : LibraryWorld
looked = leave_library_lock 7 (lock_library std (load s.files) s 7 0) (library_world (nobody s))

abbrev c1 : Callers
c1 = with_libraries (nobody s) looked

abbrev c2 : Callers
c2 = record c1 { system = (perform std clear_memory (opened c1.system)).system }

abbrev built : LibraryWorld
built = finish_library (library_of 7 0) (7, 0) ([] ++ []) (library_world c2)

abbrev c3 : Callers
c3 = with_libraries c2 built

abbrev locked : World
locked = leave_lock 7 (lock_blob std no_faults c3.system 7 1) (blob_world c3)

abbrev c4 : Callers
c4 = with_blobs c3 locked

abbrev archived : LibraryWorld
archived =
    return_library (7, 0)
      (cache_blob_to_disk answers c4.system.files c4.system.cache_dir c4.system.tmp_dir Disk.library
        7 (want Disk.library 7))
      ([] ++ []) (library_world c4)

abbrev c5 : Callers
c5 = with_libraries c4 archived

unfoldable run_looking : Unit {0}
unfolding DiskRuns.program leave_library_lock lock_library find_enabled find construct
    read_disk_library get_disk_library read library_missed make_promise leave_lock lock_blob
    read_disk_blob get_disk_blob from_file blob_missed
run_looking = tt

looked-compiling : looked.compiling ≡ [] ++ (7, 0) ∷ []
unfolding run_looking
looked-compiling = refl

built-storing : built.storing ≡ [] ++ ((7, 0), want Disk.library 7) ∷ []
unfolding run_looking finish_library perform clear_memory_store
built-storing = refl

clearing : is_request clear_memory ≡ false
unfolding is_request
clearing = refl

abbrev Mixing : Callers → Type 0
Mixing c = MixedRun want holds std load blob_of library_of stores stores (nobody s) c

mixing : Mixing c5
mixing =
    and_then
      (and_then
        (and_then
          (and_then (and_then none_yet (for_library looked (looks 7 0 (omega arith))))
            (operates clear_memory clearing tt))
          (for_library built (builds [] 7 0 [] looked-compiling)))
        (for_blob locked (locks no_faults 7 1 (omega arith))))
      (for_library archived (archives [] 7 0 (want Disk.library 7) [] built-storing))

compiled_library :
    (hash : Hash128) (fut : Future)
    → IsCompiler (want Disk.library) holds hash (library_of hash fut)
compiled_library hash fut handle c e = ground arith

compiled_blob :
    (hash : Hash128) (fut : Future) (c : Bytes) → blob_of hash fut ≡ ok c → c ≡ want Disk.blob hash
compiled_blob hash fut c e = ground arith

MixedRun-returns_example :
    All
      (λ (j : Job).
        (d : Bytes) → c5.system.blob_promises.state j.1 ≡ ready d → d ≡ want Disk.blob j.0)
      c5.blobs
    × All
        (λ (j : Job).
          (handle : ℕ)
          → c5.system.library_promises.state j.1 ≡ ready handle
          → holds handle (want Disk.library j.0))
        c5.libraries
MixedRun-returns_example =
    MixedRun-returns want holds std load blob_of library_of stores stores load-IsLoader
      (λ fut. (answers-IsMkstemp, answers-IsMkstemp)) compiled_blob compiled_library (λ f. 0)
      (λ f. 0) s c5
      (construct-IsRemembering want holds cache_dir tmp_dir limits false files files-IsStored)
      mixing

looking : Mixing c1
looking = and_then none_yet (for_library looked (looks 7 0 (omega arith)))

compiles_library : (hash : Hash128) → library_of hash 0 ≢ abort
compiles_library hash e = ground arith

MixedRun-SettlesLibrary_example :
    SettlesLibrary want holds std load blob_of library_of stores stores c1 0
unfolding run_looking
MixedRun-SettlesLibrary_example =
    MixedRun-SettlesLibrary want holds std load blob_of library_of stores stores s c1
      (λ fut lt. absurd (ground arith)) (λ fut lt. absurd (ground arith)) looking 0 compiles_library
      (omega arith) refl

abbrev reserved : World
reserved = leave_lock 8 (lock_blob std no_faults s 8 0) (blob_world (nobody s))

abbrev d1 : Callers
d1 = with_blobs (nobody s) reserved

reserving : Mixing d1
reserving = and_then none_yet (for_blob reserved (locks no_faults 8 0 (omega arith)))

MixedRun-jobs_of_example : jobs_of 0 d1.blob_jobs ≡ 1
unfolding run_looking
MixedRun-jobs_of_example =
    MixedRun-jobs_of want holds std load blob_of library_of stores stores s d1
      (λ fut lt. absurd (ground arith)) (λ fut lt. absurd (ground arith)) reserving 0
