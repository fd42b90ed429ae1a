-- ===== src/Tests/ThreadRuns.antt =====
-- Three steps of one thread: it reserves its entry, it compiles, and it stores.
use librtcx.Prelude.{◌≡◌, refl, [], ◌∷◌, ◌++◌, Outcome, ok, Bytes, arith}
use librtcx.Hash.{Hash128}
use librtcx.Disk.{WriteAnswers, blob, cache_blob_to_disk}
use librtcx.Cache.{Future, make_promise}
use librtcx.Cache.Lock.{lock_blob}
use librtcx.Cache.Persistence.{no_faults}
use librtcx.Cache.Threads.{
  World, leave_lock, finish_compile, return, locks, compiles, saves, Run, stop, go,
}
use librtcx.Tests.Sorting.{std}
use librtcx.Tests.DiskRuns.{answers}
use librtcx.Tests.CacheRuns
use librtcx.Tests.CacheRuns.{start, want, start-IsCoherent, answers-IsMkstemp}

abbrev compiled : Hash128 → Future → Outcome Bytes
compiled hash fut = ok (want hash)

abbrev stores : Future → WriteAnswers
stores fut = answers

abbrev idle : World
idle = record { system = start; compiling = []; storing = []; returned = [] }

abbrev reserved : World
reserved = leave_lock 7 (lock_blob std no_faults start 7 0) idle

reserving : Run std compiled stores idle reserved
reserving = go stop (locks no_faults 7 0 (omega arith))

reserved-compiling : reserved.compiling ≡ [] ++ (7, 0) ∷ []
unfolding CacheRuns.run_program leave_lock make_promise
reserved-compiling = refl

abbrev compiling : World
compiling = finish_compile (compiled 7 0) (7, 0) ([] ++ []) reserved

compiling-storing : compiling.storing ≡ [] ++ ((7, 0), want 7) ∷ []
unfolding CacheRuns.run_program leave_lock make_promise finish_compile
compiling-storing = refl

abbrev finished : World
finished =
    let s = compiling.system in
    return (7, 0) (cache_blob_to_disk answers s.files s.cache_dir s.tmp_dir blob 7 (want 7))
      ([] ++ []) compiling

finishing : Run std compiled stores idle finished
finishing =
    go (go reserving (compiles [] 7 0 [] reserved-compiling))
      (saves [] 7 0 (want 7) [] compiling-storing)

finished-returned : finished.returned ≡ (7, 0) ∷ []
unfolding CacheRuns.run_program leave_lock make_promise finish_compile return
finished-returned = refl
