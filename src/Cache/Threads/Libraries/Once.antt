-- ===== src/Cache/Threads/Libraries/Once.antt =====
-- A promise of a library is set once, by the call that compiles it or by the one that loaded it.
use librtcx.Prelude.{
  ℕ, ◌+◌, ◌≡◌, refl, ◌<◌, List, [], ◌∷◌, ◌++◌, Option, none, some, Outcome, ok, raise, abort, Bytes,
  arith, ◌==◌, if◌then◌else◌,
}
use librtcx.Hash.{Hash128}
use librtcx.Lru.{StdSort}
use librtcx.Disk.{FileSystem, WriteAnswers, LoadResult}
use librtcx.Cache.{Future, pending, make_promise, set_value, abandon}
use librtcx.Cache.Lock.{
  take_tick, lock_library, lock_library_cases, library_hit, library_missed, count_library_miss,
}
use librtcx.Cache.Threads.{Job}
use librtcx.Cache.Threads.Once.{jobs_of, jobs_of-with, due}
use librtcx.Cache.Threads.Libraries.{
  LibraryWorld, leave_library_lock, return_library, publish_library, LibraryStep, takes, looks,
  publishes, builds, archives, finish_library,
}

-- How many of the calls that have loaded a library are to set the future.
abbrev pub loads_of : Future → List (Job × ℕ) → ℕ
loads_of fut [] = 0
loads_of fut (((hash, g), handle) ∷ loads) = (if g == fut then 1 else 0) + loads_of fut loads

-- Each future that was made has as many calls that are to set it as its promise needs.
abbrev pub BalancedLibraries : LibraryWorld → Type 0
BalancedLibraries w =
    (fut : Future)
    → jobs_of fut w.compiling + loads_of fut w.publishing ≡ due w.system.library_promises fut

loads_of-with :
    (fut g : Future) (hash : Hash128) (handle : ℕ) (before after : List (Job × ℕ))
    → loads_of fut (before ++ ((hash, g), handle) ∷ after)
      ≡ (if g == fut then 1 else 0) + loads_of fut (before ++ after)
loads_of-with fut g hash handle [] after = refl
loads_of-with fut g hash handle (((k, f), a) ∷ before) after =
    ground (arith, loads_of-with fut g hash handle before after)

missed-Balanced :
    (std : StdSort) (w : LibraryWorld) (hash : Hash128) (tick : ℕ) (disk : Option ℕ)
    → BalancedLibraries w
    → BalancedLibraries (
        leave_library_lock hash
          (
            (library_missed std (count_library_miss w.system) hash tick disk).0,
            ok (library_missed std (count_library_miss w.system) hash tick disk).1,
          )
          w)
unfolding leave_library_lock library_missed make_promise
missed-Balanced std w hash tick none a = λ fut. ground (arith, a fut)
missed-Balanced std w hash tick (some handle) a = λ fut. ground (arith, a fut)

lock_library-Balanced :
    (std : StdSort) (load : Bytes → LoadResult) (w : LibraryWorld) (hash : Hash128) (tick : ℕ)
    → BalancedLibraries w
    → BalancedLibraries (leave_library_lock hash (lock_library std load w.system hash tick) w)
unfolding leave_library_lock library_hit
lock_library-Balanced std load w hash tick a =
    lock_library_cases std load w.system hash tick
      (λ r. BalancedLibraries (leave_library_lock hash r w)) (λ e h. a)
      (λ disk h r. missed-Balanced std w hash tick disk a) (λ e. a) a

-- A compilation that is to set a future finds it made and pending.
compiling-pending :
    (w : LibraryWorld) (hash : Hash128) (fut : Future) (before after : List Job)
    → w.compiling ≡ before ++ (hash, fut) ∷ after
    → BalancedLibraries w
    → (fut < w.system.library_promises.next) × (w.system.library_promises.state fut ≡ pending)
compiling-pending w hash fut before after at a =
    ground (arith, a fut, jobs_of-with fut fut hash before after)

-- So does a call that has loaded a library.
publishing-pending :
    (w : LibraryWorld) (hash : Hash128) (fut : Future) (handle : ℕ) (before after : List (Job × ℕ))
    → w.publishing ≡ before ++ ((hash, fut), handle) ∷ after
    → BalancedLibraries w
    → (fut < w.system.library_promises.next) × (w.system.library_promises.state fut ≡ pending)
publishing-pending w hash fut handle before after at a =
    ground (arith, a fut, loads_of-with fut fut hash handle before after)

compile-Balanced :
    (compiled : Outcome (ℕ × Bytes)) (w : LibraryWorld) (hash : Hash128) (fut : Future)
    (before after : List Job)
    → w.compiling ≡ before ++ (hash, fut) ∷ after
    → BalancedLibraries w
    → BalancedLibraries (finish_library compiled (hash, fut) (before ++ after) w)
unfolding finish_library set_value abandon
compile-Balanced (ok (handle, c)) w hash fut before after at a =
    let (made, waits) = compiling-pending w hash fut before after at a in
    λ g. ground (arith, jobs_of-with g fut hash before after, a g)
compile-Balanced (raise e) w hash fut before after at a =
    let (made, waits) = compiling-pending w hash fut before after at a in
    λ g. ground (arith, jobs_of-with g fut hash before after, a g)
compile-Balanced abort w hash fut before after at a = a

return-Balanced :
    (job : Job) (fs : FileSystem) (end : Outcome (Unit {0})) (rest : List (Job × Bytes))
    (w : LibraryWorld)
    → BalancedLibraries w
    → BalancedLibraries (return_library job (fs, end) rest w)
unfolding return_library
return-Balanced job fs (ok u) rest w a = a
return-Balanced job fs (raise e) rest w a = a
return-Balanced job fs abort rest w a = a

publish-Balanced :
    (w : LibraryWorld) (hash : Hash128) (fut : Future) (handle : ℕ) (before after : List (Job × ℕ))
    → w.publishing ≡ before ++ ((hash, fut), handle) ∷ after
    → BalancedLibraries w
    → BalancedLibraries (publish_library (hash, fut) handle (before ++ after) w)
unfolding publish_library set_value
publish-Balanced w hash fut handle before after at a =
    let (made, waits) = publishing-pending w hash fut handle before after at a in
    λ g. ground (arith, loads_of-with g fut hash handle before after, a g)

pub LibraryStep-Balanced :
    (std : StdSort) (load : FileSystem → Bytes → LoadResult)
    (compiled : Hash128 → Future → Outcome (ℕ × Bytes)) (answers : Future → WriteAnswers)
    {u v : LibraryWorld}
    → LibraryStep std load compiled answers u v
    → BalancedLibraries u
    → BalancedLibraries v
unfolding take_tick
LibraryStep-Balanced std load compiled answers takes a = a
LibraryStep-Balanced std load compiled answers {u} (looks hash tick lt) a =
    lock_library-Balanced std (load u.system.files) u hash tick a
LibraryStep-Balanced std load compiled answers {u} (publishes before (hash, fut) handle after at)
      a =
    publish-Balanced u hash fut handle before after at a
LibraryStep-Balanced std load compiled answers {u} (builds before hash fut after at) a =
    compile-Balanced (compiled hash fut) u hash fut before after at a
LibraryStep-Balanced std load compiled answers {u} (archives before hash fut binary after at) a =
    return-Balanced (hash, fut) _ _ (before ++ after) u a
