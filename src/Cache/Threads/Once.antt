-- ===== src/Cache/Threads/Once.antt =====
-- A promise of a blob is set once: it is pending as long as one call, and no other, is to set it.
use librtcx.Prelude.{
  ℕ, ◌+◌, ◌<◌, ◌≡◌, List, [], ◌∷◌, ◌++◌, Option, none, some, Outcome, ok, raise, abort, Bytes,
  arith, ◌==◌, if◌then◌else◌, ltb,
}
use librtcx.Hash.{Hash128}
use librtcx.Lru.{StdSort}
use librtcx.Disk.{FileSystem, ReadFaults, WriteAnswers}
use librtcx.Cache.{
  Future, Promises, Shared, pending, ready, broken, make_promise, set_value, abandon,
}
use librtcx.Cache.Lock.{
  take_tick, lock_blob, lock_blob_cases, blob_hit, blob_missed, count_blob_miss,
}
use librtcx.Cache.Threads.{
  Job, World, leave_lock, finish_compile, return, Step, ticks, locks, compiles, saves,
}

-- How many of the calls are to set the future.
abbrev pub jobs_of : Future → List Job → ℕ
jobs_of fut [] = 0
jobs_of fut ((hash, g) ∷ jobs) = (if g == fut then 1 else 0) + jobs_of fut jobs

-- 1 of a promise that is pending, and else 0.
abbrev pub unset : {A : Type 0} → Shared A → ℕ
unset pending = 1
unset (ready a) = 0
unset broken = 0

-- How often the promise of a future is still to be set.
abbrev pub due : {A : Type 0} → Promises A → Future → ℕ
due p fut = if ltb fut p.next then unset (p.state fut) else 0

-- Each future that was made has as many calls that are to set it as its promise needs.
abbrev pub Balanced : World → Type 0
Balanced w = (fut : Future) → jobs_of fut w.compiling ≡ due w.system.blob_promises fut

pub jobs_of-with :
    (fut g : Future) (hash : Hash128) (before after : List Job)
    → jobs_of fut (before ++ (hash, g) ∷ after)
      ≡ (if g == fut then 1 else 0) + jobs_of fut (before ++ after)
jobs_of-with fut g hash [] after = ground arith
jobs_of-with fut g hash ((k, f) ∷ before) after =
    ground (arith, jobs_of-with fut g hash before after)

missed-Balanced :
    (std : StdSort) (w : World) (hash : Hash128) (tick : ℕ) (disk : Option Bytes)
    → Balanced w
    → Balanced (
        leave_lock hash
          (
            (blob_missed std (count_blob_miss w.system) hash tick disk).0,
            ok (blob_missed std (count_blob_miss w.system) hash tick disk).1,
          )
          w)
unfolding leave_lock blob_missed make_promise set_value
missed-Balanced std w hash tick none a = λ fut. ground (arith, a fut)
missed-Balanced std w hash tick (some c) a = λ fut. ground (arith, a fut)

lock_blob-Balanced :
    (std : StdSort) (faults : ReadFaults) (w : World) (hash : Hash128) (tick : ℕ)
    → Balanced w
    → Balanced (leave_lock hash (lock_blob std faults w.system hash tick) w)
unfolding leave_lock blob_hit
lock_blob-Balanced std faults w hash tick a =
    lock_blob_cases std faults w.system hash tick (λ r. Balanced (leave_lock hash r w)) (λ e h. a)
      (λ disk h r. missed-Balanced std w hash tick disk a) (λ e. a) a

-- A call that is to set a future finds it made and pending.
pub Balanced-pending :
    (w : World) (hash : Hash128) (fut : Future) (before after : List Job)
    → w.compiling ≡ before ++ (hash, fut) ∷ after
    → Balanced w
    → (fut < w.system.blob_promises.next) × (w.system.blob_promises.state fut ≡ pending)
Balanced-pending w hash fut before after at a =
    ground (arith, a fut, jobs_of-with fut fut hash before after)

compile-Balanced :
    (compiled : Outcome Bytes) (w : World) (hash : Hash128) (fut : Future) (before after : List Job)
    → w.compiling ≡ before ++ (hash, fut) ∷ after
    → Balanced w
    → Balanced (finish_compile compiled (hash, fut) (before ++ after) w)
unfolding finish_compile set_value abandon
compile-Balanced (ok c) w hash fut before after at a =
    let (made, waits) = Balanced-pending w hash fut before after at a in
    λ g. ground (arith, jobs_of-with g fut hash before after, a g)
compile-Balanced (raise e) w hash fut before after at a =
    let (made, waits) = Balanced-pending w hash fut before after at a in
    λ g. ground (arith, jobs_of-with g fut hash before after, a g)
compile-Balanced abort w hash fut before after at a = a

return-Balanced :
    (job : Job) (fs : FileSystem) (end : Outcome (Unit {0})) (rest : List (Job × Bytes)) (w : World)
    → Balanced w
    → Balanced (return job (fs, end) rest w)
unfolding return
return-Balanced job fs (ok u) rest w a = a
return-Balanced job fs (raise e) rest w a = a
return-Balanced job fs abort rest w a = a

pub Step-Balanced :
    (std : StdSort) (compiled : Hash128 → Future → Outcome Bytes) (answers : Future → WriteAnswers)
    {u v : World}
    → Step std compiled answers u v
    → Balanced u
    → Balanced v
unfolding take_tick
Step-Balanced std compiled answers ticks a = a
Step-Balanced std compiled answers {u} (locks faults hash tick lt) a =
    lock_blob-Balanced std faults u hash tick a
Step-Balanced std compiled answers {u} (compiles before hash fut after at) a =
    compile-Balanced (compiled hash fut) u hash fut before after at a
Step-Balanced std compiled answers {u} (saves before hash fut result after at) a =
    return-Balanced (hash, fut) _ _ (before ++ after) u a
