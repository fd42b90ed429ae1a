-- ===== src/Cache/Threads/Progress.antt =====
-- No caller waits for a future that nobody sets.
use librtcx.Prelude.{
  ℕ, ◌<◌, ◌≡◌, ◌≢◌, List, [], ◌∷◌, ◌++◌, Bool, true, false, Option, none, some, Outcome, ok, raise,
  abort, Bytes, arith, ◌==◌, ◌||◌,
}
use librtcx.Hash.{Hash128}
use librtcx.Lru.{StdSort}
use librtcx.Disk.{FileSystem, ReadFaults, WriteAnswers}
use librtcx.Cache.{Future, pending, make_promise, set_value, abandon, System}
use librtcx.Cache.Lock.{
  take_tick, lock_blob, lock_blob_cases, blob_hit, blob_missed, count_blob_miss,
}
use librtcx.Cache.Threads.{
  Job, World, leave_lock, finish_compile, return, Step, ticks, locks, compiles, saves, Run, stop,
  go,
}

-- Whether a call in progress is to set the future.
abbrev pub has_job : Future → List Job → Bool
has_job fut [] = false
has_job fut ((hash, g) ∷ jobs) = (g == fut) || has_job fut jobs

-- Each future that has no value yet has a call that is to set it.
abbrev pub Attended : World → Type 0
Attended w =
    (fut : Future)
    → fut < w.system.blob_promises.next
    → w.system.blob_promises.state fut ≡ pending
    → has_job fut w.compiling ≡ true

pub has_job-without :
    (fut g : Future) (hash : Hash128) (before after : List Job)
    → g ≢ fut
    → has_job fut (before ++ (hash, g) ∷ after) ≡ has_job fut (before ++ after)
has_job-without fut g hash [] after ne = ground arith
has_job-without fut g hash ((k, f) ∷ before) after ne =
    ground (arith, has_job-without fut g hash before after)

missed-Attended :
    (std : StdSort) (w : World) (hash : Hash128) (tick : ℕ) (disk : Option Bytes)
    → Attended w
    → Attended (
        leave_lock hash
          (
            (blob_missed std (count_blob_miss w.system) hash tick disk).0,
            ok (blob_missed std (count_blob_miss w.system) hash tick disk).1,
          )
          w)
unfolding leave_lock blob_missed make_promise set_value
missed-Attended std w hash tick none a = λ fut lt e. ground (arith, a fut)
missed-Attended std w hash tick (some c) a = λ fut lt e. ground (arith, a fut)

pub lock_blob-Attended :
    (std : StdSort) (faults : ReadFaults) (w : World) (hash : Hash128) (tick : ℕ)
    → Attended w
    → Attended (leave_lock hash (lock_blob std faults w.system hash tick) w)
unfolding leave_lock blob_hit
lock_blob-Attended std faults w hash tick a =
    lock_blob_cases std faults w.system hash tick (λ r. Attended (leave_lock hash r w)) (λ e h. a)
      (λ disk h r. missed-Attended std w hash tick disk a) (λ e. a) a

compile-Attended :
    (compiled : Outcome Bytes) (w : World) (hash : Hash128) (fut : Future) (before after : List Job)
    → w.compiling ≡ before ++ (hash, fut) ∷ after
    → Attended w
    → Attended (finish_compile compiled (hash, fut) (before ++ after) w)
unfolding finish_compile set_value abandon
compile-Attended (ok c) w hash fut before after at a =
    λ g lt e. ground (arith, has_job-without g fut hash before after, a g)
compile-Attended (raise e) w hash fut before after at a =
    λ g lt e. ground (arith, has_job-without g fut hash before after, a g)
compile-Attended abort w hash fut before after at a = a

return-Attended :
    (job : Job) (fs : FileSystem) (end : Outcome (Unit {0})) (rest : List (Job × Bytes)) (w : World)
    → Attended w
    → Attended (return job (fs, end) rest w)
unfolding return
return-Attended job fs (ok u) rest w a = a
return-Attended job fs (raise e) rest w a = a
return-Attended job fs abort rest w a = a

module _ (std : StdSort) (compiled : Hash128 → Future → Outcome Bytes)
    (answers : Future → WriteAnswers) where
  pub Step-Attended : {u v : World} → Step std compiled answers u v → Attended u → Attended v
  unfolding take_tick
  Step-Attended ticks a = a
  Step-Attended {u} (locks faults hash tick lt) a = lock_blob-Attended std faults u hash tick a
  Step-Attended {u} (compiles before hash fut after at) a =
      compile-Attended (compiled hash fut) u hash fut before after at a
  Step-Attended {u} (saves before hash fut result after at) a =
      return-Attended (hash, fut) _ _ (before ++ after) u a

  -- However the steps of any number of requests follow each other, from a cache that nobody uses
  -- and none of whose futures is pending: a future that is pending is one that a call in progress
  -- is to compile and to set.
  pub Run-attended :
      (s : System) (w : World)
      → ((fut : Future) → fut < s.blob_promises.next → s.blob_promises.state fut ≢ pending)
      → Run std compiled answers
          (record { system = s; compiling = []; storing = []; returned = [] })
          w
      → (fut : Future) → fut < w.system.blob_promises.next
      → w.system.blob_promises.state fut ≡ pending
      → has_job fut w.compiling ≡ true
  Run-attended s w settled stop fut lt e = absurd (settled fut lt e)
  Run-attended s w settled (go r step) fut lt e =
      Step-Attended step (Run-attended s _ settled r) fut lt e
