-- ===== src/Cache/Threads/Mixed/Settling.antt =====
-- A future that is pending can be settled by a step that some call is ready to take.
use librtcx.Prelude.{
  ℕ, ◌<◌, ◌≡◌, refl, ap, ◌≢◌, List, [], ◌∷◌, ◌++◌, Outcome, ok, raise, abort, Bytes, arith, ◌==◌,
  Bool-cases, inl, inr,
}
use librtcx.Hash.{Hash128}
use librtcx.Lru.{StdSort}
use librtcx.Disk.{FileSystem, WriteAnswers, LoadResult, ObjectType}
use librtcx.Cache.{Future, pending, set_value, abandon, System}
use librtcx.Cache.Libraries.{Holds}
use librtcx.Cache.Threads.{Job, World, compiles, finish_compile}
use librtcx.Cache.Threads.Once.{jobs_of}
use librtcx.Cache.Threads.Libraries.{
  LibraryWorld, builds, publishes, finish_library, publish_library,
}
use librtcx.Cache.Threads.Libraries.Once.{loads_of}
use librtcx.Cache.Threads.Mixed.{
  Callers, blob_world, library_world, with_blobs, with_libraries, MixedStep, for_blob, for_library,
  MixedRun, nobody,
}
use librtcx.Cache.Threads.Mixed.Once.{MixedRun-jobs_of, MixedRun-loads_of}

-- A future that some call is to set stands among the calls.
jobs_of-splits :
    (fut : Future) (jobs : List Job)
    → jobs_of fut jobs ≢ 0
    → (before : List Job) × (hash : Hash128) × (after : List Job) × (jobs
        ≡ before ++ (hash, fut) ∷ after)
jobs_of-splits fut [] some_job = absurd (some_job refl)
jobs_of-splits fut ((hash, g) ∷ jobs) some_job = elim (Bool-cases (g == fut)) [
  | inl e ↦ ([], hash, jobs, ground (arith, e))
  | inr e ↦
      let (before, k, after, at) = jobs_of-splits fut jobs (λ none. some_job (ground (arith, e))) in
      ((hash, g) ∷ before, k, after, ap (λ l. (hash, g) ∷ l) at)
]

finish_compile-settles :
    (compiled : Outcome Bytes) (hash : Hash128) (fut : Future) (rest : List Job) (w : World)
    → compiled ≢ abort
    → (finish_compile compiled (hash, fut) rest w).system.blob_promises.state fut ≢ pending
unfolding finish_compile set_value abandon
finish_compile-settles (ok c) hash fut rest w ends = λ e. ground arith
finish_compile-settles (raise x) hash fut rest w ends = λ e. ground arith
finish_compile-settles abort hash fut rest w ends = absurd (ends refl)

-- A library that was loaded for a future stands among the calls that have loaded one.
loads_of-splits :
    (fut : Future) (loads : List (Job × ℕ))
    → loads_of fut loads ≢ 0
    → (before : List (Job × ℕ)) × (hash : Hash128) × (handle : ℕ) × (after : List (Job × ℕ))
      × (loads ≡ before ++ ((hash, fut), handle) ∷ after)
loads_of-splits fut [] some_load = absurd (some_load refl)
loads_of-splits fut (((hash, g), handle) ∷ loads) some_load = elim (Bool-cases (g == fut)) [
  | inl e ↦ ([], hash, handle, loads, ground (arith, e))
  | inr e ↦
      let (before, k, h, after, at) =
        loads_of-splits fut loads (λ none. some_load (ground (arith, e))) in
      (((hash, g), handle) ∷ before, k, h, after, ap (λ l. ((hash, g), handle) ∷ l) at)
]

finish_library-settles :
    (compiled : Outcome (ℕ × Bytes)) (hash : Hash128) (fut : Future) (rest : List Job)
    (w : LibraryWorld)
    → compiled ≢ abort
    → (finish_library compiled (hash, fut) rest w).system.library_promises.state fut ≢ pending
unfolding finish_library set_value abandon
finish_library-settles (ok (handle, c)) hash fut rest w ends = λ e. ground arith
finish_library-settles (raise x) hash fut rest w ends = λ e. ground arith
finish_library-settles abort hash fut rest w ends = absurd (ends refl)

publish_library-settles :
    (hash : Hash128) (fut : Future) (handle : ℕ) (rest : List (Job × ℕ)) (w : LibraryWorld)
    → (publish_library (hash, fut) handle rest w).system.library_promises.state fut ≢ pending
unfolding publish_library set_value
publish_library-settles hash fut handle rest w = λ e. ground arith

module _ (want : ObjectType → Hash128 → Bytes) (holds : Holds) (std : StdSort)
    (load : FileSystem → Bytes → LoadResult) (blob_of : Hash128 → Future → Outcome Bytes)
    (library_of : Hash128 → Future → Outcome (ℕ × Bytes))
    (blob_answers library_answers : Future → WriteAnswers) where
  -- Some call can take a step after which the future of a blob is not pending.
  abbrev pub SettlesBlob : Callers → Future → Type 0
  SettlesBlob c fut =
      (d : Callers) × MixedStep want holds std load blob_of library_of blob_answers library_answers
        c d
      × (d.system.blob_promises.state fut ≢ pending)

  -- Some call can take a step after which the future of a library is not pending.
  abbrev pub SettlesLibrary : Callers → Future → Type 0
  SettlesLibrary c fut =
      (d : Callers) × MixedStep want holds std load blob_of library_of blob_answers library_answers
        c d
      × (d.system.library_promises.state fut ≢ pending)

  job-SettlesBlob :
      (c : Callers) (fut : Future)
      → ((hash : Hash128) → blob_of hash fut ≢ abort)
      → jobs_of fut c.blob_jobs ≢ 0
      → SettlesBlob c fut
  job-SettlesBlob c fut ends some_job =
      let (before, hash, after, at) = jobs_of-splits fut c.blob_jobs some_job in
      let w = finish_compile (blob_of hash fut) (hash, fut) (before ++ after) (blob_world c) in
      (
        with_blobs c w,
        for_blob w (compiles before hash fut after at),
        finish_compile-settles (blob_of hash fut) hash fut (before ++ after) (blob_world c)
            (ends hash),
      )

  job-SettlesLibrary :
      (c : Callers) (fut : Future)
      → ((hash : Hash128) → library_of hash fut ≢ abort)
      → jobs_of fut c.library_jobs ≢ 0
      → SettlesLibrary c fut
  job-SettlesLibrary c fut ends some_job =
      let (before, hash, after, at) = jobs_of-splits fut c.library_jobs some_job in
      let w =
        finish_library (library_of hash fut) (hash, fut) (before ++ after) (library_world c) in
      (
        with_libraries c w,
        for_library w (builds before hash fut after at),
        finish_library-settles (library_of hash fut) hash fut (before ++ after) (library_world c)
            (ends hash),
      )

  load-SettlesLibrary :
      (c : Callers) (fut : Future) → loads_of fut c.loaded_libraries ≢ 0 → SettlesLibrary c fut
  load-SettlesLibrary c fut some_load =
      let (before, hash, handle, after, at) = loads_of-splits fut c.loaded_libraries some_load in
      let w = publish_library (hash, fut) handle (before ++ after) (library_world c) in
      (
        with_libraries c w,
        for_library w (publishes before (hash, fut) handle after at),
        publish_library-settles hash fut handle (before ++ after) (library_world c),
      )

  module _ (s : System) (c : Callers)
      (blobs : (fut : Future) → fut < s.blob_promises.next → s.blob_promises.state fut ≢ pending)
      (libraries : (fut : Future)
        → fut < s.library_promises.next
        → s.library_promises.state fut ≢ pending)
      (run : MixedRun want holds std load blob_of library_of blob_answers library_answers
        (nobody s)
        c) where
    -- However the steps of any number of requests for blobs and for libraries and the other public
    -- operations have followed each other, from a cache that nobody uses and none of whose futures
    -- is pending, and where hashes have 128 bits, the driver loads what a file holds and a
    -- directory that is preloaded has no regular files but objects: where a blob's future is
    -- pending and no compilation for it ends the program, one of the calls in progress can take a
    -- step that settles the future.
    pub MixedRun-SettlesBlob :
        (fut : Future)
        → ((hash : Hash128) → blob_of hash fut ≢ abort)
        → fut < c.system.blob_promises.next
        → c.system.blob_promises.state fut ≡ pending
        → SettlesBlob c fut
    MixedRun-SettlesBlob fut ends lt e =
        let exact =
          MixedRun-jobs_of want holds std load blob_of library_of blob_answers library_answers s c
            blobs libraries run fut in
        job-SettlesBlob c fut ends (ground (arith, exact, e, lt))

    -- However the steps of any number of requests for blobs and for libraries and the other public
    -- operations have followed each other, from a cache that nobody uses and none of whose futures
    -- is pending, and where hashes have 128 bits, the driver loads what a file holds and a
    -- directory that is preloaded has no regular files but objects: if a library's future is
    -- pending and no compilation for it ends the program, one of the calls in progress can take a
    -- step that settles the future.
    pub MixedRun-SettlesLibrary :
        (fut : Future)
        → ((hash : Hash128) → library_of hash fut ≢ abort)
        → fut < c.system.library_promises.next
        → c.system.library_promises.state fut ≡ pending
        → SettlesLibrary c fut
    MixedRun-SettlesLibrary fut ends lt e =
        let exact =
          MixedRun-loads_of want holds std load blob_of library_of blob_answers library_answers s c
            blobs libraries run fut in
        elim (Bool-cases (jobs_of fut c.library_jobs == 0)) [
          | inl z ↦ load-SettlesLibrary c fut (ground (arith, exact, e, lt, z))
          | inr z ↦ job-SettlesLibrary c fut ends (ground (arith, z))
        ]
