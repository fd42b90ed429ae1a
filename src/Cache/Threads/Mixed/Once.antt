-- ===== src/Cache/Threads/Mixed/Once.antt =====
-- A promise is set once, whatever requests and operations come together.
use librtcx.Prelude.{
  ℕ, ◌+◌, ◌<◌, ◌≡◌, refl, ◌≢◌, ◌∙◌, sym, Option, none, some, Outcome, Bytes, arith, if◌then◌else◌,
  ltb,
}
use librtcx.Hash.{Hash128}
use librtcx.Lru.{StdSort}
use librtcx.Disk.{FileSystem, WriteAnswers, LoadResult, ObjectType}
use librtcx.Cache.{
  Future, Promises, Shared, pending, ready, broken, make_promise, set_value, System,
}
use librtcx.Cache.Preload.{add_blob, add_library}
use librtcx.Cache.Libraries.{Holds}
use librtcx.Cache.Histories.{opened}
use librtcx.Cache.Histories.Relations.{IsPromiseRelation, perform-IsPromiseRelation}
use librtcx.Cache.Threads.Once.{jobs_of, unset, due, Balanced, Step-Balanced}
use librtcx.Cache.Threads.Libraries.Once.{loads_of, BalancedLibraries, LibraryStep-Balanced}
use librtcx.Cache.Threads.Mixed.{
  Callers, blob_world, library_world, MixedStep, for_blob, for_library, operates, MixedRun,
  none_yet, and_then, nobody,
}
use librtcx.Cache.Threads.Mixed.Promises.{Step-library_promises, LibraryStep-blob_promises}

abbrev DueAsBefore : System → System → Type 0
DueAsBefore s t =
    (fut : Future)
    → (due t.blob_promises fut ≡ due s.blob_promises fut)
      × (due t.library_promises fut ≡ due s.library_promises fut)

add_blob-DueAsBefore :
    (std : StdSort) (s : System) (hash : Hash128) (disk : Option Bytes)
    → DueAsBefore s (add_blob std s hash disk)
unfolding add_blob make_promise set_value
add_blob-DueAsBefore std s hash none fut = (refl, refl)
add_blob-DueAsBefore std s hash (some c) fut = (ground arith, refl)

add_library-DueAsBefore :
    (std : StdSort) (s : System) (hash : Hash128) (disk : Option ℕ)
    → DueAsBefore s (add_library std s hash disk)
unfolding add_library make_promise set_value
add_library-DueAsBefore std s hash none fut = (refl, refl)
add_library-DueAsBefore std s hash (some handle) fut = (refl, ground arith)

DueAsBefore-IsPromiseRelation : (std : StdSort) → IsPromiseRelation std DueAsBefore
DueAsBefore-IsPromiseRelation std = record {
  same = λ s t b l fut. (rw b refl, rw l refl);
  transitive = λ s t u a b fut. ((b fut).0 ∙ (a fut).0, (b fut).1 ∙ (a fut).1);
  adds_blob = add_blob-DueAsBefore std;
  adds_library = add_library-DueAsBefore std;
}

not_pending : {A : Type 0} (x : Shared A) → x ≢ pending → unset x ≡ 0
not_pending pending n = absurd (n refl)
not_pending (ready a) n = refl
not_pending broken n = refl

-- No call is to set a future of promises none of which is pending.
settled-due :
    {A : Type 0} (p : Promises A)
    → ((fut : Future) → fut < p.next → p.state fut ≢ pending)
    → (fut : Future) → 0 ≡ due p fut
settled-due p settled fut = ground (arith, settled fut, not_pending (p.state fut))

module _ (want : ObjectType → Hash128 → Bytes) (holds : Holds) (std : StdSort)
    (load : FileSystem → Bytes → LoadResult) (blob_of : Hash128 → Future → Outcome Bytes)
    (library_of : Hash128 → Future → Outcome (ℕ × Bytes))
    (blob_answers library_answers : Future → WriteAnswers) where
  abbrev AllBalanced : Callers → Type 0
  AllBalanced c = Balanced (blob_world c) × BalancedLibraries (library_world c)

  MixedStep-Balanced :
      {c d : Callers}
      → MixedStep want holds std load blob_of library_of blob_answers library_answers c d
      → AllBalanced c
      → AllBalanced d
  MixedStep-Balanced (for_blob w step) (b, l) = (
    Step-Balanced std blob_of blob_answers step b,
    rw (Step-library_promises std blob_of blob_answers step) l,
  )
  MixedStep-Balanced (for_library w step) (b, l) = (
    rw (LibraryStep-blob_promises std load library_of library_answers step) b,
    LibraryStep-Balanced std load library_of library_answers step l,
  )
  MixedStep-Balanced {c} (operates call other honest) (b, l) =
      let kept =
        perform-IsPromiseRelation std DueAsBefore (DueAsBefore-IsPromiseRelation std) call
          (opened c.system) other in
      (λ fut. b fut ∙ sym (kept fut).0, λ fut. l fut ∙ sym (kept fut).1)

  MixedRun-AllBalanced :
      {c d : Callers}
      → MixedRun want holds std load blob_of library_of blob_answers library_answers c d
      → AllBalanced c
      → AllBalanced d
  MixedRun-AllBalanced none_yet b = b
  MixedRun-AllBalanced (and_then r step) b = MixedStep-Balanced step (MixedRun-AllBalanced r b)

  module _ (s : System) (c : Callers)
      (blobs : (fut : Future) → fut < s.blob_promises.next → s.blob_promises.state fut ≢ pending)
      (libraries : (fut : Future)
        → fut < s.library_promises.next
        → s.library_promises.state fut ≢ pending)
      (run : MixedRun want holds std load blob_of library_of blob_answers library_answers
        (nobody s)
        c) where
    all_balanced : AllBalanced c
    all_balanced =
        MixedRun-AllBalanced run
          (settled-due s.blob_promises blobs, settled-due s.library_promises libraries)

    -- However the steps of any number of requests for blobs and for libraries and the other public
    -- operations follow each other, from a cache that nobody uses and none of whose futures is
    -- pending, and where hashes have 128 bits, the driver loads what a file holds and a directory
    -- that is preloaded has no regular files but objects: of the calls in progress exactly one is
    -- to compile and to set a blob's future that is made and pending, and none is to set one that
    -- is ready, broken or not yet made.
    pub MixedRun-jobs_of :
        (fut : Future)
        → jobs_of fut c.blob_jobs ≡ (
            if ltb fut c.system.blob_promises.next
            then unset (c.system.blob_promises.state fut)
            else 0)
    MixedRun-jobs_of = all_balanced.0

    -- However the steps of any number of requests for blobs and for libraries and the other public
    -- operations follow each other, from a cache that nobody uses and none of whose futures is
    -- pending, and where hashes have 128 bits, the driver loads what a file holds and a directory
    -- that is preloaded has no regular files but objects: of the calls in progress exactly one is
    -- to set a library's future that is made and pending, be it a call that compiles the library or
    -- one that has loaded it, and none is to set one that is ready, broken or not yet made.
    pub MixedRun-loads_of :
        (fut : Future)
        → jobs_of fut c.library_jobs + loads_of fut c.loaded_libraries ≡ (
            if ltb fut c.system.library_promises.next
            then unset (c.system.library_promises.state fut)
            else 0)
    MixedRun-loads_of = all_balanced.1
