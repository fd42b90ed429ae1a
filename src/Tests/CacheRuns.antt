-- ===== src/Tests/CacheRuns.antt =====
-- The cache on a small disk.
use librtcx.Prelude.{
  ◌+◌, ◌≤◌, ◌≡◌, refl, [], ◌∷◌, Bool, true, false, some, Outcome, ok, raise, abort, runtime_error,
  arith, if◌then◌else◌, ◌==◌, Bytes,
}
use librtcx.Hash.{Hash128}
use librtcx.Lru.{find, insert, emplace}
use librtcx.Disk
use librtcx.Disk.{
  get_disk_entries, FileSystem, LoadResult, loaded, ReadFaults, WriteAnswers, read, object_path,
  get_disk_blob, from_file,
}
use librtcx.Cache.{
  pending, ready, broken, Promises, System, CacheLimits, set_value, construct, clear_stats,
  get_stats, clear_memory_store, enable,
}
use librtcx.Cache.Lock.{lock_blob, find_enabled, read_disk_blob, blob_missed}
use librtcx.Cache.Requests.{run_blob_compile, get_or_add_blob, get_or_add_library}
use librtcx.Cache.Validity
use librtcx.Cache.Validity.{get_or_add-IsValid}
use librtcx.Cache.Validity.Operations.{empty-IsBacked}
use librtcx.Cache.Coherence.{IsCoherent, IsMkstemp}
use librtcx.Cache.Memory.{get_or_add_blob_again}
use librtcx.Cache.Persistence.{get_or_add_blob_persists, no_faults}
use librtcx.Cache.Faults.{failed_compile_stays, disabled_cache_fills}
use librtcx.Cache.Stats.{Request, run, get_stats-run}
use librtcx.Cache.Preload.{preload_from_disk}
use librtcx.Cache.Preload.Contents.{only_blob, preloaded_blob_hits}
use librtcx.Tests.Sorting.{std}
use librtcx.Tests.DiskRuns
use librtcx.Tests.DiskRuns.{cache_dir, tmp_dir, suffix, answers, binary}

abbrev pub none_made : {A : Type 0} → Promises A
none_made = record { state = λ i. pending; next = 0 }

abbrev pub limits : CacheLimits
limits = record { num_mem_blobs = 4; num_mem_libraries = 2 }

abbrev pub new_system : Bool → FileSystem → System
new_system disable files = construct cache_dir tmp_dir limits disable none_made none_made files

abbrev pub start : System
start = new_system false []

abbrev pub want : Hash128 → Bytes
want hash = if hash == 7 then binary else []

start-IsValid : (disable : Bool) (files : FileSystem) → Validity.IsValid (new_system disable files)
unfolding construct
start-IsValid disable files = record {
  blobs = empty-IsBacked 4 none_made;
  libraries = empty-IsBacked 2 none_made;
}

pub start-IsCoherent : IsCoherent want (λ f. 7) start
unfolding construct find read
start-IsCoherent = record {
  valid = start-IsValid false [];
  owned = λ h e here. absurd (ground arith);
  values = λ f c lt is. absurd (omega arith);
  stored = λ h c lt is. absurd (ground arith);
}

pub answers-IsMkstemp : IsMkstemp answers
answers-IsMkstemp s made = ground arith

right : (c : Bytes) → ◌≡◌ {A = Outcome Bytes} (ok binary) (ok c) → c ≡ want 7
right c e = ground arith

-- What the requests run.
unfoldable pub run_program : Unit {0}
unfolding DiskRuns.program get_or_add_blob get_disk_blob from_file construct find read lock_blob
    find_enabled read_disk_blob blob_missed run_blob_compile set_value insert emplace
run_program = tt

get_or_add_blob_again_example :
    let r = get_or_add_blob std no_faults (ok binary) answers start 7 in
    let q = get_or_add_blob std no_faults (raise runtime_error) answers r.0 7 in
    (q.1 ≡ ok 0) × (q.0.blob_promises ≡ r.0.blob_promises) × (q.0.files ≡ r.0.files)
unfolding run_program
get_or_add_blob_again_example =
    get_or_add_blob_again std no_faults no_faults (ok binary) (raise runtime_error) answers answers
      start 7 0 refl (omega arith) (start-IsValid false []) refl

abbrev warm : System
warm = (get_or_add_blob std no_faults (ok binary) answers start 7).0

get_or_add_blob_persists_example :
    let r = clear_memory_store (get_or_add_blob std no_faults (ok binary) answers start 7).0 in
    let q = get_or_add_blob std no_faults abort answers r 7 in
    (q.1 ≡ ok r.blob_promises.next)
    × (q.0.blob_promises.state r.blob_promises.next ≡ ready binary)
    × (q.0.files ≡ r.files)
unfolding run_program
get_or_add_blob_persists_example =
    get_or_add_blob_persists std no_faults answers answers start 7 binary suffix abort 0 refl refl
      refl refl answers-IsMkstemp refl refl

get_or_add-IsValid_example :
    Validity.IsValid (get_or_add_blob std no_faults (ok binary) answers start 7).0
    × Validity.IsValid (get_or_add_library std (λ p. loaded 3) (ok (9, binary)) answers start 7).0
get_or_add-IsValid_example =
    get_or_add-IsValid std no_faults (λ p. loaded 3) (ok binary) (ok (9, binary)) answers start 7
      (start-IsValid false [])

failed_compile_stays_example :
    let r = get_or_add_blob std no_faults (raise runtime_error) answers start 7 in
    let q = get_or_add_blob std no_faults (ok binary) answers r.0 7 in
    (r.1 ≡ raise runtime_error) × (q.1 ≡ ok 0) × (q.0.blob_promises.state 0 ≡ broken)
unfolding run_program
failed_compile_stays_example =
    failed_compile_stays std start 7 (start-IsValid false []) (omega arith) refl no_faults no_faults
      (ok binary) answers answers runtime_error refl refl

disabled_cache_fills_example :
    let s = new_system true [] in
    let r = (get_or_add_blob std no_faults (ok binary) answers s 7).0 in
    let q = get_or_add_blob std no_faults abort answers (enable true r) 7 in
    (find 7 r.blobs_cache.entries ≡ some (record { last_touched_tick = 0; value = 0 }))
    × (q.1 ≡ ok 0)
    × (q.0.blob_promises ≡ r.blob_promises)
    × (q.0.files ≡ r.files)
unfolding run_program
disabled_cache_fills_example =
    disabled_cache_fills std (new_system true []) 7 (start-IsValid true []) (omega arith) refl
      no_faults no_faults (ok binary) abort answers answers refl

abbrev request : Hash128 → Request
request hash = record { hash = hash; faults = no_faults; compiled = ok binary; answers = answers }

get_stats-run_example :
    let d = get_stats (run std (request 7 ∷ request 8 ∷ request 7 ∷ []) (clear_stats start)) in
    (d.blob_mem_hits + d.blob_mem_misses ≡ 3)
    × (d.blob_disk_hits + d.blob_disk_misses ≤ d.blob_mem_misses)
get_stats-run_example =
    get_stats-run std (request 7 ∷ request 8 ∷ request 7 ∷ []) start (omega arith)

abbrev unlimited : CacheLimits
unlimited = record { num_mem_blobs = 4294967295; num_mem_libraries = 4294967295 }

abbrev stored : FileSystem
stored = (object_path cache_dir Disk.blob 7, binary) ∷ []

abbrev resumed : System
resumed = new_system false stored

preloaded_blob_hits_example :
    (t : System) × (preload_from_disk std
        (λ p. no_faults)
        (λ p. loaded 3)
        (ok (only_blob resumed 7))
        resumed
      ≡ ok t)
    × let q = get_or_add_blob std no_faults abort answers t 7 in
      (q.1 ≡ ok 0) × (q.0.blob_promises.state 0 ≡ ready binary) × (q.0.files ≡ stored)
unfolding run_program
preloaded_blob_hits_example =
    preloaded_blob_hits std (λ p. no_faults) (λ p. loaded 3) resumed 7 binary no_faults abort
      answers (omega arith) (start-IsValid false stored) refl (omega arith) (omega arith) refl
      (λ p. refl) refl

preloading :
    (t : System) × (preload_from_disk std
        (λ p. no_faults)
        (λ p. loaded 3)
        (ok (only_blob resumed 7))
        resumed
      ≡ ok t)
unfolding run_program
preloading =
    let (t, e, _) =
      preloaded_blob_hits std (λ p. no_faults) (λ p. loaded 3) resumed 7 binary no_faults abort
        answers (omega arith) (start-IsValid false stored) refl (omega arith) (omega arith) refl
        (λ p. refl) refl in
    (t, e)
