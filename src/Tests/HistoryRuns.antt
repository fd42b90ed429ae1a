-- ===== src/Tests/HistoryRuns.antt =====
-- Whole lives of a cache.
use librtcx.Prelude.{
  ◌≡◌, refl, List, [], ◌∷◌, Bool, true, false, none, some, ok, raise, Outcome, runtime_error, arith,
  if◌then◌else◌, ◌==◌, Bytes, length, All, Ensures, text_eq_iff,
}
use librtcx.Hash.{Hash128}
use librtcx.Disk
use librtcx.Disk.{
  FileSystem, LoadResult, loaded, file_not_found, ObjectType, read, object_path, object_name,
}
use librtcx.Disk.Paths.{object_path-injective}
use librtcx.Cache.{construct}
use librtcx.Cache.Preload.{start}
use librtcx.Cache.Persistence.{no_faults}
use librtcx.Cache.Stored.{IsStored}
use librtcx.Cache.Libraries.{Holds, IsLoader, IsCompiler}
use librtcx.Cache.Histories.{
  Operation, get_blob, get_library, clear_memory, reset_stats, clear_disk, set_enabled,
  load_directory, History, perform_all, opened, no_promises, in_directory,
}
use librtcx.Cache.Histories.Invariant.{IsHonest, Told, perform_all-Told}
use librtcx.Cache.Histories.Preloads.{AreObjects}
use librtcx.Cache.Histories.Life.{AreRight, construct-IsRemembering, life-AreRight}
use librtcx.Cache.Histories.Futures.{KeepsAll}
use librtcx.Cache.Histories.Runs.{perform_all-KeepsAll}
use librtcx.Tests.Sorting.{std}
use librtcx.Tests.DiskRuns.{cache_dir, tmp_dir, answers, binary}
use librtcx.Tests.CacheRuns.{limits, answers-IsMkstemp}

abbrev pub want : ObjectType → Hash128 → Bytes
want type hash = if hash == 7 then binary else []

-- A driver whose handles are the numbers of bytes that it loaded.
abbrev pub holds : Holds
holds handle c = handle ≡ length c

abbrev pub load : FileSystem → Bytes → LoadResult
load fs path = elim (read path fs) [ none ↦ file_not_found | some c ↦ loaded (length c) ]

abbrev pub files : FileSystem
files = (object_path cache_dir Disk.blob 7, binary) ∷ []

abbrev names : List (Bytes × Bool)
names = (object_name Disk.blob 7, true) ∷ []

abbrev calls : List Operation
calls =
    get_blob no_faults (raise runtime_error) answers 7
    ∷ get_library load (ok (3, binary)) answers 7
    ∷ clear_memory
    ∷ set_enabled false
    ∷ get_library load (raise runtime_error) answers 7
    ∷ reset_stats
    ∷ load_directory (λ p. no_faults) load (ok names)
    ∷ clear_disk (λ p. false) (ok [])
    ∷ []

pub files-IsStored : (type : ObjectType) → IsStored (want type) cache_dir type files
unfolding read
files-IsStored type h c lt e = ground (
  arith,
  text_eq_iff (object_path cache_dir Disk.blob 7) (object_path cache_dir type h),
  object_path-injective cache_dir Disk.blob type 7 h (omega arith) lt,
)

pub load-IsLoader : (fs : FileSystem) → IsLoader holds fs (load fs)
load-IsLoader fs path c handle here e = ground arith

right_blob : (c : Bytes) → ◌≡◌ {A = Outcome Bytes} (raise runtime_error) (ok c) → c ≡ binary
right_blob c e = absurd (ground arith)

made : IsCompiler (want Disk.library) holds 7 (ok (3, binary))
made handle c e = ground arith

refused : IsCompiler (want Disk.library) holds 7 (raise runtime_error)
refused handle c e = absurd (ground arith)

names-AreObjects : AreObjects names
names-AreObjects = ((λ e. (Disk.blob, 7, omega arith, refl)), tt)

calls-IsHonest : All (IsHonest want holds) calls
calls-IsHonest = (
  (omega arith, answers-IsMkstemp, right_blob),
  (
    (omega arith, answers-IsMkstemp, load-IsLoader, made),
    (
      tt,
      (
        tt,
        (
          (omega arith, answers-IsMkstemp, load-IsLoader, refused),
          (tt, ((names-AreObjects, load-IsLoader), (tt, tt))),
        ),
      ),
    ),
  ),
)

life-AreRight_example :
    Ensures
      (λ s. AreRight want holds (perform_all std calls (opened s)))
      (start std
        (λ p. no_faults)
        (load files)
        (in_directory cache_dir (ok names))
        true
        (construct cache_dir tmp_dir limits false no_promises no_promises files))
life-AreRight_example =
    life-AreRight want holds cache_dir tmp_dir limits false files files-IsStored std
      (λ p. no_faults) (load files) (ok names) true calls names-AreObjects (load-IsLoader files)
      calls-IsHonest

abbrev pub history : History
history = opened (construct cache_dir tmp_dir limits false no_promises no_promises files)

perform_all-KeepsAll_example : KeepsAll history.system (perform_all std calls history).system
perform_all-KeepsAll_example = perform_all-KeepsAll std calls history

perform_all-Told_example : Told want holds (perform_all std calls history)
perform_all-Told_example = perform_all-Told want holds std calls history calls-IsHonest (
  (λ f. 0),
  (λ f. 0),
  record {
    remembering =
        construct-IsRemembering want holds cache_dir tmp_dir limits false files files-IsStored;
    blobs = tt;
    libraries = tt;
  },
)
