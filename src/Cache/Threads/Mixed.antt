-- ===== src/Cache/Threads/Mixed.antt =====
-- Requests for blobs and for libraries by several threads, and the other public operations between
-- their steps.
pub mod Frames
pub mod Upkeep
pub mod Safety
pub mod Promises
pub mod Once
pub mod Settling
use librtcx.Prelude.{ℕ, ◌≡◌, List, [], Bool, true, false, Outcome, Bytes}
use librtcx.Hash.{Hash128}
use librtcx.Lru.{StdSort}
use librtcx.Disk.{FileSystem, WriteAnswers, LoadResult, ObjectType}
use librtcx.Cache.{Future, System}
use librtcx.Cache.Libraries.{Holds}
use librtcx.Cache.Histories.{
  Operation, get_blob, get_library, clear_memory, reset_stats, clear_disk, set_enabled,
  load_directory, opened, perform, is_request,
}
use librtcx.Cache.Histories.Invariant.{IsHonest}
use librtcx.Cache.Threads.{Job, World, Step}
use librtcx.Cache.Threads.Libraries.{LibraryWorld, LibraryStep}

-- The cache and the calls of both kinds that are in progress or have returned.
pub record Callers : Type 0 where
  pub system : System
  pub blob_jobs : List Job
  pub blob_stores : List (Job × Bytes)
  pub blobs : List Job
  pub library_jobs : List Job
  pub loaded_libraries : List (Job × ℕ)
  pub library_stores : List (Job × Bytes)
  pub libraries : List Job

abbrev pub blob_world : Callers → World
blob_world c = record {
  system = c.system;
  compiling = c.blob_jobs;
  storing = c.blob_stores;
  returned = c.blobs;
}

-- The callers after a step of one of the calls for blobs, or for libraries.
abbrev pub with_blobs : Callers → World → Callers
with_blobs c w = record c {
  system = w.system;
  blob_jobs = w.compiling;
  blob_stores = w.storing;
  blobs = w.returned;
}

abbrev pub library_world : Callers → LibraryWorld
library_world c = record {
  system = c.system;
  compiling = c.library_jobs;
  publishing = c.loaded_libraries;
  storing = c.library_stores;
  returned = c.libraries;
}

abbrev pub with_libraries : Callers → LibraryWorld → Callers
with_libraries c w = record c {
  system = w.system;
  library_jobs = w.compiling;
  loaded_libraries = w.publishing;
  library_stores = w.storing;
  libraries = w.returned;
}

module _ (want : ObjectType → Hash128 → Bytes) (holds : Holds) (std : StdSort)
    (load : FileSystem → Bytes → LoadResult) (blob : Hash128 → Future → Outcome Bytes)
    (library : Hash128 → Future → Outcome (ℕ × Bytes))
    (blob_answers library_answers : Future → WriteAnswers) where
  -- A step of a request for a blob, of one for a library, or another operation, where the world
  -- around it is honest.
  pub data MixedStep (c : Callers) : Callers → Type 0 where
    for_blob :
        (w : World) → Step std blob blob_answers (blob_world c) w → MixedStep c (with_blobs c w)
    for_library :
        (w : LibraryWorld)
        → LibraryStep std load library library_answers (library_world c) w
        → MixedStep c (with_libraries c w)
    operates :
        (call : Operation)
        → is_request call ≡ false
        → IsHonest want holds call
        → MixedStep c (record c { system = (perform std call (opened c.system)).system })

  pub data MixedRun (c : Callers) : Callers → Type 0 where
    none_yet : MixedRun c c
    and_then : {u v : Callers} → MixedRun c u → MixedStep u v → MixedRun c v

-- A cache that nobody uses.
abbrev pub nobody : System → Callers
nobody s = record {
  system = s;
  blob_jobs = [];
  blob_stores = [];
  blobs = [];
  library_jobs = [];
  loaded_libraries = [];
  library_stores = [];
  libraries = [];
}
