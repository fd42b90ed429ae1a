-- ===== src/Cache/Histories/Life.antt =====
-- From the construction of a cache to any later call.
use librtcx.Prelude.{
  ℕ, ◌≡◌, List, Bool, true, false, Outcome, Bytes, arith, All, All-mono, Ensures, Ensures-weakened,
}
use librtcx.Hash.{Hash128}
use librtcx.Lru.{StdSort, find}
use librtcx.Disk.{FileSystem, ReadFaults, LoadResult, ObjectType, blob, library}
use librtcx.Cache.{Future, System, CacheLimits, ready, construct}
use librtcx.Cache.Preload.{start, preload_from_disk}
use librtcx.Cache.Validity.{IsValid}
use librtcx.Cache.Validity.Operations.{empty-IsBacked}
use librtcx.Cache.Stored.{IsStored}
use librtcx.Cache.Libraries.{Holds, IsLoader}
use librtcx.Cache.Histories.{Operation, History, perform_all, opened, no_promises, in_directory}
use librtcx.Cache.Histories.Remembering.{IsRemembering, IsTold}
use librtcx.Cache.Histories.Invariant.{IsHonest, perform_all-Told}
use librtcx.Cache.Histories.Entries.{Follows}
use librtcx.Cache.Histories.Preloads.{AreObjects, preload_from_disk-Follows}

module _ (want : ObjectType → Hash128 → Bytes) (holds : Holds) where
  -- A blob future of a history that has a value has the blob of the hash that was asked for, and a
  -- library future the handle of a library of the hash.
  abbrev pub AreRight : History → Type 0
  AreRight h =
      All
        (λ (j : Hash128 × Future).
          (c : Bytes) → h.system.blob_promises.state j.1 ≡ ready c → c ≡ want blob j.0)
        h.blobs
      × All
          (λ (j : Hash128 × Future).
            (handle : ℕ)
            → h.system.library_promises.state j.1 ≡ ready handle
            → holds handle (want library j.0))
          h.libraries

  Told-AreRight : {bo lo : Future → Hash128} (h : History) → IsTold want holds bo lo h → AreRight h
  Told-AreRight h told =
      let r = told.remembering in
      (
        All-mono _ _ h.blobs (λ j own c e. ground (arith, r.blobs.values j.1 c own.1 e, own))
            told.blobs,
        All-mono _ _ h.libraries
            (λ j own handle e. ground (arith, r.libraries.values j.1 handle own.1 e, own))
            told.libraries,
      )

  opened-AreRight :
      (std : StdSort) (calls : List Operation) (s : System) {bo lo : Future → Hash128}
      → All (IsHonest want holds) calls
      → IsRemembering want holds bo lo s
      → AreRight (perform_all std calls (opened s))
  opened-AreRight std calls s {bo} {lo} honest r =
      let (_, _, told) =
        perform_all-Told want holds std calls (opened s) honest
          (bo, lo, record { remembering = r; blobs = tt; libraries = tt }) in
      Told-AreRight (perform_all std calls (opened s)) told

  module _ (cache_dir tmp_dir : Bytes) (limits : CacheLimits) (disable : Bool) (files : FileSystem)
      (right : (type : ObjectType) → IsStored (want type) cache_dir type files) where
    pub construct-IsRemembering :
        IsRemembering want holds
          (λ f. 0)
          (λ f. 0)
          (construct cache_dir tmp_dir limits disable no_promises no_promises files)
    unfolding construct find
    construct-IsRemembering =
        let v : IsValid (construct cache_dir tmp_dir limits disable no_promises no_promises files) =
          record {
            blobs = empty-IsBacked limits.num_mem_blobs no_promises;
            libraries = empty-IsBacked limits.num_mem_libraries no_promises;
          } in
        record {
          blobs = record {
            valid = v;
            owned = λ h e here. absurd (ground arith);
            values = λ f c l e. absurd (ground arith);
            stored = right blob;
          };
          libraries = record {
            valid = v;
            owned = λ h e here. absurd (ground arith);
            values = λ f c l e. absurd (ground arith);
            stored = right library;
          };
        }

    -- Over the whole life of a cache, made over a directory whose objects are those of their hashes,
    -- preloaded from it or not, enabled or not, and then called in any order: whenever a future that
    -- a call returned for a hash has a value, that is the hash's blob, or the handle of a library of
    -- the hash's binary. It is asked that hashes have 128 bits, that a compiler gives a hash its own
    -- object, that the driver loads what a file holds, that `mkstemp` chooses six characters without
    -- a dot, and that a directory that is preloaded has no regular files but objects.
    pub life-AreRight :
        (std : StdSort) (faults : Bytes → ReadFaults) (load : Bytes → LoadResult)
        (listing : Outcome (List (Bytes × Bool))) (preload : Bool) (calls : List Operation)
        → Ensures AreObjects listing
        → IsLoader holds files load
        → All (IsHonest want holds) calls
        → Ensures
            (λ s. AreRight (perform_all std calls (opened s)))
            (start std faults load
              (in_directory cache_dir listing)
              preload
              (construct cache_dir tmp_dir limits disable no_promises no_promises files))
    unfolding construct start
    life-AreRight std faults load listing false calls objects loads honest =
        opened-AreRight std calls _ honest construct-IsRemembering
    life-AreRight std faults load listing true calls objects loads honest =
        let s = construct cache_dir tmp_dir limits disable no_promises no_promises files in
        Ensures-weakened (Follows want holds (λ f. 0) (λ f. 0) s)
          (λ t. AreRight (perform_all std calls (opened t)))
          (preload_from_disk std faults load (in_directory cache_dir listing) s)
          (λ t (bo, lo, r, _, _, _, _). opened-AreRight std calls t honest r)
          (preload_from_disk-Follows want holds std faults load listing s (λ f. 0) (λ f. 0) objects
            loads construct-IsRemembering)
