-- ===== src/Cache/Histories/Remembering.antt =====
-- Caches that remember the blobs and the libraries of their hashes.
use librtcx.Prelude.{
  ℕ, ◌<◌, ◌≡◌, refl, List, [], ◌∷◌, Bool, some, Outcome, ok, raise, abort, Bytes, if◌then◌else◌,
  arith, All,
}
use librtcx.Hash.{Hash128}
use librtcx.Lru.{find}
use librtcx.Disk.{FileSystem, ObjectType, blob, library, read, remove, get_disk_entries}
use librtcx.Disk.Files.{read-remove}
use librtcx.Cache.{Future, System, clear_memory_store, clear_disk_store, remove_entries, CacheStats}
use librtcx.Cache.Validity.{IsValid}
use librtcx.Cache.Validity.Operations.{clear-IsBacked}
use librtcx.Cache.Stored.{IsStored}
use librtcx.Cache.Coherence.{IsCoherent}
use librtcx.Cache.Libraries.{Holds, IsShelved}
use librtcx.Cache.Histories.{History, system_after}

read_of_remove_entries :
    (throws : Bytes → Bool) (entries : List Bytes) (fs : FileSystem) (p c : Bytes)
    → read p (remove_entries throws entries fs) ≡ some c
    → read p fs ≡ some c
unfolding remove_entries
read_of_remove_entries throws [] fs p c e = e
read_of_remove_entries throws (q ∷ entries) fs p c e = ground (
  arith,
  read_of_remove_entries throws entries (if throws q then fs else remove q fs) p c e,
  read-remove p q fs,
)

pub cleared_disk-promises :
    (throws : Bytes → Bool) (listing : Outcome (List (Bytes × Bool))) (s : System)
    → let t = system_after s (clear_disk_store throws listing s) in
      (t.blob_promises ≡ s.blob_promises) × (t.library_promises ≡ s.library_promises)
unfolding clear_disk_store
cleared_disk-promises throws (ok entries) s = (refl, refl)
cleared_disk-promises throws (raise e) s = (refl, refl)
cleared_disk-promises throws abort s = (refl, refl)

-- A future of the hash that was asked for.
abbrev pub OwnedBy : (Future → Hash128) → ℕ → Hash128 × Future → Type 0
OwnedBy owner next j = (owner j.1 ≡ j.0) × (j.1 < next)

module _ (want : ObjectType → Hash128 → Bytes) (holds : Holds) where
  -- A cache that remembers the blobs and the libraries of their hashes, for owners of the futures.
  pub record IsRemembering (bo lo : Future → Hash128) (s : System) : Type 0 where
    pub blobs : IsCoherent (want blob) bo s
    pub libraries : IsShelved (want library) holds lo s

  -- The futures that the calls returned are those of the hashes.
  pub record IsTold (bo lo : Future → Hash128) (h : History) : Type 0 where
    pub remembering : IsRemembering bo lo h.system
    pub blobs : All (OwnedBy bo h.system.blob_promises.next) h.blobs
    pub libraries : All (OwnedBy lo h.system.library_promises.next) h.libraries

  module _ {bo lo : Future → Hash128} {s : System} (r : IsRemembering bo lo s) where
    pub clear_memory_store-IsRemembering : IsRemembering bo lo (clear_memory_store s)
    unfolding clear_memory_store find
    clear_memory_store-IsRemembering =
        let v : IsValid (clear_memory_store s) = record {
          blobs = clear-IsBacked r.blobs.valid.blobs;
          libraries = clear-IsBacked r.blobs.valid.libraries;
        } in
        record {
          blobs = record {
            valid = v;
            owned = λ h e here. absurd (ground arith);
            values = r.blobs.values;
            stored = r.blobs.stored;
          };
          libraries = record {
            valid = v;
            owned = λ h e here. absurd (ground arith);
            values = r.libraries.values;
            stored = r.libraries.stored;
          };
        }

    -- A change of the counters, of the switch or of the files that leaves only right ones.
    pub changed-IsRemembering :
        (fs : FileSystem) (counter : CacheStats) (on : Bool)
        → ((type : ObjectType)
            → IsStored (want type) s.cache_dir type s.files
            → IsStored (want type) s.cache_dir type fs)
        → IsRemembering bo lo (record s { files = fs; counter = counter; enabled = on })
    changed-IsRemembering fs counter on kept =
        let v : IsValid (record s { files = fs; counter = counter; enabled = on }) = record {
          blobs = r.blobs.valid.blobs;
          libraries = r.blobs.valid.libraries;
        } in
        record {
          blobs = record {
            valid = v;
            owned = r.blobs.owned;
            values = r.blobs.values;
            stored = kept blob r.blobs.stored;
          };
          libraries = record {
            valid = v;
            owned = r.libraries.owned;
            values = r.libraries.values;
            stored = kept library r.libraries.stored;
          };
        }

    pub cleared_disk-IsRemembering :
        (throws : Bytes → Bool) (listing : Outcome (List (Bytes × Bool)))
        → IsRemembering bo lo (system_after s (clear_disk_store throws listing s))
    unfolding clear_disk_store
    cleared_disk-IsRemembering throws (ok entries) =
        changed-IsRemembering _ s.counter s.enabled (λ type kept h c lt e.
          kept h c lt (read_of_remove_entries throws (get_disk_entries entries) s.files _ c e))
    cleared_disk-IsRemembering throws (raise e) = r
    cleared_disk-IsRemembering throws abort = r
