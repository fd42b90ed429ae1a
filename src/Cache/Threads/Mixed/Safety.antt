-- ===== src/Cache/Threads/Mixed/Safety.antt =====
-- Interleaved requests of both kinds give each caller the object of its hash.
use librtcx.Prelude.{ℕ, ◌≡◌, refl, Outcome, ok, Bytes, arith, All, All-mono}
use librtcx.Hash.{Hash128}
use librtcx.Lru.{StdSort}
use librtcx.Disk.{FileSystem, WriteAnswers, LoadResult, ObjectType, blob, library}
use librtcx.Cache.{Future, ready, System}
use librtcx.Cache.Coherence.{IsMkstemp}
use librtcx.Cache.Libraries.{Holds, IsLoader, IsCompiler}
use librtcx.Cache.Histories.{opened, perform}
use librtcx.Cache.Histories.Frames.{KeepsLibraries-IsShelved, KeepsBlobs-IsCoherent}
use librtcx.Cache.Histories.Remembering.{IsRemembering}
use librtcx.Cache.Threads.{Job}
use librtcx.Cache.Threads.Safety.{Step-Sound}
use librtcx.Cache.Threads.Sound.{OwnedBy, IsSound, later-IsSound}
use librtcx.Cache.Threads.Libraries.Safety.{LibraryStep-Sound}
use librtcx.Cache.Threads.Libraries.Sound.{IsSoundLibrary, later-IsSoundLibrary}
use librtcx.Cache.Threads.Mixed.{
  Callers, blob_world, library_world, MixedStep, for_blob, for_library, operates, MixedRun,
  none_yet, and_then, nobody,
}
use librtcx.Cache.Threads.Mixed.Frames.{Step-KeepsLibraries, LibraryStep-KeepsBlobs}
use librtcx.Cache.Threads.Mixed.Upkeep.{perform-Follows}

module _ (want : ObjectType → Hash128 → Bytes) (holds : Holds) where
  record IsMixed (bo lo : Future → Hash128) (c : Callers) : Type 0 where
    blobs : IsSound (want blob) bo (blob_world c)
    libraries : IsSoundLibrary (want library) holds lo (library_world c)

  abbrev Mixed : Callers → Type 0
  Mixed c = (bo : Future → Hash128) × (lo : Future → Hash128) × IsMixed bo lo c

  module _ (std : StdSort) (load : FileSystem → Bytes → LoadResult)
      (blob_of : Hash128 → Future → Outcome Bytes)
      (library_of : Hash128 → Future → Outcome (ℕ × Bytes))
      (blob_answers library_answers : Future → WriteAnswers)
      (loads : (fs : FileSystem) → IsLoader holds fs (load fs))
      (portable : (fut : Future) → IsMkstemp (blob_answers fut) × IsMkstemp (library_answers fut))
      (right_blob : (hash : Hash128) (fut : Future) (c : Bytes)
        → blob_of hash fut ≡ ok c
        → c ≡ want blob hash)
      (right_library : (hash : Hash128) (fut : Future)
        → IsCompiler (want library) holds hash (library_of hash fut)) where
    MixedStep-Mixed :
        {c d : Callers}
        → MixedStep want holds std load blob_of library_of blob_answers library_answers c d
        → Mixed c
        → Mixed d
    MixedStep-Mixed {c} (for_blob w step) (bo, lo, m) =
        let (o, sound) =
          Step-Sound (want blob) std blob_of blob_answers (λ fut. (portable fut).0) right_blob step
            (bo, m.blobs) in
        let keeps =
          Step-KeepsLibraries want std blob_of blob_answers (λ fut. (portable fut).0) right_blob bo
            m.blobs step in
        (
          o,
          lo,
          record {
            blobs = sound;
            libraries =
                later-IsSoundLibrary (want library) holds lo lo (library_world c) w.system
                  (λ f lt. refl) (rw keeps.1 (omega arith))
                  (KeepsLibraries-IsShelved want holds sound.coherent.valid keeps
                    m.libraries.shelved)
                  m.libraries;
          },
        )
    MixedStep-Mixed {c} (for_library w step) (bo, lo, m) =
        let (o, sound) =
          LibraryStep-Sound (want library) holds std load library_of library_answers loads
            (λ fut. (portable fut).1) right_library step (lo, m.libraries) in
        let keeps =
          LibraryStep-KeepsBlobs want std holds load library_of library_answers
            (λ fut. (portable fut).1) right_library lo m.libraries step in
        (
          bo,
          o,
          record {
            blobs =
                later-IsSound (want blob) bo bo (blob_world c) w.system (λ f lt. refl)
                  (rw keeps.1 (omega arith))
                  (KeepsBlobs-IsCoherent want sound.shelved.valid keeps m.blobs.coherent) m.blobs;
            libraries = sound;
          },
        )
    MixedStep-Mixed {c} (operates call other honest) (bo, lo, m) =
        let (bo', lo', r, b, l, nb, nl) =
          perform-Follows want holds std call c.system other honest
            (record { blobs = m.blobs.coherent; libraries = m.libraries.shelved }) in
        let s = (perform std call (opened c.system)).system in
        (
          bo',
          lo',
          record {
            blobs = later-IsSound (want blob) bo bo' (blob_world c) s b nb r.blobs m.blobs;
            libraries =
                later-IsSoundLibrary (want library) holds lo lo' (library_world c) s l nl
                  r.libraries m.libraries;
          },
        )

    MixedRun-Mixed :
        {c d : Callers}
        → MixedRun want holds std load blob_of library_of blob_answers library_answers c d
        → Mixed c
        → Mixed d
    MixedRun-Mixed none_yet h = h
    MixedRun-Mixed (and_then r s) h = MixedStep-Mixed s (MixedRun-Mixed r h)

    -- However the steps of any number of requests for blobs and for libraries and the other public
    -- operations follow each other, from a cache that remembers and that nobody uses: where hashes
    -- have 128 bits, the compilers give each hash its own object, the driver loads what a file
    -- holds, `mkstemp` chooses six characters without a dot, and a directory that is preloaded has
    -- no regular files but objects, each future that a call for a hash has returned holds, as soon
    -- as it holds a value, the hash's blob or the handle of a library of the hash's binary.
    pub MixedRun-returns :
        (bo lo : Future → Hash128) (s : System) (c : Callers)
        → IsRemembering want holds bo lo s
        → MixedRun want holds std load blob_of library_of blob_answers library_answers (nobody s) c
        → All
            (λ (j : Job).
              (d : Bytes) → c.system.blob_promises.state j.1 ≡ ready d → d ≡ want blob j.0)
            c.blobs
          × All
              (λ (j : Job).
                (handle : ℕ)
                → c.system.library_promises.state j.1 ≡ ready handle
                → holds handle (want library j.0))
              c.libraries
    MixedRun-returns bo lo s c r run =
        let start : Mixed (nobody s) = (
          bo,
          lo,
          record {
            blobs = record { coherent = r.blobs; jobs = tt; storing = tt; given = tt };
            libraries = record {
              shelved = r.libraries;
              jobs = tt;
              storing = tt;
              held = tt;
              given = tt;
            };
          },
        ) in
        let (bo', lo', m) = MixedRun-Mixed run start in
        (
          All-mono (OwnedBy bo' c.system.blob_promises.next) _ c.blobs
              (λ j h d e. ground (arith, m.blobs.coherent.values j.1 d h.1 e, h)) m.blobs.given,
          All-mono (OwnedBy lo' c.system.library_promises.next) _ c.libraries
              (λ j h handle e. ground (arith, m.libraries.shelved.values j.1 handle h.1 e, h))
              m.libraries.given,
        )
