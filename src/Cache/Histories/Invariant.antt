-- ===== src/Cache/Histories/Invariant.antt =====
-- Each operation keeps the cache a memory of the blobs and of the libraries of their hashes.
use librtcx.Prelude.{
  ℕ, ◌≡◌, refl, ◌∙◌, List, [], ◌∷◌, Bool, true, false, Outcome, ok, raise, abort, Bytes,
  if◌then◌else◌, arith, All, All-mono, Ensures, Outcome-cases, inl, inr,
}
use librtcx.Hash.{Hash128, IsHash128}
use librtcx.Lru.{StdSort}
use librtcx.Disk.{FileSystem, ObjectType, blob, library}
use librtcx.Cache.{
  Future, System, clear_memory_store, clear_disk_store, clear_stats, enable, zero_stats,
}
use librtcx.Cache.Coherence.{IsMkstemp, IsServed}
use librtcx.Cache.Memo.{get_or_add_blob-IsAnswered}
use librtcx.Cache.Libraries.{Holds, IsLoader, IsCompiler}
use librtcx.Cache.Libraries.Lent.{get_or_add_library-IsLent}
use librtcx.Cache.Histories.{
  Operation, get_blob, get_library, clear_memory, reset_stats, clear_disk, set_enabled,
  load_directory, in_directory, History, given, returns, system_after, perform, perform_all,
}
use librtcx.Cache.Preload.{preload_from_disk}
use librtcx.Cache.Histories.Frames.{
  get_or_add_blob-KeepsLibraries, get_or_add_library-KeepsBlobs, KeepsLibraries-IsShelved,
  KeepsBlobs-IsCoherent,
}
use librtcx.Cache.Histories.Remembering.{
  cleared_disk-promises, IsRemembering, OwnedBy, IsTold, clear_memory_store-IsRemembering,
  changed-IsRemembering, cleared_disk-IsRemembering,
}
use librtcx.Cache.Histories.Entries.{Follows}
use librtcx.Cache.Histories.Preloads.{AreObjects, preload_from_disk-Follows}

module _ (want : ObjectType → Hash128 → Bytes) (holds : Holds) where
  -- What is asked of the world around a call: hashes of 128 bits, compilers that give a hash its own
  -- object, a driver that loads what a file holds, and names of temporary files as `mkstemp` makes them.
  abbrev pub IsHonest : Operation → Type 0
  IsHonest (get_blob faults compiled answers hash) =
      IsHash128 hash × IsMkstemp answers × ((c : Bytes) → compiled ≡ ok c → c ≡ want blob hash)
  IsHonest (get_library load compiled answers hash) =
      IsHash128 hash
      × IsMkstemp answers
      × ((fs : FileSystem) → IsLoader holds fs (load fs))
      × IsCompiler (want library) holds hash compiled
  IsHonest clear_memory = Unit
  IsHonest reset_stats = Unit
  IsHonest (clear_disk remove_throws listing) = Unit
  IsHonest (set_enabled on) = Unit
  IsHonest (load_directory faults load listing) =
      Ensures AreObjects listing × ((fs : FileSystem) → IsLoader holds fs (load fs))

  given-OwnedBy :
      (owner : Future → Hash128) (next : ℕ) (hash : Hash128) (owner' : Future → Hash128) (next' : ℕ)
      (o : Outcome Future) (l : List (Hash128 × Future))
      → IsServed owner next hash owner' next' o
      → All (OwnedBy owner next) l
      → All (OwnedBy owner' next') (given hash o l)
  given-OwnedBy owner next hash owner' next' o l (served, same, more) h =
      let old : All (OwnedBy owner' next') l =
        All-mono (OwnedBy owner next) (OwnedBy owner' next') l
          (λ j own. (same j.1 own.1 ∙ own.0, omega (arith, own.1, more))) h in
      elim (Outcome-cases o) [
        | inl (fut, e) ↦ rw e (served fut e, old)
        | inr (inl (x, e)) ↦ rw e old
        | inr (inr e) ↦ rw e old
      ]

  abbrev pub Told : History → Type 0
  Told h = (bo : Future → Hash128) × (lo : Future → Hash128) × IsTold want holds bo lo h

  same_futures-Told :
      {bo lo : Future → Hash128} (h : History) (t : System) (alive : Bool)
      → IsTold want holds bo lo h
      → t.blob_promises ≡ h.system.blob_promises
      → t.library_promises ≡ h.system.library_promises
      → IsRemembering want holds bo lo t
      → Told (record h { system = t; alive = alive })
  same_futures-Told {bo} {lo} h t alive told same_blobs same_libraries r = (
    bo,
    lo,
    record {
      remembering = r;
      blobs = rw same_blobs told.blobs;
      libraries = rw same_libraries told.libraries;
    },
  )

  after-Told :
      {bo lo : Future → Hash128} (h : History) (end : Outcome System)
      → IsTold want holds bo lo h
      → Ensures (Follows want holds bo lo h.system) end
      → Told (record h { system = system_after h.system end; alive = returns end })
  after-Told {bo} {lo} h (ok t) told (bo', lo', r, b, l, nb, nl) = (
    bo',
    lo',
    record {
      remembering = r;
      blobs =
          All-mono (OwnedBy bo h.system.blob_promises.next) _ h.blobs
            (λ j own. (b j.1 own.1 ∙ own.0, omega (arith, own.1, nb))) told.blobs;
      libraries =
          All-mono (OwnedBy lo h.system.library_promises.next) _ h.libraries
            (λ j own. (l j.1 own.1 ∙ own.0, omega (arith, own.1, nl))) told.libraries;
    },
  )
  after-Told {bo} {lo} h (raise e) told followed =
      same_futures-Told h h.system true told refl refl told.remembering
  after-Told {bo} {lo} h abort told followed =
      same_futures-Told h h.system false told refl refl told.remembering

  perform-Told :
      (std : StdSort) (call : Operation) (h : History)
      → IsHonest call
      → Told h
      → Told (perform std call h)
  unfolding perform clear_memory_store clear_stats enable
  perform-Told std (get_blob faults compiled answers hash) h (lt, portable, right) (bo, lo, told) =
      let r = told.remembering in
      let (o, co, served) =
        get_or_add_blob-IsAnswered (want blob) std faults compiled answers bo h.system hash lt
          portable right r.blobs in
      let keeps =
        get_or_add_blob-KeepsLibraries want std faults compiled answers h.system hash lt portable
          right in
      (
        o,
        lo,
        record {
          remembering = record {
            blobs = co;
            libraries = KeepsLibraries-IsShelved want holds co.valid keeps r.libraries;
          };
          blobs = given-OwnedBy bo _ hash o _ _ h.blobs served told.blobs;
          libraries = rw keeps.1 told.libraries;
        },
      )
  perform-Told std (get_library load compiled answers hash) h (lt, portable, loads, right)
        (bo, lo, told) =
      let r = told.remembering in
      let (o, sh, served) =
        get_or_add_library-IsLent (want library) holds std (load h.system.files) compiled answers lo
          h.system hash lt portable (loads h.system.files) right r.libraries in
      let keeps =
        get_or_add_library-KeepsBlobs want holds std (load h.system.files) compiled answers h.system
          hash lt portable right in
      (
        bo,
        o,
        record {
          remembering = record {
            blobs = KeepsBlobs-IsCoherent want sh.valid keeps r.blobs;
            libraries = sh;
          };
          blobs = rw keeps.1 told.blobs;
          libraries = given-OwnedBy lo _ hash o _ _ h.libraries served told.libraries;
        },
      )
  perform-Told std clear_memory h honest (bo, lo, told) =
      same_futures-Told h (clear_memory_store h.system) h.alive told refl refl
        (clear_memory_store-IsRemembering want holds told.remembering)
  perform-Told std reset_stats h honest (bo, lo, told) =
      same_futures-Told h (clear_stats h.system) h.alive told refl refl (
        changed-IsRemembering want holds told.remembering h.system.files zero_stats h.system.enabled
          (λ type kept. kept))
  perform-Told std (clear_disk throws listing) h honest (bo, lo, told) =
      let end = clear_disk_store throws listing h.system in
      let same = cleared_disk-promises throws listing h.system in
      same_futures-Told h (system_after h.system end) (returns end) told same.0 same.1
        (cleared_disk-IsRemembering want holds told.remembering throws listing)
  perform-Told std (set_enabled on) h honest (bo, lo, told) =
      same_futures-Told h (enable on h.system) h.alive told refl refl (
        changed-IsRemembering want holds told.remembering h.system.files h.system.counter on
          (λ type kept. kept))
  perform-Told std (load_directory faults load listing) h (objects, loads) (bo, lo, told) =
      let s = h.system in
      after-Told h
        (preload_from_disk std faults (load s.files) (in_directory s.cache_dir listing) s) told
        (preload_from_disk-Follows want holds std faults (load s.files) listing s bo lo objects
          (loads s.files) told.remembering)

  -- A cache that remembers the blobs and the libraries of their hashes still does after any sequence
  -- of public operations, however they end, and the futures that it returned for a hash are the
  -- hash's, where the world is honest: hashes have 128 bits, a compiler gives a hash its own object,
  -- the driver loads what a file holds, `mkstemp` chooses six characters without a dot, and a
  -- directory that is preloaded has no regular files but objects.
  pub perform_all-Told :
      (std : StdSort) (calls : List Operation) (h : History)
      → All IsHonest calls
      → Told h
      → Told (perform_all std calls h)
  unfolding perform_all
  perform_all-Told std [] h honest told = told
  perform_all-Told std (call ∷ calls) h (now, later) told =
      let told' = perform-Told std call h now told in
      let h' = perform std call h in
      elim h'.alive as (λ b. Told (if b then perform_all std calls h' else h')) [
        | true ↦ perform_all-Told std calls h' later told'
        | false ↦ told'
      ]
