-- ===== src/Cache/Preload/Contents.antt =====
-- What preloading makes of the files that the cache itself writes.
use librtcx.Prelude.{
  ℕ, ◌+◌, ◌^◌, ◌<◌, ◌≡◌, ap, ◌∙◌, List, [], ◌∷◌, Bool, true, none, some, Outcome, ok, Bytes, arith,
}
use librtcx.Hash.{Hash128, IsHash128}
use librtcx.Lru.{StdSort, find}
use librtcx.Lru.Insert.{find-insert_self}
use librtcx.Disk.{
  ReadFaults, WriteAnswers, LoadResult, loaded, file_not_found, load_failed, ObjectType, FileSystem,
  object_path, path_hash, read, from_file, get_disk_library, get_disk_entries,
}
use librtcx.Disk
use librtcx.Disk.Paths.{path_hash-object_path, ends_with-object_path}
use librtcx.Cache.{System, incr, ready, set_value}
use librtcx.Cache.Requests.{get_or_add_blob}
use librtcx.Cache.Memory.{get_or_add_blob-hit}
use librtcx.Cache.Persistence.{no_faults, from_file_present}
use librtcx.Cache.Validity.{IsValid}
use librtcx.Cache.Preload.{
  load_count, add_blob, add_library, preload_entry, preload_entries, preload_from_disk,
}

module _ (std : StdSort) (faults : Bytes → ReadFaults) (load : Bytes → LoadResult) (s : System)
    (hash : Hash128) (lt : IsHash128 hash) where
  module _ (c : Bytes) (clean : (p : Bytes) → faults p ≡ no_faults) where
    -- Preloading the path of a blob that the cache stored adds the file's bytes under the blob's own
    -- hash.
    pub preload_entry-blob :
        read (object_path s.cache_dir Disk.blob hash) s.files ≡ some c
        → preload_entry std faults load s (object_path s.cache_dir Disk.blob hash)
          ≡ ok (add_blob std s hash (some c))
    unfolding preload_entry
    preload_entry-blob here = ground (
      arith,
      path_hash-object_path s.cache_dir Disk.blob hash lt,
      ends_with-object_path s.cache_dir Disk.blob hash,
      from_file_present s.files (object_path s.cache_dir Disk.blob hash) c here,
      clean (object_path s.cache_dir Disk.blob hash),
    )

  -- Preloading the path of a library that the cache stored adds the handle that the driver loads from
  -- it under the library's own hash.
  pub preload_entry-library :
      (c : Bytes) (handle : ℕ)
      → read (object_path s.cache_dir Disk.library hash) s.files ≡ some c
      → load (object_path s.cache_dir Disk.library hash) ≡ loaded handle
      → preload_entry std faults load s (object_path s.cache_dir Disk.library hash)
        ≡ ok (add_library std s hash (some handle))
  unfolding preload_entry get_disk_library
  preload_entry-library c handle here there = ground (
    arith,
    path_hash-object_path s.cache_dir Disk.library hash lt,
    ends_with-object_path s.cache_dir Disk.library hash,
  )

  added-find :
      (c : Bytes)
      → IsValid s
      → 0 < s.limits.num_mem_blobs
      → find hash s.blobs_cache.entries ≡ none
      → let t = add_blob std s hash (some c) in
        (find hash t.blobs_cache.entries
          ≡ some (record { last_touched_tick = s.tick; value = s.blob_promises.next }))
        × (t.blob_promises.state s.blob_promises.next ≡ ready c)
        × (t.enabled ≡ s.enabled)
        × (t.files ≡ s.files)
  unfolding add_blob set_value
  added-find c v pos new =
      ground
        (arith, find-insert_self std s.blobs_cache hash s.blob_promises.next s.tick v.blobs.valid)

-- What the directory iterator gives where the only file is that of one blob.
abbrev pub only_blob : System → Hash128 → List (Bytes × Bool)
only_blob s hash = (object_path s.cache_dir Disk.blob hash, true) ∷ []

-- From a cache directory whose one file is that of a blob, preloading a valid, enabled cache that
-- can hold a blob and has none for its hash ends well, where the limits add up to less than 2 ^ 32
-- and no system call fails; a request for the blob is then answered from memory, with the bytes of
-- the file.
pub preloaded_blob_hits :
    (std : StdSort) (faults : Bytes → ReadFaults) (load : Bytes → LoadResult) (s : System)
    (hash : Hash128) (c : Bytes) (faults' : ReadFaults) (compiled : Outcome Bytes)
    (answers : WriteAnswers)
    → IsHash128 hash
    → IsValid s
    → s.enabled ≡ true
    → 0 < s.limits.num_mem_blobs
    → s.limits.num_mem_blobs + s.limits.num_mem_libraries < 2 ^ 32
    → find hash s.blobs_cache.entries ≡ none
    → ((p : Bytes) → faults p ≡ no_faults)
    → read (object_path s.cache_dir Disk.blob hash) s.files ≡ some c
    → (t : System) × (preload_from_disk std faults load (ok (only_blob s hash)) s ≡ ok t)
      × let q = get_or_add_blob std faults' compiled answers t hash in
        (q.1 ≡ ok s.blob_promises.next)
        × (q.0.blob_promises.state s.blob_promises.next ≡ ready c)
        × (q.0.files ≡ s.files)
unfolding preload_from_disk preload_entries load_count get_disk_entries
preloaded_blob_hits std faults load s hash c faults' compiled answers lt v on pos small new clean
      here =
    let s' : System = record s { tick = incr s.tick } in
    let v' : IsValid s' = record { blobs = v.blobs; libraries = v.libraries } in
    let added = added-find std faults load s' hash lt c v' pos new in
    let (q, same, kept, _, _) =
      get_or_add_blob-hit std faults' compiled answers (add_blob std s' hash (some c)) hash
        (record { last_touched_tick = s'.tick; value = s.blob_promises.next }) (added.2 ∙ on)
        added.0 in
    let entry : preload_entry std faults load s' (object_path s.cache_dir Disk.blob hash)
        ≡ ok (add_blob std s' hash (some c)) =
      preload_entry-blob std faults load s' hash lt c clean here in
    (
      add_blob std s' hash (some c),
      ground (arith, entry),
      (q, ap (λ p. p.state s.blob_promises.next) same ∙ added.1, kept ∙ added.3),
    )
