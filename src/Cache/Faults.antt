-- ===== src/Cache/Faults.antt =====
-- Where the cache does less than its documentation says: a failed compilation stays in memory, and
-- a cache that is disabled still fills.
use librtcx.Prelude.{
  ◌<◌, ◌≡◌, refl, ap, ◌∙◌, true, false, none, some, Error, Outcome, ok, raise, abort, Bytes, arith,
}
use librtcx.Hash.{Hash128}
use librtcx.Lru.{StdSort, Entry, find}
use librtcx.Lru.Insert.{find-insert_self}
use librtcx.Disk.{ReadFaults, WriteAnswers, blob, get_disk_blob}
use librtcx.Cache.{Future, broken, abandon, System, enable}
use librtcx.Cache.Lock.{find_enabled, blob_missed, read_disk_blob, lock_blob}
use librtcx.Cache.Requests.{run_blob_compile, get_or_add_blob}
use librtcx.Cache.Validity.{IsValid}
use librtcx.Cache.Memory.{get_or_add_blob-hit}

module _ (std : StdSort) (s : System) (hash : Hash128) (v : IsValid s)
    (pos : 0 < s.limits.num_mem_blobs) (new : find hash s.blobs_cache.entries ≡ none) where
  abbrev fresh : Entry Future
  fresh = record { last_touched_tick = s.tick; value = s.blob_promises.next }

  cached_miss :
      (faults : ReadFaults) (compiled : Outcome Bytes) (answers : WriteAnswers)
      → read_disk_blob faults s hash ≡ ok none
      → find hash (get_or_add_blob std faults compiled answers s hash).0.blobs_cache.entries
        ≡ some fresh
  unfolding get_or_add_blob lock_blob blob_missed find_enabled read_disk_blob run_blob_compile
  cached_miss faults (ok c) answers disk =
      ground
        (arith, find-insert_self std s.blobs_cache hash s.blob_promises.next s.tick v.blobs.valid)
  cached_miss faults (raise e) answers disk =
      ground
        (arith, find-insert_self std s.blobs_cache hash s.blob_promises.next s.tick v.blobs.valid)
  cached_miss faults abort answers disk =
      ground
        (arith, find-insert_self std s.blobs_cache hash s.blob_promises.next s.tick v.blobs.valid)

  failed_compile :
      (faults : ReadFaults) (answers : WriteAnswers) (e : Error)
      → read_disk_blob faults s hash ≡ ok none
      → let r = get_or_add_blob std faults (raise e) answers s hash in
        (r.1 ≡ raise e)
        × (r.0.blob_promises.state s.blob_promises.next ≡ broken)
        × (r.0.enabled ≡ s.enabled)
  unfolding get_or_add_blob lock_blob blob_missed find_enabled read_disk_blob run_blob_compile
      abandon
  failed_compile faults answers e disk = ground arith

  read_disk_blob-none :
      (faults : ReadFaults)
      → get_disk_blob faults s.files s.cache_dir blob hash ≡ ok none
      → read_disk_blob faults s hash ≡ ok none
  unfolding read_disk_blob
  read_disk_blob-none faults h = ground arith

  read_disk_blob_disabled :
      (faults : ReadFaults) → s.enabled ≡ false → read_disk_blob faults s hash ≡ ok none
  unfolding read_disk_blob
  read_disk_blob_disabled faults off = ground arith

  -- Where a valid, enabled cache that can hold a blob finds a hash neither in memory nor on the
  -- disk, and its compilation throws, the next request for the hash returns a future whose promise
  -- is broken, though it could compile or read the blob: the entry is not taken back.
  pub failed_compile_stays :
      (faults faults' : ReadFaults) (compiled' : Outcome Bytes) (answers answers' : WriteAnswers)
      (e : Error)
      → s.enabled ≡ true
      → get_disk_blob faults s.files s.cache_dir blob hash ≡ ok none
      → let r = get_or_add_blob std faults (raise e) answers s hash in
        let q = get_or_add_blob std faults' compiled' answers' r.0 hash in
        (r.1 ≡ raise e)
        × (q.1 ≡ ok s.blob_promises.next)
        × (q.0.blob_promises.state s.blob_promises.next ≡ broken)
  failed_compile_stays faults faults' compiled' answers answers' e on disk =
      let read = read_disk_blob-none faults disk in
      let r = get_or_add_blob std faults (raise e) answers s hash in
      let (raised, dead, still) = failed_compile faults answers e read in
      let (q, same, _, _, _) =
        get_or_add_blob-hit std faults' compiled' answers' r.0 hash fresh (still ∙ on)
          (cached_miss faults (raise e) answers read) in
      (raised, q, ap (λ p. p.state s.blob_promises.next) same ∙ dead)

  -- A valid, disabled cache that can hold a blob inserts what it compiles: a request for a hash
  -- that is not in memory adds an entry, and once the cache is enabled the next request returns
  -- the future of that entry, and changes no promise and no file.
  pub disabled_cache_fills :
      (faults faults' : ReadFaults) (compiled compiled' : Outcome Bytes)
      (answers answers' : WriteAnswers)
      → s.enabled ≡ false
      → let r = (get_or_add_blob std faults compiled answers s hash).0 in
        let q = get_or_add_blob std faults' compiled' answers' (enable true r) hash in
        (find hash r.blobs_cache.entries ≡ some fresh)
        × (q.1 ≡ ok s.blob_promises.next)
        × (q.0.blob_promises ≡ r.blob_promises)
        × (q.0.files ≡ r.files)
  unfolding enable
  disabled_cache_fills faults faults' compiled compiled' answers answers' off =
      let r = (get_or_add_blob std faults compiled answers s hash).0 in
      let here = cached_miss faults compiled answers (read_disk_blob_disabled faults off) in
      let (q, same, kept, _, _) =
        get_or_add_blob-hit std faults' compiled' answers' (enable true r) hash fresh refl here in
      (here, q, same, kept)
