-- ===== src/Cache/Persistence.antt =====
-- What is compiled is found on the disk by a cache whose memory is empty.
use librtcx.Prelude.{
  ◌≡◌, refl, ap₂, sym, ◌∙◌, [], ◌∷◌, true, false, Option, none, some, Outcome, ok, raise, abort,
  Bytes, arith, ◌>>=◌,
}
use librtcx.Hash.{Hash128}
use librtcx.Lru.{StdSort, find}
use librtcx.Disk.{
  FileSystem, ReadFaults, WriteAnswers, renamed, blob, object_path, read, from_file, get_disk_blob,
  cache_blob_to_disk,
}
use librtcx.Disk.Paths.{tmp_path-ne-object_path}
use librtcx.Disk.Write.{cache_blob_to_disk-ok}
use librtcx.Cache.{Future, ready, set_value, System, clear_memory_store}
use librtcx.Cache.Lock.{find_enabled, blob_missed, read_disk_blob, lock_blob}
use librtcx.Cache.Requests.{run_blob_compile, get_or_add_blob}
use librtcx.Cache.Coherence.{IsMkstemp}

module _ (std : StdSort) (faults : ReadFaults) (answers : WriteAnswers) (s : System)
    (hash : Hash128) where
  -- A miss in memory that the disk answers gives a future that has the file's bytes. Nothing is
  -- compiled or stored.
  pub get_or_add_blob_disk_hit :
      (compiled : Outcome Bytes) (c : Bytes)
      → s.enabled ≡ true
      → find hash s.blobs_cache.entries ≡ none
      → get_disk_blob faults s.files s.cache_dir blob hash ≡ ok (some c)
      → let r = get_or_add_blob std faults compiled answers s hash in
        (r.1 ≡ ok s.blob_promises.next)
        × (r.0.blob_promises.state s.blob_promises.next ≡ ready c)
        × (r.0.files ≡ s.files)
  unfolding get_or_add_blob lock_blob blob_missed find_enabled read_disk_blob set_value
  get_or_add_blob_disk_hit compiled c on miss disk = ground arith

  -- A miss in memory and on the disk compiles: the new future has the result, and the result is
  -- handed to the disk store, whose end is that of the call.
  pub get_or_add_blob_compiles :
      (c : Bytes)
      → find_enabled s.enabled s.blobs_cache hash ≡ none
      → read_disk_blob faults s hash ≡ ok none
      → let r = get_or_add_blob std faults (ok c) answers s hash in
        let w = cache_blob_to_disk answers s.files s.cache_dir s.tmp_dir blob hash c in
        (r.0.blob_promises.state s.blob_promises.next ≡ ready c)
        × (r.0.files ≡ w.0)
        × (r.1 ≡ (w.1 >>= λ _. ok s.blob_promises.next))
        × (r.0.cache_dir ≡ s.cache_dir)
        × (r.0.enabled ≡ s.enabled)
  unfolding get_or_add_blob lock_blob blob_missed run_blob_compile set_value read_disk_blob
  get_or_add_blob_compiles c miss disk = ground arith

abbrev pub no_faults : ReadFaults
no_faults = record {
  open_fails = false;
  lseek_fails = false;
  mmap_fails = false;
  close_fails = false;
}

pub from_file_present :
    (fs : FileSystem) (path c : Bytes)
    → read path fs ≡ some c
    → from_file no_faults fs path ≡ ok (some c)
unfolding from_file
from_file_present fs path [] e = ground arith
from_file_present fs path (b ∷ c) e = ground arith

find_enabled-none :
    (s : System) (hash : Hash128)
    → find hash s.blobs_cache.entries ≡ none
    → find_enabled s.enabled s.blobs_cache hash ≡ none
unfolding find_enabled
find_enabled-none s hash h = ground arith

read_disk_blob_enabled :
    (faults : ReadFaults) (s : System) (hash : Hash128) (d : Option Bytes)
    → s.enabled ≡ true
    → get_disk_blob faults s.files s.cache_dir blob hash ≡ ok d
    → read_disk_blob faults s hash ≡ ok d
unfolding read_disk_blob
read_disk_blob_enabled faults s hash d on h = ground arith

ok_of_bind : (w : Outcome (Unit {0})) (fut g : Future) → (w >>= λ _. ok fut) ≡ ok g → w ≡ ok tt
ok_of_bind (ok u) fut g h = refl
ok_of_bind (raise e) fut g h = absurd (ground arith)
ok_of_bind abort fut g h = absurd (ground arith)

-- What a successful store leaves at the object's path.
stored_blob :
    (answers : WriteAnswers) (fs : FileSystem) (dir tmp_dir : Bytes) (hash : Hash128) (c t : Bytes)
    → answers.mkstemp ≡ some t
    → IsMkstemp answers
    → answers.rename ≡ renamed
    → (cache_blob_to_disk answers fs dir tmp_dir blob hash c).1 ≡ ok tt
    → read (object_path dir blob hash) (cache_blob_to_disk answers fs dir tmp_dir blob hash c).0
      ≡ some c
stored_blob answers fs dir tmp_dir hash c t made portable renames end =
    let (six, dots) = portable t made in
    ground (
      arith,
      cache_blob_to_disk-ok answers fs dir tmp_dir blob hash c t made
          (tmp_path-ne-object_path tmp_dir dir t blob hash six dots) end,
    )

-- An enabled cache that finds a hash neither in memory nor on the disk compiles it; if the call
-- returns, after `mkstemp` chose six characters without a dot and `rename` succeeded, a request
-- for the hash after the memory is cleared gets the same bytes from the disk, if no system call
-- fails, and compiles nothing.
pub get_or_add_blob_persists :
    (std : StdSort) (faults : ReadFaults) (answers answers' : WriteAnswers) (s : System)
    (hash : Hash128) (c t : Bytes) (compiled' : Outcome Bytes) (fut : Future)
    → s.enabled ≡ true
    → find hash s.blobs_cache.entries ≡ none
    → get_disk_blob faults s.files s.cache_dir blob hash ≡ ok none
    → answers.mkstemp ≡ some t
    → IsMkstemp answers
    → answers.rename ≡ renamed
    → (get_or_add_blob std faults (ok c) answers s hash).1 ≡ ok fut
    → let r = clear_memory_store (get_or_add_blob std faults (ok c) answers s hash).0 in
      let q = get_or_add_blob std no_faults compiled' answers' r hash in
      (q.1 ≡ ok r.blob_promises.next)
      × (q.0.blob_promises.state r.blob_promises.next ≡ ready c)
      × (q.0.files ≡ r.files)
unfolding clear_memory_store get_disk_blob find
get_or_add_blob_persists std faults answers answers' s hash c t compiled' fut on miss disk made
      portable renames h =
    let (_, files, end, dir, still) =
      get_or_add_blob_compiles std faults answers s hash c (find_enabled-none s hash miss)
        (read_disk_blob_enabled faults s hash none on disk) in
    let stored =
      stored_blob answers s.files s.cache_dir s.tmp_dir hash c t made portable renames
        (ok_of_bind _ s.blob_promises.next fut (sym end ∙ h)) in
    get_or_add_blob_disk_hit std no_faults answers'
      (clear_memory_store (get_or_add_blob std faults (ok c) answers s hash).0) hash compiled' c
      (still ∙ on) refl
      (from_file_present _ _ c (ap₂ (λ d fs. read (object_path d blob hash) fs) dir files ∙ stored))
