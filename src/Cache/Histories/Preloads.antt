-- ===== src/Cache/Histories/Preloads.antt =====
-- Preloading fills the cache with the objects of their hashes.
use librtcx.Prelude.{
  ◌≡◌, refl, ◌∙◌, ap, List, [], ◌∷◌, Bool, true, false, Outcome, ok, raise, abort, Bytes, All,
  All-take, length, ◌++◌, Ensures, Ensures-bind, codes, take, map, ◌>>=◌, Outcome-cases, inl, inr,
  Ensures_elim, Ensures-weakened,
}
use librtcx.Hash.{Hash128, IsHash128}
use librtcx.Lru.{StdSort}
use librtcx.Disk.{
  ReadFaults, LoadResult, ObjectType, blob, library, object_path, object_name, from_file,
  get_disk_library, get_disk_blob, get_disk_entries,
}
use librtcx.Disk.Paths.{path_hash-object_path, ends_with-object_path}
use librtcx.Cache.{Future, System, incr}
use librtcx.Cache.Lock.{take_tick}
use librtcx.Cache.Preload.{
  load_count, add_blob, add_library, preload_entry, preload_entries, preload_from_disk,
}
use librtcx.Cache.Coherence.{take_tick-IsCoherent, read_of_get_disk_blob}
use librtcx.Cache.Libraries.{Holds, IsLoader}
use librtcx.Cache.Libraries.Locks.{library_tick-IsShelved, get_disk_library-holds}
use librtcx.Cache.Histories.{in_directory}
use librtcx.Cache.Histories.Remembering.{IsRemembering}
use librtcx.Cache.Histories.Entries.{
  Follows, Follows-refl, Follows-trans, Preloaded, add_blob-Preloaded, add_library-Preloaded,
}

-- A path of the store.
abbrev IsObject : Bytes → Bytes → Type 0
IsObject dir path =
    (type : ObjectType) × (hash : Hash128) × IsHash128 hash × (path ≡ object_path dir type hash)

module _ (want : ObjectType → Hash128 → Bytes) (holds : Holds) where
  entry_of_blob :
      (std : StdSort) (faults : Bytes → ReadFaults) (load : Bytes → LoadResult) (s : System)
      (hash : Hash128)
      → IsHash128 hash
      → let path = object_path s.cache_dir blob hash in
        preload_entry std faults load s path
        ≡ (from_file (faults path) s.files path >>= λ disk. ok (add_blob std s hash disk))
  unfolding preload_entry
  entry_of_blob std faults load s hash lt =
      rw (path_hash-object_path s.cache_dir blob hash lt)
        (rw ((ends_with-object_path s.cache_dir blob hash).0) refl)

  entry_of_library :
      (std : StdSort) (faults : Bytes → ReadFaults) (load : Bytes → LoadResult) (s : System)
      (hash : Hash128)
      → IsHash128 hash
      → preload_entry std faults load s (object_path s.cache_dir library hash) ≡ (
          get_disk_library load s.files s.cache_dir hash >>= λ disk.
          ok (add_library std s hash disk))
  unfolding preload_entry
  entry_of_library std faults load s hash lt =
      rw (path_hash-object_path s.cache_dir library hash lt) (
        rw ((ends_with-object_path s.cache_dir library hash).0)
          (rw ((ends_with-object_path s.cache_dir library hash).1) refl))

  preload_entry-Preloaded :
      (std : StdSort) (faults : Bytes → ReadFaults) (load : Bytes → LoadResult) (s : System)
      (bo lo : Future → Hash128) (type : ObjectType) (hash : Hash128)
      → IsHash128 hash
      → IsLoader holds s.files load
      → IsRemembering want holds bo lo s
      → Ensures
          (Preloaded want holds bo lo s)
          (preload_entry std faults load s (object_path s.cache_dir type hash))
  unfolding get_disk_blob
  preload_entry-Preloaded std faults load s bo lo blob hash lt loads r =
      let path = object_path s.cache_dir blob hash in
      rw (entry_of_blob std faults load s hash lt) (
        Ensures-bind (Preloaded want holds bo lo s) (from_file (faults path) s.files path)
          (λ disk. ok (add_blob std s hash disk))
          (λ disk e. add_blob-Preloaded want holds std s hash bo lo r disk (λ c is.
            r.blobs.stored hash c lt (
              read_of_get_disk_blob (faults path) s.files s.cache_dir c blob hash (e ∙ ap ok is)))))
  preload_entry-Preloaded std faults load s bo lo library hash lt loads r =
      rw (entry_of_library std faults load s hash lt) (
        Ensures-bind (Preloaded want holds bo lo s) (get_disk_library load s.files s.cache_dir hash)
          (λ disk. ok (add_library std s hash disk))
          (λ disk e. add_library-Preloaded want holds std s hash bo lo r disk (λ handle is.
            get_disk_library-holds (want library) holds r.libraries load hash handle lt loads
              (e ∙ ap ok is))))

  preload_entries-Follows :
      (std : StdSort) (faults : Bytes → ReadFaults) (load : Bytes → LoadResult) (s : System)
      (bo lo : Future → Hash128) (entries : List Bytes)
      → All (IsObject s.cache_dir) entries
      → IsLoader holds s.files load
      → IsRemembering want holds bo lo s
      → Ensures (Follows want holds bo lo s) (preload_entries std faults load s entries)
  unfolding preload_entries
  preload_entries-Follows std faults load s bo lo [] objects loads r = Follows-refl want holds r
  preload_entries-Follows std faults load s bo lo (path ∷ entries) ((type, hash, lt, is), others)
        loads r =
      let here : Ensures (Preloaded want holds bo lo s) (preload_entry std faults load s path) =
        rw is (preload_entry-Preloaded std faults load s bo lo type hash lt loads r) in
      elim (Outcome-cases (preload_entry std faults load s path)) [
        | inl (t, e) ↦
            let ((bo', lo', r', b, l, nb, nl), files, dir) =
              Ensures_elim (Preloaded want holds bo lo s) _ t here e in
            rw (e, preload_entries)
              (Ensures-weakened (Follows want holds bo' lo' t) (Follows want holds bo lo s)
                (preload_entries std faults load t entries)
                (λ u. Follows-trans want holds s t u b l nb nl)
                (preload_entries-Follows std faults load t bo' lo' entries (rw dir others)
                  (rw files loads) r'))
        | inr (inl (x, e)) ↦
            rw (e, preload_entries)
              (preload_entries-Follows std faults load s bo lo entries others loads r)
        | inr (inr e) ↦ rw (e, preload_entries) tt
      ]

-- The regular files of a directory are objects, by their names.
abbrev pub AreObjects : List (Bytes × Bool) → Type 0
AreObjects = All (λ (e : Bytes × Bool).
    e.1 ≡ true
    → (type : ObjectType) × (hash : Hash128) × IsHash128 hash × (e.0 ≡ object_name type hash))

named_objects :
    (dir : Bytes) (names : List (Bytes × Bool))
    → AreObjects names
    → Ensures (λ found. All (IsObject dir) (get_disk_entries found)) (in_directory dir (ok names))
unfolding get_disk_entries object_path
named_objects dir [] objects = tt
named_objects dir ((name, true) ∷ names) (here, others) =
    let (type, hash, lt, e) = here refl in
    ((type, hash, lt, ap (λ n. dir ++ (codes "/" ++ n)) e), named_objects dir names others)
named_objects dir ((name, false) ∷ names) (here, others) = named_objects dir names others

module _ (want : ObjectType → Hash128 → Bytes) (holds : Holds) where
  new_tick-IsRemembering :
      {bo lo : Future → Hash128} (s : System)
      → IsRemembering want holds bo lo s
      → IsRemembering want holds bo lo (record s { tick = incr s.tick })
  unfolding take_tick
  new_tick-IsRemembering s r = record {
    blobs = take_tick-IsCoherent (want blob) r.blobs;
    libraries = library_tick-IsShelved (want library) holds r.libraries;
  }

  -- Preloading from a directory of objects leaves a cache that remembers the objects of their hashes.
  pub preload_from_disk-Follows :
      (std : StdSort) (faults : Bytes → ReadFaults) (load : Bytes → LoadResult)
      (listing : Outcome (List (Bytes × Bool))) (s : System) (bo lo : Future → Hash128)
      → Ensures AreObjects listing
      → IsLoader holds s.files load
      → IsRemembering want holds bo lo s
      → Ensures
          (Follows want holds bo lo s)
          (preload_from_disk std faults load (in_directory s.cache_dir listing) s)
  unfolding preload_from_disk
  preload_from_disk-Follows std faults load (ok names) s bo lo objects loads r =
      let found = map (λ e. (s.cache_dir ++ (codes "/" ++ e.0), e.1)) names in
      let entries = get_disk_entries found in
      preload_entries-Follows want holds std faults load (record s { tick = incr s.tick }) bo lo
        (take (load_count s.limits (length entries)) entries)
        (All-take _ (load_count s.limits (length entries)) entries
          (named_objects s.cache_dir names objects))
        loads (new_tick-IsRemembering s r)
  preload_from_disk-Follows std faults load (raise e) s bo lo objects loads r = tt
  preload_from_disk-Follows std faults load abort s bo lo objects loads r = tt
