-- ===== src/Cache/Histories/Frames.antt =====
-- Requests for blobs leave the libraries alone, and requests for libraries the blobs.
use librtcx.Prelude.{◌≡◌, refl, ◌∙◌, Option, none, some, ℕ, Outcome, ok, raise, abort, Bytes}
use librtcx.Hash.{Hash128, IsHash128}
use librtcx.Lru.{StdSort}
use librtcx.Disk.{ReadFaults, WriteAnswers, LoadResult, ObjectType, blob, library}
use librtcx.Cache.{Future, System}
use librtcx.Cache.Lock.{
  Locked, found, publish, compile, take_tick, blob_missed, blob_hit, lock_blob, count_blob_miss,
  lock_blob_cases, library_missed, library_hit, lock_library, count_library_miss,
  lock_library_cases,
}
use librtcx.Cache.Requests.{
  run_blob_compile, after_lock_blob, get_or_add_blob, run_library_compile, after_lock_library,
  get_or_add_library,
}
use librtcx.Cache.Validity.{IsValid}
use librtcx.Cache.Stored.{IsStored, stored_after}
use librtcx.Cache.Coherence.{IsMkstemp, IsCoherent}
use librtcx.Cache.Libraries.{Holds, IsCompiler, IsShelved}

module _ (want : ObjectType → Hash128 → Bytes) where
  -- The part of the state that belongs to the libraries is as before, and their files are right if
  -- they were.
  abbrev pub KeepsLibraries : System → System → Type 0
  KeepsLibraries s t =
      (t.libraries_cache ≡ s.libraries_cache)
      × (t.library_promises ≡ s.library_promises)
      × (IsStored (want library) s.cache_dir library s.files
          → IsStored (want library) t.cache_dir library t.files)

  abbrev pub KeepsBlobs : System → System → Type 0
  KeepsBlobs s t =
      (t.blobs_cache ≡ s.blobs_cache)
      × (t.blob_promises ≡ s.blob_promises)
      × (IsStored (want blob) s.cache_dir blob s.files
          → IsStored (want blob) t.cache_dir blob t.files)

  blob_missed-KeepsLibraries :
      (std : StdSort) (s : System) (hash : Hash128) (tick : ℕ) (disk : Option Bytes)
      → KeepsLibraries s (blob_missed std s hash tick disk).0
  unfolding blob_missed
  blob_missed-KeepsLibraries std s hash tick none = (refl, refl, λ h. h)
  blob_missed-KeepsLibraries std s hash tick (some c) = (refl, refl, λ h. h)

  pub lock_blob-KeepsLibraries :
      (std : StdSort) (faults : ReadFaults) (s : System) (hash : Hash128) (tick : ℕ)
      → KeepsLibraries s (lock_blob std faults s hash tick).0
  unfolding blob_hit
  lock_blob-KeepsLibraries std faults s hash tick =
      lock_blob_cases std faults s hash tick (λ r. KeepsLibraries s r.0)
        (λ e h. (refl, refl, λ h. h))
        (λ disk h r. blob_missed-KeepsLibraries std (count_blob_miss s) hash tick disk)
        (λ e. (refl, refl, λ h. h)) (refl, refl, λ h. h)

  pub after_lock_blob-KeepsLibraries :
      (compiled : Outcome Bytes) (answers : WriteAnswers) (hash : Hash128)
      (r : System × Outcome (Locked Bytes))
      → IsHash128 hash
      → IsMkstemp answers
      → ((c : Bytes) → compiled ≡ ok c → c ≡ want blob hash)
      → KeepsLibraries r.0 (after_lock_blob compiled answers hash r).0
  unfolding after_lock_blob run_blob_compile
  after_lock_blob-KeepsLibraries compiled answers hash (s, ok (found fut)) lt portable right =
      (refl, refl, λ h. h)
  after_lock_blob-KeepsLibraries compiled answers hash (s, ok (publish fut c)) lt portable right =
      (refl, refl, λ h. h)
  after_lock_blob-KeepsLibraries (ok result) answers hash (s, ok (compile fut)) lt portable right =
      (
        refl,
        refl,
        stored_after want answers s.files s.cache_dir s.tmp_dir blob library hash result lt portable
            (right result refl),
      )
  after_lock_blob-KeepsLibraries (raise e) answers hash (s, ok (compile fut)) lt portable right =
      (refl, refl, λ h. h)
  after_lock_blob-KeepsLibraries abort answers hash (s, ok (compile fut)) lt portable right =
      (refl, refl, λ h. h)
  after_lock_blob-KeepsLibraries compiled answers hash (s, raise e) lt portable right =
      (refl, refl, λ h. h)
  after_lock_blob-KeepsLibraries compiled answers hash (s, abort) lt portable right =
      (refl, refl, λ h. h)

  pub get_or_add_blob-KeepsLibraries :
      (std : StdSort) (faults : ReadFaults) (compiled : Outcome Bytes) (answers : WriteAnswers)
      (s : System) (hash : Hash128)
      → IsHash128 hash
      → IsMkstemp answers
      → ((c : Bytes) → compiled ≡ ok c → c ≡ want blob hash)
      → KeepsLibraries s (get_or_add_blob std faults compiled answers s hash).0
  unfolding get_or_add_blob take_tick
  get_or_add_blob-KeepsLibraries std faults compiled answers s hash lt portable right =
      let l = lock_blob-KeepsLibraries std faults (take_tick s) hash s.tick in
      let a =
        after_lock_blob-KeepsLibraries compiled answers hash
          (lock_blob std faults (take_tick s) hash s.tick) lt portable right in
      (a.0 ∙ l.0, a.1 ∙ l.1, λ h. a.2 (l.2 h))

  library_missed-KeepsBlobs :
      (std : StdSort) (s : System) (hash : Hash128) (tick : ℕ) (disk : Option ℕ)
      → KeepsBlobs s (library_missed std s hash tick disk).0
  unfolding library_missed
  library_missed-KeepsBlobs std s hash tick none = (refl, refl, λ h. h)
  library_missed-KeepsBlobs std s hash tick (some c) = (refl, refl, λ h. h)

  pub lock_library-KeepsBlobs :
      (std : StdSort) (load : Bytes → LoadResult) (s : System) (hash : Hash128) (tick : ℕ)
      → KeepsBlobs s (lock_library std load s hash tick).0
  unfolding library_hit
  lock_library-KeepsBlobs std load s hash tick =
      lock_library_cases std load s hash tick (λ r. KeepsBlobs s r.0) (λ e h. (refl, refl, λ h. h))
        (λ disk h r. library_missed-KeepsBlobs std (count_library_miss s) hash tick disk)
        (λ e. (refl, refl, λ h. h)) (refl, refl, λ h. h)

  pub after_lock_library-KeepsBlobs :
      (holds : Holds) (compiled : Outcome (ℕ × Bytes)) (answers : WriteAnswers) (hash : Hash128)
      (r : System × Outcome (Locked ℕ))
      → IsHash128 hash
      → IsMkstemp answers
      → IsCompiler (want library) holds hash compiled
      → KeepsBlobs r.0 (after_lock_library compiled answers hash r).0
  unfolding after_lock_library run_library_compile
  after_lock_library-KeepsBlobs holds compiled answers hash (s, ok (found fut)) lt portable right =
      (refl, refl, λ h. h)
  after_lock_library-KeepsBlobs holds compiled answers hash (s, ok (publish fut c)) lt portable
        right =
      (refl, refl, λ h. h)
  after_lock_library-KeepsBlobs holds (ok (handle, c)) answers hash (s, ok (compile fut)) lt
        portable right =
      (
        refl,
        refl,
        stored_after want answers s.files s.cache_dir s.tmp_dir library blob hash c lt portable
            (right handle c refl).1,
      )
  after_lock_library-KeepsBlobs holds (raise e) answers hash (s, ok (compile fut)) lt portable
        right =
      (refl, refl, λ h. h)
  after_lock_library-KeepsBlobs holds abort answers hash (s, ok (compile fut)) lt portable right =
      (refl, refl, λ h. h)
  after_lock_library-KeepsBlobs holds compiled answers hash (s, raise e) lt portable right =
      (refl, refl, λ h. h)
  after_lock_library-KeepsBlobs holds compiled answers hash (s, abort) lt portable right =
      (refl, refl, λ h. h)

  pub get_or_add_library-KeepsBlobs :
      (holds : Holds) (std : StdSort) (load : Bytes → LoadResult) (compiled : Outcome (ℕ × Bytes))
      (answers : WriteAnswers) (s : System) (hash : Hash128)
      → IsHash128 hash
      → IsMkstemp answers
      → IsCompiler (want library) holds hash compiled
      → KeepsBlobs s (get_or_add_library std load compiled answers s hash).0
  unfolding get_or_add_library take_tick
  get_or_add_library-KeepsBlobs holds std load compiled answers s hash lt portable right =
      let l = lock_library-KeepsBlobs std load (take_tick s) hash s.tick in
      let a =
        after_lock_library-KeepsBlobs holds compiled answers hash
          (lock_library std load (take_tick s) hash s.tick) lt portable right in
      (a.0 ∙ l.0, a.1 ∙ l.1, λ h. a.2 (l.2 h))

  pub KeepsLibraries-IsShelved :
      (holds : Holds) {owner : Future → Hash128} {s t : System}
      → IsValid t
      → KeepsLibraries s t
      → IsShelved (want library) holds owner s
      → IsShelved (want library) holds owner t
  KeepsLibraries-IsShelved holds v (c, p, k) sh = record {
    valid = v;
    owned = λ h e here. sh.owned h e (rw (← c) here);
    values = λ f handle l e. sh.values f handle (rw (← p) l) (rw (← p) e);
    stored = k sh.stored;
  }

  pub KeepsBlobs-IsCoherent :
      {owner : Future → Hash128} {s t : System}
      → IsValid t
      → KeepsBlobs s t
      → IsCoherent (want blob) owner s
      → IsCoherent (want blob) owner t
  KeepsBlobs-IsCoherent v (c, p, k) co = record {
    valid = v;
    owned = λ h e here. co.owned h e (rw (← c) here);
    values = λ f d l e. co.values f d (rw (← p) l) (rw (← p) e);
    stored = k co.stored;
  }
