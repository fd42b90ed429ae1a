-- ===== src/Cache/Libraries/Lent.antt =====
-- A request for a library gives a library of its hash.
use librtcx.Prelude.{ℕ, ◌≡◌, refl, Outcome, ok, raise, abort, Bytes, arith}
use librtcx.Hash.{Hash128, IsHash128}
use librtcx.Lru.{StdSort}
use librtcx.Disk.{WriteAnswers, LoadResult, library}
use librtcx.Cache.{Future, set_value, abandon, System}
use librtcx.Cache.Lock.{Locked, found, publish, compile, take_tick, lock_library}
use librtcx.Cache.Requests.{run_library_compile, after_lock_library, get_or_add_library}
use librtcx.Cache.Validity.{after_lock_library-IsValid, set_value-IsBacked}
use librtcx.Cache.Stored.{stored_after}
use librtcx.Cache.Coherence.{IsMkstemp}
use librtcx.Cache.Libraries.Locks.{library_tick-IsShelved, lock_library-IsLockedFor}
use librtcx.Cache.Libraries.{Holds, IsLoader, IsCompiler, IsShelved, IsLockedFor, IsLent}

pub run_library_compile-IsShelved :
    (want : Hash128 → Bytes) (holds : Holds) (compiled : Outcome (ℕ × Bytes))
    (answers : WriteAnswers) {owner : Future → Hash128} (s : System) (hash : Hash128) (fut : Future)
    → IsHash128 hash
    → IsMkstemp answers
    → IsCompiler want holds hash compiled
    → owner fut ≡ hash
    → IsShelved want holds owner s
    → IsShelved want holds owner (run_library_compile compiled answers s hash fut).0
unfolding run_library_compile set_value abandon after_lock_library
run_library_compile-IsShelved want holds (ok (handle, c)) answers s hash fut lt portable right mine
      sh =
    let (held, is) = right handle c refl in
    record {
      valid =
          after_lock_library-IsValid (ok (handle, c)) answers hash (s, ok (compile fut)) sh.valid;
      owned = sh.owned;
      values = λ f d l e. ground (arith, sh.values f d l, held, is, mine);
      stored =
          stored_after (λ type. want) answers s.files s.cache_dir s.tmp_dir library library hash c
            lt portable is sh.stored;
    }
run_library_compile-IsShelved want holds (raise e) answers s hash fut lt portable right mine sh =
    record {
      valid = after_lock_library-IsValid (raise e) answers hash (s, ok (compile fut)) sh.valid;
      owned = sh.owned;
      values = λ f d l e. ground (arith, sh.values f d l);
      stored = sh.stored;
    }
run_library_compile-IsShelved want holds abort answers s hash fut lt portable right mine sh = sh

pub publish-IsShelved :
    (want : Hash128 → Bytes) (holds : Holds) {owner : Future → Hash128} (s : System) (fut : Future)
    (handle : ℕ)
    → holds handle (want (owner fut))
    → IsShelved want holds owner s
    → IsShelved want holds owner
        (record s { library_promises = set_value s.library_promises fut handle })
unfolding set_value
publish-IsShelved want holds s fut handle held sh = record {
  valid = record {
    blobs = sh.valid.blobs;
    libraries = set_value-IsBacked fut handle sh.valid.libraries;
  };
  owned = sh.owned;
  values = λ f d l e. ground (arith, sh.values f d l, held);
  stored = sh.stored;
}

pub run_library_compile-future :
    (compiled : Outcome (ℕ × Bytes)) (answers : WriteAnswers) (s : System) (hash : Hash128)
    (fut g : Future)
    → (run_library_compile compiled answers s hash fut).1 ≡ ok g
    → g ≡ fut
unfolding run_library_compile
run_library_compile-future compiled answers s hash fut g e = ground arith

pub run_library_compile-next :
    (compiled : Outcome (ℕ × Bytes)) (answers : WriteAnswers) (s : System) (hash : Hash128)
    (fut : Future)
    → (run_library_compile compiled answers s hash fut).0.library_promises.next
      ≡ s.library_promises.next
unfolding run_library_compile set_value abandon
run_library_compile-next (ok (handle, c)) answers s hash fut = refl
run_library_compile-next (raise e) answers s hash fut = refl
run_library_compile-next abort answers s hash fut = refl

after_lock_library-IsLent :
    (want : Hash128 → Bytes) (holds : Holds) (compiled : Outcome (ℕ × Bytes))
    (answers : WriteAnswers) (hash : Hash128) {owner : Future → Hash128} (s : System)
    (r : System × Outcome (Locked ℕ))
    → IsHash128 hash
    → IsMkstemp answers
    → IsCompiler want holds hash compiled
    → IsLockedFor want holds owner s hash r
    → IsLent want holds owner s hash (after_lock_library compiled answers hash r)
unfolding after_lock_library set_value
after_lock_library-IsLent want holds compiled answers hash s (t, ok (found f)) lt portable right
      (o, sh, mine, same, more) =
    (o, sh, (λ g e. ground (arith, mine), same, more))
after_lock_library-IsLent want holds compiled answers hash s (t, ok (publish f c)) lt portable right
      (o, sh, (mine, held), same, more) =
    (
      o,
      publish-IsShelved want holds t f c (rw mine.0 held) sh,
      (λ g e. ground (arith, mine), same, omega (arith, more)),
    )
after_lock_library-IsLent want holds compiled answers hash s (t, ok (compile f)) lt portable right
      (o, sh, mine, same, more) =
    let next = run_library_compile-next compiled answers t hash f in
    (
      o,
      run_library_compile-IsShelved want holds compiled answers t hash f lt portable right mine.0
          sh,
      (
        λ g e. ground (arith, run_library_compile-future compiled answers t hash f g e, mine, next),
        same,
        omega (arith, more, next),
      ),
    )
after_lock_library-IsLent want holds compiled answers hash s (t, raise x) lt portable right
      (o, sh, mine, same, more) =
    (o, sh, (λ g e. absurd (ground arith), same, more))
after_lock_library-IsLent want holds compiled answers hash s (t, abort) lt portable right
      (o, sh, mine, same, more) =
    (o, sh, (λ g e. absurd (ground arith), same, more))

-- `get_or_add_library` keeps the libraries those of their hashes.
pub get_or_add_library-IsLent :
    (want : Hash128 → Bytes) (holds : Holds) (std : StdSort) (load : Bytes → LoadResult)
    (compiled : Outcome (ℕ × Bytes)) (answers : WriteAnswers) (owner : Future → Hash128)
    (s : System) (hash : Hash128)
    → IsHash128 hash
    → IsMkstemp answers
    → IsLoader holds s.files load
    → IsCompiler want holds hash compiled
    → IsShelved want holds owner s
    → IsLent want holds owner s hash (get_or_add_library std load compiled answers s hash)
unfolding get_or_add_library take_tick
get_or_add_library-IsLent want holds std load compiled answers owner s hash lt portable loads right
      sh =
    after_lock_library-IsLent want holds compiled answers hash (take_tick s)
      (lock_library std load (take_tick s) hash s.tick) lt portable right
      (lock_library-IsLockedFor want holds std load owner (take_tick s) hash s.tick lt loads
        (library_tick-IsShelved want holds sh))
