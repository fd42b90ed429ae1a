-- ===== src/Cache/Requests.antt =====
-- `get_or_add_blob` and `get_or_add_library` of src/rtcx.cpp: what is done after the lock, and the
-- whole call where no other thread runs in between.
use librtcx.Prelude.{ℕ, Outcome, ok, raise, abort, ◌>>=◌, Bytes}
use librtcx.Hash.{Hash128}
use librtcx.Lru.{StdSort}
use librtcx.Disk.{ReadFaults, WriteAnswers, LoadResult, blob, library, cache_blob_to_disk}
use librtcx.Cache.{Future, set_value, abandon, System}
use librtcx.Cache.Lock.{Locked, found, publish, compile, take_tick, lock_blob, lock_library}

-- The compilation of a blob and what follows it; the lock is not held.
unfoldable pub run_blob_compile :
    Outcome Bytes → WriteAnswers → System → Hash128 → Future → System × Outcome Future
run_blob_compile (raise e) answers s hash fut =
    (record s { blob_promises = abandon s.blob_promises fut }, raise e)
run_blob_compile abort answers s hash fut = (s, abort)
run_blob_compile (ok result) answers s hash fut =
    let (fs, end) = cache_blob_to_disk answers s.files s.cache_dir s.tmp_dir blob hash result in
    (
      record s { blob_promises = set_value s.blob_promises fut result; files = fs },
      end >>= λ _. ok fut,
    )

-- The compilation of a library gives its handle and the blob to store.
unfoldable pub run_library_compile :
    Outcome (ℕ × Bytes) → WriteAnswers → System → Hash128 → Future → System × Outcome Future
run_library_compile (raise e) answers s hash fut =
    (record s { library_promises = abandon s.library_promises fut }, raise e)
run_library_compile abort answers s hash fut = (s, abort)
run_library_compile (ok (handle, binary)) answers s hash fut =
    let (fs, end) = cache_blob_to_disk answers s.files s.cache_dir s.tmp_dir library hash binary in
    (
      record s { library_promises = set_value s.library_promises fut handle; files = fs },
      end >>= λ _. ok fut,
    )

-- What follows the lock, for a blob; `publish` does not occur.
unfoldable pub after_lock_blob :
    Outcome Bytes
    → WriteAnswers
    → Hash128
    → System × Outcome (Locked Bytes)
    → System × Outcome Future
after_lock_blob compiled answers hash (s, ok (found fut)) = (s, ok fut)
after_lock_blob compiled answers hash (s, ok (publish fut contents)) =
    (record s { blob_promises = set_value s.blob_promises fut contents }, ok fut)
after_lock_blob compiled answers hash (s, ok (compile fut)) =
    run_blob_compile compiled answers s hash fut
after_lock_blob compiled answers hash (s, raise e) = (s, raise e)
after_lock_blob compiled answers hash (s, abort) = (s, abort)

unfoldable pub after_lock_library :
    Outcome (ℕ × Bytes)
    → WriteAnswers
    → Hash128
    → System × Outcome (Locked ℕ)
    → System × Outcome Future
after_lock_library compiled answers hash (s, ok (found fut)) = (s, ok fut)
after_lock_library compiled answers hash (s, ok (publish fut handle)) =
    (record s { library_promises = set_value s.library_promises fut handle }, ok fut)
after_lock_library compiled answers hash (s, ok (compile fut)) =
    run_library_compile compiled answers s hash fut
after_lock_library compiled answers hash (s, raise e) = (s, raise e)
after_lock_library compiled answers hash (s, abort) = (s, abort)

-- `get_or_add_blob`, with no other thread in between. `compiled` is what `compile()` gives if it
-- is called.
unfoldable pub get_or_add_blob :
    StdSort → ReadFaults → Outcome Bytes → WriteAnswers → System → Hash128 → System × Outcome Future
unfolding take_tick after_lock_blob
get_or_add_blob std faults compiled answers s hash =
    after_lock_blob compiled answers hash (lock_blob std faults (take_tick s) hash s.tick)

-- `get_or_add_library`, with no other thread in between.
unfoldable pub get_or_add_library :
    StdSort
    → (Bytes → LoadResult)
    → Outcome (ℕ × Bytes)
    → WriteAnswers
    → System
    → Hash128
    → System × Outcome Future
unfolding take_tick after_lock_library
get_or_add_library std load compiled answers s hash =
    after_lock_library compiled answers hash (lock_library std load (take_tick s) hash s.tick)
