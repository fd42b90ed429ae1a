-- ===== src/Cache/Memo.antt =====
-- A request for a blob gives the blob of its hash, and the cache stays coherent.
use librtcx.Prelude.{◌≡◌, refl, Outcome, ok, raise, abort, Bytes, arith}
use librtcx.Hash.{Hash128, IsHash128}
use librtcx.Lru.{StdSort}
use librtcx.Disk.{ReadFaults, WriteAnswers, blob}
use librtcx.Cache.{Future, ready, set_value, abandon, System}
use librtcx.Cache.Lock.{Locked, found, publish, compile, take_tick, lock_blob}
use librtcx.Cache.Requests.{run_blob_compile, after_lock_blob, get_or_add_blob}
use librtcx.Cache.Validity.{after_lock_blob-IsValid}
use librtcx.Cache.Stored.{stored_after}
use librtcx.Cache.Coherence.{
  IsMkstemp, IsCoherent, IsServed, IsLockedFor, lock_blob-IsLockedFor, take_tick-IsCoherent,
}

module _ (want : Hash128 → Bytes) (answers : WriteAnswers) (s : System) (hash : Hash128)
    (lt : IsHash128 hash) (portable : IsMkstemp answers) where
  pub run_blob_compile-IsCoherent :
      {owner : Future → Hash128} (compiled : Outcome Bytes) (fut : Future)
      → ((c : Bytes) → compiled ≡ ok c → c ≡ want hash)
      → owner fut ≡ hash
      → IsCoherent want owner s
      → IsCoherent want owner (run_blob_compile compiled answers s hash fut).0
  unfolding run_blob_compile set_value abandon after_lock_blob
  run_blob_compile-IsCoherent (ok result) fut right mine co = record {
    valid = after_lock_blob-IsValid (ok result) answers hash (s, ok (compile fut)) co.valid;
    owned = co.owned;
    values = λ f c l e. ground (arith, co.values f c l, right result refl, mine);
    stored =
        stored_after (λ type. want) answers s.files s.cache_dir s.tmp_dir blob blob hash result lt
          portable (right result refl) co.stored;
  }
  run_blob_compile-IsCoherent (raise e) fut right mine co = record {
    valid = after_lock_blob-IsValid (raise e) answers hash (s, ok (compile fut)) co.valid;
    owned = co.owned;
    values = λ f c l e. ground (arith, co.values f c l);
    stored = co.stored;
  }
  run_blob_compile-IsCoherent abort fut right mine co = co

pub run_blob_compile-future :
    (compiled : Outcome Bytes) (answers : WriteAnswers) (s : System) (hash : Hash128)
    (fut g : Future)
    → (run_blob_compile compiled answers s hash fut).1 ≡ ok g
    → g ≡ fut
unfolding run_blob_compile
run_blob_compile-future compiled answers s hash fut g e = ground arith

pub run_blob_compile-next :
    (compiled : Outcome Bytes) (answers : WriteAnswers) (s : System) (hash : Hash128) (fut : Future)
    → (run_blob_compile compiled answers s hash fut).0.blob_promises.next ≡ s.blob_promises.next
unfolding run_blob_compile set_value abandon
run_blob_compile-next (ok c) answers s hash fut = refl
run_blob_compile-next (raise e) answers s hash fut = refl
run_blob_compile-next abort answers s hash fut = refl

-- What a whole request leaves: a coherent cache, and a future that was served.
abbrev pub IsAnswered :
    (Hash128 → Bytes) → (Future → Hash128) → System → Hash128 → System × Outcome Future → Type 0
IsAnswered want owner s hash q =
    (owner' : Future → Hash128) × IsCoherent want owner' q.0
    × IsServed owner s.blob_promises.next hash owner' q.0.blob_promises.next q.1

after_lock_blob-IsAnswered :
    (want : Hash128 → Bytes) (compiled : Outcome Bytes) (answers : WriteAnswers) (hash : Hash128)
    {owner : Future → Hash128} (s : System) (r : System × Outcome (Locked Bytes))
    → IsHash128 hash
    → IsMkstemp answers
    → ((c : Bytes) → compiled ≡ ok c → c ≡ want hash)
    → IsLockedFor want owner s hash r
    → IsAnswered want owner s hash (after_lock_blob compiled answers hash r)
unfolding after_lock_blob
after_lock_blob-IsAnswered want compiled answers hash s (t, ok (found f)) lt portable right
      (o, co, mine, same, more) =
    (o, co, (λ g e. ground (arith, mine), same, more))
after_lock_blob-IsAnswered want compiled answers hash s (t, ok (publish f c)) lt portable right
      (o, co, never, same, more) =
    absurd never
after_lock_blob-IsAnswered want compiled answers hash s (t, ok (compile f)) lt portable right
      (o, co, mine, same, more) =
    let next = run_blob_compile-next compiled answers t hash f in
    (
      o,
      run_blob_compile-IsCoherent want answers t hash lt portable compiled f right mine.0 co,
      (
        λ g e. ground (arith, run_blob_compile-future compiled answers t hash f g e, mine, next),
        same,
        omega (arith, more, next),
      ),
    )
after_lock_blob-IsAnswered want compiled answers hash s (t, raise x) lt portable right
      (o, co, mine, same, more) =
    (o, co, (λ g e. absurd (ground arith), same, more))
after_lock_blob-IsAnswered want compiled answers hash s (t, abort) lt portable right
      (o, co, mine, same, more) =
    (o, co, (λ g e. absurd (ground arith), same, more))

module _ (want : Hash128 → Bytes) (std : StdSort) (faults : ReadFaults) (compiled : Outcome Bytes)
    (answers : WriteAnswers) (owner : Future → Hash128) (s : System) (hash : Hash128)
    (lt : IsHash128 hash) (portable : IsMkstemp answers)
    (right : (c : Bytes) → compiled ≡ ok c → c ≡ want hash) (co : IsCoherent want owner s) where
  pub get_or_add_blob-IsAnswered :
      IsAnswered want owner s hash (get_or_add_blob std faults compiled answers s hash)
  unfolding get_or_add_blob take_tick
  get_or_add_blob-IsAnswered =
      after_lock_blob-IsAnswered want compiled answers hash (take_tick s)
        (lock_blob std faults (take_tick s) hash s.tick) lt portable right
        (lock_blob-IsLockedFor want std faults owner (take_tick s) hash s.tick lt
          (take_tick-IsCoherent want co))

  -- A coherent cache that is asked for a 128-bit hash stays coherent, enabled or not, whatever the
  -- disk answers and however the compilation ends, if a blob that it compiles is that of the hash
  -- and `mkstemp` chooses six characters without a dot.
  pub get_or_add_blob-IsCoherent :
      (owner' : Future → Hash128) × IsCoherent want owner'
        (get_or_add_blob std faults compiled answers s hash).0
  get_or_add_blob-IsCoherent = let (o, co, _) = get_or_add_blob-IsAnswered in (o, co)

  -- Where a coherent cache is asked for a 128-bit hash, a blob that it compiles is that of the
  -- hash, and `mkstemp` chooses six characters without a dot: if the future that the request
  -- returns has a value, that is the blob of the hash.
  pub get_or_add_blob-value :
      (fut : Future) (c : Bytes)
      → (get_or_add_blob std faults compiled answers s hash).1 ≡ ok fut
      → (get_or_add_blob std faults compiled answers s hash).0.blob_promises.state fut ≡ ready c
      → c ≡ want hash
  get_or_add_blob-value fut c e is =
      let (o, co, (served, _, _)) = get_or_add_blob-IsAnswered in
      ground (arith, co.values fut c (served fut e).1 is, served fut e)
