-- ===== src/Cache/Memory.antt =====
-- A blob that was asked for once is found again: in memory, and on the disk.
use librtcx.Prelude.{
  ℕ, ◌<◌, ◌≡◌, refl, ap, ◌∙◌, true, Option, none, some, Outcome, ok, raise, abort, Bytes, arith,
}
use librtcx.Hash.{Hash128}
use librtcx.Lru.{StdSort, Entry, find, hit}
use librtcx.Lru.Map.{find-touch}
use librtcx.Lru.Insert.{find-insert_self}
use librtcx.Disk.{ReadFaults, WriteAnswers}
use librtcx.Cache.{Future, System}
use librtcx.Cache.Lock.{
  Locked, found, publish, compile, take_tick, find_enabled, blob_hit, blob_missed, count_blob_miss,
  lock_blob, lock_blob_cases,
}
use librtcx.Cache.Requests.{run_blob_compile, after_lock_blob, get_or_add_blob}
use librtcx.Cache.Validity.{IsValid, take_tick-IsValid}

abbrev CachedAs : Hash128 → Future → System → Type 0
CachedAs hash fut s =
    (e : Entry Future) × (find hash s.blobs_cache.entries ≡ some e) × (e.value ≡ fut)

-- The entry that the part under the lock leaves for the hash.
abbrev Leaves : Hash128 → System × Outcome (Locked Bytes) → Type 0
Leaves hash (s, ok (found f)) = (s.enabled ≡ true) × CachedAs hash f s
Leaves hash (s, ok (publish f c)) = ⊥
Leaves hash (s, ok (compile f)) = (s.enabled ≡ true) × CachedAs hash f s
Leaves hash (s, raise e) = Unit
Leaves hash (s, abort) = Unit

module _ (std : StdSort) (s : System) (hash : Hash128) (tick : ℕ) (on : s.enabled ≡ true)
    (v : IsValid s) (pos : 0 < s.limits.num_mem_blobs) where
  missed-Leaves :
      (disk : Option Bytes)
      → find hash s.blobs_cache.entries ≡ none
      → Leaves hash (
        (blob_missed std (count_blob_miss s) hash tick disk).0,
        ok (blob_missed std (count_blob_miss s) hash tick disk).1,
      )
  unfolding blob_missed
  missed-Leaves none new = (
    on,
    (
      record { last_touched_tick = tick; value = s.blob_promises.next },
      find-insert_self std s.blobs_cache hash s.blob_promises.next tick v.blobs.valid (ground arith)
          new,
      refl,
    ),
  )
  missed-Leaves (some c) new = (
    on,
    (
      record { last_touched_tick = tick; value = s.blob_promises.next },
      find-insert_self std s.blobs_cache hash s.blob_promises.next tick v.blobs.valid (ground arith)
          new,
      refl,
    ),
  )

  lock_blob-Leaves : (faults : ReadFaults) → Leaves hash (lock_blob std faults s hash tick)
  unfolding blob_hit find_enabled
  lock_blob-Leaves faults =
      lock_blob_cases std faults s hash tick (Leaves hash)
        (λ e h.
          (on, (hit e tick, ground (arith, find-touch hash hash tick s.blobs_cache.entries), refl)))
        (λ disk h r. missed-Leaves disk (ground arith)) (λ e. tt) tt

after_lock_blob-CachedAs :
    (compiled : Outcome Bytes) (answers : WriteAnswers) (hash : Hash128) (fut : Future)
    (r : System × Outcome (Locked Bytes))
    → Leaves hash r
    → (after_lock_blob compiled answers hash r).1 ≡ ok fut
    → ((after_lock_blob compiled answers hash r).0.enabled ≡ true)
      × CachedAs hash fut (after_lock_blob compiled answers hash r).0
unfolding after_lock_blob run_blob_compile
after_lock_blob-CachedAs compiled answers hash fut (s, ok (found f)) (on, (e, here, is)) h =
    (on, (e, here, ground arith))
after_lock_blob-CachedAs compiled answers hash fut (s, ok (publish f c)) never h = absurd never
after_lock_blob-CachedAs (ok result) answers hash fut (s, ok (compile f)) (on, (e, here, is)) h =
    (on, (e, here, ground arith))
after_lock_blob-CachedAs (raise x) answers hash fut (s, ok (compile f)) l h = absurd (ground arith)
after_lock_blob-CachedAs abort answers hash fut (s, ok (compile f)) l h = absurd (ground arith)
after_lock_blob-CachedAs compiled answers hash fut (s, raise x) l h = absurd (ground arith)
after_lock_blob-CachedAs compiled answers hash fut (s, abort) l h = absurd (ground arith)

-- A request to an enabled cache that finds its hash in memory returns the entry's future. Nothing
-- is compiled, read, stored or set, and the entry is as recent as the request.
pub get_or_add_blob-hit :
    (std : StdSort) (faults : ReadFaults) (compiled : Outcome Bytes) (answers : WriteAnswers)
    (s : System) (hash : Hash128) (e : Entry Future)
    → s.enabled ≡ true
    → find hash s.blobs_cache.entries ≡ some e
    → let r = get_or_add_blob std faults compiled answers s hash in
      (r.1 ≡ ok e.value)
      × (r.0.blob_promises ≡ s.blob_promises)
      × (r.0.files ≡ s.files)
      × (r.0.enabled ≡ true)
      × (find hash r.0.blobs_cache.entries ≡ some (hit e s.tick))
unfolding get_or_add_blob lock_blob blob_hit find_enabled
get_or_add_blob-hit std faults compiled answers s hash e on here =
    ground (arith, find-touch hash hash s.tick s.blobs_cache.entries)

-- With a valid, enabled cache that can hold a blob, a second request for a hash returns the future
-- that the first one returned, whatever it would read or compile, and changes no promise and no
-- file.
pub get_or_add_blob_again :
    (std : StdSort) (faults faults' : ReadFaults) (compiled compiled' : Outcome Bytes)
    (answers answers' : WriteAnswers) (s : System) (hash : Hash128) (fut : Future)
    → s.enabled ≡ true
    → 0 < s.limits.num_mem_blobs
    → IsValid s
    → (get_or_add_blob std faults compiled answers s hash).1 ≡ ok fut
    → let r = get_or_add_blob std faults compiled answers s hash in
      let q = get_or_add_blob std faults' compiled' answers' r.0 hash in
      (q.1 ≡ ok fut) × (q.0.blob_promises ≡ r.0.blob_promises) × (q.0.files ≡ r.0.files)
unfolding get_or_add_blob
get_or_add_blob_again std faults faults' compiled compiled' answers answers' s hash fut on pos v h =
    let (on', (e, here, is)) =
      after_lock_blob-CachedAs compiled answers hash fut
        (lock_blob std faults (take_tick s) hash s.tick)
        (lock_blob-Leaves std (take_tick s) hash s.tick on (take_tick-IsValid v) pos faults) h in
    let (r, p, f, _, _) =
      get_or_add_blob-hit std faults' compiled' answers'
        (get_or_add_blob std faults compiled answers s hash).0 hash e on' here in
    (r ∙ ap ok is, p, f)
