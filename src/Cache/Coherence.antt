-- ===== src/Cache/Coherence.antt =====
-- The blob cache against its specification: a function from hashes to blobs, which it remembers.
use librtcx.Prelude.{
  ℕ, ◌≤◌, ◌<◌, ◌≡◌, ◌≢◌, refl, inl, inr, Option, none, some, Outcome, ok, raise, abort, Bytes,
  arith, if◌then◌else◌, ◌==◌, length, Option-cases, All,
}
use librtcx.Hash.{Hash128, IsHash128}
use librtcx.Lru.{StdSort, Entry, find}
use librtcx.Lru.Map.{find-touch}
use librtcx.Lru.Insert.{find-insert_cases}
use librtcx.Disk.{
  FileSystem, ReadFaults, WriteAnswers, ObjectType, blob, object_path, read, from_file,
  get_disk_blob,
}
use librtcx.Cache.{Future, ready, make_promise, set_value, System}
use librtcx.Cache.Lock.{
  Locked, found, publish, compile, take_tick, find_enabled, blob_missed, blob_hit, read_disk_blob,
  lock_blob, count_blob_miss, lock_blob_cases,
}
use librtcx.Cache.Validity.{
  IsValid, take_tick-IsValid, counted_blobs, blob_missed-IsValid, blob_hit-IsValid,
}

-- `mkstemp` chooses six characters of the portable set, which has no dot.
abbrev pub IsMkstemp : WriteAnswers → Type 0
IsMkstemp answers = (s : Bytes) → answers.mkstemp ≡ some s → (length s ≡ 6) × All (λ c. c ≢ b'.') s

-- Each future belongs to the hash that it was made for, `owner`; a value that it has is the blob of
-- that hash, and so is what the disk holds under the hash's path.
pub record IsCoherent (want : Hash128 → Bytes) (owner : Future → Hash128) (s : System)
    : Type 0 where
  pub valid : IsValid s
  pub owned :
      (h : Hash128) (e : Entry Future) → find h s.blobs_cache.entries ≡ some e → owner e.value ≡ h
  pub values :
      (f : Future) (c : Bytes)
      → f < s.blob_promises.next
      → s.blob_promises.state f ≡ ready c
      → c ≡ want (owner f)
  pub stored :
      (h : Hash128) (c : Bytes)
      → IsHash128 h
      → read (object_path s.cache_dir blob h) s.files ≡ some c
      → c ≡ want h

-- The owners when the next future is made for a hash.
abbrev pub extend : (Future → Hash128) → Future → Hash128 → Future → Hash128
extend owner next hash i = if next == i then hash else owner i

-- The future that a request goes on with is the hash's.
abbrev pub IsFor : (Future → Hash128) → ℕ → Hash128 → Outcome (Locked Bytes) → Type 0
IsFor owner next hash (ok (found f)) = (owner f ≡ hash) × (f < next)
IsFor owner next hash (ok (publish f c)) = ⊥
IsFor owner next hash (ok (compile f)) = (owner f ≡ hash) × (f < next)
IsFor owner next hash (raise e) = Unit
IsFor owner next hash abort = Unit

-- A request that came when `next` futures were made left `next'` of them, with the owners of the
-- first ones unchanged; a future that it returns is the hash's.
abbrev pub IsServed :
    (Future → Hash128) → ℕ → Hash128 → (Future → Hash128) → ℕ → Outcome Future → Type 0
IsServed owner next hash owner' next' o =
    ((fut : Future) → o ≡ ok fut → (owner' fut ≡ hash) × (fut < next'))
    × ((f : Future) → f < next → owner' f ≡ owner f)
    × (next ≤ next')

pub read_of_get_disk_blob :
    (faults : ReadFaults) (fs : FileSystem) (dir c : Bytes) (type : ObjectType) (h : Hash128)
    → get_disk_blob faults fs dir type h ≡ ok (some c)
    → read (object_path dir type h) fs ≡ some c
unfolding get_disk_blob from_file
read_of_get_disk_blob faults fs dir c type h e = ground arith

module _ (want : Hash128 → Bytes) (std : StdSort) {owner : Future → Hash128} {s : System}
    (co : IsCoherent want owner s) where
  blob_missed-IsCoherent :
      (hash : Hash128) (tick : ℕ) (disk : Option Bytes)
      → ((c : Bytes) → disk ≡ some c → c ≡ want hash)
      → IsCoherent want
          (extend owner s.blob_promises.next hash)
          (blob_missed std s hash tick disk).0
  unfolding blob_missed make_promise set_value
  blob_missed-IsCoherent hash tick none right = record {
    valid = blob_missed-IsValid std s hash tick none co.valid;
    owned = λ h e here. ground (
      arith,
      find-insert_cases std s.blobs_cache hash s.blob_promises.next tick h e
          co.valid.blobs.valid.distinct here,
      co.owned h e,
      co.valid.blobs.known h e,
    );
    values = λ f c lt e. ground (arith, co.values f c);
    stored = co.stored;
  }
  blob_missed-IsCoherent hash tick (some contents) right = record {
    valid = blob_missed-IsValid std s hash tick (some contents) co.valid;
    owned = λ h e here. ground (
      arith,
      find-insert_cases std s.blobs_cache hash s.blob_promises.next tick h e
          co.valid.blobs.valid.distinct here,
      co.owned h e,
      co.valid.blobs.known h e,
    );
    values = λ f c lt e. ground (arith, co.values f c, right contents refl);
    stored = co.stored;
  }

  blob_hit-IsCoherent :
      (hash : Hash128) (tick : ℕ)
      → IsValid (blob_hit s hash tick)
      → IsCoherent want owner (blob_hit s hash tick)
  unfolding blob_hit
  blob_hit-IsCoherent hash tick v = record {
    valid = v;
    owned = λ h e here. elim (Option-cases (find h s.blobs_cache.entries)) [
      | inl miss ↦ ground (arith, find-touch h hash tick s.blobs_cache.entries)
      | inr (f, old) ↦
          ground (arith, find-touch h hash tick s.blobs_cache.entries, co.owned h f old)
    ];
    values = co.values;
    stored = co.stored;
  }

-- What the part under the lock leaves: a coherent cache, with the owners of the futures that there
-- were unchanged, and a future for the hash.
abbrev pub IsLockedFor :
    (Hash128 → Bytes)
    → (Future → Hash128)
    → System
    → Hash128
    → System × Outcome (Locked Bytes)
    → Type 0
IsLockedFor want owner s hash r =
    (owner' : Future → Hash128) × IsCoherent want owner' r.0
    × IsFor owner' r.0.blob_promises.next hash r.1
    × ((f : Future) → f < s.blob_promises.next → owner' f ≡ owner f)
    × (s.blob_promises.next ≤ r.0.blob_promises.next)

module _ (want : Hash128 → Bytes) {owner : Future → Hash128} {s : System}
    (co : IsCoherent want owner s) where
  pub take_tick-IsCoherent : IsCoherent want owner (take_tick s)
  unfolding take_tick
  take_tick-IsCoherent = record {
    valid = take_tick-IsValid co.valid;
    owned = co.owned;
    values = co.values;
    stored = co.stored;
  }

  count_blob_miss-IsCoherent : IsCoherent want owner (count_blob_miss s)
  count_blob_miss-IsCoherent = record {
    valid = counted_blobs co.valid;
    owned = co.owned;
    values = co.values;
    stored = co.stored;
  }

  read_disk_blob_right :
      (faults : ReadFaults) (hash : Hash128) (disk : Option Bytes) (c : Bytes)
      → IsHash128 hash
      → read_disk_blob faults s hash ≡ ok disk
      → disk ≡ some c
      → c ≡ want hash
  unfolding read_disk_blob
  read_disk_blob_right faults hash disk c lt e is =
      ground
        (arith, read_of_get_disk_blob faults s.files s.cache_dir c blob hash, co.stored hash c lt)

missed-IsFor :
    (std : StdSort) (owner : Future → Hash128) (s : System) (hash : Hash128) (tick : ℕ)
    (disk : Option Bytes)
    → IsFor
        (extend owner s.blob_promises.next hash)
        (blob_missed std s hash tick disk).0.blob_promises.next
        hash
        (ok (blob_missed std s hash tick disk).1)
unfolding blob_missed make_promise set_value
missed-IsFor std owner s hash tick none = ground arith
missed-IsFor std owner s hash tick (some contents) = ground arith

missed-next :
    (std : StdSort) (s : System) (hash : Hash128) (tick : ℕ) (disk : Option Bytes)
    → s.blob_promises.next ≤ (blob_missed std s hash tick disk).0.blob_promises.next
unfolding blob_missed make_promise set_value
missed-next std s hash tick none = omega arith
missed-next std s hash tick (some contents) = omega arith

find_of_enabled :
    (s : System) (hash : Hash128) (e : Entry Future)
    → find_enabled s.enabled s.blobs_cache hash ≡ some e
    → find hash s.blobs_cache.entries ≡ some e
unfolding find_enabled
find_of_enabled s hash e h = ground arith

pub lock_blob-IsLockedFor :
    (want : Hash128 → Bytes) (std : StdSort) (faults : ReadFaults) (owner : Future → Hash128)
    (s : System) (hash : Hash128) (tick : ℕ)
    → IsHash128 hash
    → IsCoherent want owner s
    → IsLockedFor want owner s hash (lock_blob std faults s hash tick)
unfolding blob_hit
lock_blob-IsLockedFor want std faults owner s hash tick lt co =
    let counted = count_blob_miss-IsCoherent want co in
    lock_blob_cases std faults s hash tick (IsLockedFor want owner s hash)
      (λ e h. (
        owner,
        blob_hit-IsCoherent want std co hash tick (blob_hit-IsValid hash tick co.valid),
        (
          co.owned hash e (find_of_enabled s hash e h),
          co.valid.blobs.known hash e (find_of_enabled s hash e h),
        ),
        λ f lt. refl,
        omega arith,
      ))
      (λ disk h r. (
        extend owner s.blob_promises.next hash,
        blob_missed-IsCoherent want std counted hash tick disk
            (λ c is. read_disk_blob_right want co faults hash disk c lt r is),
        missed-IsFor std owner (count_blob_miss s) hash tick disk,
        λ f lt. ground arith,
        missed-next std (count_blob_miss s) hash tick disk,
      ))
      (λ e. (owner, counted, tt, λ f lt. refl, omega arith))
      (owner, counted, tt, λ f lt. refl, omega arith)
