-- ===== src/Cache/Histories/Futures.antt =====
-- A future that was handed out never changes its shared state again.
use librtcx.Prelude.{
  ℕ, ◌<◌, ◌≤◌, ◌≡◌, refl, ◌∙◌, Option, some, none, Outcome, ok, raise, abort, Bytes, arith,
}
use librtcx.Hash.{Hash128}
use librtcx.Lru.{StdSort}
use librtcx.Disk.{ReadFaults, WriteAnswers, LoadResult}
use librtcx.Cache.{Future, Promises, System, make_promise, set_value, abandon}
use librtcx.Cache.Lock.{
  Locked, found, publish, compile, take_tick, blob_missed, blob_hit, lock_blob, count_blob_miss,
  lock_blob_cases, library_missed, library_hit, lock_library, count_library_miss,
  lock_library_cases,
}
use librtcx.Cache.Requests.{
  run_blob_compile, after_lock_blob, get_or_add_blob, run_library_compile, after_lock_library,
  get_or_add_library,
}

-- The shared states that there were are as they were.
abbrev pub Keeps : {A : Type 0} → Promises A → Promises A → Type 0
Keeps p q = ((f : Future) → f < p.next → q.state f ≡ p.state f) × (p.next ≤ q.next)

pub Keeps-trans : {A : Type 0} (p q r : Promises A) → Keeps p q → Keeps q r → Keeps p r
Keeps-trans p q r (same, more) (same', more') =
    (λ f lt. same' f (omega arith) ∙ same f lt, omega arith)

pub Keeps-refl : {A : Type 0} (p : Promises A) → Keeps p p
Keeps-refl p = (λ f lt. refl, omega arith)

-- The future that is still to be set is a new one.
abbrev IsNew : {A : Type 0} → ℕ → Outcome (Locked A) → Type 0
IsNew next (ok (found f)) = Unit
IsNew next (ok (publish f a)) = next ≤ f
IsNew next (ok (compile f)) = next ≤ f
IsNew next (raise e) = Unit
IsNew next abort = Unit

module _ {A : Type 0} where
  pub make_promise-Keeps : (p : Promises A) → Keeps p (make_promise p)
  unfolding make_promise
  make_promise-Keeps p = (λ f lt. ground arith, omega arith)

  pub set_value-Keeps :
      (p q : Promises A) (fut : Future) (a : A)
      → p.next ≤ fut
      → Keeps p q
      → Keeps p (set_value q fut a)
  unfolding set_value
  set_value-Keeps p q fut a new (same, more) = (λ f lt. ground (arith, same f lt), more)

  abandon-Keeps :
      (p q : Promises A) (fut : Future) → p.next ≤ fut → Keeps p q → Keeps p (abandon q fut)
  unfolding abandon
  abandon-Keeps p q fut new (same, more) = (λ f lt. ground (arith, same f lt), more)

abbrev pub BlobsLocked : System → System × Outcome (Locked Bytes) → Type 0
BlobsLocked s r =
    Keeps s.blob_promises r.0.blob_promises
    × (r.0.library_promises ≡ s.library_promises)
    × IsNew s.blob_promises.next r.1

blob_missed-BlobsLocked :
    (std : StdSort) (s : System) (hash : Hash128) (tick : ℕ) (disk : Option Bytes)
    → let r = blob_missed std s hash tick disk in BlobsLocked s (r.0, ok r.1)
unfolding blob_missed
blob_missed-BlobsLocked std s hash tick none =
    (make_promise-Keeps s.blob_promises, refl, omega arith)
blob_missed-BlobsLocked std s hash tick (some c) = (
  set_value-Keeps s.blob_promises (make_promise s.blob_promises) s.blob_promises.next c
      (omega arith) (make_promise-Keeps s.blob_promises),
  refl,
  tt,
)

pub lock_blob-BlobsLocked :
    (std : StdSort) (faults : ReadFaults) (s : System) (hash : Hash128) (tick : ℕ)
    → BlobsLocked s (lock_blob std faults s hash tick)
unfolding blob_hit
lock_blob-BlobsLocked std faults s hash tick =
    let same = Keeps-refl s.blob_promises in
    lock_blob_cases std faults s hash tick (BlobsLocked s) (λ e h. (same, refl, tt))
      (λ disk h r. blob_missed-BlobsLocked std (count_blob_miss s) hash tick disk)
      (λ e. (same, refl, tt)) (same, refl, tt)

-- The shared states that there were are as they were, the blobs' and the libraries'.
abbrev pub KeepsAll : System → System → Type 0
KeepsAll s t = Keeps s.blob_promises t.blob_promises × Keeps s.library_promises t.library_promises

after_lock_blob-Keeps :
    (compiled : Outcome Bytes) (answers : WriteAnswers) (hash : Hash128) (s : System)
    (r : System × Outcome (Locked Bytes))
    → BlobsLocked s r
    → let t = (after_lock_blob compiled answers hash r).0 in
      Keeps s.blob_promises t.blob_promises × (t.library_promises ≡ s.library_promises)
unfolding after_lock_blob run_blob_compile
after_lock_blob-Keeps compiled answers hash s (t, ok (found f)) (k, l, new) = (k, l)
after_lock_blob-Keeps compiled answers hash s (t, ok (publish f c)) (k, l, new) =
    (set_value-Keeps s.blob_promises t.blob_promises f c new k, l)
after_lock_blob-Keeps (ok c) answers hash s (t, ok (compile f)) (k, l, new) =
    (set_value-Keeps s.blob_promises t.blob_promises f c new k, l)
after_lock_blob-Keeps (raise e) answers hash s (t, ok (compile f)) (k, l, new) =
    (abandon-Keeps s.blob_promises t.blob_promises f new k, l)
after_lock_blob-Keeps abort answers hash s (t, ok (compile f)) (k, l, new) = (k, l)
after_lock_blob-Keeps compiled answers hash s (t, raise e) (k, l, new) = (k, l)
after_lock_blob-Keeps compiled answers hash s (t, abort) (k, l, new) = (k, l)

pub get_or_add_blob-KeepsAll :
    (std : StdSort) (faults : ReadFaults) (compiled : Outcome Bytes) (answers : WriteAnswers)
    (s : System) (hash : Hash128)
    → KeepsAll s (get_or_add_blob std faults compiled answers s hash).0
unfolding get_or_add_blob take_tick
get_or_add_blob-KeepsAll std faults compiled answers s hash =
    let (k, l) =
      after_lock_blob-Keeps compiled answers hash (take_tick s)
        (lock_blob std faults (take_tick s) hash s.tick)
        (lock_blob-BlobsLocked std faults (take_tick s) hash s.tick) in
    (k, rw l (Keeps-refl s.library_promises))

abbrev pub LibrariesLocked : System → System × Outcome (Locked ℕ) → Type 0
LibrariesLocked s r =
    Keeps s.library_promises r.0.library_promises
    × (r.0.blob_promises ≡ s.blob_promises)
    × IsNew s.library_promises.next r.1

library_missed-LibrariesLocked :
    (std : StdSort) (s : System) (hash : Hash128) (tick : ℕ) (disk : Option ℕ)
    → let r = library_missed std s hash tick disk in LibrariesLocked s (r.0, ok r.1)
unfolding library_missed
library_missed-LibrariesLocked std s hash tick none =
    (make_promise-Keeps s.library_promises, refl, omega arith)
library_missed-LibrariesLocked std s hash tick (some handle) =
    (make_promise-Keeps s.library_promises, refl, omega arith)

pub lock_library-LibrariesLocked :
    (std : StdSort) (load : Bytes → LoadResult) (s : System) (hash : Hash128) (tick : ℕ)
    → LibrariesLocked s (lock_library std load s hash tick)
unfolding library_hit
lock_library-LibrariesLocked std load s hash tick =
    let same = Keeps-refl s.library_promises in
    lock_library_cases std load s hash tick (LibrariesLocked s) (λ e h. (same, refl, tt))
      (λ disk h r. library_missed-LibrariesLocked std (count_library_miss s) hash tick disk)
      (λ e. (same, refl, tt)) (same, refl, tt)

after_lock_library-Keeps :
    (compiled : Outcome (ℕ × Bytes)) (answers : WriteAnswers) (hash : Hash128) (s : System)
    (r : System × Outcome (Locked ℕ))
    → LibrariesLocked s r
    → let t = (after_lock_library compiled answers hash r).0 in
      Keeps s.library_promises t.library_promises × (t.blob_promises ≡ s.blob_promises)
unfolding after_lock_library run_library_compile
after_lock_library-Keeps compiled answers hash s (t, ok (found f)) (k, l, new) = (k, l)
after_lock_library-Keeps compiled answers hash s (t, ok (publish f c)) (k, l, new) =
    (set_value-Keeps s.library_promises t.library_promises f c new k, l)
after_lock_library-Keeps (ok (handle, c)) answers hash s (t, ok (compile f)) (k, l, new) =
    (set_value-Keeps s.library_promises t.library_promises f handle new k, l)
after_lock_library-Keeps (raise e) answers hash s (t, ok (compile f)) (k, l, new) =
    (abandon-Keeps s.library_promises t.library_promises f new k, l)
after_lock_library-Keeps abort answers hash s (t, ok (compile f)) (k, l, new) = (k, l)
after_lock_library-Keeps compiled answers hash s (t, raise e) (k, l, new) = (k, l)
after_lock_library-Keeps compiled answers hash s (t, abort) (k, l, new) = (k, l)

pub get_or_add_library-KeepsAll :
    (std : StdSort) (load : Bytes → LoadResult) (compiled : Outcome (ℕ × Bytes))
    (answers : WriteAnswers) (s : System) (hash : Hash128)
    → KeepsAll s (get_or_add_library std load compiled answers s hash).0
unfolding get_or_add_library take_tick
get_or_add_library-KeepsAll std load compiled answers s hash =
    let (k, l) =
      after_lock_library-Keeps compiled answers hash (take_tick s)
        (lock_library std load (take_tick s) hash s.tick)
        (lock_library-LibrariesLocked std load (take_tick s) hash s.tick) in
    (rw l (Keeps-refl s.blob_promises), k)
