-- ===== src/Cache/Threads/Safety.antt =====
-- Interleaved requests give each caller the blob of its hash.
use librtcx.Prelude.{◌≡◌, [], ◌++◌, Outcome, ok, Bytes, arith, All, All-mono}
use librtcx.Hash.{Hash128}
use librtcx.Lru.{StdSort}
use librtcx.Disk.{WriteAnswers, blob, cache_blob_to_disk}
use librtcx.Cache.{Future, ready, System}
use librtcx.Cache.Lock.{take_tick, lock_blob}
use librtcx.Cache.Stored.{stored_after}
use librtcx.Cache.Coherence.{IsMkstemp, IsCoherent, lock_blob-IsLockedFor, take_tick-IsCoherent}
use librtcx.Cache.Threads.{Job, World, Step, ticks, locks, compiles, saves, Run, stop, go}
use librtcx.Cache.Threads.Sound.{
  OwnedBy, IsJob, IsResult, All-split, Sound, locked_system, leave_lock-Sound, finish_compile-Sound,
  return-Sound,
}

module _ (want : Hash128 → Bytes) (std : StdSort) (compiled : Hash128 → Future → Outcome Bytes)
    (answers : Future → WriteAnswers) (portable : (fut : Future) → IsMkstemp (answers fut))
    (right : (hash : Hash128) (fut : Future) (c : Bytes)
      → compiled hash fut ≡ ok c
      → c ≡ want hash) where
  pub Step-Sound : {u v : World} → Step std compiled answers u v → Sound want u → Sound want v
  unfolding take_tick
  Step-Sound {u} ticks (o, sound) = (
    o,
    record {
      coherent = take_tick-IsCoherent want sound.coherent;
      jobs = sound.jobs;
      storing = sound.storing;
      given = sound.given;
    },
  )
  Step-Sound {u} (locks faults hash tick lt) (o, sound) =
      let (o', sound', mine) =
        locked_system want o u hash (lock_blob std faults u.system hash tick) sound
          (lock_blob-IsLockedFor want std faults o u.system hash tick lt sound.coherent) in
      leave_lock-Sound want u hash _ _ o' lt sound' mine
  Step-Sound {u} (compiles before hash fut after at) (o, sound) =
      let (mine, others) =
        All-split (IsJob o u.system.blob_promises.next) before (hash, fut) after
          (rw (← at) sound.jobs) in
      finish_compile-Sound want (compiled hash fut) u o hash fut (before ++ after) (right hash fut)
        sound mine others
  Step-Sound {u} (saves before hash fut result after at) (o, sound) =
      let s = u.system in
      let ((mine, is), others) =
        All-split (IsResult want o s.blob_promises.next) before ((hash, fut), result) after
          (rw (← at) sound.storing) in
      let r = cache_blob_to_disk (answers fut) s.files s.cache_dir s.tmp_dir blob hash result in
      return-Sound want u hash fut r.0 r.1 (before ++ after) o
        (stored_after (λ type. want) (answers fut) s.files s.cache_dir s.tmp_dir blob blob hash
          result mine.1 (portable fut) is sound.coherent.stored)
        sound others mine.0

  Run-Sound : {u v : World} → Run std compiled answers u v → Sound want u → Sound want v
  Run-Sound stop h = h
  Run-Sound (go r s) h = Step-Sound s (Run-Sound r h)

  -- However the steps of any number of requests follow each other, from a coherent cache that
  -- nobody uses: where the compiler gives each hash its own blob, and `mkstemp` chooses six
  -- characters without a dot, each future that a call for a hash has returned holds that hash's
  -- blob as soon as it holds a value.
  pub Run-returns :
      (owner : Future → Hash128) (s : System) (w : World)
      → IsCoherent want owner s
      → Run std compiled answers
          (record { system = s; compiling = []; storing = []; returned = [] })
          w
      → All
          (λ (j : Job). (c : Bytes) → w.system.blob_promises.state j.1 ≡ ready c → c ≡ want j.0)
          w.returned
  Run-returns owner s w co r =
      let (o, sound) =
        Run-Sound r (owner, record { coherent = co; jobs = tt; storing = tt; given = tt }) in
      All-mono (OwnedBy o w.system.blob_promises.next) _ w.returned
        (λ j h c e. ground (arith, sound.coherent.values j.1 c h.1 e)) sound.given
