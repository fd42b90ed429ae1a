-- ===== src/Cache/Threads.antt =====
-- Requests for blobs by several threads: the steps that the mutex and the atomic tick leave.
pub mod Sound
pub mod Safety
pub mod Progress
pub mod Once
pub mod Libraries
pub mod Mixed
use librtcx.Prelude.{ℕ, ◌≡◌, List, ◌∷◌, ◌++◌, Outcome, ok, raise, abort, Bytes}
use librtcx.Hash.{Hash128, IsHash128}
use librtcx.Lru.{StdSort}
use librtcx.Disk.{FileSystem, ReadFaults, WriteAnswers, blob, cache_blob_to_disk}
use librtcx.Cache.{Future, set_value, abandon, System}
use librtcx.Cache.Lock.{Locked, found, publish, compile, take_tick, lock_blob}

-- A call that has released the lock and is to compile: its hash and its future.
abbrev pub Job : Type 0
Job = Hash128 × Future

-- The cache, the calls that are compiling, those that have set their promise and are to store what
-- they compiled, and the futures that calls have returned.
pub record World : Type 0 where
  pub system : System
  pub compiling : List Job
  pub storing : List (Job × Bytes)
  pub returned : List Job

-- What a thread does next with what the part under the lock gave it.
unfoldable pub leave_lock : Hash128 → System × Outcome (Locked Bytes) → World → World
leave_lock hash (s, ok (found fut)) w = record w { system = s; returned = (hash, fut) ∷ w.returned }
leave_lock hash (s, ok (publish fut contents)) w = record w { system = s }
leave_lock hash (s, ok (compile fut)) w = record w {
  system = s;
  compiling = (hash, fut) ∷ w.compiling;
}
leave_lock hash (s, raise e) w = record w { system = s }
leave_lock hash (s, abort) w = record w { system = s }

-- A compilation ends: the promise is set, or destroyed by the exception.
unfoldable pub finish_compile : Outcome Bytes → Job → List Job → World → World
finish_compile (ok result) (hash, fut) rest w = record w {
  system = record w.system { blob_promises = set_value w.system.blob_promises fut result };
  compiling = rest;
  storing = ((hash, fut), result) ∷ w.storing;
}
finish_compile (raise e) (hash, fut) rest w = record w {
  system = record w.system { blob_promises = abandon w.system.blob_promises fut };
  compiling = rest;
}
finish_compile abort job rest w = w

-- The store ends, with the files that it leaves: the call returns its future or throws. Where the
-- process ends nothing is finished.
unfoldable pub return : Job → FileSystem × Outcome (Unit {0}) → List (Job × Bytes) → World → World
return job (fs, ok _) rest w = record w {
  system = record w.system { files = fs };
  storing = rest;
  returned = job ∷ w.returned;
}
return job (fs, raise e) rest w = record w {
  system = record w.system { files = fs };
  storing = rest;
}
return job (fs, abort) rest w = record w { system = record w.system { files = fs } }

module _ (std : StdSort)
    -- What the compilation for a future gives, and what the system calls of its store answer.
    (compiled : Hash128 → Future → Outcome Bytes) (answers : Future → WriteAnswers) where
  -- One step of one thread: it takes its tick; it runs the part under the lock, with a tick that it
  -- took before; it compiles and sets its promise; or it stores what it compiled.
  pub data Step (w : World) : World → Type 0 where
    ticks : Step w (record w { system = take_tick w.system })
    locks :
        (faults : ReadFaults) (hash : Hash128) (tick : ℕ)
        → IsHash128 hash
        → Step w (leave_lock hash (lock_blob std faults w.system hash tick) w)
    compiles :
        (before : List Job) (hash : Hash128) (fut : Future) (after : List Job)
        → w.compiling ≡ before ++ (hash, fut) ∷ after
        → Step w (finish_compile (compiled hash fut) (hash, fut) (before ++ after) w)
    saves :
        (before : List (Job × Bytes)) (hash : Hash128) (fut : Future) (result : Bytes)
        (after : List (Job × Bytes))
        → w.storing ≡ before ++ ((hash, fut), result) ∷ after
        → Step w (
            return
              (hash, fut)
              (cache_blob_to_disk
                (answers fut)
                w.system.files
                w.system.cache_dir
                w.system.tmp_dir
                blob
                hash
                result)
              (before ++ after)
              w)

  pub data Run (w : World) : World → Type 0 where
    stop : Run w w
    go : {u v : World} → Run w u → Step u v → Run w v
