-- ===== src/Cache/Threads/Libraries.antt =====
-- Requests for libraries by several threads. A library that the disk holds is published after the
-- lock is released.
pub mod Sound
pub mod Safety
pub mod Once
use librtcx.Prelude.{ℕ, ◌≡◌, List, ◌∷◌, ◌++◌, Outcome, ok, raise, abort, Bytes}
use librtcx.Hash.{Hash128, IsHash128}
use librtcx.Lru.{StdSort}
use librtcx.Disk.{FileSystem, WriteAnswers, LoadResult, library, cache_blob_to_disk}
use librtcx.Cache.{Future, set_value, abandon, System}
use librtcx.Cache.Lock.{Locked, found, publish, compile, take_tick, lock_library}
use librtcx.Cache.Threads.{Job}

-- The cache, the calls that are compiling, those that have loaded a library from the disk and are to
-- set their promise, those that are to store what they compiled, and the futures that calls have
-- returned.
pub record LibraryWorld : Type 0 where
  pub system : System
  pub compiling : List Job
  pub publishing : List (Job × ℕ)
  pub storing : List (Job × Bytes)
  pub returned : List Job

unfoldable pub leave_library_lock :
    Hash128 → System × Outcome (Locked ℕ) → LibraryWorld → LibraryWorld
leave_library_lock hash (s, ok (found fut)) w = record w {
  system = s;
  returned = (hash, fut) ∷ w.returned;
}
leave_library_lock hash (s, ok (publish fut handle)) w = record w {
  system = s;
  publishing = ((hash, fut), handle) ∷ w.publishing;
}
leave_library_lock hash (s, ok (compile fut)) w = record w {
  system = s;
  compiling = (hash, fut) ∷ w.compiling;
}
leave_library_lock hash (s, raise e) w = record w { system = s }
leave_library_lock hash (s, abort) w = record w { system = s }

-- A compilation ends: the promise is set to the library, or destroyed by the exception.
unfoldable pub finish_library : Outcome (ℕ × Bytes) → Job → List Job → LibraryWorld → LibraryWorld
finish_library (ok (handle, binary)) (hash, fut) rest w = record w {
  system = record w.system { library_promises = set_value w.system.library_promises fut handle };
  compiling = rest;
  storing = ((hash, fut), binary) ∷ w.storing;
}
finish_library (raise e) (hash, fut) rest w = record w {
  system = record w.system { library_promises = abandon w.system.library_promises fut };
  compiling = rest;
}
finish_library abort job rest w = w

-- The store ends, with the files that it leaves.
unfoldable pub return_library :
    Job → FileSystem × Outcome (Unit {0}) → List (Job × Bytes) → LibraryWorld → LibraryWorld
return_library job (fs, ok _) rest w = record w {
  system = record w.system { files = fs };
  storing = rest;
  returned = job ∷ w.returned;
}
return_library job (fs, raise e) rest w = record w {
  system = record w.system { files = fs };
  storing = rest;
}
return_library job (fs, abort) rest w = record w { system = record w.system { files = fs } }

-- The promise of a library from the disk is set, and its call returns.
unfoldable pub publish_library : Job → ℕ → List (Job × ℕ) → LibraryWorld → LibraryWorld
publish_library (hash, fut) handle rest w = record w {
  system = record w.system { library_promises = set_value w.system.library_promises fut handle };
  publishing = rest;
  returned = (hash, fut) ∷ w.returned;
}

module _ (std : StdSort)
    -- What the driver loads, what the compilation for a future gives, and what the system calls of
    -- its store answer.
    (load : FileSystem → Bytes → LoadResult) (compiled : Hash128 → Future → Outcome (ℕ × Bytes))
    (answers : Future → WriteAnswers) where
  -- One step of one thread: it takes its tick; it runs the part under the lock, with a tick that it
  -- took before; it publishes what it loaded; it compiles and sets its promise; or it stores what it
  -- compiled.
  pub data LibraryStep (w : LibraryWorld) : LibraryWorld → Type 0 where
    takes : LibraryStep w (record w { system = take_tick w.system })
    looks :
        (hash : Hash128) (tick : ℕ)
        → IsHash128 hash
        → LibraryStep w
            (leave_library_lock hash (lock_library std (load w.system.files) w.system hash tick) w)
    publishes :
        (before : List (Job × ℕ)) (job : Job) (handle : ℕ) (after : List (Job × ℕ))
        → w.publishing ≡ before ++ (job, handle) ∷ after
        → LibraryStep w (publish_library job handle (before ++ after) w)
    builds :
        (before : List Job) (hash : Hash128) (fut : Future) (after : List Job)
        → w.compiling ≡ before ++ (hash, fut) ∷ after
        → LibraryStep w (finish_library (compiled hash fut) (hash, fut) (before ++ after) w)
    archives :
        (before : List (Job × Bytes)) (hash : Hash128) (fut : Future) (binary : Bytes)
        (after : List (Job × Bytes))
        → w.storing ≡ before ++ ((hash, fut), binary) ∷ after
        → LibraryStep w (
            return_library
              (hash, fut)
              (cache_blob_to_disk
                (answers fut)
                w.system.files
                w.system.cache_dir
                w.system.tmp_dir
                library
                hash
                binary)
              (before ++ after)
              w)
