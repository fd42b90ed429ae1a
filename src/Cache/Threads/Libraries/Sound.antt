-- ===== src/Cache/Threads/Libraries/Sound.antt =====
-- What each part of a request for a library leaves of a sound world.
use librtcx.Prelude.{
  ℕ, ◌≤◌, ◌<◌, ◌≡◌, refl, ◌∙◌, List, Outcome, ok, raise, abort, Bytes, arith, All, All-mono,
}
use librtcx.Hash.{Hash128, IsHash128}
use librtcx.Disk.{FileSystem, library}
use librtcx.Cache.{Future, set_value, abandon, System}
use librtcx.Cache.Lock.{Locked, found, publish, compile}
use librtcx.Cache.Validity.{abandon-IsBacked}
use librtcx.Cache.Stored.{IsStored}
use librtcx.Cache.Libraries.{Holds, IsCompiler, IsShelved, IsFor}
use librtcx.Cache.Libraries.Lent.{publish-IsShelved}
use librtcx.Cache.Threads.{Job}
use librtcx.Cache.Threads.Sound.{OwnedBy, IsJob, IsResult}
use librtcx.Cache.Threads.Libraries.{
  LibraryWorld, leave_library_lock, return_library, publish_library, finish_library,
}

module _ (want : Hash128 → Bytes) (holds : Holds) where
  -- A call that is to publish a library of its hash.
  abbrev pub IsHeld : (Future → Hash128) → ℕ → Job × ℕ → Type 0
  IsHeld owner next p = OwnedBy owner next p.0 × holds p.1 (want p.0.0)

  -- The cache has the libraries of their hashes, and each future is that of the hash that its caller
  -- asked for.
  pub record IsSoundLibrary (owner : Future → Hash128) (w : LibraryWorld) : Type 0 where
    pub shelved : IsShelved want holds owner w.system
    pub jobs : All (IsJob owner w.system.library_promises.next) w.compiling
    pub storing : All (IsResult want owner w.system.library_promises.next) w.storing
    pub held : All (IsHeld owner w.system.library_promises.next) w.publishing
    pub given : All (OwnedBy owner w.system.library_promises.next) w.returned

  abbrev pub SoundLibrary : LibraryWorld → Type 0
  SoundLibrary w = (owner : Future → Hash128) × IsSoundLibrary owner w

  -- The calls of a world, for a system that comes after.
  pub later-IsSoundLibrary :
      (owner o : Future → Hash128) (w : LibraryWorld) (s : System)
      → ((f : Future) → f < w.system.library_promises.next → o f ≡ owner f)
      → w.system.library_promises.next ≤ s.library_promises.next
      → IsShelved want holds o s
      → IsSoundLibrary owner w
      → IsSoundLibrary o (record w { system = s })
  later-IsSoundLibrary owner o w s same more sh sound =
      let next = s.library_promises.next in
      record {
        shelved = sh;
        jobs =
            All-mono _ (IsJob o next) w.compiling
              (λ j h. ((same j.1 h.0.1 ∙ h.0.0, omega (arith, h.0.1)), h.1)) sound.jobs;
        storing =
            All-mono _ (IsResult want o next) w.storing
              (λ p h. (((same p.0.1 h.0.0.1 ∙ h.0.0.0, omega (arith, h.0.0.1)), h.0.1), h.1))
              sound.storing;
        held =
            All-mono _ (IsHeld o next) w.publishing
              (λ p h. ((same p.0.1 h.0.1 ∙ h.0.0, omega (arith, h.0.1)), h.1)) sound.held;
        given =
            All-mono _ (OwnedBy o next) w.returned (λ j h. (same j.1 h.1 ∙ h.0, omega (arith, h.1)))
              sound.given;
      }

  pub leave_library_lock-Sound :
      (w : LibraryWorld) (hash : Hash128) (s : System) (l : Outcome (Locked ℕ))
      (o : Future → Hash128)
      → IsHash128 hash
      → IsSoundLibrary o (record w { system = s })
      → IsFor want holds o s.library_promises.next hash l
      → SoundLibrary (leave_library_lock hash (s, l) w)
  unfolding leave_library_lock
  leave_library_lock-Sound w hash s (ok (found fut)) o lt sound mine = (
    o,
    record {
      shelved = sound.shelved;
      jobs = sound.jobs;
      storing = sound.storing;
      held = sound.held;
      given = (mine, sound.given);
    },
  )
  leave_library_lock-Sound w hash s (ok (publish fut handle)) o lt sound mine = (
    o,
    record {
      shelved = sound.shelved;
      jobs = sound.jobs;
      storing = sound.storing;
      held = (mine, sound.held);
      given = sound.given;
    },
  )
  leave_library_lock-Sound w hash s (ok (compile fut)) o lt sound mine = (
    o,
    record {
      shelved = sound.shelved;
      jobs = ((mine, lt), sound.jobs);
      storing = sound.storing;
      held = sound.held;
      given = sound.given;
    },
  )
  leave_library_lock-Sound w hash s (raise e) o lt sound mine = (o, sound)
  leave_library_lock-Sound w hash s abort o lt sound mine = (o, sound)

  pub finish_library-Sound :
      (compiled : Outcome (ℕ × Bytes)) (w : LibraryWorld) (o : Future → Hash128) (hash : Hash128)
      (fut : Future) (rest : List Job)
      → IsCompiler want holds hash compiled
      → IsSoundLibrary o w
      → IsJob o w.system.library_promises.next (hash, fut)
      → All (IsJob o w.system.library_promises.next) rest
      → SoundLibrary (finish_library compiled (hash, fut) rest w)
  unfolding finish_library set_value abandon
  finish_library-Sound (ok (handle, c)) w o hash fut rest right sound mine others =
      let (held, is) = right handle c refl in
      (
        o,
        record {
          shelved =
              publish-IsShelved want holds w.system fut handle (rw mine.0.0 (rw (← is) held))
                sound.shelved;
          jobs = others;
          storing = ((mine, is), sound.storing);
          held = sound.held;
          given = sound.given;
        },
      )
  finish_library-Sound (raise e) w o hash fut rest right sound mine others =
      let sh = sound.shelved in
      (
        o,
        record {
          shelved = record {
            valid = record {
              blobs = sh.valid.blobs;
              libraries = abandon-IsBacked fut sh.valid.libraries;
            };
            owned = sh.owned;
            values = λ f c l e. ground (arith, sh.values f c l);
            stored = sh.stored;
          };
          jobs = others;
          storing = sound.storing;
          held = sound.held;
          given = sound.given;
        },
      )
  finish_library-Sound abort w o hash fut rest right sound mine others = (o, sound)

  pub return_library-Sound :
      (w : LibraryWorld) (hash : Hash128) (fut : Future) (fs : FileSystem)
      (end : Outcome (Unit {0})) (rest : List (Job × Bytes)) (o : Future → Hash128)
      → IsStored want w.system.cache_dir library fs
      → IsSoundLibrary o w
      → All (IsResult want o w.system.library_promises.next) rest
      → OwnedBy o w.system.library_promises.next (hash, fut)
      → SoundLibrary (return_library (hash, fut) (fs, end) rest w)
  unfolding return_library
  return_library-Sound w hash fut fs end rest o stored sound others mine =
      let sh = sound.shelved in
      let stored_system : IsShelved want holds o (record w.system { files = fs }) = record {
        valid = record { blobs = sh.valid.blobs; libraries = sh.valid.libraries };
        owned = sh.owned;
        values = sh.values;
        stored = stored;
      } in
      elim end as (λ end. SoundLibrary (return_library (hash, fut) (fs, end) rest w)) [
        | ok _ ↦ (
          o,
          record {
            shelved = stored_system;
            jobs = sound.jobs;
            storing = others;
            held = sound.held;
            given = (mine, sound.given);
          },
        )
        | raise e ↦ (
          o,
          record {
            shelved = stored_system;
            jobs = sound.jobs;
            storing = others;
            held = sound.held;
            given = sound.given;
          },
        )
        | abort ↦ (
          o,
          record {
            shelved = stored_system;
            jobs = sound.jobs;
            storing = sound.storing;
            held = sound.held;
            given = sound.given;
          },
        )
      ]

  pub publish_library-Sound :
      (o : Future → Hash128) (w : LibraryWorld) (job : Job) (handle : ℕ) (rest : List (Job × ℕ))
      → IsSoundLibrary o w
      → IsHeld o w.system.library_promises.next (job, handle)
      → All (IsHeld o w.system.library_promises.next) rest
      → SoundLibrary (publish_library job handle rest w)
  unfolding publish_library set_value
  publish_library-Sound o w (hash, fut) handle rest sound (mine, held) others = (
    o,
    record {
      shelved = publish-IsShelved want holds w.system fut handle (rw mine.0 held) sound.shelved;
      jobs = sound.jobs;
      storing = sound.storing;
      held = others;
      given = (mine, sound.given);
    },
  )
