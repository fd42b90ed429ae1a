-- ===== src/Cache/Threads/Sound.antt =====
-- What each part of a request for a blob leaves of a sound world.
use librtcx.Prelude.{
  ℕ, ◌<◌, ◌≤◌, ◌≡◌, refl, ◌∙◌, List, [], ◌∷◌, ◌++◌, Outcome, ok, raise, abort, Bytes, arith, All,
  All-mono,
}
use librtcx.Hash.{Hash128, IsHash128}
use librtcx.Disk.{FileSystem, blob}
use librtcx.Cache.{Future, set_value, abandon, System}
use librtcx.Cache.Lock.{Locked, found, publish, compile}
use librtcx.Cache.Validity.{set_value-IsBacked, abandon-IsBacked}
use librtcx.Cache.Stored.{IsStored}
use librtcx.Cache.Coherence.{IsCoherent, IsFor, IsLockedFor}
use librtcx.Cache.Threads.{Job, World, leave_lock, finish_compile, return}

abbrev pub OwnedBy : (Future → Hash128) → ℕ → Job → Type 0
OwnedBy owner next (hash, fut) = (owner fut ≡ hash) × (fut < next)

abbrev pub IsJob : (Future → Hash128) → ℕ → Job → Type 0
IsJob owner next j = OwnedBy owner next j × IsHash128 j.0

-- A call that is to store the blob of its hash.
abbrev pub IsResult : (Hash128 → Bytes) → (Future → Hash128) → ℕ → Job × Bytes → Type 0
IsResult want owner next p = IsJob owner next p.0 × (p.1 ≡ want p.0.0)

-- The cache is coherent, and each future is that of the hash that its caller asked for.
pub record IsSound (want : Hash128 → Bytes) (owner : Future → Hash128) (w : World) : Type 0 where
  pub coherent : IsCoherent want owner w.system
  pub jobs : All (IsJob owner w.system.blob_promises.next) w.compiling
  pub storing : All (IsResult want owner w.system.blob_promises.next) w.storing
  pub given : All (OwnedBy owner w.system.blob_promises.next) w.returned

pub All-split {ℓ κ} :
    {A : Type ℓ} (P : A → Type κ) (xs : List A) (y : A) (ys : List A)
    → All P (xs ++ y ∷ ys)
    → P y × All P (xs ++ ys)
All-split P [] y ys h = h
All-split P (x ∷ xs) y ys h = let (here, rest) = All-split P xs y ys h.1 in (here, (h.0, rest))

module _ (want : Hash128 → Bytes) where
  abbrev pub Sound : World → Type 0
  Sound w = (owner : Future → Hash128) × IsSound want owner w

  -- The calls of a world, for a system that comes after.
  pub later-IsSound :
      (owner o : Future → Hash128) (w : World) (s : System)
      → ((f : Future) → f < w.system.blob_promises.next → o f ≡ owner f)
      → w.system.blob_promises.next ≤ s.blob_promises.next
      → IsCoherent want o s
      → IsSound want owner w
      → IsSound want o (record w { system = s })
  later-IsSound owner o w s same more co sound =
      let next = s.blob_promises.next in
      record {
        coherent = co;
        jobs =
            All-mono _ (IsJob o next) w.compiling
              (λ j h. ((same j.1 h.0.1 ∙ h.0.0, omega (arith, h.0.1)), h.1)) sound.jobs;
        storing =
            All-mono _ (IsResult want o next) w.storing
              (λ p h. (((same p.0.1 h.0.0.1 ∙ h.0.0.0, omega (arith, h.0.0.1)), h.0.1), h.1))
              sound.storing;
        given =
            All-mono _ (OwnedBy o next) w.returned (λ j h. (same j.1 h.1 ∙ h.0, omega (arith, h.1)))
              sound.given;
      }

  pub locked_system :
      (owner : Future → Hash128) (w : World) (hash : Hash128) (r : System × Outcome (Locked Bytes))
      → IsSound want owner w
      → IsLockedFor want owner w.system hash r
      → (o : Future → Hash128) × IsSound want o (record w { system = r.0 })
        × IsFor o r.0.blob_promises.next hash r.1
  locked_system owner w hash r sound (o, co, mine, same, more) =
      (o, later-IsSound owner o w r.0 same more co sound, mine)

  pub leave_lock-Sound :
      (w : World) (hash : Hash128) (s : System) (l : Outcome (Locked Bytes)) (o : Future → Hash128)
      → IsHash128 hash
      → IsSound want o (record w { system = s })
      → IsFor o s.blob_promises.next hash l
      → Sound (leave_lock hash (s, l) w)
  unfolding leave_lock
  leave_lock-Sound w hash s (ok (found fut)) o lt sound mine = (
    o,
    record {
      coherent = sound.coherent;
      jobs = sound.jobs;
      storing = sound.storing;
      given = (mine, sound.given);
    },
  )
  leave_lock-Sound w hash s (ok (publish fut c)) o lt sound never = absurd never
  leave_lock-Sound w hash s (ok (compile fut)) o lt sound mine = (
    o,
    record {
      coherent = sound.coherent;
      jobs = ((mine, lt), sound.jobs);
      storing = sound.storing;
      given = sound.given;
    },
  )
  leave_lock-Sound w hash s (raise e) o lt sound mine = (o, sound)
  leave_lock-Sound w hash s abort o lt sound mine = (o, sound)

  pub finish_compile-Sound :
      (compiled : Outcome Bytes) (w : World) (o : Future → Hash128) (hash : Hash128) (fut : Future)
      (rest : List Job)
      → ((c : Bytes) → compiled ≡ ok c → c ≡ want hash)
      → IsSound want o w
      → IsJob o w.system.blob_promises.next (hash, fut)
      → All (IsJob o w.system.blob_promises.next) rest
      → Sound (finish_compile compiled (hash, fut) rest w)
  unfolding finish_compile set_value abandon
  finish_compile-Sound (ok result) w o hash fut rest right sound mine others =
      let co = sound.coherent in
      (
        o,
        record {
          coherent = record {
            valid = record {
              blobs = set_value-IsBacked fut result co.valid.blobs;
              libraries = co.valid.libraries;
            };
            owned = co.owned;
            values = λ f c l e. ground (arith, co.values f c l, right result refl, mine);
            stored = co.stored;
          };
          jobs = others;
          storing = ((mine, right result refl), sound.storing);
          given = sound.given;
        },
      )
  finish_compile-Sound (raise e) w o hash fut rest right sound mine others =
      let co = sound.coherent in
      (
        o,
        record {
          coherent = record {
            valid = record {
              blobs = abandon-IsBacked fut co.valid.blobs;
              libraries = co.valid.libraries;
            };
            owned = co.owned;
            values = λ f c l e. ground (arith, co.values f c l);
            stored = co.stored;
          };
          jobs = others;
          storing = sound.storing;
          given = sound.given;
        },
      )
  finish_compile-Sound abort w o hash fut rest right sound mine others = (o, sound)

  pub return-Sound :
      (w : World) (hash : Hash128) (fut : Future) (fs : FileSystem) (end : Outcome (Unit {0}))
      (rest : List (Job × Bytes)) (o : Future → Hash128)
      → IsStored want w.system.cache_dir blob fs
      → IsSound want o w
      → All (IsResult want o w.system.blob_promises.next) rest
      → OwnedBy o w.system.blob_promises.next (hash, fut)
      → Sound (return (hash, fut) (fs, end) rest w)
  unfolding return
  return-Sound w hash fut fs end rest o stored sound others mine =
      let co = sound.coherent in
      let stored_system : IsCoherent want o (record w.system { files = fs }) = record {
        valid = record { blobs = co.valid.blobs; libraries = co.valid.libraries };
        owned = co.owned;
        values = co.values;
        stored = stored;
      } in
      elim end as (λ end. Sound (return (hash, fut) (fs, end) rest w)) [
        | ok _ ↦ (
          o,
          record {
            coherent = stored_system;
            jobs = sound.jobs;
            storing = others;
            given = (mine, sound.given);
          },
        )
        | raise e ↦ (
          o,
          record {
            coherent = stored_system;
            jobs = sound.jobs;
            storing = others;
            given = sound.given;
          },
        )
        | abort ↦ (
          o,
          record {
            coherent = stored_system;
            jobs = sound.jobs;
            storing = sound.storing;
            given = sound.given;
          },
        )
      ]
