-- ===== src/Cache/Histories/Entries.antt =====
-- What one file that is preloaded adds to a cache that remembers.
use librtcx.Prelude.{ℕ, ◌<◌, ◌≤◌, ◌≡◌, refl, ◌∙◌, Option, some, none, Bytes, arith}
use librtcx.Hash.{Hash128}
use librtcx.Lru.{StdSort}
use librtcx.Lru.Insert.{find-insert_cases}
use librtcx.Disk.{ObjectType, blob, library}
use librtcx.Cache.{Future, System, make_promise, set_value}
use librtcx.Cache.Preload.{add_blob, add_library}
use librtcx.Cache.Validity.{IsValid, insert-IsBacked, set_value-IsBacked}
use librtcx.Cache.Coherence.{extend}
use librtcx.Cache.Libraries.{Holds}
use librtcx.Cache.Histories.Remembering.{IsRemembering}

module _ (want : ObjectType → Hash128 → Bytes) (holds : Holds) where
  -- A cache that remembers, with the owners of the futures that there were.
  abbrev pub Follows : (Future → Hash128) → (Future → Hash128) → System → System → Type 0
  Follows bo lo s t =
      (bo' : Future → Hash128) × (lo' : Future → Hash128) × IsRemembering want holds bo' lo' t
      × ((f : Future) → f < s.blob_promises.next → bo' f ≡ bo f)
      × ((f : Future) → f < s.library_promises.next → lo' f ≡ lo f)
      × (s.blob_promises.next ≤ t.blob_promises.next)
      × (s.library_promises.next ≤ t.library_promises.next)

  pub Follows-refl :
      {bo lo : Future → Hash128} {s : System} → IsRemembering want holds bo lo s → Follows bo lo s s
  Follows-refl {bo} {lo} r = (bo, lo, r, λ f lt. refl, λ f lt. refl, omega arith, omega arith)

  pub Follows-trans :
      {bo lo bo' lo' : Future → Hash128} (s t u : System)
      → ((f : Future) → f < s.blob_promises.next → bo' f ≡ bo f)
      → ((f : Future) → f < s.library_promises.next → lo' f ≡ lo f)
      → s.blob_promises.next ≤ t.blob_promises.next
      → s.library_promises.next ≤ t.library_promises.next
      → Follows bo' lo' t u
      → Follows bo lo s u
  Follows-trans s t u same_b same_l more_b more_l (bo', lo', r, b, l, nb, nl) = (
    bo',
    lo',
    r,
    λ f lt. b f (omega arith) ∙ same_b f lt,
    λ f lt. l f (omega arith) ∙ same_l f lt,
    omega arith,
    omega arith,
  )

  -- Nothing of the files and of their directory has changed.
  abbrev pub Preloaded : (Future → Hash128) → (Future → Hash128) → System → System → Type 0
  Preloaded bo lo s t = Follows bo lo s t × (t.files ≡ s.files) × (t.cache_dir ≡ s.cache_dir)

  module _ (std : StdSort) (s : System) (hash : Hash128) (bo lo : Future → Hash128)
      (r : IsRemembering want holds bo lo s) where
    pub add_blob-Preloaded :
        (disk : Option Bytes)
        → ((c : Bytes) → disk ≡ some c → c ≡ want blob hash)
        → Preloaded bo lo s (add_blob std s hash disk)
    unfolding add_blob make_promise set_value
    add_blob-Preloaded none right = (Follows-refl r, refl, refl)
    add_blob-Preloaded (some c) right =
        let fut = s.blob_promises.next in
        let v : IsValid (add_blob std s hash (some c)) = record {
          blobs = set_value-IsBacked fut c (insert-IsBacked std hash s.tick r.blobs.valid.blobs);
          libraries = r.blobs.valid.libraries;
        } in
        (
          (
            extend bo fut hash,
            lo,
            record {
              blobs = record {
                valid = v;
                owned = λ h e here. ground (
                  arith,
                  find-insert_cases std s.blobs_cache hash fut s.tick h e
                      r.blobs.valid.blobs.valid.distinct here,
                  r.blobs.owned h e,
                  r.blobs.valid.blobs.known h e,
                );
                values = λ f d l e. ground (arith, r.blobs.values f d, right c refl);
                stored = r.blobs.stored;
              };
              libraries = record {
                valid = v;
                owned = r.libraries.owned;
                values = r.libraries.values;
                stored = r.libraries.stored;
              };
            },
            λ f l. ground arith,
            λ f l. ground arith,
            omega arith,
            omega arith,
          ),
          refl,
          refl,
        )

    pub add_library-Preloaded :
        (disk : Option ℕ)
        → ((handle : ℕ) → disk ≡ some handle → holds handle (want library hash))
        → Preloaded bo lo s (add_library std s hash disk)
    unfolding add_library make_promise set_value
    add_library-Preloaded none right = (Follows-refl r, refl, refl)
    add_library-Preloaded (some handle) right =
        let fut = s.library_promises.next in
        let v : IsValid (add_library std s hash (some handle)) = record {
          blobs = r.blobs.valid.blobs;
          libraries =
              set_value-IsBacked fut handle
                (insert-IsBacked std hash s.tick r.blobs.valid.libraries);
        } in
        (
          (
            bo,
            extend lo fut hash,
            record {
              blobs = record {
                valid = v;
                owned = r.blobs.owned;
                values = r.blobs.values;
                stored = r.blobs.stored;
              };
              libraries = record {
                valid = v;
                owned = λ h e here. ground (
                  arith,
                  find-insert_cases std s.libraries_cache hash fut s.tick h e
                      r.blobs.valid.libraries.valid.distinct here,
                  r.libraries.owned h e,
                  r.blobs.valid.libraries.known h e,
                );
                values = λ f d l e. ground (arith, r.libraries.values f d, right handle refl);
                stored = r.libraries.stored;
              };
            },
            λ f l. ground arith,
            λ f l. ground arith,
            omega arith,
            omega arith,
          ),
          refl,
          refl,
        )
