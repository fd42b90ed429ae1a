-- ===== src/Cache/Histories/Runs.antt =====
-- Futures over any sequence of operations.
use librtcx.Prelude.{
  ℕ, ◌≡◌, refl, List, [], ◌∷◌, true, false, Option, none, some, Bytes, if◌then◌else◌, arith,
}
use librtcx.Hash.{Hash128}
use librtcx.Lru.{StdSort}
use librtcx.Cache.{System, make_promise}
use librtcx.Cache.Preload.{add_blob, add_library}
use librtcx.Cache.Histories.{
  Operation, get_blob, get_library, clear_memory, reset_stats, clear_disk, set_enabled,
  load_directory, History, perform, perform_all,
}
use librtcx.Cache.Histories.{is_request}
use librtcx.Cache.Histories.Relations.{IsPromiseRelation, perform-IsPromiseRelation}
use librtcx.Cache.Histories.Futures.{
  Keeps-trans, Keeps-refl, make_promise-Keeps, set_value-Keeps, KeepsAll, get_or_add_blob-KeepsAll,
  get_or_add_library-KeepsAll,
}

unchanged : (s : System) → KeepsAll s s
unchanged s = (Keeps-refl s.blob_promises, Keeps-refl s.library_promises)

add_blob-KeepsAll :
    (std : StdSort) (s : System) (hash : Hash128) (disk : Option Bytes)
    → KeepsAll s (add_blob std s hash disk)
unfolding add_blob
add_blob-KeepsAll std s hash none = unchanged s
add_blob-KeepsAll std s hash (some c) = (
  set_value-Keeps s.blob_promises (make_promise s.blob_promises) s.blob_promises.next c
      (omega arith) (make_promise-Keeps s.blob_promises),
  Keeps-refl s.library_promises,
)

add_library-KeepsAll :
    (std : StdSort) (s : System) (hash : Hash128) (disk : Option ℕ)
    → KeepsAll s (add_library std s hash disk)
unfolding add_library
add_library-KeepsAll std s hash none = unchanged s
add_library-KeepsAll std s hash (some handle) = (
  Keeps-refl s.blob_promises,
  set_value-Keeps s.library_promises (make_promise s.library_promises) s.library_promises.next
      handle (omega arith) (make_promise-Keeps s.library_promises),
)

KeepsAll-trans : (s t u : System) → KeepsAll s t → KeepsAll t u → KeepsAll s u
KeepsAll-trans s t u (b, l) (b', l') = (
  Keeps-trans s.blob_promises t.blob_promises u.blob_promises b b',
  Keeps-trans s.library_promises t.library_promises u.library_promises l l',
)

KeepsAll-IsPromiseRelation : (std : StdSort) → IsPromiseRelation std KeepsAll
KeepsAll-IsPromiseRelation std = record {
  same = λ s t b l. (rw b (Keeps-refl s.blob_promises), rw l (Keeps-refl s.library_promises));
  transitive = KeepsAll-trans;
  adds_blob = add_blob-KeepsAll std;
  adds_library = add_library-KeepsAll std;
}

perform_other-KeepsAll :
    (std : StdSort) (call : Operation) (h : History)
    → is_request call ≡ false
    → KeepsAll h.system (perform std call h).system
perform_other-KeepsAll std = perform-IsPromiseRelation std KeepsAll (KeepsAll-IsPromiseRelation std)

perform-KeepsAll :
    (std : StdSort) (call : Operation) (h : History) → KeepsAll h.system (perform std call h).system
unfolding perform is_request
perform-KeepsAll std (get_blob faults compiled answers hash) h =
    get_or_add_blob-KeepsAll std faults compiled answers h.system hash
perform-KeepsAll std (get_library load compiled answers hash) h =
    get_or_add_library-KeepsAll std (load h.system.files) compiled answers h.system hash
perform-KeepsAll std clear_memory h = perform_other-KeepsAll std clear_memory h refl
perform-KeepsAll std reset_stats h = perform_other-KeepsAll std reset_stats h refl
perform-KeepsAll std (clear_disk throws listing) h =
    perform_other-KeepsAll std (clear_disk throws listing) h refl
perform-KeepsAll std (set_enabled on) h = perform_other-KeepsAll std (set_enabled on) h refl
perform-KeepsAll std (load_directory faults load listing) h =
    perform_other-KeepsAll std (load_directory faults load listing) h refl

-- Over any sequence of operations, one after the other, however the world answers them, the shared
-- state of each future that had been made before is what it was: none gets a second value, and none
-- that was ready or broken changes.
pub perform_all-KeepsAll :
    (std : StdSort) (calls : List Operation) (h : History)
    → KeepsAll h.system (perform_all std calls h).system
unfolding perform_all
perform_all-KeepsAll std [] h = unchanged h.system
perform_all-KeepsAll std (call ∷ calls) h =
    let h' = perform std call h in
    elim h'.alive
      as (λ alive. KeepsAll h.system (if alive then perform_all std calls h' else h').system) [
        | true ↦
            KeepsAll-trans h.system h'.system (perform_all std calls h').system
              (perform-KeepsAll std call h) (perform_all-KeepsAll std calls h')
        | false ↦ perform-KeepsAll std call h
      ]
