-- ===== src/Cache/Histories.antt =====
-- The life of a cache of src/rtcx.cpp: the constructor, with or without preloading, and then the
-- public operations of `cache_t` in any order, one after the other.
pub mod Frames
pub mod Remembering
pub mod Entries
pub mod Preloads
pub mod Invariant
pub mod Life
pub mod Futures
pub mod Relations
pub mod Runs
use librtcx.Prelude.{
  ℕ, List, [], ◌∷◌, Bool, true, false, Outcome, ok, raise, abort, Bytes, if◌then◌else◌, codes, map,
  ◌++◌, ◌>>=◌,
}
use librtcx.Hash.{Hash128}
use librtcx.Lru.{StdSort}
use librtcx.Disk.{FileSystem, ReadFaults, WriteAnswers, LoadResult}
use librtcx.Cache.{
  Future, Promises, pending, System, clear_memory_store, clear_disk_store, clear_stats, enable,
}
use librtcx.Cache.Preload.{preload_from_disk}
use librtcx.Cache.Requests.{get_or_add_blob, get_or_add_library}

-- One call of a public operation, with what the rest of the world answers during it. What the
-- driver loads depends on the files that it finds.
pub data Operation : Type 0 where
  get_blob : ReadFaults → Outcome Bytes → WriteAnswers → Hash128 → Operation
  get_library :
      (FileSystem → Bytes → LoadResult) → Outcome (ℕ × Bytes) → WriteAnswers → Hash128 → Operation
  clear_memory reset_stats : Operation
  clear_disk : (Bytes → Bool) → Outcome (List (Bytes × Bool)) → Operation
  set_enabled : Bool → Operation
  -- `preload_from_disk`, over the entries of the cache directory by their names.
  load_directory :
      (Bytes → ReadFaults)
      → (FileSystem → Bytes → LoadResult)
      → Outcome (List (Bytes × Bool))
      → Operation

-- The system, the futures that the calls returned, each with the hash that was asked for, and
-- whether the process still runs.
pub record History : Type 0 where
  pub system : System
  pub blobs : List (Hash128 × Future)
  pub libraries : List (Hash128 × Future)
  pub alive : Bool

abbrev pub given : Hash128 → Outcome Future → List (Hash128 × Future) → List (Hash128 × Future)
given hash (ok fut) l = (hash, fut) ∷ l
given hash (raise e) l = l
given hash abort l = l

-- An exception is the caller's to handle; `std::terminate` is the end.
abbrev pub returns {ℓ} : {A : Type ℓ} → Outcome A → Bool
returns (ok a) = true
returns (raise e) = true
returns abort = false

abbrev pub system_after : System → Outcome System → System
system_after s (ok t) = t
system_after s (raise e) = s
system_after s abort = s

-- What a directory iterator gives: the entries, by their names, and which are regular files.
abbrev pub in_directory : Bytes → Outcome (List (Bytes × Bool)) → Outcome (List (Bytes × Bool))
in_directory dir listing = do
  names ← listing
  ok (map (λ e. (dir ++ (codes "/" ++ e.0), e.1)) names)

unfoldable pub perform : StdSort → Operation → History → History
perform std (get_blob faults compiled answers hash) h =
    let (s, end) = get_or_add_blob std faults compiled answers h.system hash in
    record h { system = s; blobs = given hash end h.blobs; alive = returns end }
perform std (get_library load compiled answers hash) h =
    let (s, end) = get_or_add_library std (load h.system.files) compiled answers h.system hash in
    record h { system = s; libraries = given hash end h.libraries; alive = returns end }
perform std clear_memory h = record h { system = clear_memory_store h.system }
perform std reset_stats h = record h { system = clear_stats h.system }
perform std (clear_disk remove_throws listing) h =
    let end = clear_disk_store remove_throws listing h.system in
    record h { system = system_after h.system end; alive = returns end }
perform std (set_enabled on) h = record h { system = enable on h.system }
perform std (load_directory faults load listing) h =
    let s = h.system in
    let end = preload_from_disk std faults (load s.files) (in_directory s.cache_dir listing) s in
    record h { system = system_after s end; alive = returns end }

-- The calls in their order, as long as the process runs.
unfoldable pub perform_all : StdSort → List Operation → History → History
perform_all std [] h = h
perform_all std (call ∷ calls) h =
    let h' = perform std call h in
    let rest = perform_all std calls h' in if h'.alive then rest else h'

-- A cache that nobody has called yet.
abbrev pub opened : System → History
opened s = record { system = s; blobs = []; libraries = []; alive = true }

abbrev pub no_promises : {A : Type 0} → Promises A
no_promises = record { state = λ i. pending; next = 0 }

-- Requests release the lock while they compile; the other operations hold it all the time.
unfoldable pub is_request : Operation → Bool
is_request (get_blob faults compiled answers hash) = true
is_request (get_library load compiled answers hash) = true
is_request clear_memory = false
is_request reset_stats = false
is_request (clear_disk remove_throws listing) = false
is_request (set_enabled on) = false
is_request (load_directory faults load listing) = false
