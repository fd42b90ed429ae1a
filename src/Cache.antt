-- ===== src/Cache.antt =====
-- `cache_t` of include/rtcx/rtcx.hpp and src/rtcx.cpp: its state, the promises behind the futures
-- that it hands out, and the operations that do not look anything up.
-- The system is the cache object together with the promises and the file system that it works on.
pub mod Lock
pub mod Requests
pub mod Preload
pub mod Validity
pub mod Coherence
pub mod Stored
pub mod Memo
pub mod Libraries
pub mod Histories
pub mod Memory
pub mod Persistence
pub mod Threads
pub mod Faults
pub mod Stats
use librtcx.Prelude.{
  ℕ, ◌+◌, ◌%◌, ◌^◌, List, [], ◌∷◌, Bool, true, false, not, Bytes, Outcome, ok, ◌>>=◌, if◌then◌else◌,
  ◌==◌, length,
}
use librtcx.Hash.{Hash128}
use librtcx.Lru
use librtcx.Lru.{LruMemoryCache, empty}
use librtcx.Disk.{FileSystem, remove, get_disk_entries}

-- The shared state of a `std::promise`: no value yet, a value, or the promise died without one
-- (`std::future_errc::broken_promise`).
pub data Shared (A : Type 0) : Type 0 where
  pending : Shared A
  ready : A → Shared A
  broken : Shared A

-- A `std::shared_future` is the number of its shared state.
abbrev pub Future : Type 0
Future = ℕ

-- The shared states made so far are those below `next`.
pub record Promises (A : Type 0) : Type 0 where
  pub state : Future → Shared A
  pub next : ℕ

module _ {A : Type 0} where
  abbrev pub update : Promises A → Future → Shared A → Promises A
  update p fut v = record p { state = λ i. if fut == i then v else p.state i }

  -- `std::promise<T> promise`: its future is `p.next`.
  unfoldable pub make_promise : Promises A → Promises A
  make_promise p = record {
    state = λ i. if p.next == i then pending else p.state i;
    next = p.next + 1;
  }

  -- `promise.set_value`.
  unfoldable pub set_value : Promises A → Future → A → Promises A
  set_value p fut a = update p fut (ready a)

  -- The destructor of a promise that has no value.
  unfoldable pub abandon : Promises A → Future → Promises A
  abandon p fut = update p fut broken

-- `cache_stats_counter`, and `cache_stats`, which has the same fields.
pub record CacheStats : Type 0 where
  pub blob_mem_hits : ℕ
  pub blob_mem_misses : ℕ
  pub blob_disk_hits : ℕ
  pub blob_disk_misses : ℕ
  pub library_mem_hits : ℕ
  pub library_mem_misses : ℕ
  pub library_disk_hits : ℕ
  pub library_disk_misses : ℕ

-- `cache_stats_counter::entry::incr`, and the `fetch_add` on the tick.
unfoldable pub incr : ℕ → ℕ
incr value = (value + 1) % 2 ^ 64

abbrev pub zero_stats : CacheStats
zero_stats = record {
  blob_mem_hits = 0;
  blob_mem_misses = 0;
  blob_disk_hits = 0;
  blob_disk_misses = 0;
  library_mem_hits = 0;
  library_mem_misses = 0;
  library_disk_hits = 0;
  library_disk_misses = 0;
}

-- `cache_limits`.
pub record CacheLimits : Type 0 where
  pub num_mem_blobs : ℕ
  pub num_mem_libraries : ℕ

pub record System : Type 0 where
  pub enabled : Bool
  pub cache_dir : Bytes
  pub tmp_dir : Bytes
  pub limits : CacheLimits
  pub blobs_cache : LruMemoryCache Future
  pub libraries_cache : LruMemoryCache Future
  pub counter : CacheStats
  pub tick : ℕ
  -- Blobs are their bytes, libraries their handles.
  pub blob_promises : Promises Bytes
  pub library_promises : Promises ℕ
  pub files : FileSystem

-- The constructor of `cache_t`, without the preloading.
unfoldable pub construct :
    Bytes → Bytes → CacheLimits → Bool → Promises Bytes → Promises ℕ → FileSystem → System
construct cache_dir tmp_dir limits disable blobs libraries files = record {
  enabled = not disable;
  cache_dir = cache_dir;
  tmp_dir = tmp_dir;
  limits = limits;
  blobs_cache = empty limits.num_mem_blobs;
  libraries_cache = empty limits.num_mem_libraries;
  counter = zero_stats;
  tick = 0;
  blob_promises = blobs;
  library_promises = libraries;
  files = files;
}

unfoldable pub get_cache_dir : System → Bytes
get_cache_dir s = s.cache_dir

unfoldable pub get_tmp_dir : System → Bytes
get_tmp_dir s = s.tmp_dir

unfoldable pub get_stats : System → CacheStats
get_stats s = s.counter

unfoldable pub clear_stats : System → System
clear_stats s = record s { counter = zero_stats }

unfoldable pub get_limits : System → CacheLimits
get_limits s = s.limits

unfoldable pub get_blob_count : System → ℕ
get_blob_count s = length s.blobs_cache.entries

unfoldable pub get_library_count : System → ℕ
get_library_count s = length s.libraries_cache.entries

unfoldable pub clear_memory_store : System → System
clear_memory_store s = record s {
  blobs_cache = empty s.blobs_cache.limit;
  libraries_cache = empty s.libraries_cache.limit;
}

-- The loop of `clear_disk_store`, over the paths and whether `remove` throws there.
unfoldable pub remove_entries : (Bytes → Bool) → List Bytes → FileSystem → FileSystem
remove_entries remove_throws [] fs = fs
remove_entries remove_throws (path ∷ entries) fs =
    remove_entries remove_throws entries (if remove_throws path then fs else remove path fs)

-- `clear_disk_store`, over what the directory iterator gives, if it can be opened.
unfoldable pub clear_disk_store :
    (Bytes → Bool) → Outcome (List (Bytes × Bool)) → System → Outcome System
unfolding remove_entries
clear_disk_store remove_throws listing s = do
  entries ← listing
  ok (record s { files = remove_entries remove_throws (get_disk_entries entries) s.files })

unfoldable pub enable : Bool → System → System
enable on s = record s { enabled = on }

unfoldable pub is_enabled : System → Bool
is_enabled s = s.enabled
