-- ===== src/Owners.antt =====
-- The types that own a piece of memory, a mapping or a library and that can only be moved:
-- `buffer` and `blob_t` of include/rtcx/rtcx.hpp with src/rtcx.cpp, and `algorithm_launcher` of
-- src/algorithm_launcher.cpp. A null pointer is `none`; a live object stands in a list of its type.
pub mod Buffers
pub mod Blobs
pub mod Launchers
pub mod Slots
pub mod Instances
pub mod Owned
pub mod Programs
pub mod Ownership
use librtcx.Prelude.{
  ℕ, ◌+◌, List, [], ◌∷◌, Bool, true, false, Option, none, some, if◌then◌else◌, ◌==◌, Outcome, ok,
  raise, bad_alloc,
}
use librtcx.Prelude.Counting.{count, removed}
use librtcx.Prelude.Actions.{Act}

-- What `malloc`, `mmap` and the loading of a library give, by address or handle.
pub data Resource : Type 0 where
  allocation mapping cuda_library : ℕ → Resource

abbrev pub same : Resource → Resource → Bool
same (allocation a) (allocation b) = a == b
same (mapping a) (mapping b) = a == b
same (cuda_library a) (cuda_library b) = a == b
same _ _ = false

pub record Memory : Type 0 where
  pub live : List Resource
  -- The calls that gave back what was not live: a second `free`, for one.
  pub faults : ℕ

-- `free`, `munmap` of a whole mapping and `cudaLibraryUnload`, which succeed on what is live.
unfoldable pub give_back : Resource → Memory → Memory
give_back r m =
    if 0 == count same r m.live
    then record m { faults = 1 + m.faults }
    else record m { live = removed same r m.live }

pub record Buffer : Type 0 where
  pub data_ : Option ℕ
  pub size_ : ℕ

pub data Deallocator : Type 0 where
  noop_deallocator frees unmaps : Deallocator

pub record Blob : Type 0 where
  pub data_ : Option ℕ
  pub size_ : ℕ
  pub deallocator_ : Deallocator

pub record Launcher : Type 0 where
  pub kernel : Option ℕ
  pub library : Option ℕ

-- `free`, of a null pointer too.
unfoldable pub free : Option ℕ → Memory → Memory
unfolding give_back
free none m = m
free (some p) m = give_back (allocation p) m
