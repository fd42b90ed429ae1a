-- ===== src/Owners/Blobs.antt =====
-- `blob_t` of include/rtcx/rtcx.hpp and src/rtcx.cpp.
use librtcx.Prelude.{ℕ, Option, none, some}
use librtcx.Owners.{
  mapping, Memory, give_back, Buffer, Blob, Deallocator, noop_deallocator, frees, unmaps, free,
}
use librtcx.Owners.Buffers

abbrev pub empty_blob : Blob
empty_blob = record { data_ = none; size_ = 0; deallocator_ = noop_deallocator }

abbrev pub from_parts : Option ℕ → ℕ → Deallocator → Blob
from_parts p size d = record { data_ = p; size_ = size; deallocator_ = d }

-- `from_buffer`: the blob and what is left of the parameter, which is destroyed at the end.
unfoldable pub from_buffer : Buffer → Memory → Blob × Memory
unfolding Buffers.release Buffers.destroyed
from_buffer buffer m =
    let size = buffer.size_ in
    let (p, rest) = Buffers.release buffer in (from_parts p size frees, Buffers.destroyed rest m)

unfoldable pub from_static_data : Option ℕ → ℕ → Blob
from_static_data p size = from_parts p size noop_deallocator

unfoldable pub moved : Blob → Blob × Blob
moved other = (
  record { data_ = other.data_; size_ = other.size_; deallocator_ = other.deallocator_ },
  record other { data_ = none; size_ = 0; deallocator_ = noop_deallocator },
)

-- The deallocator of a buffer is `free`, the one of a file is `munmap`: nothing maps null.
unfoldable pub deallocate : Deallocator → Option ℕ → ℕ → Memory → Memory
unfolding free give_back
deallocate noop_deallocator p size m = m
deallocate frees p size m = free p m
deallocate unmaps none size m = m
deallocate unmaps (some p) size m = give_back (mapping p) m

unfoldable pub destroyed : Blob → Memory → Memory
unfolding deallocate
destroyed b m = deallocate b.deallocator_ b.data_ b.size_ m

unfoldable pub assigned : Blob → Blob → Memory → (Blob × Blob) × Memory
unfolding moved destroyed
assigned this other m = (moved other, destroyed this m)
