-- ===== src/Owners/Buffers.antt =====
-- `buffer` of include/rtcx/rtcx.hpp.
use librtcx.Prelude.{ℕ, ◌∷◌, Option, none, some, ok, raise, bad_alloc}
use librtcx.Prelude.Actions.{Act}
use librtcx.Owners.{allocation, Memory, Buffer, free}

-- The default constructor.
abbrev pub empty_buffer : Buffer
empty_buffer = record { data_ = none; size_ = 0 }

-- `make`: `malloc` gives an address or null.
unfoldable pub make : Option ℕ → ℕ → Act Memory Buffer
make none size m = (m, raise bad_alloc)
make (some p) size m =
    (record m { live = allocation p ∷ m.live }, ok (record { data_ = some p; size_ = size }))

-- The move constructor: the new object and what is left of the other.
unfoldable pub moved : Buffer → Buffer × Buffer
moved other =
    (record { data_ = other.data_; size_ = other.size_ }, record other { data_ = none; size_ = 0 })

unfoldable pub destroyed : Buffer → Memory → Memory
unfolding free
destroyed b m = free b.data_ m

-- `release`: the pointer and the object after it.
unfoldable pub release : Buffer → Option ℕ × Buffer
release b = (b.data_, record b { data_ = none; size_ = 0 })

-- The move assignment to another object: `this->~buffer()` and the move constructor in its place.
unfoldable pub assigned : Buffer → Buffer → Memory → (Buffer × Buffer) × Memory
unfolding moved destroyed
assigned this other m = (moved other, destroyed this m)
