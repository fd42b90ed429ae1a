-- ===== src/Owners/Programs.antt =====
-- Programs over buffers, blobs and launchers, step by step: who owns what at each moment.
use librtcx.Prelude.{ℕ, List, [], ◌∷◌, Option, none, some, ok, raise, abort}
use librtcx.Owners.{
  Resource, allocation, mapping, cuda_library, Memory, Buffer, Blob, Launcher, unmaps, give_back,
}
use librtcx.Owners.Slots.{at, replaced, taken_out, move_at, assign_at, destroy_at}
use librtcx.Owners.Instances.{buffer_owner, blob_owner, launcher_owner}
use librtcx.Owners.Buffers
use librtcx.Owners.Blobs

pub record Objects : Type 0 where
  pub memory : Memory
  pub buffers : List Buffer
  pub blobs : List Blob
  pub launchers : List Launcher
  -- What `release` gave to the caller, who is to free it.
  pub released : List Resource

pub data Statement : Type 0 where
  -- `buffer::make`, for which `malloc` answers an address or null.
  makes_buffer : Option ℕ → ℕ → Statement
  moves_buffer ends_buffer releases_buffer : ℕ → Statement
  assigns_buffer : ℕ → ℕ → Statement
  -- The caller frees the pointer that stands at a place.
  frees_released : ℕ → Statement
  -- `from_buffer`, the parameter being made of the buffer at a place.
  blob_from_buffer : ℕ → Statement
  blob_from_static_data : Option ℕ → ℕ → Statement
  -- `from_file`, for which `mmap` answers an address.
  blob_from_file : ℕ → ℕ → Statement
  moves_blob ends_blob : ℕ → Statement
  assigns_blob : ℕ → ℕ → Statement
  -- The constructor of a launcher, with a kernel of a library that was loaded for it.
  makes_launcher : Option ℕ → ℕ → Statement
  moves_launcher ends_launcher : ℕ → Statement
  assigns_launcher : ℕ → ℕ → Statement

abbrev pub with_buffers : Objects → Memory × List Buffer → Objects
with_buffers w (m, xs) = record w { memory = m; buffers = xs }

abbrev pub with_blobs : Objects → Memory × List Blob → Objects
with_blobs w (m, xs) = record w { memory = m; blobs = xs }

abbrev pub with_launchers : Objects → Memory × List Launcher → Objects
with_launchers w (m, xs) = record w { memory = m; launchers = xs }

unfoldable pub buffer_made : Option ℕ → ℕ → Objects → Objects
unfolding Buffers.make
buffer_made answer size w =
    let (m, o) = Buffers.make answer size w.memory in
    elim o [
      | ok b ↦ with_buffers w (m, b ∷ w.buffers)
      | raise e ↦ record w { memory = m }
      | abort ↦ record w { memory = m }
    ]

unfoldable pub release_buffer : ℕ → Objects → Objects
unfolding at replaced Buffers.release
release_buffer i w = elim (at i w.buffers) [
  | none ↦ w
  | some b ↦
      let (p, b') = Buffers.release b in
      elim p [
        | none ↦ record w { buffers = replaced i b' w.buffers }
        | some a ↦ record w {
          buffers = replaced i b' w.buffers;
          released = allocation a ∷ w.released;
        }
      ]
]

unfoldable pub free_released : ℕ → Objects → Objects
unfolding at taken_out give_back
free_released i w = elim (at i w.released) [
  | none ↦ w
  | some r ↦ record w { memory = give_back r w.memory; released = taken_out i w.released }
]

unfoldable pub make_blob : ℕ → Objects → Objects
unfolding at replaced Buffers.moved Blobs.from_buffer
make_blob i w = elim (at i w.buffers) [
  | none ↦ w
  | some b ↦
      let (parameter, b') = Buffers.moved b in
      let (blob, m) = Blobs.from_buffer parameter w.memory in
      record w { memory = m; buffers = replaced i b' w.buffers; blobs = blob ∷ w.blobs }
]

abbrev pub acquired : Resource → Memory → Memory
acquired r m = record m { live = r ∷ m.live }

unfoldable pub step : Statement → Objects → Objects
unfolding buffer_made release_buffer free_released make_blob move_at assign_at destroy_at
    Blobs.from_static_data
step (makes_buffer answer size) w = buffer_made answer size w
step (moves_buffer i) w = with_buffers w (move_at buffer_owner i w.memory w.buffers)
step (ends_buffer i) w = with_buffers w (destroy_at buffer_owner i w.memory w.buffers)
step (releases_buffer i) w = release_buffer i w
step (assigns_buffer i j) w = with_buffers w (assign_at buffer_owner i j w.memory w.buffers)
step (frees_released i) w = free_released i w
step (blob_from_buffer i) w = make_blob i w
step (blob_from_static_data p size) w = record w { blobs = Blobs.from_static_data p size ∷ w.blobs }
step (blob_from_file p size) w = record w {
  memory = acquired (mapping p) w.memory;
  blobs = Blobs.from_parts (some p) size unmaps ∷ w.blobs;
}
step (moves_blob i) w = with_blobs w (move_at blob_owner i w.memory w.blobs)
step (ends_blob i) w = with_blobs w (destroy_at blob_owner i w.memory w.blobs)
step (assigns_blob i j) w = with_blobs w (assign_at blob_owner i j w.memory w.blobs)
step (makes_launcher k h) w = record w {
  memory = acquired (cuda_library h) w.memory;
  launchers = record { kernel = k; library = some h } ∷ w.launchers;
}
step (moves_launcher i) w = with_launchers w (move_at launcher_owner i w.memory w.launchers)
step (ends_launcher i) w = with_launchers w (destroy_at launcher_owner i w.memory w.launchers)
step (assigns_launcher i j) w = with_launchers w (assign_at launcher_owner i j w.memory w.launchers)

unfoldable pub steps : List Statement → Objects → Objects
unfolding step
steps [] w = w
steps (s ∷ rest) w = steps rest (step s w)
