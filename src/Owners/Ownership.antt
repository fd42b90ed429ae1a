-- ===== src/Owners/Ownership.antt =====
-- Every resource has one owner, whatever a program does with buffers, blobs and launchers.
use librtcx.Prelude.{
  ℕ, zero, suc, ◌+◌, ◌≡◌, refl, ap, ◌∙◌, List, [], ◌∷◌, Option, none, some, arith, Option-cases,
  inl, inr,
}
use librtcx.Prelude.Counting.{one_if, count}
use librtcx.Owners.{Resource, allocation, same, Memory, Buffer, Blob, Launcher, free}
use librtcx.Owners.Slots.{at, replaced, taken_out, total, total-replaced, owns, let_go}
use librtcx.Owners.Owned.{
  IsOwned, move_at-IsOwned, destroy_at-IsOwned, assign_at-IsOwned, let_go_lem, same-IsEqualityTest,
}
use librtcx.Owners.Instances.{buffer_owner, blob_owner, launcher_owner, allocated}
use librtcx.Owners.Programs.{
  Objects, Statement, with_blobs, with_launchers, buffer_made, release_buffer, free_released,
  make_blob, step, steps, makes_buffer, moves_buffer, ends_buffer, releases_buffer, assigns_buffer,
  frees_released, blob_from_buffer, blob_from_static_data, blob_from_file, moves_blob, ends_blob,
  assigns_blob, makes_launcher, moves_launcher, ends_launcher, assigns_launcher,
}
use librtcx.Owners.Buffers
use librtcx.Owners.Blobs

abbrev pub outside_buffers : Objects → Resource → ℕ
outside_buffers w k =
    total blob_owner k w.blobs + (total launcher_owner k w.launchers + count same k w.released)

abbrev pub outside_blobs : Objects → Resource → ℕ
outside_blobs w k =
    total buffer_owner k w.buffers + (total launcher_owner k w.launchers + count same k w.released)

abbrev pub outside_launchers : Objects → Resource → ℕ
outside_launchers w k =
    total buffer_owner k w.buffers + (total blob_owner k w.blobs + count same k w.released)

-- Each resource is live as often as an object or the caller owns it, and nothing was given back that
-- was not live.
abbrev pub IsOwnedObjects : Objects → Type 0
IsOwnedObjects w =
    (w.memory.faults ≡ 0)
    × ((k : Resource)
        → count same k w.memory.live
          ≡ total buffer_owner k w.buffers
            + (total blob_owner k w.blobs
                + (total launcher_owner k w.launchers + count same k w.released)))

module _ (w : Objects) where
  to_blobs : IsOwnedObjects w → IsOwned blob_owner (outside_blobs w) w.memory w.blobs
  to_blobs h = (h.0, λ k. omega (arith, h.1 k))

  from_blobs :
      (r : Memory × List Blob)
      → IsOwned blob_owner (outside_blobs w) r.0 r.1
      → IsOwnedObjects (with_blobs w r)
  from_blobs r h = (h.0, λ k. omega (arith, h.1 k))

  to_launchers :
      IsOwnedObjects w → IsOwned launcher_owner (outside_launchers w) w.memory w.launchers
  to_launchers h = (h.0, λ k. omega (arith, h.1 k))

  from_launchers :
      (r : Memory × List Launcher)
      → IsOwned launcher_owner (outside_launchers w) r.0 r.1
      → IsOwnedObjects (with_launchers w r)
  from_launchers r h = (h.0, λ k. omega (arith, h.1 k))

  buffer_made-IsOwnedObjects :
      (answer : Option ℕ) (size : ℕ) → IsOwnedObjects w → IsOwnedObjects (buffer_made answer size w)
  unfolding buffer_made Buffers.make total count buffer_owner
  buffer_made-IsOwnedObjects none size h = h
  buffer_made-IsOwnedObjects (some p) size h = (h.0, λ k. omega (arith, h.1 k))

  released_owned :
      (i : ℕ) (p : Option ℕ) (b : Buffer)
      → b.data_ ≡ p
      → at i w.buffers ≡ some b
      → IsOwnedObjects w
      → IsOwnedObjects (elim p as (λ _. Objects) [
        | none ↦ record w { buffers = replaced i (record b { data_ = none; size_ = 0 }) w.buffers }
        | some a ↦ record w {
          buffers = replaced i (record b { data_ = none; size_ = 0 }) w.buffers;
          released = allocation a ∷ w.released;
        }
      ])
  unfolding count buffer_owner
  released_owned i none b d e h = (
    h.0,
    λ k. omega (
      arith,
      h.1 k,
      ap (λ q. owns (allocated q) k) d,
      total-replaced buffer_owner k i b (record b { data_ = none; size_ = 0 }) w.buffers e,
    ),
  )
  released_owned i (some a) b d e h = (
    h.0,
    λ k. omega (
      arith,
      h.1 k,
      ap (λ q. owns (allocated q) k) d,
      total-replaced buffer_owner k i b (record b { data_ = none; size_ = 0 }) w.buffers e,
    ),
  )

  release_buffer-IsOwnedObjects : (i : ℕ) → IsOwnedObjects w → IsOwnedObjects (release_buffer i w)
  unfolding release_buffer Buffers.release
  release_buffer-IsOwnedObjects i h = elim (Option-cases (at i w.buffers)) [
    | inl e ↦ rw (release_buffer, e) h
    | inr (b, e) ↦ rw (release_buffer, e) (released_owned i b.data_ b refl e h)
  ]

  count-taken_out :
      (k r : Resource) (i : ℕ) (rs : List Resource)
      → at i rs ≡ some r
      → count same k (taken_out i rs) + one_if (same r k) ≡ count same k rs
  unfolding at taken_out count
  count-taken_out k r i [] e = ground arith
  count-taken_out k r zero (x ∷ rs) e = grind arith
  count-taken_out k r (suc i) (x ∷ rs) e = ground (arith, count-taken_out k r i rs e)

  free_released-IsOwnedObjects : (i : ℕ) → IsOwnedObjects w → IsOwnedObjects (free_released i w)
  unfolding free_released let_go
  free_released-IsOwnedObjects i h = elim (Option-cases (at i w.released)) [
    | inl e ↦ rw (free_released, e) h
    | inr (r, e) ↦
        let (f, l) =
          let_go_lem (some r) w.memory
            (λ k. omega (arith, h.1 k, count-taken_out k r i w.released e)) in
        rw (free_released, e)
          (f ∙ h.0, λ k. omega (arith, l k, h.1 k, count-taken_out k r i w.released e))
  ]

  make_blob-IsOwnedObjects : (i : ℕ) → IsOwnedObjects w → IsOwnedObjects (make_blob i w)
  unfolding make_blob Buffers.moved Blobs.from_buffer Buffers.release Buffers.destroyed free total
      buffer_owner blob_owner
  make_blob-IsOwnedObjects i h = elim (Option-cases (at i w.buffers)) [
    | inl e ↦ rw (make_blob, e) h
    | inr (b, e) ↦
        rw (make_blob, e)
          (
            h.0,
            λ k. omega (
              arith,
              h.1 k,
              total-replaced buffer_owner k i b (record b { data_ = none; size_ = 0 }) w.buffers e,
            ),
          )
  ]

  step-IsOwnedObjects : (s : Statement) → IsOwnedObjects w → IsOwnedObjects (step s w)
  unfolding step total count blob_owner launcher_owner Blobs.from_static_data
  step-IsOwnedObjects (makes_buffer answer size) h = buffer_made-IsOwnedObjects answer size h
  step-IsOwnedObjects (moves_buffer i) h =
      move_at-IsOwned buffer_owner (outside_buffers w) i w.memory w.buffers h
  step-IsOwnedObjects (ends_buffer i) h =
      destroy_at-IsOwned buffer_owner (outside_buffers w) i w.memory w.buffers h
  step-IsOwnedObjects (releases_buffer i) h = release_buffer-IsOwnedObjects i h
  step-IsOwnedObjects (assigns_buffer i j) h =
      assign_at-IsOwned buffer_owner (outside_buffers w) i j w.memory w.buffers h
  step-IsOwnedObjects (frees_released i) h = free_released-IsOwnedObjects i h
  step-IsOwnedObjects (blob_from_buffer i) h = make_blob-IsOwnedObjects i h
  step-IsOwnedObjects (blob_from_static_data p size) h = (h.0, λ k. omega (arith, h.1 k))
  step-IsOwnedObjects (blob_from_file p size) h = (h.0, λ k. omega (arith, h.1 k))
  step-IsOwnedObjects (moves_blob i) h =
      from_blobs _ (move_at-IsOwned blob_owner (outside_blobs w) i w.memory w.blobs (to_blobs h))
  step-IsOwnedObjects (ends_blob i) h =
      from_blobs _ (destroy_at-IsOwned blob_owner (outside_blobs w) i w.memory w.blobs (to_blobs h))
  step-IsOwnedObjects (assigns_blob i j) h =
      from_blobs _
        (assign_at-IsOwned blob_owner (outside_blobs w) i j w.memory w.blobs (to_blobs h))
  step-IsOwnedObjects (makes_launcher c l) h = (h.0, λ k. omega (arith, h.1 k))
  step-IsOwnedObjects (moves_launcher i) h =
      from_launchers _ (
        move_at-IsOwned launcher_owner (outside_launchers w) i w.memory w.launchers
          (to_launchers h))
  step-IsOwnedObjects (ends_launcher i) h = from_launchers _ (
      destroy_at-IsOwned launcher_owner (outside_launchers w) i w.memory w.launchers
        (to_launchers h))
  step-IsOwnedObjects (assigns_launcher i j) h = from_launchers _ (
      assign_at-IsOwned launcher_owner (outside_launchers w) i j w.memory w.launchers
        (to_launchers h))

-- Where each resource has as many owners as it is live and nothing was given back twice, the same
-- holds after any program: no buffer, blob or launcher frees, unmaps or unloads what is not live.
pub steps-IsOwnedObjects :
    (program : List Statement) (w : Objects) → IsOwnedObjects w → IsOwnedObjects (steps program w)
unfolding steps
steps-IsOwnedObjects [] w h = h
steps-IsOwnedObjects (s ∷ program) w h =
    steps-IsOwnedObjects program (step s w) (step-IsOwnedObjects w s h)

only_empty : (live : List Resource) → ((k : Resource) → count same k live ≡ 0) → live ≡ []
unfolding count
only_empty [] h = refl
only_empty (r ∷ rs) h = grind (arith, h r, same-IsEqualityTest.1 r)

-- A program that starts from such a state and ends every object, its caller freeing what it
-- released, leaks nothing.
pub steps_leak_nothing :
    (program : List Statement) (w : Objects)
    → IsOwnedObjects w
    → (steps program w).buffers ≡ []
    → (steps program w).blobs ≡ []
    → (steps program w).launchers ≡ []
    → (steps program w).released ≡ []
    → ((steps program w).memory.live ≡ []) × ((steps program w).memory.faults ≡ 0)
unfolding total count
steps_leak_nothing program w h b c l r =
    let (f, live) = steps-IsOwnedObjects program w h in
    (only_empty _ (λ k. live k ∙ grind (arith, b, c, l, r)), f)
