-- ===== src/Owners/Instances.antt =====
-- The three types as owners: what each owns, and that its operations move and give back just that.
use librtcx.Prelude.{ℕ, ◌≡◌, refl, Option, none, some}
use librtcx.Owners.{
  Resource, allocation, mapping, cuda_library, Memory, give_back, free, Buffer, Blob, Launcher,
  Deallocator, noop_deallocator, frees, unmaps,
}
use librtcx.Owners.Slots.{Owner, let_go}
use librtcx.Owners.Buffers
use librtcx.Owners.Blobs
use librtcx.Owners.Launchers

abbrev pub allocated : Option ℕ → Option Resource
allocated none = none
allocated (some p) = some (allocation p)

abbrev pub loaded : Option ℕ → Option Resource
loaded none = none
loaded (some h) = some (cuda_library h)

abbrev pub freed_by : Deallocator → Option ℕ → Option Resource
freed_by noop_deallocator p = none
freed_by frees p = allocated p
freed_by unmaps none = none
freed_by unmaps (some p) = some (mapping p)

pub free_lets_go : (p : Option ℕ) (m : Memory) → free p m ≡ let_go (allocated p) m
unfolding free let_go
free_lets_go none m = refl
free_lets_go (some p) m = refl

pub deallocate_lets_go :
    (d : Deallocator) (p : Option ℕ) (size : ℕ) (m : Memory)
    → Blobs.deallocate d p size m ≡ let_go (freed_by d p) m
unfolding Blobs.deallocate let_go
deallocate_lets_go noop_deallocator p size m = refl
deallocate_lets_go frees p size m = free_lets_go p m
deallocate_lets_go unmaps none size m = refl
deallocate_lets_go unmaps (some p) size m = refl

pub unload_lets_go :
    (h : Option ℕ) (m : Memory)
    → elim h as (λ _. Memory) [ none ↦ m | some h ↦ give_back (cuda_library h) m ]
      ≡ let_go (loaded h) m
unfolding let_go
unload_lets_go none m = refl
unload_lets_go (some h) m = refl

unfoldable pub buffer_owner : Owner Buffer
unfolding Buffers.moved Buffers.assigned Buffers.destroyed
buffer_owner = record {
  owned = λ b. allocated b.data_;
  moved = Buffers.moved;
  assigned = Buffers.assigned;
  destroyed = Buffers.destroyed;
  moved_new = λ _. refl;
  moved_old = λ _. refl;
  assigned_new = λ _ _ _. refl;
  assigned_old = λ _ _ _. refl;
  assigned_memory = λ x _ m. free_lets_go x.data_ m;
  destroyed_lets_go = λ x m. free_lets_go x.data_ m;
}

unfoldable pub blob_owner : Owner Blob
unfolding Blobs.moved Blobs.assigned Blobs.destroyed
blob_owner = record {
  owned = λ b. freed_by b.deallocator_ b.data_;
  moved = Blobs.moved;
  assigned = Blobs.assigned;
  destroyed = Blobs.destroyed;
  moved_new = λ _. refl;
  moved_old = λ _. refl;
  assigned_new = λ _ _ _. refl;
  assigned_old = λ _ _ _. refl;
  assigned_memory = λ x _ m. deallocate_lets_go x.deallocator_ x.data_ x.size_ m;
  destroyed_lets_go = λ x m. deallocate_lets_go x.deallocator_ x.data_ x.size_ m;
}

unfoldable pub launcher_owner : Owner Launcher
unfolding Launchers.moved Launchers.assigned Launchers.destroyed
launcher_owner = record {
  owned = λ l. loaded l.library;
  moved = Launchers.moved;
  assigned = Launchers.assigned;
  destroyed = Launchers.destroyed;
  moved_new = λ _. refl;
  moved_old = λ _. refl;
  assigned_new = λ _ _ _. refl;
  assigned_old = λ _ _ _. refl;
  assigned_memory = λ x _ m. unload_lets_go x.library m;
  destroyed_lets_go = λ x m. unload_lets_go x.library m;
}
