-- ===== src/Cache/Histories/Relations.antt =====
-- Relations between systems that an operation respects if preloading a file does.
use librtcx.Prelude.{
  ℕ, ◌≡◌, refl, List, [], ◌∷◌, Bool, true, false, Option, Outcome, ok, raise, abort, Bytes,
  if◌then◌else◌, codes, arith, inl, inr, ◌>>=◌, Ensures, Ensures-bind, Ensures_elim,
  Ensures-weakened, Outcome-cases, ends_with, take, length,
}
use librtcx.Hash.{Hash128}
use librtcx.Lru.{StdSort}
use librtcx.Disk.{ReadFaults, LoadResult, path_hash, from_file, get_disk_library, get_disk_entries}
use librtcx.Cache.{System, incr, clear_memory_store, clear_disk_store, clear_stats, enable}
use librtcx.Cache.Preload.{
  load_count, add_blob, add_library, preload_entry, preload_entries, preload_from_disk,
}
use librtcx.Cache.Histories.{
  Operation, get_blob, get_library, clear_memory, reset_stats, clear_disk, set_enabled,
  load_directory, in_directory, History, system_after, perform,
}
use librtcx.Cache.Histories.{is_request}
use librtcx.Cache.Histories.Remembering.{cleared_disk-promises}

-- A relation that looks at the promises only, and that a preloaded file respects.
pub record IsPromiseRelation (std : StdSort) (R : System → System → Type 0) : Type 0 where
  pub same :
      (s t : System)
      → t.blob_promises ≡ s.blob_promises
      → t.library_promises ≡ s.library_promises
      → R s t
  pub transitive : (s t u : System) → R s t → R t u → R s u
  pub adds_blob :
      (s : System) (hash : Hash128) (disk : Option Bytes) → R s (add_blob std s hash disk)
  pub adds_library :
      (s : System) (hash : Hash128) (disk : Option ℕ) → R s (add_library std s hash disk)

module _ (std : StdSort) (R : System → System → Type 0) (p : IsPromiseRelation std R) where
  preload_entry-IsPromiseRelation :
      (faults : Bytes → ReadFaults) (load : Bytes → LoadResult) (s : System) (path : Bytes)
      → Ensures (R s) (preload_entry std faults load s path)
  unfolding preload_entry
  preload_entry-IsPromiseRelation faults load s path =
      Ensures-bind (R s) (path_hash path) _ (λ hash e.
        elim (ends_with path (codes ".blob.bin"))
          as (λ b. Ensures (R s) (
            if b
            then (from_file (faults path) s.files path >>= λ disk. ok (add_blob std s hash disk))
            else if ends_with path (codes ".cuLibrary.bin")
            then (get_disk_library load s.files s.cache_dir hash >>= λ disk.
                ok (add_library std s hash disk))
            else ok s)) [
              | true ↦
                  Ensures-bind (R s) (from_file (faults path) s.files path) _
                    (λ disk e. p.adds_blob s hash disk)
              | false ↦
                  elim (ends_with path (codes ".cuLibrary.bin"))
                    as (λ b. Ensures (R s) (
                      if b
                      then (get_disk_library load s.files s.cache_dir hash >>= λ disk.
                          ok (add_library std s hash disk))
                      else ok s)) [
                        | true ↦
                            Ensures-bind (R s) (get_disk_library load s.files s.cache_dir hash) _
                              (λ disk e. p.adds_library s hash disk)
                        | false ↦ p.same s s refl refl
                      ]
            ])

  preload_entries-IsPromiseRelation :
      (faults : Bytes → ReadFaults) (load : Bytes → LoadResult) (s : System) (entries : List Bytes)
      → Ensures (R s) (preload_entries std faults load s entries)
  unfolding preload_entries
  preload_entries-IsPromiseRelation faults load s [] = p.same s s refl refl
  preload_entries-IsPromiseRelation faults load s (path ∷ entries) =
      elim (Outcome-cases (preload_entry std faults load s path)) [
        | inl (t, e) ↦
            rw (e, preload_entries)
              (Ensures-weakened (R t) (R s) (preload_entries std faults load t entries)
                (λ u.
                  p.transitive s t u
                    (Ensures_elim (R s) _ t (preload_entry-IsPromiseRelation faults load s path) e))
                (preload_entries-IsPromiseRelation faults load t entries))
        | inr (inl (x, e)) ↦
            rw (e, preload_entries) (preload_entries-IsPromiseRelation faults load s entries)
        | inr (inr e) ↦ rw (e, preload_entries) tt
      ]

  -- What a call that works on the whole system leaves.
  after-IsPromiseRelation :
      (s : System) (end : Outcome System) → Ensures (R s) end → R s (system_after s end)
  after-IsPromiseRelation s (ok t) k = k
  after-IsPromiseRelation s (raise e) k = p.same s s refl refl
  after-IsPromiseRelation s abort k = p.same s s refl refl

  preload_from_disk-IsPromiseRelation :
      (faults : Bytes → ReadFaults) (load : Bytes → LoadResult)
      (listing : Outcome (List (Bytes × Bool))) (s : System)
      → Ensures (R s) (preload_from_disk std faults load listing s)
  unfolding preload_from_disk
  preload_from_disk-IsPromiseRelation faults load listing s =
      Ensures-bind (R s) listing _ (λ found e.
        let entries = get_disk_entries found in
        let s' : System = record s { tick = incr s.tick } in
        let picked = take (load_count s.limits (length entries)) entries in
        Ensures-weakened (R s') (R s) (preload_entries std faults load s' picked)
          (λ t. p.transitive s s' t (p.same s s' refl refl))
          (preload_entries-IsPromiseRelation faults load s' picked))

  -- The operations that are no requests respect the relation.
  pub perform-IsPromiseRelation :
      (call : Operation) (h : History)
      → is_request call ≡ false
      → R h.system (perform std call h).system
  unfolding perform is_request clear_memory_store clear_stats clear_disk_store enable
  perform-IsPromiseRelation (get_blob faults compiled answers hash) h other = absurd (ground arith)
  perform-IsPromiseRelation (get_library load compiled answers hash) h other = absurd (ground arith)
  perform-IsPromiseRelation clear_memory h other =
      p.same h.system (clear_memory_store h.system) refl refl
  perform-IsPromiseRelation reset_stats h other = p.same h.system (clear_stats h.system) refl refl
  perform-IsPromiseRelation (clear_disk throws listing) h other =
      let (b, l) = cleared_disk-promises throws listing h.system in
      p.same h.system (system_after h.system (clear_disk_store throws listing h.system)) b l
  perform-IsPromiseRelation (set_enabled on) h other =
      p.same h.system (enable on h.system) refl refl
  perform-IsPromiseRelation (load_directory faults load listing) h other =
      let s = h.system in
      after-IsPromiseRelation s _ (
        preload_from_disk-IsPromiseRelation faults (load s.files) (in_directory s.cache_dir listing)
          s)
