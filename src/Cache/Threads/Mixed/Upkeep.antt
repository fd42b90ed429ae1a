-- ===== src/Cache/Threads/Mixed/Upkeep.antt =====
-- The operations that are no requests keep the owners of the futures.
use librtcx.Prelude.{◌≡◌, refl, false, Outcome, ok, raise, abort, arith, Ensures, Bytes}
use librtcx.Hash.{Hash128}
use librtcx.Lru.{StdSort}
use librtcx.Disk.{ObjectType}
use librtcx.Cache.{
  Future, System, clear_memory_store, clear_disk_store, clear_stats, enable, zero_stats,
}
use librtcx.Cache.Preload.{preload_from_disk}
use librtcx.Cache.Libraries.{Holds}
use librtcx.Cache.Histories.{
  Operation, get_blob, get_library, clear_memory, reset_stats, clear_disk, set_enabled,
  load_directory, in_directory, opened, perform, system_after,
}
use librtcx.Cache.Histories.Remembering.{
  cleared_disk-promises, IsRemembering, clear_memory_store-IsRemembering, changed-IsRemembering,
  cleared_disk-IsRemembering,
}
use librtcx.Cache.Histories.Entries.{Follows, Follows-refl}
use librtcx.Cache.Histories.Preloads.{preload_from_disk-Follows}
use librtcx.Cache.Histories.Invariant.{IsHonest}
use librtcx.Cache.Histories.{is_request}

module _ (want : ObjectType → Hash128 → Bytes) (holds : Holds) {bo lo : Future → Hash128} where
  same_futures-Follows :
      (s t : System)
      → t.blob_promises ≡ s.blob_promises
      → t.library_promises ≡ s.library_promises
      → IsRemembering want holds bo lo t
      → Follows want holds bo lo s t
  same_futures-Follows s t b l r =
      (bo, lo, r, λ f lt. refl, λ f lt. refl, rw b (omega arith), rw l (omega arith))

  after-Follows :
      (s : System) (end : Outcome System)
      → IsRemembering want holds bo lo s
      → Ensures (Follows want holds bo lo s) end
      → Follows want holds bo lo s (system_after s end)
  after-Follows s (ok t) r f = f
  after-Follows s (raise e) r f = Follows-refl want holds r
  after-Follows s abort r f = Follows-refl want holds r

  pub perform-Follows :
      (std : StdSort) (call : Operation) (s : System)
      → is_request call ≡ false
      → IsHonest want holds call
      → IsRemembering want holds bo lo s
      → Follows want holds bo lo s (perform std call (opened s)).system
  unfolding perform is_request clear_memory_store clear_stats enable
  perform-Follows std (get_blob faults compiled answers hash) s other honest r =
      absurd (ground arith)
  perform-Follows std (get_library load compiled answers hash) s other honest r =
      absurd (ground arith)
  perform-Follows std clear_memory s other honest r =
      same_futures-Follows s (clear_memory_store s) refl refl
        (clear_memory_store-IsRemembering want holds r)
  perform-Follows std reset_stats s other honest r =
      same_futures-Follows s (clear_stats s) refl refl
        (changed-IsRemembering want holds r s.files zero_stats s.enabled (λ type kept. kept))
  perform-Follows std (clear_disk throws listing) s other honest r =
      let (b, l) = cleared_disk-promises throws listing s in
      same_futures-Follows s (system_after s (clear_disk_store throws listing s)) b l
        (cleared_disk-IsRemembering want holds r throws listing)
  perform-Follows std (set_enabled on) s other honest r =
      same_futures-Follows s (enable on s) refl refl
        (changed-IsRemembering want holds r s.files s.counter on (λ type kept. kept))
  perform-Follows std (load_directory faults load listing) s other (objects, loads) r =
      after-Follows s
        (preload_from_disk std faults (load s.files) (in_directory s.cache_dir listing) s) r
        (preload_from_disk-Follows want holds std faults (load s.files) listing s bo lo objects
          (loads s.files) r)
