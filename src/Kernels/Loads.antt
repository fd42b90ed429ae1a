-- ===== src/Kernels/Loads.antt =====
-- Loading a library leaves it loaded or leaves nothing behind.
use librtcx.Prelude.{
  ℕ, ◌≡◌, ◌≢◌, refl, ◌∷◌, Bool, true, false, Option, none, some, Outcome, ok, raise, abort, ◌==◌,
  arith, Bool-cases, ==_iff, inl, inr,
}
use librtcx.Prelude.Counting.{removed}
use librtcx.Kernels.{
  Gpu, load_data, share, load_library, load_library_from_file, end_library, unloaded,
}

-- The end of a load: a library that its destructor unloads again, an exception that leaves the
-- state, or the end of the process, where the unloading of a library that could not be shared failed.
abbrev pub IsLoadEnd : ℕ → Gpu → Gpu × Outcome ℕ → Type 0
IsLoadEnd unload_result s (t, ok h) = (t.libraries ≡ h ∷ s.libraries) × (end_library (some h) t ≡ s)
IsLoadEnd unload_result s (t, raise e) = t ≡ s
IsLoadEnd unload_result s (t, abort) = unload_result ≢ 0

unloaded_again : (h : ℕ) (s : Gpu) → unloaded h (record s { libraries = h ∷ s.libraries }) ≡ s
unfolding removed
unloaded_again h s = rw ((==_iff h h).1 refl) refl

share_ends :
    (allocates : Bool) (unload_result h : ℕ) (s : Gpu)
    → IsLoadEnd unload_result s
        (share allocates unload_result h (record s { libraries = h ∷ s.libraries }))
unfolding share end_library
share_ends true u h s = (refl, unloaded_again h s)
share_ends false u h s = elim (Bool-cases (u == 0)) [
  | inl e ↦ rw (share, e) (unloaded_again h s)
  | inr n ↦ rw (share, n) (λ e. ground arith)
]

-- `load_library`, and `load_library_from_file` of a path or null, return a library that was loaded
-- and that its destructor unloads again, or throw with no library left loaded, or end the process,
-- which happens only if the driver fails to unload.
pub load_library_ends :
    (has_path : Bool) (answer : Option ℕ) (allocates : Bool) (unload_result : ℕ) (s : Gpu)
    → IsLoadEnd unload_result s (load_library answer allocates unload_result s)
      × IsLoadEnd unload_result s (load_library_from_file has_path answer allocates unload_result s)
unfolding load_library load_library_from_file load_data
load_library_ends true none a u s = (refl, refl)
load_library_ends false none a u s = (refl, refl)
load_library_ends true (some h) a u s = (share_ends a u h s, share_ends a u h s)
load_library_ends false (some h) a u s = (share_ends a u h s, refl)
