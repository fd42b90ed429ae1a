-- ===== src/Kernels/Launches.antt =====
-- What a launch asks of the driver, and when it is refused.
use librtcx.Prelude.{
  ℕ, zero, suc, ◌*◌, ltb, ◌≡◌, refl, ◌∷◌, Bool, true, false, Option, Outcome, raise, runtime_error,
  logic_error, if◌then◌else◌, ◌==◌, ◌&&◌, arith, expects,
}
use native.Mathlib.Nat.{mul-suc, zero-mul}
use librtcx.Kernels.{
  Dim3, is_valid, LaunchCall, Gpu, is_set, launched, launch, launch_cooperative, call,
  call_cooperative,
}

-- The launch with a kernel's arguments.
abbrev pub asked : ℕ → Dim3 → Dim3 → ℕ → ℕ → Option ℕ → Bool → LaunchCall
asked handle grid block shared stream params cooperative = record {
  kernel = handle;
  grid = grid;
  block = block;
  shared_mem_bytes = shared;
  stream = stream;
  kernel_params = params;
  cooperative = cooperative;
}

product-positive : (x y : ℕ) → ltb 0 (x * y) ≡ (ltb 0 x && ltb 0 y)
product-positive zero y = ground (arith, zero-mul y)
product-positive (suc x) zero = ground arith
product-positive (suc x) (suc y) = ground (arith, mul-suc (suc x) y)

-- No dimension is zero exactly where the product of the three is positive.
is_valid-product : (d : Dim3) → is_valid d ≡ ltb 0 (d.x * d.y * d.z)
unfolding is_valid
is_valid-product d = rw (product-positive (d.x * d.y) d.z, product-positive d.x d.y) (ground arith)

module _ (handle : ℕ) (grid block : Dim3) (shared stream : ℕ) (params : Option ℕ) (result : ℕ)
    (s : Gpu) where
  abbrev pub guarded : Bool → Gpu × Outcome (Unit {0})
  guarded cooperative =
      if ltb 0 (grid.x * grid.y * grid.z) && (ltb 0 (block.x * block.y * block.z) && is_set params)
      then (
        record s {
          launches = asked handle grid block shared stream params cooperative ∷ s.launches;
        },
        expects (result == 0) runtime_error,
      )
      else (s, raise logic_error)

  -- `launch` and `launch_cooperative` ask the driver for one launch, with their arguments, and throw
  -- `std::runtime_error` if it fails, where the product of the grid's dimensions and that of the
  -- block's are positive and the parameters are not null; else they ask for nothing and throw
  -- `std::logic_error`.
  pub launch-guarded :
      (launch handle grid block shared stream params result s ≡ guarded false)
      × (launch_cooperative handle grid block shared stream params result s ≡ guarded true)
  unfolding launch launch_cooperative launched
  launch-guarded =
      rw (← is_valid-product grid, ← is_valid-product block) (ground arith, ground arith)

  -- On such arguments a launcher's `call` and `call_cooperative` do what `launch` and
  -- `launch_cooperative` do on its kernel.
  pub call-launch :
      is_valid grid ≡ true
      → is_valid block ≡ true
      → is_set params ≡ true
      → (call handle stream grid block shared params result s
          ≡ launch handle grid block shared stream params result s)
        × (call_cooperative handle stream grid block shared params result s
            ≡ launch_cooperative handle grid block shared stream params result s)
  unfolding call call_cooperative launch launch_cooperative launched
  call-launch g b p = rw (g, b, p) (refl, refl)
