-- ===== src/Kernels.antt =====
-- Libraries, kernels and launches: `load_library`, `load_library_from_file`, `library_t` and
-- `kernel_ref` of src/rtcx.cpp, and the calls of src/algorithm_launcher.cpp.
-- What the driver and the runtime answer is an argument: the result of a call, 0 for success.
pub mod Launches
pub mod Loads
use librtcx.Prelude.{
  ℕ, ◌+◌, ◌-◌, ◌*◌, ◌%◌, ◌^◌, List, [], ◌∷◌, Bool, true, false, Option, none, some, Outcome, ok,
  raise, abort, runtime_error, logic_error, bad_alloc, if◌then◌else◌, ◌==◌, ltb, ◌&&◌, not,
}
use librtcx.Prelude.Actions.{Act, pure, fail, ◌>>=◌, ◌>>◌, require}
use librtcx.Prelude.Counting.{removed}

-- `cuda_dim3`.
pub record Dim3 : Type 0 where
  pub x : ℕ
  pub y : ℕ
  pub z : ℕ

-- `is_valid`.
unfoldable pub is_valid : Dim3 → Bool
is_valid d = ltb 0 d.x && (ltb 0 d.y && ltb 0 d.z)

-- A launch as the driver is asked for it.
pub record LaunchCall : Type 0 where
  pub kernel : ℕ
  pub grid : Dim3
  pub block : Dim3
  pub shared_mem_bytes : ℕ
  pub stream : ℕ
  pub kernel_params : Option ℕ
  pub cooperative : Bool

-- The launches asked for, and the libraries that are loaded.
pub record Gpu : Type 0 where
  pub launches : List LaunchCall
  pub libraries : List ℕ

abbrev pub is_set : Option ℕ → Bool
is_set none = false
is_set (some p) = true

-- RTCX_CHECK_CUDA around the driver's launch.
unfoldable pub launched : LaunchCall → ℕ → Act Gpu (Unit {0})
launched call result s =
    require (result == 0) runtime_error (record s { launches = call ∷ s.launches })

-- `kernel_ref::launch` and `launch_cooperative` of the kernel, over the result of the driver.
unfoldable pub launch : ℕ → Dim3 → Dim3 → ℕ → ℕ → Option ℕ → ℕ → Act Gpu (Unit {0})
unfolding is_valid launched
launch handle grid_dim block_dim shared_mem_bytes stream kernel_params result = do
  require (is_valid grid_dim) logic_error
  require (is_valid block_dim) logic_error
  require (is_set kernel_params) logic_error
  launched
      (record {
        kernel = handle;
        grid = grid_dim;
        block = block_dim;
        shared_mem_bytes = shared_mem_bytes;
        stream = stream;
        kernel_params = kernel_params;
        cooperative = false;
      })
      result

unfoldable pub launch_cooperative : ℕ → Dim3 → Dim3 → ℕ → ℕ → Option ℕ → ℕ → Act Gpu (Unit {0})
unfolding is_valid launched
launch_cooperative handle grid_dim block_dim shared_mem_bytes stream kernel_params result = do
  require (is_valid grid_dim) logic_error
  require (is_valid block_dim) logic_error
  require (is_set kernel_params) logic_error
  launched
      (record {
        kernel = handle;
        grid = grid_dim;
        block = block_dim;
        shared_mem_bytes = shared_mem_bytes;
        stream = stream;
        kernel_params = kernel_params;
        cooperative = true;
      })
      result

-- `algorithm_launcher::call` and `call_cooperative`: the runtime checks the arguments.
unfoldable pub call : ℕ → ℕ → Dim3 → Dim3 → ℕ → Option ℕ → ℕ → Act Gpu (Unit {0})
unfolding launched
call handle stream grid block shared_mem kernel_args result =
    launched
      (record {
        kernel = handle;
        grid = grid;
        block = block;
        shared_mem_bytes = shared_mem;
        stream = stream;
        kernel_params = kernel_args;
        cooperative = false;
      })
      result

unfoldable pub call_cooperative : ℕ → ℕ → Dim3 → Dim3 → ℕ → Option ℕ → ℕ → Act Gpu (Unit {0})
unfolding launched
call_cooperative handle stream grid block shared_mem kernel_args result =
    launched
      (record {
        kernel = handle;
        grid = grid;
        block = block;
        shared_mem_bytes = shared_mem;
        stream = stream;
        kernel_params = kernel_args;
        cooperative = true;
      })
      result

-- `static_cast<std::uint32_t>` of an `std::int32_t` with a sign and a magnitude.
unfoldable pub to_unsigned : Bool → ℕ → ℕ
to_unsigned is_negative n = if is_negative then (2 ^ 32 - n) % 2 ^ 32 else n

-- `max_occupancy_config`, over the result and the two numbers that the driver gives.
unfoldable pub max_occupancy_config : ℕ → Bool × ℕ → Bool × ℕ → Act Gpu (ℕ × ℕ)
unfolding to_unsigned
max_occupancy_config result (grid_sign, min_grid_size) (block_sign, block_size) =
    require (result == 0) runtime_error
    >> pure (to_unsigned grid_sign min_grid_size, to_unsigned block_sign block_size)

-- A library is loaded: `LibraryLoadData` and `LibraryLoadFromFile` answer a handle, or an error.
unfoldable pub load_data : Option ℕ → Act Gpu ℕ
load_data none s = (s, raise runtime_error)
load_data (some h) s = (record s { libraries = h ∷ s.libraries }, ok h)

abbrev pub unloaded : ℕ → Gpu → Gpu
unloaded h s = record s { libraries = removed (◌==◌) h s.libraries }

-- `std::make_shared<library_t>(handle)` with the RTCX_DEFER before it: where it throws, the handle is
-- still set and is unloaded; an error of that leaves a destructor.
unfoldable pub share : Bool → ℕ → ℕ → Act Gpu ℕ
share allocates unload_result h s =
    if allocates
    then (s, ok h)
    else if unload_result == 0
    then (unloaded h s, raise bad_alloc)
    else (s, abort)

-- `load_library`.
unfoldable pub load_library : Option ℕ → Bool → ℕ → Act Gpu ℕ
unfolding load_data share
load_library answer allocates unload_result = do
  h ← load_data answer
  share allocates unload_result h

-- `load_library_from_file`, of a path or null.
unfoldable pub load_library_from_file : Bool → Option ℕ → Bool → ℕ → Act Gpu ℕ
unfolding load_data share
load_library_from_file has_path answer allocates unload_result = do
  require has_path logic_error
  h ← load_data answer
  share allocates unload_result h

-- `library_t::~library_t`; its result is not read.
unfoldable pub end_library : Option ℕ → Gpu → Gpu
end_library none s = s
end_library (some h) s = unloaded h s

-- `library_t::get_kernel`.
unfoldable pub get_kernel : Option ℕ → Act Gpu ℕ
get_kernel none s = (s, raise runtime_error)
get_kernel (some kernel) s = (s, ok kernel)

-- `nvrtc_version` and `nvjitlink_version`, over the result and the two numbers of the library.
unfoldable pub version : ℕ → ℕ → ℕ → Act Gpu ℕ
version result major minor = require (result == 0) runtime_error >> pure (major * 1000 + minor * 10)
