-- ===== src/Tests/GpuRuns.antt =====
-- Loads, launches, owners and the driver libraries on small data.
use librtcx.Prelude.{
  ◌≡◌, refl, List, [], ◌∷◌, true, false, some, none, ok, raise, logic_error, codes, if◌then◌else◌,
  text_eq, to_string, digits_from,
}
use librtcx.Prelude.Counting.{removed, count}
use librtcx.Kernels.{
  Dim3, is_valid, Gpu, launch, launch_cooperative, load_library, load_library_from_file,
}
use librtcx.Kernels.Launches.{launch-guarded}
use librtcx.Kernels.Loads.{IsLoadEnd, load_library_ends}
use librtcx.Owners.{allocation, free, give_back}
use librtcx.Owners.Slots.{total, at, replaced, taken_out, move_at, assign_at, destroy_at}
use librtcx.Owners.Instances.{buffer_owner, blob_owner}
use librtcx.Owners.Buffers
use librtcx.Owners.Blobs
use librtcx.Owners.Programs.{
  Objects, Statement, steps, step, buffer_made, release_buffer, make_blob, makes_buffer,
  moves_buffer, assigns_buffer, blob_from_buffer, moves_blob, ends_blob, ends_buffer,
}
use librtcx.Owners.Ownership.{IsOwnedObjects, steps-IsOwnedObjects}
use librtcx.Lifecycle.{
  Environment, Process, fresh, done, initialize, teardown, load_libraries, load_nvrtc,
  load_nvjitlink, load_cuda, load_versioned, load_dso, load_symbols, check_version,
  construct_library, emplace_cu, emplace_nvrtc, emplace_nvjitlink, destroy, reset_libraries, resets,
}
use librtcx.Lifecycle.Handles.{held, IsAccounted}
use librtcx.Lifecycle.Calls.{initializes, tears_down, run, run-IsAccounted}
use librtcx.Lifecycle.Cycles.{AreUndone, teardown-initialize}

abbrev one : Dim3
one = record { x = 1; y = 1; z = 1 }

abbrev flat : Dim3
flat = record { x = 1; y = 0; z = 1 }

abbrev gpu : Gpu
gpu = record { launches = []; libraries = [] }

launch-guarded_example :
    (launch 5 flat one 0 0 (some 9) 0 gpu ≡ (gpu, raise logic_error))
    × (launch_cooperative 5 flat one 0 0 (some 9) 0 gpu ≡ (gpu, raise logic_error))
unfolding is_valid
launch-guarded_example = launch-guarded 5 flat one 0 0 (some 9) 0 gpu

load_library_ends_example :
    IsLoadEnd 0 gpu (load_library (some 4) false 0 gpu)
    × IsLoadEnd 0 gpu (load_library_from_file true (some 4) false 0 gpu)
load_library_ends_example = load_library_ends true (some 4) false 0 gpu

abbrev nothing : Objects
nothing = record {
  memory = record { live = []; faults = 0 };
  buffers = [];
  blobs = [];
  launchers = [];
  released = [];
}

nothing-IsOwnedObjects : IsOwnedObjects nothing
unfolding count total
nothing-IsOwnedObjects = (refl, λ k. refl)

-- A buffer is made and moved, the first assigned another one, and one of them made a blob.
abbrev statements : List Statement
statements =
    makes_buffer (some 8) 3
    ∷ moves_buffer 0
    ∷ makes_buffer (some 16) 1
    ∷ assigns_buffer 1 0
    ∷ assigns_buffer 1 1
    ∷ blob_from_buffer 1
    ∷ moves_blob 0
    ∷ ends_blob 1
    ∷ ends_buffer 0
    ∷ []

steps-IsOwnedObjects_example : IsOwnedObjects (steps statements nothing)
steps-IsOwnedObjects_example = steps-IsOwnedObjects statements nothing nothing-IsOwnedObjects

abbrev environment : Environment
environment = record {
  dlopen = λ name. some (if text_eq name (codes "libcuda.so.1") then 1 else 2);
  dlsym = λ h name. true;
  runtime_version = some 12080;
  init = 0;
  cuda_version = 12090;
  static_nvrtc = false;
  static_nvjitlink = false;
  marks = true;
}

abbrev unloaded : Process
unloaded = record {
  open_handles = [];
  cu = none;
  nvrtc = none;
  nvjitlink = none;
  init_libraries_flag = fresh;
  teardown_libraries_flag = fresh;
}

unloaded-IsAccounted : IsAccounted unloaded
unfolding count held
unloaded-IsAccounted k = refl

run-IsAccounted_example :
    IsAccounted
      (run environment (initializes ∷ tears_down ∷ initializes ∷ tears_down ∷ []) unloaded)
run-IsAccounted_example =
    run-IsAccounted environment (λ h name. refl)
      (initializes ∷ tears_down ∷ initializes ∷ tears_down ∷ []) unloaded unloaded-IsAccounted

initialize_returns : (initialize environment unloaded).1 ≡ ok tt
unfolding initialize load_libraries load_cuda load_nvrtc load_nvjitlink load_versioned load_dso
    load_symbols check_version construct_library emplace_cu emplace_nvrtc emplace_nvjitlink destroy
    text_eq to_string digits_from
initialize_returns = refl

teardown-initialize_example :
    AreUndone [] (initialize environment unloaded).0
    × (teardown environment (initialize environment unloaded).0
        ≡ record unloaded { teardown_libraries_flag = done })
teardown-initialize_example =
    teardown-initialize environment [] unloaded (refl, refl, refl, refl, refl, refl)
      initialize_returns

-- With the flag marked, the second teardown closes nothing.
loaded_twice :
    (run environment (initializes ∷ tears_down ∷ initializes ∷ tears_down ∷ []) unloaded).cu
    ≡ some (some 1)
unfolding run initialize teardown reset_libraries resets load_libraries load_cuda load_nvrtc
    load_nvjitlink load_versioned load_dso load_symbols check_version construct_library emplace_cu
    emplace_nvrtc emplace_nvjitlink destroy text_eq to_string digits_from removed
loaded_twice = refl

last_one_lives :
    (steps statements nothing).memory ≡ record { live = allocation 16 ∷ []; faults = 0 }
unfolding steps step buffer_made release_buffer make_blob move_at assign_at destroy_at at replaced
    taken_out Buffers.make Buffers.moved Buffers.assigned Buffers.destroyed Blobs.from_buffer
    Blobs.moved Blobs.destroyed Blobs.deallocate buffer_owner blob_owner free give_back removed
    count
last_one_lives = refl
