-- ===== src/Lifecycle.antt =====
-- The driver libraries of src/rtcx.cpp: `load_dso`, `get_dso_symbol`, `LibCuda`, `LibNVRTC` and
-- `LibNVJitLink`, and `initialize` and `teardown` over them.
-- What the dynamic linker and the CUDA libraries answer is an argument.
pub mod Cycles
pub mod Handles
pub mod Calls
pub mod Loading
use librtcx.Prelude.{
  ℕ, ◌+◌, ◌/◌, List, [], ◌∷◌, ◌++◌, map, Bool, true, false, Option, none, some, Outcome, ok, raise,
  abort, runtime_error, Bytes, codes, if◌then◌else◌, ◌==◌, to_string,
}
use librtcx.Prelude.Counting.{removed}
use librtcx.Prelude.Actions.{Act, pure, fail, ◌>>=◌, ◌>>◌, require}

-- FOR_EACH_CUDA_FUNC, FOR_EACH_NVRTC_FUNC and FOR_EACH_NVJITLINK_FUNC, with the prefixes.
abbrev pub cuda_funcs : List Bytes
cuda_funcs =
    codes "cuGetErrorString"
    ∷ codes "cuGetErrorName"
    ∷ codes "cuInit"
    ∷ codes "cuOccupancyMaxPotentialBlockSize"
    ∷ codes "cuLaunchKernel"
    ∷ codes "cuLaunchKernelEx"
    ∷ codes "cuLaunchCooperativeKernel"
    ∷ codes "cuKernelGetFunction"
    ∷ codes "cuLibraryLoadData"
    ∷ codes "cuLibraryLoadFromFile"
    ∷ codes "cuLibraryGetKernel"
    ∷ codes "cuLibraryUnload"
    ∷ []

abbrev pub nvrtc_funcs : List Bytes
nvrtc_funcs =
    codes "nvrtcVersion"
    ∷ codes "nvrtcGetErrorString"
    ∷ codes "nvrtcCreateProgram"
    ∷ codes "nvrtcDestroyProgram"
    ∷ codes "nvrtcCompileProgram"
    ∷ codes "nvrtcGetPTXSize"
    ∷ codes "nvrtcGetPTX"
    ∷ codes "nvrtcGetCUBINSize"
    ∷ codes "nvrtcGetCUBIN"
    ∷ codes "nvrtcGetLTOIRSize"
    ∷ codes "nvrtcGetLTOIR"
    ∷ codes "nvrtcGetProgramLogSize"
    ∷ codes "nvrtcGetProgramLog"
    ∷ codes "nvrtcAddNameExpression"
    ∷ codes "nvrtcGetLoweredName"
    ∷ []

abbrev pub nvjitlink_funcs : List Bytes
nvjitlink_funcs =
    codes "nvJitLinkVersion"
    ∷ codes "nvJitLinkCreate"
    ∷ codes "nvJitLinkDestroy"
    ∷ codes "nvJitLinkAddData"
    ∷ codes "nvJitLinkAddFile"
    ∷ codes "nvJitLinkComplete"
    ∷ codes "nvJitLinkGetLinkedCubinSize"
    ∷ codes "nvJitLinkGetLinkedCubin"
    ∷ codes "nvJitLinkGetLinkedPtxSize"
    ∷ codes "nvJitLinkGetLinkedPtx"
    ∷ codes "nvJitLinkGetErrorLogSize"
    ∷ codes "nvJitLinkGetErrorLog"
    ∷ codes "nvJitLinkGetInfoLog"
    ∷ codes "nvJitLinkGetInfoLogSize"
    ∷ []

-- What `dlopen`, `dlsym`, `cudaRuntimeGetVersion` and `cuInit` answer, and how the program was
-- built: CUDA_VERSION, and which libraries are linked statically.
pub record Environment : Type 0 where
  pub dlopen : Bytes → Option ℕ
  pub dlsym : ℕ → Bytes → Bool
  pub runtime_version : Option ℕ
  pub init : ℕ
  pub cuda_version : ℕ
  pub static_nvrtc : Bool
  pub static_nvjitlink : Bool
  -- Whether a `call_once` that ends marks the storage of its flag, though the flag was destroyed
  -- and another one made there. The C++ standard does not say what happens.
  pub marks : Bool

-- `std::once_flag`.
pub data OnceFlag : Type 0 where
  fresh done : OnceFlag

-- An engaged `std::optional` of one of the three structs: its handle, or none of a static library.
abbrev pub Loaded : Type 0
Loaded = Option ℕ

pub record Process : Type 0 where
  -- The handles that `dlopen` gave and `dlclose` did not take back.
  pub open_handles : List ℕ
  pub cu : Option Loaded
  pub nvrtc : Option Loaded
  pub nvjitlink : Option Loaded
  pub init_libraries_flag : OnceFlag
  pub teardown_libraries_flag : OnceFlag

-- `dlclose`.
abbrev pub dlclose : ℕ → List ℕ → List ℕ
dlclose handle handles = removed (◌==◌) handle handles

-- The destructor of a struct in an optional.
unfoldable pub destroy : Option Loaded → List ℕ → List ℕ
destroy none handles = handles
destroy (some none) handles = handles
destroy (some (some h)) handles = dlclose h handles

-- `reset()` of the three optionals.
abbrev pub reset_cu : Process → Process
reset_cu s = record s { open_handles = destroy s.cu s.open_handles; cu = none }

abbrev pub reset_nvrtc : Process → Process
reset_nvrtc s = record s { open_handles = destroy s.nvrtc s.open_handles; nvrtc = none }

abbrev pub reset_nvjitlink : Process → Process
reset_nvjitlink s = record s { open_handles = destroy s.nvjitlink s.open_handles; nvjitlink = none }

-- The resets of `teardown`, one after the other.
unfoldable pub resets : List (Process → Process)
unfolding destroy
resets = reset_nvjitlink ∷ reset_nvrtc ∷ reset_cu ∷ []

abbrev pub after_all : List (Process → Process) → Process → Process
after_all [] s = s
after_all (step ∷ steps) s = after_all steps (step s)

abbrev pub major_version : ℕ → ℕ
major_version version = version / 1000

module _ (env : Environment) where
  -- `load_dso`.
  unfoldable pub load_dso : List Bytes → Act Process ℕ
  load_dso [] s = (s, raise runtime_error)
  load_dso (name ∷ names) s = elim (env.dlopen name) [
    | some handle ↦ (record s { open_handles = handle ∷ s.open_handles }, ok handle)
    | none ↦ load_dso names s
  ]

  -- `get_dso_symbol` for each function: `_load_symbols`.
  unfoldable pub load_symbols : ℕ → List Bytes → Act Process (Unit {0})
  load_symbols handle [] = pure tt
  load_symbols handle (sym_name ∷ names) =
      require (env.dlsym handle sym_name) runtime_error >> load_symbols handle names

  -- The condition on the runtime's version, which gives its major part.
  unfoldable pub check_version : Act Process ℕ
  check_version s = elim env.runtime_version [
    | none ↦ (s, raise runtime_error)
    | some version ↦
        if major_version env.cuda_version == major_version version
        then (s, ok (major_version version))
        else (s, raise runtime_error)
  ]

  -- `LibCuda::_load`, `LibNVRTC::_load` and `LibNVJitLink::_load`.
  unfoldable pub load_cuda : Act Process Loaded
  unfolding load_dso
  load_cuda = do handle ← load_dso (codes "libcuda.so.1" ∷ []); pure (some handle)

  unfoldable pub load_versioned : Bool → Bytes → Act Process Loaded
  unfolding load_dso check_version
  load_versioned static_link name = if static_link then pure none else do
    major ← check_version
    handle ← load_dso ((name ++ to_string major) ∷ [])
    pure (some handle)

  unfoldable pub load_nvrtc : Act Process Loaded
  unfolding load_versioned
  load_nvrtc = load_versioned env.static_nvrtc (codes "libnvrtc.so.")

  unfoldable pub load_nvjitlink : Act Process Loaded
  unfolding load_versioned
  load_nvjitlink = load_versioned env.static_nvjitlink (codes "libnvJitLink.so.")

  -- The constructor of a struct: a static library has its symbols.
  unfoldable pub construct_library : List Bytes → Loaded → Act Process (Unit {0})
  unfolding load_symbols
  construct_library names none = pure tt
  construct_library names (some handle) = load_symbols handle names

  -- `cu.emplace(...)`: what the optional had is destroyed first; a constructor that throws leaves it
  -- empty.
  unfoldable pub emplace_cu : Loaded → Act Process (Unit {0})
  unfolding construct_library
  emplace_cu lib s =
      (do construct_library cuda_funcs lib; λ t. (record t { cu = some lib }, ok tt))
        (record s { open_handles = destroy s.cu s.open_handles; cu = none })

  unfoldable pub emplace_nvrtc : Loaded → Act Process (Unit {0})
  unfolding construct_library
  emplace_nvrtc lib s =
      (do construct_library nvrtc_funcs lib; λ t. (record t { nvrtc = some lib }, ok tt))
        (record s { open_handles = destroy s.nvrtc s.open_handles; nvrtc = none })

  unfoldable pub emplace_nvjitlink : Loaded → Act Process (Unit {0})
  unfolding construct_library
  emplace_nvjitlink lib s =
      (do construct_library nvjitlink_funcs lib; λ t. (record t { nvjitlink = some lib }, ok tt))
        (record s { open_handles = destroy s.nvjitlink s.open_handles; nvjitlink = none })

  -- The function that `initialize` calls once.
  unfoldable pub load_libraries : Act Process (Unit {0})
  unfolding load_cuda load_nvrtc load_nvjitlink emplace_cu emplace_nvrtc emplace_nvjitlink
  load_libraries = do
    c ← load_cuda
    emplace_cu c
    require (env.init == 0) runtime_error
    n ← load_nvrtc
    emplace_nvrtc n
    j ← load_nvjitlink
    emplace_nvjitlink j

  -- `initialize`: the flag is set if the function returns.
  unfoldable pub initialize : Act Process (Unit {0})
  unfolding load_libraries
  initialize s = elim s.init_libraries_flag [
    | done ↦ (s, ok tt)
    | fresh ↦ (do load_libraries; λ t. (record t { init_libraries_flag = done }, ok tt)) s
  ]

  -- The function that `teardown` calls once: the three libraries, and then the two flags.
  unfoldable pub reset_libraries : Process → Process
  unfolding resets
  reset_libraries s = record (after_all resets s) {
    init_libraries_flag = fresh;
    teardown_libraries_flag = fresh;
  }

  -- `teardown`: it makes both flags anew, the one that `call_once` is about to set among them.
  unfoldable pub teardown : Process → Process
  unfolding reset_libraries
  teardown s = elim s.teardown_libraries_flag [
    | done ↦ s
    | fresh ↦
        let t = reset_libraries s in
        record t { teardown_libraries_flag = if env.marks then done else fresh }
  ]
