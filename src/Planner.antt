-- ===== src/Planner.antt =====
-- src/algorithm_planner.cpp with its header, the fragments that it links (fragment_entry.hpp and
-- .cpp) and the check of nvJitLink's results: the cache of launchers and the build of one.
-- nvJitLink and the CUDA runtime are arguments: what each of their calls answers.
pub mod Build
pub mod Sharing
use librtcx.Prelude.{
  ℕ, zero, suc, ◌+◌, ◌*◌, ◌-◌, List, [], ◌∷◌, ◌++◌, Bool, true, false, not, Option, none, some,
  Outcome, ok, raise, abort, runtime_error, logic_error, ◌>>=◌, ◌>>◌, expects, Bytes, codes,
  text_eq, to_string, if◌then◌else◌,
}

-- `fatbin_fragment_entry`: `get_key`, and `get_data` with `get_length`.
pub record Fragment : Type 0 where
  pub key : Bytes
  pub binary : Bytes

-- `algorithm_planner`, without the reference to its cache.
pub record AlgorithmPlanner : Type 0 where
  pub entrypoint : Bytes
  pub fragments : List Fragment
  pub linktime_extra_options : List Bytes

-- `algorithm_launcher`: two handles.
pub record AlgorithmLauncher : Type 0 where
  pub kernel : ℕ
  pub library : ℕ

-- `launcher_jit_cache::launchers`.
abbrev pub Launchers : Type 0
Launchers = List (Bytes × AlgorithmLauncher)

unfoldable pub find_launcher : Bytes → Launchers → Option AlgorithmLauncher
find_launcher key [] = none
find_launcher key ((k, l) ∷ launchers) =
    let rest = find_launcher key launchers in if text_eq k key then some l else rest

-- `get_fragments_key`.
unfoldable pub get_fragments_key : List Fragment → Bytes
get_fragments_key [] = []
get_fragments_key (fragment ∷ fragments) = fragment.key ++ get_fragments_key fragments

-- What a handle of nvJitLink was given: the options, what was added, in its order, and whether the
-- link was run.
pub record Linker : Type 0 where
  pub options : List Bytes
  pub added : List Fragment
  pub is_complete : Bool

-- What the CUDA runtime and nvJitLink answer, in the state that a handle is in.
pub record LinkAnswers : Type 0 where
  -- The major and minor compute capability of the current device, if the three calls succeed.
  pub capability : Option (ℕ × ℕ)
  pub create_succeeds : List Bytes → Bool
  pub add_succeeds : Linker → Fragment → Bool
  pub complete_succeeds : Linker → Bool
  -- The linked binary of a handle, if its size and its bytes can be had.
  pub cubin : Linker → Option Bytes
  pub destroy_succeeds : Bool
  pub load : Bytes → Option ℕ
  pub kernel : ℕ → Bytes → Option ℕ

-- What the process holds: open link handles, by their number, and loaded libraries.
pub record Resources : Type 0 where
  pub link_handles : ℕ
  pub libraries : List ℕ

-- `check_nvjitlink_result`: whatever the log says, it throws `std::logic_error`.
abbrev pub check_nvjitlink_result : Bool → Outcome (Unit {0})
check_nvjitlink_result succeeds = expects succeeds logic_error

-- `fatbin_fragment_entry::add_to`.
unfoldable pub add_to : (Linker → Fragment → Bool) → Fragment → Linker → Outcome Linker
add_to add_succeeds frag handle =
    check_nvjitlink_result (add_succeeds handle frag)
    >> ok (record handle { added = handle.added ++ frag ∷ [] })

-- The loop over `add_to`.
unfoldable pub add_fragments : (Linker → Fragment → Bool) → List Fragment → Linker → Outcome Linker
unfolding add_to
add_fragments add_succeeds [] handle = ok handle
add_fragments add_succeeds (frag ∷ fragments) handle =
    add_to add_succeeds frag handle >>= λ handle'. add_fragments add_succeeds fragments handle'

-- `nvJitLinkComplete`, with the check of its result.
unfoldable pub complete : (Linker → Bool) → Linker → Outcome Linker
complete complete_succeeds handle =
    check_nvjitlink_result (complete_succeeds handle) >> ok (record handle { is_complete = true })

-- The handle that `nvJitLinkCreate` makes.
abbrev pub create : List Bytes → Linker
create lopts = record { options = lopts; added = []; is_complete = false }

-- The options of the link.
unfoldable pub link_options : ℕ × ℕ → List Bytes → List Bytes
link_options (major, minor) linktime_extra_options =
    codes "-lto" ∷ (codes "-arch=sm_" ++ to_string (major * 10 + minor)) ∷ linktime_extra_options

module _ (answers : LinkAnswers) (p : AlgorithmPlanner) where
  -- From `nvJitLinkCreate` to the linked binary: what is done with an open handle.
  unfoldable pub link : List Bytes → Outcome Bytes
  unfolding add_fragments complete
  link lopts = add_fragments answers.add_succeeds p.fragments (create lopts) >>= λ handle.
      complete answers.complete_succeeds handle >>= λ handle'. elim (answers.cubin handle') [
        | none ↦ raise logic_error
        | some cubin ↦ ok cubin
      ]

  -- From the linked binary on.
  unfoldable pub load : Resources → Bytes → Resources × Outcome AlgorithmLauncher
  load r cubin = elim (answers.load cubin) [
    | none ↦ (r, raise runtime_error)
    | some library ↦
        let r' = record r { libraries = library ∷ r.libraries } in
        elim (answers.kernel library p.entrypoint) [
          | none ↦ (r', raise runtime_error)
          | some kernel ↦ (r', ok (record { kernel = kernel; library = library }))
        ]
  ]

  -- What follows a successful `nvJitLinkCreate`.
  unfoldable pub link_and_load : Resources → List Bytes → Resources × Outcome AlgorithmLauncher
  unfolding link load
  link_and_load r lopts =
      let opened = record r { link_handles = suc r.link_handles } in
      elim (link lopts) [
        | ok cubin ↦ if answers.destroy_succeeds then load r cubin else (opened, raise logic_error)
        | raise e ↦ (opened, raise e)
        | abort ↦ (opened, abort)
      ]

  -- `build`.
  unfoldable pub build : Resources → Resources × Outcome AlgorithmLauncher
  unfolding link_and_load
  build r = elim answers.capability [
    | none ↦ (r, raise runtime_error)
    | some c ↦
        let lopts = link_options c p.linktime_extra_options in
        if answers.create_succeeds lopts then link_and_load r lopts else (r, raise logic_error)
  ]

  -- `get_launcher` from the write lock on: the second lookup, and the build.
  unfoldable pub locked_launcher :
      Launchers → Resources → (Launchers × Resources) × Outcome AlgorithmLauncher
  unfolding build
  locked_launcher launchers r = elim (find_launcher (get_fragments_key p.fragments) launchers) [
    | some l ↦ ((launchers, r), ok l)
    | none ↦
        let (r', built) = build r in
        elim built [
          | ok launcher ↦ (((get_fragments_key p.fragments, launcher) ∷ launchers, r'), ok launcher)
          | raise e ↦ ((launchers, r'), raise e)
          | abort ↦ ((launchers, r'), abort)
        ]
  ]

  -- `get_launcher`: `seen` are the launchers under the read lock, `launchers` those under the write
  -- lock, which other threads may have extended.
  unfoldable pub get_launcher :
      Launchers → Launchers → Resources → (Launchers × Resources) × Outcome AlgorithmLauncher
  unfolding locked_launcher
  get_launcher seen launchers r = elim (find_launcher (get_fragments_key p.fragments) seen) [
    | some hit ↦ ((launchers, r), ok hit)
    | none ↦ locked_launcher launchers r
  ]
