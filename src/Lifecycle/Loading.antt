-- ===== src/Lifecycle/Loading.antt =====
-- How the driver libraries are loaded where none is: what the process holds after each step.

use librtcx.Prelude.{
  ℕ, ◌≡◌, refl, ap, ◌∙◌, List, [], ◌∷◌, ◌++◌, to_string, Bool, true, false, Option, none, some,
  Outcome, ok, raise, runtime_error, Bytes, codes, if◌then◌else◌, ◌==◌,
}
use librtcx.Prelude.Actions.{pure, require, IsEnd, IsEnd-bind, Ends, Ends-bind, Ends_weakened}
use librtcx.Lifecycle.{
  Environment, fresh, Loaded, Process, destroy, load_dso, load_symbols, check_version, load_cuda,
  load_versioned, construct_library, emplace_cu, emplace_nvrtc, emplace_nvjitlink, load_libraries,
  load_nvrtc, load_nvjitlink, major_version, cuda_funcs, nvrtc_funcs, nvjitlink_funcs,
}

abbrev pub opened_by : Loaded → List ℕ → List ℕ
opened_by none handles = handles
opened_by (some h) handles = h ∷ handles

-- What a state holds.
abbrev pub IsAt : List ℕ → Option Loaded → Option Loaded → Option Loaded → Process → Type 0
IsAt handles c n j s =
    (s.open_handles ≡ handles)
    × (s.cu ≡ c)
    × (s.nvrtc ≡ n)
    × (s.nvjitlink ≡ j)
    × (s.init_libraries_flag ≡ fresh)
    × (s.teardown_libraries_flag ≡ fresh)

abbrev pub Anything : Process → Type 0
Anything _ = Unit {0}

load_dso_at :
    (env : Environment) (hs : List ℕ) (c n j : Option Loaded) (names : List Bytes)
    → Ends (IsAt hs c n j) (λ h. IsAt (h ∷ hs) c n j) Anything (load_dso env names)
unfolding load_dso Ends
load_dso_at env hs c n j [] s a = tt
load_dso_at env hs c n j (x ∷ names) s a =
    elim (env.dlopen x)
      as (λ d.
        IsEnd (λ h. IsAt (h ∷ hs) c n j) Anything
          (elim d as (λ _. Process × Outcome ℕ) [
            | some handle ↦ (record s { open_handles = handle ∷ s.open_handles }, ok handle)
            | none ↦ load_dso env names s
          ])) [
            | some h ↦ (ap (◌∷◌ h) a.0, a.1, a.2, a.3, a.4, a.5)
            | none ↦ load_dso_at env hs c n j names s a
          ]

pure_at :
    (hs : List ℕ) (c n j : Option Loaded) (h : ℕ)
    → Ends (IsAt (h ∷ hs) c n j) (λ l. IsAt (opened_by l hs) c n j) Anything (pure (some h))
unfolding Ends
pure_at hs c n j h s a = a

none_at :
    (hs : List ℕ) (c n j : Option Loaded)
    → Ends (IsAt hs c n j) (λ l. IsAt (opened_by l hs) c n j) Anything (pure none)
unfolding Ends
none_at hs c n j s a = a

require_at :
    (hs : List ℕ) (c n j : Option Loaded) (b : Bool)
    → Ends (IsAt hs c n j) (λ _. IsAt hs c n j) Anything (require b runtime_error)
unfolding Ends
require_at hs c n j true s a = a
require_at hs c n j false s a = tt

module _ (env : Environment) (hs : List ℕ) (c n j : Option Loaded) where
  check_version_at : Ends (IsAt hs c n j) (λ _. IsAt hs c n j) Anything (check_version env)
  unfolding Ends check_version
  check_version_at s a =
      elim env.runtime_version
        as (λ v.
          IsEnd (λ _. IsAt hs c n j) Anything
            (elim v as (λ _. Process × Outcome ℕ) [
              | none ↦ (s, raise runtime_error)
              | some version ↦
                  if major_version env.cuda_version == major_version version
                  then (s, ok (major_version version))
                  else (s, raise runtime_error)
            ])) [
              | none ↦ tt
              | some version ↦
                  elim (major_version env.cuda_version == major_version version)
                    as (λ b.
                      IsEnd (λ _. IsAt hs c n j) Anything
                        (if b then (s, ok (major_version version)) else (s, raise runtime_error))) [
                          | true ↦ a
                          | false ↦ tt
                        ]
            ]

  load_versioned_at :
      (static_link : Bool) (name : Bytes)
      → Ends
          (IsAt hs c n j)
          (λ l. IsAt (opened_by l hs) c n j)
          Anything
          (load_versioned env static_link name)
  unfolding load_versioned
  load_versioned_at true name = none_at hs c n j
  load_versioned_at false name =
      Ends-bind _ _ (λ _. IsAt hs c n j) _ _ _ check_version_at
        (λ major.
          Ends-bind _ _ (λ h. IsAt (h ∷ hs) c n j) _ _ _
            (load_dso_at env hs c n j ((name ++ to_string major) ∷ [])) (pure_at hs c n j))

  pure_here : Ends (IsAt hs c n j) (λ _. IsAt hs c n j) Anything (pure {A = Unit {0}} tt)
  unfolding Ends
  pure_here s a = a

  load_symbols_at :
      (h : ℕ) (names : List Bytes)
      → Ends (IsAt hs c n j) (λ _. IsAt hs c n j) Anything (load_symbols env h names)
  unfolding load_symbols
  load_symbols_at h [] = pure_here
  load_symbols_at h (x ∷ names) =
      Ends-bind _ _ (λ _. IsAt hs c n j) _ _ _ (require_at hs c n j (env.dlsym h x))
        (λ _. load_symbols_at h names)

  construct_at :
      (names : List Bytes) (lib : Loaded)
      → Ends (IsAt hs c n j) (λ _. IsAt hs c n j) Anything (construct_library env names lib)
  unfolding construct_library
  construct_at names none = pure_here
  construct_at names (some h) = load_symbols_at h names

module _ (env : Environment) where
  emplace_cu_at :
      (hs : List ℕ) (n j : Option Loaded) (lib : Loaded)
      → Ends (IsAt hs none n j) (λ _. IsAt hs (some lib) n j) Anything (emplace_cu env lib)
  unfolding emplace_cu destroy Ends
  emplace_cu_at hs n j lib s a =
      IsEnd-bind (λ _. IsAt hs none n j) Anything (λ _. IsAt hs (some lib) n j)
        (construct_library env cuda_funcs lib) (λ _ t. (record t { cu = some lib }, ok tt))
        (record s { open_handles = destroy s.cu s.open_handles; cu = none })
        (construct_at env hs none n j cuda_funcs lib _
          (ap (λ o. destroy o s.open_handles) a.1 ∙ a.0, refl, a.2, a.3, a.4, a.5))
        (λ _ t b. (b.0, refl, b.2, b.3, b.4, b.5))

  emplace_nvrtc_at :
      (hs : List ℕ) (c j : Option Loaded) (lib : Loaded)
      → Ends (IsAt hs c none j) (λ _. IsAt hs c (some lib) j) Anything (emplace_nvrtc env lib)
  unfolding emplace_nvrtc destroy Ends
  emplace_nvrtc_at hs c j lib s a =
      IsEnd-bind (λ _. IsAt hs c none j) Anything (λ _. IsAt hs c (some lib) j)
        (construct_library env nvrtc_funcs lib) (λ _ t. (record t { nvrtc = some lib }, ok tt))
        (record s { open_handles = destroy s.nvrtc s.open_handles; nvrtc = none })
        (construct_at env hs c none j nvrtc_funcs lib _
          (ap (λ o. destroy o s.open_handles) a.2 ∙ a.0, a.1, refl, a.3, a.4, a.5))
        (λ _ t b. (b.0, b.1, refl, b.3, b.4, b.5))

  emplace_nvjitlink_at :
      (hs : List ℕ) (c n : Option Loaded) (lib : Loaded)
      → Ends (IsAt hs c n none) (λ _. IsAt hs c n (some lib)) Anything (emplace_nvjitlink env lib)
  unfolding emplace_nvjitlink destroy Ends
  emplace_nvjitlink_at hs c n lib s a =
      IsEnd-bind (λ _. IsAt hs c n none) Anything (λ _. IsAt hs c n (some lib))
        (construct_library env nvjitlink_funcs lib)
        (λ _ t. (record t { nvjitlink = some lib }, ok tt))
        (record s { open_handles = destroy s.nvjitlink s.open_handles; nvjitlink = none })
        (construct_at env hs c n none nvjitlink_funcs lib _
          (ap (λ o. destroy o s.open_handles) a.3 ∙ a.0, a.1, a.2, refl, a.4, a.5))
        (λ _ t b. (b.0, b.1, b.2, refl, b.4, b.5))

module _ (env : Environment) (hs : List ℕ) where
  -- What the three libraries hold once they are loaded.
  abbrev pub IsFull : Process → Type 0
  IsFull s =
      (c : Loaded) × (n : Loaded) × (j : Loaded) × IsAt (opened_by j (opened_by n (opened_by c hs)))
        (some c) (some n) (some j) s

  full :
      (c n j : Loaded)
      → Ends
          (IsAt (opened_by j (opened_by n (opened_by c hs))) (some c) (some n) none)
          (λ _. IsFull)
          Anything
          (emplace_nvjitlink env j)
  full c n j =
      Ends_weakened _ _
        (λ _. IsAt (opened_by j (opened_by n (opened_by c hs))) (some c) (some n) (some j)) _ _
        (λ _ s a. (c, n, j, a))
        (emplace_nvjitlink_at env (opened_by j (opened_by n (opened_by c hs))) (some c) (some n) j)

  pub load_libraries_at : Ends (IsAt hs none none none) (λ _. IsFull) Anything (load_libraries env)
  unfolding load_libraries load_cuda load_nvrtc load_nvjitlink
  load_libraries_at =
      Ends-bind _ _ (λ c. IsAt (opened_by c hs) none none none) _ _ _
        (Ends-bind _ _ (λ h. IsAt (h ∷ hs) none none none) _ _ _
          (load_dso_at env hs none none none (codes "libcuda.so.1" ∷ []))
          (pure_at hs none none none))
        (λ c.
          Ends-bind _ _ (λ _. IsAt (opened_by c hs) (some c) none none) _ _ _
            (emplace_cu_at env (opened_by c hs) none none c)
            (λ _.
              Ends-bind _ _ (λ _. IsAt (opened_by c hs) (some c) none none) _ _ _
                (require_at (opened_by c hs) (some c) none none (env.init == 0))
                (λ _.
                  Ends-bind _ _ (λ n. IsAt (opened_by n (opened_by c hs)) (some c) none none) _ _ _
                    (load_versioned_at env (opened_by c hs) (some c) none none env.static_nvrtc
                      (codes "libnvrtc.so."))
                    (λ n.
                      Ends-bind _ _
                        (λ _. IsAt (opened_by n (opened_by c hs)) (some c) (some n) none) _ _ _
                        (emplace_nvrtc_at env (opened_by n (opened_by c hs)) (some c) none n)
                        (λ _.
                          Ends-bind _ _
                            (λ j.
                              IsAt (opened_by j (opened_by n (opened_by c hs))) (some c) (some n)
                                none)
                            _ _ _
                            (load_versioned_at env (opened_by n (opened_by c hs)) (some c) (some n)
                              none env.static_nvjitlink (codes "libnvJitLink.so."))
                            (λ j. full c n j))))))
