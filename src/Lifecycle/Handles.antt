-- ===== src/Lifecycle/Handles.antt =====
-- The handles of the driver libraries: how many `dlopen` gave of each, and who holds them.
use librtcx.Prelude.{
  ℕ, ◌+◌, ◌-◌, ◌≡◌, refl, ap, List, [], ◌∷◌, Bool, true, false, Option, none, some, Outcome, ok,
  raise, runtime_error, Bytes, arith, if◌then◌else◌, ◌==◌, to_string, ◌++◌, codes,
}
use librtcx.Prelude.Counting.{one_if, count, ==-IsEqualityTest, count-removed}
use librtcx.Prelude.Actions.{
  pure, ◌>>◌, require, IsEnd, IsEnd-bind, IsEnd-after_ok, Ends, Ends-bind,
}
use librtcx.Lifecycle.{
  Environment, fresh, done, Loaded, Process, destroy, load_dso, load_symbols, check_version,
  load_cuda, load_versioned, construct_library, emplace_cu, emplace_nvrtc, emplace_nvjitlink,
  load_libraries, load_nvrtc, load_nvjitlink, initialize, reset_libraries, resets, cuda_funcs,
  nvrtc_funcs, nvjitlink_funcs, major_version,
}

-- How often a struct holds a handle.
unfoldable pub loads : ℕ → Loaded → ℕ
loads k none = 0
loads k (some h) = one_if (h == k)

unfoldable pub held : ℕ → Option Loaded → ℕ
unfolding loads
held k none = 0
held k (some lib) = loads k lib

-- Each handle is open as often as the three optionals and a struct not yet built hold it.
abbrev pub IsPending : Loaded → Process → Type 0
IsPending lib s =
    (k : ℕ)
    → count (◌==◌) k s.open_handles
      ≡ loads k lib + (held k s.cu + (held k s.nvrtc + held k s.nvjitlink))

-- Each handle is open as often as the three optionals hold it.
abbrev pub IsAccounted : Process → Type 0
IsAccounted s =
    (k : ℕ) → count (◌==◌) k s.open_handles ≡ held k s.cu + (held k s.nvrtc + held k s.nvjitlink)

count-destroy :
    (k : ℕ) (p : Option Loaded) (hs : List ℕ)
    → count (◌==◌) k (destroy p hs) ≡ count (◌==◌) k hs - held k p
unfolding destroy held loads
count-destroy k none hs = omega arith
count-destroy k (some none) hs = omega arith
count-destroy k (some (some h)) hs = count-removed (◌==◌) ==-IsEqualityTest k h hs

load_dso_end :
    (env : Environment) (names : List Bytes)
    → Ends IsAccounted (λ h. IsPending (some h)) IsAccounted (load_dso env names)
unfolding load_dso count loads Ends
load_dso_end env [] s a = a
load_dso_end env (n ∷ names) s a =
    elim (env.dlopen n)
      as (λ d.
        IsEnd (λ h. IsPending (some h)) IsAccounted
          (elim d as (λ _. Process × Outcome ℕ) [
            | some handle ↦ (record s { open_handles = handle ∷ s.open_handles }, ok handle)
            | none ↦ load_dso env names s
          ])) [ some h ↦ λ k. ap (◌+◌ (one_if (h == k))) (a k) | none ↦ load_dso_end env names s a ]

pure_loaded : Ends IsAccounted IsPending IsAccounted (pure none)
unfolding Ends loads
pure_loaded s a k = omega (arith, a k)

pure-some : (h : ℕ) → Ends (IsPending (some h)) IsPending IsAccounted (pure (some h))
unfolding Ends
pure-some h s a = a

require_end : (b : Bool) → Ends IsAccounted (λ _. IsAccounted) IsAccounted (require b runtime_error)
unfolding Ends
require_end true s a = a
require_end false s a = a

module _ (env : Environment) where
  pub reset_libraries-IsAccounted :
      (s : Process) → IsAccounted s → IsAccounted (reset_libraries env s)
  unfolding reset_libraries resets held
  reset_libraries-IsAccounted s a k = grind (
    arith,
    a k,
    count-destroy k s.cu (destroy s.nvrtc (destroy s.nvjitlink s.open_handles)),
    count-destroy k s.nvrtc (destroy s.nvjitlink s.open_handles),
    count-destroy k s.nvjitlink s.open_handles,
  )

  -- Every symbol that a library is asked for is there.
  abbrev pub HasSymbols : Type 0
  HasSymbols = (h : ℕ) (name : Bytes) → env.dlsym h name ≡ true

  module _ (found : HasSymbols) where
    load_symbols_found :
        (h : ℕ) (names : List Bytes) (s : Process) → load_symbols env h names s ≡ (s, ok tt)
    unfolding load_symbols
    load_symbols_found h [] s = refl
    load_symbols_found h (n ∷ names) s = grind (arith, found h n, load_symbols_found h names s)

    construct_found :
        (names : List Bytes) (lib : Loaded) (s : Process)
        → construct_library env names lib s ≡ (s, ok tt)
    unfolding construct_library
    construct_found names none s = refl
    construct_found names (some h) s = load_symbols_found h names s

    emplace_cu_end :
        (lib : Loaded) → Ends (IsPending lib) (λ _. IsAccounted) IsAccounted (emplace_cu env lib)
    unfolding Ends emplace_cu held
    emplace_cu_end lib s a =
        IsEnd-after_ok (λ _. IsAccounted) IsAccounted (construct_library env cuda_funcs lib)
          (λ _ t. (record t { cu = some lib }, ok tt)) (construct_found cuda_funcs lib _)
          (λ k. ground (arith, a k, count-destroy k s.cu s.open_handles))

    emplace_nvrtc_end :
        (lib : Loaded) → Ends (IsPending lib) (λ _. IsAccounted) IsAccounted (emplace_nvrtc env lib)
    unfolding Ends emplace_nvrtc held
    emplace_nvrtc_end lib s a =
        IsEnd-after_ok (λ _. IsAccounted) IsAccounted (construct_library env nvrtc_funcs lib)
          (λ _ t. (record t { nvrtc = some lib }, ok tt)) (construct_found nvrtc_funcs lib _)
          (λ k. ground (arith, a k, count-destroy k s.nvrtc s.open_handles))

    emplace_nvjitlink_end :
        (lib : Loaded)
        → Ends (IsPending lib) (λ _. IsAccounted) IsAccounted (emplace_nvjitlink env lib)
    unfolding Ends emplace_nvjitlink held
    emplace_nvjitlink_end lib s a =
        IsEnd-after_ok (λ _. IsAccounted) IsAccounted (construct_library env nvjitlink_funcs lib)
          (λ _ t. (record t { nvjitlink = some lib }, ok tt))
          (construct_found nvjitlink_funcs lib _)
          (λ k. ground (arith, a k, count-destroy k s.nvjitlink s.open_handles))

    check_version_end : Ends IsAccounted (λ _. IsAccounted) IsAccounted (check_version env)
    unfolding Ends check_version
    check_version_end s a =
        elim env.runtime_version
          as (λ v.
            IsEnd (λ _. IsAccounted) IsAccounted
              (elim v as (λ _. Process × Outcome ℕ) [
                | none ↦ (s, raise runtime_error)
                | some version ↦
                    if major_version env.cuda_version == major_version version
                    then (s, ok (major_version version))
                    else (s, raise runtime_error)
              ])) [
                | none ↦ a
                | some version ↦
                    elim (major_version env.cuda_version == major_version version)
                      as (λ b.
                        IsEnd (λ _. IsAccounted) IsAccounted
                          (if b
                            then (s, ok (major_version version))
                            else (s, raise runtime_error))) [ true ↦ a | false ↦ a ]
              ]

    load_versioned_end :
        (static_link : Bool) (name : Bytes)
        → Ends IsAccounted IsPending IsAccounted (load_versioned env static_link name)
    unfolding load_versioned
    load_versioned_end true name = pure_loaded
    load_versioned_end false name =
        Ends-bind _ _ (λ _. IsAccounted) _ _ _ check_version_end
          (λ major.
            Ends-bind _ _ (λ h. IsPending (some h)) _ _ _
              (load_dso_end env ((name ++ to_string major) ∷ [])) pure-some)

    load_libraries_end : Ends IsAccounted (λ _. IsAccounted) IsAccounted (load_libraries env)
    unfolding load_libraries load_cuda load_nvrtc load_nvjitlink
    load_libraries_end =
        Ends-bind _ _ IsPending _ _ _
          (Ends-bind _ _ (λ h. IsPending (some h)) _ _ _
            (load_dso_end env (codes "libcuda.so.1" ∷ [])) pure-some)
          (λ c.
            Ends-bind _ _ (λ _. IsAccounted) _ _ _ (emplace_cu_end c)
              (λ _.
                Ends-bind _ _ (λ _. IsAccounted) _ _ _ (require_end (env.init == 0))
                  (λ _.
                    Ends-bind _ _ IsPending _ _ _
                      (load_versioned_end env.static_nvrtc (codes "libnvrtc.so."))
                      (λ n.
                        Ends-bind _ _ (λ _. IsAccounted) _ _ _ (emplace_nvrtc_end n)
                          (λ _.
                            Ends-bind _ _ IsPending _ _ _
                              (load_versioned_end env.static_nvjitlink (codes "libnvJitLink.so."))
                              (λ j. emplace_nvjitlink_end j))))))

    pub initialize_end : Ends IsAccounted (λ _. IsAccounted) IsAccounted (initialize env)
    unfolding Ends initialize
    initialize_end s a =
        elim s.init_libraries_flag
          as (λ f.
            IsEnd (λ _. IsAccounted) IsAccounted
              (elim f as (λ _. Process × Outcome (Unit {0})) [
                | done ↦ (s, ok tt)
                | fresh ↦
                    (do load_libraries env; λ t. (record t { init_libraries_flag = done }, ok tt)) s
              ])) [
                | done ↦ a
                | fresh ↦
                    IsEnd-bind (λ _. IsAccounted) IsAccounted (λ _. IsAccounted)
                      (load_libraries env) (λ _ t. (record t { init_libraries_flag = done }, ok tt))
                      s (load_libraries_end s a) (λ _ t b. b)
              ]
