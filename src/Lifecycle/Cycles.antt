-- ===== src/Lifecycle/Cycles.antt =====
-- Loading and unloading the driver libraries, once and again.
use mathlib.Core.Path.{transport}
use librtcx.Prelude.{
  ℕ, ◌≡◌, refl, sym, ◌∙◌, ◌⊎◌, inl, inr, List, [], ◌∷◌, none, some, Outcome, ok, raise, abort,
  arith, if◌then◌else◌,
}
use librtcx.Prelude.Counting.{removed}
use librtcx.Prelude.Actions.{◌>>=◌, IsEnd, IsEnd-bind, Ends}
use librtcx.Lifecycle.Loading.{IsAt, Anything, opened_by, IsFull, load_libraries_at}
use librtcx.Lifecycle.{
  Environment, OnceFlag, fresh, done, Loaded, Process, destroy, load_libraries, initialize,
  reset_libraries, resets, teardown,
}

OnceFlag-cases : (f : OnceFlag) → (f ≡ fresh) ⊎ (f ≡ done)
OnceFlag-cases fresh = inl refl
OnceFlag-cases done = inr refl

-- The handles that are open after each of the steps.
abbrev pub open_after : List (Process → Process) → Process → List (List ℕ)
open_after [] s = []
open_after (step ∷ steps) s = (step s).open_handles ∷ open_after steps (step s)

-- The steps undo, from the last one on, what the three libraries opened one after the other.
abbrev pub AreUndone : List ℕ → Process → Type 0
AreUndone hs t =
    (c : Loaded) × (n : Loaded) × (j : Loaded) × (t.open_handles
      ≡ opened_by j (opened_by n (opened_by c hs)))
    × (open_after resets t ≡ opened_by n (opened_by c hs) ∷ opened_by c hs ∷ hs ∷ [])

module _ (env : Environment) where
  -- Once it has returned, `initialize` returns again and changes nothing.
  pub initialize_again :
      (s : Process)
      → (initialize env s).1 ≡ ok tt
      → initialize env (initialize env s).0 ≡ ((initialize env s).0, ok tt)
  unfolding initialize
  initialize_again s h = ground arith

module _ (env : Environment) (hs : List ℕ) where
  initialize-fresh :
      (s : Process)
      → s.init_libraries_flag ≡ fresh
      → initialize env s
        ≡ (load_libraries env >>= (λ _ t. (record t { init_libraries_flag = done }, ok tt))) s
  unfolding initialize
  initialize-fresh s e =
      elim s.init_libraries_flag
          as (λ f.
            f ≡ fresh
            → elim f as (λ _. Process × Outcome (Unit {0})) [
              | done ↦ (s, ok tt)
              | fresh ↦
                  (load_libraries env >>= (λ _ t. (record t { init_libraries_flag = done }, ok tt)))
                    s
            ]
              ≡ (load_libraries env >>= (λ _ t. (record t { init_libraries_flag = done }, ok tt)))
                  s) [ done ↦ λ d. ground arith | fresh ↦ λ d. refl ]
        e

  initialize_at :
      (s : Process)
      → IsAt hs none none none s
      → IsEnd
          (λ _ t. IsFull env hs (record t { init_libraries_flag = fresh }))
          Anything
          (initialize env s)
  unfolding Ends
  initialize_at s a =
      transport
        (λ i.
          IsEnd (λ _ t. IsFull env hs (record t { init_libraries_flag = fresh })) Anything
            (sym (initialize-fresh s a.4) i))
        (IsEnd-bind (λ _. IsFull env hs) Anything
          (λ _ t. IsFull env hs (record t { init_libraries_flag = fresh })) (load_libraries env)
          (λ _ t. (record t { init_libraries_flag = done }, ok tt)) s (load_libraries_at env hs s a)
          (λ _ t (c, n, j, b). (c, n, j, (b.0, b.1, b.2, b.3, refl, b.5))))

  destroy_opened :
      (l : Loaded) (handles : List ℕ) → destroy (some l) (opened_by l handles) ≡ handles
  unfolding destroy removed
  destroy_opened none handles = refl
  destroy_opened (some h) handles = ground arith

  teardown-fresh :
      (t : Process)
      → t.teardown_libraries_flag ≡ fresh
      → teardown env t ≡ record (reset_libraries env t) {
        teardown_libraries_flag = if env.marks then done else fresh;
      }
  unfolding teardown
  teardown-fresh t e = rw (e) refl

  reset_full :
      (t : Process)
      → IsFull env hs (record t { init_libraries_flag = fresh })
      → (reset_libraries env t).open_handles ≡ hs
  unfolding reset_libraries resets
  reset_full t (c, n, j, b) =
      rw (b.0, b.1, b.2, b.3, destroy_opened j _, destroy_opened n _, destroy_opened c _) refl

  torn_down :
      (s t : Process)
      → IsAt hs none none none s
      → IsFull env hs (record t { init_libraries_flag = fresh })
      → record (reset_libraries env t) {
        teardown_libraries_flag = if env.marks then done else fresh;
      }
        ≡ record s { teardown_libraries_flag = if env.marks then done else fresh }
  unfolding reset_libraries resets
  torn_down s t a b i = record {
    open_handles = (reset_full t b ∙ sym a.0) i;
    cu = sym a.1 i;
    nvrtc = sym a.2 i;
    nvjitlink = sym a.3 i;
    init_libraries_flag = sym a.4 i;
    teardown_libraries_flag = if env.marks then done else fresh;
  }

  full_after :
      (r : Process × Outcome (Unit {0}))
      → IsEnd (λ _ t. IsFull env hs (record t { init_libraries_flag = fresh })) Anything r
      → r.1 ≡ ok tt
      → IsFull env hs (record r.0 { init_libraries_flag = fresh })
  full_after (t, ok a) h e = h
  full_after (t, raise x) h e = ground arith
  full_after (t, abort) h e = absurd h

  full-AreUndone :
      (t : Process) → IsFull env hs (record t { init_libraries_flag = fresh }) → AreUndone hs t
  unfolding resets
  full-AreUndone t (c, n, j, b) = (
    c,
    n,
    j,
    b.0,
    rw (b.0, b.1, b.2, b.3, destroy_opened j _, destroy_opened n _, destroy_opened c _) refl,
  )

  -- Where no library is loaded and neither flag is set, an `initialize` that returns has opened the
  -- handles of the driver, NVRTC and nvJitLink, of those that have one, in this order. It is undone by
  -- `teardown`, whose resets close them in the opposite order, each the one that was opened last:
  -- the handles that are open, each as often as it is, are those that were, no library is
  -- loaded, and the flag of `initialize` is as new. The flag of `teardown` itself is the one thing that
  -- may differ: it is set if the call of its function marks it.
  pub teardown-initialize :
      (s : Process)
      → IsAt hs none none none s
      → (initialize env s).1 ≡ ok tt
      → AreUndone hs (initialize env s).0
        × (teardown env (initialize env s).0
            ≡ record s { teardown_libraries_flag = if env.marks then done else fresh })
  teardown-initialize s a e =
      let full = full_after (initialize env s) (initialize_at s a) e in
      (
        full-AreUndone (initialize env s).0 full,
        teardown-fresh (initialize env s).0 (full.3.5) ∙ torn_down s (initialize env s).0 a full,
      )
