-- ===== src/Lifecycle/Calls.antt =====
-- Calls of `initialize` and `teardown`, one after another.
use librtcx.Prelude.{List, [], ◌∷◌, Outcome, ok, raise, abort, if◌then◌else◌}
use librtcx.Prelude.Actions.{IsEnd, Ends}
use librtcx.Lifecycle.{Environment, fresh, done, Process, initialize, reset_libraries, teardown}
use librtcx.Lifecycle.Handles.{IsAccounted, HasSymbols, reset_libraries-IsAccounted, initialize_end}

-- `initialize` or `teardown`.
pub data Call : Type 0 where
  initializes tears_down : Call

module _ (env : Environment) where
  -- The state after calls of `initialize`, whose exceptions the caller takes, and `teardown`.
  unfoldable pub run : List Call → Process → Process
  run [] s = s
  run (initializes ∷ calls) s = run calls (initialize env s).0
  run (tears_down ∷ calls) s = run calls (teardown env s)

  IsAccounted-after :
      (s : Process) (r : Process × Outcome (Unit {0}))
      → IsEnd (λ _. IsAccounted) IsAccounted r
      → IsAccounted r.0
  IsAccounted-after s (t, ok a) h = h
  IsAccounted-after s (t, raise e) h = h
  IsAccounted-after s (t, abort) h = absurd h

  teardown-IsAccounted : (s : Process) → IsAccounted s → IsAccounted (teardown env s)
  unfolding teardown
  teardown-IsAccounted s a =
      elim s.teardown_libraries_flag
        as (λ f. IsAccounted (elim f as (λ _. Process) [
          | done ↦ s
          | fresh ↦ record (reset_libraries env s) {
            teardown_libraries_flag = if env.marks then done else fresh;
          }
        ])) [ done ↦ a | fresh ↦ reset_libraries-IsAccounted env s a ]

  -- Where every symbol is found, and every handle is open as often as the three libraries hold it,
  -- it still is after any sequence of `initialize` and `teardown`, whichever of them failed.
  pub run-IsAccounted :
      HasSymbols env → (calls : List Call) (s : Process) → IsAccounted s → IsAccounted (run calls s)
  unfolding run Ends
  run-IsAccounted found [] s a = a
  run-IsAccounted found (initializes ∷ calls) s a =
      run-IsAccounted found calls (initialize env s).0
        (IsAccounted-after s (initialize env s) (initialize_end env found s a))
  run-IsAccounted found (tears_down ∷ calls) s a =
      run-IsAccounted found calls (teardown env s) (teardown-IsAccounted s a)
