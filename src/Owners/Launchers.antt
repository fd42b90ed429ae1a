-- ===== src/Owners/Launchers.antt =====
-- `algorithm_launcher` of src/algorithm_launcher.cpp.
use librtcx.Prelude.{none, some}
use librtcx.Owners.{cuda_library, Memory, give_back, Launcher}

unfoldable pub moved : Launcher → Launcher × Launcher
moved other = (
  record { kernel = other.kernel; library = other.library },
  record other { kernel = none; library = none },
)

unfoldable pub destroyed : Launcher → Memory → Memory
unfolding give_back
destroyed l m = elim l.library [ none ↦ m | some h ↦ give_back (cuda_library h) m ]

unfoldable pub assigned : Launcher → Launcher → Memory → (Launcher × Launcher) × Memory
unfolding destroyed
assigned this other m =
    let m' = destroyed this m in
    (
      (
        record this { kernel = other.kernel; library = other.library },
        record other { kernel = none; library = none },
      ),
      m',
    )
