-- ===== src/Planner/Sharing.antt =====
-- The cache of launchers: a key has one launcher, whoever asks for it.
use librtcx.Prelude.{◌≡◌, inl, inr, some, ok, Bytes, text_eq_iff, arith, Option-cases}
use librtcx.Planner.{
  AlgorithmPlanner, AlgorithmLauncher, Launchers, LinkAnswers, Resources, find_launcher,
  get_fragments_key, locked_launcher, get_launcher,
}

-- Each launcher of the first cache is that of the second.
abbrev pub Extends : Launchers → Launchers → Type 0
Extends m n =
    (k : Bytes) (l : AlgorithmLauncher) → find_launcher k m ≡ some l → find_launcher k n ≡ some l

key_of : AlgorithmPlanner → Bytes
key_of p = get_fragments_key p.fragments

module _ (answers : LinkAnswers) (p : AlgorithmPlanner) where
  locked_launcher-ok :
      (launchers : Launchers) (r : Resources) (l : AlgorithmLauncher)
      → (locked_launcher answers p launchers r).1 ≡ ok l
      → find_launcher (get_fragments_key p.fragments) (locked_launcher answers p launchers r).0.0
        ≡ some l
  unfolding locked_launcher find_launcher
  locked_launcher-ok launchers r l h =
      ground (arith, text_eq_iff (get_fragments_key p.fragments) (get_fragments_key p.fragments))

  locked_launcher-Extends :
      (launchers : Launchers) (r : Resources)
      → Extends launchers (locked_launcher answers p launchers r).0.0
  unfolding locked_launcher find_launcher
  locked_launcher-Extends launchers r k l h =
      ground (arith, text_eq_iff (get_fragments_key p.fragments) k)

  -- A launcher that a call returns is in the cache under the call's key, and the call replaces no
  -- launcher, if other threads replaced none between its two lookups.
  pub get_launcher-ok :
      (seen launchers : Launchers) (r : Resources) (l : AlgorithmLauncher)
      → Extends seen launchers
      → (get_launcher answers p seen launchers r).1 ≡ ok l
      → (find_launcher (get_fragments_key p.fragments) (get_launcher answers p seen launchers r).0.0
          ≡ some l)
        × Extends launchers (get_launcher answers p seen launchers r).0.0
  unfolding get_launcher
  get_launcher-ok seen launchers r l grown h =
      elim (Option-cases (find_launcher (get_fragments_key p.fragments) seen)) [
        | inr (hit, e) ↦ ground (arith, grown (get_fragments_key p.fragments) hit e)
        | inl miss ↦
            rw (miss, get_launcher)
              (
                locked_launcher-ok launchers r l (ground (arith)),
                locked_launcher-Extends launchers r,
              )
      ]

  -- A call that finds its key in the cache under the write lock builds nothing and returns what it
  -- found.
  get_launcher-found :
      (seen launchers : Launchers) (r : Resources) (l : AlgorithmLauncher)
      → Extends seen launchers
      → find_launcher (get_fragments_key p.fragments) launchers ≡ some l
      → get_launcher answers p seen launchers r ≡ ((launchers, r), ok l)
  unfolding get_launcher locked_launcher
  get_launcher-found seen launchers r l grown h =
      elim (Option-cases (find_launcher (get_fragments_key p.fragments) seen)) [
        | inr (hit, e) ↦ ground (arith, grown (get_fragments_key p.fragments) hit e)
        | inl miss ↦ ground arith
      ]

-- Planners whose fragments' keys join to the same text share a launcher, whatever their fragments,
-- entry points and options: once a call has returned one, every later call returns it and builds
-- nothing, if launchers are only added to the cache.
pub get_launcher_shares :
    (answers answers' : LinkAnswers) (p q : AlgorithmPlanner)
    (seen launchers seen' launchers' : Launchers) (r r' : Resources) (l : AlgorithmLauncher)
    → get_fragments_key p.fragments ≡ get_fragments_key q.fragments
    → Extends seen launchers
    → (get_launcher answers p seen launchers r).1 ≡ ok l
    → Extends (get_launcher answers p seen launchers r).0.0 launchers'
    → Extends seen' launchers'
    → get_launcher answers' q seen' launchers' r' ≡ ((launchers', r'), ok l)
get_launcher_shares answers answers' p q seen launchers seen' launchers' r r' l same grown h later
      grown' =
    let (here, _) = get_launcher-ok answers p seen launchers r l grown h in
    get_launcher-found answers' q seen' launchers' r' l grown' (later _ l (rw (← same) here))
