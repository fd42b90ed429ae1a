-- ===== src/Planner/Build.antt =====
-- What a build leaves open, and what a failed one leaves in the cache.
use librtcx.Prelude.{
  ℕ, suc, ◌≡◌, inl, inr, ◌∷◌, List, [], ◌++◌, Bool, true, false, some, Error, ok, raise, Bytes,
  arith, Option-cases, Outcome-cases, Bool-cases, ap, sym, refl, ◌∙◌,
}
use mathlib.Core.List.{append-nil, append_assoc}
use librtcx.Planner.{
  Fragment, Linker, add_to, add_fragments, complete, create, AlgorithmPlanner, AlgorithmLauncher,
  Launchers, LinkAnswers, Resources, link, load, link_and_load, link_options, build,
  locked_launcher, get_launcher,
}

abbrev pub with_added : Linker → List Fragment → Linker
with_added handle more = record handle { added = handle.added ++ more }

-- Each fragment was taken by a handle that those before it had been added to.
abbrev pub AreTaken : (Linker → Fragment → Bool) → Linker → List Fragment → Type 0
AreTaken add_succeeds handle [] = Unit
AreTaken add_succeeds handle (frag ∷ fragments) =
    (add_succeeds handle frag ≡ true)
    × AreTaken add_succeeds (with_added handle (frag ∷ [])) fragments

-- A loop that returns has added all fragments, one after the other.
add_fragments-ok :
    (add_succeeds : Linker → Fragment → Bool) (fragments : List Fragment) (handle out : Linker)
    → add_fragments add_succeeds fragments handle ≡ ok out
    → (out ≡ with_added handle fragments) × AreTaken add_succeeds handle fragments
unfolding add_fragments add_to
add_fragments-ok add_succeeds [] handle out e =
    let same : handle ≡ out = ground (arith, e) in
    (sym same ∙ ap (λ l. record handle { added = l }) (sym (append-nil handle.added)), tt)
add_fragments-ok add_succeeds (frag ∷ fragments) handle out e =
    elim (Bool-cases (add_succeeds handle frag)) [
      | inl t ↦
          let next = with_added handle (frag ∷ []) in
          let rest : add_fragments add_succeeds fragments next ≡ ok out =
            sym (rw (add_fragments, t) refl) ∙ e in
          let (same, taken) = add_fragments-ok add_succeeds fragments next out rest in
          (
            same
                ∙ ap (λ l. record handle { added = l })
                    (append_assoc handle.added (frag ∷ []) fragments),
            (t, taken),
          )
      | inr f ↦ absurd (ground (arith, e, f))
    ]

module _ (answers : LinkAnswers) (p : AlgorithmPlanner) where
  -- The handle to which all fragments were added, not linked yet or linked.
  abbrev pub linker : ℕ × ℕ → Bool → Linker
  linker c is_complete = record {
    options = link_options c p.linktime_extra_options;
    added = p.fragments;
    is_complete = is_complete;
  }

  -- A link that returns gives the binary of the handle that took all fragments and was linked.
  link-ok :
      (c : ℕ × ℕ) (cubin : Bytes)
      → link answers p (link_options c p.linktime_extra_options) ≡ ok cubin
      → AreTaken answers.add_succeeds (create (link_options c p.linktime_extra_options)) p.fragments
        × (answers.complete_succeeds (linker c false) ≡ true)
        × (answers.cubin (linker c true) ≡ some cubin)
  unfolding link complete
  link-ok c cubin e =
      let start = create (link_options c p.linktime_extra_options) in
      elim (Outcome-cases (add_fragments answers.add_succeeds p.fragments start)) [
        | inl (handle, a) ↦
            let (same, taken) = add_fragments-ok answers.add_succeeds p.fragments start handle a in
            let all : add_fragments answers.add_succeeds p.fragments start ≡ ok (linker c false) =
              a ∙ ap ok same in
            let (linked, made) : (answers.complete_succeeds (linker c false) ≡ true)
                × (answers.cubin (linker c true) ≡ some cubin) =
              ground (arith, e, all) in
            (taken, linked, made)
        | inr (inl (x, a)) ↦ absurd (ground (arith, e, a))
        | inr (inr a) ↦ absurd (ground (arith, e, a))
      ]

  built :
      (r : Resources) (c : ℕ × ℕ) (cubin : Bytes) (l : AlgorithmLauncher)
      → answers.capability ≡ some c
      → link answers p (link_options c p.linktime_extra_options) ≡ ok cubin
      → (build answers p r).1 ≡ ok l
      → ((build answers p r).0.link_handles ≡ r.link_handles)
        × ((build answers p r).0.libraries ≡ l.library ∷ r.libraries)
        × (answers.kernel l.library p.entrypoint ≡ some l.kernel)
        × (answers.load cubin ≡ some l.library)
  unfolding build link_and_load load
  built r c cubin l e f h = ground arith

  -- A build that returns has linked.
  build-linked :
      (r : Resources) (l : AlgorithmLauncher)
      → (build answers p r).1 ≡ ok l
      → (c : ℕ × ℕ) × (cubin : Bytes) × (answers.capability ≡ some c)
        × (link answers p (link_options c p.linktime_extra_options) ≡ ok cubin)
        × ((build answers p r).0.link_handles ≡ r.link_handles)
        × ((build answers p r).0.libraries ≡ l.library ∷ r.libraries)
        × (answers.kernel l.library p.entrypoint ≡ some l.kernel)
        × (answers.load cubin ≡ some l.library)
  unfolding build link_and_load load
  build-linked r l h = elim (Option-cases answers.capability) [
    | inl none_there ↦ absurd (ground arith)
    | inr (c, e) ↦ elim (Outcome-cases (link answers p (link_options c p.linktime_extra_options))) [
      | inl (cubin, f) ↦ let (a, b, d, g) = built r c cubin l e f h in (c, cubin, e, f, a, b, d, g)
      | inr (inl (x, f)) ↦ absurd (ground arith)
      | inr (inr f) ↦ absurd (ground arith)
    ]
  ]

  -- A build that succeeds has closed its link handle, has loaded the one library that the launcher
  -- owns, and gives the kernel of the planner's entry point in it. The library is that of the binary
  -- that nvJitLink had for a handle which was made with the options of the device's compute capability
  -- and the planner's, took each of the planner's fragments in their order and nothing else, and was
  -- linked without an error.
  pub build-ok :
      (r : Resources) (l : AlgorithmLauncher)
      → (build answers p r).1 ≡ ok l
      → ((build answers p r).0.link_handles ≡ r.link_handles)
        × ((build answers p r).0.libraries ≡ l.library ∷ r.libraries)
        × (answers.kernel l.library p.entrypoint ≡ some l.kernel)
        × ((c : ℕ × ℕ) × (cubin : Bytes) × (answers.capability ≡ some c)
            × AreTaken answers.add_succeeds
                (create (link_options c p.linktime_extra_options))
                p.fragments
            × (answers.complete_succeeds (linker c false) ≡ true)
            × (answers.cubin (linker c true) ≡ some cubin)
            × (answers.load cubin ≡ some l.library))
  build-ok r l h =
      let (c, cubin, at, f, a, b, d, g) = build-linked r l h in
      let (taken, linked, made) = link-ok c cubin f in
      (a, b, d, (c, cubin, at, taken, linked, made, g))

  -- A failure of a nvJitLink call on an open handle, before its destruction, leaves the handle
  -- open.
  pub build_leaks :
      (r : Resources) (c : ℕ × ℕ) (e : Error)
      → answers.capability ≡ some c
      → answers.create_succeeds (link_options c p.linktime_extra_options) ≡ true
      → link answers p (link_options c p.linktime_extra_options) ≡ raise e
      → ((build answers p r).1 ≡ raise e)
        × ((build answers p r).0.link_handles ≡ suc r.link_handles)
  unfolding build link_and_load
  build_leaks r c e cap created failed = ground arith

  -- A call that fails does so because its build failed, and leaves the cache as it was.
  pub get_launcher-raise :
      (seen launchers : Launchers) (r : Resources) (e : Error)
      → (get_launcher answers p seen launchers r).1 ≡ raise e
      → ((get_launcher answers p seen launchers r).0.0 ≡ launchers)
        × ((build answers p r).1 ≡ raise e)
  unfolding get_launcher locked_launcher
  get_launcher-raise seen launchers r e h = ground arith
