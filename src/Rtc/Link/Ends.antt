-- ===== src/Rtc/Link/Ends.antt =====
-- How `link_library` ends.
use librtcx.Prelude.{List, [], ◌∷◌, Bool, true, not, ◌&&◌, ◌||◌, ◌==◌, ltb, length}
use librtcx.Rtc.Compile.{is_given}
use librtcx.Rtc.Link.{FileFragment, MemoryFragment, LinkParams, is_linked_type}

every : {A : Type 0} → (A → Bool) → List A → Bool
every test [] = true
every test (x ∷ xs) = test x && every test xs

-- The parameters of a link: a name, a type that can be linked, and one fragment at least, each with
-- a path or with bytes.
abbrev pub is_linkable : LinkParams → Bool
unfolding every is_linked_type
is_linkable p =
    is_given p.name
    && (is_linked_type p.output_type
        && ((not (length p.file_fragments == 0) || not (length p.memory_fragments == 0))
            && (every (λ (f : FileFragment). is_given f.path) p.file_fragments
                && every (λ (f : MemoryFragment). ltb 0 (length f.binary)) p.memory_fragments)))
