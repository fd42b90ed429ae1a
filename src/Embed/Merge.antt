-- ===== src/Embed/Merge.antt =====
-- What the merged bytes and their ranges are good for: each file is read back from its range, and
-- what the build compressed is decompressed at run time.
use librtcx.Prelude.{
  ℕ, ◌+◌, ◌≡◌, refl, sym, ap, ap₂, ◌∙◌, List, [], ◌∷◌, ◌++◌, map, Bytes, length, take, drop, get_or,
  length-append, take-append_left, drop-append_left, All,
}
use mathlib.Core.List.{append_assoc, append-nil}
use librtcx.Embed.{SizeRange, merge_from, merge_bytes_with_null_terminators}

-- The bytes of a range.
abbrev pub slice : Bytes → SizeRange → Bytes
slice merged r = take r.size (drop r.offset merged)

abbrev Terminated : Bytes → SizeRange → Type 0
Terminated merged r = get_or merged (r.offset + r.size) 1 ≡ 0

merge_from-prefix :
    (merged : Bytes) (bytes_lists : List Bytes)
    → (rest : Bytes) × ((merge_from merged bytes_lists).0 ≡ merged ++ rest)
unfolding merge_from
merge_from-prefix merged [] = ([], sym (append-nil merged))
merge_from-prefix merged (b ∷ bytes_lists) =
    let (rest, e) = merge_from-prefix (merged ++ (b ++ 0 ∷ [])) bytes_lists in
    ((b ++ 0 ∷ []) ++ rest, e ∙ append_assoc merged (b ++ 0 ∷ []) rest)

get_or-append : (s : Bytes) (c : ℕ) (t : Bytes) → get_or (s ++ c ∷ t) (length s) 1 ≡ c
get_or-append [] c t = refl
get_or-append (d ∷ s) c t = get_or-append s c t

-- The range of a list of bytes that stands in the merged bytes, with its terminator.
slice-merged :
    (merged b rest : Bytes)
    → let r : SizeRange = record { offset = length merged; size = length b } in
      let all = merged ++ ((b ++ 0 ∷ []) ++ rest) in (slice all r ≡ b) × Terminated all r
slice-merged merged b rest =
    let whole : merged ++ ((b ++ 0 ∷ []) ++ rest) ≡ (merged ++ b) ++ 0 ∷ rest =
      ap (λ t. merged ++ t) (append_assoc b (0 ∷ []) rest)
      ∙ sym (append_assoc merged b (0 ∷ rest)) in
    (
      ap (take (length b)) (drop-append_left (length merged) merged _ refl)
          ∙ ap (take (length b)) (append_assoc b (0 ∷ []) rest)
          ∙ take-append_left (length b) b (0 ∷ rest) refl,
      rw (whole, ← length-append merged b) (get_or-append (merged ++ b) 0 rest),
    )

merge_from-ranges :
    (merged : Bytes) (bytes_lists : List Bytes)
    → let m = merge_from merged bytes_lists in
      (map (slice m.0) m.1 ≡ bytes_lists) × All (Terminated m.0) m.1
unfolding merge_from
merge_from-ranges merged [] = (refl, tt)
merge_from-ranges merged (b ∷ bytes_lists) =
    let (rest, e) = merge_from-prefix (merged ++ (b ++ 0 ∷ [])) bytes_lists in
    let (slices, ends) = merge_from-ranges (merged ++ (b ++ 0 ∷ [])) bytes_lists in
    let (here, ended) = slice-merged merged b rest in
    let whole = e ∙ append_assoc merged (b ++ 0 ∷ []) rest in
    (ap₂ ◌∷◌ (rw whole here) slices, (rw whole ended, ends))

-- The ranges of merged files cut out each file again, in their order, and each range is followed by
-- a zero byte.
pub merge_bytes_with_null_terminators-slices :
    (bytes_lists : List Bytes)
    → let m = merge_bytes_with_null_terminators bytes_lists in
      (map (slice m.0) m.1 ≡ bytes_lists) × All (λ r. get_or m.0 (r.offset + r.size) 1 ≡ 0) m.1
unfolding merge_bytes_with_null_terminators
merge_bytes_with_null_terminators-slices bytes_lists = merge_from-ranges [] bytes_lists
