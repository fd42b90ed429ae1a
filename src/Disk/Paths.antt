-- ===== src/Disk/Paths.antt =====
-- Object paths: two objects never share one, and the hash is read back from it.
use mathlib.Core.List.{append_assoc, append-nil}
use librtcx.Prelude.{
  ℕ, ◌-◌, ◌%◌, ◌/◌, ◌<◌, ◌≡◌, refl, ap, subst, sym, take-append-drop, ◌∙◌, ◌≢◌, [], ◌∷◌, ◌++◌, Bool,
  true, false, ok, arith, Bytes, codes, if◌then◌else◌, ◌==◌, ltb, text_eq, text_eq_iff, before,
  before-append, ends_with, length, take, drop, get_or, All, All-append, passes, of_passes,
  drop-append_left, length-append,
}
use librtcx.Hash.{Hash128, IsHash128, bytes, hex_chars, hex_digits, to_hex_string, view}
use librtcx.Hash
use librtcx.Hash.RoundTrip.{view-make, length-bytes, length-view, parse-to_hex_string}
use librtcx.Disk.{
  ObjectType, library, blob, object_tag, object_name, object_path, filename_from, filename,
  path_hash, tmp_path,
}

-- Neither a dot nor a slash.
abbrev IsPlain : ℕ → Type 0
IsPlain c = 47 < c

abbrev plain_digit : ℕ → Bool
plain_digit x = ltb 47 (get_or hex_chars x 0)

plain_digits : passes plain_digit 16 ≡ true
unfolding passes
plain_digits = refl

hex_digits-IsPlain : (bs : Bytes) → All IsPlain (hex_digits bs)
unfolding hex_digits
hex_digits-IsPlain [] = tt
hex_digits-IsPlain (b ∷ bs) = (
  ground (arith, of_passes plain_digit 16 (b / 16 % 16) plain_digits),
  (ground (arith, of_passes plain_digit 16 (b % 16) plain_digits), hex_digits-IsPlain bs),
)

view-IsPlain : (h : Hash128) → All IsPlain (view (to_hex_string h))
unfolding to_hex_string
view-IsPlain h = rw (view-make (bytes h) (length-bytes h)) (hex_digits-IsPlain (bytes h))

All-weaken : {P Q : ℕ → Type 0} (f : (c : ℕ) → P c → Q c) (s : Bytes) → All P s → All Q s
All-weaken f [] h = tt
All-weaken f (c ∷ s) h = (f c h.0, All-weaken f s h.1)

filename_from-plain : (seen s : Bytes) → All (λ c. c ≢ b'/') s → filename_from seen s ≡ seen ++ s
unfolding filename_from
filename_from-plain seen [] h = sym (append-nil seen)
filename_from-plain seen (c ∷ s) h =
    ground (arith, h.0, filename_from-plain (seen ++ c ∷ []) s h.1, append_assoc seen (c ∷ []) s)

filename_from-append :
    (seen dir name : Bytes)
    → All (λ c. c ≢ b'/') name
    → filename_from seen (dir ++ b'/' ∷ name) ≡ name
unfolding filename_from
filename_from-append seen [] name h = filename_from-plain [] name h
filename_from-append seen (c ∷ dir) name h =
    filename_from-append (if c == b'/' then [] else seen ++ c ∷ []) dir name h

object_name-plain : (type : ObjectType) (h : Hash128) → All (λ c. c ≢ b'/') (object_name type h)
unfolding object_name object_tag
object_name-plain library h =
    All-append _ (view (to_hex_string h)) (codes ".cuLibrary.bin")
      (All-weaken (λ c p. omega arith) (view (to_hex_string h)) (view-IsPlain h)) (omega arith)
object_name-plain blob h =
    All-append _ (view (to_hex_string h)) (codes ".blob.bin")
      (All-weaken (λ c p. omega arith) (view (to_hex_string h)) (view-IsPlain h)) (omega arith)

before-object_name :
    (type : ObjectType) (h : Hash128) → before b'.' (object_name type h) ≡ view (to_hex_string h)
unfolding object_name
before-object_name type h =
    before-append b'.' (view (to_hex_string h)) (object_tag type ++ codes ".bin")
      (All-weaken (λ c p. omega arith) (view (to_hex_string h)) (view-IsPlain h))

filename-object_path :
    (dir : Bytes) (type : ObjectType) (h : Hash128)
    → filename (object_path dir type h) ≡ object_name type h
unfolding filename object_path
filename-object_path dir type h =
    filename_from-append [] dir (object_name type h) (object_name-plain type h)

drop-object_name :
    (type : ObjectType) (h : Hash128)
    → drop 32 (object_name type h) ≡ codes "." ++ (object_tag type ++ codes ".bin")
unfolding object_name
drop-object_name type h = drop-append_left 32 (view (to_hex_string h)) _ (length-view h)

object_tag-injective :
    (s t : ObjectType) → object_tag s ++ codes ".bin" ≡ object_tag t ++ codes ".bin" → s ≡ t
unfolding object_tag
object_tag-injective library library e = refl
object_tag-injective library blob e = absurd (ground arith)
object_tag-injective blob library e = absurd (ground arith)
object_tag-injective blob blob e = refl

-- The 128-bit hash of an object is read back from its path, whatever the directory.
pub path_hash-object_path :
    (dir : Bytes) (type : ObjectType) (h : Hash128)
    → IsHash128 h
    → path_hash (object_path dir type h) ≡ ok h
unfolding path_hash
path_hash-object_path dir type h lt =
    ap (λ s. Hash.parse (before b'.' s)) (filename-object_path dir type h)
    ∙ ap Hash.parse (before-object_name type h)
    ∙ parse-to_hex_string h lt

-- Objects of different 128-bit hashes or of different types have different paths in a directory.
pub object_path-injective :
    (dir : Bytes) (s t : ObjectType) (h k : Hash128)
    → IsHash128 h
    → IsHash128 k
    → object_path dir s h ≡ object_path dir t k
    → (s ≡ t) × (h ≡ k)
object_path-injective dir s t h k lh lk e = (
  object_tag-injective s t (
      ap (drop 1) (
        sym (drop-object_name s h)
        ∙ ap (drop 32)
            (sym (filename-object_path dir s h) ∙ ap filename e ∙ filename-object_path dir t k)
        ∙ drop-object_name t k)),
  cc (path_hash-object_path dir s h lh, path_hash-object_path dir t k lk, ap path_hash e),
)

ends_with-append :
    (s t suffix : Bytes) → length t ≡ length suffix → ends_with (s ++ t) suffix ≡ text_eq t suffix
unfolding ends_with
ends_with-append s t suffix e =
    let d : drop (length (s ++ t) - length suffix) (s ++ t) ≡ t =
      drop-append_left (length (s ++ t) - length suffix) s t (omega (arith, length-append s t)) in
    rw (d, ends_with) (ground (arith, length-append s t))

ends_with-append_suffix : (s u v : Bytes) → ends_with s (u ++ v) ≡ true → ends_with s v ≡ true
unfolding ends_with
ends_with-append_suffix s u v h =
    let n = length s - length (u ++ v) in
    let e : drop n s ≡ u ++ v = (text_eq_iff _ _).0 (ground arith) in
    subst (λ z. ends_with z v ≡ true)
      (append_assoc (take n s) u v ∙ ap (◌++◌ (take n s)) (sym e) ∙ take-append-drop n s)
      (ends_with-append (take n s ++ u) v v refl ∙ (text_eq_iff v v).1 refl)

not-ends_with : (s u v : Bytes) → ends_with s v ≡ false → ends_with s (u ++ v) ≡ false
not-ends_with s u v h = ground (arith, ends_with-append_suffix s u v)

object_path_split :
    (dir : Bytes) (type : ObjectType) (h : Hash128)
    → object_path dir type h
      ≡ (dir ++ (codes "/" ++ view (to_hex_string h)))
        ++ (codes "." ++ (object_tag type ++ codes ".bin"))
unfolding object_path object_name
object_path_split dir type h = sym (
    append_assoc dir (codes "/" ++ view (to_hex_string h))
      (codes "." ++ (object_tag type ++ codes ".bin")))

-- The ending by which `preload_from_disk` tells the types of objects apart is that of the type.
pub ends_with-object_path :
    (dir : Bytes) (type : ObjectType) (h : Hash128)
    → (ends_with (object_path dir type h) (codes ".blob.bin")
        ≡ (elim type [ blob ↦ true | library ↦ false ]))
      × (ends_with (object_path dir type h) (codes ".cuLibrary.bin")
          ≡ (elim type [ blob ↦ false | library ↦ true ]))
unfolding object_tag text_eq
ends_with-object_path dir blob h =
    let p = dir ++ (codes "/" ++ view (to_hex_string h)) in
    rw object_path_split (
      ends_with-append p (codes ".blob.bin") (codes ".blob.bin") refl,
      not-ends_with (p ++ codes ".blob.bin") (codes ".cuLi") (codes "brary.bin")
          (ends_with-append p (codes ".blob.bin") (codes "brary.bin") refl),
    )
ends_with-object_path dir library h =
    let p = dir ++ (codes "/" ++ view (to_hex_string h)) in
    rw object_path_split (
      ap (λ s. ends_with s (codes ".blob.bin"))
            (sym (append_assoc p (codes ".cuLi") (codes "brary.bin")))
          ∙ ends_with-append (p ++ codes ".cuLi") (codes "brary.bin") (codes ".blob.bin") refl,
      ends_with-append p (codes ".cuLibrary.bin") (codes ".cuLibrary.bin") refl,
    )

object_path-bin :
    (dir : Bytes) (type : ObjectType) (h : Hash128)
    → ends_with (object_path dir type h) (codes ".bin") ≡ true
unfolding object_tag text_eq
object_path-bin dir blob h =
    let p = dir ++ (codes "/" ++ view (to_hex_string h)) in
    rw object_path_split (
      ap (λ s. ends_with s (codes ".bin")) (sym (append_assoc p (codes ".blob") (codes ".bin")))
      ∙ ends_with-append (p ++ codes ".blob") (codes ".bin") (codes ".bin") refl)
object_path-bin dir library h =
    let p = dir ++ (codes "/" ++ view (to_hex_string h)) in
    rw object_path_split (
      ap (λ s. ends_with s (codes ".bin"))
        (sym (append_assoc p (codes ".cuLibrary") (codes ".bin")))
      ∙ ends_with-append (p ++ codes ".cuLibrary") (codes ".bin") (codes ".bin") refl)

tmp_path-not-bin :
    (dir s : Bytes)
    → length s ≡ 6
    → All (λ c. c ≢ b'.') s
    → ends_with (tmp_path dir s) (codes ".bin") ≡ false
unfolding text_eq
tmp_path-not-bin dir (a ∷ b ∷ c ∷ d ∷ e ∷ f ∷ []) n h =
    let p = dir ++ (codes "/rtcx-bin-" ++ a ∷ b ∷ []) in
    ap (λ s. ends_with s (codes ".bin"))
      (sym (append_assoc dir (codes "/rtcx-bin-" ++ a ∷ b ∷ []) (c ∷ d ∷ e ∷ f ∷ [])))
    ∙ ends_with-append p (c ∷ d ∷ e ∷ f ∷ []) (codes ".bin") refl
    ∙ ground (arith, h.1.1.0)
tmp_path-not-bin dir s n h = absurd (omega arith)

-- A temporary file is no object, since the six characters that `mkstemp` chooses hold no dot.
pub tmp_path-ne-object_path :
    (tmp_dir dir s : Bytes) (type : ObjectType) (h : Hash128)
    → length s ≡ 6
    → All (λ c. c ≢ b'.') s
    → tmp_path tmp_dir s ≢ object_path dir type h
tmp_path-ne-object_path tmp_dir dir s type h n dots e = cc (
  tmp_path-not-bin tmp_dir s n dots,
  object_path-bin dir type h,
  ap (λ p. ends_with p (codes ".bin")) e,
)
