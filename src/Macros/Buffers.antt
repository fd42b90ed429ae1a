-- ===== src/Macros/Buffers.antt =====
-- The buffer of SET_ERROR_MSG of include/rtcx/macros.hpp.
use librtcx.Prelude.{
  ℕ, zero, suc, ◌+◌, ◌-◌, ◌<◌, ◌^◌, ◌≡◌, refl, ap, sym, ◌∙◌, [], ◌∷◌, ◌++◌, some, Bytes, arith,
  length, take, drop, length-append, take-append_left,
}
use mathlib.Core.List.{append_assoc}
use librtcx.Macros.{passed, snprintf_size, write_at, snprintf, zeros, fill_message, set_error_msg}

length-zeros : (n : ℕ) → length (zeros n) ≡ n
unfolding zeros
length-zeros zero = refl
length-zeros (suc n) = omega (arith, length-zeros n)

suc_plus : (n k : ℕ) → suc n + k ≡ suc (n + k)
suc_plus n k = omega arith

drop-zeros : (n k : ℕ) → drop n (zeros (n + k)) ≡ zeros k
unfolding zeros
drop-zeros zero k = ap zeros (omega arith)
drop-zeros (suc n) k = ap (λ m. drop (suc n) (zeros m)) (suc_plus n k) ∙ drop-zeros n k

drop-append_past : (xs ys : Bytes) (n : ℕ) → drop (length xs + n) (xs ++ ys) ≡ drop n ys
drop-append_past [] ys n = ap (λ m. drop m ys) (omega arith)
drop-append_past (x ∷ xs) ys n =
    ap (λ m. drop m (x ∷ (xs ++ ys))) (suc_plus (length xs) n) ∙ drop-append_past xs ys n

-- Characters written where the first unused bytes of a buffer are.
write_at-zeros :
    (done s : Bytes) (k : ℕ)
    → write_at (done ++ zeros (length s + k)) (length done) s ≡ some (done ++ (s ++ zeros k))
unfolding write_at
write_at-zeros done s k =
    let room = length-append done (zeros (length s + k)) in
    let free = length-zeros (length s + k) in
    ground (
      arith,
      room,
      free,
      take-append_left (length done) done (zeros (length s + k)) refl,
      drop-append_past done (zeros (length s + k)) (length s),
      drop-zeros (length s) k,
    )

take_all : (s : Bytes) → take (length s) s ≡ s
take_all [] = refl
take_all (c ∷ s) = ap (◌∷◌ c) (take_all s)

-- A whole text printed there, with the 0 that ends it.
snprintf-zeros :
    (done text : Bytes) (k n : ℕ)
    → n ≡ length text + suc k
    → snprintf (done ++ zeros n) (length done) (suc (length text)) text
      ≡ some ((done ++ text) ++ zeros (suc k))
unfolding snprintf zeros
snprintf-zeros done text k n e =
    let s : Bytes = text ++ 0 ∷ [] in
    let all : n ≡ length s + k = omega (arith, length-append text (0 ∷ []), e) in
    rw (take_all text) (
      ap (λ m. write_at (done ++ zeros m) (length done) s) all
      ∙ write_at-zeros done s k
      ∙ ap some (
          ap (λ r. done ++ r) (append_assoc text (0 ∷ []) (zeros k))
          ∙ sym (append_assoc done text (0 ∷ zeros k))))

snprintf_appends :
    (done text : Bytes) (k n at size : ℕ)
    → n ≡ length text + suc k
    → at ≡ length done
    → size ≡ suc (length text)
    → snprintf (done ++ zeros n) at size text ≡ some ((done ++ text) ++ zeros (suc k))
snprintf_appends done text k n at size e a b =
    ap (λ i. snprintf (done ++ zeros n) i size text) a
    ∙ ap (λ i. snprintf (done ++ zeros n) (length done) i text) b
    ∙ snprintf-zeros done text k n e

-- The buffer that is as large as the three texts and one byte more holds them one behind the other.
pub fill_message-joins :
    (location_prefix location text : Bytes)
    → fill_message
        (length location_prefix)
        (length location)
        (length text)
        location_prefix
        location
        text
      ≡ some (location_prefix ++ location ++ text)
unfolding fill_message
fill_message-joins p l t =
    let a = length p in
    let b = length l in
    let c = length t in
    let first =
      snprintf_appends [] p (b + c) (a + b + c + 1) 0 (a + 1) (omega arith) refl (omega arith) in
    let second = snprintf_appends p l c (suc (b + c)) a (b + 1) (omega arith) refl (omega arith) in
    let third =
      snprintf_appends (p ++ l) t 0 (suc c) (a + b) (c + 1) (omega arith)
        (omega (arith, length-append p l)) (omega arith) in
    let whole =
      take-append_left (a + b + c + 1 - 1) (p ++ l ++ t) (zeros 1)
        (omega (arith, length-append (p ++ l) t, length-append p l)) in
    rw (first, fill_message) (rw (second, fill_message) (rw (third, fill_message) (ap some whole)))

-- SET_ERROR_MSG appends the prefix, the location and the text to the message, and writes nothing
-- beyond the end of its buffer, where an `int` holds the lengths of the three and one more.
pub set_error_msg-joins :
    (msg location_prefix location text : Bytes)
    → length location_prefix + length location + length text + 1 < 2 ^ 31
    → set_error_msg msg location_prefix location (some text)
      ≡ passed (msg ++ (location_prefix ++ location ++ text))
unfolding set_error_msg snprintf_size
set_error_msg-joins msg p l t fits = ground (arith, fits, fill_message-joins p l t)
