-- ===== src/Hash/Layout.antt =====
-- The bytes of a hash: the two directions of `std::bit_cast`, and the subscript.
use mathlib.Core.List.{reverse}
use native.Mathlib.Nat.{pow-suc}
use librtcx.Prelude.{
  ℕ, zero, suc, ◌+◌, ◌*◌, ◌/◌, ◌%◌, ◌^◌, ◌<◌, ◌≡◌, refl, ap₂, [], ◌∷◌, map, arith, Bytes, length,
  All,
}
use librtcx.Hash.{Hash128, to_bytes, of_bytes, bytes, subscript}

pub length-to_bytes : (n v : ℕ) → length (to_bytes n v) ≡ n
unfolding to_bytes
length-to_bytes zero v = refl
length-to_bytes (suc n) v = omega (arith, length-to_bytes n (v / 256))

abbrev pub IsByte : ℕ → Type 0
IsByte b = b < 256

pub to_bytes-IsByte : (n v : ℕ) → All IsByte (to_bytes n v)
unfolding to_bytes
to_bytes-IsByte zero v = tt
to_bytes-IsByte (suc n) v = (omega arith, to_bytes-IsByte n (v / 256))

pub of_bytes-to_bytes : (n v : ℕ) → v < 256 ^ n → of_bytes (to_bytes n v) ≡ v
unfolding to_bytes of_bytes
of_bytes-to_bytes zero v h = omega arith
of_bytes-to_bytes (suc n) v h =
    omega (arith, of_bytes-to_bytes n (v / 256) (omega (arith, pow-suc 256 n)))

pub to_bytes-of_bytes :
    (n : ℕ) (bs : Bytes) → length bs ≡ n → All IsByte bs → to_bytes n (of_bytes bs) ≡ bs
unfolding to_bytes of_bytes
to_bytes-of_bytes zero [] e h = refl
to_bytes-of_bytes zero (b ∷ bs) e h = absurd (omega arith)
to_bytes-of_bytes (suc n) [] e h = absurd (omega arith)
to_bytes-of_bytes (suc n) (b ∷ bs) e h =
    let high : (b + 256 * of_bytes bs) / 256 ≡ of_bytes bs = omega (arith, h.0) in
    let low : (b + 256 * of_bytes bs) % 256 ≡ b = omega (arith, h.0) in
    ap₂ ◌∷◌ low (rw high (to_bytes-of_bytes n bs (omega arith) h.1))

pub of_bytes-lt : (n : ℕ) (bs : Bytes) → length bs ≡ n → All IsByte bs → of_bytes bs < 256 ^ n
unfolding of_bytes
of_bytes-lt zero [] e h = omega arith
of_bytes-lt zero (b ∷ bs) e h = absurd (omega arith)
of_bytes-lt (suc n) [] e h = absurd (omega arith)
of_bytes-lt (suc n) (b ∷ bs) e h =
    omega (arith, of_bytes-lt n bs (omega arith) h.1, h.0, pow-suc 256 n)

abbrev pub indices : Bytes
indices = 0 ∷ 1 ∷ 2 ∷ 3 ∷ 4 ∷ 5 ∷ 6 ∷ 7 ∷ 8 ∷ 9 ∷ 10 ∷ 11 ∷ 12 ∷ 13 ∷ 14 ∷ 15 ∷ []

-- The subscripts 0 to 15 of a hash are its bytes in memory in reverse order, so that the bytes
-- which the subscripts give, read with the last one lowest, are the hash again.
pub subscript_big_endian :
    (h : Hash128)
    → h < 2 ^ 128
    → (map (subscript h) indices ≡ reverse (bytes h))
      × (of_bytes (reverse (map (subscript h) indices)) ≡ h)
unfolding subscript bytes
subscript_big_endian h lt = (refl, of_bytes-to_bytes 16 h lt)
