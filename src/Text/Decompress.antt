-- ===== src/Text/Decompress.antt =====
-- `decompress_blob` on what the build's `compress_bytes` made, and on more bytes than are expected.
use librtcx.Prelude.{
  ℕ, ◌<◌, ◌≡◌, refl, [], ◌∷◌, true, false, Option, some, ok, Bytes, codes, text_eq, text_eq_iff,
  length, drop, arith,
}
use mathlib.Core.List.{append-nil}
use librtcx.Embed.{compress_bytes}
use librtcx.Text.{within, overrun, copy, decompress_blob}

drop-whole : (buffer bytes : Bytes) → length buffer ≡ length bytes → drop (length bytes) buffer ≡ []
drop-whole [] [] e = refl
drop-whole (c ∷ buffer) [] e = absurd (omega arith)
drop-whole [] (d ∷ bytes) e = absurd (omega arith)
drop-whole (c ∷ buffer) (d ∷ bytes) e = drop-whole buffer bytes (omega arith)

none_is_not_zstd :
    (compression : Bytes)
    → text_eq compression (codes "none") ≡ true
    → text_eq compression (codes "zstd") ≡ false
unfolding text_eq
none_is_not_zstd compression h = rw ((text_eq_iff compression (codes "none")).0 h, text_eq) refl

-- Where `ZSTD_decompress` inverts `ZSTD_compress`, and a buffer of a size has that many bytes, what
-- the build compressed is what the program decompresses, with either compression.
pub decompress_blob-compress_bytes :
    (compress : Bytes → Option Bytes) (decompress : ℕ → Bytes → Option Bytes) (fresh : ℕ → Bytes)
    (bytes compression compressed : Bytes)
    → ((b c : Bytes) → compress b ≡ some c → decompress (length b) c ≡ some b)
    → ((n : ℕ) → length (fresh n) ≡ n)
    → compress_bytes compress bytes compression ≡ ok compressed
    → decompress_blob decompress fresh compressed (length bytes) compression ≡ ok (within bytes)
unfolding compress_bytes decompress_blob copy
decompress_blob-compress_bytes compress decompress fresh bytes compression compressed inverse sized
      e =
    ground (
      arith,
      none_is_not_zstd compression,
      inverse bytes compressed,
      sized (length bytes),
      drop-whole (fresh (length bytes)) bytes,
      append-nil bytes,
    )

-- With no compression, more bytes than the expected size are written behind the end of the buffer
-- of that size, and nothing is thrown.
pub decompress_blob_overruns :
    (decompress : ℕ → Bytes → Option Bytes) (fresh : ℕ → Bytes) (bytes : Bytes) (size : ℕ)
    → length (fresh size) ≡ size
    → size < length bytes
    → decompress_blob decompress fresh bytes size (codes "none") ≡ ok overrun
unfolding decompress_blob copy text_eq
decompress_blob_overruns decompress fresh bytes size sized more = ground arith
