-- ===== src/Macros.antt =====
-- include/rtcx/macros.hpp, and the checks at the head of src/rtcx.cpp, with the messages of the
-- exceptions that they throw. Of the functions of C they use `snprintf`; `std::format` puts texts
-- together. The names that a library gives to a result are arguments.
pub mod Buffers
pub mod Results
pub mod Reports
use librtcx.Prelude.{
  ℕ, zero, suc, ◌+◌, ◌-◌, ◌^◌, List, [], ◌∷◌, ◌++◌, Bool, true, false, Option, none, some, Error,
  runtime_error, logic_error, Bytes, codes, if◌then◌else◌, ◌==◌, leb, ltb, length, take, drop,
  to_string,
}

-- What a check leaves: a value; an exception with the text of `what()`; or behaviour that C++ does
-- not define, such as a write beyond the end of a buffer or an `int` that is too large.
pub data Checked {ℓ} (A : Type ℓ) : Type ℓ where
  passed : A → Checked A
  throws : Error → Bytes → Checked A
  undefined : Checked A

infixl 5 ◌>>=◌
abbrev ◌>>=◌ {ℓ κ} : {A : Type ℓ} {B : Type κ} → Option A → (A → Option B) → Option B
none >>= f = none
some a >>= f = f a

-- What `snprintf` returns for a format that gives the text, if it is not negative: the length, which
-- an `int` must hold.
unfoldable pub snprintf_size : Option Bytes → Option ℕ
snprintf_size none = none
snprintf_size (some text) = if ltb (length text) (2 ^ 31) then some (length text) else none

-- Characters put into a buffer from an index on, if it has room for them.
unfoldable pub write_at : Bytes → ℕ → Bytes → Option Bytes
write_at buf at s =
    if leb (at + length s) (length buf)
    then some (take at buf ++ (s ++ drop (at + length s) buf))
    else none

-- `snprintf(buf + at, n, ...)` writes at most n characters, of which the last is 0.
unfoldable pub snprintf : Bytes → ℕ → ℕ → Bytes → Option Bytes
unfolding write_at
snprintf buf at zero text = some buf
snprintf buf at (suc n) text = write_at buf at (take n text ++ 0 ∷ [])

unfoldable pub zeros : ℕ → Bytes
zeros zero = []
zeros (suc n) = 0 ∷ zeros n

-- The `std::vector` of SET_ERROR_MSG, after the three calls of `snprintf`, without its last byte.
unfoldable pub fill_message : ℕ → ℕ → ℕ → Bytes → Bytes → Bytes → Option Bytes
unfolding snprintf zeros
fill_message size1 size2 size3 location_prefix location text = do
  let size = size1 + size2 + size3 + 1
  buf1 ← snprintf (zeros size) 0 (size1 + 1) location_prefix
  buf2 ← snprintf buf1 size1 (size2 + 1) location
  buf3 ← snprintf buf2 (size1 + size2) (size3 + 1) text
  some (take (size - 1) buf3)

abbrev pub sizes : Bytes → Bytes → Bytes → Option (ℕ × ℕ × ℕ)
sizes location_prefix location text = do
  size1 ← snprintf_size (some location_prefix)
  size2 ← snprintf_size (some location)
  size3 ← snprintf_size (some text)
  some (size1, size2, size3)

-- SET_ERROR_MSG, of the text that the format gives, if it gives one; an `int` holds the size.
unfoldable pub set_error_msg : Bytes → Bytes → Bytes → Option Bytes → Checked Bytes
unfolding snprintf_size
set_error_msg msg location_prefix location none =
    throws runtime_error (codes "Error in snprintf, cannot format rtcx exception.")
set_error_msg msg location_prefix location (some text) =
    elim (sizes location_prefix location text) [
      | none ↦ throws runtime_error (codes "Error in snprintf, cannot format rtcx exception.")
      | some (size1, size2, size3) ↦
          if ltb (size1 + size2 + size3 + 1) (2 ^ 31)
          then elim (fill_message size1 size2 size3 location_prefix location text) [
            | some line ↦ passed (msg ++ line)
            | none ↦ undefined
          ]
          else undefined
    ]

-- `file=%s line=%d: ` of the place of the check.
unfoldable pub location : Bytes → ℕ → Bytes
location file line = codes "file=" ++ (file ++ (codes " line=" ++ (to_string line ++ codes ": ")))

-- The exception of a check, with a message or with the one that the message itself threw.
unfoldable pub throw_message {ℓ} : {A : Type ℓ} → Error → Checked Bytes → Checked A
throw_message e (passed msg) = throws e msg
throw_message e (throws x msg) = throws x msg
throw_message e undefined = undefined

-- RTCX_EXPECTS and RTCX_FAIL of macros.hpp, of what the format gives.
unfoldable pub fail_at {ℓ} : {A : Type ℓ} → Bytes → ℕ → Option Bytes → Checked A
unfolding throw_message
fail_at file line text =
    throw_message logic_error
      (set_error_msg [] (codes "RTCX failure at ") (location file line) text)

unfoldable pub expects_at : Bool → Bytes → ℕ → Option Bytes → Checked (Unit {0})
expects_at true file line text = passed tt
expects_at false file line text = fail_at file line text

-- The last error that the CUDA runtime keeps; `cudaGetLastError` resets it.
pub record CudaRuntime : Type 0 where
  pub last_error : ℕ
  pub error_name : ℕ → Bytes
  pub error_string : ℕ → Bytes

-- call='%s', Reason=%s:%s
abbrev pub cuda_text : Bytes → Bytes → Bytes → Bytes
cuda_text call name reason =
    codes "call='" ++ (call ++ (codes "', Reason=" ++ (name ++ (codes ":" ++ reason))))

-- RTCX_CUDA_TRY, after the call gave a status.
unfoldable pub cuda_try : Bytes → ℕ → Bytes → ℕ → CudaRuntime → CudaRuntime × Checked (Unit {0})
unfolding throw_message
cuda_try file line call status s = if status == 0 then (s, passed tt) else (
  record s { last_error = 0 },
  throw_message runtime_error (
      set_error_msg [] (codes "CUDA error encountered at: ") (location file line)
        (some (cuda_text call (s.error_name status) (s.error_string status)))),
)
