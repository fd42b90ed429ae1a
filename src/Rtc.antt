-- ===== src/Rtc.antt =====
-- The compiler and the linker of src/rtcx.cpp: the types of binaries, what a call holds while it
-- runs, and the checks of results.
pub mod Ends
pub mod Compile
pub mod Link
use librtcx.Prelude.{
  ℕ, zero, suc, ◌+◌, ◌-◌, List, [], ◌∷◌, ◌++◌, Bool, true, false, Option, none, some, Outcome, ok,
  raise, abort, runtime_error, logic_error, bad_alloc, expects, Bytes, codes, if◌then◌else◌, ◌==◌,
  ltb, take, to_string,
}
use librtcx.Prelude.Actions.{Act, pure, fail, ◌>>=◌, ◌>>◌, require}

-- `enum class binary_type`.
pub data BinaryType : Type 0 where
  lto_ir cubin fatbin ptx : BinaryType

-- `binary_type_string`; the default case is for values outside the enumeration.
unfoldable pub binary_type_string : BinaryType → Bytes
binary_type_string lto_ir = codes "LTO_IR"
binary_type_string cubin = codes "CUBIN"
binary_type_string fatbin = codes "FATBIN"
binary_type_string ptx = codes "PTX"

-- The types of input of nvJitLink that the program uses.
pub data InputType : Type 0 where
  input_ltoir input_cubin input_fatbin input_ptx : InputType

-- `to_nvjitlink_input_type`.
unfoldable pub to_nvjitlink_input_type : BinaryType → InputType
to_nvjitlink_input_type lto_ir = input_ltoir
to_nvjitlink_input_type cubin = input_cubin
to_nvjitlink_input_type fatbin = input_fatbin
to_nvjitlink_input_type ptx = input_ptx

-- `log_warning` and `log_error`.
pub data Message : Type 0 where
  warning error : Bytes → Message

-- What calls hold: NVRTC programs or nvJitLink handles, buffers, and what was logged.
pub record Session : Type 0 where
  pub handles : ℕ
  pub buffers : ℕ
  pub messages : List Message

-- RTCX_CHECK_NVRTC and RTCX_CHECK_NVJITLINK; the result 0 is success.
abbrev pub check : ℕ → Act Session (Unit {0})
check result = require (result == 0) runtime_error

abbrev pub opened : Session → Session
opened s = record s { handles = suc s.handles }

abbrev pub closed : Session → Session
closed s = record s { handles = s.handles - 1 }

-- `byte_buffer::make`.
unfoldable pub make_buffer : Bool → Act Session (Unit {0})
make_buffer allocates s =
    if allocates then (record s { buffers = suc s.buffers }, ok tt) else (s, raise bad_alloc)

-- The call that fills a buffer, which is freed where the call fails.
unfoldable pub fill_buffer : ℕ → Bytes → Act Session Bytes
fill_buffer result bytes s =
    if result == 0
    then (s, ok bytes)
    else (record s { buffers = s.buffers - 1 }, raise runtime_error)

-- What the library answers for one kind of output: the results of its two calls, and the bytes.
pub record OutputAnswers : Type 0 where
  pub size_result : ℕ
  pub get_result : ℕ
  pub bytes : Bytes

-- The size of the output, a buffer for it, and the output.
unfoldable pub read_output : Bool → OutputAnswers → Act Session Bytes
unfolding make_buffer fill_buffer
read_output allocates output = do
  check output.size_result
  make_buffer allocates
  fill_buffer output.get_result output.bytes

-- What the library answers for a log: the results of the calls for its size and its characters, the
-- size with the terminator, and the characters.
pub record LogAnswers : Type 0 where
  pub size_result : ℕ
  pub size : ℕ
  pub get_result : ℕ
  pub characters : Bytes

-- A log without its terminator.
unfoldable pub read_log : LogAnswers → Act Session Bytes
read_log log = do
  check log.size_result
  if ltb 1 log.size
      then (do check log.get_result; pure (take (log.size - 1) log.characters))
      else pure []

-- The loops over headers, options and fragments of the two log functions.
unfoldable pub indented : Bytes → List Bytes → Bytes
indented str [] = str
indented str (line ∷ lines) = indented (str ++ (codes "\t" ++ (line ++ codes "\n"))) lines

unfoldable pub or_unnamed : Option Bytes → Bytes
or_unnamed none = codes "<unnamed>"
or_unnamed (some name) = name
