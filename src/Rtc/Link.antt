-- ===== src/Rtc/Link.antt =====
-- `link_library` of src/rtcx.cpp with `log_nvJitLink_result`.
pub mod Results
pub mod Ends
use librtcx.Prelude.{
  ℕ, ◌+◌, ◌-◌, ◌*◌, List, [], ◌∷◌, ◌++◌, map, Bool, true, false, Option, none, some, Outcome, ok,
  raise, abort, runtime_error, logic_error, Bytes, codes, if◌then◌else◌, ◌==◌, not, ◌&&◌, ◌||◌,
  to_string, text_eq, length, ltb,
}
use librtcx.Prelude.Actions.{Act, pure, fail, ◌>>=◌, ◌>>◌, require, deferred}
use librtcx.Rtc.{
  BinaryType, lto_ir, cubin, fatbin, ptx, binary_type_string, InputType, to_nvjitlink_input_type,
  Session, Message, warning, error, check, opened, closed, OutputAnswers, read_output, LogAnswers,
  read_log, indented, or_unnamed,
}
use librtcx.Rtc.Compile.{is_given}
use librtcx.Rtc.Link.Results.{NvJitLinkResult, is_success, nvjitlink_result_string}

-- `file_fragment` and `memory_fragment`; `none` is a null pointer.
pub record FileFragment : Type 0 where
  pub path : Option Bytes
  pub type : BinaryType

pub record MemoryFragment : Type 0 where
  pub binary : Bytes
  pub type : BinaryType
  pub name : Option Bytes

-- `link_params`.
pub record LinkParams : Type 0 where
  pub name : Option Bytes
  pub output_type : BinaryType
  pub file_fragments : List FileFragment
  pub memory_fragments : List MemoryFragment
  pub link_options : List Bytes

-- What nvJitLink answers for a link.
pub record LinkerAnswers : Type 0 where
  pub create : ℕ
  pub add_file : InputType → Option Bytes → ℕ
  pub add_data : InputType → Bytes → Option Bytes → ℕ
  pub complete : NvJitLinkResult
  pub info_log : LogAnswers
  pub error_log : LogAnswers
  -- The number of a result, and whether the program was built for CUDA 13 or later.
  pub code : NvJitLinkResult → ℕ
  pub cuda_13 : Bool
  pub allocates : Bool
  pub output : BinaryType → OutputAnswers

-- The first condition on the output type.
unfoldable pub is_linked_type : BinaryType → Bool
is_linked_type lto_ir = false
is_linked_type cubin = true
is_linked_type fatbin = false
is_linked_type ptx = true

-- The loops that check the fragments.
unfoldable pub check_paths : List FileFragment → Act Session (Unit {0})
check_paths [] = pure tt
check_paths (frag ∷ frags) = require (is_given frag.path) logic_error >> check_paths frags

unfoldable pub check_sizes : List MemoryFragment → Act Session (Unit {0})
check_sizes [] = pure tt
check_sizes (frag ∷ frags) = require (ltb 0 (length frag.binary)) logic_error >> check_sizes frags

-- The options that ask for the information log.
unfoldable pub needs_info_log : List Bytes → Bool
needs_info_log [] = false
needs_info_log (option ∷ options) =
    (text_eq option (codes "--verbose") || text_eq option (codes "-time")) || needs_info_log options

module _ (p : LinkParams) (answers : LinkerAnswers) where
  -- The checks of the parameters.
  unfoldable pub check_params : Act Session (Unit {0})
  unfolding is_linked_type check_paths check_sizes
  check_params = do
    require (is_given p.name) logic_error
    require (is_linked_type p.output_type) logic_error
    require (not (length p.file_fragments == 0) || not (length p.memory_fragments == 0)) logic_error
    check_paths p.file_fragments
    check_sizes p.memory_fragments

  -- The text that `log_nvJitLink_result` logs; a path is not null there.
  unfoldable pub nvjitlink_message : NvJitLinkResult → Bytes → Bytes → Bytes → Bytes
  nvjitlink_message result result_string info_log error_log =
      codes "(nvJitLink) Linking for `"
      ++ or_unnamed p.name
      ++ codes "` ("
      ++ binary_type_string p.output_type
      ++ codes ") "
      ++ (if is_success result then codes "completed with" else codes "failed with")
      ++ codes " error code ("
      ++ to_string (answers.code result)
      ++ codes "): "
      ++ result_string
      ++ codes ".\nFragments: \n"
      ++ indented (indented [] (map (λ (f : FileFragment). or_unnamed f.path) p.file_fragments))
          (map (λ (f : MemoryFragment). or_unnamed f.name) p.memory_fragments)
      ++ codes "\nLink Options: \n"
      ++ indented [] p.link_options
      ++ codes "\n\nInfo Log:\n\t"
      ++ info_log
      ++ codes "\n\nError Log:\n\t"
      ++ error_log
      ++ codes "\n\n"

  -- What becomes of the message.
  unfoldable pub log_link : NvJitLinkResult → Bytes → Act Session (Unit {0})
  unfolding needs_info_log
  log_link result msg s =
      if is_success result
      then (if needs_info_log p.link_options
          then (record s { messages = warning msg ∷ s.messages }, ok tt)
          else (s, ok tt))
      else (record s { messages = error msg ∷ s.messages }, ok tt)

  -- The logs that were read, unless both are empty.
  unfoldable pub log_logs : NvJitLinkResult → Bytes → Bytes → Act Session (Unit {0})
  unfolding nvjitlink_message log_link
  log_logs result info_log error_log =
      if (length info_log == 0) && (length error_log == 0) then pure tt else do
        result_string ← λ s. (s, nvjitlink_result_string answers.cuda_13 result)
        log_link result (nvjitlink_message result result_string info_log error_log)

  -- `log_nvJitLink_result`, for the handle that was created.
  unfoldable pub log_nvjitlink_result : NvJitLinkResult → Act Session (Unit {0})
  unfolding log_logs
  log_nvjitlink_result result = do
    info_log ← read_log answers.info_log
    error_log ← read_log answers.error_log
    log_logs result info_log error_log

  -- The loops over the fragments.
  unfoldable pub add_files : List FileFragment → Act Session (Unit {0})
  add_files [] = pure tt
  add_files (frag ∷ frags) =
      check (answers.add_file (to_nvjitlink_input_type frag.type) frag.path) >> add_files frags

  unfoldable pub add_memory : List MemoryFragment → Act Session (Unit {0})
  add_memory [] = pure tt
  add_memory (frag ∷ frags) =
      check (answers.add_data (to_nvjitlink_input_type frag.type) frag.binary frag.name)
      >> add_memory frags

  -- The `switch` over the output type.
  unfoldable pub linked_output : BinaryType → Act Session Bytes
  linked_output cubin = read_output answers.allocates (answers.output cubin)
  linked_output ptx = read_output answers.allocates (answers.output ptx)
  linked_output lto_ir = fail runtime_error
  linked_output fatbin = fail runtime_error

  -- What is done with a handle before it is destroyed.
  unfoldable pub link_created : Act Session Bytes
  unfolding add_files add_memory log_nvjitlink_result linked_output
  link_created = do
    add_files p.file_fragments
    add_memory p.memory_fragments
    log_nvjitlink_result answers.complete
    require (is_success answers.complete) runtime_error
    linked_output p.output_type

  -- From the creation of the handle on.
  unfoldable pub create_and_link : Act Session Bytes
  unfolding link_created
  create_and_link s =
      if answers.create == 0
      then deferred closed link_created (opened s)
      else (s, raise runtime_error)

  -- `link_library`.
  unfoldable pub link_library : Act Session Bytes
  unfolding check_params create_and_link
  link_library = check_params >> create_and_link
