-- ===== src/Rtc/Compile.antt =====
-- `compile` of src/rtcx.cpp with `log_nvrtc_result`.
pub mod Ends
use librtcx.Prelude.{
  ℕ, ◌+◌, ◌-◌, ◌*◌, List, [], ◌∷◌, ◌++◌, Bool, true, false, Option, none, some, Outcome, ok, raise,
  abort, runtime_error, logic_error, Bytes, codes, if◌then◌else◌, ◌==◌, not, ◌&&◌, to_string,
}
use librtcx.Prelude.Actions.{Act, pure, fail, ◌>>=◌, ◌>>◌, require, deferred}
use librtcx.Rtc.{
  BinaryType, lto_ir, cubin, fatbin, ptx, Session, Message, warning, error, check, opened, closed,
  OutputAnswers, read_output, LogAnswers, read_log, indented, or_unnamed,
}

-- `compile_params`; `none` is a null pointer.
pub record CompileParams : Type 0 where
  pub name : Option Bytes
  pub source : Option Bytes
  pub header_include_names : List Bytes
  pub headers : List Bytes
  pub options : List Bytes
  pub name_expressions : List Bytes
  pub target_type : BinaryType

-- What NVRTC answers for a program.
pub record NvrtcAnswers : Type 0 where
  pub create : ℕ
  pub add_name_expression : Bytes → ℕ
  pub compile_program : ℕ
  pub log : LogAnswers
  pub error_string : ℕ → Bytes
  pub allocates : Bool
  pub output : BinaryType → OutputAnswers

abbrev pub is_given : Option Bytes → Bool
is_given none = false
is_given (some s) = true

module _ (p : CompileParams) (answers : NvrtcAnswers) where
  -- The text that `log_nvrtc_result` logs.
  unfoldable pub nvrtc_message : ℕ → Bytes → Bytes
  nvrtc_message result log =
      codes "NVRTC Compilation for `"
      ++ or_unnamed p.name
      ++ codes "` "
      ++ (if result == 0 then codes "completed with" else codes "failed with")
      ++ codes " ("
      ++ to_string result
      ++ codes "): "
      ++ answers.error_string result
      ++ codes ".\nHeaders:\n"
      ++ indented [] p.header_include_names
      ++ codes "\n\nOptions:\n"
      ++ indented [] p.options
      ++ codes "\n\nLog:\n\t"
      ++ log

  -- The message, unless the log is empty.
  unfoldable pub log_message : ℕ → Bytes → Act Session (Unit {0})
  log_message result [] s = (s, ok tt)
  log_message result (c ∷ log) s =
      let text = nvrtc_message result (c ∷ log) in
      let m = if result == 0 then warning text else error text in
      (record s { messages = m ∷ s.messages }, ok tt)

  -- `log_nvrtc_result`, for the program that was created.
  unfoldable pub log_nvrtc_result : ℕ → Act Session (Unit {0})
  unfolding log_message
  log_nvrtc_result result = do log ← read_log answers.log; log_message result log

  -- The loop over `AddNameExpression`.
  unfoldable pub add_name_expressions : List Bytes → Act Session (Unit {0})
  add_name_expressions [] = pure tt
  add_name_expressions (name_expr ∷ name_expressions) = do
    check (answers.add_name_expression name_expr)
    add_name_expressions name_expressions

  -- The `switch` over the target type.
  unfoldable pub target_output : BinaryType → Act Session Bytes
  target_output cubin = read_output answers.allocates (answers.output cubin)
  target_output lto_ir = read_output answers.allocates (answers.output lto_ir)
  target_output ptx = read_output answers.allocates (answers.output ptx)
  target_output fatbin = fail logic_error

  -- What is done with a program before it is destroyed.
  unfoldable pub compile_created : Act Session Bytes
  unfolding add_name_expressions log_nvrtc_result target_output
  compile_created = do
    add_name_expressions p.name_expressions
    log_nvrtc_result answers.compile_program
    check answers.compile_program
    target_output p.target_type

  -- From the creation of the program on.
  unfoldable pub create_and_compile : Act Session Bytes
  unfolding compile_created
  create_and_compile s =
      if answers.create == 0
      then deferred closed compile_created (opened s)
      else (s, raise runtime_error)

  -- `compile`.
  unfoldable pub compile : Act Session Bytes
  unfolding create_and_compile
  compile = do
    require (is_given p.name) logic_error
    require (is_given p.source) logic_error
    create_and_compile
