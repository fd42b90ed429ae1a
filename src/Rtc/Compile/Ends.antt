-- ===== src/Rtc/Compile/Ends.antt =====
-- How `compile` ends.
use librtcx.Prelude.{
  ℕ, ◌≡◌, ◌≢◌, refl, ap, ◌∙◌, List, [], ◌∷◌, Bool, true, false, ok, runtime_error, logic_error,
  expects, Bytes, arith, if◌then◌else◌, ◌==◌, All,
}
use librtcx.Prelude.Actions.{◌>>◌, require, bind-ok}
use librtcx.Rtc.{
  BinaryType, lto_ir, cubin, fatbin, ptx, Session, check, opened, make_buffer, fill_buffer,
  read_output, read_log,
}
use librtcx.Rtc.Ends.{
  IsQuiet, IsMade, IsMadeEnd, IsQuiet-bind, IsMade-then, IsQuiet-then, require-IsQuiet,
  read_log-IsQuiet, read_log_returns, read_output-IsMade, opened-IsMade, opened_returns,
}
use librtcx.Rtc.Compile.{
  CompileParams, NvrtcAnswers, is_given, log_message, log_nvrtc_result, add_name_expressions,
  target_output, compile_created, create_and_compile, compile,
}

-- No call of NVRTC fails, and no allocation.
pub record NothingFails (p : CompileParams) (answers : NvrtcAnswers) : Type 0 where
  pub created : answers.create ≡ 0
  pub added : All (λ e. answers.add_name_expression e ≡ 0) p.name_expressions
  pub compiled : answers.compile_program ≡ 0
  pub logged : (answers.log.size_result ≡ 0) × (answers.log.get_result ≡ 0)
  pub room : answers.allocates ≡ true
  pub output :
      ((answers.output p.target_type).size_result ≡ 0)
      × ((answers.output p.target_type).get_result ≡ 0)

module _ (p : CompileParams) (answers : NvrtcAnswers) where
  log_message-IsQuiet : (result : ℕ) (log : Bytes) → IsQuiet (log_message p answers result log)
  unfolding log_message
  log_message-IsQuiet result [] s = (refl, refl)
  log_message-IsQuiet result (c ∷ log) s = (refl, refl)

  log_nvrtc_result-IsQuiet : (result : ℕ) → IsQuiet (log_nvrtc_result p answers result)
  unfolding log_nvrtc_result
  log_nvrtc_result-IsQuiet result =
      IsQuiet-bind (read_log answers.log) (log_message p answers result)
        (read_log-IsQuiet answers.log) (log_message-IsQuiet result)

  add_name_expressions-IsQuiet : (es : List Bytes) → IsQuiet (add_name_expressions p answers es)
  unfolding add_name_expressions
  add_name_expressions-IsQuiet [] = λ s. (refl, refl)
  add_name_expressions-IsQuiet (e ∷ es) =
      IsQuiet-then (check (answers.add_name_expression e)) (add_name_expressions p answers es)
        (require-IsQuiet _ _) (add_name_expressions-IsQuiet es)

  target_output-IsMade :
      (t : BinaryType) → IsMade (answers.output t).bytes (target_output p answers t)
  unfolding target_output
  target_output-IsMade lto_ir = read_output-IsMade _ _
  target_output-IsMade cubin = read_output-IsMade _ _
  target_output-IsMade fatbin = λ s. (refl, refl)
  target_output-IsMade ptx = read_output-IsMade _ _

  compile_created-IsMade : IsMade (answers.output p.target_type).bytes (compile_created p answers)
  unfolding compile_created
  compile_created-IsMade =
      let bytes = (answers.output p.target_type).bytes in
      let log = log_nvrtc_result p answers answers.compile_program in
      let out = target_output p answers p.target_type in
      IsMade-then bytes (add_name_expressions p answers p.name_expressions)
        (log >> (check answers.compile_program >> out))
        (add_name_expressions-IsQuiet p.name_expressions)
        (IsMade-then bytes log (check answers.compile_program >> out)
          (log_nvrtc_result-IsQuiet answers.compile_program)
          (IsMade-then bytes (check answers.compile_program) out (require-IsQuiet _ _)
            (target_output-IsMade p.target_type)))

  -- However NVRTC answers, a compilation destroys the program that it created, and it returns one
  -- buffer, with NVRTC's output of the target type, or it throws and holds no buffer.
  pub compile_ends :
      (s : Session) → IsMadeEnd (answers.output p.target_type).bytes s (compile p answers s)
  unfolding compile create_and_compile
  compile_ends =
      let bytes = (answers.output p.target_type).bytes in
      IsMade-then bytes (require (is_given p.name) logic_error)
        (require (is_given p.source) logic_error >> create_and_compile p answers)
        (require-IsQuiet _ _)
        (IsMade-then bytes (require (is_given p.source) logic_error) (create_and_compile p answers)
          (require-IsQuiet _ _)
          (opened-IsMade bytes answers.create (compile_created p answers) compile_created-IsMade))

  all_added : List Bytes → Bool
  all_added [] = true
  all_added (e ∷ es) = if answers.add_name_expression e == 0 then all_added es else false

  add_name_expressions_lem :
      (es : List Bytes) (s : Session)
      → add_name_expressions p answers es s ≡ (s, expects (all_added es) runtime_error)
  unfolding add_name_expressions all_added
  add_name_expressions_lem [] s = refl
  add_name_expressions_lem (e ∷ es) s = ground (arith, add_name_expressions_lem es s)

  all_added_of_All :
      (es : List Bytes) → All (λ e. answers.add_name_expression e ≡ 0) es → all_added es ≡ true
  unfolding all_added
  all_added_of_All [] h = refl
  all_added_of_All (e ∷ es) h = ground (arith, h.0, all_added_of_All es h.1)

  log_message_returns :
      (result : ℕ) (text : Bytes) (s : Session)
      → (t : Session) × (log_message p answers result text s ≡ (t, ok tt))
  unfolding log_message
  log_message_returns result [] s = (s, refl)
  log_message_returns result (c ∷ text) s = (_, refl)

  log_nvrtc_result_returns :
      (result : ℕ) (s : Session)
      → (answers.log.size_result ≡ 0) × (answers.log.get_result ≡ 0)
      → (t : Session) × (log_nvrtc_result p answers result s ≡ (t, ok tt))
  unfolding log_nvrtc_result
  log_nvrtc_result_returns result s logged =
      let (text, e) = read_log_returns answers.log s logged in
      let (t, f) = log_message_returns result text s in
      (t, bind-ok (read_log answers.log) (log_message p answers result) e ∙ f)

  target_output_returns :
      (s : Session) (type : BinaryType)
      → type ≢ fatbin
      → answers.allocates ≡ true
      → ((answers.output type).size_result ≡ 0) × ((answers.output type).get_result ≡ 0)
      → (target_output p answers type s).1 ≡ ok (answers.output type).bytes
  unfolding target_output read_output make_buffer fill_buffer
  target_output_returns s type kind room out = ground arith

  compile_created_returns :
      (s : Session)
      → p.target_type ≢ fatbin
      → NothingFails p answers
      → (compile_created p answers s).1 ≡ ok (answers.output p.target_type).bytes
  unfolding compile_created
  compile_created_returns s kind smooth =
      let result = answers.compile_program in
      let all = all_added_of_All p.name_expressions smooth.added in
      let (t, e) = log_nvrtc_result_returns result s smooth.logged in
      let rest = check result >> target_output p answers p.target_type in
      let quiet : check result t ≡ (t, ok tt) = ground (arith, smooth.compiled) in
      ap (λ r. r.1)
        (bind-ok (add_name_expressions p answers p.name_expressions)
            (λ _. log_nvrtc_result p answers result >> rest)
            (add_name_expressions_lem p.name_expressions s
              ∙ ap (λ b. (s, expects b runtime_error)) all)
          ∙ bind-ok (log_nvrtc_result p answers result) (λ _. rest) e
          ∙ bind-ok (check result) (λ _. target_output p answers p.target_type) quiet)
      ∙ target_output_returns t p.target_type kind smooth.room smooth.output

  created_returns :
      (s : Session)
      → p.target_type ≢ fatbin
      → NothingFails p answers
      → (create_and_compile p answers s).1 ≡ ok (answers.output p.target_type).bytes
  unfolding create_and_compile
  created_returns s kind smooth =
      opened_returns _ answers.create (compile_created p answers) s smooth.created
        (compile_created_returns (opened s) kind smooth)

  -- Where no call of NVRTC and no allocation fails, a compilation with a name and a source to any
  -- type of binary but a fat binary returns NVRTC's output.
  pub compile_returns :
      (s : Session)
      → is_given p.name ≡ true
      → is_given p.source ≡ true
      → p.target_type ≢ fatbin
      → NothingFails p answers
      → (compile p answers s).1 ≡ ok (answers.output p.target_type).bytes
  unfolding compile
  compile_returns s named sourced kind smooth =
      let whole = created_returns s kind smooth in
      ap (λ r. r.1)
        (bind-ok (require (is_given p.name) logic_error)
            (λ _. require (is_given p.source) logic_error >> create_and_compile p answers)
            (ap (λ b. (s, expects b logic_error)) named)
          ∙ bind-ok (require (is_given p.source) logic_error) (λ _. create_and_compile p answers)
              (ap (λ b. (s, expects b logic_error)) sourced))
      ∙ whole
