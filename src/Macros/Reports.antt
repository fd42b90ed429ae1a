-- ===== src/Macros/Reports.antt =====
-- What the checks report, and what remains of them without the messages.
use librtcx.Prelude.{
  ℕ, ◌+◌, ◌<◌, ◌^◌, ◌≡◌, refl, ap, ◌∙◌, [], ◌++◌, Bool, true, false, Option, some, Outcome, ok,
  raise, abort, runtime_error, logic_error, expects, Bytes, codes, arith, to_string, if◌then◌else◌,
  ◌==◌, length,
}
use mathlib.Core.List.{append_assoc}
use librtcx.Rtc.Link.Results.{NvJitLinkResult, is_success, nvjitlink_result_string}
use librtcx.Macros.{
  Checked, passed, throws, undefined, CudaRuntime, throw_message, location, cuda_text, fail_at,
  expects_at, cuda_try,
}
use librtcx.Macros.Buffers.{set_error_msg-joins}
use librtcx.Macros.Results.{fail, check_cuda, check_cudart, check_nvrtc, check_nvjitlink}

-- Whether an `int` holds the size of a message.
abbrev pub Fits : Bytes → Bytes → Bytes → Type 0
Fits location_prefix location text =
    length location_prefix + length location + length text + 1 < 2 ^ 31

abbrev pub cuda_prefix : Bytes
cuda_prefix = codes "CUDA error encountered at: "

abbrev pub rtcx_prefix : Bytes
rtcx_prefix = codes "RTCX failure at "

cuda_try-throws :
    (file : Bytes) (line : ℕ) (call : Bytes) (status : ℕ) (s : CudaRuntime)
    → Fits cuda_prefix
        (location file line)
        (cuda_text call (s.error_name status) (s.error_string status))
    → cuda_try file line call status s ≡ (
        if status == 0 then (s, passed tt) else (
          record s { last_error = 0 },
          throws runtime_error (
              cuda_prefix
              ++ location file line
              ++ cuda_text call (s.error_name status) (s.error_string status)),
        ))
unfolding cuda_try throw_message
cuda_try-throws file line call status s fits = ground (
  arith,
  set_error_msg-joins [] cuda_prefix (location file line)
      (cuda_text call (s.error_name status) (s.error_string status)) fits,
)

-- A location in front of a text, spelled out.
location-text :
    (file : Bytes) (line : ℕ) (text : Bytes)
    → location file line ++ text
      ≡ codes "file=" ++ (file ++ (codes " line=" ++ (to_string line ++ (codes ": " ++ text))))
unfolding location
location-text file line text =
    ap (λ t. codes "file=" ++ t)
      (append_assoc file (codes " line=" ++ (to_string line ++ codes ": ")) text
        ∙ ap (λ t. file ++ (codes " line=" ++ t)) (append_assoc (to_string line) (codes ": ") text))

-- Where an `int` holds the size of the message, RTCX_CUDA_TRY passes on success and changes nothing;
-- on any other status it resets the runtime's last error and throws `std::runtime_error` with the
-- file, the line, the call, and the name and the string of the status.
pub cuda_try-reports :
    (file : Bytes) (line : ℕ) (call : Bytes) (status : ℕ) (s : CudaRuntime)
    → Fits cuda_prefix
        (location file line)
        (cuda_text call (s.error_name status) (s.error_string status))
    → cuda_try file line call status s ≡ (
        if status == 0 then (s, passed tt) else (
          record s { last_error = 0 },
          throws runtime_error (
              codes "CUDA error encountered at: file="
              ++ (file
                  ++ (codes " line="
                      ++ (to_string line
                          ++ (codes ": call='"
                              ++ (call
                                  ++ (codes "', Reason="
                                      ++ (s.error_name status
                                          ++ (codes ":" ++ s.error_string status))))))))),
        ))
cuda_try-reports file line call status s fits =
    cuda_try-throws file line call status s fits
    ∙ ap
        (λ m.
          if status == 0
          then (s, passed tt)
          else (record s { last_error = 0 }, throws runtime_error (cuda_prefix ++ m)))
        (location-text file line (cuda_text call (s.error_name status) (s.error_string status)))

-- Where an `int` holds the size of the message, RTCX_EXPECTS of macros.hpp passes if the condition
-- holds, and else throws `std::logic_error` with the place and the text.
pub expects_at-reports :
    (condition : Bool) (file : Bytes) (line : ℕ) (text : Bytes)
    → Fits rtcx_prefix (location file line) text
    → expects_at condition file line (some text) ≡ (
        if condition
        then passed tt
        else throws logic_error (rtcx_prefix ++ location file line ++ text))
unfolding expects_at fail_at throw_message
expects_at-reports true file line text fits = refl
expects_at-reports false file line text fits =
    ground (arith, set_error_msg-joins [] rtcx_prefix (location file line) text fits)

-- A check without its message.
abbrev pub outcome {ℓ} : {A : Type ℓ} → Checked A → Outcome A
outcome (passed a) = ok a
outcome (throws e msg) = raise e
outcome undefined = abort

-- Whatever strings the libraries give, and also where a string is missing or `nvJitLinkResult_string`
-- throws, the four checks of results pass on success and throw `std::runtime_error` on any other
-- result.
pub checks-expects :
    (file : Bytes) (line : ℕ) (expression : Bytes) (cuda_string : ℕ → Option Bytes)
    (name string : ℕ → Bytes) (cuda_13 : Bool) (number : NvJitLinkResult → ℕ) (unknown : Bytes)
    (result : ℕ) (link_result : NvJitLinkResult)
    → (outcome (check_cuda file line expression cuda_string result)
        ≡ expects (result == 0) runtime_error)
      × (outcome (check_cudart file line expression name string result)
          ≡ expects (result == 0) runtime_error)
      × (outcome (check_nvrtc file line expression string result)
          ≡ expects (result == 0) runtime_error)
      × (outcome (check_nvjitlink file line expression cuda_13 number unknown link_result)
          ≡ expects (is_success link_result) runtime_error)
unfolding check_cuda check_cudart check_nvrtc check_nvjitlink fail nvjitlink_result_string
checks-expects file line expression cuda_string name string cuda_13 number unknown result
      link_result =
    (ground arith, ground arith, ground arith, ground arith)
