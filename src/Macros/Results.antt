-- ===== src/Macros/Results.antt =====
-- The checks at the head of src/rtcx.cpp, and `throw_posix`: `std::format` makes their messages.
use librtcx.Prelude.{
  ℕ, ◌++◌, Bool, true, false, Option, none, some, Error, runtime_error, Bytes, codes, if◌then◌else◌,
  ◌==◌, to_string, ok, raise, abort,
}
use librtcx.Rtc.Link.Results.{NvJitLinkResult, is_success, nvjitlink_result_string}
use librtcx.Macros.{Checked, passed, throws, undefined}

-- RTCX_FAIL: "RTCX failure at: {}:{}: {}".
unfoldable pub fail {ℓ} : {A : Type ℓ} → Bytes → ℕ → Bytes → Error → Checked A
fail file line reason e = throws e (
    codes "RTCX failure at: "
    ++ (file ++ (codes ":" ++ (to_string line ++ (codes ": " ++ reason)))))

-- RTCX_EXPECTS.
unfoldable pub expects_that : Bool → Bytes → ℕ → Bytes → Error → Checked (Unit {0})
expects_that true file line reason e = passed tt
expects_that false file line reason e = fail file line reason e

-- "({}) expression `{}` failed, with error ({}): {}".
abbrev pub failed_text : Bytes → Bytes → Bytes → Bytes → Bytes
failed_text library expression result reason =
    codes "("
    ++ (library
        ++ (codes ") expression `"
            ++ (expression
                ++ (codes "` failed, with error (" ++ (result ++ (codes "): " ++ reason))))))

-- RTCX_CHECK_CUDA, over the string that `cuGetErrorString` gives, if it succeeds.
unfoldable pub check_cuda : Bytes → ℕ → Bytes → (ℕ → Option Bytes) → ℕ → Checked (Unit {0})
unfolding fail
check_cuda file line expression error_string result =
    if result == 0 then passed tt else elim (error_string result) [
      | none ↦ fail file line (codes "Unable to get CUDA error string") runtime_error
      | some reason ↦
          fail file line (failed_text (codes "cuda") expression (to_string result) reason)
            runtime_error
    ]

-- RTCX_CHECK_CUDART, over `cudaGetErrorName` and `cudaGetErrorString`.
unfoldable pub check_cudart : Bytes → ℕ → Bytes → (ℕ → Bytes) → (ℕ → Bytes) → ℕ → Checked (Unit {0})
unfolding fail
check_cudart file line expression error_name error_string result =
    if result == 0
    then passed tt
    else fail file line
        (failed_text (codes "cudart") expression
          (to_string result ++ (codes ": " ++ error_name result)) (error_string result))
        runtime_error

-- RTCX_CHECK_NVRTC, over `nvrtcGetErrorString`.
unfoldable pub check_nvrtc : Bytes → ℕ → Bytes → (ℕ → Bytes) → ℕ → Checked (Unit {0})
unfolding fail
check_nvrtc file line expression error_string result =
    if result == 0
    then passed tt
    else fail file line
        (failed_text (codes "nvrtc") expression (to_string result) (error_string result))
        runtime_error

-- RTCX_CHECK_NVJITLINK, over the number of a result; `nvJitLinkResult_string` can throw itself, with a
-- message that is an argument.
unfoldable pub check_nvjitlink :
    Bytes → ℕ → Bytes → Bool → (NvJitLinkResult → ℕ) → Bytes → NvJitLinkResult → Checked (Unit {0})
unfolding fail
check_nvjitlink file line expression cuda_13 number unknown result =
    if is_success result then passed tt else elim (nvjitlink_result_string cuda_13 result) [
      | ok reason ↦
          fail file line
            (failed_text (codes "nvJitLink") expression (to_string (number result)) reason)
            runtime_error
      | raise e ↦ throws e unknown
      | abort ↦ undefined
    ]

-- `throw_posix`, over `errno` and `std::strerror`.
unfoldable pub throw_posix {ℓ} :
    {A : Type ℓ} → Bytes → ℕ → Bytes → Bytes → ℕ → (ℕ → Bytes) → Checked A
unfolding fail
throw_posix file line message syscall_name errno strerror =
    fail file line
      (message
        ++ (codes ". `"
            ++ (syscall_name
                ++ (codes "` failed with "
                    ++ (to_string errno ++ (codes " (" ++ (strerror errno ++ codes ")")))))))
      runtime_error

-- RTCX_EMBED_EXPECTS of include/rtcx/embed.hpp: "{}:{}: {}".
unfoldable pub embed_expects : Bool → Bytes → ℕ → Bytes → Checked (Unit {0})
embed_expects true file line message = passed tt
embed_expects false file line message =
    throws runtime_error (file ++ (codes ":" ++ (to_string line ++ (codes ": " ++ message))))
