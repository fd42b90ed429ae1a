-- ===== src/Rtc/Link/Results.antt =====
-- `nvJitLinkResult_string` of src/rtcx.cpp.
use librtcx.Prelude.{Bool, true, false, Outcome, ok, raise, runtime_error, Bytes, codes}

-- `nvJitLinkResult`: the results that the program names, and any other.
pub data NvJitLinkResult : Type 0 where
  success : NvJitLinkResult
  unrecognized_option : NvJitLinkResult
  missing_arch : NvJitLinkResult
  invalid_input : NvJitLinkResult
  ptx_compile : NvJitLinkResult
  nvvm_compile : NvJitLinkResult
  internal : NvJitLinkResult
  threadpool : NvJitLinkResult
  unrecognized_input : NvJitLinkResult
  finalize : NvJitLinkResult
  null_input : NvJitLinkResult
  incompatible_options : NvJitLinkResult
  incorrect_input_type : NvJitLinkResult
  arch_mismatch : NvJitLinkResult
  outdated_library : NvJitLinkResult
  missing_fatbin : NvJitLinkResult
  unrecognized_arch : NvJitLinkResult
  unsupported_arch : NvJitLinkResult
  lto_not_enabled : NvJitLinkResult
  other : NvJitLinkResult

abbrev pub is_success : NvJitLinkResult → Bool
is_success success = true
is_success _ = false

-- The results of CUDA 13 are strings only in a program that was built for it.
unfoldable pub nvjitlink_result_string : (cuda_13 : Bool) → NvJitLinkResult → Outcome Bytes
nvjitlink_result_string _ success = ok (codes "NVJITLINK_SUCCESS")
nvjitlink_result_string _ unrecognized_option = ok (codes "NVJITLINK_ERROR_UNRECOGNIZED_OPTION")
nvjitlink_result_string _ missing_arch = ok (codes "NVJITLINK_ERROR_MISSING_ARCH")
nvjitlink_result_string _ invalid_input = ok (codes "NVJITLINK_ERROR_INVALID_INPUT")
nvjitlink_result_string _ ptx_compile = ok (codes "NVJITLINK_ERROR_PTX_COMPILE")
nvjitlink_result_string _ nvvm_compile = ok (codes "NVJITLINK_ERROR_NVVM_COMPILE")
nvjitlink_result_string _ internal = ok (codes "NVJITLINK_ERROR_INTERNAL")
nvjitlink_result_string _ threadpool = ok (codes "NVJITLINK_ERROR_THREADPOOL")
nvjitlink_result_string _ unrecognized_input = ok (codes "NVJITLINK_ERROR_UNRECOGNIZED_INPUT")
nvjitlink_result_string _ finalize = ok (codes "NVJITLINK_ERROR_FINALIZE")
nvjitlink_result_string true null_input = ok (codes "NVJITLINK_ERROR_NULL_INPUT")
nvjitlink_result_string true incompatible_options =
    ok (codes "NVJITLINK_ERROR_INCOMPATIBLE_OPTIONS")
nvjitlink_result_string true incorrect_input_type =
    ok (codes "NVJITLINK_ERROR_INCORRECT_INPUT_TYPE")
nvjitlink_result_string true arch_mismatch = ok (codes "NVJITLINK_ERROR_ARCH_MISMATCH")
nvjitlink_result_string true outdated_library = ok (codes "NVJITLINK_ERROR_OUTDATED_LIBRARY")
nvjitlink_result_string true missing_fatbin = ok (codes "NVJITLINK_ERROR_MISSING_FATBIN")
nvjitlink_result_string true unrecognized_arch = ok (codes "NVJITLINK_ERROR_UNRECOGNIZED_ARCH")
nvjitlink_result_string true unsupported_arch = ok (codes "NVJITLINK_ERROR_UNSUPPORTED_ARCH")
nvjitlink_result_string true lto_not_enabled = ok (codes "NVJITLINK_ERROR_LTO_NOT_ENABLED")
nvjitlink_result_string _ _ = raise runtime_error
