-- ===== src/Tests/MacroRuns.antt =====
-- Checks that fail, with their messages.
use librtcx.Prelude.{
  ◌≡◌, refl, ◌++◌, false, some, none, runtime_error, expects, codes, arith, to_string, digits_from,
}
use librtcx.Rtc.Link.Results.{null_input}
use librtcx.Macros.{
  passed, throws, CudaRuntime, set_error_msg, location, cuda_try, snprintf_size, fill_message,
  snprintf, write_at, zeros,
}
use librtcx.Macros.Buffers.{set_error_msg-joins}
use librtcx.Macros.Results.{check_cuda, check_cudart, check_nvrtc, check_nvjitlink}
use librtcx.Macros.Reports.{outcome, cuda_try-reports, checks-expects}

set_error_msg-joins_example :
    set_error_msg (codes "x") (codes "at ") (codes "f:1 ") (some (codes "no"))
    ≡ passed (codes "xat f:1 no")
set_error_msg-joins_example =
    set_error_msg-joins (codes "x") (codes "at ") (codes "f:1 ") (codes "no") (omega arith)

set_error_msg-ran :
    set_error_msg (codes "x") (codes "at ") (codes "f:1 ") (some (codes "no"))
    ≡ passed (codes "xat f:1 no")
unfolding set_error_msg snprintf_size fill_message snprintf write_at zeros
set_error_msg-ran = refl

abbrev failing : CudaRuntime
failing = record {
  last_error = 2;
  error_name = λ status. codes "cudaErrorMemoryAllocation";
  error_string = λ status. codes "out of memory";
}

cuda_try-reports_example :
    cuda_try (codes "a.cpp") 62 (codes "cudaGetDevice(&device)") 2 failing ≡ (
      record failing { last_error = 0 },
      throws runtime_error (
          codes "CUDA error encountered at: file=a.cpp line=62: call='cudaGetDevice(&device)', "
          ++ codes "Reason=cudaErrorMemoryAllocation:out of memory"),
    )
unfolding location to_string digits_from
cuda_try-reports_example =
    cuda_try-reports (codes "a.cpp") 62 (codes "cudaGetDevice(&device)") 2 failing (omega arith)

checks-expects_example :
    (outcome (check_cuda (codes "a") 1 (codes "e") (λ r. none) 3) ≡ expects false runtime_error)
    × (outcome (check_cudart (codes "a") 1 (codes "e") (λ r. codes "n") (λ r. codes "s") 3)
        ≡ expects false runtime_error)
    × (outcome (check_nvrtc (codes "a") 1 (codes "e") (λ r. codes "s") 3)
        ≡ expects false runtime_error)
    × (outcome (check_nvjitlink (codes "a") 1 (codes "e") false (λ r. 4) (codes "u") null_input)
        ≡ expects false runtime_error)
checks-expects_example =
    checks-expects (codes "a") 1 (codes "e") (λ r. none) (λ r. codes "n") (λ r. codes "s") false
      (λ r. 4) (codes "u") 3 null_input
