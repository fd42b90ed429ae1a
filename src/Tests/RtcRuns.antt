-- ===== src/Tests/RtcRuns.antt =====
-- The compiler, the linker, loads and launches on small data.
use librtcx.Prelude.{◌≡◌, ◌≢◌, refl, [], ◌∷◌, ◌++◌, true, some, none, ok, codes, arith}
use librtcx.Rtc.{lto_ir, cubin, fatbin, Session, LogAnswers}
use librtcx.Rtc.Ends.{IsMadeEnd}
use librtcx.Rtc.Compile.{CompileParams, NvrtcAnswers, compile}
use librtcx.Rtc.Compile.Ends.{NothingFails, compile_ends, compile_returns}
use librtcx.Rtc.Link.Results.{success}
use librtcx.Rtc.Link.{LinkParams, LinkerAnswers}

abbrev unit : CompileParams
unit = record {
  name = some (codes "unit");
  source = some (codes "source");
  header_include_names = [];
  headers = [];
  options = codes "-dlto" ∷ [];
  name_expressions = codes "f" ∷ [];
  target_type = lto_ir;
}

abbrev log : LogAnswers
log = record { size_result = 0; size = 3; get_result = 0; characters = codes "ok" ++ 0 ∷ [] }

abbrev nvrtc : NvrtcAnswers
nvrtc = record {
  create = 0;
  add_name_expression = λ e. 0;
  compile_program = 0;
  log = log;
  error_string = λ r. codes "error";
  allocates = true;
  output = λ t. record { size_result = 0; get_result = 0; bytes = codes "lto" };
}

abbrev session : Session
session = record { handles = 0; buffers = 0; messages = [] }

compile_ends_example : IsMadeEnd (codes "lto") session (compile unit nvrtc session)
compile_ends_example = compile_ends unit nvrtc session

smooth : NothingFails unit nvrtc
smooth = record {
  created = refl;
  added = (refl, tt);
  compiled = refl;
  logged = (refl, refl);
  room = refl;
  output = (refl, refl);
}

other_type : lto_ir ≢ fatbin
other_type e = ground (arith, e)

compile_returns_example : (compile unit nvrtc session).1 ≡ ok (codes "lto")
compile_returns_example = compile_returns unit nvrtc session refl refl other_type smooth

abbrev link_params : LinkParams
link_params = record {
  name = some (codes "library");
  output_type = cubin;
  file_fragments = [];
  memory_fragments = record { binary = codes "lto"; type = lto_ir; name = none } ∷ [];
  link_options = codes "-lto" ∷ [];
}

abbrev linker : LinkerAnswers
linker = record {
  create = 0;
  add_file = λ t p. 0;
  add_data = λ t b n. 0;
  complete = success;
  info_log = log;
  error_log = log;
  code = λ r. 0;
  cuda_13 = true;
  allocates = true;
  output = λ t. record { size_result = 0; get_result = 1; bytes = codes "cubin" };
}
