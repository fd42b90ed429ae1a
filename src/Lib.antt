-- ===== src/Lib.antt =====
-- librtcx: the run-time compilation cache of RAPIDS.
-- The library compiles CUDA code while a program runs and keeps what it compiled, in memory and on
-- disk, under a 128-bit hash of the source. A request (`cache_t::get_or_add_blob`,
-- `get_or_add_library`) takes a tick, looks its hash up in the LRU cache in memory and then in the
-- cache directory, and only if both miss it runs the compiler and writes the result to the
-- directory. Callers share a future for each hash.
--
-- Files, and the code that they model:
-- - Hash: include/rtcx/hash.hpp and src/hash.cpp. A hash is a number below 2 ^ 128; `to_bytes`
--   are its bytes in memory, least significant first; `to_hex_string` and `parse` print and read
--   it. Characters are their codes.
-- - Lru: `detail::lru_memory_cache` of include/rtcx/rtcx.hpp. The hash table is the list of its
--   entries; `purge` removes the half with the oldest ticks, as `std::sort` (a parameter that
--   gives a sorted permutation) orders them.
-- - Disk: `object_tag`, `blob_t::from_file`, `get_disk_blob`, `get_disk_library`,
--   `get_disk_entries` and `cache_blob_to_disk` of src/rtcx.cpp. A file system is a list of regular
--   files; each system call's answer is an argument (`ReadFaults`, `WriteAnswers`), and so is the
--   driver's (`LoadResult`).
-- - Cache: `cache_t`. `System` is the object with the shared states of the futures that it handed
--   out and the file system. Cache.Lock has the tick and the part of a request under the mutex,
--   Cache.Requests what follows it and the whole request; Cache.Preload is `preload_from_disk`.
--   Cache.Threads has the steps of requests of several threads, and Cache.Threads.Mixed those of both
--   kinds with the other operations between them; Cache.Histories has the constructor
--   and then the public operations in any order, one after the other (`perform_all`), against the
--   function from hashes to objects that the cache stands for: Cache.Coherence says it of the blobs,
--   Cache.Libraries of the libraries, whose handles `Holds` ties to the binaries they were loaded from.
-- - Text: `join_strings`, `reflect_template` and `decompress_blob` of src/rtcx.cpp, and the
--   `reflect` functions of include/rtcx/rtcx.hpp (Text.Reflect; Text.Reflect.Literals reads them as
--   C++ does, with an `int` of 32 bits).
-- - Embed: include/rtcx/embed.hpp, which runs in the build: the merged files with their ranges,
--   their compression and hash (zstd and xxHash are arguments), `split_string`,
--   `generate_arrays` (Embed.Arrays), and the generated files with the program of
--   cmake/modules/embed/embed.in.cpp (Embed.Generate).
-- - Rtc: `compile` and `link_library` of src/rtcx.cpp with what they log, over the answers of NVRTC
--   and nvJitLink. `Session` counts the programs or handles and the buffers that a call holds.
-- - Lifecycle: `load_dso`, `LibCuda`, `LibNVRTC`, `LibNVJitLink`, `initialize` and `teardown` of
--   src/rtcx.cpp, over what the dynamic linker and the runtime answer (`Environment`).
-- - Owners: the types that own a resource and can only be moved: `buffer` and `blob_t` of
--   include/rtcx/rtcx.hpp and src/rtcx.cpp, and `algorithm_launcher` of src/algorithm_launcher.cpp.
--   `Owner` is what Owners.Slots asks of such a type, and Owners.Instances gives it for each;
--   Owners.Programs has programs of their operations.
-- - Kernels: `load_library`, `load_library_from_file`, `library_t` and `kernel_ref` of src/rtcx.cpp,
--   and the calls of `algorithm_launcher`, over the results of the driver and the runtime.
-- - Planner: src/algorithm_planner.cpp, src/fragment_entry.cpp and src/nvjitlink_checker.cpp: the
--   cache of launchers, and the build of one over the answers of nvJitLink and the CUDA runtime.
--   `Linker` is what a handle of nvJitLink was given; its answers depend on it.
-- - Nvrtc: src/nvrtc_lto_fragment_compiler.cpp: the compiler of fragments and its cache, over the
--   answers of NVRTC.
-- - Macros: include/rtcx/macros.hpp and the checks of results at the head of src/rtcx.cpp, with the
--   messages of their exceptions (`Checked`) and the buffer that SET_ERROR_MSG fills. The other
--   modules use `expects` and `require` of Prelude, which keep the exception without its message.
-- - Callables: `func` of include/rtcx/rtcx.hpp, by which the compilers are handed over, over a memory
--   of the lambdas that live.
-- - Prelude: what the parts share. `Outcome` is a returned value, an exception, or the end of the
--   process, which an exception that leaves a destructor brings about (RTCX_DEFER). Prelude.Actions
--   composes calls that change a state, and Prelude.Counting counts the elements of a list.
-- - Tests: runs on concrete data, and each theorem applied once.
--
-- Bounds and fuel. Ticks and counters wrap at 2 ^ 64, the sum of the limits at 2 ^ 32; the size of a
-- message is an `int`, which may not exceed 2 ^ 31 - 1. No function
-- needs fuel but three: the loop over `write` goes on as long as the list of its answers, and a
-- list as long as the data is enough if each answer is positive (Disk.Write); `split_string` has a
-- round for each byte and one more (Embed.Splitting); and a number n has at most n + 1 decimal
-- digits (Text.Reflect).
--
-- Not modelled: the waiting on a future; a mapped file that changes later; the bytes that are handed
-- to NVRTC and nvJitLink; the packing of kernel arguments by `dispatch`; whether the build tool's
-- files can be written; how `std::format` writes a number in floating point; profiling ranges; the
-- failure of an allocation, but for buffers and loaded libraries; and the memory that a hash table
-- reserves. What `std::call_once` does with a flag that its own function destroys, as in `teardown`,
-- no standard says: it is the field `marks` of `Environment`.
pub mod Prelude
pub mod Hash
pub mod Lru
pub mod Disk
pub mod Cache
pub mod Text
pub mod Embed
pub mod Planner
pub mod Nvrtc
pub mod Macros
pub mod Callables
pub mod Rtc
pub mod Lifecycle
pub mod Owners
pub mod Kernels
mod Tests
