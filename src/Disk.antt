-- ===== src/Disk.antt =====
-- The on-disk store of src/rtcx.cpp: object paths, `blob_t::from_file`, `get_disk_blob`,
-- `get_disk_library`, `get_disk_entries` and `cache_blob_to_disk`.
-- A file system is its regular files. What the kernel and the driver answer is an argument.
pub mod Files
pub mod Paths
pub mod Write
use librtcx.Prelude.{
  ℕ, zero, suc, ◌+◌, List, [], ◌∷◌, ◌++◌, Bool, true, false, Option, none, some, Outcome, ok, raise,
  abort, runtime_error, ◌>>=◌, Bytes, codes, if◌then◌else◌, ◌==◌, text_eq, before, length, take,
  drop,
}
use librtcx.Hash
use librtcx.Hash.{Hash128}

-- `enum class object_type`.
pub data ObjectType : Type 0 where
  library blob : ObjectType

-- `object_tag`; the default case is for values outside the enumeration.
unfoldable pub object_tag : ObjectType → Bytes
object_tag library = codes "cuLibrary"
object_tag blob = codes "blob"

-- std::format("{}.{}.bin", hex, tag), the last part of the path.
unfoldable pub object_name : ObjectType → Hash128 → Bytes
object_name type hash =
    Hash.view (Hash.to_hex_string hash) ++ (codes "." ++ (object_tag type ++ codes ".bin"))

-- std::format("{}/{}.{}.bin", cache_dir, hex, tag).
unfoldable pub object_path : Bytes → ObjectType → Hash128 → Bytes
object_path cache_dir type hash = cache_dir ++ (codes "/" ++ object_name type hash)

-- The regular files, each path with its contents.
abbrev pub FileSystem : Type 0
FileSystem = List (Bytes × Bytes)

unfoldable pub read : Bytes → FileSystem → Option Bytes
read path [] = none
read path ((p, c) ∷ fs) = if text_eq p path then some c else read path fs

unfoldable pub remove : Bytes → FileSystem → FileSystem
remove path [] = []
remove path ((p, c) ∷ fs) =
    let rest = remove path fs in if text_eq p path then rest else (p, c) ∷ rest

-- The file is made, or replaced.
unfoldable pub put : Bytes → Bytes → FileSystem → FileSystem
put path contents fs = (path, contents) ∷ remove path fs

-- Which system calls of `blob_t::from_file` fail; `open` for another reason than a missing file.
pub record ReadFaults : Type 0 where
  pub open_fails : Bool
  pub lseek_fails : Bool
  pub mmap_fails : Bool
  pub close_fails : Bool

-- RTCX_DEFER with a `close`: its exception would leave a destructor.
abbrev pub closing {ℓ} : {A : Type ℓ} → Bool → Outcome A → Outcome A
closing close_fails result = if close_fails then abort else result

-- `blob_t::from_file`; a blob is the bytes of its view.
unfoldable pub from_file : ReadFaults → FileSystem → Bytes → Outcome (Option Bytes)
from_file faults fs path = if faults.open_fails then raise runtime_error else elim (read path fs) [
  | none ↦ ok none
  | some contents ↦ closing faults.close_fails (
      if faults.lseek_fails then raise runtime_error else elim contents [
        | [] ↦ ok (some [])
        | c ∷ cs ↦ if faults.mmap_fails then raise runtime_error else ok (some (c ∷ cs))
      ])
]

-- `get_disk_blob`.
unfoldable pub get_disk_blob :
    ReadFaults → FileSystem → Bytes → ObjectType → Hash128 → Outcome (Option Bytes)
get_disk_blob faults fs cache_dir type hash = from_file faults fs (object_path cache_dir type hash)

-- What `cuLibraryLoadFromFile` answers: a handle, CUDA_ERROR_FILE_NOT_FOUND or another error.
pub data LoadResult : Type 0 where
  loaded : ℕ → LoadResult
  file_not_found load_failed : LoadResult

-- `get_disk_library`, over the driver's answer at a path; a library is its handle.
unfoldable pub get_disk_library :
    (Bytes → LoadResult) → FileSystem → Bytes → Hash128 → Outcome (Option ℕ)
get_disk_library load fs cache_dir hash =
    let path = object_path cache_dir library hash in
    elim (read path fs) [
      | none ↦ ok none
      | some _ ↦ elim (load path) [
        | loaded handle ↦ ok (some handle)
        | file_not_found ↦ ok none
        | load_failed ↦ raise runtime_error
      ]
    ]

-- `get_disk_entries`, over what the directory iterator gives: paths, and which are regular files.
unfoldable pub get_disk_entries : List (Bytes × Bool) → List Bytes
get_disk_entries [] = []
get_disk_entries ((path, is_regular_file) ∷ listing) =
    let rest = get_disk_entries listing in if is_regular_file then path ∷ rest else rest

pub data RenameResult : Type 0 where
  renamed : RenameResult
  -- EEXIST, and any other error.
  exists rename_failed : RenameResult

-- What the system calls of `cache_blob_to_disk` answer.
pub record WriteAnswers : Type 0 where
  -- The six characters that `mkstemp` chose, if it succeeds.
  pub mkstemp : Option Bytes
  -- What each call of `write` returns; one more call fails.
  pub written : List ℕ
  pub close_fails : Bool
  pub create_directories_fails : Bool
  pub rename : RenameResult
  pub remove_fails : Bool

-- What was written to the temporary file, and whether the loop came to its end.
pub record Written : Type 0 where
  pub contents : Bytes
  pub finished : Bool

-- The loop over `write`, from what stands in the file and what remains.
unfoldable pub write_loop : List ℕ → Bytes → Bytes → Written
write_loop answers done [] = record { contents = done; finished = true }
write_loop [] done (b ∷ remaining) = record { contents = done; finished = false }
write_loop (written ∷ answers) done (b ∷ remaining) =
    write_loop answers (done ++ take written (b ∷ remaining)) (drop written (b ∷ remaining))

abbrev pub tmp_path : Bytes → Bytes → Bytes
tmp_path tmp_dir suffix = tmp_dir ++ (codes "/rtcx-bin-" ++ suffix)

-- From the `rename` of the complete temporary file on.
unfoldable pub publish :
    WriteAnswers → Bytes → Bytes → Bytes → FileSystem → FileSystem × Outcome (Unit {0})
publish answers tmp final_path contents fs = elim answers.rename [
  | renamed ↦ (put final_path contents (remove tmp fs), ok tt)
  | exists ↦ if answers.remove_fails then (fs, raise runtime_error) else (remove tmp fs, ok tt)
  | rename_failed ↦ (fs, raise runtime_error)
]

-- `cache_blob_to_disk`: the file system afterwards, and how the call ends.
unfoldable pub cache_blob_to_disk :
    WriteAnswers
    → FileSystem
    → Bytes
    → Bytes
    → ObjectType
    → Hash128
    → Bytes
    → FileSystem × Outcome (Unit {0})
cache_blob_to_disk answers fs cache_dir tmp_dir type hash binary = elim answers.mkstemp [
  | none ↦ (fs, raise runtime_error)
  | some suffix ↦
      let tmp = tmp_path tmp_dir suffix in
      let w = write_loop answers.written [] binary in
      let fs' = put tmp w.contents fs in
      if answers.close_fails
      then (fs', abort)
      else if w.finished
      then if answers.create_directories_fails
        then (fs', raise runtime_error)
        else publish answers tmp (object_path cache_dir type hash) w.contents fs'
      else (fs', raise runtime_error)
]

-- `std::filesystem::path::filename`: what follows the last slash.
unfoldable pub filename_from : Bytes → Bytes → Bytes
filename_from seen [] = seen
filename_from seen (c ∷ path) = filename_from (if c == b'/' then [] else seen ++ c ∷ []) path

unfoldable pub filename : Bytes → Bytes
filename path = filename_from [] path

-- The hash that `preload_from_disk` reads off a path.
unfoldable pub path_hash : Bytes → Outcome Hash128
path_hash path = Hash.parse (before b'.' (filename path))
