-- ===== src/Tests/DiskRuns.antt =====
-- The disk store on small file systems.
use librtcx.Prelude.{
  ◌≡◌, refl, ◌≢◌, ◌⊎◌, [], ◌∷◌, false, some, ok, arith, Bytes, codes, text_eq, before, ends_with,
  text_eq_iff,
}
use librtcx.Hash
use librtcx.Hash.{Hash128, IsHash128}
use librtcx.Disk
use librtcx.Disk.{
  ObjectType, FileSystem, ReadFaults, WriteAnswers, renamed, exists, rename_failed, object_tag,
  object_name, object_path, read, remove, put, from_file, get_disk_blob, write_loop, publish,
  cache_blob_to_disk, tmp_path, filename_from, filename, path_hash,
}
use librtcx.Disk.Paths.{path_hash-object_path}
use librtcx.Disk.Write.{cache_blob_to_disk_atomic, cache_blob_to_disk_returns}

unfoldable pub program : Unit {0}
unfolding object_tag object_name object_path read remove put from_file get_disk_blob write_loop
    publish cache_blob_to_disk filename_from filename path_hash text_eq before ends_with
    Hash.to_bytes Hash.bytes Hash.hex_digits Hash.make Hash.view Hash.to_hex_string Hash.hex_digit
    Hash.read_digits Hash.from_chars Hash.parse_bytes Hash.parse Hash.of_bytes
program = tt

abbrev pub cache_dir : Bytes
cache_dir = codes "/c"

abbrev pub tmp_dir : Bytes
tmp_dir = codes "/t"

abbrev pub suffix : Bytes
suffix = codes "a1B2c3"

abbrev pub answers : WriteAnswers
answers = record {
  mkstemp = some suffix;
  written = 2 ∷ 1 ∷ 5 ∷ [];
  close_fails = false;
  create_directories_fails = false;
  rename = renamed;
  remove_fails = false;
}

abbrev pub binary : Bytes
binary = 1 ∷ 2 ∷ 3 ∷ []

abbrev pub full_path : Bytes
full_path = codes "/c/07000000000000000000000000000000.blob.bin"

object_path-seven : object_path cache_dir Disk.blob 7 ≡ full_path
unfolding program
object_path-seven = refl

path_hash-seven : path_hash full_path ≡ ok 7
unfolding program
path_hash-seven = refl

store :
    cache_blob_to_disk answers [] cache_dir tmp_dir Disk.blob 7 binary
    ≡ ((full_path, binary) ∷ [], ok tt)
unfolding program
store = refl

abbrev refused : WriteAnswers
refused = record answers { rename = rename_failed }

path_hash-object_path_example : path_hash (object_path cache_dir Disk.library 7) ≡ ok 7
path_hash-object_path_example = path_hash-object_path cache_dir Disk.library 7 (omega arith)

final-ne-tmp : tmp_path tmp_dir suffix ≢ full_path
unfolding program
final-ne-tmp = λ e. cc ((text_eq_iff (tmp_path tmp_dir suffix) full_path).1 e)

x_ne_tmp : codes "/c/x" ≢ tmp_path tmp_dir suffix
unfolding program
x_ne_tmp = λ e. cc ((text_eq_iff (codes "/c/x") (tmp_path tmp_dir suffix)).1 e)

other_path : (s : Bytes) → refused.mkstemp ≡ some s → codes "/c/x" ≢ tmp_path tmp_dir s
other_path s made = λ e. x_ne_tmp (ground arith)

full_path_ne_tmp :
    (s : Bytes) → answers.mkstemp ≡ some s → tmp_path tmp_dir s ≢ object_path cache_dir Disk.blob 7
full_path_ne_tmp s made = λ e. final-ne-tmp (ground (arith, object_path-seven))

-- The temporary file that stays makes no difference to another path.
cache_blob_to_disk_atomic_example :
    (read (codes "/c/x") (cache_blob_to_disk refused [] cache_dir tmp_dir Disk.blob 7 binary).0
      ≡ read (codes "/c/x") [])
    ⊎ ((codes "/c/x" ≡ object_path cache_dir Disk.blob 7)
        × (read
              (codes "/c/x")
              (cache_blob_to_disk refused [] cache_dir tmp_dir Disk.blob 7 binary).0
            ≡ some binary))
cache_blob_to_disk_atomic_example =
    cache_blob_to_disk_atomic refused [] cache_dir tmp_dir Disk.blob 7 binary (codes "/c/x")
      other_path

cache_blob_to_disk_returns_example :
    ((cache_blob_to_disk answers [] cache_dir tmp_dir Disk.blob 7 binary).1 ≡ ok tt)
    × (read
          (object_path cache_dir Disk.blob 7)
          (cache_blob_to_disk answers [] cache_dir tmp_dir Disk.blob 7 binary).0
        ≡ some binary)
cache_blob_to_disk_returns_example =
    cache_blob_to_disk_returns answers [] cache_dir tmp_dir Disk.blob 7 binary suffix refl
      (omega arith, (omega arith, (omega arith, tt))) (omega arith) refl refl refl
