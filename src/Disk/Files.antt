-- ===== src/Disk/Files.antt =====
-- The file system: what is read after a write or a removal.
use librtcx.Prelude.{◌≡◌, [], ◌∷◌, none, some, arith, Bytes, if◌then◌else◌, text_eq, text_eq_iff}
use librtcx.Disk.{FileSystem, read, remove, put}

pub read-remove :
    (q p : Bytes) (fs : FileSystem)
    → read q (remove p fs) ≡ (if text_eq p q then none else read q fs)
unfolding read remove
read-remove q p [] = ground arith
read-remove q p ((r, c) ∷ fs) =
    ground (arith, read-remove q p fs, text_eq_iff p q, text_eq_iff r q, text_eq_iff r p)

pub read-put :
    (q p c : Bytes) (fs : FileSystem)
    → read q (put p c fs) ≡ (if text_eq p q then some c else read q fs)
unfolding put read
read-put q p c fs = ground (arith, read-remove q p fs)
