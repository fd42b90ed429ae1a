-- ===== src/Cache/Stored.antt =====
-- What the object files hold after `cache_blob_to_disk` of src/rtcx.cpp.
use librtcx.Prelude.{◌≡◌, sym, ap, ◌∙◌, inl, inr, some, Bytes}
use librtcx.Hash.{Hash128, IsHash128}
use librtcx.Disk.{FileSystem, WriteAnswers, ObjectType, object_path, read, cache_blob_to_disk}
use librtcx.Disk.Paths.{object_path-injective, tmp_path-ne-object_path}
use librtcx.Disk.Write.{cache_blob_to_disk_atomic}
use librtcx.Cache.Coherence.{IsMkstemp}

-- Each file of a type holds what `want` says of its hash.
abbrev pub IsStored : (Hash128 → Bytes) → Bytes → ObjectType → FileSystem → Type 0
IsStored want dir type fs =
    (h : Hash128) (c : Bytes) → IsHash128 h → read (object_path dir type h) fs ≡ some c → c ≡ want h

-- After the store of a right object the files of each type hold what they should.
pub stored_after :
    (want : ObjectType → Hash128 → Bytes) (answers : WriteAnswers) (fs : FileSystem)
    (dir tmp_dir : Bytes) (type u : ObjectType) (hash : Hash128) (c : Bytes)
    → IsHash128 hash
    → IsMkstemp answers
    → c ≡ want type hash
    → IsStored (want u) dir u fs
    → IsStored (want u) dir u (cache_blob_to_disk answers fs dir tmp_dir type hash c).0
stored_after want answers fs dir tmp_dir type u hash c lt portable is old h d hlt e =
    elim (cache_blob_to_disk_atomic answers fs dir tmp_dir type hash c (object_path dir u h)
      (λ t m p.
        let (six, dots) = portable t m in
        tmp_path-ne-object_path tmp_dir dir t u h six dots (sym p))) [
          | inl same ↦ old h d hlt (sym same ∙ e)
          | inr (p, new) ↦
              let (q, r) = object_path-injective dir u type h hash hlt lt p in
              cc (is, new, e, ap (λ t. want t h) q, ap (want type) r)
        ]
