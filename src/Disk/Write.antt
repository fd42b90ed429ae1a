-- ===== src/Disk/Write.antt =====
-- `cache_blob_to_disk`: the loop writes all, and the final path is never seen half written.
use mathlib.Core.List.{append_assoc, append-nil}
use librtcx.Prelude.{
  ℕ, ◌≤◌, ◌<◌, ◌≡◌, refl, ap, sym, ◌∙◌, ◌≢◌, ◌⊎◌, inl, inr, List, [], ◌∷◌, ◌++◌, true, false, none,
  some, Error, Outcome, ok, raise, arith, Bytes, text_eq_iff, length, take, drop, All,
  take-append-drop, length-drop, Option-cases,
}
use librtcx.Hash.{Hash128}
use librtcx.Disk.{
  FileSystem, ObjectType, WriteAnswers, object_path, read, remove, put, renamed, exists, write_loop,
  tmp_path, publish, cache_blob_to_disk,
}
use librtcx.Disk.Files.{read-remove, read-put}

-- When the loop comes to its end the file holds what it held and then all of the rest.
pub write_loop-finished :
    (answers : List ℕ) (done remaining : Bytes)
    → (write_loop answers done remaining).finished ≡ true
    → (write_loop answers done remaining).contents ≡ done ++ remaining
unfolding write_loop
write_loop-finished answers done [] h = sym (append-nil done)
write_loop-finished [] done (b ∷ remaining) h = ground arith
write_loop-finished (w ∷ answers) done (b ∷ remaining) h =
    write_loop-finished answers (done ++ take w (b ∷ remaining)) (drop w (b ∷ remaining)) h
    ∙ append_assoc done (take w (b ∷ remaining)) (drop w (b ∷ remaining))
    ∙ ap (◌++◌ done) (take-append-drop w (b ∷ remaining))

-- The loop ends if each call writes at least one byte and there are as many answers as bytes.
pub write_loop_ends :
    (answers : List ℕ) (done remaining : Bytes)
    → All (λ w. 0 < w) answers
    → length remaining ≤ length answers
    → (write_loop answers done remaining).finished ≡ true
unfolding write_loop
write_loop_ends answers done [] p h = refl
write_loop_ends [] done (b ∷ remaining) p h = absurd (omega arith)
write_loop_ends (w ∷ answers) done (b ∷ remaining) p h =
    write_loop_ends answers (done ++ take w (b ∷ remaining)) (drop w (b ∷ remaining)) p.1
      (omega (arith, length-drop w (b ∷ remaining), p.0))

module _ (answers : WriteAnswers) (tmp final c : Bytes) (fs : FileSystem) where
  publish_atomic :
      (p : Bytes)
      → p ≢ tmp
      → (read p (publish answers tmp final c fs).0 ≡ read p fs)
        ⊎ ((p ≡ final) × (read p (publish answers tmp final c fs).0 ≡ some c))
  unfolding publish
  publish_atomic p other = ground (
    arith,
    read-remove p tmp fs,
    read-put p final c (remove tmp fs),
    text_eq_iff tmp p,
    text_eq_iff final p,
  )

  publish-ok :
      tmp ≢ final
      → (publish answers tmp final c fs).1 ≡ ok tt
      → (read tmp (publish answers tmp final c fs).0 ≡ none)
        × (((answers.rename ≡ renamed) × (read final (publish answers tmp final c fs).0 ≡ some c))
            ⊎ ((answers.rename ≡ exists)
                × (read final (publish answers tmp final c fs).0 ≡ read final fs)))
  unfolding publish
  publish-ok ne h = ground (
    arith,
    read-remove tmp tmp fs,
    read-remove final tmp fs,
    read-put final final c (remove tmp fs),
    read-put tmp final c (remove tmp fs),
    text_eq_iff tmp tmp,
    text_eq_iff final tmp,
    text_eq_iff final final,
    text_eq_iff tmp final,
  )

  publish-raise :
      (e : Error)
      → (publish answers tmp final c fs).1 ≡ raise e
      → (publish answers tmp final c fs).0 ≡ fs
  unfolding publish
  publish-raise e h = ground arith

module _ (answers : WriteAnswers) (fs : FileSystem) (cache_dir tmp_dir : Bytes) (type : ObjectType)
    (hash : Hash128) (binary : Bytes) where
  abbrev after : FileSystem × Outcome (Unit {0})
  after = cache_blob_to_disk answers fs cache_dir tmp_dir type hash binary

  abbrev final_path : Bytes
  final_path = object_path cache_dir type hash

  -- However the call ends, each path but the temporary one keeps its file, or is the final path
  -- and holds the whole binary.
  pub cache_blob_to_disk_atomic :
      (p : Bytes)
      → ((s : Bytes) → answers.mkstemp ≡ some s → p ≢ tmp_path tmp_dir s)
      → (read p after.0 ≡ read p fs) ⊎ ((p ≡ final_path) × (read p after.0 ≡ some binary))
  unfolding cache_blob_to_disk
  cache_blob_to_disk_atomic p other = elim (Option-cases answers.mkstemp) [
    | inl e ↦ inl (rw (e, cache_blob_to_disk) refl)
    | inr (s, e) ↦
        let tmp = tmp_path tmp_dir s in
        let c = (write_loop answers.written [] binary).contents in
        ground (
          arith,
          other s e,
          write_loop-finished answers.written [] binary,
          read-put p tmp c fs,
          publish_atomic answers tmp final_path c (put tmp c fs) p,
          text_eq_iff tmp p,
        )
  ]

  -- Where the temporary path is not the final one, a call that returns has removed the temporary
  -- file, and the final path holds the whole binary or, where `rename` found it taken, what it
  -- held.
  pub cache_blob_to_disk-ok :
      (s : Bytes)
      → answers.mkstemp ≡ some s
      → tmp_path tmp_dir s ≢ final_path
      → after.1 ≡ ok tt
      → (read (tmp_path tmp_dir s) after.0 ≡ none)
        × (((answers.rename ≡ renamed) × (read final_path after.0 ≡ some binary))
            ⊎ ((answers.rename ≡ exists) × (read final_path after.0 ≡ read final_path fs)))
  unfolding cache_blob_to_disk
  cache_blob_to_disk-ok s e ne h =
      let tmp = tmp_path tmp_dir s in
      let c = (write_loop answers.written [] binary).contents in
      ground (
        arith,
        write_loop-finished answers.written [] binary,
        read-put final_path tmp c fs,
        publish-ok answers tmp final_path c (put tmp c fs),
        text_eq_iff tmp final_path,
      )

  -- A call that fails after the temporary file was made leaves it behind.
  pub cache_blob_to_disk-raise :
      (s : Bytes) (error : Error)
      → answers.mkstemp ≡ some s
      → after.1 ≡ raise error
      → (c : Bytes) × (read (tmp_path tmp_dir s) after.0 ≡ some c)
  unfolding cache_blob_to_disk
  cache_blob_to_disk-raise s error e h =
      let tmp = tmp_path tmp_dir s in
      let c = (write_loop answers.written [] binary).contents in
      (
        c,
        ground (
          arith,
          read-put tmp tmp c fs,
          publish-raise answers tmp final_path c (put tmp c fs) error,
          text_eq_iff tmp tmp,
        ),
      )

  -- Where every system call succeeds, each `write` makes progress and there are as many of them as
  -- bytes, the call returns, and the final path holds the whole binary.
  pub cache_blob_to_disk_returns :
      (s : Bytes)
      → answers.mkstemp ≡ some s
      → All (λ w. 0 < w) answers.written
      → length binary ≤ length answers.written
      → answers.close_fails ≡ false
      → answers.create_directories_fails ≡ false
      → answers.rename ≡ renamed
      → (after.1 ≡ ok tt) × (read final_path after.0 ≡ some binary)
  unfolding cache_blob_to_disk publish
  cache_blob_to_disk_returns s e progress enough closes makes renames =
      let tmp = tmp_path tmp_dir s in
      let c = (write_loop answers.written [] binary).contents in
      ground (
        arith,
        write_loop-finished answers.written [] binary,
        write_loop_ends answers.written [] binary progress enough,
        read-put final_path final_path c (remove tmp (put tmp c fs)),
        text_eq_iff final_path final_path,
      )
