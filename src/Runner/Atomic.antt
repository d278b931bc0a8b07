-- ===== src/Runner/Atomic.antt =====
-- `downloadFunction` brings a whole file or changes nothing.
use servermore.Base.{
  Bool-cases, List, Option, String, [], arith, eq_iff, inl, inr, length, none, refl, some, str_ne,
  sym, ℕ, ◌==◌, ◌∙◌, ◌≡◌, ◌≢◌,
}
use servermore.Base.Maps.{
  delete, insert, lookup, lookup-delete, lookup-insert, lookup-insert_ne, lookup-insert_self,
}
use servermore.Base.Results.{Result, err, ok}
use servermore.Runner.Download.{
  BinaryReply, Disk, DownloadFailure, Downloaded, Files, after_close, after_copy, after_create,
  after_dir, after_mode, after_rename, change_mode_failed, close_failed, copy_failed,
  download_function, give_up, rename_failed, target_of,
}

module _ (join : String → String → String) (storage_root : String) (disk : Disk) where
  -- The files before and after, and the answer: on an error every path is as it was; on success the
  -- answered path holds the whole body, and every other path is as it was.
  abbrev pub IsAtomic : Result String BinaryReply → Files → Downloaded → Type 0
  IsAtomic answer files (err e, files') = (path : String) → lookup path files' ≡ lookup path files
  IsAtomic answer files (ok (target, n), files') =
      (reply : BinaryReply) × (answer ≡ ok reply)
      × (reply.broken_off ≡ none)
      × (n ≡ length reply.received)
      × (target ≡ target_of join storage_root disk reply)
      × (lookup target files' ≡ some reply.received)
      × ((path : String) → path ≢ target → lookup path files' ≡ lookup path files)

  module _ (tmp : String) (files : Files) (fresh : lookup tmp files ≡ none) where
    abbrev written : List ℕ → Files
    written content = insert tmp content (insert tmp [] files)

    removed :
        (content : List ℕ) (path : String)
        → lookup path (delete tmp (written content)) ≡ lookup path files
    removed content path = ground (
      arith,
      lookup-delete tmp path (written content),
      lookup-insert tmp path content (insert tmp [] files),
      lookup-insert tmp path [] files,
      eq_iff tmp path,
      fresh,
    )

  module _ (works : disk.remove ≡ ok tt) (reply : BinaryReply) (files : Files) (tmp : String)
      (fresh : lookup tmp files ≡ none) where
    give_up-IsAtomic :
        (e : DownloadFailure)
        → IsAtomic
            (ok reply)
            files
            (give_up join storage_root disk e tmp (written tmp files fresh reply.received))
    give_up-IsAtomic e path = rw works (removed tmp files fresh reply.received path)

    after_rename-IsAtomic :
        (renamed : Result String (Unit {0}))
        → reply.broken_off ≡ none
        → IsAtomic (ok reply) files (
            after_rename join storage_root disk tmp
              (target_of join storage_root disk reply)
              reply.received
              renamed
              (written tmp files fresh reply.received))
    after_rename-IsAtomic (err e) whole = give_up-IsAtomic (rename_failed e)
    after_rename-IsAtomic (ok _) whole =
        let target = target_of join storage_root disk reply in
        (
          reply,
          refl,
          whole,
          refl,
          refl,
          lookup-insert_self target reply.received _,
          λ path apart.
              lookup-insert_ne target path reply.received _
                (str_ne target path (λ e. apart (sym e)))
              ∙ removed tmp files fresh reply.received path,
        )

    after_mode-IsAtomic :
        (changed : Result String (Unit {0}))
        → reply.broken_off ≡ none
        → IsAtomic (ok reply) files (
            after_mode join storage_root disk tmp
              (target_of join storage_root disk reply)
              reply.received
              changed
              (written tmp files fresh reply.received))
    after_mode-IsAtomic (err e) whole = give_up-IsAtomic (change_mode_failed e)
    after_mode-IsAtomic (ok _) whole = after_rename-IsAtomic disk.rename whole

    after_close-IsAtomic :
        (closed : Result String (Unit {0}))
        → reply.broken_off ≡ none
        → IsAtomic (ok reply) files (
            after_close join storage_root disk tmp
              (target_of join storage_root disk reply)
              reply.received
              closed
              (written tmp files fresh reply.received))
    after_close-IsAtomic (err e) whole = give_up-IsAtomic (close_failed e)
    after_close-IsAtomic (ok _) whole = after_mode-IsAtomic disk.change_mode whole

    after_copy-IsAtomic :
        (broken : Option String)
        → reply.broken_off ≡ broken
        → IsAtomic (ok reply) files (
            after_copy join storage_root disk tmp
              (target_of join storage_root disk reply)
              reply.received
              broken
              (written tmp files fresh reply.received))
    after_copy-IsAtomic (some e) whole = give_up-IsAtomic (copy_failed e)
    after_copy-IsAtomic none whole = after_close-IsAtomic disk.close_file whole

  module _ (works : disk.remove ≡ ok tt) (files : Files)
      (fresh : (tmp : String) → disk.create_temp ≡ ok tmp → lookup tmp files ≡ none) where
    after_create-IsAtomic :
        (reply : BinaryReply) (created : Result String String)
        → disk.create_temp ≡ created
        → IsAtomic (ok reply) files (
            after_create join storage_root disk
              (target_of join storage_root disk reply)
              reply
              created
              files)
    after_create-IsAtomic reply (err e) made = λ path. refl
    after_create-IsAtomic reply (ok tmp) made =
        after_copy-IsAtomic works reply files tmp (fresh tmp made) reply.broken_off refl

    after_dir-IsAtomic :
        (reply : BinaryReply) (made : Result String (Unit {0}))
        → IsAtomic (ok reply) files (
            after_dir join storage_root disk
              (target_of join storage_root disk reply)
              reply
              made
              files)
    after_dir-IsAtomic reply (err e) = λ path. refl
    after_dir-IsAtomic reply (ok _) = after_create-IsAtomic reply disk.create_temp refl

    -- If the name of the temporary file is one that no file had, and its removal works, then a
    -- download that fails, at whichever step, leaves every path as it was, the temporary one too; and
    -- one that succeeds had the whole body, which is then the file at the answered path, the place
    -- that the headers name under the storage's root, and every other path is as it was.
    pub download_function-IsAtomic :
        (answer : Result String BinaryReply)
        → IsAtomic answer files (download_function join storage_root disk answer files)
    unfolding download_function
    download_function-IsAtomic (err e) = λ path. refl
    download_function-IsAtomic (ok reply) = elim (Bool-cases (reply.status == 404)) [
      | inl missing ↦ rw missing (λ path. refl)
      | inr found ↦ elim (Bool-cases (reply.status == 500)) [
        | inl errored ↦ rw (found, errored) (λ path. refl)
        | inr answered ↦ rw (found, answered) (after_dir-IsAtomic reply disk.make_dir)
      ]
    ]
