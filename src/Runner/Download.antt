-- ===== src/Runner/Download.antt =====
-- pkg/runner/grpc.go: `downloadFunction`, over a file system whose calls may fail. A file is written
-- under a temporary name and renamed. The mode bits that `os.Chmod` sets are left out; its failure is
-- not. `filepath.Join` is a parameter.
use servermore.Base.{List, Option, String, [], if◌then◌else◌, length, none, some, ℕ, ◌==◌}
use servermore.Base.Maps.{Map, delete, insert}
use servermore.Base.Results.{Result, err, ok}

-- The answer to the request for the binary: its status, the two headers, and what `io.Copy` reads
-- from the body, which may break off.
pub record BinaryReply : Type 0 where
  pub status : ℕ
  pub func_path : String
  pub func_name : String
  pub received : List ℕ
  pub broken_off : Option String

-- What the calls on the file system answer; `create_temp` answers with the new file's name.
pub record Disk : Type 0 where
  pub make_dir : Result String (Unit {0})
  pub create_temp : Result String String
  pub close_file : Result String (Unit {0})
  pub change_mode : Result String (Unit {0})
  pub rename : Result String (Unit {0})
  pub remove : Result String (Unit {0})

pub data DownloadFailure : Type 0 where
  request_failed make_dir_failed create_temp_failed : (message : String) → DownloadFailure
  copy_failed close_failed change_mode_failed rename_failed : (message : String) → DownloadFailure
  function_not_found_there commander_errored : DownloadFailure

abbrev pub Files : Type 0
Files = Map (List ℕ)

-- What `downloadFunction` answers: the path, and the number of bytes; and the files then.
abbrev pub Downloaded : Type 0
Downloaded = Result DownloadFailure (String × ℕ) × Files

module _ (join : String → String → String) (storage_root : String) (disk : Disk) where
  unfoldable pub path_on_runner : String → String
  path_on_runner path = join storage_root path

  -- `server.DeleteFile`: a failure is logged only.
  abbrev pub delete_file : Result String (Unit {0}) → String → Files → Files
  delete_file (ok _) path files = delete path files
  delete_file (err e) path files = files

  -- An error behind the creation of the temporary file.
  abbrev pub give_up : DownloadFailure → String → Files → Downloaded
  give_up e tmp files = (err e, delete_file disk.remove tmp files)

  abbrev pub after_rename : String → String → List ℕ → Result String (Unit {0}) → Files → Downloaded
  after_rename tmp target content (err e) files = give_up (rename_failed e) tmp files
  after_rename tmp target content (ok _) files =
      (ok (target, length content), insert target content (delete tmp files))

  abbrev pub after_mode : String → String → List ℕ → Result String (Unit {0}) → Files → Downloaded
  after_mode tmp target content (err e) files = give_up (change_mode_failed e) tmp files
  after_mode tmp target content (ok _) files = after_rename tmp target content disk.rename files

  abbrev pub after_close : String → String → List ℕ → Result String (Unit {0}) → Files → Downloaded
  after_close tmp target content (err e) files = give_up (close_failed e) tmp files
  after_close tmp target content (ok _) files = after_mode tmp target content disk.change_mode files

  abbrev pub after_copy : String → String → List ℕ → Option String → Files → Downloaded
  after_copy tmp target content (some e) files = give_up (copy_failed e) tmp files
  after_copy tmp target content none files = after_close tmp target content disk.close_file files

  abbrev pub after_create : String → BinaryReply → Result String String → Files → Downloaded
  after_create target reply (err e) files = (err (create_temp_failed e), files)
  after_create target reply (ok tmp) files =
      after_copy tmp target reply.received reply.broken_off
        (insert tmp reply.received (insert tmp [] files))

  abbrev pub after_dir : String → BinaryReply → Result String (Unit {0}) → Files → Downloaded
  after_dir target reply (err e) files = (err (make_dir_failed e), files)
  after_dir target reply (ok _) files = after_create target reply disk.create_temp files

  abbrev pub target_of : BinaryReply → String
  target_of reply = path_on_runner (join reply.func_path reply.func_name)

  abbrev pub after_status : BinaryReply → Files → Downloaded
  after_status reply files = after_dir (target_of reply) reply disk.make_dir files

  unfoldable pub download_function : Result String BinaryReply → Files → Downloaded
  download_function (err e) files = (err (request_failed e), files)
  download_function (ok reply) files =
      if reply.status == 404
      then (err function_not_found_there, files)
      else (if reply.status == 500
          then (err commander_errored, files)
          else after_status reply files)
