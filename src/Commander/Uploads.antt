-- ===== src/Commander/Uploads.antt =====
-- pkg/commander/service.go over pkg/commander/db.go: uploads to a SQLite database that may be busy.
use servermore.Base.{==_iff, Bool, List, ap, false, sym, true, ℕ, ◌==◌, ◌∙◌, ◌≡◌, ◌≢◌}
use servermore.Base.Results.{ok, ok_or, ok_steps}
use servermore.Commander.Db.{FunctionRow}
use servermore.Commander.Db.Sqlite.{
  Queries, retried, retried-ok, sqlite_create_function, sqlite_db, sqlite_function_exists_by_hash,
}
use servermore.Commander.Registry.{create_function-IsUploaded}
use servermore.Commander.Service.{ApiFunction, Service, create_function}

module _ {Key D S : Type 0} (svc : Service Key D S) (queries : Queries Key D) where
  -- What an answer of `FunctionExistsByHash` over SQLite rests on.
  not_counted :
      (is_done : ℕ → Bool) (hash : List ℕ) (d : D)
      → sqlite_function_exists_by_hash queries is_done hash d ≡ ok false
      → (k : ℕ) × (n : ℕ) × (queries.function_exists_by_hash hash d k ≡ ok n) × ((n == 1) ≡ false)
  unfolding sqlite_function_exists_by_hash
  not_counted is_done hash d e =
      let (n, asked, e1) =
        ok_steps
          (retried queries is_done "check if function exists"
            (queries.function_exists_by_hash hash d))
          _ e in
      let (k, answer) =
        retried-ok queries is_done _ (queries.function_exists_by_hash hash d) n asked in
      (k, n, answer, ap (ok_or false) e1)

  -- Once a function has been uploaded to a SQLite database, no upload of the same bytes to the
  -- database that it left succeeds, under any name, if each attempt at counting the rows of a hash
  -- that answers counts one where a row of that hash was made. Attempts that fail, since the database
  -- is busy or for another reason, change nothing about that.
  pub create_function_once :
      (is_done done_later : ℕ → Bool)
      (counted : (path name hash : List ℕ) (d d' : D) (row : FunctionRow Key) (k j n : ℕ)
        → queries.create_function path name hash d k ≡ ok (row, d')
        → queries.function_exists_by_hash hash d' j ≡ ok n
        → n ≡ 1)
      (func_name other_name func_bytes : List ℕ) (d d' d'' : D) (function other : ApiFunction Key)
      → create_function (record svc { db = sqlite_db queries is_done }) func_name (ok func_bytes) d
        ≡ ok (function, d')
      → create_function
          (record svc { db = sqlite_db queries done_later })
          other_name
          (ok func_bytes)
          d'
        ≢ ok (other, d'')
  unfolding sqlite_create_function
  create_function_once is_done done_later counted func_name other_name func_bytes d d' d'' function
        other first again =
      let (bytes, read, (path, row, _, _, made, _)) =
        create_function-IsUploaded (record svc { db = sqlite_db queries is_done }) func_name
          (ok func_bytes) d d' function first in
      let (bytes', read', (_, _, absent, _, _, _)) =
        create_function-IsUploaded (record svc { db = sqlite_db queries done_later }) other_name
          (ok func_bytes) d' d'' other again in
      let same : bytes' ≡ bytes = ap (ok_or bytes) (sym read' ∙ read) in
      let (k, creation) = retried-ok queries is_done _ _ _ made in
      let (j, n, answer, wrong) = not_counted done_later (svc.sha256 bytes') d' absent in
      let one : n ≡ 1 =
        counted path func_name (svc.sha256 bytes) d d' row k j n creation (rw (← same) answer) in
      let right : (n == 1) ≡ true = (==_iff n 1).1 one in cc
