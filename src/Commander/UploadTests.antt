-- ===== src/Commander/UploadTests.antt =====
-- An upload to a busy database, and the theorem about a second one at a concrete input.
use servermore.Base.{
  List, [], ap, false, if◌then◌else◌, refl, suc, sym, true, zero, ℕ, ◌∷◌, ◌≡◌, ◌≢◌,
}
use servermore.Base.Results.{Result, err, ok, ok_or}
use servermore.Commander.Db.{DbError, FunctionRow, busy, is_retryable, retry_from, with_retry}
use servermore.Commander.Db.Sqlite.{
  Queries, retried, sqlite_create_function, sqlite_db, sqlite_function_exists_by_hash,
}
use servermore.Commander.Service.{create_function}
use servermore.Commander.Tests.{
  Tables, commander_model, hash_exists, hash_found, no_rows_yet, small_db, small_service, uploaded,
}
use servermore.Commander.Uploads.{create_function_once}

-- The first attempt at each write finds the database busy.
abbrev at_attempt : {R : Type 0} → ℕ → Result DbError R → Result DbError R
at_attempt (suc zero) answer = err busy
at_attempt _ answer = answer

abbrev small_queries : Queries ℕ Tables
small_queries = record {
  create_function = λ path name hash t k. at_attempt k (small_db.create_function path name hash t);
  function_by_id = λ id t k. small_db.function_by_id id t;
  function_exists_by_hash =
      λ hash t k. at_attempt k (ok (if hash_exists hash t.functions then 1 else 0));
  create_runner = λ addr t k. small_db.create_runner addr t;
  runner_by_addr = λ addr t k. small_db.runner_by_addr addr t;
  get_all_runners = λ t k. small_db.get_all_runners t;
}

answered_with :
    {R : Type 0} (k : ℕ) (answer : Result DbError R) (r : R)
    → at_attempt k answer ≡ ok r
    → answer ≡ ok r
answered_with zero answer r e = e
answered_with (suc zero) answer r e = cc
answered_with (suc (suc k)) answer r e = e

counted :
    (path name hash : List ℕ) (d d' : Tables) (row : FunctionRow ℕ) (k j n : ℕ)
    → small_queries.create_function path name hash d k ≡ ok (row, d')
    → small_queries.function_exists_by_hash hash d' j ≡ ok n
    → n ≡ 1
counted path name hash d d' row k j n made asked_later =
    let exists =
      hash_found path name hash d d' row
        (answered_with k (small_db.create_function path name hash d) (row, d') made) in
    let found : hash_exists hash d'.functions ≡ true = ap (ok_or true) exists in
    let answer =
      answered_with j (ok (if hash_exists hash d'.functions then 1 else 0)) n asked_later in
    let count : (if hash_exists hash d'.functions then 1 else 0) ≡ n = ap (ok_or 0) answer in
    sym (rw found at count)

busy_upload :
    create_function
      (record small_service { db = sqlite_db small_queries (λ k. false) })
      (5 ∷ [])
      (ok (2 ∷ []))
      no_rows_yet
    ≡ ok (record { id = 8; name = 5 ∷ [] }, uploaded)
unfolding commander_model sqlite_create_function sqlite_function_exists_by_hash retried with_retry
    retry_from is_retryable
busy_upload = refl

create_function_once_example :
    create_function
      (record small_service { db = sqlite_db small_queries (λ k. true) })
      (6 ∷ [])
      (ok (2 ∷ []))
      uploaded
    ≢ ok (record { id = 8; name = 6 ∷ [] }, uploaded)
create_function_once_example =
    create_function_once small_service small_queries (λ k. false) (λ k. true) counted (5 ∷ [])
      (6 ∷ []) (2 ∷ []) no_rows_yet uploaded uploaded (record { id = 8; name = 5 ∷ [] })
      (record { id = 8; name = 6 ∷ [] }) busy_upload
