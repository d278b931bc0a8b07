-- ===== src/Commander/Db.antt =====
-- pkg/commander/db.go: the `CommanderDB` interface, and `WithRetry`, through which the SQLite
-- implementation makes each query. The queries themselves are generated code over SQLite, so they
-- are a parameter. `Key` stands for int64, the type of a function's key.
pub mod Retry
pub mod Sqlite
use servermore.Base.{
  Bool, List, Option, String, false, if◌then◌else◌, leb, none, not, some, suc, true, zero, ℕ, ◌<◌,
  ◌≡◌, ◌≤◌, ◌⊎◌,
}
use servermore.Base.Results.{Result, err, ok}

-- `no_rows` is sql.ErrNoRows; the SQLite codes that `WithRetry` tells apart are `busy` and `locked`.
pub data DbError : Type 0 where
  no_rows busy locked : DbError
  sqlite_code : (code : ℕ) → DbError
  other_error : (message : String) → DbError
  context_done : DbError
  errored_more_than : (times : ℕ) → DbError → DbError
  failed_to : (what : String) → DbError → DbError

pub record FunctionRow (Key : Type 0) : Type 0 where
  pub id : Key
  pub name : List ℕ
  pub path : List ℕ
  pub hash : List ℕ

pub record RunnerRow : Type 0 where
  pub id : ℕ
  pub addr : String

pub record CommanderDb (Key D : Type 0) : Type 0 where
  pub create_function : List ℕ → List ℕ → List ℕ → D → Result DbError (FunctionRow Key × D)
  pub function_by_id : Key → D → Result DbError (FunctionRow Key)
  pub function_exists_by_hash : List ℕ → D → Result DbError Bool
  pub create_runner : String → D → Result DbError (RunnerRow × D)
  pub runner_by_addr : String → D → Result DbError RunnerRow
  pub get_all_runners : D → Result DbError (List RunnerRow)

abbrev pub max_retries : ℕ
max_retries = 20

-- `errors.As(err, &sqlErr)`, which sees through what wraps an error, and then the test on the code: only
-- these two are tried again.
unfoldable pub is_retryable : DbError → Bool
is_retryable busy = true
is_retryable locked = true
is_retryable (errored_more_than times e) = is_retryable e
is_retryable (failed_to what e) = is_retryable e
is_retryable _ = false

-- `WithRetry` with fuel; none means that the fuel ran out. `f k` is the result of the k-th call.
unfoldable pub retry_from {ℓ} :
    {R : Type ℓ} → (ℕ → Result DbError R) → (ℕ → Bool) → ℕ → ℕ → Option (Result DbError R)
retry_from f is_done zero retries = none
retry_from f is_done (suc fuel) retries =
    let later = retry_from f is_done fuel (suc retries) in
    elim (f retries) [
      | ok result ↦ some (ok result)
      | err e ↦
          if not (is_retryable e)
          then some (err e)
          else if leb max_retries retries
          then some (err (errored_more_than max_retries e))
          else if is_done retries
          then some (err context_done)
          else later
    ]

unfoldable pub with_retry {ℓ} :
    {R : Type ℓ} → (ℕ → Result DbError R) → (ℕ → Bool) → Option (Result DbError R)
with_retry f is_done = retry_from f is_done max_retries 1
