-- ===== src/Commander/Db/Sqlite.antt =====
-- pkg/commander/db.go: `SQLiteCommanderDB`. The queries that sqlc generates are a parameter: what the
-- k-th attempt at each answers on a state of the database. `FunctionExistsByHash` counts, in SQL.
use servermore.Base.{Bool, List, Option, String, ap, none, some, sym, ℕ, ◌==◌, ◌∙◌, ◌≡◌}
use servermore.Base.Results.{Result, err, ok, ok_wrapped, wrap, ◌>>=◌}
use servermore.Commander.Db.{
  CommanderDb, DbError, FunctionRow, RunnerRow, context_done, failed_to, with_retry,
}
use servermore.Commander.Db.Retry.{Decides, with_retry-Answers}

pub record Queries (Key D : Type 0) : Type 0 where
  pub create_function : List ℕ → List ℕ → List ℕ → D → ℕ → Result DbError (FunctionRow Key × D)
  pub function_by_id : Key → D → ℕ → Result DbError (FunctionRow Key)
  pub function_exists_by_hash : List ℕ → D → ℕ → Result DbError ℕ
  pub create_runner : String → D → ℕ → Result DbError (RunnerRow × D)
  pub runner_by_addr : String → D → ℕ → Result DbError RunnerRow
  pub get_all_runners : D → ℕ → Result DbError (List RunnerRow)

-- What `WithRetry` returns. Its fuel is enough, so that the first case does not come up.
abbrev pub settled : {R : Type 0} → Option (Result DbError R) → Result DbError R
settled none = err context_done
settled (some r) = r

module _ {Key D : Type 0} (queries : Queries Key D) (is_done : ℕ → Bool) where
  unfoldable pub retried : {R : Type 0} → String → (ℕ → Result DbError R) → Result DbError R
  retried what f = wrap (failed_to what) (settled (with_retry f is_done))

  unfoldable pub sqlite_create_function :
      List ℕ → List ℕ → List ℕ → D → Result DbError (FunctionRow Key × D)
  unfolding retried
  sqlite_create_function path name hash d =
      retried "create function" (queries.create_function path name hash d)

  unfoldable pub sqlite_function_by_id : Key → D → Result DbError (FunctionRow Key)
  unfolding retried
  sqlite_function_by_id id d = retried "get function by id" (queries.function_by_id id d)

  unfoldable pub sqlite_function_exists_by_hash : List ℕ → D → Result DbError Bool
  unfolding retried
  sqlite_function_exists_by_hash hash d =
      retried "check if function exists" (queries.function_exists_by_hash hash d) >>= λ exists.
      ok (exists == 1)

  unfoldable pub sqlite_create_runner : String → D → Result DbError (RunnerRow × D)
  unfolding retried
  sqlite_create_runner addr d = retried "create runner by addr" (queries.create_runner addr d)

  unfoldable pub sqlite_runner_by_addr : String → D → Result DbError RunnerRow
  unfolding retried
  sqlite_runner_by_addr addr d = retried "get runner by addr" (queries.runner_by_addr addr d)

  unfoldable pub sqlite_get_all_runners : D → Result DbError (List RunnerRow)
  unfolding retried
  sqlite_get_all_runners d = retried "get all runners" (queries.get_all_runners d)

  -- The commander's database.
  abbrev pub sqlite_db : CommanderDb Key D
  sqlite_db = record {
    create_function = sqlite_create_function;
    function_by_id = sqlite_function_by_id;
    function_exists_by_hash = sqlite_function_exists_by_hash;
    create_runner = sqlite_create_runner;
    runner_by_addr = sqlite_runner_by_addr;
    get_all_runners = sqlite_get_all_runners;
  }

  decided :
      {R : Type 0} (f : ℕ → Result DbError R) {r : R} (k : ℕ) (answer : Result DbError R)
      → answer ≡ ok r
      → Decides f is_done k answer
      → f k ≡ ok r
  decided f k (ok x) same decides = decides ∙ same
  decided f k (err x) same decides = cc

  -- A wrapped query succeeds only with what one of its attempts answered.
  pub retried-ok :
      {R : Type 0} (what : String) (f : ℕ → Result DbError R) (r : R)
      → retried what f ≡ ok r
      → (k : ℕ) × (f k ≡ ok r)
  unfolding retried
  retried-ok what f r e =
      let (k, answer, settles, _, _, _, decides) = with_retry-Answers f is_done in
      let same : answer ≡ ok r =
        ap settled (sym settles) ∙ ok_wrapped (failed_to what) (settled (with_retry f is_done)) e in
      (k, decided f k answer same decides)
