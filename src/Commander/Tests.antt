-- ===== src/Commander/Tests.antt =====
-- Runs of the commander over a small database, and its theorems at concrete inputs.
use servermore.Base.{
  Bool, List, Option, String, [], ap, bytes_eq, bytes_eq_refl, false, if◌then◌else◌, map, none,
  refl, some, str_eq, true, ℕ, ◌++◌, ◌==◌, ◌||◌, ◌∙◌, ◌∷◌, ◌≡◌,
}
use servermore.Base.Maps.{Map, insert, lookup, lookup-insert_self}
use servermore.Base.Results.{Result, err, ok, ok_or}
use servermore.Cache.{InMemoryCache}
use servermore.Cache.Interface.{in_memory}
use servermore.Commander.Db.{CommanderDb, DbError, FunctionRow, RunnerRow, no_rows}
use servermore.Commander.Registry.{register_runner_again}
use servermore.Commander.Service.{
  Runners, Service, create_function, heartbeat_failed, persist_new_runner, prepare_instance_on,
  register_runner, route_function,
}
use servermore.Routing.{new_naive_router, route}
use servermore.Routing.Tests.{stored}

-- A database in memory: the rows of the functions, the newest first, and of the runners.
pub record Tables : Type 0 where
  pub functions : List (FunctionRow ℕ)
  pub runners : Map RunnerRow

unfoldable pub row_by_id : ℕ → List (FunctionRow ℕ) → Result DbError (FunctionRow ℕ)
row_by_id id [] = err no_rows
row_by_id id (row ∷ rows) = let later = row_by_id id rows in if row.id == id then ok row else later

unfoldable pub hash_exists : List ℕ → List (FunctionRow ℕ) → Bool
hash_exists hash [] = false
hash_exists hash (row ∷ rows) = bytes_eq row.hash hash || hash_exists hash rows

abbrev row_or_none : Option RunnerRow → Result DbError RunnerRow
row_or_none none = err no_rows
row_or_none (some runn) = ok runn

abbrev add_row : List ℕ → List ℕ → List ℕ → Tables → Result DbError (FunctionRow ℕ × Tables)
add_row path name hash t =
    let row : FunctionRow ℕ = record { id = 8; name = name; path = path; hash = hash } in
    ok (row, record t { functions = row ∷ t.functions })

abbrev add_runner : String → Tables → Result DbError (RunnerRow × Tables)
add_runner addr t =
    let runn : RunnerRow = record { id = 3; addr = addr } in
    ok (runn, record t { runners = insert addr runn t.runners })

abbrev pub small_db : CommanderDb ℕ Tables
small_db = record {
  create_function = add_row;
  function_by_id = λ id t. row_by_id id t.functions;
  function_exists_by_hash = λ hash t. ok (hash_exists hash t.functions);
  create_runner = add_runner;
  runner_by_addr = λ addr t. row_or_none (lookup addr t.runners);
  get_all_runners = λ t. ok (map (λ (addr, runn). runn) t.runners);
}

-- The runner at "a:1" is alive and prepares an instance "i9"; the others cannot be reached.
abbrev alive : Runners
alive = record {
  create_client = λ addr. ok tt;
  heartbeat = λ addr.
      if str_eq addr "a:1"
      then ok (
          some
            (record { queue_depths = ("i1", 5) ∷ []; cpu_percent = 1; unused_memory_bytes = 10 }))
      else err "unreachable";
  prepare_function_instance = λ addr f path. ok "i9";
}

abbrev pub down : Runners
down = record {
  create_client = λ addr. ok tt;
  heartbeat = λ addr. err "unreachable";
  prepare_function_instance = λ addr f path. err "unreachable";
}

abbrev unreachable : Runners
unreachable = record {
  create_client = λ addr. err "no client";
  heartbeat = λ addr. err "unreachable";
  prepare_function_instance = λ addr f path. err "unreachable";
}

abbrev pub small_service : Service ℕ Tables InMemoryCache
small_service = record {
  db = small_db;
  cache = in_memory stored;
  route = λ f c. route (in_memory stored) (new_naive_router 3 10) f c;
  runners = alive;
  parse_int = λ text. if str_eq text "8" then some 8 else none;
  sha256 = λ bytes. 1 ∷ bytes;
  save = λ name hash bytes. ok (name ++ hash);
}

abbrev pub no_rows_yet : Tables
no_rows_yet = record { functions = []; runners = [] }

abbrev pub uploaded : Tables
uploaded = record {
  functions = (record { id = 8; name = 5 ∷ []; path = 5 ∷ 1 ∷ 2 ∷ []; hash = 1 ∷ 2 ∷ [] }) ∷ [];
  runners = [];
}

unfoldable pub commander_model : Unit {0}
unfolding create_function persist_new_runner register_runner route_function prepare_instance_on
    hash_exists row_by_id bytes_eq lookup insert
commander_model = tt

upload :
    create_function small_service (5 ∷ []) (ok (2 ∷ [])) no_rows_yet
    ≡ ok (record { id = 8; name = 5 ∷ [] }, uploaded)
unfolding commander_model
upload = refl

pub hash_found :
    (path name hash : List ℕ) (d d' : Tables) (row : FunctionRow ℕ)
    → small_db.create_function path name hash d ≡ ok (row, d')
    → small_db.function_exists_by_hash hash d' ≡ ok true
unfolding hash_exists
hash_found path name hash d d' row e =
    let made = ap (ok_or (row, d')) e in rw (← ap (λ p. p.1) made) (rw (bytes_eq_refl hash) refl)

abbrev registered : Tables
registered = record { functions = []; runners = ("a:1", record { id = 3; addr = "a:1" }) ∷ [] }

register :
    register_runner small_service "a:1" no_rows_yet
    ≡ ok (record { id = 3; addr = "a:1" }, registered)
unfolding commander_model
register = refl

refused : register_runner small_service "b:1" no_rows_yet ≡ err (heartbeat_failed "unreachable")
unfolding commander_model
refused = refl

row_found :
    (addr : String) (d d' : Tables) (runn : RunnerRow)
    → small_db.create_runner addr d ≡ ok (runn, d')
    → small_db.runner_by_addr addr d' ≡ ok runn
row_found addr d d' runn e =
    let made = ap (ok_or (runn, d')) e in
    rw (← ap (λ p. p.1) made) (
      ap row_or_none (lookup-insert_self addr (record { id = 3; addr = addr }) d.runners)
      ∙ ap ok (ap (λ p. p.0) made))

register_runner_again_example :
    register_runner (record small_service { runners = unreachable }) "a:1" registered
    ≡ ok (record { id = 3; addr = "a:1" }, registered)
register_runner_again_example =
    register_runner_again small_service unreachable row_found "a:1" no_rows_yet registered
      (record { id = 3; addr = "a:1" }) register
