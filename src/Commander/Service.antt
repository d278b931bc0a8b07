-- ===== src/Commander/Service.antt =====
-- pkg/commander/service.go: `CommanderService`. The state is the database and the routing cache, each
-- behind its interface. Calls to a runner are remote: a `Runners` value says what each call answers.
-- Log lines, metrics, timers and the metadata kept for logging are left out.
use servermore.Base.{Bool, List, Option, String, [], false, if◌then◌else◌, none, some, true, ℕ, ◌∷◌}
use servermore.Base.Maps.{Map}
use servermore.Base.Results.{Result, err, ok, wrap, ◌>>=◌}
use servermore.Cache.Interface.{CacheError, RoutingCache, wrapped_no_rows}
use servermore.Commander.Db.{
  CommanderDb, DbError, FunctionRow, RunnerRow, errored_more_than, failed_to, no_rows,
}
use servermore.Routing.{
  RouteError, Routing, healthy_instance_failed, instances_failed, prepare_instance, requests_failed,
}

pub data ServiceError : Type 0 where
  function_exists function_not_found : ServiceError
  read_failed save_failed : (message : String) → ServiceError
  exists_check_failed persist_failed query_failed runner_query_failed : DbError → ServiceError
  router_failed : RouteError → ServiceError
  bad_function_id : (function_id : String) → ServiceError
  function_read_failed : DbError → ServiceError
  client_failed call_failed : (message : String) → ServiceError
  cache_update_failed : CacheError → ServiceError
  heartbeat_failed : (message : String) → ServiceError
  runner_save_failed : DbError → ServiceError

-- `api.Function`, what `CreateFunction` answers.
pub record ApiFunction (Key : Type 0) : Type 0 where
  pub id : Key
  pub name : List ℕ

pub record HeartbeatResponse : Type 0 where
  pub queue_depths : Map ℕ
  pub cpu_percent : ℕ
  pub unused_memory_bytes : ℕ

-- What `CreateRunnerClient` and the runner's gRPC methods answer. A heartbeat's response may be nil.
pub record Runners : Type 0 where
  pub create_client : String → Result String (Unit {0})
  pub heartbeat : String → Result String (Option HeartbeatResponse)
  pub prepare_function_instance : String → String → List ℕ → Result String String

-- What the service is built from. `route` is the router's method; `parse_int` is
-- `strconv.ParseInt(_, 10, 0)`; `sha256` is the hash of crypto/sha256; `save` is
-- `FileSystemFunctionStorage.Save` with the answer of the file system.
pub record Service (Key D S : Type 0) : Type 0 where
  pub db : CommanderDb Key D
  pub cache : RoutingCache S
  pub route : String → S → Result RouteError Routing
  pub runners : Runners
  pub parse_int : String → Option Key
  pub sha256 : List ℕ → List ℕ
  pub save : List ℕ → List ℕ → List ℕ → Result String (List ℕ)

-- `errors.Is(err, sql.ErrNoRows)`, which sees through what wraps an error.
abbrev pub is_no_rows : DbError → Bool
is_no_rows no_rows = true
is_no_rows (errored_more_than times e) = is_no_rows e
is_no_rows (failed_to what e) = is_no_rows e
is_no_rows _ = false

abbrev pub refuse_existing : Bool → Result ServiceError (Unit {0})
refuse_existing exists = if exists then err function_exists else ok tt

-- `errors.Is(err, sql.ErrNoRows)` on what the router returned.
abbrev pub wraps_no_rows : RouteError → Bool
wraps_no_rows (instances_failed wrapped_no_rows) = true
wraps_no_rows (healthy_instance_failed wrapped_no_rows) = true
wraps_no_rows (requests_failed wrapped_no_rows) = true
wraps_no_rows _ = false

module _ {Key D S : Type 0} (svc : Service Key D S) where
  -- The function behind an id, for a new instance.
  abbrev pub find_function : String → D → Result ServiceError (FunctionRow Key)
  find_function function_id d = elim (svc.parse_int function_id) [
    | none ↦ err (bad_function_id function_id)
    | some id ↦
        wrap (λ e. if is_no_rows e then function_not_found else function_read_failed e)
          (svc.db.function_by_id id d)
  ]

  -- The call that prepares an instance, with its client; the answer is the instance's id.
  abbrev pub request_instance : String → String → FunctionRow Key → Result ServiceError String
  request_instance function_id runner_addr function =
      wrap client_failed (svc.runners.create_client runner_addr) >>= λ _.
      wrap call_failed (svc.runners.prepare_function_instance runner_addr function_id function.path)

  -- `prepareInstance`: the routing and the cache that holds the new instance.
  unfoldable pub prepare_instance_on : String → String → D → S → Result ServiceError (Routing × S)
  prepare_instance_on function_id runner_addr d s = find_function function_id d >>= λ function.
      request_instance function_id runner_addr function >>= λ instance_id.
      wrap cache_update_failed (svc.cache.set_instance function_id instance_id runner_addr 0 s)
      >>= λ s'. ok (record { runner_addr = runner_addr; instance_id = instance_id }, s')

  abbrev pub after_route :
      String → D → S → Result RouteError Routing → Result ServiceError (Routing × S)
  after_route function_id d s (ok routing) = ok (routing, s)
  after_route function_id d s (err (prepare_instance f runner_addr)) =
      prepare_instance_on f runner_addr d s
  after_route function_id d s (err e) =
      if wraps_no_rows e then err function_not_found else err (router_failed e)

  -- `RouteFunction`. On an error the cache is as it was.
  unfoldable pub route_function : String → D → S → Result ServiceError (Routing × S)
  route_function function_id d s = after_route function_id d s (svc.route function_id s)

  unfoldable pub function_by_id : Key → D → Result ServiceError (FunctionRow Key)
  function_by_id id d =
      wrap (λ e. if is_no_rows e then function_not_found else query_failed e)
        (svc.db.function_by_id id d)

  -- `CreateFunction`, from the bytes that the request's body gave.
  unfoldable pub create_function :
      List ℕ → Result String (List ℕ) → D → Result ServiceError (ApiFunction Key × D)
  create_function func_name body d = wrap read_failed body >>= λ func_bytes.
      wrap exists_check_failed (svc.db.function_exists_by_hash (svc.sha256 func_bytes) d)
      >>= λ exists. refuse_existing exists >>= λ _.
          wrap save_failed (svc.save func_name (svc.sha256 func_bytes) func_bytes) >>= λ func_path.
          wrap persist_failed (svc.db.create_function func_path func_name (svc.sha256 func_bytes) d)
          >>= λ (row, d'). ok (record { id = row.id; name = row.name }, d')

  -- `persistNewRunner`: only a runner that answers a heartbeat is saved.
  unfoldable pub persist_new_runner : String → D → Result ServiceError (RunnerRow × D)
  persist_new_runner addr d = wrap client_failed (svc.runners.create_client addr) >>= λ _.
      wrap heartbeat_failed (svc.runners.heartbeat addr) >>= λ _.
      wrap runner_save_failed (svc.db.create_runner addr d)

  abbrev pub after_lookup :
      String → D → Result DbError RunnerRow → Result ServiceError (RunnerRow × D)
  after_lookup addr d (ok runn) = ok (runn, d)
  after_lookup addr d (err e) =
      if is_no_rows e then persist_new_runner addr d else err (runner_query_failed e)

  -- `RegisterRunner`. On an error the database is as it was.
  unfoldable pub register_runner : String → D → Result ServiceError (RunnerRow × D)
  unfolding persist_new_runner
  register_runner addr d = after_lookup addr d (svc.db.runner_by_addr addr d)

  -- `evictRunner`: a failure of the cache is logged only.
  unfoldable pub evict_runner : String → S → S
  evict_runner runner_addr s = elim (svc.cache.remove_runner runner_addr s) [
    | ok s' ↦ s'
    | err e ↦ s
  ]

  abbrev pub cache_heartbeat : String → HeartbeatResponse → S → S
  cache_heartbeat addr resp s =
      elim (svc.cache.upsert_runner_heartbeat addr resp.queue_depths
        (record { cpu_percent = resp.cpu_percent; unused_memory_bytes = resp.unused_memory_bytes })
        s) [ ok s' ↦ s' | err e ↦ s ]

  abbrev pub after_heartbeat_call : String → S → Result String (Option HeartbeatResponse) → S
  after_heartbeat_call addr s (err e) = evict_runner addr s
  after_heartbeat_call addr s (ok none) = evict_runner addr s
  after_heartbeat_call addr s (ok (some resp)) = cache_heartbeat addr resp s

  abbrev pub after_client :
      String → S → Result String (Unit {0}) → Result String (Option HeartbeatResponse) → S
  after_client addr s (err e) answer = evict_runner addr s
  after_client addr s (ok _) answer = after_heartbeat_call addr s answer

  unfoldable pub poll_runner_heartbeat : RunnerRow → S → S
  unfolding evict_runner
  poll_runner_heartbeat runn s =
      after_client runn.addr s (svc.runners.create_client runn.addr)
        (svc.runners.heartbeat runn.addr)

  -- The goroutines of `PollRunnerHeartbeats`, in the order in which they write to the cache: each
  -- makes one call on it, under the cache's mutex.
  unfoldable pub poll_all : List RunnerRow → S → S
  poll_all [] s = s
  poll_all (runn ∷ runners) s = poll_all runners (poll_runner_heartbeat runn s)

  unfoldable pub poll_runner_heartbeats :
      (List RunnerRow → List RunnerRow) → D → S → Result ServiceError S
  unfolding poll_all
  poll_runner_heartbeats schedule d s =
      wrap query_failed (svc.db.get_all_runners d) >>= λ runners. ok (poll_all (schedule runners) s)
