-- ===== src/Lib.antt =====
-- Verification of servermore, a serverless platform in Go. A public gateway takes requests for
-- functions; the commander keeps the functions and the runners, and routes each request to an
-- instance of its function, which it has a runner prepare if there is none that is free; a runner
-- starts instances as processes and queues the invocations of each. A load tester, a terminal program,
-- starts the stack, deploys test functions and keeps requests running.
--
-- The parts and their files:
-- - Cache: pkg/caching/in_memory.go, `InMemoryCache`, one function for each method, on a record of the
--   seven maps. Its mutex makes each method one step. Cache/Interface has the interface of
--   pkg/caching/cache.go. Cache/Placement is the abstract view: for each instance its function, runner
--   and queue length. Cache/Invariant states how the maps agree, and
--   Cache/Refinement, Cache/Stats and Cache/Bounds are about runs of the interface's calls.
-- - Routing: pkg/routing/naive.go, `NaiveRouter.Route`, over the cache's interface.
-- - Commander/Db: pkg/commander/db.go, `WithRetry` and the database's interface; Commander/Db/Sqlite has
--   the methods of `SQLiteCommanderDB`.
-- - Commander/Service: pkg/commander/service.go, over the interfaces of the database and the cache.
--   Commander/Routes and Commander/Polling are about it with the in-memory cache and the naive router;
--   Commander/Registry is about uploads and registrations over any database, Commander/Uploads about
--   uploads to SQLite.
--   Commander/Handlers is pkg/commander/grpc.go and pkg/commander/handlers.go: the statuses.
-- - Storage: pkg/commander/func_storage.go, on bytes; Storage/Names is about the names of files.
-- - Gateway: pkg/gateway/handler.go; Gateway/Paths, Gateway/Requests and Gateway/Closing are about its
--   helpers, its handler and its connections. Serving is the gateway with the commander, its cache and
--   the naive router behind it.
-- - Guest: pkg/guest/entrypoint.go, `InvokeFunction`, with the call of it by a worker of the runner.
-- - Runner/MultiConsumer and Runner/Instances: pkg/runner/instances.go. Runner/Worker: the callers, the
--   workers and the shutdown of one instance in pkg/runner/grpc.go, as steps that interleave.
--   Runner/SingleStart: `startInstance` there, in the same way. Runner/Prepare:
--   `PrepareFunctionInstance`. Runner/Download and Runner/Atomic: `downloadFunction` over a map of files.
--   Runner/SingleDownload: the downloads of a path, as steps that interleave. Runner/Runtime:
--   `startWithRetry` and `waitForHeartbeat` of pkg/runner/runtime.go, and Runner/Launch: `Start` there.
-- - Server/Meta, Server/Context, Server/Metas and Server/Fields: pkg/server/grpc_context.go and
--   pkg/server/http_context.go, what handlers tell the logs through holders in the request's context;
--   Server/Kinds calls them by kind, and Server/Holding, Server/Handled, Server/ByKind, Server/Separate
--   and Server/Shown are about them. Server/Decode: pkg/server/decode.go.
-- - Tester/Ui, Tester/Keys and Tester/Update: servermore-tester/model.go, `Update` as a function of a
--   message and the model, which answers with the commands to run; no result is a panic. Tester/Runs and
--   Tester/History are about runs of it, Tester/Shutdown about its end, Tester/Lost about a lost message.
--   Tester/Deployment and Tester/Worker: servermore-tester/worker.go, the loop of a worker between whose
--   accesses to the shared state answers and the user's changes come, as events. Tester/Log, Tester/Port
--   and Tester/Stack: servermore-tester/setup.go.
-- - Base: Go's maps as association lists, nested maps, results with errors, Boolean tests.
--
-- Go's map iteration has no fixed order: the model takes an order as a parameter, where the result
-- depends on it. A Go int is a natural number where the code only stores lengths and sums of them. An
-- assertion that fails is an error of the operation. `Route`, `RouteFunction` and a round of polling
-- lock the cache for each of its calls: the model is of runs in which no other goroutine writes between
-- those calls. The steps that interleave are those of Runner/Worker, Runner/SingleStart,
-- Runner/SingleDownload, Tester/Worker, and the requests of the gateway at the lock of its connections.
-- `WithRetry` and `startWithRetry` run on 20 and 10 units of fuel, one for each call that they may
-- make; for `waitForHeartbeat`, which ends with its timer, any fuel past that attempt is enough.
--
-- What a library makes of a value is a parameter: the status that google.golang.org/grpc finds in an error
-- that wraps one, and the spelling under which net/http stores a header. What net/http sends of the
-- status, headers and body that a handler writes is left to it, but for the panic of `WriteHeader`.
--
-- Not modelled: the SQL queries and generated code, which are parameters, as are the form of the load
-- tester and the answers of docker; logs, traces, metrics and timeouts of remote calls; opening and
-- migrating the database; the start of a guest's server, the processes themselves, and the wiring and
-- shutdown of the servers; of the load tester the rendering, the compilation and upload of functions,
-- and the choice of requests.

pub mod Base
pub mod Cache
pub mod Routing
pub mod Commander
pub mod Runner
pub mod Gateway
pub mod Storage
pub mod Server
pub mod Tester
pub mod Serving
pub mod Guest
