-- ===== src/Cache.antt =====
-- pkg/caching/cache.go and pkg/caching/in_memory.go: the commander's routing cache. One call holds
-- the mutex from its first line to its last, so a call is a function on the state. Queue lengths
-- are never negative (a uint32 from a heartbeat, or 0), and are natural numbers here. A float64 is
-- carried as its bit pattern, since the program only copies it.
pub mod Invariant
pub mod Moves
pub mod SetInstance
pub mod Report
pub mod Remove
pub mod Heartbeat
pub mod Drop
pub mod Placement
pub mod Upsert
pub mod RemoveRunner
pub mod History
pub mod Refinement
pub mod Stats
pub mod Bounds
pub mod Queries
pub mod Interface
pub mod Tests
use servermore.Base.{
  Bool, Option, String, [], if◌then◌else◌, length, none, not, some, str_eq, ℕ, ◌&&◌, ◌+◌, ◌∷◌,
}
use servermore.Base.Maps.{Map, delete, get_or, insert, is_some, lookup}
use servermore.Base.Nested.{delete_in, drop_in, insert_in}

pub record ResourceMetrics : Type 0 where
  pub cpu_percent : ℕ
  pub unused_memory_bytes : ℕ

-- Go's map[string]struct{}.
abbrev pub Set : Type 0
Set = Map (Unit {0})

pub record InMemoryCache : Type 0 where
  pub func_instances : Map (Map ℕ)
  pub instance_function : Map String
  pub instance_runner : Map String
  pub instance_queue : Map ℕ
  pub runner_instances : Map Set
  pub runner_requests : Map ℕ
  pub runner_stats : Map ResourceMetrics

abbrev pub new_in_memory_cache : InMemoryCache
new_in_memory_cache = record {
  func_instances = [];
  instance_function = [];
  instance_runner = [];
  instance_queue = [];
  runner_instances = [];
  runner_requests = [];
  runner_stats = [];
}

unfoldable pub add_runner_instance_locked : String → String → InMemoryCache → InMemoryCache
add_runner_instance_locked runner_addr instance_id c = record c {
  runner_instances = insert_in runner_addr instance_id tt c.runner_instances;
}

unfoldable pub remove_function_instance_locked : String → String → InMemoryCache → InMemoryCache
remove_function_instance_locked func_id instance_id c = record c {
  func_instances = drop_in func_id instance_id c.func_instances;
}

unfoldable pub remove_runner_instance_locked : String → String → InMemoryCache → InMemoryCache
remove_runner_instance_locked runner_addr instance_id c = record c {
  runner_instances = delete_in runner_addr instance_id c.runner_instances;
}

-- The loop of `recomputeRunnerRequestsLocked`; a missing queue length reads as 0.
unfoldable pub total_requests : Map ℕ → Set → ℕ
total_requests queue [] = 0
total_requests queue ((instance_id, _) ∷ instances) =
    get_or 0 (lookup instance_id queue) + total_requests queue instances

-- What `recomputeRunnerRequestsLocked` does to `runnerRequests`.
unfoldable pub recount : String → Option Set → Map ℕ → Map ℕ → Map ℕ
recount runner_addr none queue requests = delete runner_addr requests
recount runner_addr (some instances) queue requests =
    insert runner_addr (total_requests queue instances) requests

unfoldable pub recompute_runner_requests_locked : String → InMemoryCache → InMemoryCache
unfolding recount
recompute_runner_requests_locked runner_addr c = record c {
  runner_requests =
      recount runner_addr (lookup runner_addr c.runner_instances) c.instance_queue
        c.runner_requests;
}

-- `previous != "" && previous != current`: the guard before an instance leaves its old owner.
unfoldable pub has_moved : String → String → Bool
has_moved previous current = not (str_eq previous "") && not (str_eq previous current)

-- The three calls under a guard, each on the one field that it writes.
leave_runner : Bool → String → String → InMemoryCache → InMemoryCache
leave_runner moved previous_runner instance_id c =
    let gone = remove_runner_instance_locked previous_runner instance_id c in
    record c { runner_instances = if moved then gone.runner_instances else c.runner_instances }

leave_function : Bool → String → String → InMemoryCache → InMemoryCache
leave_function moved previous_func instance_id c =
    let gone = remove_function_instance_locked previous_func instance_id c in
    record c { func_instances = if moved then gone.func_instances else c.func_instances }

recompute_if : Bool → String → InMemoryCache → InMemoryCache
recompute_if moved runner_addr c =
    let counted = recompute_runner_requests_locked runner_addr c in
    record c { runner_requests = if moved then counted.runner_requests else c.runner_requests }

store_instance : String → String → String → ℕ → InMemoryCache → InMemoryCache
store_instance func_id instance_id runner_addr queue_len c = record c {
  func_instances = insert_in func_id instance_id queue_len c.func_instances;
  instance_function = insert instance_id func_id c.instance_function;
  instance_runner = insert instance_id runner_addr c.instance_runner;
  instance_queue = insert instance_id queue_len c.instance_queue;
  runner_instances = insert_in runner_addr instance_id tt c.runner_instances;
}

unfoldable pub set_instance : String → String → String → ℕ → InMemoryCache → InMemoryCache
unfolding leave_runner leave_function recompute_if store_instance remove_function_instance_locked
    remove_runner_instance_locked recompute_runner_requests_locked
set_instance func_id instance_id runner_addr queue_len c =
    let previous_func = get_or "" (lookup instance_id c.instance_function) in
    let previous_runner = get_or "" (lookup instance_id c.instance_runner) in
    let moved = has_moved previous_runner runner_addr in
    let left = leave_function (has_moved previous_func func_id) previous_func instance_id c in
    let gone = leave_runner moved previous_runner instance_id left in
    let stored = store_instance func_id instance_id runner_addr queue_len gone in
    let counted = recompute_runner_requests_locked runner_addr stored in
    recompute_if moved previous_runner counted

leave_known_function : Option String → String → InMemoryCache → InMemoryCache
leave_known_function none instance_id c = c
leave_known_function (some func_id) instance_id c =
    remove_function_instance_locked func_id instance_id c

leave_known_runner : Option String → String → InMemoryCache → InMemoryCache
leave_known_runner none instance_id c = c
leave_known_runner (some runner_addr) instance_id c =
    recompute_runner_requests_locked runner_addr
      (remove_runner_instance_locked runner_addr instance_id c)

unfoldable pub remove_instance_locked : String → InMemoryCache → InMemoryCache
unfolding leave_known_function leave_known_runner remove_function_instance_locked
    remove_runner_instance_locked recompute_runner_requests_locked
remove_instance_locked instance_id c =
    let func_id = lookup instance_id c.instance_function in
    let runner_addr = lookup instance_id c.instance_runner in
    let left = leave_known_function func_id instance_id c in
    let gone = leave_known_runner runner_addr instance_id left in
    record gone {
      instance_function = delete instance_id gone.instance_function;
      instance_runner = delete instance_id gone.instance_runner;
      instance_queue = delete instance_id gone.instance_queue;
    }

store_reported : Option String → String → ℕ → InMemoryCache → InMemoryCache
store_reported none instance_id queue_depth c = c
store_reported (some func_id) instance_id queue_depth c = record c {
  func_instances = insert_in func_id instance_id queue_depth c.func_instances;
}

-- One round of the first loop of `UpsertRunnerHeartbeat` up to `addRunnerInstanceLocked`.
own_instance : String → String → ℕ → InMemoryCache → InMemoryCache
unfolding leave_runner recompute_if
own_instance runner_addr instance_id queue_depth c =
    let previous_runner = get_or "" (lookup instance_id c.instance_runner) in
    let moved = has_moved previous_runner runner_addr in
    let gone =
      recompute_if moved previous_runner (leave_runner moved previous_runner instance_id c) in
    let owned = record gone {
      instance_runner = insert instance_id runner_addr gone.instance_runner;
      instance_queue = insert instance_id queue_depth gone.instance_queue;
    } in
    add_runner_instance_locked runner_addr instance_id owned

-- The whole round, but for `newInstances`.
unfoldable pub report_instance : String → String → ℕ → InMemoryCache → InMemoryCache
unfolding leave_runner recompute_if store_reported own_instance remove_runner_instance_locked
    add_runner_instance_locked recompute_runner_requests_locked
report_instance runner_addr instance_id queue_depth c =
    let added = own_instance runner_addr instance_id queue_depth c in
    store_reported (lookup instance_id added.instance_function) instance_id queue_depth added

unfoldable pub report_instances : String → Map ℕ → InMemoryCache → InMemoryCache
report_instances runner_addr [] c = c
report_instances runner_addr ((instance_id, queue_depth) ∷ depths) c =
    report_instances runner_addr depths (report_instance runner_addr instance_id queue_depth c)

-- `newInstances` after the first loop.
unfoldable pub reported : Map ℕ → Set → Set
reported [] new_instances = new_instances
reported ((instance_id, _) ∷ depths) new_instances =
    reported depths (insert instance_id tt new_instances)

-- The second loop: drops the previous instances that the heartbeat no longer names.
unfoldable pub drop_instance : Set → String → InMemoryCache → InMemoryCache
drop_instance new_instances instance_id c =
    if is_some (lookup instance_id new_instances) then c else remove_instance_locked instance_id c

unfoldable pub drop_unreported : Set → Set → InMemoryCache → InMemoryCache
drop_unreported new_instances [] c = c
drop_unreported new_instances ((instance_id, _) ∷ previous) c =
    drop_unreported new_instances previous (drop_instance new_instances instance_id c)

-- `previousInstances` is the map that the cache holds, so the first loop adds to it; where the
-- runner had none, it is a fresh empty map that the loops leave alone.
unfoldable pub previous_instances : String → InMemoryCache → InMemoryCache → Set
previous_instances runner_addr before after = elim (lookup runner_addr before.runner_instances) [
  | none ↦ []
  | some _ ↦ get_or [] (lookup runner_addr after.runner_instances)
]

unfoldable pub upsert_runner_heartbeat :
    String → Map ℕ → ResourceMetrics → InMemoryCache → InMemoryCache
upsert_runner_heartbeat runner_addr queue_depths metrics c =
    let after = report_instances runner_addr queue_depths c in
    let new_instances = reported queue_depths [] in
    let kept = drop_unreported new_instances (previous_instances runner_addr c after) after in
    let replaced = record kept {
      runner_instances = insert runner_addr new_instances kept.runner_instances;
    } in
    let counted = recompute_runner_requests_locked runner_addr replaced in
    record counted { runner_stats = insert runner_addr metrics counted.runner_stats }

-- The loop of `RemoveRunner`: `removeInstanceLocked` takes from the map only the key just visited.
unfoldable pub remove_instances : Set → InMemoryCache → InMemoryCache
remove_instances [] c = c
remove_instances ((instance_id, _) ∷ instances) c =
    remove_instances instances (remove_instance_locked instance_id c)

unfoldable pub remove_runner : String → InMemoryCache → InMemoryCache
remove_runner runner_addr c =
    let instances = get_or [] (lookup runner_addr c.runner_instances) in
    let emptied = remove_instances instances c in
    record emptied {
      runner_instances = delete runner_addr emptied.runner_instances;
      runner_requests = delete runner_addr emptied.runner_requests;
      runner_stats = delete runner_addr emptied.runner_stats;
    }

unfoldable pub function_id_instances : String → InMemoryCache → Map ℕ
function_id_instances func_id c = get_or [] (lookup func_id c.func_instances)

unfoldable pub runner_address_of_instance : String → InMemoryCache → Option String
runner_address_of_instance instance_id c = lookup instance_id c.instance_runner

unfoldable pub requests_per_runner : InMemoryCache → Map ℕ
requests_per_runner c = c.runner_requests

unfoldable pub stats_per_runner : InMemoryCache → Map ResourceMetrics
stats_per_runner c = c.runner_stats

unfoldable pub cached_instances_count : InMemoryCache → ℕ
cached_instances_count c = length c.instance_runner

unfoldable pub update_instance_queue_len : String → String → ℕ → InMemoryCache → InMemoryCache
unfolding recompute_if recompute_runner_requests_locked
update_instance_queue_len func_id instance_id queue_len c =
    let stored = record c {
      func_instances = insert_in func_id instance_id queue_len c.func_instances;
      instance_function = insert instance_id func_id c.instance_function;
      instance_queue = insert instance_id queue_len c.instance_queue;
    } in
    let runner_addr = get_or "" (lookup instance_id stored.instance_runner) in
    recompute_if (not (str_eq runner_addr "")) runner_addr stored

unfoldable pub set_runner_requests : String → ℕ → InMemoryCache → InMemoryCache
set_runner_requests runner_addr count c = record c {
  runner_requests = insert runner_addr count c.runner_requests;
}

unfoldable pub set_runner_stats : String → ResourceMetrics → InMemoryCache → InMemoryCache
set_runner_stats runner_addr metrics c = record c {
  runner_stats = insert runner_addr metrics c.runner_stats;
}
