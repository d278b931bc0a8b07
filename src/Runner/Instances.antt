-- ===== src/Runner/Instances.antt =====
-- pkg/runner/instances.go: `InstancesStates`, the instances that start and those that run. Times are
-- numbers of one clock; a uuid is its text. A goroutine's panic, and a send that has to wait, are
-- errors of the operation.
use servermore.Base.{
  Bool, List, Option, String, [], false, if◌then◌else◌, leb, length, ltb, none, some, true, ℕ, ◌%◌,
  ◌++◌, ◌+◌, ◌^◌, ◌∷◌,
}
use servermore.Base.Maps.{Map, delete, insert, lookup}
use servermore.Base.Results.{Result, err, ok, ◌>>=◌}

abbrev pub invocations_queue_max_len : ℕ
invocations_queue_max_len = 100

-- What `assert.That` ends, and a send on a full queue, which waits.
pub data QueueFailure : Type 0 where
  adding_to_closed_queue timer_already_triggered queue_full send_on_closed_queue : QueueFailure

-- `Q` is what an invocation carries. `timer_active` is whether `lastUsedTimer` is still to fire,
-- `cancelled` whether `workerCancel` was called, `queue_closed` whether the channel was closed.
pub record InstanceState (Q : Type 0) : Type 0 where
  pub func_path : String
  pub queue : List Q
  pub queue_closed : Bool
  pub opened : Bool
  pub timer_active : Bool
  pub last_used_timer_end : ℕ
  pub instance_shutdown_after : ℕ
  pub cancelled : Bool

-- `starting` holds, for a path, the consumer through which its starter answers.
pub record InstancesStates (Q C : Type 0) : Type 0 where
  pub starting_instances : Map C
  pub instance_states : Map (InstanceState Q)

-- What `IsStartingOrStartIt` answers: the consumer to subscribe to, or that the caller is to start.
pub data StartAnswer (C : Type 0) : Type 0 where
  already_starting start_it : C → StartAnswer C

module _ {Q : Type 0} where
  -- `ResetTimer`: the assertion comes after the new end is set.
  unfoldable pub reset_timer : ℕ → InstanceState Q → Result QueueFailure (InstanceState Q)
  reset_timer now instance =
      if instance.timer_active
      then ok (record instance { last_used_timer_end = now + instance.instance_shutdown_after })
      else err timer_already_triggered

  abbrev pub send_to_queue : Q → InstanceState Q → Result QueueFailure (InstanceState Q)
  send_to_queue req instance =
      if instance.queue_closed
      then err send_on_closed_queue
      else (if leb invocations_queue_max_len (length instance.queue)
          then err queue_full
          else ok (record instance { queue = instance.queue ++ (req ∷ []) }))

  unfoldable pub add_to_queue : ℕ → Q → InstanceState Q → Result QueueFailure (InstanceState Q)
  unfolding reset_timer
  add_to_queue now req instance =
      if instance.opened
      then (reset_timer now instance >>= λ timed. send_to_queue req timed)
      else err adding_to_closed_queue

  -- `CompareAndSwap(false, true)`, with the answer that `InstanceState` makes of it.
  unfoldable pub open_instance : InstanceState Q → Bool × InstanceState Q
  open_instance instance =
      if instance.opened then (true, instance) else (false, record instance { opened = true })

  -- What `StopInstance` does to the instance itself.
  unfoldable pub stopped : InstanceState Q → InstanceState Q
  stopped instance = record instance {
    opened = false;
    cancelled = true;
    queue_closed = true;
    timer_active = false;
  }

  abbrev pub new_instance : String → ℕ → ℕ → InstanceState Q
  new_instance func_path now shutdown_after = record {
    func_path = func_path;
    queue = [];
    queue_closed = false;
    opened = false;
    timer_active = true;
    last_used_timer_end = now + shutdown_after;
    instance_shutdown_after = shutdown_after;
    cancelled = false;
  }

  -- `QueueDepths`; a depth is written as an uint32.
  unfoldable pub depths_of : ℕ → ℕ → Map (InstanceState Q) → Map ℕ
  depths_of now grace_period [] = []
  depths_of now grace_period ((id, instance) ∷ instances) =
      let depths = depths_of now grace_period instances in
      if ltb instance.last_used_timer_end (now + grace_period)
      then depths
      else insert id (length instance.queue % 2 ^ 32) depths

  module _ {C : Type 0} where
    abbrev pub new_instance_states : InstancesStates Q C
    new_instance_states = record { starting_instances = []; instance_states = [] }

    abbrev pub answer_start :
        String → C → InstancesStates Q C → Option C → StartAnswer C × InstancesStates Q C
    answer_start func_path fresh is (some consumer) = (already_starting consumer, is)
    answer_start func_path fresh is none = (
      start_it fresh,
      record is { starting_instances = insert func_path fresh is.starting_instances },
    )

    -- `IsStartingOrStartIt`; `fresh` is the consumer that the call makes.
    unfoldable pub is_starting_or_start_it :
        String → C → InstancesStates Q C → StartAnswer C × InstancesStates Q C
    is_starting_or_start_it func_path fresh is =
        answer_start func_path fresh is (lookup func_path is.starting_instances)

    unfoldable pub remove_starting_instance : String → InstancesStates Q C → InstancesStates Q C
    remove_starting_instance func_path is = record is {
      starting_instances = delete func_path is.starting_instances;
    }

    unfoldable pub submit : String → String → ℕ → ℕ → InstancesStates Q C → InstancesStates Q C
    unfolding remove_starting_instance
    submit func_path instance_id now shutdown_after is =
        let is' = remove_starting_instance func_path is in
        record is' {
          instance_states =
              insert instance_id (new_instance func_path now shutdown_after) is'.instance_states;
        }

    abbrev pub queue_depths : ℕ → ℕ → InstancesStates Q C → Map ℕ
    queue_depths now grace_period is = depths_of now grace_period is.instance_states

    abbrev pub active_instances_count : InstancesStates Q C → ℕ
    active_instances_count is = length is.instance_states

    -- `InstanceState`: whether a worker runs, or none for `ErrUnknownInstance`.
    unfoldable pub instance_state :
        String → InstancesStates Q C → Option (Bool × InstancesStates Q C)
    instance_state instance_id is = elim (lookup instance_id is.instance_states) [
      | none ↦ none
      | some instance ↦
          let (running, instance') = open_instance instance in
          some (
            running,
            record is { instance_states = insert instance_id instance' is.instance_states },
          )
    ]

    -- `StopInstance`: what becomes of the instance, and of the table.
    unfoldable pub stop_instance :
        String → InstanceState Q → InstancesStates Q C → InstanceState Q × InstancesStates Q C
    unfolding stopped
    stop_instance instance_id instance is =
        (stopped instance, record is { instance_states = delete instance_id is.instance_states })
