-- ===== src/Tester/Deployment.antt =====
-- servermore-tester/worker.go: `deploymentState`. Its mutex makes each method one step. `now` is what
-- `time.Now()` answers.
use servermore.Base.{
  Bool, List, String, [], false, if◌then◌else◌, not, str_eq, suc, true, zero, ℕ, ◌+◌, ◌-◌,
}
use servermore.Base.Maps.{Map}
use servermore.Base.Results.{Result, err, ok}
use servermore.Tester.Text.{compact_text}

pub record RequestSettings : Type 0 where
  pub batch_size : ℕ
  pub requests_per_second : ℕ
  pub delay_between_batches : ℕ

pub record RunStats : Type 0 where
  pub requests_sent : ℕ
  pub responses_received : ℕ
  pub transport_errors : ℕ
  pub batches_completed : ℕ
  pub last_status_code : ℕ
  pub last_method : String
  pub last_path : List ℕ
  pub last_duration : ℕ
  pub last_response : List ℕ
  pub last_error : List ℕ
  pub last_updated_at : ℕ

pub record InvocationSpec : Type 0 where
  pub method : String
  pub path : List ℕ
  pub body : List ℕ
  pub headers : Map String

-- `cancelled` tells whether `cancel` has been called.
pub record DeploymentState : Type 0 where
  pub name : List ℕ
  pub function_id : String
  pub settings : RequestSettings
  pub stats : RunStats
  pub cancelled : Bool
  pub enabled : Bool

abbrev pub no_stats : RunStats
no_stats = record {
  requests_sent = 0;
  responses_received = 0;
  transport_errors = 0;
  batches_completed = 0;
  last_status_code = 0;
  last_method = "";
  last_path = [];
  last_duration = 0;
  last_response = [];
  last_error = [];
  last_updated_at = 0;
}

unfoldable pub new_deployment_state : List ℕ → String → DeploymentState
new_deployment_state name function_id = record {
  name = name;
  function_id = function_id;
  settings = record { batch_size = 3; requests_per_second = 2; delay_between_batches = 2 };
  stats = no_stats;
  cancelled = false;
  enabled = true;
}

-- The two values of `delta`.
pub data Delta : Type 0 where
  plus_one minus_one : Delta

-- `maxInt(0, value+delta)`
abbrev pub adjusted : ℕ → Delta → ℕ
adjusted value plus_one = value + 1
adjusted value minus_one = value - 1

abbrev pub adjust : ℕ → Delta → RequestSettings → RequestSettings
adjust zero delta s = record s { batch_size = adjusted s.batch_size delta }
adjust (suc zero) delta s = record s { requests_per_second = adjusted s.requests_per_second delta }
adjust (suc (suc zero)) delta s = record s {
  delay_between_batches = adjusted s.delay_between_batches delta;
}
adjust _ delta s = s

unfoldable pub adjust_setting : ℕ → Delta → DeploymentState → DeploymentState
adjust_setting field_index delta d = record d { settings = adjust field_index delta d.settings }

unfoldable pub toggle_enabled : DeploymentState → DeploymentState
toggle_enabled d = record d { enabled = not d.enabled }

unfoldable pub record_request_started : ℕ → DeploymentState → DeploymentState
record_request_started now d = record d {
  stats = record (d.stats) { requests_sent = suc (d.stats.requests_sent); last_updated_at = now };
}

abbrev pub ensure_method : String → String
ensure_method method = if str_eq method "" then "GET" else method

-- What `invokeFunction` answers: a status and the start of the body, or an error.
abbrev pub Invoked : Type 0
Invoked = Result (List ℕ) (ℕ × List ℕ)

abbrev pub count_outcome : Invoked → RunStats → RunStats
count_outcome (err e) s = record s {
  transport_errors = suc s.transport_errors;
  last_error = compact_text e 140;
  last_status_code = 0;
  last_response = [];
}
count_outcome (ok (status_code, response)) s = record s {
  responses_received = suc s.responses_received;
  last_status_code = status_code;
  last_error = [];
  last_response = compact_text response 140;
}

unfoldable pub record_request : InvocationSpec → Invoked → ℕ → ℕ → DeploymentState → DeploymentState
record_request spec outcome took now d = record d {
  stats = count_outcome outcome (record (d.stats) {
    last_method = ensure_method spec.method;
    last_path = spec.path;
    last_duration = took;
    last_updated_at = now;
  });
}

unfoldable pub record_batch_completion : ℕ → DeploymentState → DeploymentState
record_batch_completion now d = record d {
  stats = record (d.stats) {
    batches_completed = suc (d.stats.batches_completed);
    last_updated_at = now;
  };
}

unfoldable pub stop : DeploymentState → DeploymentState
stop d = record d { cancelled = true }
