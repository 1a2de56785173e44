-- ===== src/Flows/Lifecycle/Invocation.antt =====
-- AgentInvocation of flows/lifecycle.py. Each call of `utc_now` is an argument `now`.
use base_agent.Base.{
  ℕ, String, ◌||◌, Option, none, some, List, [], ◌==◌, nat_eq, string_eq, Result, Error, ok, err,
  ◌>>=◌, ◌>>◌, fail_if, guard, if◌then◌else◌,
}
use base_agent.Base.Text.{is_blank}
use base_agent.Models.Json.{end}
use base_agent.Models.Artifact.{Artifact}
use base_agent.Models.Usage.{TokenUsage, no_usage}
use base_agent.Models.Status.{
  RunStatus, AgentResultStatus, is_created, is_running, is_waiting, is_error, result_to_run_status,
  same_status,
}
use base_agent.Flows.Contracts.{
  AgentInvocationInput, AgentInvocationResult, is_waiting_result, validate_status_payload,
}

pub record AgentInvocation : Type 0 where
  pub id : ℕ
  pub flow_run_id : ℕ
  pub sequence : ℕ
  pub agent_key : String
  pub definition_id : String
  pub definition_version : String
  pub definition_fingerprint : String
  pub input : AgentInvocationInput
  pub status : RunStatus
  pub result : Option AgentInvocationResult
  pub created_at : ℕ
  pub updated_at : ℕ

-- `_validate_result_identity`, which `settle` repeats.
unfoldable pub validate_result_identity :
    AgentInvocation → AgentInvocationResult → Result (Unit {0})
validate_result_identity i r = do
  guard (r.flow_run_id == i.flow_run_id) Error.value_error
  guard (r.invocation_id == i.id) Error.value_error
  guard (r.agent_key == i.agent_key) Error.value_error

-- The last two cases of `validate_result`, by the state of the invocation.
validate_running : AgentInvocation → Option AgentInvocationResult → Result (Unit {0})
validate_running i none = ok tt
validate_running i (some r) = do
  guard (is_waiting_result r.status) Error.value_error
  validate_result_identity i r

validate_settled : AgentInvocation → Option AgentInvocationResult → Result (Unit {0})
validate_settled i none = err Error.value_error
validate_settled i (some r) = do
  validate_result_identity i r
  guard (same_status i.status (result_to_run_status r.status)) Error.value_error

validate_created : Option AgentInvocationResult → Result (Unit {0})
validate_created none = ok tt
validate_created (some r) = err Error.value_error

unfoldable pub validate_result : AgentInvocation → Result (Unit {0})
unfolding validate_running validate_settled validate_created
validate_result i =
    if is_created i.status
    then validate_created i.result
    else (if is_running i.status then validate_running i i.result else validate_settled i i.result)

-- The property `usage`.
abbrev pub usage_of_result : Option AgentInvocationResult → TokenUsage
usage_of_result none = no_usage
usage_of_result (some r) = r.usage

abbrev pub artifacts_of_result : Option AgentInvocationResult → List Artifact
artifacts_of_result none = []
artifacts_of_result (some r) = r.artifacts

unfoldable pub settle : AgentInvocation → AgentInvocationResult → ℕ → Result AgentInvocation
unfolding validate_result_identity
settle i r now = do
  guard (is_running i.status || is_waiting i.status) Error.invalid_flow_transition
  validate_result_identity i r
  ok (record i { status = result_to_run_status r.status; result = some r; updated_at = now })

unfoldable pub resume : AgentInvocation → ℕ → Result AgentInvocation
resume i now = do
  guard (is_waiting i.status) Error.invalid_flow_transition
  ok (record i { status = RunStatus.running; updated_at = now })

-- `_RUN_TO_RESULT_STATUS`. The statuses CREATED and RUNNING are not in the dictionary.
abbrev pub run_to_result_status : RunStatus → Result AgentResultStatus
run_to_result_status RunStatus.completed = ok AgentResultStatus.completed
run_to_result_status RunStatus.failed = ok AgentResultStatus.failed
run_to_result_status RunStatus.cancelled = ok AgentResultStatus.cancelled
run_to_result_status RunStatus.interrupted = ok AgentResultStatus.interrupted
run_to_result_status RunStatus.limit_reached = ok AgentResultStatus.limit_reached
run_to_result_status RunStatus.waiting = ok AgentResultStatus.waiting
run_to_result_status RunStatus.created = err Error.key_error
run_to_result_status RunStatus.running = err Error.key_error

-- The result that `terminate` gives to an invocation.
abbrev pub termination_result : AgentInvocation → AgentResultStatus → String → AgentInvocationResult
termination_result i status error = record {
  flow_run_id = i.flow_run_id;
  invocation_id = i.id;
  agent_key = i.agent_key;
  status = status;
  output = none;
  usage = usage_of_result i.result;
  artifacts = artifacts_of_result i.result;
  pending_input = none;
  error = some error;
  metadata = end;
}

-- The constructor of the result runs its validator.
unfoldable pub terminate : AgentInvocation → RunStatus → String → ℕ → Result AgentInvocation
terminate i status error now = do
  guard (is_error status) Error.value_error
  fail_if (is_blank error) Error.value_error
  guard (is_created i.status || is_running i.status || is_waiting i.status)
      Error.invalid_flow_transition
  outcome ← run_to_result_status status
  let result = termination_result i outcome error
  validate_status_payload result
  ok (record i { status = status; result = some result; updated_at = now })
