-- ===== src/Flows/Lifecycle/State.antt =====
-- FlowRunState of flows/lifecycle.py: the aggregate, its validator and its derived properties.
use base_agent.Base.{
  ℕ, suc, String, Bool, true, false, ◌&&◌, not, Option, none, some, List, [], ◌∷◌, map, length,
  all_of, find, is_nil, is_some, ltb, ◌==◌, nat_eq, string_eq, Result, Error, ◌>>◌, fail_if, guard,
  if◌then◌else◌,
}
use base_agent.Base.Time.{ℤ, ◌+ℤ◌}
use base_agent.Base.Distinct.{all_distinct}
use base_agent.Models.Json.{Json, get_field}
use base_agent.Models.Usage.{TokenUsage, no_usage, add_usage}
use base_agent.Models.Status.{
  RunStatus, is_created, is_running, is_waiting, is_completed, is_terminal, is_error,
}
use base_agent.Flows.Contracts.{AgentInvocationResult, FlowBudget, lacks_text}
use base_agent.Flows.Lifecycle.Invocation.{AgentInvocation, usage_of_result}

pub record FlowRunState : Type 0 where
  pub run_id : ℕ
  pub definition_id : String
  pub definition_version : String
  pub definition_fingerprint : String
  pub budget : FlowBudget
  pub deadline_at : Option ℕ
  pub revision : ℕ
  pub status : RunStatus
  pub invocations : List AgentInvocation
  pub active_invocation_id : Option ℕ
  pub output : Option String
  pub error : Option String
  pub created_at : ℕ
  pub updated_at : ℕ

-- `next((i for i in invocations if i.id == id), None)`.
abbrev pub find_invocation : ℕ → List AgentInvocation → Option AgentInvocation
find_invocation id = find (λ i. i.id == id)

-- `_active_or_none`, over the two fields that it reads.
abbrev pub active_in : Option ℕ → List AgentInvocation → Option AgentInvocation
active_in none invocations = none
active_in (some id) invocations = find_invocation id invocations

abbrev pub active_invocation : FlowRunState → Option AgentInvocation
active_invocation s = active_in s.active_invocation_id s.invocations

-- `sequences == list(range(start, start + len(sequences)))`.
unfoldable pub is_range_from : ℕ → List ℕ → Bool
is_range_from start [] = true
is_range_from start (n ∷ ns) = n == start && is_range_from (suc start) ns

-- The status of the active invocation passes a test, if there is one.
abbrev pub holds_of_active : (RunStatus → Bool) → Option AgentInvocation → Bool
holds_of_active p none = false
holds_of_active p (some i) = p i.status

-- `(timeout_seconds is None) == (deadline_at is None)`.
abbrev pub deadline_matches : FlowRunState → Bool
deadline_matches s =
    if is_some s.budget.timeout_seconds then is_some s.deadline_at else not (is_some s.deadline_at)

-- The checks of `validate_state` on the list of invocations and the deadline.
unfoldable pub validate_invocations : FlowRunState → Result (Unit {0})
validate_invocations s = do
  guard (all_distinct (map (λ i. i.id) s.invocations)) Error.value_error
  guard (is_range_from 1 (map (λ i. i.sequence) s.invocations)) Error.value_error
  fail_if (ltb s.budget.max_invocations (length s.invocations)) Error.value_error
  guard (deadline_matches s) Error.value_error
  guard (all_of (λ i. i.flow_run_id == s.run_id) s.invocations) Error.value_error

-- The checks of `validate_state` that follow, on the status.
unfoldable pub validate_status :
    RunStatus
    → List AgentInvocation
    → Option ℕ
    → Option AgentInvocation
    → Option String
    → Option String
    → Result (Unit {0})
validate_status status invocations active_id active output error = do
  fail_if (is_some active_id && not (is_some active)) Error.value_error
  fail_if (is_created status && not (is_nil invocations)) Error.value_error
  fail_if (is_waiting status && not (holds_of_active is_waiting active)) Error.value_error
  fail_if (is_running status && is_some active && not (holds_of_active is_running active))
      Error.value_error
  fail_if (is_terminal status && is_some active) Error.value_error
  if is_completed status
      then (do
        fail_if (not (is_some output)) Error.value_error
        fail_if (is_some error) Error.value_error)
      else fail_if (is_error status && lacks_text error) Error.value_error

-- `validate_state`.
unfoldable pub validate_state : FlowRunState → Result (Unit {0})
validate_state s = do
  validate_invocations s
  validate_status s.status s.invocations s.active_invocation_id (active_invocation s) s.output
      s.error

-- The property `usage`.
unfoldable pub total_usage : TokenUsage → List AgentInvocation → TokenUsage
total_usage total [] = total
total_usage total (i ∷ is) = total_usage (add_usage total (usage_of_result i.result)) is

unfoldable pub usage : FlowRunState → TokenUsage
unfolding total_usage
usage s = total_usage no_usage s.invocations

-- `_result_count`: an `int` that is not a `bool`, or 0.
abbrev count_of_value : Option Json → ℤ
count_of_value (some (Json.number n)) = n
count_of_value _ = ℤ.pos 0

unfoldable pub result_count : Option AgentInvocationResult → String → ℤ
result_count none key = ℤ.pos 0
result_count (some r) key = count_of_value (get_field key r.metadata)

-- `sum(_result_count(i.result, key) for i in invocations)`: `model_call_count` is this sum under
-- "model_calls" and `tool_call_count` under "tool_calls".
unfoldable pub result_counts : List AgentInvocation → String → ℤ
result_counts [] key = ℤ.pos 0
result_counts (i ∷ is) key = result_count i.result key +ℤ result_counts is key

unfoldable pub model_call_count : FlowRunState → ℤ
model_call_count s = result_counts s.invocations "model_calls"

unfoldable pub tool_call_count : FlowRunState → ℤ
tool_call_count s = result_counts s.invocations "tool_calls"
