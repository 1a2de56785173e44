-- ===== src/Flows/Lifecycle/Transitions.antt =====
-- The transitions of FlowRunState. Each call of `utc_now` is an argument: `now` is the one of
-- `_evolve`, and `at` the one that a change of the active invocation makes before it.
use base_agent.Base.{
  ℕ, ◌+◌, String, Bool, ◌&&◌, ◌||◌, Option, none, some, List, [], ◌∷◌, ◌++◌, map, length, all_of,
  is_nil, is_some, ltb, ◌==◌, nat_eq, string_eq, Result, Error, ok, ◌>>=◌, ◌>>◌, fail_if, guard,
  or_fail, if◌then◌else◌,
}
use base_agent.Base.Text.{is_blank}
use base_agent.Models.Status.{
  RunStatus, is_created, is_running, is_waiting, is_completed, is_terminal,
}
use base_agent.Flows.Contracts.{
  AgentDefinition, AgentInvocationRequest, AgentInvocationResult, FlowDefinition, agent,
}
use base_agent.Flows.Lifecycle.Invocation.{AgentInvocation, settle, resume, terminate}
use base_agent.Flows.Lifecycle.State.{FlowRunState, active_invocation, validate_state}

-- The deadline of a Flow whose budget has a timeout.
abbrev pub deadline_for : Option ℕ → ℕ → Option ℕ
deadline_for none now = none
deadline_for (some seconds) now = some (now + seconds)

-- `FlowRunState.create`: the constructor runs the validator.
abbrev pub initial_state : FlowDefinition → ℕ → ℕ → FlowRunState
initial_state d run_id now = record {
  run_id = run_id;
  definition_id = d.id;
  definition_version = d.version;
  definition_fingerprint = d.fingerprint;
  budget = d.budget;
  deadline_at = deadline_for d.budget.timeout_seconds now;
  revision = 1;
  status = RunStatus.created;
  invocations = [];
  active_invocation_id = none;
  output = none;
  error = none;
  created_at = now;
  updated_at = now;
}

unfoldable pub create : FlowDefinition → ℕ → ℕ → Result FlowRunState
create d run_id now = do let s = initial_state d run_id now; validate_state s; ok s

-- `_evolve`, after the updates that the caller names.
abbrev pub evolve : FlowRunState → ℕ → FlowRunState
evolve s now = record s { revision = s.revision + 1; updated_at = now }

-- `tuple(i' if i.id == i'.id else i for i in invocations)`.
abbrev pub replace_invocation : AgentInvocation → List AgentInvocation → List AgentInvocation
replace_invocation i' = map (λ i. if i.id == i'.id then i' else i)

unfoldable pub start : FlowRunState → ℕ → Result FlowRunState
start s now = do
  guard (is_created s.status) Error.invalid_flow_transition
  ok (evolve (record s { status = RunStatus.running }) now)

-- `_require_definition`.
unfoldable pub require_definition : FlowRunState → FlowDefinition → Result (Unit {0})
require_definition s d =
    guard
      (d.id == s.definition_id
        && d.version == s.definition_version
        && d.fingerprint == s.definition_fingerprint)
      Error.value_error

-- The invocation that a request starts.
abbrev pub invocation_of : AgentInvocationRequest → FlowRunState → ℕ → AgentInvocation
invocation_of r s at = record {
  id = r.invocation_id;
  flow_run_id = s.run_id;
  sequence = r.sequence;
  agent_key = r.agent_key;
  definition_id = r.definition_id;
  definition_version = r.definition_version;
  definition_fingerprint = r.definition_fingerprint;
  input = r.input;
  status = RunStatus.running;
  result = none;
  created_at = at;
  updated_at = at;
}

unfoldable pub matches_request : AgentDefinition → AgentInvocationRequest → Bool
matches_request d r =
    r.definition_id == d.id
    && r.definition_version == d.version
    && r.definition_fingerprint == d.fingerprint

-- What `begin_invocation` does with a request that passes its checks.
abbrev pub store_begun : FlowRunState → AgentInvocationRequest → ℕ → ℕ → FlowRunState
store_begun s r at now =
    let invocation = invocation_of r s at in
    evolve
      (record s {
        invocations = s.invocations ++ invocation ∷ [];
        active_invocation_id = some invocation.id;
      })
      now

unfoldable pub begin_invocation :
    FlowRunState → AgentInvocationRequest → FlowDefinition → ℕ → ℕ → Result FlowRunState
begin_invocation s r d at now = do
  guard (is_running s.status) Error.invalid_flow_transition
  fail_if (is_some s.active_invocation_id) Error.invalid_flow_transition
  require_definition s d
  guard (r.flow_run_id == s.run_id) Error.value_error
  let expected_sequence = length s.invocations + 1
  guard (r.sequence == expected_sequence) Error.value_error
  fail_if (ltb s.budget.max_invocations expected_sequence) Error.invalid_flow_transition
  agent_definition ← agent d r.agent_key
  guard (matches_request agent_definition r) Error.value_error
  ok (store_begun s r at now)

-- What `settle_invocation` does with the settled invocation.
abbrev pub store_settled : FlowRunState → AgentInvocation → ℕ → FlowRunState
store_settled s settled now =
    evolve
      (record s {
        status = if is_waiting settled.status then RunStatus.waiting else RunStatus.running;
        invocations = replace_invocation settled s.invocations;
        active_invocation_id = if is_waiting settled.status then some settled.id else none;
      })
      now

unfoldable pub settle_invocation :
    FlowRunState → AgentInvocationResult → ℕ → ℕ → Result FlowRunState
settle_invocation s r at now = do
  guard (is_running s.status || is_waiting s.status) Error.invalid_flow_transition
  active ← or_fail (active_invocation s) Error.invalid_flow_transition
  settled ← settle active r at
  ok (store_settled s settled now)

-- What `resume_invocation` does with the resumed invocation.
abbrev pub store_resumed : FlowRunState → AgentInvocation → ℕ → FlowRunState
store_resumed s resumed now =
    evolve
      (record s {
        status = RunStatus.running;
        invocations = replace_invocation resumed s.invocations;
      })
      now

unfoldable pub resume_invocation : FlowRunState → ℕ → ℕ → ℕ → Result FlowRunState
resume_invocation s invocation_id at now = do
  guard (is_waiting s.status) Error.invalid_flow_transition
  active ← or_fail (active_invocation s) Error.invalid_flow_transition
  guard (active.id == invocation_id) Error.value_error
  resumed ← resume active at
  ok (store_resumed s resumed now)

unfoldable pub complete : FlowRunState → String → ℕ → Result FlowRunState
complete s output now = do
  guard (is_running s.status) Error.invalid_flow_transition
  fail_if (is_some s.active_invocation_id) Error.invalid_flow_transition
  fail_if (is_nil s.invocations) Error.invalid_flow_transition
  guard (all_of (λ i. is_completed i.status) s.invocations) Error.invalid_flow_transition
  ok (evolve (record s { status = RunStatus.completed; output = some output; error = none }) now)

-- The invocations after the active one, if there is one, has been terminated.
unfoldable pub terminate_active :
    Option AgentInvocation
    → RunStatus
    → String
    → ℕ
    → List AgentInvocation
    → Result (List AgentInvocation)
terminate_active none status error at invocations = ok invocations
terminate_active (some active) status error at invocations = do
  terminated ← terminate active status error at
  ok (map (λ i. if i.id == active.id then terminated else i) invocations)

-- What `_terminate` does with the invocations that are left.
abbrev pub store_terminated :
    FlowRunState → RunStatus → String → List AgentInvocation → ℕ → FlowRunState
store_terminated s status error invocations now =
    evolve
      (record s {
        status = status;
        invocations = invocations;
        active_invocation_id = none;
        error = some error;
      })
      now

-- `_terminate`.
unfoldable pub terminate_run : FlowRunState → RunStatus → String → ℕ → ℕ → Result FlowRunState
terminate_run s status error at now = do
  fail_if (is_terminal s.status) Error.invalid_flow_transition
  fail_if (is_blank error) Error.value_error
  invocations ← terminate_active (active_invocation s) status error at s.invocations
  ok (store_terminated s status error invocations now)

abbrev pub fail : FlowRunState → String → ℕ → ℕ → Result FlowRunState
fail s = terminate_run s RunStatus.failed

abbrev pub cancel : FlowRunState → String → ℕ → ℕ → Result FlowRunState
cancel s = terminate_run s RunStatus.cancelled

abbrev pub interrupt : FlowRunState → String → ℕ → ℕ → Result FlowRunState
interrupt s = terminate_run s RunStatus.interrupted

abbrev pub reach_limit : FlowRunState → String → ℕ → ℕ → Result FlowRunState
reach_limit s = terminate_run s RunStatus.limit_reached
