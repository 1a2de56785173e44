-- ===== src/Examples/Values.antt =====
-- A definition with one agent, a Flow Run of it, and its states up to the end.
use base_agent.Base.{ℕ, none, some, [], ◌∷◌}
use base_agent.Models.Json.{Fields}
use base_agent.Models.Usage.{token_usage}
use base_agent.Models.Status.{RunStatus, AgentResultStatus}
use base_agent.Flows.Contracts.{
  AgentDefinition, FlowBudget, FlowDefinition, AgentInvocationInput, AgentInvocationRequest,
  AgentInvocationResult,
}
use base_agent.Flows.Lifecycle.Invocation.{AgentInvocation}
use base_agent.Flows.Lifecycle.State.{FlowRunState}
use base_agent.Flows.Lifecycle.Transitions.{initial_state, evolve, store_begun, store_settled}

abbrev pub writer : AgentDefinition
writer = record { id = "writer"; version = "1"; fingerprint = "aa" }

abbrev pub budget : FlowBudget
budget = record {
  max_invocations = 2;
  max_input_tokens = none;
  max_output_tokens = none;
  max_total_tokens = some 100;
  max_model_calls = none;
  max_tool_calls = none;
  timeout_seconds = some 1000;
}

abbrev pub demo : FlowDefinition
demo = record {
  id = "demo";
  version = "1";
  agents = record { key = "w"; definition = writer } ∷ [];
  strategy = "sequential";
  budget = budget;
  metadata = Fields.end;
  fingerprint = "ff";
}

abbrev pub input : AgentInvocationInput
input = record { prompt = "write"; handoff = none; attachments = [] }

abbrev pub request : ℕ → ℕ → AgentInvocationRequest
request id sequence = record {
  flow_run_id = 7;
  invocation_id = id;
  sequence = sequence;
  agent_key = "w";
  definition_id = "writer";
  definition_version = "1";
  definition_fingerprint = "aa";
  input = input;
}

abbrev pub result : AgentInvocationResult
result = record {
  flow_run_id = 7;
  invocation_id = 20;
  agent_key = "w";
  status = AgentResultStatus.completed;
  output = some "done";
  usage = token_usage 3 4;
  artifacts = [];
  pending_input = none;
  error = none;
  metadata = Fields.end;
}

abbrev pub created : FlowRunState
created = initial_state demo 7 100

abbrev pub started : FlowRunState
started = evolve (record created { status = RunStatus.running }) 110

abbrev pub begun : FlowRunState
begun = store_begun started (request 20 1) 120 121

abbrev pub first : AgentInvocation
first = record {
  id = 20;
  flow_run_id = 7;
  sequence = 1;
  agent_key = "w";
  definition_id = "writer";
  definition_version = "1";
  definition_fingerprint = "aa";
  input = input;
  status = RunStatus.completed;
  result = some result;
  created_at = 120;
  updated_at = 130;
}

-- The invocation before its result.
abbrev pub running : AgentInvocation
running = record first { status = RunStatus.running; result = none; updated_at = 120 }

abbrev pub settled : FlowRunState
settled = store_settled begun first 131

abbrev pub ended : FlowRunState
ended = evolve (record settled { status = RunStatus.completed; output = some "done" }) 140
