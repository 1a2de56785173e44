-- ===== src/Flows/Contracts.antt =====
-- flows/models.py: definitions, requests and results, with the validators that they run.
use base_agent.Base.{
  ℕ, String, Bool, true, false, ◌&&◌, not, Option, none, some, List, map, ◌==◌, nat_eq, string_eq,
  option_eq, Result, Error, ok, ◌>>=◌, ◌>>◌, fail_if, guard, or_fail, find, Option, is_some,
  if◌then◌else◌,
}
use base_agent.Base.Text.{is_empty_text}
use base_agent.Base.Distinct.{all_distinct}
use base_agent.Models.Json.{Fields}
use base_agent.Models.Artifact.{Artifact, Attachment, PendingInput}
use base_agent.Models.Usage.{TokenUsage}
use base_agent.Models.Status.{AgentResultStatus}

-- The identity of an AgentDefinition of profiles.py; `fingerprint` is its SHA-256 digest.
pub record AgentDefinition : Type 0 where
  pub id : String
  pub version : String
  pub fingerprint : String

pub record FlowAgent : Type 0 where
  pub key : String
  pub definition : AgentDefinition

-- `timeout_seconds` is in microseconds.
pub record FlowBudget : Type 0 where
  pub max_invocations : ℕ
  pub max_input_tokens : Option ℕ
  pub max_output_tokens : Option ℕ
  pub max_total_tokens : Option ℕ
  pub max_model_calls : Option ℕ
  pub max_tool_calls : Option ℕ
  pub timeout_seconds : Option ℕ

-- `fingerprint` is the digest that the property of that name computes.
pub record FlowDefinition : Type 0 where
  pub id : String
  pub version : String
  pub agents : List FlowAgent
  pub strategy : String
  pub budget : FlowBudget
  pub metadata : Fields
  pub fingerprint : String

abbrev pub validate_agent_keys : FlowDefinition → Result (Unit {0})
validate_agent_keys d = guard (all_distinct (map (λ a. a.key) d.agents)) Error.value_error

-- `definition.agent(key)`.
unfoldable pub agent : FlowDefinition → String → Result AgentDefinition
agent d key = do a ← or_fail (find (λ a. a.key == key) d.agents) Error.key_error; ok a.definition

pub record AgentHandoff : Type 0 where
  pub source_agent_key : String
  pub summary : String
  pub data_fields : Fields
  pub artifacts : List Artifact

pub record AgentInvocationInput : Type 0 where
  pub prompt : String
  pub handoff : Option AgentHandoff
  pub attachments : List Attachment

pub record AgentInvocationRequest : Type 0 where
  pub flow_run_id : ℕ
  pub invocation_id : ℕ
  pub sequence : ℕ
  pub agent_key : String
  pub definition_id : String
  pub definition_version : String
  pub definition_fingerprint : String
  pub input : AgentInvocationInput

pub record AgentInvocationResult : Type 0 where
  pub flow_run_id : ℕ
  pub invocation_id : ℕ
  pub agent_key : String
  pub status : AgentResultStatus
  pub output : Option String
  pub usage : TokenUsage
  pub artifacts : List Artifact
  pub pending_input : Option PendingInput
  pub error : Option String
  pub metadata : Fields

abbrev pub is_waiting_result : AgentResultStatus → Bool
is_waiting_result AgentResultStatus.waiting = true
is_waiting_result _ = false

abbrev pub is_completed_result : AgentResultStatus → Bool
is_completed_result AgentResultStatus.completed = true
is_completed_result _ = false

-- The set `failed` of `validate_status_payload`.
abbrev pub is_failed_result : AgentResultStatus → Bool
is_failed_result AgentResultStatus.completed = false
is_failed_result AgentResultStatus.waiting = false
is_failed_result _ = true

-- `not self.error` of an optional text.
abbrev pub lacks_text : Option String → Bool
lacks_text none = true
lacks_text (some s) = is_empty_text s

unfoldable pub validate_status_payload : AgentInvocationResult → Result (Unit {0})
validate_status_payload r = do
  guard (all_distinct (map (λ a. a.id) r.artifacts)) Error.value_error
  if is_waiting_result r.status
      then fail_if (not (is_some r.pending_input)) Error.value_error
      else fail_if (is_some r.pending_input) Error.value_error
  fail_if (is_failed_result r.status && lacks_text r.error) Error.value_error
  fail_if (is_completed_result r.status && is_some r.error) Error.value_error
