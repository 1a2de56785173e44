-- ===== src/Flows/Service/Drafts.antt =====
-- The events that FlowLifecycle of flows/service.py writes. What Python's printers make of a UUID, an
-- instant and a budget is a parameter.
use base_agent.Base.{ℕ, String, Option, none, some, List, [], ◌∷◌, length, if◌then◌else◌}
use base_agent.Base.Time.{pos}
use base_agent.Models.Json.{Json, Fields, end, field, merge_fields}
use base_agent.Models.Event.{EventType}
use base_agent.Models.Status.{RunStatus, AgentResultStatus}
use base_agent.Flows.Contracts.{AgentInvocationResult, FlowBudget, is_waiting_result}
use base_agent.Flows.Lifecycle.Invocation.{AgentInvocation}
use base_agent.Flows.Lifecycle.State.{FlowRunState, usage, model_call_count, tool_call_count}
use base_agent.Flows.Lifecycle.Steps.{Ending, fails, cancels, interrupts, reaches_limit}
use base_agent.Flows.Repository.Store.{FlowEventDraft}

-- `str(uuid)`, `instant.isoformat()` and `budget.model_dump(mode="json")`.
pub record Rendering : Type 0 where
  pub id_text : ℕ → String
  pub instant_text : ℕ → String
  pub budget_json : FlowBudget → Json

abbrev pub draft : EventType → Fields → FlowEventDraft
draft type data_fields = record { type = type; data_fields = data_fields }

abbrev pub count : ℕ → Json
count n = Json.number (pos n)

-- `_INVOCATION_RESULT_EVENTS`.
abbrev pub invocation_result_event : AgentResultStatus → EventType
invocation_result_event AgentResultStatus.completed = EventType.agent_invocation_completed
invocation_result_event AgentResultStatus.failed = EventType.agent_invocation_failed
invocation_result_event AgentResultStatus.cancelled = EventType.agent_invocation_cancelled
invocation_result_event AgentResultStatus.interrupted = EventType.agent_invocation_interrupted
invocation_result_event AgentResultStatus.limit_reached = EventType.agent_invocation_limit_reached
invocation_result_event AgentResultStatus.waiting = EventType.agent_invocation_waiting

-- `_FLOW_TERMINAL_EVENTS`.
abbrev pub flow_terminal_event : Ending → EventType
flow_terminal_event fails = EventType.flow_failed
flow_terminal_event cancels = EventType.flow_cancelled
flow_terminal_event interrupts = EventType.flow_interrupted
flow_terminal_event reaches_limit = EventType.flow_limit_reached

-- `_INVOCATION_TERMINAL_EVENTS`.
abbrev pub invocation_terminal_event : Ending → EventType
invocation_terminal_event fails = EventType.agent_invocation_failed
invocation_terminal_event cancels = EventType.agent_invocation_cancelled
invocation_terminal_event interrupts = EventType.agent_invocation_interrupted
invocation_terminal_event reaches_limit = EventType.agent_invocation_limit_reached

-- `status.value`.
abbrev pub status_value : RunStatus → String
status_value RunStatus.created = "created"
status_value RunStatus.running = "running"
status_value RunStatus.completed = "completed"
status_value RunStatus.failed = "failed"
status_value RunStatus.cancelled = "cancelled"
status_value RunStatus.interrupted = "interrupted"
status_value RunStatus.limit_reached = "limit_reached"
status_value RunStatus.waiting = "waiting"

module _ (rendering : Rendering) where
  abbrev deadline_json : Option ℕ → Json
  deadline_json none = Json.null
  deadline_json (some instant) = Json.text (rendering.instant_text instant)

  abbrev pub created_draft : FlowRunState → FlowEventDraft
  created_draft s = draft EventType.flow_created (
      field "definition_id" (Json.text s.definition_id) (
        field "definition_version" (Json.text s.definition_version) (
          field "definition_fingerprint" (Json.text s.definition_fingerprint) (
            field "budget" (rendering.budget_json s.budget) (
              field "deadline_at" (deadline_json s.deadline_at)
                (field "revision" (count s.revision) end))))))

  -- `{**_invocation_data(invocation), **rest}`, where `rest` has none of its keys.
  abbrev pub invocation_data : AgentInvocation → Fields → Fields
  invocation_data i rest = field "invocation_id" (Json.text (rendering.id_text i.id)) (
      field "invocation_sequence" (count i.sequence) (
        field "agent_key" (Json.text i.agent_key) (
          field "definition_id" (Json.text i.definition_id) (
            field "definition_version" (Json.text i.definition_version)
              (field "definition_fingerprint" (Json.text i.definition_fingerprint) rest)))))

  abbrev pub propagation_failure_draft : FlowRunState → AgentInvocation → String → FlowEventDraft
  propagation_failure_draft current invocation error_type =
      draft EventType.agent_invocation_cancellation_propagation_failed (
        invocation_data invocation (
          field "flow_status" (Json.text (status_value current.status)) (
            field "error_type" (Json.text error_type)
              (field "revision" (count current.revision) end))))

  abbrev pub started_draft : FlowRunState → FlowEventDraft
  started_draft s = draft EventType.flow_started (field "revision" (count s.revision) end)

  -- AGENT_INVOCATION_STARTED and AGENT_INVOCATION_RESUMED.
  abbrev pub invocation_draft : EventType → AgentInvocation → FlowRunState → FlowEventDraft
  invocation_draft type i s =
      draft type (invocation_data i (field "revision" (count s.revision) end))

  -- FLOW_WAITING and FLOW_RESUMED.
  abbrev pub pause_draft : EventType → AgentInvocation → FlowRunState → FlowEventDraft
  pause_draft type i s = draft type (
      field "invocation_id" (Json.text (rendering.id_text i.id))
        (field "revision" (count s.revision) end))

  abbrev pub settled_drafts :
      AgentInvocationResult → AgentInvocation → FlowRunState → List FlowEventDraft
  settled_drafts r settled s =
      draft (invocation_result_event r.status) (
        invocation_data settled (
          field "revision" (count s.revision) (
            field "input_tokens" (count r.usage.input_tokens) (
              field "output_tokens" (count r.usage.output_tokens)
                (field "artifact_count" (count (length r.artifacts)) end)))))
      ∷ (if is_waiting_result r.status
          then pause_draft EventType.flow_waiting settled s ∷ []
          else [])

  abbrev pub completed_draft : FlowRunState → FlowEventDraft
  completed_draft s = draft EventType.flow_completed (
      field "revision" (count s.revision) (
        field "invocation_count" (count (length s.invocations)) (
          field "input_tokens" (count (usage s).input_tokens) (
            field "output_tokens" (count (usage s).output_tokens) (
              field "model_calls" (Json.number (model_call_count s))
                (field "tool_calls" (Json.number (tool_call_count s)) end))))))

  -- The Flow event of `_terminate`, with the metadata of the caller.
  abbrev pub ended_draft : Ending → FlowRunState → Fields → FlowEventDraft
  ended_draft e s metadata = draft (flow_terminal_event e) (
      merge_fields
        (field "revision" (count s.revision)
          (field "invocation_count" (count (length s.invocations)) end))
        metadata)
