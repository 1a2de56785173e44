-- ===== src/Models/Event.antt =====
-- models/event.py: the kinds of event, and one ordered fact in the history of a Run.
use base_agent.Base.{ℕ}
use base_agent.Models.Json.{Fields}

pub data EventType : Type 0 where
  flow_created flow_started flow_resumed : EventType
  flow_waiting flow_completed flow_failed : EventType
  flow_cancelled flow_interrupted flow_limit_reached : EventType
  agent_invocation_started agent_invocation_resumed agent_invocation_waiting : EventType
  agent_invocation_completed agent_invocation_failed agent_invocation_cancelled : EventType
  agent_invocation_interrupted agent_invocation_limit_reached
        agent_invocation_cancellation_propagation_failed :
      EventType
  run_created run_started run_resumed : EventType
  skill_selected skill_loaded model_requested : EventType
  model_responded tool_requested tool_started : EventType
  tool_completed tool_failed tool_waiting : EventType
  tool_confirmation_requested tool_confirmation_decided input_received : EventType
  plan_created plan_reviewed plan_updated : EventType
  step_started step_resumed step_waiting : EventType
  step_completed step_failed step_cancelled : EventType
  step_skipped react_iteration_started react_action_batch_selected : EventType
  react_observation_batch_recorded react_iteration_completed resource_acquired : EventType
  resource_released resource_failed attachment_added : EventType
  artifact_created memory_retrieved memory_failed : EventType
  supervisor_intervened run_completed run_failed : EventType
  run_cancelled run_interrupted run_limit_reached : EventType
  run_waiting : EventType

pub record RuntimeEvent : Type 0 where
  pub id : ℕ
  pub run_id : ℕ
  pub sequence : ℕ
  pub type : EventType
  pub timestamp : ℕ
  pub data_fields : Fields
