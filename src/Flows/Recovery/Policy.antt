-- ===== src/Flows/Recovery/Policy.antt =====
-- FlowRecoveryPolicy of flows/recovery.py. The validation of a confirmation by the model
-- ToolConfirmation is a parameter: whether a `dict` is one.
use base_agent.Base.{
  Bool, true, false, ◌&&◌, not, Option, none, some, is_some, List, ◌==◌, nat_eq, string_eq, Result,
  Error, ok, ◌>>◌, guard, if◌then◌else◌, any_of, last_of,
}
use base_agent.Base.Text.{is_blank}
use base_agent.Models.Json.{Json, Fields, get_field}
use base_agent.Models.Status.{RunStatus, is_waiting, is_completed, is_terminal}
use base_agent.Flows.Lifecycle.Invocation.{AgentInvocation}
use base_agent.Flows.Lifecycle.State.{FlowRunState, active_invocation}
use base_agent.Flows.Work.Items.{FlowWorkKind, FlowWorkCommand}
use base_agent.Flows.SideEffects.Ledger.{FlowSideEffect, retry_safe}

pub data FlowRecoveryAction : Type 0 where
  start advance resume finalize cancel noop manual_review : FlowRecoveryAction

pub data FlowRecoveryReason : Type 0 where
  created_safe_to_start idle_safe_to_advance settled_failure_safe_to_finalize : FlowRecoveryReason
  waiting_input_available waiting_confirmation_available : FlowRecoveryReason
  cancellation_requested terminal_already_settled : FlowRecoveryReason
  active_invocation_uncertain active_side_effect_retry_unsafe : FlowRecoveryReason
  waiting_input_required resume_state_mismatch unsupported_state : FlowRecoveryReason
  definition_not_found definition_fingerprint_mismatch : FlowRecoveryReason

pub record FlowRecoveryDecision : Type 0 where
  pub action : FlowRecoveryAction
  pub reason : FlowRecoveryReason

abbrev pub decision : FlowRecoveryAction → FlowRecoveryReason → FlowRecoveryDecision
decision action reason = record { action = action; reason = reason }

-- `isinstance(user_input, str) and bool(user_input.strip())`.
abbrev pub is_given_text : Option Json → Bool
is_given_text (some (Json.text s)) = not (is_blank s)
is_given_text _ = false

-- `_confirmation_from_command(command) is not None`.
abbrev pub is_confirmation : (Fields → Bool) → Option Json → Bool
is_confirmation is_tool_confirmation (some (Json.object payload)) = is_tool_confirmation payload
is_confirmation is_tool_confirmation _ = false

-- The branch for RESUME.
unfoldable pub decide_resume :
    (Fields → Bool) → FlowWorkCommand → FlowRunState → FlowRecoveryDecision
decide_resume is_tool_confirmation command state =
    let has_user_input = is_given_text (get_field "user_input" command.data_fields) in
    let has_confirmation =
      is_confirmation is_tool_confirmation (get_field "confirmation" command.data_fields) in
    if is_waiting state.status
      && (if has_user_input then not has_confirmation else has_confirmation)
    then decision FlowRecoveryAction.resume (
        if has_confirmation
        then FlowRecoveryReason.waiting_confirmation_available
        else FlowRecoveryReason.waiting_input_available)
    else decision FlowRecoveryAction.manual_review (
        if is_waiting state.status
        then FlowRecoveryReason.waiting_input_required
        else FlowRecoveryReason.resume_state_mismatch)

-- `not invocations or invocations[-1].status is COMPLETED`.
abbrev pub last_completed : Option AgentInvocation → Bool
last_completed none = true
last_completed (some i) = is_completed i.status

-- The branch for RUNNING.
unfoldable pub decide_running : FlowRunState → List FlowSideEffect → FlowRecoveryDecision
decide_running state side_effects =
    if is_some (active_invocation state)
    then decision FlowRecoveryAction.manual_review (
        if any_of (λ e. not (retry_safe e)) side_effects
        then FlowRecoveryReason.active_side_effect_retry_unsafe
        else FlowRecoveryReason.active_invocation_uncertain)
    else if last_completed (last_of state.invocations)
    then decision FlowRecoveryAction.advance FlowRecoveryReason.idle_safe_to_advance
    else decision FlowRecoveryAction.finalize FlowRecoveryReason.settled_failure_safe_to_finalize

-- The branches for EXECUTE and RECOVER, by the status. RUNNING is the last one that is left to them.
abbrev pub decide_by_status : RunStatus → FlowRunState → List FlowSideEffect → FlowRecoveryDecision
decide_by_status RunStatus.created state side_effects =
    decision FlowRecoveryAction.start FlowRecoveryReason.created_safe_to_start
decide_by_status RunStatus.waiting state side_effects =
    decision FlowRecoveryAction.manual_review FlowRecoveryReason.waiting_input_required
decide_by_status RunStatus.running state side_effects = decide_running state side_effects
decide_by_status _ state side_effects =
    decision FlowRecoveryAction.manual_review FlowRecoveryReason.unsupported_state

abbrev pub decide_execute : FlowRunState → List FlowSideEffect → FlowRecoveryDecision
decide_execute state side_effects = decide_by_status state.status state side_effects

-- The decision on a command whose Run is not terminal.
abbrev pub decide_by_kind :
    (Fields → Bool)
    → FlowWorkKind
    → FlowWorkCommand
    → FlowRunState
    → List FlowSideEffect
    → FlowRecoveryDecision
decide_by_kind is_tool_confirmation FlowWorkKind.cancel command state side_effects =
    decision FlowRecoveryAction.cancel FlowRecoveryReason.cancellation_requested
decide_by_kind is_tool_confirmation FlowWorkKind.resume command state side_effects =
    decide_resume is_tool_confirmation command state
decide_by_kind is_tool_confirmation FlowWorkKind.execute command state side_effects =
    decide_execute state side_effects
decide_by_kind is_tool_confirmation FlowWorkKind.recover command state side_effects =
    decide_execute state side_effects

unfoldable pub decide :
    (Fields → Bool)
    → FlowWorkCommand
    → FlowRunState
    → List FlowSideEffect
    → Result FlowRecoveryDecision
decide is_tool_confirmation command state side_effects = do
  guard (command.run_id == state.run_id) Error.value_error
  if is_terminal state.status
      then ok (decision FlowRecoveryAction.noop FlowRecoveryReason.terminal_already_settled)
      else ok (decide_by_kind is_tool_confirmation command.kind command state side_effects)
