-- ===== src/Flows/Recovery/Handler.antt =====
-- DefinitionResolvingFlowWorkHandler of flows/recovery.py, up to the call of the dispatcher. The resolver
-- and the reader of evidence are parameters.
use base_agent.Base.{
  ℕ, String, Bool, true, false, if◌then◌else◌, Option, none, some, List, [], Result, Error, ok, err,
  ◌>>=◌,
}
use base_agent.Models.Json.{Fields}
use base_agent.Flows.Contracts.{FlowDefinition}
use base_agent.Flows.Lease.{FlowExecutionLease}
use base_agent.Flows.Lifecycle.Invocation.{AgentInvocation}
use base_agent.Flows.Lifecycle.State.{FlowRunState, active_invocation}
use base_agent.Flows.Repository.Store.{FlowRepository, get}
use base_agent.Flows.Work.Items.{FlowWorkItem}
use base_agent.Flows.SideEffects.Ledger.{FlowSideEffect}
use base_agent.Flows.Recovery.Registry.{validate_resolved_definition}
use base_agent.Flows.Recovery.Policy.{
  FlowRecoveryAction, FlowRecoveryReason, FlowRecoveryDecision, decide,
}

-- `lifecycle` is a FlowLifecycle on the same repository under this lease.
pub record FlowRecoveryContext : Type 0 where
  pub item : FlowWorkItem
  pub definition : FlowDefinition
  pub state : FlowRunState
  pub decision : FlowRecoveryDecision
  pub lease : FlowExecutionLease
  pub side_effects : List FlowSideEffect

-- How the handler goes on: a FlowWorkBlockedError with the reason as its code, a return, or a call of the
-- dispatcher.
pub data Handled : Type 0 where
  blocked : FlowRecoveryReason → Handled
  skipped : Handled
  dispatched : FlowRecoveryContext → Handled

-- The tests on the class of an exception that is caught.
abbrev pub is_mismatch : Error → Bool
is_mismatch Error.flow_definition_mismatch = true
is_mismatch _ = false

abbrev pub is_not_found : Error → Bool
is_not_found Error.flow_definition_not_found = true
is_not_found _ = false

-- `side_effects`, by the active invocation and the reader.
abbrev pub evidence_for :
    Option AgentInvocation
    → Option (ℕ → Result (List FlowSideEffect))
    → Result (List FlowSideEffect)
evidence_for none reader = ok []
evidence_for (some i) none = ok []
evidence_for (some i) (some reader) = reader i.id

-- The end of the handler, by the action of the decision.
abbrev pub act : FlowRecoveryAction → FlowRecoveryContext → Handled
act FlowRecoveryAction.manual_review context = blocked context.decision.reason
act FlowRecoveryAction.noop context = skipped
act _ context = dispatched context

module _ (is_tool_confirmation : Fields → Bool) (reader : Option (ℕ → Result (List FlowSideEffect)))
    (item : FlowWorkItem) (lease : FlowExecutionLease) (state : FlowRunState) where
  -- With a definition that is the one the Run pins.
  unfoldable pub handle_validated : FlowDefinition → Result Handled
  handle_validated definition = do
    side_effects ← evidence_for (active_invocation state) reader
    decision ← decide is_tool_confirmation item.command state side_effects
    ok (
        act decision.action (record {
          item = item;
          definition = definition;
          state = state;
          decision = decision;
          lease = lease;
          side_effects = side_effects;
        }))

  -- `except FlowDefinitionMismatchError`.
  unfoldable pub handle_checked : FlowDefinition → Result (Unit {0}) → Result Handled
  handle_checked definition (ok u) = handle_validated definition
  handle_checked definition (err e) =
      if is_mismatch e
      then ok (blocked FlowRecoveryReason.definition_fingerprint_mismatch)
      else err e

  -- `except FlowDefinitionNotFoundError`.
  unfoldable pub handle_resolved : Result FlowDefinition → Result Handled
  handle_resolved (ok definition) =
      handle_checked definition (validate_resolved_definition definition state)
  handle_resolved (err e) =
      if is_not_found e then ok (blocked FlowRecoveryReason.definition_not_found) else err e

-- `__call__`.
unfoldable pub handle :
    (Fields → Bool)
    → FlowRepository
    → (String → String → Result FlowDefinition)
    → Option (ℕ → Result (List FlowSideEffect))
    → FlowWorkItem
    → FlowExecutionLease
    → Result Handled
handle is_tool_confirmation repo resolver reader item lease = do
  state ← get repo item.command.run_id
  handle_resolved is_tool_confirmation reader item lease state
      (resolver state.definition_id state.definition_version)
