-- ===== src/Flows/Recovery/Handling.antt =====
-- What the handler of flows/recovery.py hands to the dispatcher of the application.
use base_agent.Base.{
  ℕ, String, Bool, true, false, Option, List, Result, Error, ok, err, >>=-eq-ok, ok_inj, or_fail-ok,
  ◌≡◌, refl, ap, subst, if◌then◌else◌, nat_eq, Bool-cases, inl, inr,
}
use base_agent.Models.Json.{Fields}
use base_agent.Base.Dict.{lookup}
use base_agent.Flows.Contracts.{FlowDefinition}
use base_agent.Flows.Lease.{FlowExecutionLease}
use base_agent.Flows.Lifecycle.State.{FlowRunState, active_invocation, validate_state}
use base_agent.Flows.Lifecycle.Invariant.{Reachable-IsValid}
use base_agent.Flows.Repository.Store.{FlowRepository, get}
use base_agent.Flows.Work.Items.{FlowWorkItem}
use base_agent.Flows.SideEffects.Ledger.{FlowSideEffect}
use base_agent.Flows.Service.Drafts.{Rendering}
use base_agent.Flows.Service.Histories.{Served, Served-IsSound}
use base_agent.Flows.Recovery.Registry.{validate_resolved_definition}
use base_agent.Flows.Recovery.Policy.{FlowRecoveryAction, FlowRecoveryReason, decide}
use base_agent.Flows.Recovery.Decisions.{Enabled, decide-Enabled}
use base_agent.Flows.Recovery.Handler.{
  FlowRecoveryContext, blocked, dispatched, evidence_for, act, handle_validated, handle_checked,
  handle_resolved, handle, is_mismatch, is_not_found,
}

-- The actions that the dispatcher is called with.
abbrev pub is_handed_over : FlowRecoveryAction → Bool
is_handed_over FlowRecoveryAction.noop = false
is_handed_over FlowRecoveryAction.manual_review = false
is_handed_over _ = true

-- What is handed over: the stored state, the definition that it pins, the lease of the worker, and an
-- action that the state allows.
pub record IsReady (repo : FlowRepository) (item : FlowWorkItem) (lease : FlowExecutionLease)
    (context : FlowRecoveryContext) : Type 0 where
  pub stored : get repo item.command.run_id ≡ ok context.state
  pub pinned : validate_resolved_definition context.definition context.state ≡ ok tt
  pub leased : context.lease ≡ lease
  pub handed_over : is_handed_over context.decision.action ≡ true
  pub enabled : Enabled context.decision.action context.state

-- Only a context that is the one built is handed over.
act-dispatched :
    (action : FlowRecoveryAction) (context given : FlowRecoveryContext)
    → act action context ≡ dispatched given
    → (context ≡ given) × (is_handed_over action ≡ true)
act-dispatched FlowRecoveryAction.start context given h = (cc, refl)
act-dispatched FlowRecoveryAction.advance context given h = (cc, refl)
act-dispatched FlowRecoveryAction.resume context given h = (cc, refl)
act-dispatched FlowRecoveryAction.finalize context given h = (cc, refl)
act-dispatched FlowRecoveryAction.cancel context given h = (cc, refl)
act-dispatched FlowRecoveryAction.noop context given h = absurd (cc)
act-dispatched FlowRecoveryAction.manual_review context given h = absurd (cc)

module _ (is_tool_confirmation : Fields → Bool) (repo : FlowRepository)
    (reader : Option (ℕ → Result (List FlowSideEffect))) (item : FlowWorkItem)
    (lease : FlowExecutionLease) (context : FlowRecoveryContext) where
  validated-IsReady :
      (state : FlowRunState) (definition : FlowDefinition)
      → get repo item.command.run_id ≡ ok state
      → validate_state state ≡ ok tt
      → validate_resolved_definition definition state ≡ ok tt
      → handle_validated is_tool_confirmation reader item lease state definition
        ≡ ok (dispatched context)
      → IsReady repo item lease context
  unfolding handle_validated
  validated-IsReady state definition got valid pinned h =
      let (effects, read, h1) = >>=-eq-ok (evidence_for (active_invocation state) reader) _ h in
      let (d, decided, h2) =
        >>=-eq-ok (decide is_tool_confirmation item.command state effects) _ h1 in
      let (built, over) = act-dispatched d.action _ context (ok_inj h2) in
      subst (IsReady repo item lease) built (record {
        stored = got;
        pinned = pinned;
        leased = refl;
        handed_over = over;
        enabled = decide-Enabled is_tool_confirmation item.command state effects d valid decided;
      })

  checked-IsReady :
      (state : FlowRunState) (definition : FlowDefinition) (r : Result (Unit {0}))
      → validate_resolved_definition definition state ≡ r
      → get repo item.command.run_id ≡ ok state
      → validate_state state ≡ ok tt
      → handle_checked is_tool_confirmation reader item lease state definition r
        ≡ ok (dispatched context)
      → IsReady repo item lease context
  unfolding handle_checked
  checked-IsReady state definition (ok u) pinned got valid h =
      validated-IsReady state definition got valid pinned h
  checked-IsReady state definition (err e) pinned got valid h = elim (Bool-cases (is_mismatch e)) [
    | inl b ↦ absurd (
        cc (
          ap
              (λ k.
                if k
                then ok (blocked FlowRecoveryReason.definition_fingerprint_mismatch)
                else err e)
              b,
          h,
        ))
    | inr b ↦ absurd (
        cc (
          ap
              (λ k.
                if k
                then ok (blocked FlowRecoveryReason.definition_fingerprint_mismatch)
                else err e)
              b,
          h,
        ))
  ]

  resolved-IsReady :
      (state : FlowRunState) (r : Result FlowDefinition)
      → get repo item.command.run_id ≡ ok state
      → validate_state state ≡ ok tt
      → handle_resolved is_tool_confirmation reader item lease state r ≡ ok (dispatched context)
      → IsReady repo item lease context
  unfolding handle_resolved
  resolved-IsReady state (ok definition) got valid h =
      checked-IsReady state definition (validate_resolved_definition definition state) refl got
        valid h
  resolved-IsReady state (err e) got valid h = elim (Bool-cases (is_not_found e)) [
    | inl b ↦ absurd (
        cc (
          ap (λ k. if k then ok (blocked FlowRecoveryReason.definition_not_found) else err e) b,
          h,
        ))
    | inr b ↦ absurd (
        cc (
          ap (λ k. if k then ok (blocked FlowRecoveryReason.definition_not_found) else err e) b,
          h,
        ))
  ]

  -- In a repository that any workers have used only through FlowLifecycle and its leases, what the handler
  -- hands to the dispatcher is the stored state of the item's Run, the definition that this state pins,
  -- the worker's lease, and a decision whose action the state allows: a start that succeeds, an
  -- advance or a finalization of a running Run with no active invocation, a resumption of one that waits,
  -- or a cancellation before the end.
  pub handle-IsReady :
      (v : Rendering) (resolver : String → String → Result FlowDefinition)
      → Served v repo
      → handle is_tool_confirmation repo resolver reader item lease ≡ ok (dispatched context)
      → IsReady repo item lease context
  unfolding handle get
  handle-IsReady v resolver served h =
      let (state, got, h1) = >>=-eq-ok (get repo item.command.run_id) _ h in
      let sound =
        Served-IsSound v repo item.command.run_id state served
          (or_fail-ok (lookup item.command.run_id repo.states) Error.flow_run_not_found got) in
      resolved-IsReady state (resolver state.definition_id state.definition_version) got
        (Reachable-IsValid sound.definition sound.reached).accepted h1
