-- ===== src/Flows/Service/Service.antt =====
-- FlowLifecycle of flows/service.py: each method reads the Flow Run, calls its transition, and commits the
-- new state with its events. The times that the transition reads are arguments `at` and `now`.
use base_agent.Base.{
  ℕ, String, Option, none, some, List, [], ◌∷◌, ◌++◌, ◌==◌, nat_eq, find, last_of, Result, Error,
  ok, ◌>>=◌, ◌>>◌, guard, or_fail,
}
use base_agent.Models.Json.{Fields, end}
use base_agent.Models.Event.{EventType}
use base_agent.Flows.Contracts.{AgentInvocationRequest, AgentInvocationResult, FlowDefinition}
use base_agent.Flows.Lease.{FlowExecutionLease}
use base_agent.Flows.Lifecycle.Invocation.{AgentInvocation}
use base_agent.Flows.Lifecycle.State.{FlowRunState, active_invocation}
use base_agent.Flows.Lifecycle.Transitions
use base_agent.Flows.Lifecycle.Steps.{
  Ending, fails, cancels, interrupts, reaches_limit, ending_status,
}
use base_agent.Flows.Repository.Store.{
  FlowRepository, FlowEventDraft, Stamp, get, commit, append_events,
}
use base_agent.Flows.Repository.Store
use base_agent.Flows.Service.Drafts.{
  Rendering, created_draft, propagation_failure_draft, started_draft, invocation_draft, pause_draft,
  settled_drafts, completed_draft, ended_draft, invocation_terminal_event,
}

-- What a commit reads: the time at which it checks the lease, and the stamps of its events.
pub record CommitReadings : Type 0 where
  pub checked : ℕ
  pub stamps : ℕ → Stamp

-- `_execution_token_for`.
unfoldable pub execution_token_for : Option FlowExecutionLease → ℕ → Result (Option ℕ)
execution_token_for none run_id = ok none
execution_token_for (some lease) run_id = do
  guard (lease.run_id == run_id) Error.value_error
  ok (some lease.token)

-- The end of each method: `_commit`, and the calls of `commit` that the other methods write out.
unfoldable pub commit_state :
    FlowRepository
    → Option FlowExecutionLease
    → ℕ
    → FlowRunState
    → FlowRunState
    → List FlowEventDraft
    → CommitReadings
    → Result (FlowRepository × FlowRunState)
unfolding execution_token_for
commit_state repo lease run_id current state drafts r = do
  token ← execution_token_for lease run_id
  stored ← commit repo state current.revision drafts token r.checked r.stamps
  ok (stored.0, state)

module _ (rendering : Rendering) where
  unfoldable pub create :
      FlowRepository
      → FlowDefinition
      → (run_id now : ℕ) → CommitReadings
      → Result (FlowRepository × FlowRunState)
  create repo definition run_id now r = do
    state ← Transitions.create definition run_id now
    stored ← Store.create repo state (created_draft rendering state ∷ []) r.stamps
    ok (stored.0, state)

  unfoldable pub record_cancellation_propagation_failure :
      FlowRepository
      → Option FlowExecutionLease
      → ℕ
      → AgentInvocation
      → String
      → CommitReadings
      → Result FlowRepository
  unfolding execution_token_for
  record_cancellation_propagation_failure repo lease run_id invocation error_type r = do
    current ← get repo run_id
    token ← execution_token_for lease run_id
    stored ←
        append_events repo run_id current.revision
          (propagation_failure_draft rendering current invocation error_type ∷ []) token r.checked
          r.stamps
    ok stored.0

  unfoldable pub start :
      FlowRepository
      → Option FlowExecutionLease
      → (run_id now : ℕ) → CommitReadings
      → Result (FlowRepository × FlowRunState)
  start repo lease run_id now r = do
    current ← get repo run_id
    state ← Transitions.start current now
    commit_state repo lease state.run_id current state (started_draft rendering state ∷ []) r

  unfoldable pub begin_invocation :
      FlowRepository
      → Option FlowExecutionLease
      → ℕ
      → AgentInvocationRequest
      → FlowDefinition
      → (at now : ℕ) → CommitReadings
      → Result (FlowRepository × FlowRunState)
  begin_invocation repo lease run_id request definition at now r = do
    current ← get repo run_id
    state ← Transitions.begin_invocation current request definition at now
    invocation ← or_fail (active_invocation state) Error.assertion
    commit_state repo lease state.run_id current state
        (invocation_draft rendering EventType.agent_invocation_started invocation state ∷ []) r

  unfoldable pub settle_invocation :
      FlowRepository
      → Option FlowExecutionLease
      → ℕ
      → AgentInvocationResult
      → (at now : ℕ) → CommitReadings
      → Result (FlowRepository × FlowRunState)
  settle_invocation repo lease run_id result at now r = do
    current ← get repo run_id
    state ← Transitions.settle_invocation current result at now
    settled ← or_fail (last_of state.invocations) Error.index_error
    commit_state repo lease run_id current state (settled_drafts rendering result settled state) r

  unfoldable pub resume_invocation :
      FlowRepository
      → Option FlowExecutionLease
      → (run_id invocation_id at now : ℕ) → CommitReadings
      → Result (FlowRepository × FlowRunState)
  resume_invocation repo lease run_id invocation_id at now r = do
    current ← get repo run_id
    state ← Transitions.resume_invocation current invocation_id at now
    invocation ← or_fail (active_invocation state) Error.assertion
    commit_state repo lease run_id current state
        (invocation_draft rendering EventType.agent_invocation_resumed invocation state
          ∷ pause_draft rendering EventType.flow_resumed invocation state
          ∷ [])
        r

  unfoldable pub complete :
      FlowRepository
      → Option FlowExecutionLease
      → ℕ
      → String
      → (now : ℕ) → CommitReadings
      → Result (FlowRepository × FlowRunState)
  complete repo lease run_id output now r = do
    current ← get repo run_id
    state ← Transitions.complete current output now
    commit_state repo lease state.run_id current state (completed_draft rendering state ∷ []) r

  -- The event of the active invocation, if there was one.
  unfoldable pub active_ended_drafts :
      Ending → Option AgentInvocation → FlowRunState → Result (List FlowEventDraft)
  active_ended_drafts e none state = ok []
  active_ended_drafts e (some active) state = do
    terminated ← or_fail (find (λ i. i.id == active.id) state.invocations) Error.stop_iteration
    ok (invocation_draft rendering (invocation_terminal_event e) terminated state ∷ [])

  -- `_terminate`, by the status that it gives: `fail`, `cancel`, `interrupt` and `reach_limit` call it
  -- with their own, and only `reach_limit` passes metadata.
  unfoldable pub terminate :
      FlowRepository
      → Option FlowExecutionLease
      → ℕ
      → Ending
      → String
      → Fields
      → (at now : ℕ) → CommitReadings
      → Result (FlowRepository × FlowRunState)
  unfolding active_ended_drafts
  terminate repo lease run_id e error metadata at now r = do
    current ← get repo run_id
    state ← Transitions.terminate_run current (ending_status e) error at now
    drafts ← active_ended_drafts e (active_invocation current) state
    commit_state repo lease run_id current state
        (drafts ++ ended_draft rendering e state metadata ∷ []) r

  abbrev pub fail :
      FlowRepository
      → Option FlowExecutionLease
      → ℕ
      → String
      → (at now : ℕ) → CommitReadings
      → Result (FlowRepository × FlowRunState)
  fail repo lease run_id error at now r = terminate repo lease run_id fails error end at now r

  abbrev pub cancel :
      FlowRepository
      → Option FlowExecutionLease
      → ℕ
      → String
      → (at now : ℕ) → CommitReadings
      → Result (FlowRepository × FlowRunState)
  cancel repo lease run_id error at now r = terminate repo lease run_id cancels error end at now r

  abbrev pub interrupt :
      FlowRepository
      → Option FlowExecutionLease
      → ℕ
      → String
      → (at now : ℕ) → CommitReadings
      → Result (FlowRepository × FlowRunState)
  interrupt repo lease run_id error at now r =
      terminate repo lease run_id interrupts error end at now r

  abbrev pub reach_limit :
      FlowRepository
      → Option FlowExecutionLease
      → ℕ
      → String
      → Fields
      → (at now : ℕ) → CommitReadings
      → Result (FlowRepository × FlowRunState)
  reach_limit repo lease run_id error metadata at now r =
      terminate repo lease run_id reaches_limit error metadata at now r
