-- ===== src/Flows/Service/Histories.antt =====
-- Histories of calls of FlowLifecycle, flows/service.py, and of the leases of the repository.
use base_agent.Base.{ℕ, String, Option, some, nat_eq, string_eq, ok, ◌≡◌, ap}
use base_agent.Base.Dict.{lookup}
use base_agent.Base.Time.{ℤ}
use base_agent.Models.Json.{Fields}
use base_agent.Flows.Contracts.{FlowDefinition}
use base_agent.Flows.Lease.{FlowExecutionLease}
use base_agent.Flows.Lifecycle.Invocation.{AgentInvocation}
use base_agent.Flows.Lifecycle.State.{FlowRunState}
use base_agent.Flows.Lifecycle.Steps.{Transition, IsAdmissible}
use base_agent.Flows.Repository.Store.{FlowRepository, get}
use base_agent.Flows.Repository.Execution.{acquire_execution, renew_execution, release_execution}
use base_agent.Flows.Repository.Inversion.{acquire_execution-ok}
use base_agent.Flows.Repository.History.{empty, renew_execution-states, release_execution-states}
use base_agent.Flows.Service.Drafts.{Rendering}
use base_agent.Flows.Service.Service
use base_agent.Flows.Service.Service.{
  CommitReadings, execution_token_for, record_cancellation_propagation_failure,
}
use base_agent.Flows.Service.Calls.{serve}
use base_agent.Flows.Service.Ends.{serve-Changed}
use base_agent.Flows.Service.Sound.{
  IsSound, AllSound, create-AllSound, move-AllSound, append-AllSound, leased-AllSound,
  renew_execution-events, release_execution-events,
}

-- The repositories that calls on a new one reach. The calls may be made by any number of workers, each
-- with its own lease or none; a call that raises changes nothing and is left out.
pub data Served (v : Rendering) : FlowRepository → Type 0 where
  new : Served v empty
  creates :
      {repo next : FlowRepository} (d : FlowDefinition) (id now : ℕ) (r : CommitReadings)
      (s : FlowRunState)
      → Served v repo
      → Service.create v repo d id now r ≡ ok (next, s)
      → Served v next
  moves :
      {repo next : FlowRepository} (lease : Option FlowExecutionLease) (id : ℕ) (x : Transition)
      (metadata : Fields) (r : CommitReadings) (s : FlowRunState)
      → Served v repo
      → ((current : FlowRunState) → get repo id ≡ ok current → IsAdmissible current x)
      → serve v repo lease id x metadata r ≡ ok (next, s)
      → Served v next
  records :
      {repo next : FlowRepository} (lease : Option FlowExecutionLease) (id : ℕ)
      (invocation : AgentInvocation) (error_type : String) (r : CommitReadings)
      → Served v repo
      → record_cancellation_propagation_failure v repo lease id invocation error_type r ≡ ok next
      → Served v next
  acquires :
      {repo next : FlowRepository} (id : ℕ) (owner : String) (ttl : ℤ) (now token : ℕ)
      (lease : FlowExecutionLease)
      → Served v repo
      → acquire_execution repo id owner ttl now token ≡ ok (next, lease)
      → Served v next
  renews :
      {repo next : FlowRepository} (lease : FlowExecutionLease) (ttl : ℤ) (now : ℕ)
      (renewed : FlowExecutionLease)
      → Served v repo
      → renew_execution repo lease ttl now ≡ ok (next, renewed)
      → Served v next
  releases :
      {repo next : FlowRepository} (lease : FlowExecutionLease)
      → Served v repo
      → release_execution repo lease ≡ ok next
      → Served v next

Served-AllSound : (v : Rendering) {repo : FlowRepository} → Served v repo → AllSound repo
unfolding lookup
Served-AllSound v new = λ j t e. absurd (cc)
Served-AllSound v (creates d i now r s before f) =
    create-AllSound v _ _ d i now r s (Served-AllSound v before) f
Served-AllSound v (moves lease i x m r s before admits f) =
    move-AllSound _ _ i x s (Served-AllSound v before) admits
      (serve-Changed v _ lease i x m r _ s f)
Served-AllSound v (records lease i invocation error_type r before f) =
    append-AllSound v _ _ lease i invocation error_type r (Served-AllSound v before) f
Served-AllSound v (acquires {repo} {next} i owner ttl now token lease before f) =
    let a = acquire_execution-ok _ i owner ttl now token _ lease f in
    leased-AllSound repo next (Served-AllSound v before) (ap (λ k. k.states) a.6)
      (ap (λ k. k.events) a.6)
Served-AllSound v (renews {repo} {next} lease ttl now renewed before f) =
    leased-AllSound repo next (Served-AllSound v before)
      (renew_execution-states _ lease ttl now _ renewed f)
      (renew_execution-events _ lease ttl now _ renewed f)
Served-AllSound v (releases {repo} {next} lease before f) =
    leased-AllSound repo next (Served-AllSound v before) (release_execution-states _ lease _ f)
      (release_execution-events _ lease _ f)

-- In a repository that any workers have used only through FlowLifecycle and its leases, on unused
-- invocation ids and accepted results, every stored Flow Run is a state that the transitions reach from
-- a new Run of some definition, and its log has one event of the Run's end if its status is terminal
-- and none if not.
pub Served-IsSound :
    (v : Rendering) (repo : FlowRepository) (id : ℕ) (s : FlowRunState)
    → Served v repo
    → lookup id repo.states ≡ some s
    → IsSound repo.events id s
Served-IsSound v repo id s served h = Served-AllSound v served id s h
