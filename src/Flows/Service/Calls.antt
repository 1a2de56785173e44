-- ===== src/Flows/Service/Calls.antt =====
-- The methods of FlowLifecycle, flows/service.py, that move a stored Flow Run on, as one call by its
-- transition, and what is asked of such a call.
use base_agent.Base.{
  ℕ, ◌+◌, Bool, true, false, Option, some, List, [], ◌∷◌, ◌++◌, map, nat_eq, string_eq, Result,
  Error, ok, >>=-eq-ok, ok_inj, or_fail-ok, ◌≡◌, ap, ◌∙◌, subst, arith,
}
use base_agent.Base.Dict.{lookup}
use base_agent.Models.Json.{Fields}
use base_agent.Models.Event.{EventType, RuntimeEvent}
use base_agent.Models.Status.{is_terminal}
use base_agent.Flows.Lease.{FlowExecutionLease}
use base_agent.Flows.Lifecycle.State.{FlowRunState}
use base_agent.Flows.Lifecycle.Steps.{
  fails, cancels, interrupts, reaches_limit, Transition, starts, begins, settles, resumes,
  completes, ends_run, apply,
}
use base_agent.Flows.Repository.Store.{FlowRepository, FlowEventDraft, get, commit}
use base_agent.Flows.Service.Drafts.{Rendering}
use base_agent.Flows.Service.Service
use base_agent.Flows.Service.Service.{
  CommitReadings, execution_token_for, commit_state, active_ended_drafts,
}

-- FLOW_COMPLETED and the events of `_FLOW_TERMINAL_EVENTS`.
abbrev pub is_flow_end : EventType → Bool
is_flow_end EventType.flow_completed = true
is_flow_end EventType.flow_failed = true
is_flow_end EventType.flow_cancelled = true
is_flow_end EventType.flow_interrupted = true
is_flow_end EventType.flow_limit_reached = true
is_flow_end _ = false

abbrev pub bit : Bool → ℕ
bit true = 1
bit false = 0

-- The number of events that say that the Flow Run has ended.
abbrev pub flow_ends : List EventType → ℕ
flow_ends [] = 0
flow_ends (type ∷ types) = bit (is_flow_end type) + flow_ends types

abbrev pub draft_types : List FlowEventDraft → List EventType
draft_types = map (λ d. d.type)

pub flow_ends-append : (xs ys : List EventType) → flow_ends (xs ++ ys) ≡ flow_ends xs + flow_ends ys
flow_ends-append [] ys = omega arith
flow_ends-append (x ∷ xs) ys = omega (arith, flow_ends-append xs ys)

-- One call of a method that moves a stored Flow Run on.
unfoldable pub serve :
    Rendering
    → FlowRepository
    → Option FlowExecutionLease
    → ℕ
    → Transition
    → Fields
    → CommitReadings
    → Result (FlowRepository × FlowRunState)
serve v repo lease id (starts now) metadata r = Service.start v repo lease id now r
serve v repo lease id (begins q d at now) metadata r =
    Service.begin_invocation v repo lease id q d at now r
serve v repo lease id (settles q at now) metadata r =
    Service.settle_invocation v repo lease id q at now r
serve v repo lease id (resumes i at now) metadata r =
    Service.resume_invocation v repo lease id i at now r
serve v repo lease id (completes output now) metadata r =
    Service.complete v repo lease id output now r
serve v repo lease id (ends_run fails error at now) metadata r =
    Service.fail v repo lease id error at now r
serve v repo lease id (ends_run cancels error at now) metadata r =
    Service.cancel v repo lease id error at now r
serve v repo lease id (ends_run interrupts error at now) metadata r =
    Service.interrupt v repo lease id error at now r
serve v repo lease id (ends_run reaches_limit error at now) metadata r =
    Service.reach_limit v repo lease id error metadata at now r

-- What a call that returned has done.
pub record Changed (repo : FlowRepository) (id : ℕ) (x : Transition) (next : FlowRepository)
    (state : FlowRunState) : Type 0 where
  pub current : FlowRunState
  pub drafts : List FlowEventDraft
  pub token : Option ℕ
  pub readings : CommitReadings
  pub persisted : List RuntimeEvent
  pub stored : lookup id repo.states ≡ some current
  pub applied : apply current x ≡ ok state
  pub committed :
      commit repo state current.revision drafts token readings.checked readings.stamps
      ≡ ok (next, persisted)
  pub ends : flow_ends (draft_types drafts) ≡ bit (is_terminal state.status)

pub commit_state-Changed :
    (repo : FlowRepository) (lease : Option FlowExecutionLease) (id owner : ℕ) (x : Transition)
    (current made : FlowRunState) (drafts : List FlowEventDraft) (r : CommitReadings)
    (next : FlowRepository) (state : FlowRunState)
    → get repo id ≡ ok current
    → apply current x ≡ ok made
    → flow_ends (draft_types drafts) ≡ bit (is_terminal made.status)
    → commit_state repo lease owner current made drafts r ≡ ok (next, state)
    → Changed repo id x next state
unfolding commit_state get
commit_state-Changed repo lease id owner x current made drafts r next state got applied ends h =
    let (token, issued, h1) = >>=-eq-ok (execution_token_for lease owner) _ h in
    let (stored, committed, h2) =
      >>=-eq-ok (commit repo made current.revision drafts token r.checked r.stamps) _ h1 in
    let same : made ≡ state = ap (λ k. k.1) (ok_inj h2) in
    subst (Changed repo id x next) same (record {
      current = current;
      drafts = drafts;
      token = token;
      readings = r;
      persisted = stored.1;
      stored = or_fail-ok (lookup id repo.states) Error.flow_run_not_found got;
      applied = applied;
      committed = committed ∙ ap (λ k. ok (k, stored.1)) (ap (λ k. k.0) (ok_inj h2));
      ends = ends;
    })
