-- ===== src/Flows/Lifecycle/Valid.antt =====
-- The invariant of flows/lifecycle.py as a record, and the transitions that add or end an invocation.
use base_agent.Base.{
  ℕ, String, true, false, Option, none, some, [], ◌∷◌, map, map-append, all_of-snoc, All, is_some,
  nat_eq, string_eq, ok, ◌≡◌, refl, sym, arith, length-append, length-map, map, ==_refl, subst,
}
use base_agent.Base.Distinct.{all_distinct, contains, all_distinct-snoc}
use base_agent.Models.Status.{is_running}
use base_agent.Flows.Contracts.{
  AgentInvocationRequest, AgentInvocationResult, FlowDefinition, validate_status_payload,
}
use base_agent.Flows.Lifecycle.Invocation.{AgentInvocation, validate_result}
use base_agent.Flows.Lifecycle.State.{
  FlowRunState, active_invocation, is_range_from, validate_status, validate_state,
}
use base_agent.Flows.Lifecycle.Transitions.{
  start, begin_invocation, complete, initial_state, create, deadline_for, store_begun,
  invocation_of,
}
use base_agent.Flows.Lifecycle.Replace.{find_invocation-snoc}
use base_agent.Flows.Lifecycle.Parts.{Parts, Parts-validate_state, is_range_from-snoc}
use base_agent.Flows.Lifecycle.Inversion.{begin_invocation-ok}

-- What an invocation carries if its validator accepts it and its result's validator its result.
abbrev pub ResultAccepted : Option AgentInvocationResult → Type 0
ResultAccepted none = Unit
ResultAccepted (some r) = validate_status_payload r ≡ ok tt

pub record IsValidInvocation (i : AgentInvocation) : Type 0 where
  pub accepted : validate_result i ≡ ok tt
  pub payload : ResultAccepted i.result

pub record IsValid (s : FlowRunState) : Type 0 where
  pub accepted : validate_state s ≡ ok tt
  pub invocations : All IsValidInvocation s.invocations

-- A new Flow Run is valid, since the constructor's validator accepts it.
deadline_for-is_some :
    (timeout : Option ℕ) (now : ℕ) → is_some (deadline_for timeout now) ≡ is_some timeout
deadline_for-is_some none now = refl
deadline_for-is_some (some n) now = refl

pub initial_state-Parts : (d : FlowDefinition) (run_id now : ℕ) → Parts (initial_state d run_id now)
unfolding validate_status all_distinct is_range_from
initial_state-Parts d run_id now = ground (arith, deadline_for-is_some d.budget.timeout_seconds now)

pub create_total :
    (d : FlowDefinition) (run_id now : ℕ) → create d run_id now ≡ ok (initial_state d run_id now)
unfolding create
create_total d run_id now = rw (Parts-validate_state _ (initial_state-Parts d run_id now))

pub start-Parts :
    (s : FlowRunState) (now : ℕ) {t : FlowRunState} → Parts s → start s now ≡ ok t → Parts t
unfolding start validate_status
start-Parts s now p h = ground arith

pub complete-Parts :
    (s : FlowRunState) (output : String) (now : ℕ) {t : FlowRunState}
    → Parts s
    → complete s output now ≡ ok t
    → Parts t
unfolding complete validate_status
complete-Parts s output now p h = ground arith

begun_status :
    (s : FlowRunState) (r : AgentInvocationRequest) (at now : ℕ)
    → is_running s.status ≡ true
    → contains r.invocation_id (map (λ i. i.id) s.invocations) ≡ false
    → let t = store_begun s r at now in
      validate_status t.status t.invocations t.active_invocation_id
        (active_invocation t)
        t.output
        t.error
      ≡ ok tt
unfolding validate_status
begun_status s r at now run f =
    rw (find_invocation-snoc (invocation_of r s at) s.invocations f) (ground arith)

pub begin_invocation-Parts :
    (s : FlowRunState) (r : AgentInvocationRequest) (d : FlowDefinition) (at now : ℕ)
    {t : FlowRunState}
    → contains r.invocation_id (map (λ i. i.id) s.invocations) ≡ false
    → Parts s
    → begin_invocation s r d at now ≡ ok t
    → Parts t
begin_invocation-Parts s r d at now f p h =
    let e = begin_invocation-ok s r d at now h in
    subst Parts (sym e.5) (record {
      distinct =
          rw (map-append _ s.invocations _) (all_distinct-snoc _ r.invocation_id p.distinct f);
      contiguous = rw (map-append _ s.invocations _) (
          is_range_from-snoc 1 r.sequence _ p.contiguous
            (omega (arith, length-map {0, 0} (λ (i : AgentInvocation). i.sequence) s.invocations)));
      within = omega (arith, length-append s.invocations (invocation_of r s at ∷ []));
      deadline = p.deadline;
      owned = all_of-snoc _ s.invocations _ p.owned (==_refl s.run_id);
      status = begun_status s r at now e.0 f;
    })
