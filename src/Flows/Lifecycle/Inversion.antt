-- ===== src/Flows/Lifecycle/Inversion.antt =====
-- What follows from a transition's success: the guards that it passed, and the state that it built.
use base_agent.Base.{
  ℕ, ◌+◌, ◌≤◌, String, true, false, none, some, List, length, nat_eq, string_eq, ok, ◌≡◌, refl, inl,
  inr, arith, Option-cases, Result-cases,
}
use base_agent.Base.Text.{is_blank}
use base_agent.Models.Status.{
  RunStatus, AgentResultStatus, is_running, is_waiting, is_terminal, result_to_run_status,
}
use base_agent.Flows.Contracts.{
  AgentInvocationRequest, AgentInvocationResult, FlowDefinition, validate_status_payload,
}
use base_agent.Flows.Lifecycle.Invocation.{
  AgentInvocation, settle, resume, terminate, validate_result_identity, termination_result,
}
use base_agent.Flows.Lifecycle.State.{FlowRunState, active_invocation}
use base_agent.Flows.Lifecycle.Transitions.{
  begin_invocation, settle_invocation, resume_invocation, terminate_run, terminate_active,
  store_begun, store_settled, store_resumed, store_terminated,
}

pub begin_invocation-ok :
    (s : FlowRunState) (r : AgentInvocationRequest) (d : FlowDefinition) (at now : ℕ)
    {t : FlowRunState}
    → begin_invocation s r d at now ≡ ok t
    → (is_running s.status ≡ true)
      × (s.active_invocation_id ≡ none)
      × (r.flow_run_id ≡ s.run_id)
      × (r.sequence ≡ length s.invocations + 1)
      × (length s.invocations + 1 ≤ s.budget.max_invocations)
      × (t ≡ store_begun s r at now)
unfolding begin_invocation
begin_invocation-ok s r d at now h = ground arith

pub settle_invocation-ok :
    (s : FlowRunState) (r : AgentInvocationResult) (at now : ℕ) {t : FlowRunState}
    → settle_invocation s r at now ≡ ok t
    → (active : AgentInvocation) × (settled : AgentInvocation) × (active_invocation s ≡ some active)
      × (settle active r at ≡ ok settled)
      × (t ≡ store_settled s settled now)
unfolding settle_invocation
settle_invocation-ok s r at now {t} h = elim (Option-cases (active_invocation s)) [
  | inl e ↦ absurd (ground arith)
  | inr (active, e) ↦ elim (Result-cases (settle active r at)) [
    | inl (x, f) ↦ absurd (ground arith)
    | inr (settled, f) ↦ (active, settled, e, f, ground arith)
  ]
]

pub settle-ok :
    (i : AgentInvocation) (r : AgentInvocationResult) (now : ℕ) {j : AgentInvocation}
    → settle i r now ≡ ok j
    → (validate_result_identity i r ≡ ok tt)
      × (j ≡ record i { status = result_to_run_status r.status; result = some r; updated_at = now })
unfolding settle
settle-ok i r now h = ground arith

pub resume-ok :
    (i : AgentInvocation) (now : ℕ) {j : AgentInvocation}
    → resume i now ≡ ok j
    → (is_waiting i.status ≡ true) × (j ≡ record i { status = RunStatus.running; updated_at = now })
unfolding resume
resume-ok i now h = ground arith

pub resume_invocation-ok :
    (s : FlowRunState) (id at now : ℕ) {t : FlowRunState}
    → resume_invocation s id at now ≡ ok t
    → (active : AgentInvocation) × (active_invocation s ≡ some active)
      × (active.id ≡ id)
      × (is_waiting active.status ≡ true)
      × (t ≡ store_resumed s (record active { status = RunStatus.running; updated_at = at }) now)
unfolding resume_invocation resume
resume_invocation-ok s id at now {t} h = elim (Option-cases (active_invocation s)) [
  | inl e ↦ absurd (ground arith)
  | inr (active, e) ↦ (active, e, ground arith, ground arith, ground arith)
]

-- The status and the result that `terminate` gives.
pub terminate-ok :
    (i : AgentInvocation) (status : RunStatus) (error : String) (now : ℕ) {j : AgentInvocation}
    → terminate i status error now ≡ ok j
    → (outcome : AgentResultStatus) × (result_to_run_status outcome ≡ status)
      × (validate_status_payload (termination_result i outcome error) ≡ ok tt)
      × (j ≡ record i {
        status = status;
        result = some (termination_result i outcome error);
        updated_at = now;
      })
unfolding terminate
terminate-ok i RunStatus.failed error now h =
    (AgentResultStatus.failed, refl, ground arith, ground arith)
terminate-ok i RunStatus.cancelled error now h =
    (AgentResultStatus.cancelled, refl, ground arith, ground arith)
terminate-ok i RunStatus.interrupted error now h =
    (AgentResultStatus.interrupted, refl, ground arith, ground arith)
terminate-ok i RunStatus.limit_reached error now h =
    (AgentResultStatus.limit_reached, refl, ground arith, ground arith)
terminate-ok i RunStatus.created error now h = absurd (cc)
terminate-ok i RunStatus.running error now h = absurd (cc)
terminate-ok i RunStatus.completed error now h = absurd (cc)
terminate-ok i RunStatus.waiting error now h = absurd (cc)

pub terminate_run-ok :
    (s : FlowRunState) (status : RunStatus) (error : String) (at now : ℕ) {t : FlowRunState}
    → terminate_run s status error at now ≡ ok t
    → (invocations : List AgentInvocation) × (is_terminal s.status ≡ false)
      × (is_blank error ≡ false)
      × (terminate_active (active_invocation s) status error at s.invocations ≡ ok invocations)
      × (t ≡ store_terminated s status error invocations now)
unfolding terminate_run
terminate_run-ok s status error at now {t} h =
    elim (Result-cases (terminate_active (active_invocation s) status error at s.invocations)) [
      | inl (x, f) ↦ absurd (ground arith)
      | inr (is, f) ↦ (is, ground arith, ground arith, f, ground arith)
    ]
