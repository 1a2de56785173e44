-- ===== src/Flows/Lifecycle/Steps.antt =====
-- The transitions of a Flow Run, flows/lifecycle.py, as one step function.
use base_agent.Base.{ℕ, String, false, map, nat_eq, string_eq, Result, ok, ◌≡◌, refl, map}
use base_agent.Base.Distinct.{contains}
use base_agent.Models.Status.{RunStatus}
use base_agent.Flows.Contracts.{
  AgentInvocationRequest, AgentInvocationResult, FlowDefinition, validate_status_payload,
}
use base_agent.Flows.Lifecycle.State.{FlowRunState}
use base_agent.Flows.Lifecycle.Transitions.{
  start, begin_invocation, settle_invocation, resume_invocation, complete, fail, cancel, interrupt,
  reach_limit,
}
use base_agent.Flows.Lifecycle.Parts.{Parts}
use base_agent.Flows.Lifecycle.Valid.{start-Parts, complete-Parts, begin_invocation-Parts}
use base_agent.Flows.Lifecycle.Replaced.{settle_invocation-Parts, resume_invocation-Parts}
use base_agent.Flows.Lifecycle.Terminated.{terminate_run-Parts}

-- The four public methods that end a Flow Run in an error status.
pub data Ending : Type 0 where
  fails cancels interrupts reaches_limit : Ending

abbrev pub ending_status : Ending → RunStatus
ending_status fails = RunStatus.failed
ending_status cancels = RunStatus.cancelled
ending_status interrupts = RunStatus.interrupted
ending_status reaches_limit = RunStatus.limit_reached

-- One call of a transition method, with the times that it reads.
pub data Transition : Type 0 where
  starts : (now : ℕ) → Transition
  begins : AgentInvocationRequest → FlowDefinition → (at now : ℕ) → Transition
  settles : AgentInvocationResult → (at now : ℕ) → Transition
  resumes : (invocation_id : ℕ) → (at now : ℕ) → Transition
  completes : (output : String) → (now : ℕ) → Transition
  ends_run : Ending → (error : String) → (at now : ℕ) → Transition

unfoldable pub apply : FlowRunState → Transition → Result FlowRunState
apply s (starts now) = start s now
apply s (begins r d at now) = begin_invocation s r d at now
apply s (settles r at now) = settle_invocation s r at now
apply s (resumes id at now) = resume_invocation s id at now
apply s (completes output now) = complete s output now
apply s (ends_run fails error at now) = fail s error at now
apply s (ends_run cancels error at now) = cancel s error at now
apply s (ends_run interrupts error at now) = interrupt s error at now
apply s (ends_run reaches_limit error at now) = reach_limit s error at now

-- What a caller supplies: an invocation id that the Run has not used, which a fresh UUID is, and
-- a result that the constructor of AgentInvocationResult has accepted.
abbrev pub IsAdmissible : FlowRunState → Transition → Type 0
IsAdmissible s (begins r d at now) =
    contains r.invocation_id (map (λ i. i.id) s.invocations) ≡ false
IsAdmissible s (settles r at now) = validate_status_payload r ≡ ok tt
IsAdmissible s _ = Unit {0}

pub apply-Parts :
    (s : FlowRunState) (x : Transition) {t : FlowRunState}
    → Parts s
    → IsAdmissible s x
    → apply s x ≡ ok t
    → Parts t
unfolding apply
apply-Parts s (starts now) p a h = start-Parts s now p h
apply-Parts s (begins r d at now) p a h = begin_invocation-Parts s r d at now a p h
apply-Parts s (settles r at now) p a h = settle_invocation-Parts s r at now p h
apply-Parts s (resumes id at now) p a h = resume_invocation-Parts s id at now p h
apply-Parts s (completes output now) p a h = complete-Parts s output now p h
apply-Parts s (ends_run fails error at now) p a h =
    terminate_run-Parts s RunStatus.failed error at now refl p h
apply-Parts s (ends_run cancels error at now) p a h =
    terminate_run-Parts s RunStatus.cancelled error at now refl p h
apply-Parts s (ends_run interrupts error at now) p a h =
    terminate_run-Parts s RunStatus.interrupted error at now refl p h
apply-Parts s (ends_run reaches_limit error at now) p a h =
    terminate_run-Parts s RunStatus.limit_reached error at now refl p h
