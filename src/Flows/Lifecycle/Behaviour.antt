-- ===== src/Flows/Lifecycle/Behaviour.antt =====
-- What a call does to a Flow Run: terminal states, revisions, identity, and the ways to an end.
use base_agent.Base.{
  ℕ, ◌+◌, String, true, false, ◌||◌, Option, none, some, List, [], ◌∷◌, map, is_nil, ◌==◌, nat_eq,
  string_eq, Error, ok, err, ◌≡◌, refl, sym, ◌∙◌, ap, inl, inr, arith, map, Option-cases, Succeeds,
  Bool-cases, ◌>>=◌, if◌then◌else◌, subst,
}
use base_agent.Base.Text.{is_blank, is_empty_text-is_blank}
use base_agent.Base.Distinct.{all_distinct}
use base_agent.Models.Status.{RunStatus, AgentResultStatus, is_running, is_waiting, is_terminal}
use base_agent.Flows.Contracts.{AgentInvocationResult, validate_status_payload, is_failed_result}
use base_agent.Flows.Lifecycle.Invocation.{
  AgentInvocation, terminate, artifacts_of_result, termination_result, termination_result,
}
use base_agent.Flows.Lifecycle.State.{FlowRunState, active_invocation, active_in, validate_status}
use base_agent.Flows.Lifecycle.Transitions.{
  start, begin_invocation, settle_invocation, resume_invocation, complete, terminate_run,
  terminate_active, evolve, store_terminated,
}
use base_agent.Flows.Lifecycle.Parts.{Parts, validate_state-Parts}
use base_agent.Flows.Lifecycle.Inversion.{
  begin_invocation-ok, settle_invocation-ok, resume_invocation-ok, terminate_run-ok,
}
use base_agent.Flows.Lifecycle.Valid.{IsValid, IsValidInvocation, ResultAccepted}
use base_agent.Flows.Lifecycle.Steps.{
  Transition, starts, begins, settles, resumes, completes, ends_run, Ending, fails, cancels,
  interrupts, reaches_limit, ending_status, apply,
}
use base_agent.Flows.Lifecycle.Invariant.{active-IsValidInvocation}

-- In a terminal state every transition is refused, whatever its arguments are.
pub apply-terminal :
    (s : FlowRunState) (x : Transition)
    → is_terminal s.status ≡ true
    → apply s x ≡ err Error.invalid_flow_transition
unfolding apply start begin_invocation settle_invocation resume_invocation complete terminate_run
apply-terminal s (starts now) h = ground arith
apply-terminal s (begins r d at now) h = ground arith
apply-terminal s (settles r at now) h = ground arith
apply-terminal s (resumes id at now) h = ground arith
apply-terminal s (completes output now) h = ground arith
apply-terminal s (ends_run fails error at now) h = ground arith
apply-terminal s (ends_run cancels error at now) h = ground arith
apply-terminal s (ends_run interrupts error at now) h = ground arith
apply-terminal s (ends_run reaches_limit error at now) h = ground arith

-- What every transition leaves as it was, and the revision that it counts.
pub record Follows (s t : FlowRunState) : Type 0 where
  pub run_id : t.run_id ≡ s.run_id
  pub definition_id : t.definition_id ≡ s.definition_id
  pub definition_version : t.definition_version ≡ s.definition_version
  pub definition_fingerprint : t.definition_fingerprint ≡ s.definition_fingerprint
  pub budget : t.budget ≡ s.budget
  pub deadline_at : t.deadline_at ≡ s.deadline_at
  pub created_at : t.created_at ≡ s.created_at
  pub revision : t.revision ≡ s.revision + 1

Follows-refl :
    (s t : FlowRunState)
    → t
      ≡ evolve
          (record s {
            status = t.status;
            invocations = t.invocations;
            active_invocation_id = t.active_invocation_id;
            output = t.output;
            error = t.error;
          })
          t.updated_at
    → Follows s t
Follows-refl s t e = record {
  run_id = ap (λ k. k.run_id) e;
  definition_id = ap (λ k. k.definition_id) e;
  definition_version = ap (λ k. k.definition_version) e;
  definition_fingerprint = ap (λ k. k.definition_fingerprint) e;
  budget = ap (λ k. k.budget) e;
  deadline_at = ap (λ k. k.deadline_at) e;
  created_at = ap (λ k. k.created_at) e;
  revision = ap (λ k. k.revision) e;
}

-- Every transition that succeeds moves the revision on by one and keeps the Run's identity.
pub apply-Follows :
    (s : FlowRunState) (x : Transition) (t : FlowRunState) → apply s x ≡ ok t → Follows s t
unfolding apply start complete
apply-Follows s (starts now) t h = ground arith
apply-Follows s (begins r d at now) t h =
    subst (Follows s) (sym (begin_invocation-ok s r d at now h).5) (Follows-refl s _ refl)
apply-Follows s (settles r at now) t h =
    subst (Follows s) (sym (settle_invocation-ok s r at now h).4) (Follows-refl s _ refl)
apply-Follows s (resumes id at now) t h =
    subst (Follows s) (sym (resume_invocation-ok s id at now h).4) (Follows-refl s _ refl)
apply-Follows s (completes output now) t h = ground arith
apply-Follows s (ends_run fails error at now) t h =
    subst (Follows s) (sym (terminate_run-ok s _ error at now h).4) (Follows-refl s _ refl)
apply-Follows s (ends_run cancels error at now) t h =
    subst (Follows s) (sym (terminate_run-ok s _ error at now h).4) (Follows-refl s _ refl)
apply-Follows s (ends_run interrupts error at now) t h =
    subst (Follows s) (sym (terminate_run-ok s _ error at now h).4) (Follows-refl s _ refl)
apply-Follows s (ends_run reaches_limit error at now) t h =
    subst (Follows s) (sym (terminate_run-ok s _ error at now h).4) (Follows-refl s _ refl)

-- The artifacts that a termination hands on are distinct, since an accepted result had them.
artifacts_distinct :
    (o : Option AgentInvocationResult)
    → ResultAccepted o
    → all_distinct (map (λ a. a.id) (artifacts_of_result o)) ≡ true
unfolding validate_status_payload all_distinct
artifacts_distinct none v = refl
artifacts_distinct (some r) v = ground arith

termination_accepted :
    (i : AgentInvocation) (outcome : AgentResultStatus) (error : String)
    → is_failed_result outcome ≡ true
    → ResultAccepted i.result
    → is_blank error ≡ false
    → validate_status_payload (termination_result i outcome error) ≡ ok tt
unfolding validate_status_payload
termination_accepted i outcome error f v text =
    ground (arith, artifacts_distinct i.result v, is_empty_text-is_blank error text)

abbrev ending_outcome : Ending → AgentResultStatus
ending_outcome fails = AgentResultStatus.failed
ending_outcome cancels = AgentResultStatus.cancelled
ending_outcome interrupts = AgentResultStatus.interrupted
ending_outcome reaches_limit = AgentResultStatus.limit_reached

-- An invocation that runs or waits, with an accepted result, can be terminated.
terminate_total :
    (i : AgentInvocation) (e : Ending) (error : String) (at : ℕ)
    → IsValidInvocation i
    → (is_running i.status || is_waiting i.status) ≡ true
    → is_blank error ≡ false
    → Succeeds (terminate i (ending_status e) error at)
unfolding terminate
terminate_total i e error at v live text = (
  record i {
    status = ending_status e;
    result = some (termination_result i (ending_outcome e) error);
    updated_at = at;
  },
  go e,
)
  where
    go :
        (e : Ending)
        → terminate i (ending_status e) error at
          ≡ ok (record i {
            status = ending_status e;
            result = some (termination_result i (ending_outcome e) error);
            updated_at = at;
          })
    go fails =
        ground (arith, termination_accepted i AgentResultStatus.failed error refl v.payload text)
    go cancels =
        ground (arith, termination_accepted i AgentResultStatus.cancelled error refl v.payload text)
    go interrupts =
        ground
          (arith, termination_accepted i AgentResultStatus.interrupted error refl v.payload text)
    go reaches_limit =
        ground
          (arith, termination_accepted i AgentResultStatus.limit_reached error refl v.payload text)

active_in-nil :
    (id : Option ℕ) (is : List AgentInvocation) → is_nil is ≡ true → active_in id is ≡ none
active_in-nil none is h = refl
active_in-nil (some id) [] h = refl
active_in-nil (some id) (i ∷ is) h = cc

active_status_live :
    (status : RunStatus) (is : List AgentInvocation) (id : Option ℕ) (active : AgentInvocation)
    (output error : Option String)
    → validate_status status is id (some active) output error ≡ ok tt
    → is_nil is ≡ false
    → is_terminal status ≡ false
    → (is_running active.status || is_waiting active.status) ≡ true
unfolding validate_status
active_status_live status is id active output error v n h = ground arith

-- The active invocation of an accepted state that is not terminal runs or waits.
active_live :
    (s : FlowRunState) (active : AgentInvocation)
    → Parts s
    → is_terminal s.status ≡ false
    → active_invocation s ≡ some active
    → (is_running active.status || is_waiting active.status) ≡ true
active_live s active p h e = elim (Bool-cases (is_nil s.invocations)) [
  | inl empty ↦ absurd (cc (active_in-nil s.active_invocation_id s.invocations empty, e))
  | inr full ↦
      active_status_live s.status s.invocations s.active_invocation_id active s.output s.error
        (subst
          (λ o.
            validate_status s.status s.invocations s.active_invocation_id o s.output s.error
            ≡ ok tt)
          e p.status)
        full h
]

terminate_active_total :
    (s : FlowRunState) (e : Ending) (error : String) (at : ℕ)
    → IsValid s
    → is_terminal s.status ≡ false
    → is_blank error ≡ false
    → Succeeds (terminate_active (active_invocation s) (ending_status e) error at s.invocations)
unfolding terminate_active
terminate_active_total s e error at v live text = elim (Option-cases (active_invocation s)) [
  | inl idle ↦ (s.invocations, rw (idle, terminate_active) refl)
  | inr (active, found) ↦
      let (j, f) =
        terminate_total active e error at (active-IsValidInvocation s active v.invocations found)
          (active_live s active (validate_state-Parts s v.accepted) live found) text in
      (
        map (λ i. if i.id == active.id then j else i) s.invocations,
        ap (λ o. terminate_active o (ending_status e) error at s.invocations) found
            ∙ ap (λ r. r >>= λ t. ok (map (λ i. if i.id == active.id then t else i) s.invocations))
                f,
      )
]

terminate_run_total :
    (s : FlowRunState) (e : Ending) (error : String) (at now : ℕ)
    → IsValid s
    → is_terminal s.status ≡ false
    → is_blank error ≡ false
    → Succeeds (terminate_run s (ending_status e) error at now)
unfolding terminate_run
terminate_run_total s e error at now v live text =
    let (is, f) = terminate_active_total s e error at v live text in
    (store_terminated s (ending_status e) error is now, rw (live, text, f) refl)

-- A valid Flow Run that has not ended can always be ended, in each of the four ways.
pub apply-ends_run_total :
    (s : FlowRunState) (e : Ending) (error : String) (at now : ℕ)
    → IsValid s
    → is_terminal s.status ≡ false
    → is_blank error ≡ false
    → Succeeds (apply s (ends_run e error at now))
unfolding apply
apply-ends_run_total s fails error at now v live text =
    terminate_run_total s fails error at now v live text
apply-ends_run_total s cancels error at now v live text =
    terminate_run_total s cancels error at now v live text
apply-ends_run_total s interrupts error at now v live text =
    terminate_run_total s interrupts error at now v live text
apply-ends_run_total s reaches_limit error at now v live text =
    terminate_run_total s reaches_limit error at now v live text
