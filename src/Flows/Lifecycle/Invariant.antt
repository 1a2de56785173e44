-- ===== src/Flows/Lifecycle/Invariant.antt =====
-- The invariant of a Flow Run, flows/lifecycle.py: what its validators check, along the transitions.
use base_agent.Base.{
  ℕ, String, Option, none, some, List, [], ◌∷◌, map, All, All-append, ◌==◌, nat_eq, string_eq, ok,
  ◌≡◌, refl, sym, ◌∙◌, inl, inr, arith, map, Result-cases, ok_inj, Bool-cases, if◌then◌else◌, subst,
}
use base_agent.Models.Status.{RunStatus}
use base_agent.Flows.Contracts.{
  AgentInvocationRequest, AgentInvocationResult, FlowDefinition, validate_status_payload,
}
use base_agent.Flows.Lifecycle.Invocation.{
  AgentInvocation, settle, terminate, validate_result, termination_result, termination_result,
}
use base_agent.Flows.Lifecycle.State.{FlowRunState, active_invocation}
use base_agent.Flows.Lifecycle.Transitions.{
  start, begin_invocation, settle_invocation, resume_invocation, complete, terminate_run,
  terminate_active, create, invocation_of,
}
use base_agent.Flows.Lifecycle.Replace.{find_invocation-All, All-replace_invocation}
use base_agent.Flows.Lifecycle.Parts.{validate_state-Parts, Parts-validate_state}
use base_agent.Flows.Lifecycle.Inversion.{
  begin_invocation-ok, settle_invocation-ok, settle-ok, resume_invocation-ok, terminate-ok,
  terminate_run-ok,
}
use base_agent.Flows.Lifecycle.Valid.{IsValid, IsValidInvocation, initial_state-Parts, create_total}
use base_agent.Flows.Lifecycle.Replaced.{active_invocation-found}
use base_agent.Flows.Lifecycle.Accepted.{settled_accepted, terminated_accepted, resumed_accepted}
use base_agent.Flows.Lifecycle.Steps.{
  Transition, starts, begins, settles, resumes, completes, ends_run, fails, cancels, interrupts,
  reaches_limit, apply, apply-Parts, IsAdmissible,
}

settle-IsValidInvocation :
    (i : AgentInvocation) (r : AgentInvocationResult) (now : ℕ) {j : AgentInvocation}
    → validate_status_payload r ≡ ok tt
    → settle i r now ≡ ok j
    → IsValidInvocation j
settle-IsValidInvocation i r now v h =
    let (identity, built) = settle-ok i r now h in
    subst IsValidInvocation (sym built)
      (record { accepted = settled_accepted i r now identity; payload = v })

begin-IsValidInvocation :
    (s : FlowRunState) (r : AgentInvocationRequest) (at : ℕ)
    → IsValidInvocation (invocation_of r s at)
unfolding validate_result
begin-IsValidInvocation s r at = record { accepted = refl; payload = tt }

All-swap :
    (id : ℕ) (j : AgentInvocation) (is : List AgentInvocation)
    → All IsValidInvocation is
    → IsValidInvocation j
    → All IsValidInvocation (map (λ i. if i.id == id then j else i) is)
All-swap id j [] v w = tt
All-swap id j (x ∷ is) v w = (head, All-swap id j is v.1 w)
  where
    head : IsValidInvocation (if x.id == id then j else x)
    head = elim (Bool-cases (x.id == id)) [ inl same ↦ rw same w | inr other ↦ rw other v.0 ]

-- The invocations of the next state are valid, for each transition.
start-invocations :
    (s : FlowRunState) (now : ℕ) {t : FlowRunState}
    → start s now ≡ ok t
    → t.invocations ≡ s.invocations
unfolding start
start-invocations s now h = ground arith

complete-invocations :
    (s : FlowRunState) (output : String) (now : ℕ) {t : FlowRunState}
    → complete s output now ≡ ok t
    → t.invocations ≡ s.invocations
unfolding complete
complete-invocations s output now h = ground arith

abbrev pub AllValid : FlowRunState → Type 0
AllValid s = All IsValidInvocation s.invocations

begin-AllValid :
    (s : FlowRunState) (r : AgentInvocationRequest) (d : FlowDefinition) (at now : ℕ)
    {t : FlowRunState}
    → AllValid s
    → begin_invocation s r d at now ≡ ok t
    → AllValid t
begin-AllValid s r d at now v h =
    subst AllValid (sym (begin_invocation-ok s r d at now h).5)
      (All-append IsValidInvocation s.invocations _ v (begin-IsValidInvocation s r at, tt))

settle-AllValid :
    (s : FlowRunState) (r : AgentInvocationResult) (at now : ℕ) {t : FlowRunState}
    → AllValid s
    → validate_status_payload r ≡ ok tt
    → settle_invocation s r at now ≡ ok t
    → AllValid t
settle-AllValid s r at now v a h =
    let (active, j, e, settles_to, built) = settle_invocation-ok s r at now h in
    subst AllValid (sym built) (
      All-replace_invocation IsValidInvocation j s.invocations v
        (settle-IsValidInvocation active r at a settles_to))

-- The active invocation is one of the invocations.
pub active-IsValidInvocation :
    (s : FlowRunState) (active : AgentInvocation)
    → AllValid s
    → active_invocation s ≡ some active
    → IsValidInvocation active
active-IsValidInvocation s active v e =
    find_invocation-All IsValidInvocation active.id s.invocations active
      (active_invocation-found s active e).1 v

resume-AllValid :
    (s : FlowRunState) (id at now : ℕ) {t : FlowRunState}
    → AllValid s
    → resume_invocation s id at now ≡ ok t
    → AllValid t
resume-AllValid s id at now v h =
    let (active, e, same_id, waits, built) = resume_invocation-ok s id at now h in
    let old : IsValidInvocation active = active-IsValidInvocation s active v e in
    subst AllValid (sym built) (
      All-replace_invocation IsValidInvocation _ s.invocations v (record {
        accepted = resumed_accepted active at waits old.accepted;
        payload = old.payload;
      }))

terminate-IsValidInvocation :
    (i : AgentInvocation) (status : RunStatus) (error : String) (now : ℕ) {j : AgentInvocation}
    → terminate i status error now ≡ ok j
    → IsValidInvocation j
terminate-IsValidInvocation i status error now h =
    let (outcome, maps, payload, built) = terminate-ok i status error now h in
    subst IsValidInvocation (sym built) (record {
      accepted =
          subst
            (λ x.
              validate_result (record i {
                status = x;
                result = some (termination_result i outcome error);
                updated_at = now;
              })
              ≡ ok tt)
            maps (terminated_accepted i outcome error now);
      payload = payload;
    })

terminate_active-All :
    (active : Option AgentInvocation) (status : RunStatus) (error : String) (at : ℕ)
    (is js : List AgentInvocation)
    → All IsValidInvocation is
    → terminate_active active status error at is ≡ ok js
    → All IsValidInvocation js
unfolding terminate_active
terminate_active-All none status error at is js v h = subst (All IsValidInvocation) (ok_inj h) v
terminate_active-All (some active) status error at is js v h =
    elim (Result-cases (terminate active status error at)) [
      | inl (x, f) ↦ absurd (ground arith)
      | inr (j, f) ↦
          subst (All IsValidInvocation) (ok_inj (sym (stored j f) ∙ h))
            (All-swap active.id j is v (terminate-IsValidInvocation active status error at f))
    ]
  where
    stored :
        (j : AgentInvocation)
        → terminate active status error at ≡ ok j
        → terminate_active (some active) status error at is
          ≡ ok (map (λ i. if i.id == active.id then j else i) is)
    stored j f = rw f

terminate_run-AllValid :
    (s : FlowRunState) (status : RunStatus) (error : String) (at now : ℕ) {t : FlowRunState}
    → AllValid s
    → terminate_run s status error at now ≡ ok t
    → AllValid t
terminate_run-AllValid s status error at now v h =
    let (is, live, text, ends, built) = terminate_run-ok s status error at now h in
    subst AllValid (sym built)
      (terminate_active-All (active_invocation s) status error at s.invocations is v ends)

apply-AllValid :
    (s : FlowRunState) (x : Transition) {t : FlowRunState}
    → AllValid s
    → IsAdmissible s x
    → apply s x ≡ ok t
    → AllValid t
unfolding apply
apply-AllValid s (starts now) v a h =
    subst (All IsValidInvocation) (sym (start-invocations s now h)) v
apply-AllValid s (begins r d at now) v a h = begin-AllValid s r d at now v h
apply-AllValid s (settles r at now) v a h = settle-AllValid s r at now v a h
apply-AllValid s (resumes id at now) v a h = resume-AllValid s id at now v h
apply-AllValid s (completes output now) v a h =
    subst (All IsValidInvocation) (sym (complete-invocations s output now h)) v
apply-AllValid s (ends_run fails error at now) v a h = terminate_run-AllValid s _ error at now v h
apply-AllValid s (ends_run cancels error at now) v a h = terminate_run-AllValid s _ error at now v h
apply-AllValid s (ends_run interrupts error at now) v a h =
    terminate_run-AllValid s _ error at now v h
apply-AllValid s (ends_run reaches_limit error at now) v a h =
    terminate_run-AllValid s _ error at now v h

-- A transition that succeeds in a valid state, on an unused invocation id or an accepted result
-- where it takes one, gives a state that both validators accept, though the code does not run them.
pub apply-IsValid :
    (s : FlowRunState) (x : Transition) (t : FlowRunState)
    → IsValid s
    → IsAdmissible s x
    → apply s x ≡ ok t
    → IsValid t
apply-IsValid s x t v a h = record {
  accepted = Parts-validate_state t (apply-Parts s x (validate_state-Parts s v.accepted) a h);
  invocations = apply-AllValid s x v.invocations a h;
}

-- The states that calls reach from a new Flow Run.
pub data Reachable (d : FlowDefinition) : FlowRunState → Type 0 where
  created : (run_id now : ℕ) {s : FlowRunState} → create d run_id now ≡ ok s → Reachable d s
  stepped :
      {s : FlowRunState} (x : Transition) {t : FlowRunState}
      → Reachable d s
      → IsAdmissible s x
      → apply s x ≡ ok t
      → Reachable d t

created-IsValid :
    (d : FlowDefinition) (run_id now : ℕ) {s : FlowRunState}
    → create d run_id now ≡ ok s
    → IsValid s
created-IsValid d run_id now h =
    subst IsValid (ok_inj (sym (create_total d run_id now) ∙ h)) (record {
      accepted = Parts-validate_state _ (initial_state-Parts d run_id now);
      invocations = tt;
    })

-- Every state that a new Flow Run reaches by transitions that succeed, on unused invocation ids and
-- accepted results, is accepted by the validator of FlowRunState, and each invocation in it by its own.
pub Reachable-IsValid : (d : FlowDefinition) {s : FlowRunState} → Reachable d s → IsValid s
Reachable-IsValid d (created run_id now h) = created-IsValid d run_id now h
Reachable-IsValid d (stepped x r a h) = apply-IsValid _ x _ (Reachable-IsValid d r) a h
