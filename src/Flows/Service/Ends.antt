-- ===== src/Flows/Service/Ends.antt =====
-- The methods of FlowLifecycle, flows/service.py, one by one.
use base_agent.Base.{
  ℕ, ◌+◌, String, true, false, Option, none, some, List, [], ◌∷◌, ◌++◌, find, last_of, ◌==◌, nat_eq,
  string_eq, Error, ok, >>=-eq-ok, ok_inj, or_fail, ◌≡◌, refl, sym, ap, ◌∙◌, arith,
}
use base_agent.Models.Json.{Fields, end}
use base_agent.Models.Status.{AgentResultStatus, is_terminal}
use base_agent.Flows.Contracts.{AgentInvocationRequest, AgentInvocationResult, FlowDefinition}
use base_agent.Flows.Lease.{FlowExecutionLease}
use base_agent.Flows.Lifecycle.Invocation.{AgentInvocation}
use base_agent.Flows.Lifecycle.State.{FlowRunState, active_invocation}
use base_agent.Flows.Lifecycle.Transitions
use base_agent.Flows.Lifecycle.Transitions.{store_settled}
use base_agent.Flows.Lifecycle.Inversion.{
  begin_invocation-ok, settle_invocation-ok, resume_invocation-ok, terminate_run-ok,
}
use base_agent.Flows.Lifecycle.Steps.{
  Ending, fails, cancels, interrupts, reaches_limit, ending_status, Transition, starts, begins,
  settles, resumes, completes, ends_run, apply,
}
use base_agent.Flows.Repository.Store.{FlowRepository, FlowEventDraft, get}
use base_agent.Flows.Service.Drafts.{
  Rendering, settled_drafts, ended_draft, invocation_result_event, flow_terminal_event,
  invocation_terminal_event,
}
use base_agent.Flows.Service.Service
use base_agent.Flows.Service.Service.{CommitReadings, commit_state, active_ended_drafts}
use base_agent.Flows.Service.Calls.{
  is_flow_end, bit, flow_ends, flow_ends-append, draft_types, serve, Changed, commit_state-Changed,
}

result_goes_on : (status : AgentResultStatus) → is_flow_end (invocation_result_event status) ≡ false
result_goes_on AgentResultStatus.completed = refl
result_goes_on AgentResultStatus.failed = refl
result_goes_on AgentResultStatus.cancelled = refl
result_goes_on AgentResultStatus.interrupted = refl
result_goes_on AgentResultStatus.limit_reached = refl
result_goes_on AgentResultStatus.waiting = refl

settled_goes_on :
    (v : Rendering) (q : AgentInvocationResult) (settled : AgentInvocation) (s : FlowRunState)
    → flow_ends (draft_types (settled_drafts v q settled s)) ≡ 0
settled_goes_on v q settled s = ground (arith, result_goes_on q.status)

stored_goes_on :
    (s : FlowRunState) (settled : AgentInvocation) (now : ℕ)
    → is_terminal (store_settled s settled now).status ≡ false
stored_goes_on s settled now = ground arith

ending_goes_on :
    (v : Rendering) (e : Ending) (active : Option AgentInvocation) (s : FlowRunState)
    {drafts : List FlowEventDraft}
    → active_ended_drafts v e active s ≡ ok drafts
    → flow_ends (draft_types drafts) ≡ 0
unfolding active_ended_drafts
ending_goes_on v e none s h = ap (λ k. flow_ends (draft_types k)) (sym (ok_inj h))
ending_goes_on v e (some active) s {drafts} h =
    let (terminated, found, h1) =
      >>=-eq-ok (or_fail (find (λ i. i.id == active.id) s.invocations) Error.stop_iteration) _ h in
    ap (λ k. flow_ends (draft_types k)) (sym (ok_inj h1)) ∙ plain e
  where
    plain : (e : Ending) → bit (is_flow_end (invocation_terminal_event e)) + 0 ≡ 0
    plain fails = omega arith
    plain cancels = omega arith
    plain interrupts = omega arith
    plain reaches_limit = omega arith

draft_types-append :
    (xs ys : List FlowEventDraft) → draft_types (xs ++ ys) ≡ draft_types xs ++ draft_types ys
draft_types-append [] ys = refl
draft_types-append (x ∷ xs) ys = ap (λ k. x.type ∷ k) (draft_types-append xs ys)

end_is_one :
    (v : Rendering) (e : Ending) (s : FlowRunState) (metadata : Fields) (now : ℕ)
    → bit (is_flow_end (flow_terminal_event e)) ≡ bit (is_terminal (ending_status e))
end_is_one v fails s metadata now = refl
end_is_one v cancels s metadata now = refl
end_is_one v interrupts s metadata now = refl
end_is_one v reaches_limit s metadata now = refl

apply-ends_run :
    (s : FlowRunState) (e : Ending) (error : String) (at now : ℕ)
    → apply s (ends_run e error at now) ≡ Transitions.terminate_run s (ending_status e) error at now
unfolding apply
apply-ends_run s fails error at now = refl
apply-ends_run s cancels error at now = refl
apply-ends_run s interrupts error at now = refl
apply-ends_run s reaches_limit error at now = refl

module _ (v : Rendering) (repo : FlowRepository) (lease : Option FlowExecutionLease) (id : ℕ)
    (r : CommitReadings) (next : FlowRepository) (state : FlowRunState) where
  start-Changed :
      (now : ℕ)
      → Service.start v repo lease id now r ≡ ok (next, state)
      → Changed repo id (starts now) next state
  unfolding Service.start Transitions.start apply
  start-Changed now h =
      let (current, got, h1) = >>=-eq-ok (get repo id) _ h in
      let (made, applied, h2) = >>=-eq-ok (Transitions.start current now) _ h1 in
      let going : is_terminal made.status ≡ false = ground arith in
      commit_state-Changed repo lease id _ (starts now) current made _ r next state got applied
        (ground arith) h2

  begin_invocation-Changed :
      (q : AgentInvocationRequest) (d : FlowDefinition) (at now : ℕ)
      → Service.begin_invocation v repo lease id q d at now r ≡ ok (next, state)
      → Changed repo id (begins q d at now) next state
  unfolding Service.begin_invocation apply
  begin_invocation-Changed q d at now h =
      let (current, got, h1) = >>=-eq-ok (get repo id) _ h in
      let (made, applied, h2) = >>=-eq-ok (Transitions.begin_invocation current q d at now) _ h1 in
      let (invocation, found, h3) =
        >>=-eq-ok (or_fail (active_invocation made) Error.assertion) _ h2 in
      let built = begin_invocation-ok current q d at now applied in
      commit_state-Changed repo lease id _ (begins q d at now) current made _ r next state got
        applied (ground (arith, built)) h3

  settle_invocation-Changed :
      (q : AgentInvocationResult) (at now : ℕ)
      → Service.settle_invocation v repo lease id q at now r ≡ ok (next, state)
      → Changed repo id (settles q at now) next state
  unfolding Service.settle_invocation apply
  settle_invocation-Changed q at now h =
      let (current, got, h1) = >>=-eq-ok (get repo id) _ h in
      let (made, applied, h2) = >>=-eq-ok (Transitions.settle_invocation current q at now) _ h1 in
      let (last, found, h3) =
        >>=-eq-ok (or_fail (last_of made.invocations) Error.index_error) _ h2 in
      let (active, settled, was, settles_it, built) =
        settle_invocation-ok current q at now applied in
      commit_state-Changed repo lease id _ (settles q at now) current made _ r next state got
        applied
        (settled_goes_on v q last made
          ∙ sym (
              ap (λ k. bit (is_terminal k.status)) built
              ∙ ap bit (stored_goes_on current settled now)))
        h3

  resume_invocation-Changed :
      (i at now : ℕ)
      → Service.resume_invocation v repo lease id i at now r ≡ ok (next, state)
      → Changed repo id (resumes i at now) next state
  unfolding Service.resume_invocation apply
  resume_invocation-Changed i at now h =
      let (current, got, h1) = >>=-eq-ok (get repo id) _ h in
      let (made, applied, h2) = >>=-eq-ok (Transitions.resume_invocation current i at now) _ h1 in
      let (invocation, found, h3) =
        >>=-eq-ok (or_fail (active_invocation made) Error.assertion) _ h2 in
      let (active, was, named, waits, built) = resume_invocation-ok current i at now applied in
      commit_state-Changed repo lease id _ (resumes i at now) current made _ r next state got
        applied (ground arith) h3

  complete-Changed :
      (output : String) (now : ℕ)
      → Service.complete v repo lease id output now r ≡ ok (next, state)
      → Changed repo id (completes output now) next state
  unfolding Service.complete Transitions.complete apply
  complete-Changed output now h =
      let (current, got, h1) = >>=-eq-ok (get repo id) _ h in
      let (made, applied, h2) = >>=-eq-ok (Transitions.complete current output now) _ h1 in
      let ended : is_terminal made.status ≡ true = ground arith in
      commit_state-Changed repo lease id _ (completes output now) current made _ r next state got
        applied (ground arith) h2

  terminate-Changed :
      (e : Ending) (error : String) (metadata : Fields) (at now : ℕ)
      → Service.terminate v repo lease id e error metadata at now r ≡ ok (next, state)
      → Changed repo id (ends_run e error at now) next state
  unfolding Service.terminate
  terminate-Changed e error metadata at now h =
      let (current, got, h1) = >>=-eq-ok (get repo id) _ h in
      let (made, applied, h2) =
        >>=-eq-ok (Transitions.terminate_run current (ending_status e) error at now) _ h1 in
      let (drafts, active_drafts, h3) =
        >>=-eq-ok (active_ended_drafts v e (active_invocation current) made) _ h2 in
      let (is, live, text, ended, built) =
        terminate_run-ok current (ending_status e) error at now applied in
      let last = ended_draft v e made metadata in
      commit_state-Changed repo lease id _ (ends_run e error at now) current made _ r next state got
        (apply-ends_run current e error at now ∙ applied)
        (omega (
          arith,
          ap flow_ends (draft_types-append drafts (last ∷ [])),
          flow_ends-append (draft_types drafts) (last.type ∷ []),
          ending_goes_on v e (active_invocation current) made active_drafts,
          end_is_one v e made metadata now,
          ap (λ k. bit (is_terminal k.status)) built,
        ))
        h3

-- A call of FlowLifecycle that returns has made one transition of the stored Flow Run and one commit,
-- whose events end the Run's history exactly when the new status is terminal.
pub serve-Changed :
    (v : Rendering) (repo : FlowRepository) (lease : Option FlowExecutionLease) (id : ℕ)
    (x : Transition) (metadata : Fields) (r : CommitReadings) (next : FlowRepository)
    (state : FlowRunState)
    → serve v repo lease id x metadata r ≡ ok (next, state)
    → Changed repo id x next state
unfolding serve
serve-Changed v repo lease id (starts now) m r n s h = start-Changed v repo lease id r n s now h
serve-Changed v repo lease id (begins q d at now) m r n s h =
    begin_invocation-Changed v repo lease id r n s q d at now h
serve-Changed v repo lease id (settles q at now) m r n s h =
    settle_invocation-Changed v repo lease id r n s q at now h
serve-Changed v repo lease id (resumes i at now) m r n s h =
    resume_invocation-Changed v repo lease id r n s i at now h
serve-Changed v repo lease id (completes output now) m r n s h =
    complete-Changed v repo lease id r n s output now h
serve-Changed v repo lease id (ends_run fails error at now) m r n s h =
    terminate-Changed v repo lease id r n s fails error end at now h
serve-Changed v repo lease id (ends_run cancels error at now) m r n s h =
    terminate-Changed v repo lease id r n s cancels error end at now h
serve-Changed v repo lease id (ends_run interrupts error at now) m r n s h =
    terminate-Changed v repo lease id r n s interrupts error end at now h
serve-Changed v repo lease id (ends_run reaches_limit error at now) m r n s h =
    terminate-Changed v repo lease id r n s reaches_limit error m at now h
