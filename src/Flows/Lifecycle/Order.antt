-- ===== src/Flows/Lifecycle/Order.antt =====
-- The order of a Flow Run's invocations: what a transition adds to it, and which one is active.
use base_agent.Base.{
  ℕ, String, Bool, true, false, Option, none, some, List, [], ◌∷◌, ◌++◌, map, last_of, last_of-snoc,
  nat_beq_iff, ◌⊎◌, map-append, ◌==◌, nat_eq, string_eq, Error, ok, err, ◌≡◌, refl, sym, ◌∙◌, ap,
  inl, inr, arith, map, Result-cases, ok_inj, if◌then◌else◌, subst, length, ◌+◌, ◌≤◌, ==_of_eq,
}
use base_agent.Base.Distinct.{all_distinct, contains, contains-append}
use base_agent.Models.Status.{RunStatus, is_waiting, is_running}
use base_agent.Flows.Contracts.{AgentInvocationRequest, AgentDefinition, FlowDefinition, agent}
use base_agent.Flows.Lifecycle.Invocation.{AgentInvocation, terminate}
use base_agent.Flows.Lifecycle.State.{
  FlowRunState, active_invocation, validate_invocations, validate_state,
}
use base_agent.Flows.Lifecycle.Transitions.{
  start, begin_invocation, require_definition, matches_request, store_begun, complete,
  terminate_run, terminate_active, create, store_settled, invocation_of,
}
use base_agent.Flows.Lifecycle.Replace.{ids-replace_invocation}
use base_agent.Flows.Lifecycle.Inversion.{
  begin_invocation-ok, settle_invocation-ok, settle-ok, resume_invocation-ok, terminate_run-ok,
}
use base_agent.Flows.Lifecycle.Valid.{create_total}
use base_agent.Flows.Lifecycle.Replaced.{active_invocation-found}
use base_agent.Flows.Lifecycle.Terminated.{terminate-Replaces}
use base_agent.Flows.Lifecycle.Steps.{
  Transition, starts, begins, settles, resumes, completes, ends_run, fails, cancels, interrupts,
  reaches_limit, apply,
}
use base_agent.Flows.Lifecycle.Invariant.{Reachable, created, stepped}

abbrev pub ids : FlowRunState → List ℕ
ids s = map (λ i. i.id) s.invocations

-- The list of invocations is as long as before, in the same order, and the active one is the same
-- or none.
pub data History (s t : FlowRunState) : Type 0 where
  same : ids t ≡ ids s → t.active_invocation_id ≡ s.active_invocation_id → History s t
  cleared : ids t ≡ ids s → t.active_invocation_id ≡ none → History s t
  added :
      (id : ℕ)
      → s.active_invocation_id ≡ none
      → ids t ≡ ids s ++ id ∷ []
      → t.active_invocation_id ≡ some id
      → History s t

settled-History :
    (s : FlowRunState) (active j : AgentInvocation) (now : ℕ)
    → s.active_invocation_id ≡ some active.id
    → j.id ≡ active.id
    → (waits : Bool) → is_waiting j.status ≡ waits
    → History s (store_settled s j now)
settled-History s active j now e i true w =
    same (ids-replace_invocation j s.invocations) (rw w (cc))
settled-History s active j now e i false w = cleared (ids-replace_invocation j s.invocations) (rw w)

terminate_active-ids :
    (active : Option AgentInvocation) (status : RunStatus) (error : String) (at : ℕ)
    (is js : List AgentInvocation)
    → terminate_active active status error at is ≡ ok js
    → map (λ i. i.id) js ≡ map (λ i. i.id) is
unfolding terminate_active
terminate_active-ids none status error at is js h = ap (map (λ i. i.id)) (ok_inj (sym h))
terminate_active-ids (some active) status error at is js h =
    elim (Result-cases (terminate active status error at)) [
      | inl (x, f) ↦ absurd (ground arith)
      | inr (j, f) ↦
          ap (map (λ i. i.id)) (sym (ok_inj (sym (stored j f) ∙ h)))
          ∙ swapped j (terminate-Replaces active status error at f).id is
    ]
  where
    stored :
        (j : AgentInvocation)
        → terminate active status error at ≡ ok j
        → terminate_active (some active) status error at is
          ≡ ok (map (λ i. if i.id == active.id then j else i) is)
    stored j f = rw f

    swapped :
        (j : AgentInvocation)
        → j.id ≡ active.id
        → (is : List AgentInvocation)
        → map (λ i. i.id) (map (λ i. if i.id == active.id then j else i) is) ≡ map (λ i. i.id) is
    swapped j e is =
        ap (λ (k : ℕ). map (λ i. i.id) (map (λ i. if i.id == k then j else i) is)) (sym e)
        ∙ ids-replace_invocation j is

terminate_run-History :
    (s : FlowRunState) (status : RunStatus) (error : String) (at now : ℕ) {t : FlowRunState}
    → terminate_run s status error at now ≡ ok t
    → History s t
terminate_run-History s status error at now h =
    let (is, live, text, ends, built) = terminate_run-ok s status error at now h in
    subst (History s) (sym built) (
      cleared (terminate_active-ids (active_invocation s) status error at s.invocations is ends)
        refl)

-- A transition never drops, reorders or renames an invocation: it adds one at the end, where none
-- was active, or leaves the ids as they are.
pub apply-History :
    (s : FlowRunState) (x : Transition) (t : FlowRunState) → apply s x ≡ ok t → History s t
unfolding apply start complete
apply-History s (starts now) t h = same (ground arith) (ground arith)
apply-History s (begins r d at now) t h =
    let e = begin_invocation-ok s r d at now h in
    subst (History s) (sym e.5)
      (added r.invocation_id e.1 (map-append _ s.invocations (invocation_of r s at ∷ [])) refl)
apply-History s (settles r at now) t h =
    let (active, j, e, settles_to, built) = settle_invocation-ok s r at now h in
    subst (History s) (sym built) (
      settled-History s active j now (active_invocation-found s active e).0
        (ap (λ k. k.id) (settle-ok active r at settles_to).1) (is_waiting j.status) refl)
apply-History s (resumes id at now) t h =
    let (active, e, same_id, waits, built) = resume_invocation-ok s id at now h in
    subst (History s) (sym built) (same (ids-replace_invocation _ s.invocations) refl)
apply-History s (completes output now) t h = same (ground arith) (ground arith)
apply-History s (ends_run fails error at now) t h = terminate_run-History s _ error at now h
apply-History s (ends_run cancels error at now) t h = terminate_run-History s _ error at now h
apply-History s (ends_run interrupts error at now) t h = terminate_run-History s _ error at now h
apply-History s (ends_run reaches_limit error at now) t h = terminate_run-History s _ error at now h

-- The active invocation is the last one.
abbrev pub LastIsActive : FlowRunState → Type 0
LastIsActive s = (s.active_invocation_id ≡ none) ⊎ (s.active_invocation_id ≡ last_of (ids s))

History-LastIsActive : {s t : FlowRunState} → History s t → LastIsActive s → LastIsActive t
History-LastIsActive (same i a) (inl n) = inl (a ∙ n)
History-LastIsActive (same i a) (inr l) = inr (a ∙ l ∙ ap last_of (sym i))
History-LastIsActive (cleared i a) l = inl a
History-LastIsActive {s} (added id n i a) l = inr (a ∙ sym (ap last_of i ∙ last_of-snoc (ids s) id))

created-LastIsActive :
    (d : FlowDefinition) (run_id now : ℕ) {s : FlowRunState}
    → create d run_id now ≡ ok s
    → LastIsActive s
created-LastIsActive d run_id now h =
    subst LastIsActive (ok_inj (sym (create_total d run_id now) ∙ h)) (inl refl)

-- In every state that a new Flow Run reaches by transitions that succeed, on unused invocation ids and
-- accepted results, the active invocation id, if there is one, is the id of the last invocation.
pub Reachable-LastIsActive :
    (d : FlowDefinition) {s : FlowRunState} → Reachable d s → LastIsActive s
Reachable-LastIsActive d (created run_id now h) = created-LastIsActive d run_id now h
Reachable-LastIsActive d (stepped {s} x {t} r a h) =
    History-LastIsActive (apply-History s x t h) (Reachable-LastIsActive d r)

not_distinct-snoc :
    (xs : List ℕ) (a : ℕ) → contains a xs ≡ true → all_distinct (xs ++ a ∷ []) ≡ false
unfolding contains all_distinct
not_distinct-snoc [] a h = cc
not_distinct-snoc (x ∷ xs) a h =
    ground (arith, not_distinct-snoc xs a, contains-append x xs (a ∷ []), nat_beq_iff x a)

-- A state with an invocation id twice is rejected.
duplicate_rejected :
    (s : FlowRunState) (r : AgentInvocationRequest) (d : FlowDefinition) (at now : ℕ)
    (t : FlowRunState)
    → contains r.invocation_id (ids s) ≡ true
    → begin_invocation s r d at now ≡ ok t
    → validate_state t ≡ err Error.value_error
unfolding validate_state validate_invocations
duplicate_rejected s r d at now t c h =
    let e = begin_invocation-ok s r d at now h in
    let twice : all_distinct (ids t) ≡ false =
      subst (λ k. all_distinct (ids k) ≡ false) (sym e.5)
        (rw (map-append _ s.invocations _) (not_distinct-snoc (ids s) r.invocation_id c)) in
    rw twice refl

-- A running Flow Run with no active invocation accepts a well-formed request, in the next place, for an
-- Agent of its own definition and within its budget, whose invocation id the Run has used before, and
-- the state that `begin_invocation` then returns is one that the validator of FlowRunState rejects.
pub begin_invocation-duplicate :
    (s : FlowRunState) (r : AgentInvocationRequest) (d : FlowDefinition) (a : AgentDefinition)
    (at now : ℕ)
    → is_running s.status ≡ true
    → s.active_invocation_id ≡ none
    → require_definition s d ≡ ok tt
    → r.flow_run_id ≡ s.run_id
    → r.sequence ≡ length s.invocations + 1
    → length s.invocations + 1 ≤ s.budget.max_invocations
    → agent d r.agent_key ≡ ok a
    → matches_request a r ≡ true
    → contains r.invocation_id (ids s) ≡ true
    → (t : FlowRunState) × (begin_invocation s r d at now ≡ ok t)
      × (validate_state t ≡ err Error.value_error)
unfolding begin_invocation
begin_invocation-duplicate s r d a at now running idle own run place room found fits used =
    let accepted : begin_invocation s r d at now ≡ ok (store_begun s r at now) =
      ground (arith, ==_of_eq run) in
    (store_begun s r at now, accepted, duplicate_rejected s r d at now _ used accepted)
