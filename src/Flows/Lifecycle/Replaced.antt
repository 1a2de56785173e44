-- ===== src/Flows/Lifecycle/Replaced.antt =====
-- The transitions that replace the active invocation: settle, resume and terminate.
use base_agent.Base.{
  ℕ, ◌+◌, String, true, Option, none, some, List, map, find-all_of, ◌==◌, nat_eq, string_eq, ok,
  ◌≡◌, refl, sym, ◌∙◌, ap, inl, inr, arith, map, Option-cases, if◌then◌else◌, subst,
}
use base_agent.Models.Status.{RunStatus, is_waiting}
use base_agent.Flows.Contracts.{AgentInvocationResult}
use base_agent.Flows.Lifecycle.Invocation.{AgentInvocation, settle}
use base_agent.Flows.Lifecycle.State.{
  FlowRunState, active_invocation, active_in, find_invocation, validate_status,
}
use base_agent.Flows.Lifecycle.Transitions.{
  settle_invocation, resume_invocation, replace_invocation,
}
use base_agent.Flows.Lifecycle.Replace.{
  find_invocation-id, ids-replace_invocation, sequences-replace_invocation,
  all_of-replace_invocation, find_invocation-replace_invocation, length-replace_invocation,
}
use base_agent.Flows.Lifecycle.Parts.{Parts}
use base_agent.Flows.Lifecycle.Inversion.{settle_invocation-ok, settle-ok, resume_invocation-ok}

-- Where there is an active invocation, its id is the active id, and it is found under it.
pub active_invocation-found :
    (s : FlowRunState) (active : AgentInvocation)
    → active_invocation s ≡ some active
    → (s.active_invocation_id ≡ some active.id)
      × (find_invocation active.id s.invocations ≡ some active)
active_invocation-found s active h = elim (Option-cases s.active_invocation_id) [
  | inl e ↦ absurd (cc (ap (λ o. active_in o s.invocations) e))
  | inr (id, e) ↦
      let found : find_invocation id s.invocations ≡ some active =
        sym (ap (λ o. active_in o s.invocations) e) ∙ h in
      let same : active.id ≡ id = find_invocation-id id s.invocations found in
      (cc, subst (λ k. find_invocation k s.invocations ≡ some active) (sym same) found)
]

-- The invocation that takes the place of the active one.
pub record Replaces (active j : AgentInvocation) : Type 0 where
  pub id : j.id ≡ active.id
  pub sequence : j.sequence ≡ active.sequence
  pub flow_run_id : j.flow_run_id ≡ active.flow_run_id

module _ (s : FlowRunState) (active j : AgentInvocation) (p : Parts s)
    (e : active_invocation s ≡ some active) (r : Replaces active j) where
  pub found : find_invocation j.id s.invocations ≡ some active
  found = rw r.id (active_invocation-found s active e).1

  replaced_sequences :
      map (λ i. i.sequence) (replace_invocation j s.invocations)
      ≡ map (λ i. i.sequence) s.invocations
  replaced_sequences =
      sequences-replace_invocation j active s.invocations p.distinct found r.sequence

  active_owned : (active.flow_run_id == s.run_id) ≡ true
  active_owned = find-all_of _ _ s.invocations active (active_invocation-found s active e).1 p.owned

  -- The parts of the replaced state, whatever its new status is, if the status check accepts it.
  pub replaced-Parts :
      (status : RunStatus) (active_id : Option ℕ) (output error : Option String) (now : ℕ)
      → validate_status status
          (replace_invocation j s.invocations)
          active_id
          (active_in active_id (replace_invocation j s.invocations))
          output
          error
        ≡ ok tt
      → Parts (record s {
        status = status;
        invocations = replace_invocation j s.invocations;
        active_invocation_id = active_id;
        output = output;
        error = error;
        revision = s.revision + 1;
        updated_at = now;
      })
  replaced-Parts status active_id output error now v = record {
    distinct = rw (ids-replace_invocation j s.invocations) p.distinct;
    contiguous = rw replaced_sequences p.contiguous;
    within = omega (arith, length-replace_invocation j s.invocations);
    deadline = p.deadline;
    owned = all_of-replace_invocation _ j s.invocations p.owned (rw r.flow_run_id active_owned);
    status = v;
  }

-- The active id and the status after a settled invocation is stored.
settled_status :
    (s : FlowRunState) (j : AgentInvocation) (is : List AgentInvocation)
    → find_invocation j.id is ≡ some j
    → (status : RunStatus) → (is_waiting j.status ≡ is_waiting status)
    → validate_status
        (if is_waiting status then RunStatus.waiting else RunStatus.running)
        is
        (if is_waiting status then some j.id else none)
        (active_in (if is_waiting status then some j.id else none) is)
        s.output
        s.error
      ≡ ok tt
unfolding validate_status
settled_status s j is f RunStatus.waiting w = rw f (ground arith)
settled_status s j is f RunStatus.created w = refl
settled_status s j is f _ w = refl

pub settle_invocation-Parts :
    (s : FlowRunState) (r : AgentInvocationResult) (at now : ℕ) {t : FlowRunState}
    → Parts s
    → settle_invocation s r at now ≡ ok t
    → Parts t
settle_invocation-Parts s r at now p h =
    let (active, j, e, settles, built) = settle_invocation-ok s r at now h in
    let same : Replaces active j = replaces_settled active r at settles in
    subst Parts (sym built) (
      replaced-Parts s active j p e same _ _ s.output s.error now (
        settled_status s j _
          (find_invocation-replace_invocation j active s.invocations (found s active j p e same))
          j.status refl))
  where
    replaces_settled :
        (i : AgentInvocation) (r : AgentInvocationResult) (now : ℕ) {j : AgentInvocation}
        → settle i r now ≡ ok j
        → Replaces i j
    replaces_settled i r now h =
        let e = settle-ok i r now h in
        record {
          id = ap (λ k. k.id) e.1;
          sequence = ap (λ k. k.sequence) e.1;
          flow_run_id = ap (λ k. k.flow_run_id) e.1;
        }

resumed_status :
    (s : FlowRunState) (j : AgentInvocation) (id : Option ℕ) (is : List AgentInvocation)
    → active_in id is ≡ some j
    → j.status ≡ RunStatus.running
    → validate_status RunStatus.running is id (active_in id is) s.output s.error ≡ ok tt
unfolding validate_status
resumed_status s j id is f r = rw f (ground arith)

pub resume_invocation-Parts :
    (s : FlowRunState) (id at now : ℕ) {t : FlowRunState}
    → Parts s
    → resume_invocation s id at now ≡ ok t
    → Parts t
resume_invocation-Parts s id at now p h =
    let (active, e, same_id, waits, built) = resume_invocation-ok s id at now h in
    let j : AgentInvocation = record active { status = RunStatus.running; updated_at = at } in
    let same : Replaces active j = record { id = refl; sequence = refl; flow_run_id = refl } in
    let again =
      find_invocation-replace_invocation j active s.invocations (found s active j p e same) in
    subst Parts (sym built) (
      replaced-Parts s active j p e same _ s.active_invocation_id s.output s.error now
        (resumed_status s j _ _ (rw ((active_invocation-found s active e).0) again) refl))
