-- ===== src/Flows/Repository/Fencing.antt =====
-- Commits and leases of InMemoryFlowRepository after another call.
use base_agent.Base.{
  ℕ, ◌+◌, String, true, false, Option, some, List, ==_refl, ==_of_eq, nat_eq, string_eq, option_eq,
  Error, ok, err, or_fail, some_inj, ◌≡◌, refl, sym, ◌∙◌, ap, subst, ◌≢◌, arith, Succeeds,
}
use base_agent.Base.Dict.{lookup, lookup-insert_self}
use base_agent.Base.Time.{ℤ}
use base_agent.Models.Event.{RuntimeEvent}
use base_agent.Flows.Lifecycle.State.{FlowRunState}
use base_agent.Flows.Lease.{FlowExecutionLease}
use base_agent.Flows.Repository.Store.{
  FlowRepository, FlowEventDraft, StoredLease, Stamp, get, commit, validate_execution_token,
  validate_flow_replacement, check_token, has_token, same_identity, same_budget,
}
use base_agent.Flows.Repository.Execution.{acquire_execution}
use base_agent.Flows.Repository.Inversion.{
  commit-Committed, validate_flow_replacement-ok, acquire_execution-ok,
}
use base_agent.Flows.Lifecycle.Steps.{Transition, apply}
use base_agent.Flows.Lifecycle.Behaviour.{Follows, apply-Follows}
use base_agent.Flows.Contracts.{FlowBudget}

-- The state that a commit stores is the one that a reader then gets, and its revision is one more
-- than the expected one.
pub commit-get :
    (repo : FlowRepository) (state : FlowRunState) (expected : ℕ) (drafts : List FlowEventDraft)
    (token : Option ℕ) (now : ℕ) (stamps : ℕ → Stamp) (next : FlowRepository)
    (persisted : List RuntimeEvent)
    → commit repo state expected drafts token now stamps ≡ ok (next, persisted)
    → (get next state.run_id ≡ ok state) × (state.revision ≡ expected + 1)
unfolding get
commit-get repo state expected drafts token now stamps next persisted h =
    let c = commit-Committed repo state expected drafts token now stamps next persisted h in
    (
      subst (λ r. or_fail (lookup state.run_id r.states) Error.flow_run_not_found ≡ ok state)
          (sym c.result) (rw (lookup-insert_self state.run_id state repo.states)),
      (validate_flow_replacement-ok c.current state expected c.replaces).2,
    )

-- A stored revision that is not the expected one refuses the commit.
stale_refused :
    (repo : FlowRepository) (current state : FlowRunState) (expected : ℕ)
    (drafts : List FlowEventDraft) (token : Option ℕ) (now : ℕ) (stamps : ℕ → Stamp)
    → lookup state.run_id repo.states ≡ some current
    → current.revision ≢ expected
    → ¬ Succeeds (commit repo state expected drafts token now stamps)
stale_refused repo current state expected drafts token now stamps e stale ((next, persisted), h) =
    let c = commit-Committed repo state expected drafts token now stamps next persisted h in
    let same : current ≡ c.current = some_inj (sym e ∙ c.stored) in
    stale (
      ap (λ k. k.revision) same
      ∙ (validate_flow_replacement-ok c.current state expected c.replaces).0)

-- Of two commits to one Flow Run that expect the same revision, the second is refused, whatever
-- its state, events, token and time are.
pub commit-commit_same_revision :
    (repo : FlowRepository) (first second : FlowRunState) (expected : ℕ)
    (drafts drafts' : List FlowEventDraft) (token token' : Option ℕ) (now now' : ℕ)
    (stamps stamps' : ℕ → Stamp) (next : FlowRepository) (persisted : List RuntimeEvent)
    → commit repo first expected drafts token now stamps ≡ ok (next, persisted)
    → second.run_id ≡ first.run_id
    → ¬ Succeeds (commit next second expected drafts' token' now' stamps')
commit-commit_same_revision repo first second expected drafts drafts' token token' now now' stamps
      stamps' next persisted h same =
    let c = commit-Committed repo first expected drafts token now stamps next persisted h in
    stale_refused next first second expected drafts' token' now' stamps'
      (rw same (
        subst (λ r. lookup first.run_id r.states ≡ some first) (sym c.result)
          (lookup-insert_self first.run_id first repo.states)))
      (omega (arith, (validate_flow_replacement-ok c.current first expected c.replaces).2))

token_refused :
    (stored : StoredLease) (token : Option ℕ) (now : ℕ)
    → has_token token stored.lease.token ≡ false
    → check_token (some stored) token now ≡ err Error.flow_lease_lost
unfolding check_token
token_refused stored token now h = ground arith

-- After a lease has been acquired, a commit with another token, or with none, is refused.
pub acquire_execution-fences :
    (repo : FlowRepository) (run_id : ℕ) (owner_id : String) (ttl : ℤ) (now token : ℕ)
    (next : FlowRepository) (lease : FlowExecutionLease) (state : FlowRunState) (expected : ℕ)
    (drafts : List FlowEventDraft) (old : Option ℕ) (later : ℕ) (stamps : ℕ → Stamp)
    → acquire_execution repo run_id owner_id ttl now token ≡ ok (next, lease)
    → state.run_id ≡ run_id
    → has_token old token ≡ false
    → ¬ Succeeds (commit next state expected drafts old later stamps)
unfolding validate_execution_token
acquire_execution-fences repo run_id owner_id ttl now token next lease state expected drafts old
      later stamps h same other ((after, persisted), committed) =
    let a = acquire_execution-ok repo run_id owner_id ttl now token next lease h in
    let c =
      commit-Committed next state expected drafts old later stamps after persisted committed in
    let held : lookup state.run_id next.leases ≡ some (record { lease = lease; active = true }) =
      rw same (
        subst (λ r. lookup run_id r.leases ≡ some (record { lease = lease; active = true }))
          (sym a.6) (lookup-insert_self run_id _ repo.leases)) in
    cc (
      ap (λ o. check_token o old later) held,
      c.fenced,
      token_refused (record { lease = lease; active = true }) old later (rw a.3 other),
    )

same_budget_refl : (b : FlowBudget) → same_budget b b ≡ true
unfolding same_budget
same_budget_refl b = ground (
  arith,
  ==_refl b.max_invocations,
  ==_refl b.max_input_tokens,
  ==_refl b.max_output_tokens,
  ==_refl b.max_total_tokens,
  ==_refl b.max_model_calls,
  ==_refl b.max_tool_calls,
  ==_refl b.timeout_seconds,
)

Follows-same_identity : (s t : FlowRunState) → Follows s t → same_identity s t ≡ true
unfolding same_identity
Follows-same_identity s t f =
    rw
      (
        ==_of_eq f.definition_id,
        ==_of_eq f.definition_version,
        ==_of_eq f.definition_fingerprint,
        ap (λ b. same_budget b s.budget) f.budget,
        same_budget_refl s.budget,
        ==_of_eq f.deadline_at,
        ==_of_eq f.created_at,
      )
      refl

-- Every transition of the lifecycle is a replacement that the repository accepts.
pub apply-validate_flow_replacement :
    (s : FlowRunState) (x : Transition) (t : FlowRunState)
    → apply s x ≡ ok t
    → validate_flow_replacement s t s.revision ≡ ok tt
unfolding validate_flow_replacement
apply-validate_flow_replacement s x t h =
    let f = apply-Follows s x t h in ground (arith, Follows-same_identity s t f)
