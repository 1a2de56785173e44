-- ===== src/Flows/Lifecycle/Terminated.antt =====
-- The transition that ends a Flow Run in an error status, on both of its branches.
use base_agent.Base.{
  ℕ, String, true, false, Option, none, some, List, map, ◌==◌, nat_eq, string_eq, ok, ◌≡◌, sym, ◌∙◌,
  ap, inl, inr, arith, map, Option-cases, Result-cases, ok_inj, if◌then◌else◌, subst,
}
use base_agent.Base.Text.{is_blank, is_empty_text-is_blank}
use base_agent.Models.Status.{RunStatus, is_error}
use base_agent.Flows.Lifecycle.Invocation.{AgentInvocation, terminate}
use base_agent.Flows.Lifecycle.State.{FlowRunState, active_invocation, validate_status}
use base_agent.Flows.Lifecycle.Transitions.{
  terminate_run, terminate_active, replace_invocation, store_terminated,
}
use base_agent.Flows.Lifecycle.Parts.{Parts}
use base_agent.Flows.Lifecycle.Inversion.{terminate-ok, terminate_run-ok}
use base_agent.Flows.Lifecycle.Replaced.{Replaces, replaced-Parts}

terminated_status :
    (status : RunStatus) (is : List AgentInvocation) (output : Option String) (error : String)
    → is_error status ≡ true
    → is_blank error ≡ false
    → validate_status status is none none output (some error) ≡ ok tt
unfolding validate_status
terminated_status status is output error e b = ground (arith, is_empty_text-is_blank error b)

-- The termination of the active invocation keeps its identity.
pub terminate-Replaces :
    (i : AgentInvocation) (status : RunStatus) (error : String) (now : ℕ) {j : AgentInvocation}
    → terminate i status error now ≡ ok j
    → Replaces i j
terminate-Replaces i status error now h =
    let (outcome, maps, payload, built) = terminate-ok i status error now h in
    record {
      id = ap (λ k. k.id) built;
      sequence = ap (λ k. k.sequence) built;
      flow_run_id = ap (λ k. k.flow_run_id) built;
    }

module _ (s : FlowRunState) (status : RunStatus) (error : String) (at now : ℕ) (p : Parts s)
    (e : is_error status ≡ true) (b : is_blank error ≡ false) where
  idle :
      (is : List AgentInvocation)
      → s.invocations ≡ is
      → Parts (store_terminated s status error is now)
  idle is same =
      subst (λ x. Parts (store_terminated s status error x now)) same
        (record {
          distinct = p.distinct;
          contiguous = p.contiguous;
          within = p.within;
          deadline = p.deadline;
          owned = p.owned;
          status = terminated_status status s.invocations s.output error e b;
        })

  busy :
      (active : AgentInvocation) (is : List AgentInvocation)
      → active_invocation s ≡ some active
      → terminate_active (some active) status error at s.invocations ≡ ok is
      → Parts (store_terminated s status error is now)
  unfolding terminate_active
  busy active is found h = elim (Result-cases (terminate active status error at)) [
    | inl (x, f) ↦ absurd (ground arith)
    | inr (j, f) ↦
        let r : Replaces active j = terminate-Replaces active status error at f in
        let ended : terminate_active (some active) status error at s.invocations
            ≡ ok (map (λ i. if i.id == active.id then j else i) s.invocations) =
          rw f in
        let same : replace_invocation j s.invocations ≡ is =
          ap (λ (k : ℕ). map (λ i. if i.id == k then j else i) s.invocations) r.id
          ∙ ok_inj (sym ended ∙ h) in
        subst (λ x. Parts (store_terminated s status error x now)) same
          (replaced-Parts s active j p found r status none s.output (some error) now
            (terminated_status status _ s.output error e b))
  ]

pub terminate_run-Parts :
    (s : FlowRunState) (status : RunStatus) (error : String) (at now : ℕ) {t : FlowRunState}
    → is_error status ≡ true
    → Parts s
    → terminate_run s status error at now ≡ ok t
    → Parts t
unfolding terminate_active
terminate_run-Parts s status error at now e p h =
    let (is, live, text, ends, built) = terminate_run-ok s status error at now h in
    subst Parts (sym built) (elim (Option-cases (active_invocation s)) [
      | inl none_active ↦ idle s status error at now p e text is (cc (none_active, ends))
      | inr (active, found) ↦ busy s status error at now p e text active is found (cc (found, ends))
    ])
