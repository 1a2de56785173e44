-- ===== src/Flows/Lifecycle/Parts.antt =====
-- The checks of `validate_state` one by one.
use base_agent.Base.{
  ℕ, suc, ◌+◌, ◌≤◌, true, List, [], ◌∷◌, ◌++◌, map, length, all_of, ◌==◌, nat_eq, ok, ◌≡◌, arith,
}
use base_agent.Base.Distinct.{all_distinct}
use base_agent.Flows.Lifecycle.State.{
  FlowRunState, active_invocation, deadline_matches, is_range_from, validate_invocations,
  validate_status, validate_state,
}

pub record Parts (s : FlowRunState) : Type 0 where
  pub distinct : all_distinct (map (λ i. i.id) s.invocations) ≡ true
  pub contiguous : is_range_from 1 (map (λ i. i.sequence) s.invocations) ≡ true
  pub within : length s.invocations ≤ s.budget.max_invocations
  pub deadline : deadline_matches s ≡ true
  pub owned : all_of (λ i. i.flow_run_id == s.run_id) s.invocations ≡ true
  pub status :
      validate_status s.status s.invocations s.active_invocation_id
        (active_invocation s)
        s.output
        s.error
      ≡ ok tt

pub validate_state-Parts : (s : FlowRunState) → validate_state s ≡ ok tt → Parts s
unfolding validate_state validate_invocations
validate_state-Parts s h = ground arith

pub Parts-validate_state : (s : FlowRunState) → Parts s → validate_state s ≡ ok tt
unfolding validate_state validate_invocations
Parts-validate_state s p = ground arith

-- The next sequence number continues the range.
pub is_range_from-snoc :
    (start n : ℕ) (ns : List ℕ)
    → is_range_from start ns ≡ true
    → n ≡ start + length ns
    → is_range_from start (ns ++ n ∷ []) ≡ true
unfolding is_range_from
is_range_from-snoc start n [] h e = ground arith
is_range_from-snoc start n (m ∷ ns) h e = ground (arith, is_range_from-snoc (suc start) n ns)
