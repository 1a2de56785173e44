-- ===== src/Flows/Lifecycle/Accepted.antt =====
-- What each change of an invocation keeps of its own validator.
use base_agent.Base.{ℕ, String, true, some, nat_eq, string_eq, ok, ◌≡◌, arith, ==_refl}
use base_agent.Models.Status.{RunStatus, AgentResultStatus, is_waiting, result_to_run_status}
use base_agent.Flows.Contracts.{AgentInvocationResult}
use base_agent.Flows.Lifecycle.Invocation.{
  AgentInvocation, validate_result, validate_result_identity, termination_result,
  termination_result,
}

-- A settled invocation passes its validator.
pub settled_accepted :
    (i : AgentInvocation) (r : AgentInvocationResult) (now : ℕ)
    → validate_result_identity i r ≡ ok tt
    → validate_result
        (record i { status = result_to_run_status r.status; result = some r; updated_at = now })
      ≡ ok tt
unfolding validate_result validate_result_identity
settled_accepted i r now h = ground arith

pub terminated_accepted :
    (i : AgentInvocation) (outcome : AgentResultStatus) (error : String) (now : ℕ)
    → validate_result (record i {
      status = result_to_run_status outcome;
      result = some (termination_result i outcome error);
      updated_at = now;
    })
      ≡ ok tt
unfolding validate_result validate_result_identity
terminated_accepted i outcome error now =
    ground (arith, ==_refl i.flow_run_id, ==_refl i.id, ==_refl i.agent_key)

-- A waiting invocation that its validator accepts is accepted again when it is resumed.
pub resumed_accepted :
    (i : AgentInvocation) (now : ℕ)
    → is_waiting i.status ≡ true
    → validate_result i ≡ ok tt
    → validate_result (record i { status = RunStatus.running; updated_at = now }) ≡ ok tt
unfolding validate_result validate_result_identity
resumed_accepted i now w h = ground arith
