-- ===== src/Examples/Decisions.antt =====
-- Decisions on budgets and on recovery, and the state machine, at concrete inputs.
use base_agent.Base.{
  Bool, true, false, err, Error, ◌⊎◌, none, some, [], ◌∷◌, here, ok, ◌≡◌, refl, Succeeds, nat_eq,
  string_eq, option_eq,
}
use base_agent.Base.Dict.{lookup, insert}
use base_agent.Base.Distinct.{all_distinct}
use base_agent.Models.Json.{Fields, get_field}
use base_agent.Models.Status.{RunStatus, is_terminal, is_created}
use base_agent.Flows.Contracts.{FlowDefinition}
use base_agent.Flows.Lifecycle.State.{
  validate_state, validate_invocations, validate_status, is_range_from, usage, total_usage,
  model_call_count, tool_call_count, result_counts, result_count,
}
use base_agent.Flows.Lifecycle.Transitions.{create}
use base_agent.Flows.Work.Items.{FlowWorkKind, FlowWorkCommand}
use base_agent.Flows.Budget.Policy.{
  consumption, before_transport, after_transport, cumulative_violation, first_exceeded,
  remaining_seconds,
}
use base_agent.Flows.Budget.Limits.{
  IsWithin, before_transport-IsWithin, counts_below_zero, before_transport_total,
}
use base_agent.Flows.Recovery.Registry.{
  new_registry, register, register_all, resolve, validate_resolved_definition, identity_eq,
}
use base_agent.Flows.Recovery.Policy.{
  FlowRecoveryAction, FlowRecoveryReason, decision, decide, decide_running,
}
use base_agent.Flows.Recovery.Resolution.{new_registry-resolve}
use base_agent.Runtime.StateMachine.{is_terminal_state}
use base_agent.Runtime.Ends.{run, run-is_terminal}
use base_agent.Examples.Values.{demo, created, settled}

allows_settled : before_transport settled 200 true ≡ ok none
unfolding before_transport consumption usage total_usage model_call_count tool_call_count
    result_counts result_count get_field cumulative_violation first_exceeded
allows_settled = refl

settled_accepted : validate_state settled ≡ ok tt
unfolding validate_state validate_invocations validate_status all_distinct is_range_from
settled_accepted = refl

left_at_900 : remaining_seconds settled 900 ≡ some 200
unfolding remaining_seconds
left_at_900 = refl

before_transport-IsWithin_example : IsWithin settled 200 true
before_transport-IsWithin_example = before_transport-IsWithin settled 200 true allows_settled

before_transport_total_example :
    ((counts_below_zero settled ≡ false)
      × Succeeds (before_transport settled 200 true)
      × Succeeds (after_transport settled 200))
    ⊎ ((counts_below_zero settled ≡ true)
        × (before_transport settled 200 true ≡ err Error.validation_error)
        × (after_transport settled 200 ≡ err Error.validation_error))
before_transport_total_example = before_transport_total settled 200 true settled_accepted

abbrev execute_demo : FlowWorkCommand
execute_demo = record {
  id = 5;
  run_id = 7;
  kind = FlowWorkKind.execute;
  idempotency_key = "k";
  data_fields = Fields.end;
  created_at = 90;
}

abbrev no_confirmation : Fields → Bool
no_confirmation payload = false

decides_settled :
    decide no_confirmation execute_demo settled []
    ≡ ok (decision FlowRecoveryAction.advance FlowRecoveryReason.idle_safe_to_advance)
unfolding decide decide_running
decides_settled = refl

registers_demo : new_registry (demo ∷ []) ≡ ok ((("demo", "1"), demo) ∷ [])
unfolding new_registry register_all register lookup insert
registers_demo = refl

creates_demo : create demo 7 100 ≡ ok created
unfolding create validate_state validate_invocations validate_status all_distinct is_range_from
creates_demo = refl

new_registry-resolve_example :
    (e : FlowDefinition) × (resolve
        ((("demo", "1"), demo) ∷ [])
        created.definition_id
        created.definition_version
      ≡ ok e)
    × (e.fingerprint ≡ demo.fingerprint)
    × (validate_resolved_definition e created ≡ ok tt)
new_registry-resolve_example =
    new_registry-resolve (demo ∷ []) ((("demo", "1"), demo) ∷ []) demo 7 100 created registers_demo
      here creates_demo

run-is_terminal_example :
    (is_terminal_state RunStatus.failed ≡ is_terminal RunStatus.failed)
    × (is_terminal_state RunStatus.failed ≡ true
        → run RunStatus.failed (RunStatus.running ∷ []) ≡ RunStatus.failed)
    × (is_created RunStatus.failed ≡ false
        → is_created (run RunStatus.failed (RunStatus.running ∷ [])) ≡ false)
run-is_terminal_example = run-is_terminal RunStatus.failed (RunStatus.running ∷ [])
