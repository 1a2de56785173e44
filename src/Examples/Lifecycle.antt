-- ===== src/Examples/Lifecycle.antt =====
-- The lifecycle at concrete inputs.
use base_agent.Base.{
  ℕ, true, false, [], ◌∷◌, Error, ok, err, ◌≡◌, refl, arith, Succeeds, nat_eq, string_eq,
}
use base_agent.Base.Text.{is_blank}
use base_agent.Base.Distinct.{contains, all_distinct}
use base_agent.Flows.Contracts.{agent, validate_status_payload}
use base_agent.Flows.Lifecycle.Invocation.{settle, validate_result, validate_result_identity}
use base_agent.Flows.Lifecycle.State.{
  FlowRunState, validate_state, validate_invocations, validate_status, is_range_from,
}
use base_agent.Flows.Lifecycle.Transitions.{
  create, start, begin_invocation, settle_invocation, complete, require_definition, matches_request,
}
use base_agent.Flows.Lifecycle.Valid.{IsValid}
use base_agent.Flows.Lifecycle.Steps.{
  starts, begins, settles, completes, ends_run, cancels, apply, IsAdmissible,
}
use base_agent.Flows.Lifecycle.Invariant.{
  Reachable, created as was_created, stepped, Reachable-IsValid,
}
use base_agent.Flows.Lifecycle.Behaviour.{apply-terminal, apply-ends_run_total}
use base_agent.Flows.Lifecycle.Order.{
  LastIsActive, Reachable-LastIsActive, begin_invocation-duplicate,
}
use base_agent.Examples.Values.{
  demo, writer, request, result, created, started, begun, settled, ended,
}

created_again : create demo 7 100 ≡ ok created
unfolding create validate_state validate_invocations validate_status all_distinct is_range_from
created_again = refl

starts_created : apply created (starts 110) ≡ ok started
unfolding apply start
starts_created = refl

begins_started : apply started (begins (request 20 1) demo 120 121) ≡ ok begun
unfolding apply begin_invocation require_definition agent matches_request
begins_started = refl

settles_begun : apply begun (settles result 130 131) ≡ ok settled
unfolding apply settle_invocation settle validate_result validate_result_identity
    validate_status_payload all_distinct
settles_begun = refl

completes_settled : apply settled (completes "done" 140) ≡ ok ended
unfolding apply complete
completes_settled = refl

unused : IsAdmissible started (begins (request 20 1) demo 120 121)
unfolding contains
unused = refl

stop_is_text : is_blank "stop" ≡ false
unfolding is_blank
stop_is_text = refl

used : contains {A = ℕ} 20 (20 ∷ []) ≡ true
unfolding contains
used = refl

result_accepted : validate_status_payload result ≡ ok tt
unfolding validate_status_payload all_distinct
result_accepted = refl

own_definition : require_definition settled demo ≡ ok tt
unfolding require_definition
own_definition = refl

finds_agent : agent demo (request 20 2).agent_key ≡ ok writer
unfolding agent
finds_agent = refl

fits_agent : matches_request writer (request 20 2) ≡ true
unfolding matches_request
fits_agent = refl

reached_started : Reachable demo started
reached_started = stepped (starts 110) (was_created 7 100 created_again) tt starts_created

reached_begun : Reachable demo begun
reached_begun = stepped (begins (request 20 1) demo 120 121) reached_started unused begins_started

Reachable-IsValid_example : IsValid begun
Reachable-IsValid_example = Reachable-IsValid demo reached_begun

apply-terminal_example :
    apply ended (ends_run cancels "late" 160 161) ≡ err Error.invalid_flow_transition
apply-terminal_example = apply-terminal ended (ends_run cancels "late" 160 161) refl

apply-ends_run_total_example : Succeeds (apply begun (ends_run cancels "stop" 160 161))
apply-ends_run_total_example =
    apply-ends_run_total begun cancels "stop" 160 161 (Reachable-IsValid demo reached_begun) refl
      stop_is_text

Reachable-LastIsActive_example : LastIsActive begun
Reachable-LastIsActive_example = Reachable-LastIsActive demo reached_begun

begin_invocation-duplicate_example :
    (t : FlowRunState) × (begin_invocation settled (request 20 2) demo 150 151 ≡ ok t)
    × (validate_state t ≡ err Error.value_error)
begin_invocation-duplicate_example =
    begin_invocation-duplicate settled (request 20 2) demo writer 150 151 refl refl own_definition
      refl refl (omega arith) finds_agent fits_agent used
