-- ===== src/Examples/Service.antt =====
-- FlowLifecycle and the recovery handler at concrete inputs: a Flow Run that is created, started and advanced.
use base_agent.Base.{false, none, some, [], ◌∷◌, ok, ◌≡◌, refl, nat_eq, string_eq, option_eq}
use base_agent.Base.Dict.{lookup, insert}
use base_agent.Base.Distinct.{all_distinct}
use base_agent.Models.Json.{Json, Fields}
use base_agent.Flows.Lifecycle.State.{
  validate_state, validate_invocations, validate_status, is_range_from,
}
use base_agent.Flows.Lifecycle.Transitions.{start, terminate_run, terminate_active}
use base_agent.Flows.Lifecycle.Transitions
use base_agent.Flows.Lifecycle.Steps.{starts}
use base_agent.Flows.Repository.Store.{
  FlowRepository, Stamp, materialize_events, get, commit, validate_execution_token, check_token,
  validate_flow_replacement, same_identity, same_budget,
}
use base_agent.Flows.Repository.Store
use base_agent.Flows.Repository.History.{empty}
use base_agent.Flows.Service.Drafts.{Rendering, created_draft, started_draft}
use base_agent.Flows.Service.Service.{
  CommitReadings, create, execution_token_for, commit_state, terminate, active_ended_drafts,
}
use base_agent.Flows.Service.Service
use base_agent.Flows.Service.Calls.{serve}
use base_agent.Flows.Service.Sound.{IsSound}
use base_agent.Flows.Service.Histories.{Served, new, creates, moves, Served-IsSound}
use base_agent.Flows.Lease.{FlowExecutionLease}
use base_agent.Flows.Work.Items.{FlowWorkItem, FlowWorkKind, FlowWorkStatus}
use base_agent.Flows.Recovery.Registry.{validate_resolved_definition}
use base_agent.Flows.Recovery.Policy.{
  FlowRecoveryAction, FlowRecoveryReason, decision, decide, decide_running,
}
use base_agent.Flows.Recovery.Handler.{
  FlowRecoveryContext, handle, handle_resolved, handle_checked, handle_validated, dispatched,
}
use base_agent.Flows.Recovery.Handling.{IsReady, handle-IsReady}
use base_agent.Examples.Values.{demo, created, started}

abbrev rendering : Rendering
rendering = record {
  id_text = λ n. "id";
  instant_text = λ n. "instant";
  budget_json = λ b. Json.null;
}

abbrev readings : CommitReadings
readings = record { checked = 110; stamps = λ n. record { id = n; timestamp = 500 } }

abbrev opened : FlowRepository
opened = record {
  states = (7, created) ∷ [];
  events = (7, materialize_events 7 (created_draft rendering created ∷ []) 1 readings.stamps) ∷ [];
  leases = [];
}

abbrev moved : FlowRepository
moved = record {
  states = (7, started) ∷ [];
  events =
      (
        7,
        materialize_events 7
            (created_draft rendering created ∷ started_draft rendering started ∷ []) 1
            readings.stamps,
      )
      ∷ [];
  leases = [];
}

creates_demo : create rendering empty demo 7 100 readings ≡ ok (opened, created)
unfolding create Transitions.create Store.create validate_state validate_invocations validate_status
    all_distinct is_range_from lookup insert materialize_events
creates_demo = refl

starts_demo : serve rendering opened none 7 (starts 110) Fields.end readings ≡ ok (moved, started)
unfolding serve Service.start start get lookup insert commit_state execution_token_for commit
    validate_execution_token check_token validate_flow_replacement same_identity same_budget
    materialize_events
starts_demo = refl

served : Served rendering moved
served =
    moves none 7 (starts 110) Fields.end readings started
      (creates demo 7 100 readings created new creates_demo) (λ current h. tt) starts_demo

stores_demo : lookup 7 moved.states ≡ some started
unfolding lookup
stores_demo = refl

Served-IsSound_example : IsSound moved.events 7 started
Served-IsSound_example = Served-IsSound rendering moved 7 started served stores_demo

abbrev advance_item : FlowWorkItem
advance_item = record {
  command = record {
    id = 5;
    run_id = 7;
    kind = FlowWorkKind.execute;
    idempotency_key = "k";
    data_fields = Fields.end;
    created_at = 90;
  };
  status = FlowWorkStatus.claimed;
  attempt = 1;
  available_at = 90;
  owner_id = some "a";
  delivery_token = some 4;
  last_delivery_token = some 4;
  claimed_at = some 110;
  lease_expires_at = some 160;
  last_error_type = none;
  blocked_reason = none;
  updated_at = 110;
}

abbrev worker_lease : FlowExecutionLease
worker_lease = record {
  run_id = 7;
  token = 3;
  owner_id = "a";
  attempt = 1;
  acquired_at = 105;
  heartbeat_at = 105;
  expires_at = 155;
}

abbrev handed : FlowRecoveryContext
handed = record {
  item = advance_item;
  definition = demo;
  state = started;
  decision = decision FlowRecoveryAction.advance FlowRecoveryReason.idle_safe_to_advance;
  lease = worker_lease;
  side_effects = [];
}

hands_over :
    handle (λ payload. false) moved (λ id version. ok demo) none advance_item worker_lease
    ≡ ok (dispatched handed)
unfolding handle get lookup handle_resolved handle_checked handle_validated
    validate_resolved_definition decide decide_running
hands_over = refl

handle-IsReady_example : IsReady moved advance_item worker_lease handed
handle-IsReady_example =
    handle-IsReady (λ payload. false) moved none advance_item worker_lease handed rendering
      (λ id version. ok demo) served hands_over
