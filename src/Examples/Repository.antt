-- ===== src/Examples/Repository.antt =====
-- The repository at concrete inputs: a stored Flow Run with a lease.
use base_agent.Base.{
  ℕ, true, none, some, List, [], ◌∷◌, ok, ◌≡◌, refl, subst, Succeeds, nat_eq, string_eq, option_eq,
  arith,
}
use base_agent.Base.Dict.{lookup, insert}
use base_agent.Base.Text.{is_blank, text_length}
use base_agent.Base.Time.{ℤ}
use base_agent.Models.Json.{Fields}
use base_agent.Models.Event.{EventType, RuntimeEvent}
use base_agent.Flows.Lease.{FlowExecutionLease, validate_lease_arguments}
use base_agent.Flows.Lifecycle.Transitions.{start}
use base_agent.Flows.Lifecycle.Steps.{starts, apply}
use base_agent.Flows.Repository.Store.{
  FlowEventDraft, FlowRepository, Stamp, materialize_events, create, commit,
  validate_execution_token, validate_flow_replacement, same_identity, same_budget,
}
use base_agent.Flows.Repository.Execution.{acquire_execution}
use base_agent.Flows.Repository.Consistent.{
  renews, acquires, IsConsistent, creates, acquires, commits, perform,
}
use base_agent.Flows.Repository.Fencing.{
  commit-commit_same_revision, acquire_execution-fences, apply-validate_flow_replacement,
}
use base_agent.Flows.Repository.Holding.{acquire_execution-excludes}
use base_agent.Flows.Repository.History.{run, empty, run-IsConsistent, Later, perform-Later}
use base_agent.Examples.Values.{created, started}

abbrev stamps : ℕ → Stamp
stamps n = record { id = n; timestamp = 500 }

abbrev drafts : List FlowEventDraft
drafts = record { type = EventType.run_completed; data_fields = Fields.end } ∷ []

abbrev event : ℕ → RuntimeEvent
event n = record {
  id = n;
  run_id = 7;
  sequence = n;
  type = EventType.run_completed;
  timestamp = 500;
  data_fields = Fields.end;
}

abbrev holding : FlowRepository
holding = record { states = (7, created) ∷ []; events = (7, event 1 ∷ []) ∷ []; leases = [] }

abbrev lease : FlowExecutionLease
lease = record {
  run_id = 7;
  token = 3;
  owner_id = "a";
  attempt = 1;
  acquired_at = 105;
  heartbeat_at = 105;
  expires_at = 155;
}

abbrev leased : FlowRepository
leased = record holding { leases = (7, record { lease = lease; active = true }) ∷ [] }

abbrev committed : FlowRepository
committed = record leased { states = (7, started) ∷ []; events = (7, event 1 ∷ event 2 ∷ []) ∷ [] }

acquired : acquire_execution holding 7 "a" (ℤ.pos 50) 105 3 ≡ ok (leased, lease)
unfolding acquire_execution lookup insert validate_lease_arguments is_blank text_length
acquired = refl

commits_started : commit leased started 1 drafts (some 3) 110 stamps ≡ ok (committed, event 2 ∷ [])
unfolding commit lookup insert validate_execution_token validate_flow_replacement same_identity
    same_budget materialize_events
commits_started = refl

performed : perform leased (commits started 1 drafts (some 3) 110 stamps) ≡ ok committed
unfolding perform commit lookup insert validate_execution_token validate_flow_replacement
    same_identity same_budget materialize_events
performed = refl

starts_created : apply created (starts 110) ≡ ok started
unfolding apply start
starts_created = refl

kept_created : lookup 7 leased.states ≡ some created
unfolding lookup
kept_created = refl

run_calls :
    run empty (creates created drafts stamps ∷ acquires 7 "a" (ℤ.pos 50) 105 3 ∷ []) ≡ leased
unfolding run perform create acquire_execution lookup insert validate_lease_arguments
    materialize_events is_blank text_length
run_calls = refl

leased-IsConsistent : IsConsistent leased
leased-IsConsistent =
    subst IsConsistent run_calls
      (run-IsConsistent (creates created drafts stamps ∷ acquires 7 "a" (ℤ.pos 50) 105 3 ∷ []))

commit-commit_same_revision_example :
    ¬ Succeeds (commit committed started 1 drafts (some 3) 111 stamps)
commit-commit_same_revision_example =
    commit-commit_same_revision leased started started 1 drafts drafts (some 3) (some 3) 110 111
      stamps stamps committed (event 2 ∷ []) commits_started refl

acquire_execution-fences_example : ¬ Succeeds (commit leased started 1 drafts none 110 stamps)
acquire_execution-fences_example =
    acquire_execution-fences holding 7 "a" (ℤ.pos 50) 105 3 leased lease started 1 drafts none 110
      stamps acquired refl refl

acquire_execution-excludes_example : ¬ Succeeds (
    acquire_execution
      (run leased (
        commits started 1 drafts (some 3) 110 stamps
        ∷ renews lease (ℤ.pos 50) 115
        ∷ acquires 7 "c" (ℤ.pos 50) 120 5
        ∷ []))
      7
      "b"
      (ℤ.pos 50)
      130
      4)
acquire_execution-excludes_example =
    acquire_execution-excludes holding 7 "a" (ℤ.pos 50) 105 3 leased lease
      (commits started 1 drafts (some 3) 110 stamps
        ∷ renews lease (ℤ.pos 50) 115
        ∷ acquires 7 "c" (ℤ.pos 50) 120 5
        ∷ [])
      "b" (ℤ.pos 50) 130 4 acquired refl (omega arith)

apply-validate_flow_replacement_example : validate_flow_replacement created started 1 ≡ ok tt
apply-validate_flow_replacement_example =
    apply-validate_flow_replacement created (starts 110) started starts_created

run-IsConsistent_example : IsConsistent (run empty (creates created drafts stamps ∷ []))
run-IsConsistent_example = run-IsConsistent (creates created drafts stamps ∷ [])

perform-Later_example : Later committed.states 7 created
perform-Later_example =
    perform-Later leased (commits started 1 drafts (some 3) 110 stamps) committed 7 created
      performed kept_created
