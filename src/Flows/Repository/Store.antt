-- ===== src/Flows/Repository/Store.antt =====
-- InMemoryFlowRepository: creation, commit by compare-and-swap, and events. A method returns the
-- new repository with its result, and an error leaves the repository as it was. The copies that
-- the code makes of immutable models are the values themselves.
use base_agent.Base.{
  ℕ, suc, ◌+◌, Bool, false, ◌&&◌, not, Option, none, some, List, [], ◌∷◌, ◌++◌, length, is_nil,
  is_some, ◌==◌, nat_eq, string_eq, option_eq, Result, Error, ok, ◌>>=◌, ◌>>◌, fail_if, guard,
  or_fail,
}
use base_agent.Base.Dict.{Dict, lookup, insert}
use base_agent.Models.Json.{Fields}
use base_agent.Models.Event.{EventType, RuntimeEvent}
use base_agent.Flows.Contracts.{FlowBudget}
use base_agent.Flows.Lifecycle.State.{FlowRunState}
use base_agent.Flows.Lease.{FlowExecutionLease, is_expired}

pub record FlowEventDraft : Type 0 where
  pub type : EventType
  pub data_fields : Fields

-- A lease with whether it is still active.
pub record StoredLease : Type 0 where
  pub lease : FlowExecutionLease
  pub active : Bool

pub record FlowRepository : Type 0 where
  pub states : Dict ℕ FlowRunState
  pub events : Dict ℕ (List RuntimeEvent)
  pub leases : Dict ℕ StoredLease

-- What the constructor of an event reads: a fresh id and the time.
pub record Stamp : Type 0 where
  pub id : ℕ
  pub timestamp : ℕ

-- `_materialize_events`: the drafts get consecutive sequence numbers.
unfoldable pub materialize_events : ℕ → List FlowEventDraft → ℕ → (ℕ → Stamp) → List RuntimeEvent
materialize_events run_id [] sequence stamps = []
materialize_events run_id (draft ∷ drafts) sequence stamps =
    record {
      id = (stamps sequence).id;
      run_id = run_id;
      sequence = sequence;
      type = draft.type;
      timestamp = (stamps sequence).timestamp;
      data_fields = draft.data_fields;
    }
    ∷ materialize_events run_id drafts (suc sequence) stamps

unfoldable pub create :
    FlowRepository
    → FlowRunState
    → List FlowEventDraft
    → (ℕ → Stamp)
    → Result (FlowRepository × List RuntimeEvent)
create repo state drafts stamps = do
  guard (state.revision == 1) Error.value_error
  fail_if (is_nil drafts) Error.value_error
  fail_if (is_some (lookup state.run_id repo.states)) Error.flow_run_already_exists
  let persisted = materialize_events state.run_id drafts 1 stamps
  ok (
    record repo {
      states = insert state.run_id state repo.states;
      events = insert state.run_id persisted repo.events;
    },
    persisted,
  )

unfoldable pub get : FlowRepository → ℕ → Result FlowRunState
get repo run_id = or_fail (lookup run_id repo.states) Error.flow_run_not_found

-- `replacement.budget == current.budget`.
unfoldable pub same_budget : FlowBudget → FlowBudget → Bool
same_budget a b =
    a.max_invocations == b.max_invocations
    && a.max_input_tokens == b.max_input_tokens
    && a.max_output_tokens == b.max_output_tokens
    && a.max_total_tokens == b.max_total_tokens
    && a.max_model_calls == b.max_model_calls
    && a.max_tool_calls == b.max_tool_calls
    && a.timeout_seconds == b.timeout_seconds

-- The negation of the last test of `validate_flow_replacement`.
unfoldable pub same_identity : FlowRunState → FlowRunState → Bool
same_identity current replacement =
    replacement.definition_id == current.definition_id
    && replacement.definition_version == current.definition_version
    && replacement.definition_fingerprint == current.definition_fingerprint
    && same_budget replacement.budget current.budget
    && replacement.deadline_at == current.deadline_at
    && replacement.created_at == current.created_at

unfoldable pub validate_flow_replacement : FlowRunState → FlowRunState → ℕ → Result (Unit {0})
validate_flow_replacement current replacement expected_revision = do
  guard (current.revision == expected_revision) Error.flow_revision_conflict
  guard (replacement.run_id == current.run_id) Error.value_error
  guard (replacement.revision == expected_revision + 1) Error.value_error
  guard (same_identity current replacement) Error.value_error

-- `execution_token == lease.token`, where None is equal to no token.
abbrev pub has_token : Option ℕ → ℕ → Bool
has_token none token = false
has_token (some t) token = t == token

-- `_validate_execution_token`, by the lease that is stored.
unfoldable pub check_token : Option StoredLease → Option ℕ → ℕ → Result (Unit {0})
check_token none token now = fail_if (is_some token) Error.flow_lease_lost
check_token (some stored) token now =
    guard (has_token token stored.lease.token && stored.active && not (is_expired stored.lease now))
      Error.flow_lease_lost

unfoldable pub validate_execution_token : FlowRepository → ℕ → Option ℕ → ℕ → Result (Unit {0})
unfolding check_token
validate_execution_token repo run_id token now = check_token (lookup run_id repo.leases) token now

unfoldable pub commit :
    FlowRepository
    → FlowRunState
    → ℕ
    → List FlowEventDraft
    → Option ℕ
    → ℕ
    → (ℕ → Stamp)
    → Result (FlowRepository × List RuntimeEvent)
commit repo state expected_revision drafts token now stamps = do
  fail_if (is_nil drafts) Error.value_error
  current ← or_fail (lookup state.run_id repo.states) Error.flow_run_not_found
  validate_execution_token repo state.run_id token now
  validate_flow_replacement current state expected_revision
  current_events ← or_fail (lookup state.run_id repo.events) Error.key_error
  let persisted = materialize_events state.run_id drafts (length current_events + 1) stamps
  ok (
    record repo {
      states = insert state.run_id state repo.states;
      events = insert state.run_id (current_events ++ persisted) repo.events;
    },
    persisted,
  )

unfoldable pub events : FlowRepository → ℕ → Result (List RuntimeEvent)
events repo run_id = do
  guard (is_some (lookup run_id repo.states)) Error.flow_run_not_found
  or_fail (lookup run_id repo.events) Error.key_error

unfoldable pub append_events :
    FlowRepository
    → ℕ
    → ℕ
    → List FlowEventDraft
    → Option ℕ
    → ℕ
    → (ℕ → Stamp)
    → Result (FlowRepository × List RuntimeEvent)
append_events repo run_id expected_revision drafts token now stamps = do
  fail_if (is_nil drafts) Error.value_error
  current ← or_fail (lookup run_id repo.states) Error.flow_run_not_found
  validate_execution_token repo run_id token now
  guard (current.revision == expected_revision) Error.flow_revision_conflict
  current_events ← or_fail (lookup run_id repo.events) Error.key_error
  let persisted = materialize_events run_id drafts (length current_events + 1) stamps
  ok (record repo { events = insert run_id (current_events ++ persisted) repo.events }, persisted)
