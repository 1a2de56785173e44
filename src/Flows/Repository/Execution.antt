-- ===== src/Flows/Repository/Execution.antt =====
-- The execution leases of InMemoryFlowRepository. The token that `uuid4` draws is an argument.
use base_agent.Base.{
  ℕ, ◌+◌, String, Bool, true, false, ◌&&◌, not, Option, none, some, ◌==◌, nat_eq, Result, Error, ok,
  ◌>>=◌, ◌>>◌, fail_if, guard, or_fail, if◌then◌else◌,
}
use base_agent.Base.Dict.{lookup, insert}
use base_agent.Base.Time.{ℤ, micros}
use base_agent.Models.Status.{is_terminal}
use base_agent.Flows.Lease.{FlowExecutionLease, is_expired, validate_lease_arguments}
use base_agent.Flows.Repository.Store.{FlowRepository, StoredLease}

-- Whether a lease that is stored keeps others out.
abbrev pub is_held : Option StoredLease → ℕ → Bool
is_held none now = false
is_held (some prior) now = prior.active && not (is_expired prior.lease now)

abbrev pub next_attempt : Option StoredLease → ℕ
next_attempt none = 1
next_attempt (some prior) = prior.lease.attempt + 1

unfoldable pub acquire_execution :
    FlowRepository → ℕ → String → ℤ → ℕ → ℕ → Result (FlowRepository × FlowExecutionLease)
acquire_execution repo run_id owner_id ttl_seconds acquired_at token = do
  validate_lease_arguments owner_id ttl_seconds
  state ← or_fail (lookup run_id repo.states) Error.flow_run_not_found
  fail_if (is_terminal state.status) Error.flow_lease_unavailable
  let prior = lookup run_id repo.leases
  fail_if (is_held prior acquired_at) Error.flow_lease_unavailable
  let lease : FlowExecutionLease = record {
    run_id = run_id;
    token = token;
    owner_id = owner_id;
    attempt = next_attempt prior;
    acquired_at = acquired_at;
    heartbeat_at = acquired_at;
    expires_at = acquired_at + micros ttl_seconds;
  }
  ok (
    record repo { leases = insert run_id (record { lease = lease; active = true }) repo.leases },
    lease,
  )

unfoldable pub renew_execution :
    FlowRepository → FlowExecutionLease → ℤ → ℕ → Result (FlowRepository × FlowExecutionLease)
renew_execution repo lease ttl_seconds heartbeat_at = do
  validate_lease_arguments lease.owner_id ttl_seconds
  stored ← or_fail (lookup lease.run_id repo.leases) Error.flow_lease_lost
  guard
      (stored.active
        && stored.lease.token == lease.token
        && not (is_expired stored.lease heartbeat_at))
      Error.flow_lease_lost
  let current = stored.lease
  let renewed : FlowExecutionLease = record current {
    heartbeat_at = heartbeat_at;
    expires_at = heartbeat_at + micros ttl_seconds;
  }
  ok (
    record repo {
      leases = insert lease.run_id (record { lease = renewed; active = true }) repo.leases;
    },
    renewed,
  )

unfoldable pub release_execution : FlowRepository → FlowExecutionLease → Result FlowRepository
release_execution repo lease = do
  stored ← or_fail (lookup lease.run_id repo.leases) Error.flow_lease_lost
  guard (stored.lease.token == lease.token) Error.flow_lease_lost
  ok (
      if stored.active
      then record repo {
        leases = insert lease.run_id (record stored { active = false }) repo.leases;
      }
      else repo)
