-- ===== src/Flows/Lease.antt =====
-- flows/lease.py: one time-bounded right to advance a Flow Run, and the checks on its arguments.
use base_agent.Base.{ℕ, String, Bool, ltb, leb, Result, Error, ◌>>◌, fail_if}
use base_agent.Base.Text.{is_blank, text_length}
use base_agent.Base.Time.{ℤ, is_nonpositive}

pub record FlowExecutionLease : Type 0 where
  pub run_id : ℕ
  pub token : ℕ
  pub owner_id : String
  pub attempt : ℕ
  pub acquired_at : ℕ
  pub heartbeat_at : ℕ
  pub expires_at : ℕ

-- `lease.is_expired(now=now)`.
abbrev pub is_expired : FlowExecutionLease → ℕ → Bool
is_expired l now = leb l.expires_at now

-- `_validate_lease_arguments` of flows/repository.py.
unfoldable pub validate_lease_arguments : String → ℤ → Result (Unit {0})
validate_lease_arguments owner_id ttl_seconds = do
  fail_if (is_blank owner_id) Error.value_error
  fail_if (ltb 256 (text_length owner_id)) Error.value_error
  fail_if (is_nonpositive ttl_seconds) Error.value_error
