-- ===== src/Flows/Work/Items.antt =====
-- The commands, items and reviews of flows/work.py, with their validators.
use base_agent.Base.{
  ℕ, String, Bool, true, false, ◌&&◌, ◌||◌, Option, is_some, ltb, nat_beq, ◌==◌, nat_eq, string_eq,
  Result, Error, ◌>>◌, fail_if, guard, if◌then◌else◌,
}
use base_agent.Base.Text.{is_blank, text_length}
use base_agent.Base.Time.{ℤ, is_nonpositive}
use base_agent.Models.Json.{Fields}

pub data FlowWorkKind : Type 0 where
  execute resume cancel recover : FlowWorkKind

pub data FlowWorkStatus : Type 0 where
  pending claimed completed blocked discarded : FlowWorkStatus

pub data FlowWorkReviewDecision : Type 0 where
  approve_retry reject : FlowWorkReviewDecision

-- `a is b`, for each of the three.
abbrev kind_rank : FlowWorkKind → ℕ
kind_rank execute = 0
kind_rank resume = 1
kind_rank cancel = 2
kind_rank recover = 3

abbrev pub same_kind : FlowWorkKind → FlowWorkKind → Bool
same_kind a b = nat_beq (kind_rank a) (kind_rank b)

abbrev work_status_rank : FlowWorkStatus → ℕ
work_status_rank pending = 0
work_status_rank claimed = 1
work_status_rank completed = 2
work_status_rank blocked = 3
work_status_rank discarded = 4

abbrev pub same_work_status : FlowWorkStatus → FlowWorkStatus → Bool
same_work_status a b = nat_beq (work_status_rank a) (work_status_rank b)

abbrev pub same_decision : FlowWorkReviewDecision → FlowWorkReviewDecision → Bool
same_decision approve_retry approve_retry = true
same_decision reject reject = true
same_decision _ _ = false

pub record FlowWorkCommand : Type 0 where
  pub id : ℕ
  pub run_id : ℕ
  pub kind : FlowWorkKind
  pub idempotency_key : String
  pub data_fields : Fields
  pub created_at : ℕ

-- `self.data == other.data` is the equality of JSON values, which is a parameter.
unfoldable pub has_same_intent : (Fields → Fields → Bool) → FlowWorkCommand → FlowWorkCommand → Bool
has_same_intent same_data a b =
    a.run_id == b.run_id && same_kind a.kind b.kind && same_data a.data_fields b.data_fields

-- `id` is the command's.
pub record FlowWorkItem : Type 0 where
  pub command : FlowWorkCommand
  pub status : FlowWorkStatus
  pub attempt : ℕ
  pub available_at : ℕ
  pub owner_id : Option String
  pub delivery_token : Option ℕ
  pub last_delivery_token : Option ℕ
  pub claimed_at : Option ℕ
  pub lease_expires_at : Option ℕ
  pub last_error_type : Option String
  pub blocked_reason : Option String
  pub updated_at : ℕ

-- `all(value is not None for value in delivery_fields)`, and `any(…)`.
abbrev pub has_all_delivery_fields : FlowWorkItem → Bool
has_all_delivery_fields i =
    is_some i.owner_id
    && is_some i.delivery_token
    && is_some i.claimed_at
    && is_some i.lease_expires_at

abbrev pub has_delivery_field : FlowWorkItem → Bool
has_delivery_field i =
    is_some i.owner_id
    || is_some i.delivery_token
    || is_some i.claimed_at
    || is_some i.lease_expires_at

abbrev pub is_claimed : FlowWorkStatus → Bool
is_claimed claimed = true
is_claimed _ = false

abbrev pub is_blocked : FlowWorkStatus → Bool
is_blocked blocked = true
is_blocked _ = false

abbrev pub is_pending : FlowWorkStatus → Bool
is_pending pending = true
is_pending _ = false

-- `validate_delivery`.
unfoldable pub validate_delivery : FlowWorkItem → Result (Unit {0})
validate_delivery i = do
  if is_claimed i.status
      then (do
        guard (has_all_delivery_fields i) Error.value_error
        fail_if (ltb i.attempt 1) Error.value_error)
      else fail_if (has_delivery_field i) Error.value_error
  if is_blocked i.status
      then guard (is_some i.blocked_reason) Error.value_error
      else fail_if (is_some i.blocked_reason) Error.value_error

-- `delay_seconds` is in microseconds; the field is not negative.
pub record FlowWorkReview : Type 0 where
  pub id : ℕ
  pub work_id : ℕ
  pub decision : FlowWorkReviewDecision
  pub reviewer_id : String
  pub reason_code : String
  pub idempotency_key : String
  pub delay_seconds : ℕ
  pub created_at : ℕ

unfoldable pub has_same_review_intent : FlowWorkReview → FlowWorkReview → Bool
has_same_review_intent a b =
    a.work_id == b.work_id
    && same_decision a.decision b.decision
    && a.reviewer_id == b.reviewer_id
    && a.reason_code == b.reason_code
    && a.delay_seconds == b.delay_seconds

-- `_validate_delivery_arguments`.
unfoldable pub validate_delivery_arguments : String → ℤ → Result (Unit {0})
validate_delivery_arguments owner_id ttl_seconds = do
  fail_if (is_blank owner_id) Error.value_error
  fail_if (ltb 256 (text_length owner_id)) Error.value_error
  fail_if (is_nonpositive ttl_seconds) Error.value_error

-- `_validate_reason_code`.
unfoldable pub validate_reason_code : String → Result (Unit {0})
validate_reason_code reason_code =
    fail_if (is_blank reason_code || ltb 256 (text_length reason_code)) Error.value_error
