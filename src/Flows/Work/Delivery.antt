-- ===== src/Flows/Work/Delivery.antt =====
-- InMemoryFlowWorkSource: the fenced deliveries. The token that `uuid4` draws for a claim and the
-- time of each call are arguments.
use base_agent.Base.{
  ℕ, ◌+◌, String, Bool, false, ◌&&◌, ◌||◌, not, Option, none, some, is_some, ltb, leb, List, [],
  ◌∷◌, keep, ◌==◌, nat_eq, string_eq, Result, Error, ok, ◌>>=◌, ◌>>◌, fail_if, guard, or_fail,
  if◌then◌else◌,
}
use base_agent.Base.Dict.{lookup, insert, values}
use base_agent.Base.Text.{is_blank, text_length}
use base_agent.Base.Time.{ℤ, is_nonpositive, is_negative, micros}
use base_agent.Flows.Work.Items.{
  FlowWorkItem, FlowWorkStatus, same_work_status, is_claimed, is_pending,
  validate_delivery_arguments, validate_reason_code,
}
use base_agent.Flows.Work.Source.{FlowWorkSource}

-- `token_of_the_item == token`, where None is equal to no token.
abbrev pub is_token : Option ℕ → ℕ → Bool
is_token none token = false
is_token (some t) token = t == token

-- `lease_expires_at is not None and lease_expires_at <= now`.
abbrev pub has_run_out : Option ℕ → ℕ → Bool
has_run_out none now = false
has_run_out (some expires) now = leb expires now

-- The condition on the candidates of a claim.
abbrev pub is_candidate : ℕ → FlowWorkItem → Bool
is_candidate now i =
    (is_pending i.status && leb i.available_at now)
    || (is_claimed i.status && has_run_out i.lease_expires_at now)

-- The order of `(available_at, command.created_at, str(id))`.
abbrev pub earlier : FlowWorkItem → FlowWorkItem → Bool
earlier a b =
    ltb a.available_at b.available_at
    || (a.available_at == b.available_at
        && (ltb a.command.created_at b.command.created_at
            || (a.command.created_at == b.command.created_at && ltb a.command.id b.command.id)))

-- `min(candidates, key=…)`: the first of the least ones.
unfoldable pub earliest_from : FlowWorkItem → List FlowWorkItem → FlowWorkItem
earliest_from best [] = best
earliest_from best (i ∷ is) = earliest_from (if earlier i best then i else best) is

unfoldable pub earliest : List FlowWorkItem → Option FlowWorkItem
unfolding earliest_from
earliest [] = none
earliest (i ∷ is) = some (earliest_from i is)

-- The item of a claim.
abbrev pub claimed_item : FlowWorkItem → String → ℤ → ℕ → ℕ → FlowWorkItem
claimed_item current owner_id ttl_seconds now token = record current {
  status = FlowWorkStatus.claimed;
  attempt = current.attempt + 1;
  owner_id = some owner_id;
  delivery_token = some token;
  claimed_at = some now;
  lease_expires_at = some (now + micros ttl_seconds);
  updated_at = now;
}

claim_candidate :
    FlowWorkSource → Option FlowWorkItem → String → ℤ → ℕ → ℕ → FlowWorkSource × Option FlowWorkItem
claim_candidate source none owner_id ttl_seconds now token = (source, none)
claim_candidate source (some current) owner_id ttl_seconds now token =
    let item = claimed_item current owner_id ttl_seconds now token in
    (record source { items = insert current.command.id item source.items }, some item)

unfoldable pub claim :
    FlowWorkSource → String → ℤ → ℕ → ℕ → Result (FlowWorkSource × Option FlowWorkItem)
unfolding claim_candidate earliest
claim source owner_id ttl_seconds now token = do
  validate_delivery_arguments owner_id ttl_seconds
  let candidate = earliest (keep (is_candidate now) (values source.items))
  ok (claim_candidate source candidate owner_id ttl_seconds now token)

-- A delivery that its worker still holds: claimed, under its token, and not run out.
abbrev pub is_live : ℕ → ℕ → FlowWorkItem → Bool
is_live token now i =
    is_claimed i.status
    && is_token i.delivery_token token
    && is_some i.lease_expires_at
    && not (has_run_out i.lease_expires_at now)

-- Whether the item was settled under this token, with this status, before.
abbrev pub is_settled_by : FlowWorkStatus → ℕ → FlowWorkItem → Bool
is_settled_by status token i =
    same_work_status i.status status && is_token i.last_delivery_token token

-- `_require_active_delivery`.
unfoldable pub require_active_delivery : FlowWorkSource → ℕ → ℕ → ℕ → Result FlowWorkItem
require_active_delivery source work_id token now = do
  current ← or_fail (lookup work_id source.items) Error.flow_work_not_found
  guard (is_live token now current) Error.flow_work_delivery_lost
  ok current

-- `_require_delivery`.
unfoldable pub require_delivery : FlowWorkSource → ℕ → ℕ → ℕ → FlowWorkStatus → Result FlowWorkItem
require_delivery source work_id token now idempotent_status = do
  current ← or_fail (lookup work_id source.items) Error.flow_work_not_found
  guard (is_settled_by idempotent_status token current || is_live token now current)
      Error.flow_work_delivery_lost
  ok current

unfoldable pub renew : FlowWorkSource → ℕ → ℕ → ℤ → ℕ → Result (FlowWorkSource × FlowWorkItem)
unfolding require_active_delivery
renew source work_id token ttl_seconds now = do
  fail_if (is_nonpositive ttl_seconds) Error.value_error
  current ← require_active_delivery source work_id token now
  let renewed = record current {
    lease_expires_at = some (now + micros ttl_seconds);
    updated_at = now;
  }
  ok (record source { items = insert work_id renewed source.items }, renewed)

-- The update of a delivered item that all three ways to settle it share.
abbrev pub undelivered : FlowWorkItem → FlowWorkStatus → ℕ → FlowWorkItem
undelivered current status now = record current {
  status = status;
  owner_id = none;
  last_delivery_token = current.delivery_token;
  delivery_token = none;
  claimed_at = none;
  lease_expires_at = none;
  updated_at = now;
}

-- The rest of a method that settles: an item that has the status already is returned as it is.
abbrev pub settle_as :
    FlowWorkSource
    → ℕ
    → FlowWorkItem
    → FlowWorkStatus
    → FlowWorkItem
    → FlowWorkSource × FlowWorkItem
settle_as source work_id current status settled =
    if same_work_status current.status status
    then (source, current)
    else (record source { items = insert work_id settled source.items }, settled)

unfoldable pub complete : FlowWorkSource → ℕ → ℕ → ℕ → Result (FlowWorkSource × FlowWorkItem)
unfolding require_delivery
complete source work_id token now = do
  current ← require_delivery source work_id token now FlowWorkStatus.completed
  ok (
      settle_as source work_id current FlowWorkStatus.completed
        (undelivered current FlowWorkStatus.completed now))

unfoldable pub block : FlowWorkSource → ℕ → ℕ → String → ℕ → Result (FlowWorkSource × FlowWorkItem)
unfolding require_delivery
block source work_id token reason_code now = do
  validate_reason_code reason_code
  current ← require_delivery source work_id token now FlowWorkStatus.blocked
  let item = undelivered current FlowWorkStatus.blocked now
  ok (
      settle_as source work_id current FlowWorkStatus.blocked
        (record item { blocked_reason = some reason_code }))

-- The test on `error_type`.
abbrev pub is_bad_error_type : Option String → Bool
is_bad_error_type none = false
is_bad_error_type (some t) = is_blank t || ltb 256 (text_length t)

unfoldable pub retry :
    FlowWorkSource → ℕ → ℕ → ℤ → Option String → ℕ → Result (FlowWorkSource × FlowWorkItem)
unfolding require_delivery
retry source work_id token delay_seconds error_type now = do
  fail_if (is_negative delay_seconds) Error.value_error
  fail_if (is_bad_error_type error_type) Error.value_error
  current ← require_delivery source work_id token now FlowWorkStatus.pending
  let item = undelivered current FlowWorkStatus.pending now
  ok (
      settle_as source work_id current FlowWorkStatus.pending
        (record item { available_at = now + micros delay_seconds; last_error_type = error_type }))
