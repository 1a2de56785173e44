-- ===== src/Flows/Work/Source.antt =====
-- InMemoryFlowWorkSource: its state, and the methods that enqueue, list and review work. A method
-- returns the new source with its result; an error leaves the source as it was.
use base_agent.Base.{
  ℕ, ◌+◌, String, Bool, ◌&&◌, ◌||◌, Option, none, some, is_some, ltb, leb, List, [], ◌∷◌, ◌++◌,
  keep, take, ◌==◌, nat_eq, string_eq, Result, Error, ok, ◌>>=◌, ◌>>◌, guard, or_fail,
  if◌then◌else◌,
}
use base_agent.Base.Dict.{Dict, lookup, insert, values}
use base_agent.Models.Json.{Fields}
use base_agent.Flows.Work.Items.{
  FlowWorkCommand, FlowWorkItem, FlowWorkReview, FlowWorkStatus, approve_retry, reject,
  has_same_intent, has_same_review_intent, is_blocked,
}

pub record FlowWorkSource : Type 0 where
  pub items : Dict ℕ FlowWorkItem
  pub idempotency : Dict String ℕ
  pub reviews : Dict ℕ (List FlowWorkReview)
  pub review_idempotency : Dict String FlowWorkReview

-- The item that `enqueue` makes.
abbrev pub new_item : FlowWorkCommand → ℕ → FlowWorkItem
new_item command now = record {
  command = command;
  status = FlowWorkStatus.pending;
  attempt = 0;
  available_at = now;
  owner_id = none;
  delivery_token = none;
  last_delivery_token = none;
  claimed_at = none;
  lease_expires_at = none;
  last_error_type = none;
  blocked_reason = none;
  updated_at = now;
}

-- The branch of `enqueue` for a key that is known.
enqueue_again :
    (Fields → Fields → Bool)
    → FlowWorkSource
    → FlowWorkCommand
    → ℕ
    → Result (FlowWorkSource × FlowWorkItem)
enqueue_again same_data source command id = do
  existing ← or_fail (lookup id source.items) Error.key_error
  guard (has_same_intent same_data existing.command command) Error.flow_work_idempotency_conflict
  ok (source, existing)

enqueue_new : FlowWorkSource → FlowWorkCommand → ℕ → Result (FlowWorkSource × FlowWorkItem)
enqueue_new source command now =
    let item = new_item command now in
    ok (
      record source {
        items = insert command.id item source.items;
        idempotency = insert command.idempotency_key command.id source.idempotency;
      },
      item,
    )

unfoldable pub enqueue :
    (Fields → Fields → Bool)
    → FlowWorkSource
    → FlowWorkCommand
    → ℕ
    → Result (FlowWorkSource × FlowWorkItem)
unfolding enqueue_again enqueue_new
enqueue same_data source command now = elim (lookup command.idempotency_key source.idempotency) [
  | some id ↦ enqueue_again same_data source command id
  | none ↦ enqueue_new source command now
]

unfoldable pub get : FlowWorkSource → ℕ → Result FlowWorkItem
get source work_id = or_fail (lookup work_id source.items) Error.flow_work_not_found

-- The order of `(item.updated_at, str(item.id))`; the texts of UUIDs are ordered as the numbers are.
abbrev pub blocked_before : FlowWorkItem → FlowWorkItem → Bool
blocked_before a b =
    ltb a.updated_at b.updated_at || (a.updated_at == b.updated_at && leb a.command.id b.command.id)

unfoldable pub insert_sorted : FlowWorkItem → List FlowWorkItem → List FlowWorkItem
insert_sorted a [] = a ∷ []
insert_sorted a (b ∷ bs) = if blocked_before a b then a ∷ b ∷ bs else b ∷ insert_sorted a bs

unfoldable pub sort_blocked : List FlowWorkItem → List FlowWorkItem
unfolding insert_sorted
sort_blocked [] = []
sort_blocked (a ∷ rest) = insert_sorted a (sort_blocked rest)

unfoldable pub list_blocked : FlowWorkSource → ℕ → Result (List FlowWorkItem)
unfolding sort_blocked
list_blocked source limit = do
  guard (leb 1 limit && leb limit 1000) Error.value_error
  ok (take limit (sort_blocked (keep (λ i. is_blocked i.status) (values source.items))))

-- `_apply_review`.
unfoldable pub apply_review : FlowWorkItem → FlowWorkReview → ℕ → FlowWorkItem
apply_review current review now = elim review.decision [
  | approve_retry ↦ record current {
    status = FlowWorkStatus.pending;
    available_at = now + review.delay_seconds;
    blocked_reason = none;
    last_error_type = none;
    updated_at = now;
  }
  | reject ↦ record current {
    status = FlowWorkStatus.discarded;
    blocked_reason = none;
    updated_at = now;
  }
]

-- `self._reviews.setdefault(id, [])`.
abbrev or_no_reviews : Option (List FlowWorkReview) → List FlowWorkReview
or_no_reviews none = []
or_no_reviews (some rs) = rs

-- The branch of `review` for a key that is known.
review_again :
    FlowWorkSource
    → FlowWorkReview
    → FlowWorkReview
    → Result (FlowWorkSource × FlowWorkReview × FlowWorkItem)
review_again source existing review = do
  guard (has_same_review_intent existing review) Error.flow_work_review_conflict
  item ← or_fail (lookup existing.work_id source.items) Error.flow_work_not_found
  ok (source, existing, item)

review_new :
    FlowWorkSource → FlowWorkReview → ℕ → Result (FlowWorkSource × FlowWorkReview × FlowWorkItem)
unfolding apply_review
review_new source review now = do
  current ← or_fail (lookup review.work_id source.items) Error.flow_work_not_found
  guard (is_blocked current.status) Error.flow_work_review_state
  let replacement = apply_review current review now
  let persisted = record review { created_at = now }
  let old = or_no_reviews (lookup current.command.id source.reviews)
  ok (
    record source {
      items = insert current.command.id replacement source.items;
      reviews = insert current.command.id (old ++ persisted ∷ []) source.reviews;
      review_idempotency = insert review.idempotency_key persisted source.review_idempotency;
    },
    persisted,
    replacement,
  )

unfoldable pub review :
    FlowWorkSource → FlowWorkReview → ℕ → Result (FlowWorkSource × FlowWorkReview × FlowWorkItem)
unfolding review_again review_new
review source r now = elim (lookup r.idempotency_key source.review_idempotency) [
  | some existing ↦ review_again source existing r
  | none ↦ review_new source r now
]

unfoldable pub list_reviews : FlowWorkSource → ℕ → Result (List FlowWorkReview)
list_reviews source work_id = do
  guard (is_some (lookup work_id source.items)) Error.flow_work_not_found
  ok (or_no_reviews (lookup work_id source.reviews))
