-- ===== src/Flows/Work/Idempotence.antt =====
-- Deliveries and commands of flows/work.py that are sent again.
use base_agent.Base.{
  ℕ, ◌+◌, List, [], ◌∷◌, any_of, Result, refl, Result-cases, String, Bool, true, false, Option,
  some, nat_eq, string_eq, option_eq, Error, ok, err, if◌then◌else◌, Option-cases, ◌≡◌, sym, ◌∙◌,
  ap, subst, inl, inr, arith,
}
use base_agent.Base.Dict.{lookup, insert, lookup-insert_self}
use base_agent.Base.Time.{ℤ, micros, is_negative}
use base_agent.Models.Json.{Fields}
use base_agent.Flows.Work.Items.{
  validate_reason_code, FlowWorkCommand, FlowWorkItem, FlowWorkStatus, has_same_intent,
}
use base_agent.Flows.Work.Source.{FlowWorkSource, enqueue}
use base_agent.Flows.Work.Delivery.{
  is_bad_error_type, complete, block, retry, is_live, is_settled_by,
}
use base_agent.Flows.Work.Life.{is_final, Settlement, completes, blocks, retries, settled_item}
use base_agent.Flows.Work.Changes.{IsValid, Settled, before, settled_now}
use base_agent.Flows.Work.Calls.{
  Call, completes_item, perform, complete-Settled, block-Settled, retry-Settled,
}
use base_agent.Flows.Work.History.{run, or_unchanged, perform-IsValid, perform-final, enqueues_id}
use base_agent.Flows.Work.Fencing.{
  Move, move, renews_lease, completes_work, blocks_work, retries_work,
}

-- Whether a move ends the delivery.
abbrev pub ends_delivery : Move → Bool
ends_delivery (renews_lease ttl) = false
ends_delivery completes_work = true
ends_delivery (blocks_work reason_code) = true
ends_delivery (retries_work delay error_type) = true

module _ (source next : FlowWorkSource) (work_id token now : ℕ) (item : FlowWorkItem) where
  -- A settled item is stored, with the status and the token of its end.
  Settled-stored :
      (status : FlowWorkStatus) (s : Settlement)
      → ((i : FlowWorkItem)
          → is_live token now i ≡ true
          → is_settled_by status token (settled_item i s now) ≡ true)
      → Settled source work_id token now status s next item
      → (lookup work_id next.items ≡ some item) × (is_settled_by status token item ≡ true)
  Settled-stored status s keeps (before e w n) = (ap (λ k. lookup work_id k.items) n ∙ e, w)
  Settled-stored status s keeps (settled_now i e l built n) = (
    ap (λ k. lookup work_id k.items) n ∙ lookup-insert_self work_id item source.items,
    subst (λ k. is_settled_by status token k ≡ true) (sym built) (keeps i l),
  )

module _ (source : FlowWorkSource) (work_id token later : ℕ) (item : FlowWorkItem)
    (stored : lookup work_id source.items ≡ some item) where
  complete_again :
      is_settled_by FlowWorkStatus.completed token item ≡ true
      → complete source work_id token later ≡ ok (source, item)
  unfolding complete
  complete_again w = ground arith

  block_again :
      (reason_code : String)
      → validate_reason_code reason_code ≡ ok tt
      → is_settled_by FlowWorkStatus.blocked token item ≡ true
      → block source work_id token reason_code later ≡ ok (source, item)
  unfolding block
  block_again reason_code r w = ground arith

  retry_again :
      (delay : ℤ) (error_type : Option String)
      → is_negative delay ≡ false
      → is_bad_error_type error_type ≡ false
      → is_settled_by FlowWorkStatus.pending token item ≡ true
      → retry source work_id token delay error_type later ≡ ok (source, item)
  unfolding retry
  retry_again delay error_type d t w = ground arith

block-reason :
    (source next : FlowWorkSource) (work_id token now : ℕ) (item : FlowWorkItem)
    (reason_code : String)
    → block source work_id token reason_code now ≡ ok (next, item)
    → validate_reason_code reason_code ≡ ok tt
unfolding block
block-reason source next work_id token now item reason_code h = ground arith

retry-arguments :
    (source next : FlowWorkSource) (work_id token now : ℕ) (item : FlowWorkItem) (delay : ℤ)
    (error_type : Option String)
    → retry source work_id token delay error_type now ≡ ok (next, item)
    → (is_negative delay ≡ false) × (is_bad_error_type error_type ≡ false)
unfolding retry
retry-arguments source next work_id token now item delay error_type h = (ground arith, ground arith)

-- A worker that completes, blocks or retries an item and does not hear the answer may call again, at
-- any later time and after any other calls, as long as the item is still stored as the first call left
-- it: the second call returns the same item and changes nothing.
pub move-move_again :
    (source : FlowWorkSource) (work_id token now : ℕ) (m : Move) (next : FlowWorkSource)
    (item : FlowWorkItem) (after : FlowWorkSource) (later : ℕ)
    → ends_delivery m ≡ true
    → move source work_id token now m ≡ ok (next, item)
    → lookup work_id after.items ≡ some item
    → move after work_id token later m ≡ ok (after, item)
move-move_again source work_id token now (renews_lease ttl) next item after later m h stored =
    absurd (cc)
move-move_again source work_id token now completes_work next item after later m h stored =
    let (_, w) =
      Settled-stored source next work_id token now item FlowWorkStatus.completed completes
        (λ i l. ground arith) (complete-Settled source work_id token now next item h) in
    complete_again after work_id token later item stored w
move-move_again source work_id token now (blocks_work reason_code) next item after later m h
      stored =
    let (_, w) =
      Settled-stored source next work_id token now item FlowWorkStatus.blocked (blocks reason_code)
        (λ i l. ground arith) (block-Settled source work_id token now next item reason_code h) in
    block_again after work_id token later item stored reason_code
      (block-reason source next work_id token now item reason_code h) w
move-move_again source work_id token now (retries_work delay error_type) next item after later m h
      stored =
    let (_, w) =
      Settled-stored source next work_id token now item FlowWorkStatus.pending
        (retries (now + micros delay) error_type) (λ i l. ground arith)
        (retry-Settled source work_id token now next item delay error_type h) in
    let (d, t) = retry-arguments source next work_id token now item delay error_type h in
    retry_again after work_id token later item stored delay error_type d t w

-- The move has left the item where it is looked for.
move-stored :
    (source : FlowWorkSource) (work_id token now : ℕ) (next : FlowWorkSource) (item : FlowWorkItem)
    → move source work_id token now completes_work ≡ ok (next, item)
    → (lookup work_id next.items ≡ some item) × (is_final item.status ≡ true)
move-stored source work_id token now next item h =
    let (stored, w) =
      Settled-stored source next work_id token now item FlowWorkStatus.completed completes
        (λ i l. ground arith) (complete-Settled source work_id token now next item h) in
    (stored, ground arith)

completed :
    (same_data : Fields → Fields → Bool) (source : FlowWorkSource) (work_id token now : ℕ)
    (next : FlowWorkSource) (item : FlowWorkItem)
    → complete source work_id token now ≡ ok (next, item)
    → perform same_data source (completes_item work_id token now) ≡ ok next
unfolding perform
completed same_data source work_id token now next item h = rw h refl

module _ (same_data : Fields → Fields → Bool) where
  run-final :
      (source : FlowWorkSource) (calls : List Call) (id : ℕ) (i : FlowWorkItem)
      → IsValid source
      → lookup id source.items ≡ some i
      → is_final i.status ≡ true
      → any_of (enqueues_id id) calls ≡ false
      → lookup id (run same_data source calls).items ≡ some i
  unfolding run
  run-final source [] id i v stored f none_enqueued = stored
  run-final source (call ∷ calls) id i v stored f none_enqueued =
      let other : enqueues_id id call ≡ false = ground arith in
      let rest : any_of (enqueues_id id) calls ≡ false = ground arith in
      elim (Result-cases (perform same_data source call)) [
        | inl (e, g) ↦ subst goal (sym g) (run-final source calls id i v stored f rest)
        | inr (next, g) ↦ subst goal (sym g) (
            run-final next calls id i (perform-IsValid same_data source call next v g)
              (perform-final same_data source call next id i v g stored f other) f rest)
      ]
    where
      goal : Result FlowWorkSource → Type 0
      goal r = lookup id (run same_data (or_unchanged source r) calls).items ≡ some i

  -- An item completed in a valid source may be completed again under the same token, at any time and
  -- after any other calls, those that fail among them, that enqueue no command with its id: the same
  -- item is returned and nothing changes.
  pub complete-run-complete :
      (source : FlowWorkSource) (work_id token now : ℕ) (next : FlowWorkSource)
      (item : FlowWorkItem) (calls : List Call) (later : ℕ)
      → IsValid source
      → complete source work_id token now ≡ ok (next, item)
      → any_of (enqueues_id work_id) calls ≡ false
      → complete (run same_data next calls) work_id token later
        ≡ ok (run same_data next calls, item)
  complete-run-complete source work_id token now next item calls later v h none_enqueued =
      let (stored, f) = move-stored source work_id token now next item h in
      let valid : IsValid next =
        perform-IsValid same_data source (completes_item work_id token now) next v
          (completed same_data source work_id token now next item h) in
      move-move_again source work_id token now completes_work next item (run same_data next calls)
        later refl h (run-final next calls work_id item valid stored f none_enqueued)

enqueue_known :
    (same_data : Fields → Fields → Bool) (source : FlowWorkSource) (command : FlowWorkCommand)
    (later id : ℕ) (item : FlowWorkItem)
    → lookup command.idempotency_key source.idempotency ≡ some id
    → lookup id source.items ≡ some item
    → enqueue same_data source command later ≡ (
        if has_same_intent same_data item.command command
        then ok (source, item)
        else err Error.flow_work_idempotency_conflict)
unfolding enqueue
enqueue_known same_data source command later id item k e = ground arith

-- Where `enqueue` leaves its key and its item.
enqueue-known :
    (same_data : Fields → Fields → Bool) (source : FlowWorkSource) (command : FlowWorkCommand)
    (now : ℕ) (next : FlowWorkSource) (item : FlowWorkItem)
    → enqueue same_data source command now ≡ ok (next, item)
    → (id : ℕ) × (lookup command.idempotency_key next.idempotency ≡ some id)
      × (lookup id next.items ≡ some item)
unfolding enqueue
enqueue-known same_data source command now next item h =
    elim (Option-cases (lookup command.idempotency_key source.idempotency)) [
      | inl e ↦
          let keys_built : insert command.idempotency_key command.id source.idempotency
              ≡ next.idempotency =
            ground arith in
          let items_built : insert command.id item source.items ≡ next.items = ground arith in
          (
            command.id,
            subst (λ m. lookup command.idempotency_key m ≡ some command.id) keys_built
                (lookup-insert_self command.idempotency_key command.id source.idempotency),
            subst (λ m. lookup command.id m ≡ some item) items_built
                (lookup-insert_self command.id item source.items),
          )
      | inr (id, e) ↦ elim (Option-cases (lookup id source.items)) [
        | inl f ↦ absurd (ground arith)
        | inr (i, f) ↦
            let same : source ≡ next = ground arith in
            let one : i ≡ item = ground arith in
            (
              id,
              subst (λ k. lookup command.idempotency_key k.idempotency ≡ some id) same e,
              subst (λ k. lookup id k.items ≡ some item) same (f ∙ ap some one),
            )
      ]
    ]

-- An enqueued command is stored under its key: a second one with the key returns the stored item
-- and changes nothing when its intent is the same, and is a conflict otherwise.
pub enqueue-enqueue_again :
    (same_data : Fields → Fields → Bool) (source : FlowWorkSource) (command : FlowWorkCommand)
    (now : ℕ) (next : FlowWorkSource) (item : FlowWorkItem) (again : FlowWorkCommand) (later : ℕ)
    → enqueue same_data source command now ≡ ok (next, item)
    → again.idempotency_key ≡ command.idempotency_key
    → enqueue same_data next again later ≡ (
        if has_same_intent same_data item.command again
        then ok (next, item)
        else err Error.flow_work_idempotency_conflict)
enqueue-enqueue_again same_data source command now next item again later h key =
    let (id, known, stored) = enqueue-known same_data source command now next item h in
    enqueue_known same_data next again later id item
      (ap (λ k. lookup k next.idempotency) key ∙ known) stored
