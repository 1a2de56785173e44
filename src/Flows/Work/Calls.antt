-- ===== src/Flows/Work/Calls.antt =====
-- The calls of InMemoryFlowWorkSource, flows/work.py, as values, and what each changes.
use base_agent.Base.{
  ℕ, ◌+◌, String, Bool, true, false, Option, some, nat_eq, string_eq, option_eq, Result, ok, err,
  Option-cases, ok_inj, ◌≡◌, refl, sym, ap, subst, inl, inr, arith,
}
use base_agent.Base.Dict.{lookup, lookup-Entries}
use base_agent.Base.Time.{ℤ, micros}
use base_agent.Models.Json.{Fields}
use base_agent.Flows.Work.Items.{FlowWorkCommand, FlowWorkItem, FlowWorkReview, FlowWorkStatus}
use base_agent.Flows.Work.Source.{FlowWorkSource, enqueue, review, apply_review}
use base_agent.Flows.Work.Delivery.{claim, renew, complete, block, retry}
use base_agent.Flows.Work.Life.{
  renew_edge, settle_edge, review_edge, Settlement, completes, blocks, retries,
}
use base_agent.Flows.Work.Changes.{
  IsItem, IsValid, Change, kept, moved, enqueue-Change, claim-Change, renew-ok, Settled, before,
  settled_now, settle_as-Settled,
}

module _ (source : FlowWorkSource) (work_id token now : ℕ) (next : FlowWorkSource)
    (item : FlowWorkItem) where
  pub complete-Settled :
      complete source work_id token now ≡ ok (next, item)
      → Settled source work_id token now FlowWorkStatus.completed completes next item
  unfolding complete
  complete-Settled h = elim (Option-cases (lookup work_id source.items)) [
    | inl e ↦ absurd (ground arith)
    | inr (i, e) ↦
        settle_as-Settled source work_id token now FlowWorkStatus.completed completes next i item
          refl e (ground arith) (ground arith)
  ]

  pub block-Settled :
      (reason_code : String)
      → block source work_id token reason_code now ≡ ok (next, item)
      → Settled source work_id token now FlowWorkStatus.blocked (blocks reason_code) next item
  unfolding block
  block-Settled reason_code h = elim (Option-cases (lookup work_id source.items)) [
    | inl e ↦ absurd (ground arith)
    | inr (i, e) ↦
        settle_as-Settled source work_id token now FlowWorkStatus.blocked (blocks reason_code) next
          i item refl e (ground arith) (ground arith)
  ]

  pub retry-Settled :
      (delay : ℤ) (error_type : Option String)
      → retry source work_id token delay error_type now ≡ ok (next, item)
      → Settled source work_id token now FlowWorkStatus.pending
          (retries (now + micros delay) error_type)
          next
          item
  unfolding retry
  retry-Settled delay error_type h = elim (Option-cases (lookup work_id source.items)) [
    | inl e ↦ absurd (ground arith)
    | inr (i, e) ↦
        settle_as-Settled source work_id token now FlowWorkStatus.pending
          (retries (now + micros delay) error_type) next i item refl e (ground arith) (ground arith)
  ]

Settled-Change :
    (source : FlowWorkSource) (work_id token now : ℕ) (status : FlowWorkStatus) (s : Settlement)
    (next : FlowWorkSource) (item : FlowWorkItem)
    → Settled source work_id token now status s next item
    → Change false source next
Settled-Change source work_id token now status s next item (before e w n) =
    kept (ap (λ k. k.items) n)
Settled-Change source work_id token now status s next item (settled_now i e l built n) =
    moved work_id i item e (settle_edge token now s l built) (ap (λ k. k.items) n)

review-Change :
    (source : FlowWorkSource) (r : FlowWorkReview) (now : ℕ) (next : FlowWorkSource)
    (persisted : FlowWorkReview) (item : FlowWorkItem)
    → IsValid source
    → review source r now ≡ ok (next, persisted, item)
    → Change false source next
unfolding review
review-Change source r now next persisted item v h =
    elim (Option-cases (lookup r.idempotency_key source.review_idempotency)) [
      | inr (existing, k) ↦ elim (Option-cases (lookup existing.work_id source.items)) [
        | inl e ↦ absurd (ground arith)
        | inr (i, e) ↦ kept (ground arith)
      ]
      | inl k ↦ elim (Option-cases (lookup r.work_id source.items)) [
        | inl e ↦ absurd (ground arith)
        | inr (i, e) ↦
            let keyed : i.command.id ≡ r.work_id =
              (lookup-Entries IsItem r.work_id source.items v.items e).keyed in
            moved i.command.id i (apply_review i r now)
              (subst (λ n. lookup n source.items ≡ some i) (sym keyed) e)
              (review_edge r now (ground arith) refl) (ground arith)
      ]
    ]

-- One call of a method that changes the source.
pub data Call : Type 0 where
  enqueues : FlowWorkCommand → (now : ℕ) → Call
  reviews : FlowWorkReview → (now : ℕ) → Call
  claims : (owner_id : String) → ℤ → (now token : ℕ) → Call
  renews : (work_id token : ℕ) → ℤ → (now : ℕ) → Call
  completes_item : (work_id token now : ℕ) → Call
  blocks_item : (work_id token : ℕ) → (reason_code : String) → (now : ℕ) → Call
  retries_item : (work_id token : ℕ) → ℤ → (error_type : Option String) → (now : ℕ) → Call

abbrev pub after {ℓ} : {A : Type ℓ} → Result (FlowWorkSource × A) → Result FlowWorkSource
after (ok (source, a)) = ok source
after (err e) = err e

abbrev pub after_review :
    Result (FlowWorkSource × FlowWorkReview × FlowWorkItem) → Result FlowWorkSource
after_review (ok (source, r, i)) = ok source
after_review (err e) = err e

pub after-ok :
    {A : Type 0} (r : Result (FlowWorkSource × A)) {next : FlowWorkSource}
    → after r ≡ ok next
    → (a : A) × (r ≡ ok (next, a))
after-ok (ok (source, a)) h = (a, ap (λ k. ok (k, a)) (ok_inj h))
after-ok (err e) h = cc

pub after_review-ok :
    (r : Result (FlowWorkSource × FlowWorkReview × FlowWorkItem)) {next : FlowWorkSource}
    → after_review r ≡ ok next
    → (a : FlowWorkReview) × (i : FlowWorkItem) × (r ≡ ok (next, a, i))
after_review-ok (ok (source, a, i)) h = (a, i, ap (λ k. ok (k, a, i)) (ok_inj h))
after_review-ok (err e) h = cc

abbrev pub is_enqueue : Call → Bool
is_enqueue (enqueues command now) = true
is_enqueue (reviews r now) = false
is_enqueue _ = false

module _ (same_data : Fields → Fields → Bool) where
  unfoldable pub perform : FlowWorkSource → Call → Result FlowWorkSource
  perform source (enqueues command now) = after (enqueue same_data source command now)
  perform source (reviews r now) = after_review (review source r now)
  perform source (claims owner_id ttl now token) = after (claim source owner_id ttl now token)
  perform source (renews work_id token ttl now) = after (renew source work_id token ttl now)
  perform source (completes_item work_id token now) = after (complete source work_id token now)
  perform source (blocks_item work_id token reason_code now) =
      after (block source work_id token reason_code now)
  perform source (retries_item work_id token delay error_type now) =
      after (retry source work_id token delay error_type now)

  pub perform-Change :
      (source : FlowWorkSource) (call : Call) {next : FlowWorkSource}
      → IsValid source
      → perform source call ≡ ok next
      → Change (is_enqueue call) source next
  unfolding perform
  perform-Change source (enqueues command now) v h =
      let (i, e) = after-ok _ h in enqueue-Change same_data source command now _ i e
  perform-Change source (reviews r now) v h =
      let (a, i, e) = after_review-ok _ h in review-Change source r now _ a i v e
  perform-Change source (claims owner_id ttl now token) v h =
      let (i, e) = after-ok _ h in claim-Change source owner_id ttl now token _ i v e
  perform-Change source (renews work_id token ttl now) v h =
      let (item, e) = after-ok _ h in
      let (i, stored, live, built, n) = renew-ok source work_id token ttl now _ item e in
      moved work_id i item stored (renew_edge token now (now + micros ttl) live built)
        (ap (λ k. k.items) n)
  perform-Change source (completes_item work_id token now) {next} v h =
      let (i, e) = after-ok _ h in
      Settled-Change source work_id token now _ _ next i
        (complete-Settled source work_id token now next i e)
  perform-Change source (blocks_item work_id token reason_code now) {next} v h =
      let (i, e) = after-ok _ h in
      Settled-Change source work_id token now _ _ next i
        (block-Settled source work_id token now next i reason_code e)
  perform-Change source (retries_item work_id token delay error_type now) {next} v h =
      let (i, e) = after-ok _ h in
      Settled-Change source work_id token now _ _ next i
        (retry-Settled source work_id token now next i delay error_type e)
