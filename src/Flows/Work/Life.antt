-- ===== src/Flows/Work/Life.antt =====
-- The life of a work item of flows/work.py as a relation.
use base_agent.Base.{
  ℕ, String, Bool, true, false, Option, some, nat_eq, string_eq, option_eq, ok, ◌≡◌, refl, sym, ◌∙◌,
  ap, subst, arith,
}
use base_agent.Base.Time.{ℤ}
use base_agent.Flows.Work.Items.{
  FlowWorkItem, FlowWorkReview, FlowWorkStatus, validate_delivery, is_blocked,
}
use base_agent.Flows.Work.Source.{apply_review}
use base_agent.Flows.Work.Delivery.{claimed_item, undelivered, is_candidate, is_live}

-- The end of a delivery: what the three ways to settle an item store.
pub data Settlement : Type 0 where
  completes : Settlement
  blocks : (reason_code : String) → Settlement
  retries : (available_at : ℕ) → (error_type : Option String) → Settlement

abbrev pub settled_item : FlowWorkItem → Settlement → ℕ → FlowWorkItem
settled_item i completes now = undelivered i FlowWorkStatus.completed now
settled_item i (blocks reason_code) now =
    let j = undelivered i FlowWorkStatus.blocked now in
    record j { blocked_reason = some reason_code }
settled_item i (retries available_at error_type) now =
    let j = undelivered i FlowWorkStatus.pending now in
    record j { available_at = available_at; last_error_type = error_type }

-- One step of an item.
pub data Edge (i j : FlowWorkItem) : Type 0 where
  claim_edge :
      (owner_id : String) (ttl : ℤ) (now token : ℕ)
      → is_candidate now i ≡ true
      → j ≡ claimed_item i owner_id ttl now token
      → Edge i j
  renew_edge :
      (token now until : ℕ)
      → is_live token now i ≡ true
      → j ≡ record i { lease_expires_at = some until; updated_at = now }
      → Edge i j
  settle_edge :
      (token now : ℕ) (s : Settlement)
      → is_live token now i ≡ true
      → j ≡ settled_item i s now
      → Edge i j
  review_edge :
      (r : FlowWorkReview) (now : ℕ)
      → is_blocked i.status ≡ true
      → j ≡ apply_review i r now
      → Edge i j

claimed_valid :
    (i : FlowWorkItem) (owner_id : String) (ttl : ℤ) (now token : ℕ)
    → is_candidate now i ≡ true
    → validate_delivery i ≡ ok tt
    → validate_delivery (claimed_item i owner_id ttl now token) ≡ ok tt
unfolding validate_delivery
claimed_valid i owner_id ttl now token c v = ground arith

renewed_valid :
    (i : FlowWorkItem) (token now until : ℕ)
    → is_live token now i ≡ true
    → validate_delivery i ≡ ok tt
    → validate_delivery (record i { lease_expires_at = some until; updated_at = now }) ≡ ok tt
unfolding validate_delivery
renewed_valid i token now until l v = ground arith

settled_valid :
    (i : FlowWorkItem) (token now : ℕ) (s : Settlement)
    → is_live token now i ≡ true
    → validate_delivery i ≡ ok tt
    → validate_delivery (settled_item i s now) ≡ ok tt
unfolding validate_delivery
settled_valid i token now completes l v = ground arith
settled_valid i token now (blocks reason_code) l v = ground arith
settled_valid i token now (retries available_at error_type) l v = ground arith

reviewed_valid :
    (i : FlowWorkItem) (r : FlowWorkReview) (now : ℕ)
    → is_blocked i.status ≡ true
    → validate_delivery i ≡ ok tt
    → validate_delivery (apply_review i r now) ≡ ok tt
unfolding validate_delivery apply_review
reviewed_valid i r now b v = ground arith

-- Every step keeps what the validator of FlowWorkItem checks, which the code does not run again.
pub Edge-validate_delivery :
    {i j : FlowWorkItem} → Edge i j → validate_delivery i ≡ ok tt → validate_delivery j ≡ ok tt
Edge-validate_delivery {i} (claim_edge owner_id ttl now token c e) v =
    subst (λ k. validate_delivery k ≡ ok tt) (sym e) (claimed_valid i owner_id ttl now token c v)
Edge-validate_delivery {i} (renew_edge token now until l e) v =
    subst (λ k. validate_delivery k ≡ ok tt) (sym e) (renewed_valid i token now until l v)
Edge-validate_delivery {i} (settle_edge token now s l e) v =
    subst (λ k. validate_delivery k ≡ ok tt) (sym e) (settled_valid i token now s l v)
Edge-validate_delivery {i} (review_edge r now b e) v =
    subst (λ k. validate_delivery k ≡ ok tt) (sym e) (reviewed_valid i r now b v)

settled_item-command :
    (i : FlowWorkItem) (s : Settlement) (now : ℕ) → (settled_item i s now).command ≡ i.command
settled_item-command i completes now = refl
settled_item-command i (blocks r) now = refl
settled_item-command i (retries a e) now = refl

apply_review-command :
    (i : FlowWorkItem) (r : FlowWorkReview) (now : ℕ) → (apply_review i r now).command ≡ i.command
unfolding apply_review
apply_review-command i r now = ground arith

-- No step changes the command.
pub Edge-command : {i j : FlowWorkItem} → Edge i j → j.command ≡ i.command
Edge-command (claim_edge owner_id ttl now token c e) = ap (λ k. k.command) e
Edge-command (renew_edge token now until l e) = ap (λ k. k.command) e
Edge-command {i} (settle_edge token now s l e) =
    ap (λ k. k.command) e ∙ settled_item-command i s now
Edge-command {i} (review_edge r now b e) = ap (λ k. k.command) e ∙ apply_review-command i r now

-- COMPLETED and DISCARDED.
abbrev pub is_final : FlowWorkStatus → Bool
is_final FlowWorkStatus.completed = true
is_final FlowWorkStatus.discarded = true
is_final _ = false

-- No step leaves a final status.
pub Edge-is_final : {i j : FlowWorkItem} → Edge i j → is_final i.status ≡ false
Edge-is_final (claim_edge owner_id ttl now token c e) = ground arith
Edge-is_final (renew_edge token now until l e) = ground arith
Edge-is_final (settle_edge token now s l e) = ground arith
Edge-is_final (review_edge r now b e) = ground arith
