-- ===== src/Flows/Work/Changes.antt =====
-- What the methods of InMemoryFlowWorkSource, flows/work.py, do to the stored items.
use base_agent.Base.{
  ℕ, ◌+◌, String, Bool, true, false, ◌||◌, Option, none, some, [], ◌∷◌, In, here, there, keep,
  nat_eq, string_eq, option_eq, ok, Option-cases, Bool-cases, ◌≡◌, refl, sym, ◌∙◌, ap, subst, inl,
  inr, arith,
}
use base_agent.Base.Dict.{Dict, lookup, insert, values, keys, Entries, In-lookup}
use base_agent.Base.Distinct.{all_distinct}
use base_agent.Base.Time.{ℤ, micros}
use base_agent.Models.Json.{Fields}
use base_agent.Flows.Work.Items.{
  FlowWorkCommand, FlowWorkItem, FlowWorkStatus, validate_delivery, is_claimed, same_work_status,
}
use base_agent.Flows.Work.Source.{FlowWorkSource, new_item, enqueue}
use base_agent.Flows.Work.Delivery.{
  claim, renew, claimed_item, settle_as, is_candidate, earliest, is_live, is_settled_by,
}
use base_agent.Flows.Work.Choice.{IsChosen, earliest-IsChosen}
use base_agent.Flows.Work.Life.{Edge, claim_edge, Settlement, settled_item}

pub record IsItem (id : ℕ) (i : FlowWorkItem) : Type 0 where
  pub keyed : i.command.id ≡ id
  pub accepted : validate_delivery i ≡ ok tt

-- Every item is stored once, under its id, and its validator accepts it.
pub record IsValid (source : FlowWorkSource) : Type 0 where
  pub items : Entries IsItem source.items
  pub distinct : all_distinct (keys source.items) ≡ true

-- `places` says whether a new item may be placed, which only `enqueue` does.
pub data Change (places : Bool) (source next : FlowWorkSource) : Type 0 where
  kept : next.items ≡ source.items → Change places source next
  moved :
      (id : ℕ) (i j : FlowWorkItem)
      → lookup id source.items ≡ some i
      → Edge i j
      → next.items ≡ insert id j source.items
      → Change places source next
  placed :
      (command : FlowWorkCommand) (now : ℕ)
      → places ≡ true
      → next.items ≡ insert command.id (new_item command now) source.items
      → Change places source next

pub enqueue-Change :
    (same_data : Fields → Fields → Bool) (source : FlowWorkSource) (command : FlowWorkCommand)
    (now : ℕ) (next : FlowWorkSource) (item : FlowWorkItem)
    → enqueue same_data source command now ≡ ok (next, item)
    → Change true source next
unfolding enqueue
enqueue-Change same_data source command now next item h =
    elim (Option-cases (lookup command.idempotency_key source.idempotency)) [
      | inl e ↦ placed command now refl (ground arith)
      | inr (id, e) ↦ kept (ground arith)
    ]

-- A stored value is found under the id of its command.
In-values :
    (P : ℕ → FlowWorkItem → Type 0) (m : Dict ℕ FlowWorkItem) (i : FlowWorkItem)
    → Entries P m
    → In i (values m)
    → (id : ℕ) × In (id, i) m × P id i
In-values P [] i all k = elim k [ ]
In-values P ((id, j) ∷ m) i all here = (id, here, all.0)
In-values P ((id, j) ∷ m) i all (there k) =
    let (found, place, holds) = In-values P m i all.1 k in (found, there place, holds)

pub stored_value :
    (source : FlowWorkSource) (i : FlowWorkItem)
    → IsValid source
    → In i (values source.items)
    → lookup i.command.id source.items ≡ some i
stored_value source i v k =
    let (id, place, item) = In-values IsItem source.items i v.items k in
    subst (λ n. lookup n source.items ≡ some i) (sym item.keyed)
      (In-lookup id i source.items v.distinct place)

-- A claim that returns an item takes a candidate that no other candidate precedes in the order of
-- availability, creation and id, claims it for the owner, the token and the time to live, and stores
-- it under its id; nothing else of the source changes.
pub claim-ok :
    (source : FlowWorkSource) (owner_id : String) (ttl : ℤ) (now token : ℕ) (next : FlowWorkSource)
    (item : FlowWorkItem)
    → claim source owner_id ttl now token ≡ ok (next, some item)
    → (i : FlowWorkItem) × IsChosen (is_candidate now) (values source.items) i
      × (item ≡ claimed_item i owner_id ttl now token)
      × (next ≡ record source { items = insert i.command.id item source.items })
unfolding claim
claim-ok source owner_id ttl now token next item h =
    elim (Option-cases (earliest (keep (is_candidate now) (values source.items)))) [
      | inl e ↦ absurd (ground arith)
      | inr (i, e) ↦ (
        i,
        earliest-IsChosen (is_candidate now) (values source.items) i e,
        ground arith,
        ground arith,
      )
    ]

pub claim-none :
    (source : FlowWorkSource) (owner_id : String) (ttl : ℤ) (now token : ℕ) (next : FlowWorkSource)
    → claim source owner_id ttl now token ≡ ok (next, none)
    → (earliest (keep (is_candidate now) (values source.items)) ≡ none) × (next ≡ source)
unfolding claim
claim-none source owner_id ttl now token next h =
    elim (Option-cases (earliest (keep (is_candidate now) (values source.items)))) [
      | inl e ↦ (e, ground arith)
      | inr (i, e) ↦ absurd (ground arith)
    ]

pub claim-Change :
    (source : FlowWorkSource) (owner_id : String) (ttl : ℤ) (now token : ℕ) (next : FlowWorkSource)
    (item : Option FlowWorkItem)
    → IsValid source
    → claim source owner_id ttl now token ≡ ok (next, item)
    → Change false source next
claim-Change source owner_id ttl now token next none v h =
    kept (ap (λ s. s.items) (claim-none source owner_id ttl now token next h).1)
claim-Change source owner_id ttl now token next (some item) v h =
    let (i, chosen, built, stored) = claim-ok source owner_id ttl now token next item h in
    moved i.command.id i item (stored_value source i v chosen.member)
      (claim_edge owner_id ttl now token chosen.passes built) (ap (λ s. s.items) stored)

-- What `renew` has checked, and what it stores.
pub renew-ok :
    (source : FlowWorkSource) (work_id token : ℕ) (ttl : ℤ) (now : ℕ) (next : FlowWorkSource)
    (item : FlowWorkItem)
    → renew source work_id token ttl now ≡ ok (next, item)
    → (i : FlowWorkItem) × (lookup work_id source.items ≡ some i)
      × (is_live token now i ≡ true)
      × (item ≡ record i { lease_expires_at = some (now + micros ttl); updated_at = now })
      × (next ≡ record source { items = insert work_id item source.items })
unfolding renew
renew-ok source work_id token ttl now next item h =
    elim (Option-cases (lookup work_id source.items)) [
      | inl e ↦ absurd (ground arith)
      | inr (i, e) ↦ (i, e, ground arith, ground arith, ground arith)
    ]

-- The outcome of a method that settles: the item was settled so before, and nothing changes, or
-- the delivery was live and its end is stored.
pub data Settled (source : FlowWorkSource) (work_id token now : ℕ) (status : FlowWorkStatus)
    (s : Settlement) (next : FlowWorkSource) (item : FlowWorkItem) : Type 0 where
  before :
      lookup work_id source.items ≡ some item
      → is_settled_by status token item ≡ true
      → next ≡ source
      → Settled source work_id token now status s next item
  settled_now :
      (i : FlowWorkItem)
      → lookup work_id source.items ≡ some i
      → is_live token now i ≡ true
      → item ≡ settled_item i s now
      → next ≡ record source { items = insert work_id item source.items }
      → Settled source work_id token now status s next item

pub settle_as-Settled :
    (source : FlowWorkSource) (work_id token now : ℕ) (status : FlowWorkStatus) (s : Settlement)
    (next : FlowWorkSource) (i item : FlowWorkItem)
    → is_claimed status ≡ false
    → lookup work_id source.items ≡ some i
    → (is_settled_by status token i || is_live token now i) ≡ true
    → settle_as source work_id i status (settled_item i s now) ≡ (next, item)
    → Settled source work_id token now status s next item
settle_as-Settled source work_id token now status s next i item c e g h =
    elim (Bool-cases (same_work_status i.status status)) [
      | inl was ↦
          let same : i ≡ item = ground arith in
          before (e ∙ ap some same)
            (subst (λ k. is_settled_by status token k ≡ true) same (ground arith)) (ground arith)
      | inr new ↦ settled_now i e (ground arith) (ground arith) (ground arith)
    ]
