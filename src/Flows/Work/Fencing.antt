-- ===== src/Flows/Work/Fencing.antt =====
-- Deliveries of flows/work.py under tokens and leases.
use base_agent.Base.{
  ℕ, String, true, false, ◌||◌, Option, none, some, All, nat_eq, string_eq, option_eq, Result, ok,
  some_inj, ◌≡◌, refl, sym, ◌∙◌, ap, subst, ◌≢◌, arith, Succeeds,
}
use base_agent.Base.Dict.{lookup, insert, values, lookup-insert_self}
use base_agent.Base.Time.{ℤ}
use base_agent.Flows.Work.Items.{FlowWorkItem, FlowWorkStatus, is_claimed}
use base_agent.Flows.Work.Source.{FlowWorkSource}
use base_agent.Flows.Work.Delivery.{
  claim, renew, complete, block, retry, is_candidate, is_live, is_settled_by,
}
use base_agent.Flows.Work.Choice.{earliest-none}
use base_agent.Flows.Work.Life.{Settlement}
use base_agent.Flows.Work.Changes.{renew-ok, Settled, before, settled_now, claim-ok, claim-none}
use base_agent.Flows.Work.Calls.{complete-Settled, block-Settled, retry-Settled}

-- A delivery under another token is lost in an item that is claimed.
claimed_refuses :
    (i : FlowWorkItem) (token old now : ℕ) (status : FlowWorkStatus)
    → i.status ≡ FlowWorkStatus.claimed
    → i.delivery_token ≡ some token
    → old ≢ token
    → is_claimed status ≡ false
    → (is_settled_by status old i || is_live old now i) ≡ false
claimed_refuses i token old now status s d n c = ground arith

module _ (source next : FlowWorkSource) (work_id token now : ℕ) (item : FlowWorkItem) where
  -- What every way to settle an item needs of it.
  Settled-holds :
      (status : FlowWorkStatus) (s : Settlement) (i : FlowWorkItem)
      → Settled source work_id token now status s next item
      → lookup work_id source.items ≡ some i
      → (is_settled_by status token i || is_live token now i) ≡ true
  Settled-holds status s i (before e w n) h =
      subst (λ k. (is_settled_by status token k || is_live token now k) ≡ true)
        (some_inj (sym e ∙ h)) (ground arith)
  Settled-holds status s i (settled_now j e l b n) h =
      subst (λ k. (is_settled_by status token k || is_live token now k) ≡ true)
        (some_inj (sym e ∙ h)) (ground arith)

-- What a worker may do to an item under a delivery token.
pub data Move : Type 0 where
  renews_lease : ℤ → Move
  completes_work : Move
  blocks_work : (reason_code : String) → Move
  retries_work : ℤ → (error_type : Option String) → Move

abbrev pub move : FlowWorkSource → ℕ → ℕ → ℕ → Move → Result (FlowWorkSource × FlowWorkItem)
move source work_id token now (renews_lease ttl) = renew source work_id token ttl now
move source work_id token now completes_work = complete source work_id token now
move source work_id token now (blocks_work reason_code) = block source work_id token reason_code now
move source work_id token now (retries_work delay error_type) =
    retry source work_id token delay error_type now

pub moves_only_live :
    (source : FlowWorkSource) (work_id token old now : ℕ) (m : Move) (i : FlowWorkItem)
    → lookup work_id source.items ≡ some i
    → i.status ≡ FlowWorkStatus.claimed
    → i.delivery_token ≡ some token
    → old ≢ token
    → ¬ Succeeds (move source work_id old now m)
moves_only_live source work_id token old now (renews_lease ttl) i h s d n ((next, item), e) =
    let (j, stored, live, built, after) = renew-ok source work_id old ttl now next item e in
    let same : j ≡ i = some_inj (sym stored ∙ h) in
    cc (
      claimed_refuses i token old now FlowWorkStatus.completed s d n refl,
      subst (λ k. (is_settled_by FlowWorkStatus.completed old k || is_live old now k) ≡ true) same
          (ground arith),
    )
moves_only_live source work_id token old now completes_work i h s d n ((next, item), e) = cc (
  claimed_refuses i token old now FlowWorkStatus.completed s d n refl,
  Settled-holds source next work_id old now item _ _ i
      (complete-Settled source work_id old now next item e) h,
)
moves_only_live source work_id token old now (blocks_work reason) i h s d n ((next, item), e) = cc (
  claimed_refuses i token old now FlowWorkStatus.blocked s d n refl,
  Settled-holds source next work_id old now item _ _ i
      (block-Settled source work_id old now next item reason e) h,
)
moves_only_live source work_id token old now (retries_work delay error) i h s d n
      ((next, item), e) =
    cc (
      claimed_refuses i token old now FlowWorkStatus.pending s d n refl,
      Settled-holds source next work_id old now item _ _ i
          (retry-Settled source work_id old now next item delay error e) h,
    )

-- The item that a claim returns is stored under its id.
pub claim-stored :
    (source : FlowWorkSource) (owner_id : String) (ttl : ℤ) (now token : ℕ) (next : FlowWorkSource)
    (item : FlowWorkItem)
    → claim source owner_id ttl now token ≡ ok (next, some item)
    → lookup item.command.id next.items ≡ some item
claim-stored source owner_id ttl now token next item h =
    let (i, chosen, built, stored) = claim-ok source owner_id ttl now token next item h in
    subst (λ k. lookup item.command.id k.items ≡ some item) (sym stored)
      (subst (λ (k : ℕ). lookup item.command.id (insert k item source.items) ≡ some item)
        (ap (λ (k : FlowWorkItem). k.command.id) built)
        (lookup-insert_self item.command.id item source.items))

-- After a claim, nobody moves the item under another token: a worker whose delivery was taken over
-- can neither renew, complete, block nor retry it, at any time.
pub claim-fences :
    (source : FlowWorkSource) (owner_id : String) (ttl : ℤ) (now token : ℕ) (next : FlowWorkSource)
    (item : FlowWorkItem) (old later : ℕ) (m : Move)
    → claim source owner_id ttl now token ≡ ok (next, some item)
    → old ≢ token
    → ¬ Succeeds (move next item.command.id old later m)
claim-fences source owner_id ttl now token next item old later m h n =
    let (i, chosen, built, stored) = claim-ok source owner_id ttl now token next item h in
    moves_only_live next item.command.id token old later m item
      (claim-stored source owner_id ttl now token next item h) (ap (λ k. k.status) built)
      (ap (λ k. k.delivery_token) built) n

-- A claim that returns nothing leaves the source as it is, and no item was a candidate then.
pub claim-none_candidate :
    (source : FlowWorkSource) (owner_id : String) (ttl : ℤ) (now token : ℕ) (next : FlowWorkSource)
    → claim source owner_id ttl now token ≡ ok (next, none)
    → (next ≡ source) × All (λ i. is_candidate now i ≡ false) (values source.items)
claim-none_candidate source owner_id ttl now token next h =
    let (e, same) = claim-none source owner_id ttl now token next h in
    (same, earliest-none (is_candidate now) (values source.items) e)
