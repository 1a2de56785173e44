-- ===== src/Flows/Work/Exclusion.antt =====
-- A delivery of flows/work.py under any calls of other workers, until its lease runs out.
use base_agent.Base.{
  ℕ, ◌+◌, ◌<◌, String, Bool, true, ◌&&◌, ◌||◌, not, some, leb, ltb, List, [], ◌∷◌, all_of, ◌==◌,
  ==_of_eq, nat_eq, string_eq, option_eq, ok, Result-cases, ◌≡◌, ◌∙◌, ap, ◌≢◌, inl, inr, arith,
}
use base_agent.Base.Dict.{lookup}
use base_agent.Base.Time.{ℤ, micros}
use base_agent.Models.Json.{Fields}
use base_agent.Flows.Work.Items.{FlowWorkItem}
use base_agent.Flows.Work.Source.{FlowWorkSource}
use base_agent.Flows.Work.Delivery.{claim}
use base_agent.Flows.Work.Changes.{IsValid, claim-ok, claim-Change}
use base_agent.Flows.Work.Calls.{
  Call, enqueues, reviews, claims, renews, completes_item, blocks_item, retries_item, perform,
  after-ok, after_review-ok,
}
use base_agent.Flows.Work.History.{run, perform-IsValid, Change-IsValid, enqueue-final}
use base_agent.Flows.Work.Fencing.{completes_work, blocks_work, retries_work, claim-stored}
use base_agent.Flows.Work.Delivered.{
  IsDelivered, Delivered, delivered, unclaimed, claim-Delivered, review-Delivered,
  foreign-Delivered, renew-Delivered,
}

-- The calls that leave a delivery under its token alone: claims before `limit`, moves of other items or
-- under other tokens, renewals that do not end before `limit`, and commands of other ids.
abbrev pub leaves_delivery : ℕ → ℕ → ℕ → Call → Bool
leaves_delivery id token limit (enqueues command now) = not (command.id == id)
leaves_delivery id token limit (reviews r now) = true
leaves_delivery id token limit (claims owner_id ttl now drawn) = ltb now limit
leaves_delivery id token limit (renews work_id t ttl now) =
    not (work_id == id && t == token) || leb limit (now + micros ttl)
leaves_delivery id token limit (completes_item work_id t now) = not (work_id == id && t == token)
leaves_delivery id token limit (blocks_item work_id t reason_code now) =
    not (work_id == id && t == token)
leaves_delivery id token limit (retries_item work_id t delay error_type now) =
    not (work_id == id && t == token)

all_of-cons :
    (p : Call → Bool) (call : Call) (calls : List Call)
    → all_of p (call ∷ calls) ≡ true
    → (p call ≡ true) × (all_of p calls ≡ true)
all_of-cons p call calls h = (ground arith, ground arith)

module _ (same_data : Fields → Fields → Bool) where
  perform-Delivered :
      (source : FlowWorkSource) (call : Call) (next : FlowWorkSource) (id token limit : ℕ)
      (item : FlowWorkItem)
      → IsValid source
      → lookup id source.items ≡ some item
      → IsDelivered item token limit
      → leaves_delivery id token limit call ≡ true
      → perform same_data source call ≡ ok next
      → Delivered next id token limit
  unfolding perform
  perform-Delivered source (enqueues command now) next id token limit item v s d l h =
      let (i, e) = after-ok _ h in
      delivered item (enqueue-final same_data source command now next i id e (ground arith) ∙ s) d
  perform-Delivered source (reviews r now) next id token limit item v s d l h =
      let (a, i, e) = after_review-ok _ h in
      review-Delivered source id token limit item s d v r now next a i e
  perform-Delivered source (claims owner_id ttl now drawn) next id token limit item v s d l h =
      let (i, e) = after-ok _ h in
      claim-Delivered source id token limit item s d v owner_id ttl now drawn next i e
        (ground arith)
  perform-Delivered source (renews work_id t ttl now) next id token limit item v s d l h =
      let (i, e) = after-ok _ h in
      renew-Delivered source id token limit item s d v work_id t now ttl next i e l
  perform-Delivered source (completes_item work_id t now) next id token limit item v s d l h =
      let (i, e) = after-ok _ h in
      foreign-Delivered source id token limit item s d v work_id t now completes_work next i e
        (ground arith)
  perform-Delivered source (blocks_item work_id t reason now) next id token limit item v s d l h =
      let (i, e) = after-ok _ h in
      foreign-Delivered source id token limit item s d v work_id t now (blocks_work reason) next i e
        (ground arith)
  perform-Delivered source (retries_item work_id t delay error now) next id token limit item v s d l
        h =
      let (i, e) = after-ok _ h in
      foreign-Delivered source id token limit item s d v work_id t now (retries_work delay error)
        next i e (ground arith)

  run-Delivered :
      (source : FlowWorkSource) (calls : List Call) (id token limit : ℕ)
      → IsValid source
      → Delivered source id token limit
      → all_of (leaves_delivery id token limit) calls ≡ true
      → IsValid (run same_data source calls) × Delivered (run same_data source calls) id token limit
  unfolding run
  run-Delivered source [] id token limit v d all = (v, d)
  run-Delivered source (call ∷ calls) id token limit v (delivered item s d) all =
      let (now, rest) = all_of-cons (leaves_delivery id token limit) call calls all in
      elim (Result-cases (perform same_data source call)) [
        | inl (e, f) ↦ rw f (run-Delivered source calls id token limit v (delivered item s d) rest)
        | inr (next, f) ↦ rw f (
            run-Delivered next calls id token limit (perform-IsValid same_data source call next v f)
              (perform-Delivered source call next id token limit item v s d now f) rest)
      ]

  -- After a claim of an item in a valid source, and any calls, those that fail among them, that enqueue no command with the id of the
  -- claimed item, do not use the token to end the delivery or to shorten its lease, and claim before the
  -- lease of the claim runs out, a claim before then takes another item.
  pub claim-excludes :
      (source : FlowWorkSource) (owner_id : String) (ttl : ℤ) (now token : ℕ)
      (next : FlowWorkSource) (item : FlowWorkItem) (calls : List Call) (other : String) (ttl' : ℤ)
      (later token' : ℕ) (after : FlowWorkSource) (taken : FlowWorkItem)
      → IsValid source
      → claim source owner_id ttl now token ≡ ok (next, some item)
      → all_of (leaves_delivery item.command.id token (now + micros ttl)) calls ≡ true
      → later < now + micros ttl
      → claim (run same_data next calls) other ttl' later token' ≡ ok (after, some taken)
      → taken.command.id ≢ item.command.id
  claim-excludes source owner_id ttl now token next item calls other ttl' later token' after taken v
        h leave in_time again same =
      let (i, chosen, built, stored) = claim-ok source owner_id ttl now token next item h in
      let next_valid : IsValid next =
        Change-IsValid (claim-Change source owner_id ttl now token next (some item) v h) v in
      let fresh : IsDelivered item token (now + micros ttl) = record {
        claimed = ap (λ (k : FlowWorkItem). k.status) built;
        held = ap (λ (k : FlowWorkItem). k.delivery_token) built;
        expires = now + micros ttl;
        lease = ap (λ (k : FlowWorkItem). k.lease_expires_at) built;
        enough = omega arith;
      } in
      let (valid, kept) =
        run-Delivered next calls item.command.id token (now + micros ttl) next_valid
          (delivered item (claim-stored source owner_id ttl now token next item h) fresh) leave in
      refused valid kept
    where
      refused :
          IsValid (run same_data next calls)
          → Delivered (run same_data next calls) item.command.id token (now + micros ttl)
          → ⊥
      refused valid (delivered held s d) =
          let (apart, _) =
            unclaimed (run same_data next calls) item.command.id token (now + micros ttl) held s d
              valid other ttl' later token' after taken again in_time in
          absurd (cc (apart, ==_of_eq same))
