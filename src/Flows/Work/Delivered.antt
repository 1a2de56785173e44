-- ===== src/Flows/Work/Delivered.antt =====
-- A work item of flows/work.py that is delivered under a token, under one call of each method.
use base_agent.Base.{
  ℕ, ◌+◌, ◌<◌, ◌≤◌, String, true, false, ◌&&◌, ◌||◌, not, Option, none, some, leb, ◌==◌, ==_sound,
  ==_refl, nat_eq, string_eq, option_eq, ok, Option-cases, Bool-cases, some_inj, ◌≡◌, sym, ◌∙◌, ap,
  ◌≢◌, inl, inr, arith,
}
use base_agent.Base.Dict.{lookup, lookup-Entries, insert, lookup-insert, lookup-insert_self}
use base_agent.Base.Time.{ℤ, micros}
use base_agent.Flows.Work.Items.{FlowWorkItem, FlowWorkReview, FlowWorkStatus, is_blocked}
use base_agent.Flows.Work.Source.{FlowWorkSource, review, apply_review}
use base_agent.Flows.Work.Delivery.{claim, renew, is_candidate}
use base_agent.Flows.Work.Life.{Settlement}
use base_agent.Flows.Work.Changes.{
  IsItem, IsValid, claim-ok, claim-none, renew-ok, Settled, before, settled_now, stored_value,
}
use base_agent.Flows.Work.Calls.{complete-Settled, block-Settled, retry-Settled}
use base_agent.Flows.Work.Fencing.{
  Move, move, renews_lease, completes_work, blocks_work, retries_work, moves_only_live,
}

-- An item that is delivered under the token, with a lease up to `limit` at least.
pub record IsDelivered (item : FlowWorkItem) (token limit : ℕ) : Type 0 where
  pub claimed : item.status ≡ FlowWorkStatus.claimed
  pub held : item.delivery_token ≡ some token
  pub expires : ℕ
  pub lease : item.lease_expires_at ≡ some expires
  pub enough : limit ≤ expires

-- The stored item of the id.
pub data Delivered (source : FlowWorkSource) (id token limit : ℕ) : Type 0 where
  delivered :
      (item : FlowWorkItem)
      → lookup id source.items ≡ some item
      → IsDelivered item token limit
      → Delivered source id token limit

not_candidate :
    (item : FlowWorkItem) (token limit now : ℕ)
    → IsDelivered item token limit
    → now < limit
    → is_candidate now item ≡ false
not_candidate item token limit now d early = rw (d.claimed, d.lease) (ground (arith, d.enough))

-- An assignment to another id.
assigned_other :
    (source next : FlowWorkSource) (id k : ℕ) (item j : FlowWorkItem)
    → lookup id source.items ≡ some item
    → (k == id) ≡ false
    → next.items ≡ insert k j source.items
    → lookup id next.items ≡ some item
assigned_other source next id k item j h other e =
    rw e (rw (lookup-insert k id j source.items, other) h)

module _ (source : FlowWorkSource) (id token limit : ℕ) (item : FlowWorkItem)
    (stored : lookup id source.items ≡ some item) (d : IsDelivered item token limit)
    (v : IsValid source) where
  -- Only a candidate is claimed, and the item is none.
  pub unclaimed :
      (owner_id : String) (ttl : ℤ) (now drawn : ℕ) (next : FlowWorkSource) (taken : FlowWorkItem)
      → claim source owner_id ttl now drawn ≡ ok (next, some taken)
      → now < limit
      → ((taken.command.id == id) ≡ false) × (lookup id next.items ≡ some item)
  unclaimed owner_id ttl now drawn next taken h early =
      let (i, chosen, built, after) = claim-ok source owner_id ttl now drawn next taken h in
      let named : taken.command.id ≡ i.command.id = ap (λ (k : FlowWorkItem). k.command.id) built in
      elim (Bool-cases (i.command.id == id)) [
        | inl same ↦
            let one : i ≡ item = some_inj (
              sym (stored_value source i v chosen.member)
              ∙ ap (λ k. lookup k source.items) (==_sound i.command.id id same)
              ∙ stored) in
            absurd (
              cc (
                chosen.passes,
                ap (is_candidate now) one,
                not_candidate item token limit now d early,
              ))
        | inr other ↦ (
          ap (λ (k : ℕ). k == id) named ∙ other,
          assigned_other source next id i.command.id item taken stored other
              (ap (λ s. s.items) after),
        )
      ]

  pub claim-Delivered :
      (owner_id : String) (ttl : ℤ) (now drawn : ℕ) (next : FlowWorkSource)
      (taken : Option FlowWorkItem)
      → claim source owner_id ttl now drawn ≡ ok (next, taken)
      → now < limit
      → Delivered next id token limit
  claim-Delivered owner_id ttl now drawn next none h early =
      let same = (claim-none source owner_id ttl now drawn next h).1 in
      delivered item (rw same stored) d
  claim-Delivered owner_id ttl now drawn next (some taken) h early =
      delivered item (unclaimed owner_id ttl now drawn next taken h early).1 d

  unreviewed :
      (r : FlowWorkReview) (i j : FlowWorkItem) (next : FlowWorkSource)
      → lookup r.work_id source.items ≡ some i
      → is_blocked i.status ≡ true
      → next.items ≡ insert i.command.id j source.items
      → lookup id next.items ≡ some item
  unreviewed r i j next e blocked built =
      let keyed = (lookup-Entries IsItem r.work_id source.items v.items e).keyed in
      elim (Bool-cases (i.command.id == id)) [
        | inl same ↦
            let one : i ≡ item = some_inj (
              sym e
              ∙ ap (λ k. lookup k source.items) (sym keyed ∙ ==_sound i.command.id id same)
              ∙ stored) in
            let contrary : i.status ≡ FlowWorkStatus.claimed =
              ap (λ (k : FlowWorkItem). k.status) one ∙ d.claimed in
            absurd (cc (blocked, ap is_blocked contrary))
        | inr other ↦ assigned_other source next id i.command.id item j stored other built
      ]

  -- Only a blocked item is reviewed.
  pub review-Delivered :
      (r : FlowWorkReview) (now : ℕ) (next : FlowWorkSource) (persisted : FlowWorkReview)
      (reviewed : FlowWorkItem)
      → review source r now ≡ ok (next, persisted, reviewed)
      → Delivered next id token limit
  unfolding review
  review-Delivered r now next persisted reviewed h =
      elim (Option-cases (lookup r.idempotency_key source.review_idempotency)) [
        | inr (existing, k) ↦ elim (Option-cases (lookup existing.work_id source.items)) [
          | inl e ↦ absurd (ground arith)
          | inr (i, e) ↦
              let same : next.items ≡ source.items = ground arith in
              delivered item (ap (lookup id) same ∙ stored) d
        ]
        | inl k ↦ elim (Option-cases (lookup r.work_id source.items)) [
          | inl e ↦ absurd (ground arith)
          | inr (i, e) ↦
              let blocked : is_blocked i.status ≡ true = ground arith in
              let built : next.items ≡ insert i.command.id (apply_review i r now) source.items =
                ground arith in
              delivered item (unreviewed r i (apply_review i r now) next e blocked built) d
        ]
      ]

  Settled-other :
      (work_id t now : ℕ) (status : FlowWorkStatus) (s : Settlement) (next : FlowWorkSource)
      (settled : FlowWorkItem)
      → Settled source work_id t now status s next settled
      → (work_id == id) ≡ false
      → Delivered next id token limit
  Settled-other work_id t now status s next settled (before e w n) other =
      delivered item (rw n stored) d
  Settled-other work_id t now status s next settled (settled_now i e l b n) other =
      delivered item
        (assigned_other source next id work_id item settled stored other (ap (λ k. k.items) n)) d

  renewed_other :
      (work_id t now : ℕ) (ttl : ℤ) (next : FlowWorkSource) (renewed : FlowWorkItem)
      → move source work_id t now (renews_lease ttl) ≡ ok (next, renewed)
      → (work_id == id) ≡ false
      → Delivered next id token limit
  renewed_other work_id t now ttl next renewed h other =
      let (i, found, live, built, n) = renew-ok source work_id t ttl now next renewed h in
      delivered item
        (assigned_other source next id work_id item renewed stored other (ap (λ k. k.items) n)) d

  moved_other :
      (work_id t now : ℕ) (m : Move) (next : FlowWorkSource) (i : FlowWorkItem)
      → move source work_id t now m ≡ ok (next, i)
      → (work_id == id) ≡ false
      → Delivered next id token limit
  moved_other work_id t now (renews_lease ttl) next i h other =
      renewed_other work_id t now ttl next i h other
  moved_other work_id t now completes_work next i h other =
      Settled-other work_id t now _ _ next i (complete-Settled source work_id t now next i h) other
  moved_other work_id t now (blocks_work reason_code) next i h other =
      Settled-other work_id t now _ _ next i
        (block-Settled source work_id t now next i reason_code h) other
  moved_other work_id t now (retries_work delay error_type) next i h other =
      Settled-other work_id t now _ _ next i
        (retry-Settled source work_id t now next i delay error_type h) other

  -- A move of the item under another token fails, and one of another item leaves it alone.
  pub foreign-Delivered :
      (work_id t now : ℕ) (m : Move) (next : FlowWorkSource) (i : FlowWorkItem)
      → move source work_id t now m ≡ ok (next, i)
      → (work_id == id && t == token) ≡ false
      → Delivered next id token limit
  foreign-Delivered work_id t now m next i h foreign = elim (Bool-cases (work_id == id)) [
    | inr other ↦ moved_other work_id t now m next i h other
    | inl same ↦
        let differs : t ≢ token =
          λ e. absurd (ground (arith, ==_refl token, ap (λ (k : ℕ). k == token) e)) in
        absurd (
          moves_only_live source work_id token t now m item
            (ap (λ k. lookup k source.items) (==_sound work_id id same) ∙ stored) d.claimed d.held
            differs ((next, i), h))
  ]

  -- A renewal under the own token keeps a lease that is long enough.
  renewed-Delivered :
      (t now : ℕ) (ttl : ℤ) (next : FlowWorkSource) (renewed : FlowWorkItem)
      → renew source id t ttl now ≡ ok (next, renewed)
      → limit ≤ now + micros ttl
      → Delivered next id token limit
  renewed-Delivered t now ttl next renewed h enough =
      let (i, found, live, built, n) = renew-ok source id t ttl now next renewed h in
      let one : i ≡ item = some_inj (sym found ∙ stored) in
      delivered renewed (ap (λ k. lookup id k.items) n ∙ lookup-insert_self id renewed source.items)
        (record {
          claimed =
              ap (λ (k : FlowWorkItem). k.status) built
              ∙ ap (λ (k : FlowWorkItem). k.status) one
              ∙ d.claimed;
          held =
              ap (λ (k : FlowWorkItem). k.delivery_token) built
              ∙ ap (λ (k : FlowWorkItem). k.delivery_token) one
              ∙ d.held;
          expires = now + micros ttl;
          lease = ap (λ (k : FlowWorkItem). k.lease_expires_at) built;
          enough = enough;
        })

  pub renew-Delivered :
      (work_id t now : ℕ) (ttl : ℤ) (next : FlowWorkSource) (renewed : FlowWorkItem)
      → renew source work_id t ttl now ≡ ok (next, renewed)
      → (not (work_id == id && t == token) || leb limit (now + micros ttl)) ≡ true
      → Delivered next id token limit
  renew-Delivered work_id t now ttl next renewed h leaves =
      elim (Bool-cases (work_id == id && t == token)) [
        | inr foreign ↦ foreign-Delivered work_id t now (renews_lease ttl) next renewed h foreign
        | inl own ↦
            let same : work_id ≡ id = ==_sound work_id id (ground arith) in
            renewed-Delivered t now ttl next renewed
              (ap (λ k. renew source k t ttl now) (sym same) ∙ h) (ground arith)
      ]
