-- ===== src/Flows/Work/Claims.antt =====
-- What a claim of flows/work.py takes, by a description of its own.
use base_agent.Base.{
  ℕ, ◌+◌, ◌<◌, ◌≤◌, String, true, false, Option, some, In, here, there, All, List, [], ◌∷◌, nat_eq,
  string_eq, option_eq, ok, ◌≡◌, refl, sym, ◌∙◌, ap, arith, ◌⊎◌, inl, inr, ◌==◌,
}
use base_agent.Base.Dict.{lookup, values, lookup-insert}
use base_agent.Base.Time.{ℤ, micros}
use base_agent.Flows.Work.Items.{FlowWorkItem, FlowWorkStatus}
use base_agent.Flows.Work.Source.{FlowWorkSource}
use base_agent.Flows.Work.Delivery.{claim, is_candidate, earlier}
use base_agent.Flows.Work.Changes.{IsValid, claim-ok, stored_value}
use base_agent.Flows.Work.Fencing.{claim-stored}

-- An item that may be delivered: it waits and is available, or its delivery has run out.
pub data Eligible (now : ℕ) (i : FlowWorkItem) : Type 0 where
  waits : i.status ≡ FlowWorkStatus.pending → i.available_at ≤ now → Eligible now i
  ran_out :
      (expires : ℕ)
      → i.status ≡ FlowWorkStatus.claimed
      → i.lease_expires_at ≡ some expires
      → expires ≤ now
      → Eligible now i

-- The order by availability, then by creation of the command, then by its id.
abbrev pub Precedes : FlowWorkItem → FlowWorkItem → Type 0
Precedes a b =
    (a.available_at < b.available_at)
    ⊎ ((a.available_at ≡ b.available_at)
        × ((a.command.created_at < b.command.created_at)
            ⊎ ((a.command.created_at ≡ b.command.created_at) × (a.command.id < b.command.id))))

candidate-Eligible : (now : ℕ) (i : FlowWorkItem) → is_candidate now i ≡ true → Eligible now i
candidate-Eligible now i h = go i.status i.lease_expires_at refl refl
  where
    go :
        (status : FlowWorkStatus) (lease : Option ℕ)
        → i.status ≡ status
        → i.lease_expires_at ≡ lease
        → Eligible now i
    go FlowWorkStatus.pending lease s l = waits s (ground arith)
    go FlowWorkStatus.claimed (some expires) s l = ran_out expires s l (ground arith)
    go status lease s l = absurd (ground arith)

Eligible-candidate : (now : ℕ) (i : FlowWorkItem) → Eligible now i → is_candidate now i ≡ true
Eligible-candidate now i (waits s a) = rw s (ground arith)
Eligible-candidate now i (ran_out expires s l a) = rw (s, l) (ground arith)

Precedes-earlier : (a b : FlowWorkItem) → Precedes a b → earlier a b ≡ true
Precedes-earlier a b (inl first) = ground arith
Precedes-earlier a b (inr (same, inl first)) = ground arith
Precedes-earlier a b (inr (same, inr (again, first))) = ground arith

All-In :
    (P : FlowWorkItem → Type 0) (is : List FlowWorkItem) {i : FlowWorkItem}
    → All P is
    → In i is
    → P i
All-In P [] all k = elim k [ ]
All-In P (j ∷ is) all here = all.0
All-In P (j ∷ is) all (there k) = All-In P is all.1 k

-- What a worker that claims an item holds, and what became of the source.
pub record IsFirstClaim (source next : FlowWorkSource) (owner_id : String) (ttl : ℤ) (now token : ℕ)
    (item : FlowWorkItem) : Type 0 where
  pub chosen : FlowWorkItem
  pub found : lookup item.command.id source.items ≡ some chosen
  pub eligible : Eligible now chosen
  pub first : (j : FlowWorkItem) → In j (values source.items) → Eligible now j → ¬ Precedes j chosen
  pub command : item.command ≡ chosen.command
  pub status : item.status ≡ FlowWorkStatus.claimed
  pub attempt : item.attempt ≡ chosen.attempt + 1
  pub available_at : item.available_at ≡ chosen.available_at
  pub owner : item.owner_id ≡ some owner_id
  pub delivery_token : item.delivery_token ≡ some token
  pub claimed_at : item.claimed_at ≡ some now
  pub lease_expires_at : item.lease_expires_at ≡ some (now + micros ttl)
  pub stored : lookup item.command.id next.items ≡ some item
  pub others :
      (id : ℕ) → (item.command.id == id) ≡ false → lookup id next.items ≡ lookup id source.items

-- In a valid source, a claim that returns an item takes a stored one that waits and is available, or
-- whose lease has run out, and that no other such item precedes by availability, creation and id. The
-- item is stored as claimed, for the owner and under the token, with one more attempt and a lease for the time to live;
-- the items of other ids are as before.
pub claim-IsFirstClaim :
    (source : FlowWorkSource) (owner_id : String) (ttl : ℤ) (now token : ℕ) (next : FlowWorkSource)
    (item : FlowWorkItem)
    → IsValid source
    → claim source owner_id ttl now token ≡ ok (next, some item)
    → IsFirstClaim source next owner_id ttl now token item
claim-IsFirstClaim source owner_id ttl now token next item v h =
    let (i, picked, built, after) = claim-ok source owner_id ttl now token next item h in
    let named : item.command.id ≡ i.command.id = ap (λ (k : FlowWorkItem). k.command.id) built in
    record {
      chosen = i;
      found = ap (λ k. lookup k source.items) named ∙ stored_value source i v picked.member;
      eligible = candidate-Eligible now i picked.passes;
      first = λ j member e sooner. absurd (
          cc (
            All-In _ (values source.items) picked.first member (Eligible-candidate now j e),
            Precedes-earlier j i sooner,
          ));
      command = ap (λ (k : FlowWorkItem). k.command) built;
      status = ap (λ (k : FlowWorkItem). k.status) built;
      attempt = ap (λ (k : FlowWorkItem). k.attempt) built;
      available_at = ap (λ (k : FlowWorkItem). k.available_at) built;
      owner = ap (λ (k : FlowWorkItem). k.owner_id) built;
      delivery_token = ap (λ (k : FlowWorkItem). k.delivery_token) built;
      claimed_at = ap (λ (k : FlowWorkItem). k.claimed_at) built;
      lease_expires_at = ap (λ (k : FlowWorkItem). k.lease_expires_at) built;
      stored = claim-stored source owner_id ttl now token next item h;
      others = λ id other.
          ap (λ k. lookup id k.items) after
          ∙ rw
              (
                lookup-insert i.command.id id item source.items,
                sym (ap (λ (k : ℕ). k == id) named) ∙ other,
              )
              refl;
    }
