-- ===== src/Flows/Work/History.antt =====
-- Histories of calls on the work source: its invariant, and the items that have ended.
use base_agent.Base.{
  ℕ, Bool, true, false, some, List, [], ◌∷◌, ◌==◌, ==_sound, nat_eq, string_eq, option_eq, Result,
  ok, err, Option-cases, Result-cases, Bool-cases, some_inj, ◌≡◌, refl, sym, ◌∙◌, ap, subst, inl,
  inr, arith,
}
use base_agent.Base.Dict.{
  lookup, insert, keys, Entries, insert-Entries, lookup-Entries, insert-all_distinct, lookup-insert,
}
use base_agent.Base.Distinct.{all_distinct}
use base_agent.Models.Json.{Fields}
use base_agent.Flows.Work.Items.{FlowWorkCommand, FlowWorkItem, validate_delivery}
use base_agent.Flows.Work.Source.{FlowWorkSource, new_item, enqueue}
use base_agent.Flows.Work.Life.{Edge-validate_delivery, Edge-command, is_final, Edge-is_final}
use base_agent.Flows.Work.Changes.{IsItem, IsValid, Change, kept, moved, placed}
use base_agent.Flows.Work.Calls.{
  Call, enqueues, reviews, claims, renews, completes_item, blocks_item, retries_item, perform,
  perform-Change, after-ok,
}

new_item-IsItem : (command : FlowWorkCommand) (now : ℕ) → IsItem command.id (new_item command now)
unfolding validate_delivery
new_item-IsItem command now = record { keyed = refl; accepted = refl }

-- An assignment of a valid item keeps the invariant.
assigned :
    (source next : FlowWorkSource) (id : ℕ) (i : FlowWorkItem)
    → next.items ≡ insert id i source.items
    → IsItem id i
    → IsValid source
    → IsValid next
assigned source next id i e item v = record {
  items = subst (Entries IsItem) (sym e) (insert-Entries IsItem id i source.items item v.items);
  distinct =
      subst (λ m. all_distinct (keys m) ≡ true) (sym e)
        (insert-all_distinct id i source.items v.distinct);
}

pub Change-IsValid :
    {places : Bool} {source next : FlowWorkSource}
    → Change places source next
    → IsValid source
    → IsValid next
Change-IsValid (kept e) v = record {
  items = subst (Entries IsItem) (sym e) v.items;
  distinct = subst (λ m. all_distinct (keys m) ≡ true) (sym e) v.distinct;
}
Change-IsValid {source} {next} (moved id i j stored edge e) v =
    let old = lookup-Entries IsItem id source.items v.items stored in
    assigned source next id j e
      (record {
        keyed = ap (λ c. c.id) (Edge-command edge) ∙ old.keyed;
        accepted = Edge-validate_delivery edge old.accepted;
      })
      v
Change-IsValid {source} {next} (placed command now p e) v =
    assigned source next command.id (new_item command now) e (new_item-IsItem command now) v

abbrev pub or_unchanged : FlowWorkSource → Result FlowWorkSource → FlowWorkSource
or_unchanged source (ok next) = next
or_unchanged source (err e) = source

abbrev pub empty : FlowWorkSource
empty = record { items = []; idempotency = []; reviews = []; review_idempotency = [] }

empty-IsValid : IsValid empty
unfolding all_distinct
empty-IsValid = record { items = tt; distinct = refl }

-- A call that places no item leaves a final item as it is.
moved-final :
    (source next : FlowWorkSource) (id : ℕ) (i : FlowWorkItem)
    → lookup id source.items ≡ some i
    → is_final i.status ≡ true
    → Change false source next
    → lookup id next.items ≡ some i
moved-final source next id i h f (kept e) = rw e h
moved-final source next id i h f (moved k a b stored edge e) = elim (Bool-cases (k == id)) [
  | inl same ↦
      let was : a ≡ i =
        some_inj (sym stored ∙ ap (λ n. lookup n source.items) (==_sound k id same) ∙ h) in
      absurd (cc (Edge-is_final edge, ap (λ (n : FlowWorkItem). is_final n.status) was, f))
  | inr other ↦ rw e (rw (lookup-insert k id b source.items, other) h)
]
moved-final source next id i h f (placed command now p e) = absurd (cc)

-- Whether a call enqueues a command that has the id.
abbrev pub enqueues_id : ℕ → Call → Bool
enqueues_id id (enqueues command now) = command.id == id
enqueues_id id _ = false

module _ (same_data : Fields → Fields → Bool) where
  unfoldable pub run : FlowWorkSource → List Call → FlowWorkSource
  run source [] = source
  run source (call ∷ calls) = run (or_unchanged source (perform same_data source call)) calls

  -- Every call that returns keeps each item stored once, under its id, and accepted by the
  -- validator of FlowWorkItem, though the code copies the items without running it.
  pub perform-IsValid :
      (source : FlowWorkSource) (call : Call) (next : FlowWorkSource)
      → IsValid source
      → perform same_data source call ≡ ok next
      → IsValid next
  perform-IsValid source call next v h = Change-IsValid (perform-Change same_data source call v h) v

  run_from-IsValid :
      (source : FlowWorkSource) (calls : List Call) → IsValid source → IsValid (run source calls)
  unfolding run
  run_from-IsValid source [] v = v
  run_from-IsValid source (call ∷ calls) v =
      run_from-IsValid (or_unchanged source (perform same_data source call)) calls
        (elim (Result-cases (perform same_data source call)) [
          | inl (e, f) ↦ rw f v
          | inr (next, f) ↦ rw f (perform-IsValid source call next v f)
        ])

  -- After any calls on a new source, those that fail among them, every item is stored once, under
  -- its id, and the validator of FlowWorkItem accepts it.
  pub run-IsValid : (calls : List Call) → IsValid (run empty calls)
  run-IsValid calls = run_from-IsValid empty calls empty-IsValid

  pub enqueue-final :
      (source : FlowWorkSource) (command : FlowWorkCommand) (now : ℕ) (next : FlowWorkSource)
      (item : FlowWorkItem) (id : ℕ)
      → enqueue same_data source command now ≡ ok (next, item)
      → (command.id == id) ≡ false
      → lookup id next.items ≡ lookup id source.items
  unfolding enqueue
  enqueue-final source command now next item id h other =
      elim (Option-cases (lookup command.idempotency_key source.idempotency)) [
        | inl e ↦
            let built : insert command.id (new_item command now) source.items ≡ next.items =
              ground arith in
            subst (λ m. lookup id m ≡ lookup id source.items) built
              (rw (lookup-insert command.id id (new_item command now) source.items, other) refl)
        | inr (known, e) ↦ ap (λ m. lookup id m) (ground arith)
      ]

  -- An item that is COMPLETED or DISCARDED stays exactly as it is under every call that returns,
  -- unless the call enqueues a command with the item's own id.
  pub perform-final :
      (source : FlowWorkSource) (call : Call) (next : FlowWorkSource) (id : ℕ) (i : FlowWorkItem)
      → IsValid source
      → perform same_data source call ≡ ok next
      → lookup id source.items ≡ some i
      → is_final i.status ≡ true
      → enqueues_id id call ≡ false
      → lookup id next.items ≡ some i
  unfolding perform
  perform-final source (enqueues command now) next id i v h stored f other =
      let (item, e) = after-ok _ h in enqueue-final source command now next item id e other ∙ stored
  perform-final source (reviews r now) next id i v h stored f other =
      moved-final source next id i stored f (perform-Change same_data source (reviews r now) v h)
  perform-final source (claims owner_id ttl now token) next id i v h stored f other =
      moved-final source next id i stored f
        (perform-Change same_data source (claims owner_id ttl now token) v h)
  perform-final source (renews work_id token ttl now) next id i v h stored f other =
      moved-final source next id i stored f
        (perform-Change same_data source (renews work_id token ttl now) v h)
  perform-final source (completes_item work_id token now) next id i v h stored f other =
      moved-final source next id i stored f
        (perform-Change same_data source (completes_item work_id token now) v h)
  perform-final source (blocks_item work_id token reason_code now) next id i v h stored f other =
      moved-final source next id i stored f
        (perform-Change same_data source (blocks_item work_id token reason_code now) v h)
  perform-final source (retries_item work_id token delay error_type now) next id i v h stored f
        other =
      moved-final source next id i stored f
        (perform-Change same_data source (retries_item work_id token delay error_type now) v h)
