-- ===== src/Flows/SideEffects/Listing.antt =====
-- The list that `list_for_invocation` of flows/side_effects.py gives to a reader.
use base_agent.Base.{
  ℕ, Bool, true, false, List, [], ◌∷◌, keep, All, In, here, there, ◌==◌, ==_of_eq, nat_eq, ◌≡◌,
  arith, Bool-cases, inl, inr,
}
use base_agent.Base.Dict.{values}
use base_agent.Flows.SideEffects.Ledger.{
  FlowSideEffect, FlowSideEffectLedger, listed_before, insert_listed, sort_listed,
  list_for_invocation,
}

-- Every element comes before all that follow it.
abbrev pub IsListed : List FlowSideEffect → Type 0
IsListed [] = Unit {0}
IsListed (a ∷ rest) = All (λ b. listed_before a b ≡ true) rest × IsListed rest

All-insert_listed :
    (P : FlowSideEffect → Type 0) (a : FlowSideEffect) (bs : List FlowSideEffect)
    → P a
    → All P bs
    → All P (insert_listed a bs)
unfolding insert_listed
All-insert_listed P a [] p all = (p, tt)
All-insert_listed P a (b ∷ bs) p all = elim (Bool-cases (listed_before a b)) [
  | inl first ↦ rw first (p, all)
  | inr later ↦ rw later (all.0, All-insert_listed P a bs p all.1)
]

before_trans :
    (a b c : FlowSideEffect)
    → listed_before a b ≡ true
    → listed_before b c ≡ true
    → listed_before a c ≡ true
before_trans a b c h k = ground arith

before_total : (a b : FlowSideEffect) → listed_before a b ≡ false → listed_before b a ≡ true
before_total a b h = ground arith

all_before :
    (a b : FlowSideEffect) (bs : List FlowSideEffect)
    → listed_before a b ≡ true
    → All (λ c. listed_before b c ≡ true) bs
    → All (λ c. listed_before a c ≡ true) bs
all_before a b [] h all = tt
all_before a b (c ∷ cs) h all = (before_trans a b c h all.0, all_before a b cs h all.1)

insert_listed-IsListed :
    (a : FlowSideEffect) (bs : List FlowSideEffect) → IsListed bs → IsListed (insert_listed a bs)
unfolding insert_listed
insert_listed-IsListed a [] s = (tt, tt)
insert_listed-IsListed a (b ∷ bs) s = elim (Bool-cases (listed_before a b)) [
  | inl first ↦ rw first ((first, all_before a b bs first s.0), s)
  | inr later ↦ rw later (
    All-insert_listed (λ c. listed_before b c ≡ true) a bs (before_total a b later) s.0,
    insert_listed-IsListed a bs s.1,
  )
]

sort_listed-IsListed : (xs : List FlowSideEffect) → IsListed (sort_listed xs)
unfolding sort_listed
sort_listed-IsListed [] = tt
sort_listed-IsListed (a ∷ rest) =
    insert_listed-IsListed a (sort_listed rest) (sort_listed-IsListed rest)

All-sort_listed :
    (P : FlowSideEffect → Type 0) (xs : List FlowSideEffect) → All P xs → All P (sort_listed xs)
unfolding sort_listed
All-sort_listed P [] all = tt
All-sort_listed P (a ∷ rest) all =
    All-insert_listed P a (sort_listed rest) all.0 (All-sort_listed P rest all.1)

In-insert_listed_self : (a : FlowSideEffect) (bs : List FlowSideEffect) → In a (insert_listed a bs)
unfolding insert_listed
In-insert_listed_self a [] = here
In-insert_listed_self a (b ∷ bs) = elim (Bool-cases (listed_before a b)) [
  | inl first ↦ rw first here
  | inr later ↦ rw later (there (In-insert_listed_self a bs))
]

In-insert_listed :
    (e a : FlowSideEffect) (bs : List FlowSideEffect) → In e bs → In e (insert_listed a bs)
unfolding insert_listed
In-insert_listed e a [] k = elim k [ ]
In-insert_listed e a (b ∷ bs) here = elim (Bool-cases (listed_before a b)) [
  | inl first ↦ rw first (there here)
  | inr later ↦ rw later here
]
In-insert_listed e a (b ∷ bs) (there k) = elim (Bool-cases (listed_before a b)) [
  | inl first ↦ rw first (there (there k))
  | inr later ↦ rw later (there (In-insert_listed e a bs k))
]

In-sort_listed : (e : FlowSideEffect) (xs : List FlowSideEffect) → In e xs → In e (sort_listed xs)
unfolding sort_listed
In-sort_listed e [] k = elim k [ ]
In-sort_listed e (a ∷ rest) here = In-insert_listed_self a (sort_listed rest)
In-sort_listed e (a ∷ rest) (there k) =
    In-insert_listed e a (sort_listed rest) (In-sort_listed e rest k)

kept_pass :
    (p : FlowSideEffect → Bool) (xs : List FlowSideEffect) → All (λ e. p e ≡ true) (keep p xs)
kept_pass p [] = tt
kept_pass p (x ∷ xs) = elim (Bool-cases (p x)) [
  | inl yes_kept ↦ rw yes_kept (yes_kept, kept_pass p xs)
  | inr dropped ↦ rw dropped (kept_pass p xs)
]

passes_kept :
    (p : FlowSideEffect → Bool) (e : FlowSideEffect) (xs : List FlowSideEffect)
    → p e ≡ true
    → In e xs
    → In e (keep p xs)
passes_kept p e [] h k = elim k [ ]
passes_kept p e (x ∷ xs) h here = rw h here
passes_kept p e (x ∷ xs) h (there k) = elim (Bool-cases (p x)) [
  | inl kept ↦ rw kept (there (passes_kept p e xs h k))
  | inr dropped ↦ rw dropped (passes_kept p e xs h k)
]

-- The list for an invocation is in the order of creation time and then id, has only evidence of that
-- invocation, and has all of it that is stored.
pub list_for_invocation-IsListed :
    (ledger : FlowSideEffectLedger) (invocation_id : ℕ)
    → IsListed (list_for_invocation ledger invocation_id)
      × All
          (λ e. (e.invocation_id == invocation_id) ≡ true)
          (list_for_invocation ledger invocation_id)
      × ((e : FlowSideEffect)
          → In e (values ledger.effects)
          → e.invocation_id ≡ invocation_id
          → In e (list_for_invocation ledger invocation_id))
unfolding list_for_invocation
list_for_invocation-IsListed ledger invocation_id =
    let mine : FlowSideEffect → Bool = λ e. e.invocation_id == invocation_id in
    let kept = keep mine (values ledger.effects) in
    (
      sort_listed-IsListed kept,
      All-sort_listed (λ e. mine e ≡ true) kept (kept_pass mine (values ledger.effects)),
      λ e stored own.
          In-sort_listed e kept (passes_kept mine e (values ledger.effects) (==_of_eq own) stored),
    )
