-- ===== src/Flows/Work/Choice.antt =====
-- The choice of an item by `claim` of flows/work.py.
use base_agent.Base.{
  Bool, true, false, none, some, List, [], ◌∷◌, All, In, here, there, keep, nat_eq, string_eq,
  option_eq, if◌then◌else◌, Bool-cases, some_inj, ◌≡◌, refl, sym, ◌∙◌, ap, subst, inl, inr, arith,
}
use base_agent.Flows.Work.Items.{FlowWorkItem}
use base_agent.Flows.Work.Delivery.{earlier, earliest, earliest_from}

-- `earlier` is a strict order, whose complement is transitive.
earlier_mono :
    (a b c : FlowWorkItem) → earlier a b ≡ true → earlier a c ≡ false → earlier b c ≡ false
earlier_mono a b c h k = ground arith

not_earlier_trans :
    (a b c : FlowWorkItem) → earlier a b ≡ false → earlier b c ≡ false → earlier a c ≡ false
not_earlier_trans a b c h k = ground arith

earlier_irrefl : (a : FlowWorkItem) → earlier a a ≡ false
earlier_irrefl a = ground arith

-- What no item of a list precedes.
abbrev pub IsLeast : FlowWorkItem → List FlowWorkItem → Type 0
IsLeast a = All (λ i. earlier i a ≡ false)

earliest_from-IsLeast :
    (best : FlowWorkItem) (is : List FlowWorkItem)
    → (earlier best (earliest_from best is) ≡ false) × IsLeast (earliest_from best is) is
unfolding earliest_from
earliest_from-IsLeast best [] = (earlier_irrefl best, tt)
earliest_from-IsLeast best (i ∷ is) = elim (Bool-cases (earlier i best)) [
  | inl sooner ↦
      let (first, rest) = earliest_from-IsLeast i is in
      subst goal (ap (λ t. if t then i else best) (sym sooner))
        (earlier_mono i best (earliest_from i is) sooner first, (first, rest))
  | inr later ↦
      let (first, rest) = earliest_from-IsLeast best is in
      subst goal (ap (λ t. if t then i else best) (sym later))
        (first, (not_earlier_trans i best (earliest_from best is) later first, rest))
]
  where
    goal : FlowWorkItem → Type 0
    goal b = (earlier best (earliest_from b is) ≡ false) × IsLeast (earliest_from b is) (i ∷ is)

earliest_from-In :
    (best : FlowWorkItem) (is : List FlowWorkItem) → In (earliest_from best is) (best ∷ is)
unfolding earliest_from
earliest_from-In best [] = here
earliest_from-In best (i ∷ is) = elim (Bool-cases (earlier i best)) [
  | inl sooner ↦ rw sooner (there (earliest_from-In i is))
  | inr later ↦ rw later (skip (earliest_from-In best is))
]
  where
    skip : {a : FlowWorkItem} → In a (best ∷ is) → In a (best ∷ i ∷ is)
    skip here = here
    skip (there k) = there (there k)

-- The candidates of a claim are the values that pass its condition.
In-keep_head :
    (p : FlowWorkItem → Bool) (i a : FlowWorkItem) (is kept : List FlowWorkItem)
    → (In a kept → In a is × (p a ≡ true))
    → p i ≡ true
    → In a (i ∷ kept)
    → In a (i ∷ is) × (p a ≡ true)
In-keep_head p i a is kept rest q here = (here, q)
In-keep_head p i a is kept rest q (there k) = let (j, r) = rest k in (there j, r)

In-keep :
    (p : FlowWorkItem → Bool) (is : List FlowWorkItem) (a : FlowWorkItem)
    → In a (keep p is)
    → In a is × (p a ≡ true)
In-keep p [] a k = elim k [ ]
In-keep p (i ∷ is) a k = elim (Bool-cases (p i)) [
  | inl kept ↦
      In-keep_head p i a is (keep p is) (In-keep p is a) kept
        (subst (In a) (ap (λ t. if t then i ∷ keep p is else keep p is) kept) k)
  | inr dropped ↦
      let (j, q) =
        In-keep p is a
          (subst (In a) (ap (λ t. if t then i ∷ keep p is else keep p is) dropped) k) in
      (there j, q)
]

-- What holds of all that is kept holds of every item that passes.
All-keep {κ} :
    (p : FlowWorkItem → Bool) (P : FlowWorkItem → Type κ) (is : List FlowWorkItem)
    → All P (keep p is)
    → All (λ i. p i ≡ true → P i) is
All-keep p P [] h = tt
All-keep p P (i ∷ is) h = elim (Bool-cases (p i)) [
  | inl kept ↦
      let (first, rest) = subst (All P) (ap (λ t. if t then i ∷ keep p is else keep p is) kept) h in
      (λ _. first, All-keep p P is rest)
  | inr dropped ↦ (
    λ q. absurd (cc (q, dropped)),
    All-keep p P is (subst (All P) (ap (λ t. if t then i ∷ keep p is else keep p is) dropped) h),
  )
]

-- The chosen candidate: it is one of the items, it passes, and no item that passes precedes it.
pub record IsChosen (p : FlowWorkItem → Bool) (is : List FlowWorkItem) (a : FlowWorkItem)
    : Type 0 where
  pub member : In a is
  pub passes : p a ≡ true
  pub first : All (λ i. p i ≡ true → earlier i a ≡ false) is

pub earliest-IsChosen :
    (p : FlowWorkItem → Bool) (is : List FlowWorkItem) (a : FlowWorkItem)
    → earliest (keep p is) ≡ some a
    → IsChosen p is a
unfolding earliest
earliest-IsChosen p is a h = go (keep p is) refl h
  where
    go : (kept : List FlowWorkItem) → keep p is ≡ kept → earliest kept ≡ some a → IsChosen p is a
    go [] e h = absurd (cc)
    go (b ∷ bs) e h =
        let same : earliest_from b bs ≡ a = some_inj h in
        let picked : In a (b ∷ bs) = subst (λ c. In c (b ∷ bs)) same (earliest_from-In b bs) in
        let (member, passes) = In-keep p is a (subst (In a) (sym e) picked) in
        let least : IsLeast a (b ∷ bs) =
          subst (λ c. IsLeast c (b ∷ bs)) same (earliest_from-IsLeast b bs) in
        record {
          member = member;
          passes = passes;
          first = All-keep p (λ i. earlier i a ≡ false) is (subst (IsLeast a) (sym e) least);
        }

-- There is no candidate only if no item passes.
pub earliest-none :
    (p : FlowWorkItem → Bool) (is : List FlowWorkItem)
    → earliest (keep p is) ≡ none
    → All (λ i. p i ≡ false) is
unfolding earliest
earliest-none p [] h = tt
earliest-none p (i ∷ is) h = elim (Bool-cases (p i)) [
  | inl kept ↦ absurd (cc (ap (λ t. earliest (if t then i ∷ keep p is else keep p is)) kept, h))
  | inr dropped ↦ (
    dropped,
    earliest-none p is
        (sym (ap (λ t. earliest (if t then i ∷ keep p is else keep p is)) dropped) ∙ h),
  )
]
