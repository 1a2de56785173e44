-- ===== src/Flows/Lifecycle/Replace.antt =====
-- Finding an invocation by its id, and replacing it, in the list of a Flow Run.
use base_agent.Base.{
  ℕ, Bool, true, false, some, List, [], ◌∷◌, ◌++◌, map, length, all_of, All, ◌==◌, nat_eq,
  if◌then◌else◌, ◌≡◌, refl, arith, Bool-cases, length-map, some_inj, inl, inr, subst,
}
use base_agent.Base.Distinct.{all_distinct, contains}
use base_agent.Flows.Lifecycle.Invocation.{AgentInvocation}
use base_agent.Flows.Lifecycle.State.{find_invocation}
use base_agent.Flows.Lifecycle.Transitions.{replace_invocation}

-- The one that is found has the id.
pub find_invocation-id :
    (id : ℕ) (is : List AgentInvocation) {i : AgentInvocation}
    → find_invocation id is ≡ some i
    → i.id ≡ id
find_invocation-id id [] h = cc
find_invocation-id id (x ∷ is) {i} h = ground (arith, find_invocation-id id is {i = i})

pub find_invocation-All {κ} :
    (P : AgentInvocation → Type κ) (id : ℕ) (is : List AgentInvocation) (i : AgentInvocation)
    → find_invocation id is ≡ some i
    → All P is
    → P i
find_invocation-All P id [] i h all = absurd (cc)
find_invocation-All P id (x ∷ is) i h all = elim (Bool-cases (x.id == id)) [
  | inl same ↦ subst P (some_inj (cc (same, h))) all.0
  | inr other ↦ find_invocation-All P id is i (cc (other, h)) all.1
]

pub length-replace_invocation :
    (i : AgentInvocation) (is : List AgentInvocation) → length (replace_invocation i is) ≡ length is
length-replace_invocation i is = length-map _ is

-- A replacement keeps the ids.
pub ids-replace_invocation :
    (i : AgentInvocation) (is : List AgentInvocation)
    → map (λ x. x.id) (replace_invocation i is) ≡ map (λ x. x.id) is
ids-replace_invocation i [] = refl
ids-replace_invocation i (x ∷ is) = ground (arith, ids-replace_invocation i is)

-- Where no invocation has the id, nothing is replaced.
replace_invocation_absent :
    (i : AgentInvocation) (is : List AgentInvocation)
    → contains i.id (map (λ x. x.id) is) ≡ false
    → replace_invocation i is ≡ is
unfolding contains
replace_invocation_absent i [] h = refl
replace_invocation_absent i (x ∷ is) h = ground (arith, replace_invocation_absent i is)

-- With distinct ids, only the invocation that is found is replaced.
pub sequences-replace_invocation :
    (i active : AgentInvocation) (is : List AgentInvocation)
    → all_distinct (map (λ x. x.id) is) ≡ true
    → find_invocation i.id is ≡ some active
    → i.sequence ≡ active.sequence
    → map (λ x. x.sequence) (replace_invocation i is) ≡ map (λ x. x.sequence) is
unfolding all_distinct
sequences-replace_invocation i active [] d h e = refl
sequences-replace_invocation i active (x ∷ is) d h e =
    ground (arith, replace_invocation_absent i is, sequences-replace_invocation i active is)

pub all_of-replace_invocation :
    (p : AgentInvocation → Bool) (i : AgentInvocation) (is : List AgentInvocation)
    → all_of p is ≡ true
    → p i ≡ true
    → all_of p (replace_invocation i is) ≡ true
all_of-replace_invocation p i [] h e = refl
all_of-replace_invocation p i (x ∷ is) h e = ground (arith, all_of-replace_invocation p i is)

pub All-replace_invocation {κ} :
    (P : AgentInvocation → Type κ) (i : AgentInvocation) (is : List AgentInvocation)
    → All P is
    → P i
    → All P (replace_invocation i is)
All-replace_invocation P i [] h e = tt
All-replace_invocation P i (x ∷ is) h e = (head, All-replace_invocation P i is h.1 e)
  where
    head : P (if x.id == i.id then i else x)
    head = elim (Bool-cases (x.id == i.id)) [ inl same ↦ rw same e | inr other ↦ rw other h.0 ]

-- What is found under the id after the replacement is the new invocation.
pub find_invocation-replace_invocation :
    (i active : AgentInvocation) (is : List AgentInvocation)
    → find_invocation i.id is ≡ some active
    → find_invocation i.id (replace_invocation i is) ≡ some i
find_invocation-replace_invocation i active [] h = cc
find_invocation-replace_invocation i active (x ∷ is) h =
    ground (arith, find_invocation-replace_invocation i active is)

pub find_invocation-snoc :
    (i : AgentInvocation) (is : List AgentInvocation)
    → contains i.id (map (λ x. x.id) is) ≡ false
    → find_invocation i.id (is ++ i ∷ []) ≡ some i
unfolding contains
find_invocation-snoc i [] h = ground arith
find_invocation-snoc i (x ∷ is) h = ground (arith, find_invocation-snoc i is)
