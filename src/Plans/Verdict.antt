-- ===== src/Plans/Verdict.antt =====
-- The search of `validate_graph`, models/plan.py, ends with a cycle or an order of the steps.
use base_agent.Base.{
  ℕ, ◌<◌, String, Bool, true, some, is_some, List, [], ◌∷◌, all_of, length, In, here, there, ◌==◌,
  ==_refl, ==_sound, string_eq, Bool-cases, ◌≡◌, refl, sym, ap, ◌∙◌, subst, arith, inl, inr, ◌⊎◌,
}
use base_agent.Base.Distinct.{contains, all_distinct}
use base_agent.Base.Dict.{lookup, keys}
use base_agent.Plans.Steps.{PlanStep}
use base_agent.Plans.Graph.{
  Marks, Search, finished, cycle, unknown, out_of_fuel, visit, no_marks, search_within, step_ids,
  dependencies_of, all_known,
}
use base_agent.Plans.Visits.{Graph, IsOrdered, visit-Visits, for_each-Progress}
use base_agent.Plans.Cycles.{for_each-visit-HasCycle, IsOrdered-acyclic}
use base_agent.Plans.Depth.{IsClosed, IsDecided, idle-le-length, for_each-IsDecided, visit-Decides}
use base_agent.Plans.Lookup.{
  DependsOn, direct, onward, In-step_ids, lookup-entries_from, entries_from-In, contains-keys,
  length-keys-entries_from, DependsOn-Chain, Chain-DependsOn,
}

-- What holds of each step holds of one of them.
pub all_of-In {ℓ} :
    {A : Type ℓ} (p : A → Bool) {a : A} (xs : List A) → In a xs → all_of p xs ≡ true → p a ≡ true
all_of-In p [] k h = elim k [ ]
all_of-In p (x ∷ xs) here h = ground arith
all_of-In p (x ∷ xs) (there k) h = all_of-In p xs k (ground arith)

pub all_of-weaken {ℓ} :
    {A : Type ℓ} (p q : A → Bool) (xs : List A)
    → ((a : A) → p a ≡ true → q a ≡ true)
    → all_of p xs ≡ true
    → all_of q xs ≡ true
all_of-weaken p q [] f h = refl
all_of-weaken p q (x ∷ xs) f h =
    let now = f x (ground arith) in let rest = all_of-weaken p q xs f (ground arith) in ground arith

all_contained : (xs : List String) → all_of (λ k. contains k xs) xs ≡ true
unfolding contains
all_contained [] = refl
all_contained (x ∷ xs) =
    let rest =
      all_of-weaken (λ k. contains k xs) (λ k. contains k (x ∷ xs)) xs (λ a h. ground arith)
        (all_contained xs) in
    rw (==_refl x) rest

pub step_of_id :
    (k : String) (ss : List PlanStep)
    → contains k (step_ids ss) ≡ true
    → (s : PlanStep) × In s ss × (s.id ≡ k)
unfolding contains
step_of_id k [] h = absurd (cc)
step_of_id k (s ∷ ss) h = elim (Bool-cases (s.id == k)) [
  | inl this ↦ (s, here, ==_sound s.id k this)
  | inr other ↦ let (t, member, named) = step_of_id k ss (ground arith) in (t, there member, named)
]

start_is_step :
    {steps : List PlanStep} (a b : String)
    → DependsOn steps a b
    → contains a (step_ids steps) ≡ true
start_is_step {steps} a b (direct n) =
    subst (λ k. contains k (step_ids steps) ≡ true) n.named (In-step_ids n.step steps n.member)
start_is_step a b (onward {b = c} p n) = start_is_step a c p

pub all_contains :
    (xs ys : List String) (k : String)
    → all_of (λ x. contains x ys) xs ≡ true
    → contains k xs ≡ true
    → contains k ys ≡ true
unfolding contains
all_contains [] ys k all h = absurd (cc)
all_contains (x ∷ xs) ys k all h = elim (Bool-cases (x == k)) [
  | inl same ↦ subst (λ z. contains z ys ≡ true) (==_sound x k same) (ground arith)
  | inr other ↦ all_contains xs ys k (ground arith) (ground arith)
]

module _ (steps : List PlanStep) (distinct : all_distinct (step_ids steps) ≡ true)
    (closed : all_known (step_ids steps) steps ≡ true) (limit : ℕ)
    (enough : length steps < limit) where
  abbrev graph : Graph
  graph = dependencies_of steps

  pub id_is_key : (k : String) → contains k (step_ids steps) ≡ true → contains k (keys graph) ≡ true
  id_is_key k h =
      let (s, member, named) = step_of_id k steps h in
      contains-keys k graph
      ∙ ap is_some (
          subst (λ x. lookup x graph ≡ some s.dependencies) named
            (lookup-entries_from (λ t. t.dependencies) [] steps s distinct member))

  graph-IsClosed : IsClosed graph (keys graph)
  unfolding lookup all_known
  graph-IsClosed = record {
    there_is = λ a h. sym (contains-keys a graph) ∙ h;
    known = λ a ds h. elim (entries_from-In (λ t. t.dependencies) [] steps a ds h) [
      | inl before ↦ absurd (cc)
      | inr (s, member, named, same) ↦
          subst (λ k. all_of (λ d. contains d (keys graph)) k ≡ true) same
            (all_of-weaken (λ d. contains d (step_ids steps)) (λ d. contains d (keys graph))
              s.dependencies id_is_key
              (all_of-In (λ t. all_of (λ d. contains d (step_ids steps)) t.dependencies) steps
                member closed))
    ];
  }

  pub search-IsDecided : IsDecided (search_within limit steps)
  unfolding search_within lookup
  search-IsDecided =
      for_each-IsDecided graph (keys graph) limit (visit limit graph) (visit-Visits graph limit)
        (visit-Decides graph (keys graph) graph-IsClosed limit) (keys graph) no_marks
        (all_contained (keys graph))
        (omega (arith, idle-le-length (keys graph) [], length-keys-entries_from [] steps))

  -- A search that finishes has put all the steps in an order.
  pub search-IsOrdered :
      (m : Marks)
      → search_within limit steps ≡ finished m
      → IsOrdered graph m.visited × (all_of (λ k. contains k m.visited) (keys graph) ≡ true)
  unfolding search_within
  search-IsOrdered m h =
      let (p, all) =
        for_each-Progress graph (visit limit graph) (visit-Visits graph limit) (keys graph) no_marks
          m h in
      (p.ordered tt, all)

  search-acyclic :
      (m : Marks) → search_within limit steps ≡ finished m → (a : String) → ¬ DependsOn steps a a
  search-acyclic m h a p =
      let (ordered, all) = search-IsOrdered m h in
      let key = id_is_key a (start_is_step a a p) in
      IsOrdered-acyclic graph m.visited ordered a (all_contains (keys graph) m.visited a all key)
        (DependsOn-Chain steps distinct p)

  search-HasCycle : search_within limit steps ≡ cycle → (a : String) × DependsOn steps a a
  unfolding search_within
  search-HasCycle h =
      let (a, c) = for_each-visit-HasCycle graph limit (keys graph) [] h in
      (a, Chain-DependsOn steps c)

search_verdict : (s : Search) → IsDecided s → (s ≡ cycle) ⊎ ((m : Marks) × (s ≡ finished m))
search_verdict (finished m) d = inr (m, refl)
search_verdict cycle d = inl refl
search_verdict unknown d = elim d [ ]
search_verdict out_of_fuel d = elim d [ ]

-- The verdict on steps whose ids are distinct and whose dependencies are known.
pub data Verdict (limit : ℕ) (steps : List PlanStep) : Type 0 where
  has_cycle :
      (a : String) → DependsOn steps a a → search_within limit steps ≡ cycle → Verdict limit steps
  has_order :
      (m : Marks)
      → ((a : String) → ¬ DependsOn steps a a)
      → search_within limit steps ≡ finished m
      → Verdict limit steps

pub search-Verdict :
    (steps : List PlanStep) (limit : ℕ)
    → length steps < limit
    → all_distinct (step_ids steps) ≡ true
    → all_known (step_ids steps) steps ≡ true
    → Verdict limit steps
search-Verdict steps limit enough distinct closed =
    elim (search_verdict (search_within limit steps)
      (search-IsDecided steps distinct closed limit enough)) [
        | inl found ↦
            let (a, p) = search-HasCycle steps distinct closed limit enough found in
            has_cycle a p found
        | inr (m, e) ↦ has_order m (search-acyclic steps distinct closed limit enough m e) e
      ]
