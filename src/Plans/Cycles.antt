-- ===== src/Plans/Cycles.antt =====
-- What the search of models/plan.py reports as a cycle, and where there can be none.
use base_agent.Base.{
  ℕ, zero, suc, String, true, Option, none, some, List, [], ◌∷◌, all_of, ◌==◌, ==_refl, ==_sound,
  string_eq, Bool-cases, some_inj, ◌≡◌, refl, sym, ◌∙◌, subst, arith, inl, inr, ◌⊎◌,
}
use base_agent.Base.Distinct.{contains}
use base_agent.Base.Dict.{lookup}
use base_agent.Plans.Graph.{
  Marks, Search, finished, cycle, unknown, out_of_fuel, then_search, for_each, leave, enter, visit,
}
use base_agent.Plans.Visits.{Graph, IsOrdered, Visits, visit-Visits}

-- `a` depends on `b`.
pub record Edge (graph : Graph) (a b : String) : Type 0 where
  pub dependencies : List String
  pub found : lookup a graph ≡ some dependencies
  pub listed : contains b dependencies ≡ true

-- One dependency or more.
pub data Chain (graph : Graph) (a : String) : String → Type 0 where
  one : {b : String} → Edge graph a b → Chain graph a b
  more : {b c : String} → Chain graph a b → Edge graph b c → Chain graph a c

-- All that is being visited leads to the id.
abbrev pub Leads : Graph → List String → String → Type 0
Leads graph visiting id = (v : String) → contains v visiting ≡ true → Chain graph v id

abbrev pub HasCycle : Graph → Type 0
HasCycle graph = (x : String) × Chain graph x x

-- A search that reports a cycle is right.
abbrev pub Reports : Graph → (String → Marks → Search) → Type 0
Reports graph f =
    (id : String) (m : Marks) → Leads graph m.visiting id → f id m ≡ cycle → HasCycle graph

then_search-cycle :
    (s : Search) (rest : Marks → Search)
    → then_search s rest ≡ cycle
    → (s ≡ cycle) ⊎ ((m : Marks) × (s ≡ finished m) × (rest m ≡ cycle))
then_search-cycle (finished m) rest h = inr (m, refl, h)
then_search-cycle cycle rest h = inl refl
then_search-cycle unknown rest h = cc
then_search-cycle out_of_fuel rest h = cc

for_each-HasCycle :
    (graph : Graph) (f : String → Marks → Search)
    → Visits graph f
    → Reports graph f
    → (xs : List String) (m : Marks)
    → ((d : String) → contains d xs ≡ true → Leads graph m.visiting d)
    → for_each f xs m ≡ cycle
    → HasCycle graph
unfolding for_each contains
for_each-HasCycle graph f v r [] m leads h = absurd (cc)
for_each-HasCycle graph f v r (x ∷ xs) m leads h =
    elim (then_search-cycle (f x m) (for_each f xs) h) [
      | inl now ↦ r x m (leads x (rw (==_refl x) refl)) now
      | inr (mid, first, rest) ↦
          let p = (v x m mid first).0 in
          for_each-HasCycle graph f v r xs mid
            (λ d listed. subst (λ vs. Leads graph vs d) (sym p.visiting) (leads d (ground arith)))
            rest
    ]

-- Inside a step, what was being visited and the step itself lead to each dependency.
enter-Leads :
    (graph : Graph) (id : String) (ds visiting : List String)
    → lookup id graph ≡ some ds
    → Leads graph visiting id
    → (d : String) → contains d ds ≡ true
    → Leads graph (id ∷ visiting) d
unfolding contains
enter-Leads graph id ds visiting known leads d listed v h =
    let edge : Edge graph id d = record { dependencies = ds; found = known; listed = listed } in
    elim (Bool-cases (id == v)) [
      | inl itself ↦ subst (λ k. Chain graph k d) (==_sound id v itself) (one edge)
      | inr before ↦ more (leads v (ground arith)) edge
    ]

enter-HasCycle :
    (graph : Graph) (f : String → Marks → Search)
    → Visits graph f
    → Reports graph f
    → (id : String) (found : Option (List String)) (m : Marks) → lookup id graph ≡ found
    → Leads graph m.visiting id
    → enter f id found m ≡ cycle
    → HasCycle graph
enter-HasCycle graph f v r id none m known leads h = absurd (cc)
enter-HasCycle graph f v r id (some ds) m known leads h =
    elim (then_search-cycle (for_each f ds (record m { visiting = id ∷ m.visiting })) (leave id)
      h) [
        | inl inside ↦
            for_each-HasCycle graph f v r ds (record m { visiting = id ∷ m.visiting })
              (enter-Leads graph id ds m.visiting known leads) inside
        | inr (mid, loop, last) ↦ absurd (cc)
      ]

visit-Reports : (graph : Graph) (fuel : ℕ) → Reports graph (visit fuel graph)
unfolding visit
visit-Reports graph zero id m leads h = absurd (cc)
visit-Reports graph (suc fuel) id m leads h = elim (Bool-cases (contains id m.visiting)) [
  | inl again ↦ (id, leads id again)
  | inr free ↦ elim (Bool-cases (contains id m.visited)) [
    | inl seen ↦ absurd (ground arith)
    | inr new ↦
        enter-HasCycle graph (visit fuel graph) (visit-Visits graph fuel) (visit-Reports graph fuel)
          id (lookup id graph) m refl leads (ground arith)
  ]
]

-- Started with nothing visited, the loop over the steps reports only cycles that are there.
pub for_each-visit-HasCycle :
    (graph : Graph) (fuel : ℕ) (xs visited : List String)
    → for_each (visit fuel graph) xs (record { visiting = []; visited = visited }) ≡ cycle
    → HasCycle graph
unfolding contains
for_each-visit-HasCycle graph fuel xs visited =
    for_each-HasCycle graph (visit fuel graph) (visit-Visits graph fuel) (visit-Reports graph fuel)
      xs (record { visiting = []; visited = visited }) (λ d listed v h. absurd (cc))

all_of-contains :
    (d : String) (ds rest : List String)
    → all_of (λ k. contains k rest) ds ≡ true
    → contains d ds ≡ true
    → contains d rest ≡ true
unfolding contains
all_of-contains d [] rest all h = absurd (cc)
all_of-contains d (k ∷ ds) rest all h = elim (Bool-cases (k == d)) [
  | inl same ↦ subst (λ x. contains x rest ≡ true) (==_sound k d same) (ground arith)
  | inr other ↦ all_of-contains d ds rest (ground arith) (ground arith)
]

-- The first element leads only to later ones.
head-Edge :
    (graph : Graph) (x b : String) (xs : List String)
    → IsOrdered graph (x ∷ xs)
    → Edge graph x b
    → contains b xs ≡ true
head-Edge graph x b xs o e =
    let (ds, known, all) = o.0 in
    let same : e.dependencies ≡ ds = some_inj (sym e.found ∙ known) in
    all_of-contains b ds xs all (subst (λ k. contains b k ≡ true) same e.listed)

-- In an ordered list an edge from an element leads to a later one.
pub Edge-later :
    (graph : Graph) (a b : String) (xs : List String)
    → IsOrdered graph xs
    → contains a xs ≡ true
    → Edge graph a b
    → contains b xs ≡ true
unfolding contains
Edge-later graph a b [] o h e = absurd (cc)
Edge-later graph a b (x ∷ xs) o h e = elim (Bool-cases (x == a)) [
  | inl here_now ↦
      let within =
        head-Edge graph x b xs o (subst (λ k. Edge graph k b) (sym (==_sound x a here_now)) e) in
      ground arith
  | inr later ↦ let within = Edge-later graph a b xs o.1 (ground arith) e in ground arith
]

-- A chain whose first edge enters an ordered list stays in it.
Chain-inside :
    (graph : Graph) (a b : String) (xs : List String)
    → IsOrdered graph xs
    → ((k : String) → Edge graph a k → contains k xs ≡ true)
    → Chain graph a b
    → contains b xs ≡ true
Chain-inside graph a b xs o first (one e) = first b e
Chain-inside graph a b xs o first (more {b = c} chain e) =
    Edge-later graph c b xs o (Chain-inside graph a c xs o first chain) e

-- No element of an ordered list leads back to itself.
pub IsOrdered-acyclic :
    (graph : Graph) (xs : List String)
    → IsOrdered graph xs
    → (a : String) → contains a xs ≡ true
    → ¬ Chain graph a a
unfolding contains
IsOrdered-acyclic graph [] o a h c = cc
IsOrdered-acyclic graph (x ∷ xs) o a h c = elim (Bool-cases (x == a)) [
  | inl here_now ↦
      let same = ==_sound x a here_now in
      let inside : contains a xs ≡ true =
        Chain-inside graph a a xs o.1
          (λ b e. head-Edge graph x b xs o (subst (λ k. Edge graph k b) (sym same) e)) c in
      IsOrdered-acyclic graph xs o.1 a inside c
  | inr later ↦ IsOrdered-acyclic graph xs o.1 a (ground arith) c
]
