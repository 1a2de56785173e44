-- ===== src/Plans/Visits.antt =====
-- What a finished call of `visit` has done, models/plan.py: the order in which it leaves the steps.
use base_agent.Base.{
  ℕ, zero, suc, String, true, false, Option, none, some, List, [], ◌∷◌, all_of, ==_refl, string_eq,
  Bool-cases, ◌≡◌, refl, ap, ◌∙◌, subst, arith, inl, inr,
}
use base_agent.Base.Distinct.{contains}
use base_agent.Base.Dict.{Dict, lookup}
use base_agent.Plans.Graph.{
  Marks, Search, finished, cycle, unknown, out_of_fuel, then_search, for_each, discard, leave,
  enter, visit,
}

abbrev pub Graph : Type 0
Graph = Dict String (List String)

-- Every element is a step whose dependencies all come later in the list.
abbrev pub IsOrdered : Graph → List String → Type 0
IsOrdered graph [] = Unit {0}
IsOrdered graph (x ∷ rest) =
    ((ds : List String) × (lookup x graph ≡ some ds) × (all_of (λ d. contains d rest) ds ≡ true))
    × IsOrdered graph rest

pub record Progress (graph : Graph) (m m' : Marks) : Type 0 where
  pub visiting : m'.visiting ≡ m.visiting
  pub ordered : IsOrdered graph m.visited → IsOrdered graph m'.visited
  pub grows : (x : String) → contains x m.visited ≡ true → contains x m'.visited ≡ true

pub Progress-refl : (graph : Graph) (m : Marks) → Progress graph m m
Progress-refl graph m = record { visiting = refl; ordered = λ o. o; grows = λ x h. h }

pub Progress-trans :
    {graph : Graph} {a b c : Marks} → Progress graph a b → Progress graph b c → Progress graph a c
Progress-trans p q = record {
  visiting = q.visiting ∙ p.visiting;
  ordered = λ o. q.ordered (p.ordered o);
  grows = λ x h. q.grows x (p.grows x h);
}

pub then_search-finished :
    (s : Search) (rest : Marks → Search) {m : Marks}
    → then_search s rest ≡ finished m
    → (m' : Marks) × (s ≡ finished m') × (rest m' ≡ finished m)
then_search-finished (finished m') rest h = (m', refl, h)
then_search-finished cycle rest h = cc
then_search-finished unknown rest h = cc
then_search-finished out_of_fuel rest h = cc

pub finished_inj : {a b : Marks} → finished a ≡ finished b → a ≡ b
finished_inj h = cc

-- What a finished visit of an id guarantees.
abbrev pub Visits : Graph → (String → Marks → Search) → Type 0
Visits graph f =
    (id : String) (m m' : Marks)
    → f id m ≡ finished m'
    → Progress graph m m' × (contains id m'.visited ≡ true)

pub for_each-Progress :
    (graph : Graph) (f : String → Marks → Search)
    → Visits graph f
    → (xs : List String) (m m' : Marks) → for_each f xs m ≡ finished m'
    → Progress graph m m' × (all_of (λ d. contains d m'.visited) xs ≡ true)
unfolding for_each
for_each-Progress graph f v [] m m' h =
    (subst (Progress graph m) (finished_inj h) (Progress-refl graph m), refl)
for_each-Progress graph f v (x ∷ xs) m m' h =
    let (mid, first, rest) = then_search-finished (f x m) (for_each f xs) h in
    let (p, seen) = v x m mid first in
    let (q, all) = for_each-Progress graph f v xs mid m' rest in
    let still = q.grows x seen in (Progress-trans p q, ground arith)

discard_absent : (id : String) (xs : List String) → contains id xs ≡ false → discard id xs ≡ xs
unfolding discard contains
discard_absent id [] h = refl
discard_absent id (x ∷ xs) h = ground (arith, discard_absent id xs)

discard_newest :
    (id : String) (xs : List String) → contains id xs ≡ false → discard id (id ∷ xs) ≡ xs
unfolding discard
discard_newest id xs h = rw (==_refl id) (discard_absent id xs h)

contains_newest : (x : String) (xs : List String) → contains x (x ∷ xs) ≡ true
unfolding contains
contains_newest x xs = rw (==_refl x)

contains_older :
    (x id : String) (xs : List String) → contains x xs ≡ true → contains x (id ∷ xs) ≡ true
unfolding contains
contains_older x id xs h = ground arith

-- A step that is left comes before the steps that it depends on.
left-Progress :
    (graph : Graph) (id : String) (ds : List String) (m mid m' : Marks)
    → lookup id graph ≡ some ds
    → contains id m.visiting ≡ false
    → Progress graph (record m { visiting = id ∷ m.visiting }) mid
    → all_of (λ d. contains d mid.visited) ds ≡ true
    → leave id mid ≡ finished m'
    → Progress graph m m' × (contains id m'.visited ≡ true)
left-Progress graph id ds m mid m' known free p all h =
    let built : record { visiting = discard id mid.visiting; visited = id ∷ mid.visited } ≡ m' =
      finished_inj h in
    subst (λ k. Progress graph m k × (contains id k.visited ≡ true)) built
      (
        record {
          visiting = ap (discard id) p.visiting ∙ discard_newest id m.visiting free;
          ordered = λ o. ((ds, known, all), p.ordered o);
          grows = λ x seen. contains_older x id mid.visited (p.grows x seen);
        },
        contains_newest id mid.visited,
      )

enter-Progress :
    (graph : Graph) (f : String → Marks → Search)
    → Visits graph f
    → (id : String) (found : Option (List String)) (m m' : Marks) → lookup id graph ≡ found
    → contains id m.visiting ≡ false
    → enter f id found m ≡ finished m'
    → Progress graph m m' × (contains id m'.visited ≡ true)
enter-Progress graph f v id none m m' known free h = absurd (cc)
enter-Progress graph f v id (some ds) m m' known free h =
    let (mid, loop, last) =
      then_search-finished (for_each f ds (record m { visiting = id ∷ m.visiting })) (leave id) h in
    let (p, all) =
      for_each-Progress graph f v ds (record m { visiting = id ∷ m.visiting }) mid loop in
    left-Progress graph id ds m mid m' known free p all last

pub visit-Visits : (graph : Graph) (fuel : ℕ) → Visits graph (visit fuel graph)
unfolding visit
visit-Visits graph zero id m m' h = absurd (cc)
visit-Visits graph (suc fuel) id m m' h = elim (Bool-cases (contains id m.visiting)) [
  | inl again ↦ absurd (ground arith)
  | inr free ↦ elim (Bool-cases (contains id m.visited)) [
    | inl seen ↦
        let same : m ≡ m' = finished_inj (ground arith) in
        subst (λ k. Progress graph m k × (contains id k.visited ≡ true)) same
          (Progress-refl graph m, seen)
    | inr new ↦
        enter-Progress graph (visit fuel graph) (visit-Visits graph fuel) id (lookup id graph) m m'
          refl free (ground arith)
  ]
]
