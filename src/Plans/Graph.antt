-- ===== src/Plans/Graph.antt =====
-- The graph that `validate_graph` of models/plan.py checks, and its search for cycles. A call of `visit`
-- goes one level deeper into the graph; the interpreter raises a RecursionError where a call is deeper than
-- it allows, and `limit` is the number of nested calls of `visit` that it allows here.
use base_agent.Base.{
  ℕ, zero, suc, String, Bool, Option, none, some, List, [], ◌∷◌, map, length, all_of, ◌==◌,
  string_eq, Result, Error, ok, err, ◌>>◌, guard, if◌then◌else◌,
}
use base_agent.Base.Distinct.{contains, all_distinct}
use base_agent.Base.Dict.{Dict, lookup, insert, keys}
use base_agent.Plans.Steps.{PlanStep}

abbrev pub step_ids : List PlanStep → List String
step_ids = map (λ s. s.id)

-- `{step.id: f(step) for step in steps}`, from what is there already.
unfoldable pub entries_from {ℓ} :
    {V : Type ℓ} → (PlanStep → V) → Dict String V → List PlanStep → Dict String V
entries_from f entries [] = entries
entries_from f entries (s ∷ steps) = entries_from f (insert s.id (f s) entries) steps

-- `{step.id: step.dependencies for step in self.steps}`.
abbrev pub dependencies_of : List PlanStep → Dict String (List String)
dependencies_of = entries_from (λ s. s.dependencies) []

-- The sets `visiting` and `visited`, the newest element first.
pub record Marks : Type 0 where
  pub visiting : List String
  pub visited : List String

pub data Search : Type 0 where
  finished : Marks → Search
  cycle unknown out_of_fuel : Search

abbrev pub then_search : Search → (Marks → Search) → Search
then_search (finished marks) rest = rest marks
then_search cycle rest = cycle
then_search unknown rest = unknown
then_search out_of_fuel rest = out_of_fuel

-- `for x in xs: f(x)`.
unfoldable pub for_each : (String → Marks → Search) → List String → Marks → Search
for_each f [] marks = finished marks
for_each f (x ∷ xs) marks = then_search (f x marks) (for_each f xs)

-- `visiting.remove(id)`.
unfoldable pub discard : String → List String → List String
discard id [] = []
discard id (x ∷ xs) = if x == id then discard id xs else x ∷ discard id xs

abbrev pub leave : String → Marks → Search
leave id marks =
    finished record { visiting = discard id marks.visiting; visited = id ∷ marks.visited }

-- What `visit` does with an id that is in neither set, by its dependencies.
abbrev pub enter : (String → Marks → Search) → String → Option (List String) → Marks → Search
enter f id none marks = unknown
enter f id (some dependencies) marks =
    then_search (for_each f dependencies (record marks { visiting = id ∷ marks.visiting }))
      (leave id)

unfoldable pub visit : ℕ → Dict String (List String) → String → Marks → Search
visit zero graph id marks = out_of_fuel
visit (suc fuel) graph id marks =
    let deeper = enter (visit fuel graph) id (lookup id graph) marks in
    if contains id marks.visiting
    then cycle
    else (if contains id marks.visited then finished marks else deeper)

abbrev pub no_marks : Marks
no_marks = record { visiting = []; visited = [] }

-- The calls of `visit` in `_assert_acyclic`.
unfoldable pub search_within : ℕ → List PlanStep → Search
search_within limit steps =
    let graph = dependencies_of steps in for_each (visit limit graph) (keys graph) no_marks

abbrev pub accept_search : Search → Result (Unit {0})
accept_search (finished marks) = ok tt
accept_search cycle = err Error.value_error
accept_search unknown = err Error.key_error
accept_search out_of_fuel = err Error.recursion_error

-- `_assert_acyclic`.
unfoldable pub assert_acyclic : ℕ → List PlanStep → Result (Unit {0})
assert_acyclic limit steps = accept_search (search_within limit steps)

-- The loop over `set(step.dependencies) - known`.
unfoldable pub all_known : List String → List PlanStep → Bool
all_known known steps = all_of (λ s. all_of (λ d. contains d known) s.dependencies) steps

-- `validate_graph`, where `limit` nested calls of `visit` are allowed.
unfoldable pub validate_graph_within : ℕ → List PlanStep → Result (Unit {0})
validate_graph_within limit steps = do
  guard (all_distinct (step_ids steps)) Error.value_error
  guard (all_known (step_ids steps) steps) Error.value_error
  assert_acyclic limit steps

-- `validate_graph` with room for one call of `visit` more than there are steps, which no plan exceeds
-- (Plans/Depth).
unfoldable pub validate_graph : List PlanStep → Result (Unit {0})
validate_graph steps = validate_graph_within (suc (length steps)) steps
