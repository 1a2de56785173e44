-- ===== src/Examples/Plans.antt =====
-- Execution plans at concrete inputs: a plan of two steps, of which the second needs the first.
use base_agent.Base.{
  arith, ◌+◌, true, none, some, List, [], ◌∷◌, In, here, there, String, ◌||◌, ok, err, Error, ◌≡◌,
  refl, ◌⊎◌, ◌↔◌, string_eq,
}
use base_agent.Base.Dict.{lookup, insert}
use base_agent.Base.Distinct.{contains, all_distinct}
use base_agent.Models.Json.{Fields}
use base_agent.Plans.Steps.{
  PlanStatus, StepStatus, PlanStep, ExecutionPlan, validate_step, is_pending, is_settled,
}
use base_agent.Plans.Graph.{
  step_ids, entries_from, for_each, discard, visit, search_within, assert_acyclic, all_known,
  validate_graph, validate_graph_within,
}
use base_agent.Plans.Lookup.{DependsOn}
use base_agent.Plans.Acyclic.{validate_graph-acyclic, validate_graph_within_total}
use base_agent.Plans.Transitions.{
  all_settled, is_ready, ready_from, ready_steps, get_step, start_step,
}
use base_agent.Plans.Moves.{starts, completes, apply}
use base_agent.Plans.Histories.{IsValid, IsOrderly, apply-IsValid_plan, run, run-IsOrderly}
use base_agent.Plans.Progress.{ready_steps_progress}

abbrev fetch : PlanStep
fetch = record {
  id = "fetch";
  description = "fetch the page";
  executor = none;
  dependencies = [];
  status = StepStatus.pending;
  success = none;
  result = none;
  attachments = [];
  error = none;
  metadata = Fields.end;
}

abbrev report : PlanStep
report = record fetch {
  id = "report";
  description = "write the report";
  dependencies = "fetch" ∷ [];
}

abbrev plan : ExecutionPlan
plan = record {
  id = "p";
  title = "a report";
  steps = report ∷ fetch ∷ [];
  status = PlanStatus.created;
  revision = 1;
  metadata = Fields.end;
}

accepts_plan : validate_graph plan.steps ≡ ok tt
unfolding validate_graph validate_graph_within assert_acyclic search_within visit for_each discard
    entries_from all_known lookup insert contains all_distinct
accepts_plan = refl

-- The report is listed before the page that it needs, which takes two nested calls of `visit`.
too_deep : validate_graph_within 1 plan.steps ≡ err Error.recursion_error
unfolding validate_graph_within assert_acyclic search_within visit for_each discard entries_from
    all_known lookup insert contains all_distinct
too_deep = refl

-- A step that needs itself through another.
abbrev circle : List PlanStep
circle = report ∷ record fetch { dependencies = "report" ∷ [] } ∷ []

rejects_circle : validate_graph circle ≡ err Error.value_error
unfolding validate_graph validate_graph_within assert_acyclic search_within visit for_each discard
    entries_from all_known lookup insert contains all_distinct
rejects_circle = refl

accepts_steps : IsValid plan
unfolding validate_step all_distinct contains
accepts_steps = record { graph = accepts_plan; steps = (refl, (refl, tt)) }

abbrev started : ExecutionPlan
started = record plan {
  steps = report ∷ record fetch { status = StepStatus.running } ∷ [];
  status = PlanStatus.running;
  revision = 2;
}

starts_fetch : apply plan (starts "fetch") ≡ ok started
unfolding apply start_step get_step ready_steps ready_from is_ready all_settled entries_from lookup
    insert
starts_fetch = refl

refuses_report : apply plan (starts "report") ≡ err Error.invalid_plan_transition
unfolding apply start_step get_step ready_steps ready_from is_ready all_settled entries_from lookup
    insert
refuses_report = refl

validate_graph-acyclic_example : (validate_graph circle ≡ ok tt) ↔ (
    (all_distinct (step_ids circle) ≡ true)
    × (all_known (step_ids circle) circle ≡ true)
    × ((a : String) → ¬ DependsOn circle a a))
validate_graph-acyclic_example = validate_graph-acyclic circle

validate_graph_within_total_example :
    ((validate_graph_within 900 circle ≡ ok tt)
      ⊎ (validate_graph_within 900 circle ≡ err Error.value_error))
    × ((validate_graph_within 900 circle ≡ ok tt) ↔ (validate_graph circle ≡ ok tt))
validate_graph_within_total_example = validate_graph_within_total 900 circle (omega arith)

apply-IsValid_plan_example : IsValid started × (started.revision ≡ plan.revision + 1)
apply-IsValid_plan_example =
    apply-IsValid_plan plan (starts "fetch") started accepts_steps starts_fetch

run-IsOrderly_example :
    IsOrderly
      (run plan (
        starts "fetch"
        ∷ completes "fetch" none (some true) [] Fields.end
        ∷ starts "report"
        ∷ [])).steps
run-IsOrderly_example =
    run-IsOrderly plan
      (starts "fetch" ∷ completes "fetch" none (some true) [] Fields.end ∷ starts "report" ∷ [])
      accepts_steps refl

quiet_plan : (s : PlanStep) → In s plan.steps → (is_pending s.status || is_settled s.status) ≡ true
quiet_plan s here = refl
quiet_plan s (there here) = refl
quiet_plan s (there (there k)) = elim k [ ]

ready_steps_progress_example :
    (s : PlanStep) × (rest : List PlanStep) × (ready_steps plan ≡ ok (s ∷ rest))
ready_steps_progress_example = ready_steps_progress plan report accepts_plan quiet_plan here refl
