-- ===== src/Plans/Transitions.antt =====
-- The transitions of ExecutionPlan, models/plan.py. `_replace_step` copies the plan by `model_copy`,
-- which runs no validator.
use base_agent.Base.{
  ◌+◌, String, Bool, true, false, Option, none, some, List, [], ◌∷◌, map, find, all_of, ◌==◌,
  string_eq, Result, Error, ok, ◌>>=◌, ◌>>◌, guard, fail_if, or_fail, if◌then◌else◌,
}
use base_agent.Base.Text.{is_blank}
use base_agent.Base.Dict.{Dict, lookup}
use base_agent.Models.Json.{Json, Fields, set_field, merge_fields}
use base_agent.Plans.Steps.{
  PlanStatus, StepStatus, PlanStep, ExecutionPlan, is_pending, is_settled, is_active,
  same_step_status,
}
use base_agent.Plans.Graph.{entries_from}

-- `statuses`.
abbrev pub statuses_of : List PlanStep → Dict String StepStatus
statuses_of = entries_from (λ s. s.status) []

-- `all(statuses[dependency] in settled for dependency in dependencies)`.
unfoldable pub all_settled : Dict String StepStatus → List String → Result Bool
all_settled statuses [] = ok true
all_settled statuses (d ∷ ds) =
    let rest = all_settled statuses ds in
    or_fail (lookup d statuses) Error.key_error >>= λ s. if is_settled s then rest else ok false

-- The condition of `ready_steps` on one step.
unfoldable pub is_ready : Dict String StepStatus → PlanStep → Result Bool
is_ready statuses s = if is_pending s.status then all_settled statuses s.dependencies else ok false

unfoldable pub ready_from : Dict String StepStatus → List PlanStep → Result (List PlanStep)
ready_from statuses [] = ok []
ready_from statuses (s ∷ steps) = do
  ready ← is_ready statuses s
  rest ← ready_from statuses steps
  ok (if ready then s ∷ rest else rest)

unfoldable pub ready_steps : ExecutionPlan → Result (List PlanStep)
ready_steps plan = ready_from (statuses_of plan.steps) plan.steps

-- `_get_step`.
unfoldable pub get_step : ExecutionPlan → String → Result PlanStep
get_step plan step_id = or_fail (find (λ s. s.id == step_id) plan.steps) Error.key_error

-- `_require_status`.
unfoldable pub require_status : ExecutionPlan → String → StepStatus → Result PlanStep
unfolding get_step
require_status plan step_id expected = do
  step ← get_step plan step_id
  guard (same_step_status step.status expected) Error.invalid_plan_transition
  ok step

-- `_replace_step`, with the status of the plan that it stores.
abbrev pub replace_step : ExecutionPlan → PlanStep → PlanStatus → ExecutionPlan
replace_step plan replacement status = record plan {
  steps = map (λ s. if s.id == replacement.id then replacement else s) plan.steps;
  status = status;
  revision = plan.revision + 1;
}

-- The step is one of the plan's, so `step in self.ready_steps()` holds exactly if it passes the test
-- there: a step equal to it has its status and its dependencies.
unfoldable pub start_step : ExecutionPlan → String → Result ExecutionPlan
unfolding get_step ready_steps
start_step plan step_id = do
  step ← get_step plan step_id
  all_ready ← ready_steps plan
  ready ← is_ready (statuses_of plan.steps) step
  guard ready Error.invalid_plan_transition
  ok (replace_step plan (record step { status = StepStatus.running }) PlanStatus.running)

-- The step that `complete_step` stores.
abbrev pub completed_step : PlanStep → Option Json → Option Bool → List String → Fields → PlanStep
completed_step step result success attachments metadata = record step {
  status = StepStatus.completed;
  success = success;
  result = result;
  attachments = attachments;
  error = none;
  metadata = merge_fields step.metadata metadata;
}

-- `metadata` is empty where the argument is None.
unfoldable pub complete_step :
    ExecutionPlan → String → Option Json → Option Bool → List String → Fields → Result ExecutionPlan
unfolding require_status
complete_step plan step_id result success attachments metadata = do
  step ← require_status plan step_id StepStatus.running
  let updated =
      replace_step plan (completed_step step result success attachments metadata) plan.status
  ok (
      if all_of (λ s. is_settled s.status) updated.steps
      then record updated { status = PlanStatus.completed }
      else updated)

unfoldable pub fail_step : ExecutionPlan → String → String → Result ExecutionPlan
unfolding require_status
fail_step plan step_id error = do
  fail_if (is_blank error) Error.value_error
  step ← require_status plan step_id StepStatus.running
  ok (
      replace_step plan (record step { status = StepStatus.failed; error = some error })
        PlanStatus.failed)

unfoldable pub wait_step : ExecutionPlan → String → Result ExecutionPlan
unfolding require_status
wait_step plan step_id = do
  step ← require_status plan step_id StepStatus.running
  ok (replace_step plan (record step { status = StepStatus.waiting }) PlanStatus.waiting)

unfoldable pub resume_step : ExecutionPlan → String → Result ExecutionPlan
unfolding require_status
resume_step plan step_id = do
  step ← require_status plan step_id StepStatus.waiting
  ok (replace_step plan (record step { status = StepStatus.running }) PlanStatus.running)

-- A step after the plan has been ended with the status.
abbrev pub ended_step : StepStatus → String → PlanStep → PlanStep
ended_step status error s =
    if is_active s.status then record s { status = status; error = some error } else s

-- What `cancel` and `fail` share.
abbrev pub ended_plan : ExecutionPlan → StepStatus → PlanStatus → String → ExecutionPlan
ended_plan plan step_status plan_status error = record plan {
  steps = map (ended_step step_status error) plan.steps;
  status = plan_status;
  revision = plan.revision + 1;
  metadata = set_field "terminal_error" (Json.text error) plan.metadata;
}

unfoldable pub cancel : ExecutionPlan → String → Result ExecutionPlan
cancel plan error = do
  fail_if (is_blank error) Error.value_error
  ok (ended_plan plan StepStatus.cancelled PlanStatus.cancelled error)

unfoldable pub fail : ExecutionPlan → String → Result ExecutionPlan
fail plan error = do
  fail_if (is_blank error) Error.value_error
  ok (ended_plan plan StepStatus.failed PlanStatus.failed error)
