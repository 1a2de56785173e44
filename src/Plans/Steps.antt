-- ===== src/Plans/Steps.antt =====
-- PlanStep and ExecutionPlan of models/plan.py, and the validator of a step.
use base_agent.Base.{
  ℕ, String, Bool, true, ◌&&◌, ◌||◌, Option, none, some, List, Result, Error, ◌>>◌, fail_if, guard,
  nat_beq, string_eq,
}
use base_agent.Base.Text.{is_empty_text}
use base_agent.Base.Distinct.{contains, all_distinct}
use base_agent.Models.Json.{Json, Fields}

pub data PlanStatus : Type 0 where
  created running waiting completed failed cancelled : PlanStatus

pub data StepStatus : Type 0 where
  pending running waiting completed failed cancelled skipped : StepStatus

abbrev step_status_rank : StepStatus → ℕ
step_status_rank pending = 0
step_status_rank running = 1
step_status_rank waiting = 2
step_status_rank completed = 3
step_status_rank failed = 4
step_status_rank cancelled = 5
step_status_rank skipped = 6

-- `a is b`.
abbrev pub same_step_status : StepStatus → StepStatus → Bool
same_step_status a b = nat_beq (step_status_rank a) (step_status_rank b)

abbrev pub is_pending : StepStatus → Bool
is_pending s = same_step_status s StepStatus.pending

-- `status in {COMPLETED, SKIPPED}`.
abbrev pub is_settled : StepStatus → Bool
is_settled s = same_step_status s StepStatus.completed || same_step_status s StepStatus.skipped

-- `status in {RUNNING, WAITING}`.
abbrev pub is_active : StepStatus → Bool
is_active s = same_step_status s StepStatus.running || same_step_status s StepStatus.waiting

-- `status in {FAILED, CANCELLED}`.
abbrev pub is_broken : StepStatus → Bool
is_broken s = same_step_status s StepStatus.failed || same_step_status s StepStatus.cancelled

pub record PlanStep : Type 0 where
  pub id : String
  pub description : String
  pub executor : Option String
  pub dependencies : List String
  pub status : StepStatus
  pub success : Option Bool
  pub result : Option Json
  pub attachments : List String
  pub error : Option String
  pub metadata : Fields

pub record ExecutionPlan : Type 0 where
  pub id : String
  pub title : String
  pub steps : List PlanStep
  pub status : PlanStatus
  pub revision : ℕ
  pub metadata : Fields

-- `not self.error`.
abbrev pub lacks_error : Option String → Bool
lacks_error none = true
lacks_error (some e) = is_empty_text e

-- `validate_dependencies_and_failure`.
unfoldable pub validate_step : PlanStep → Result (Unit {0})
validate_step s = do
  guard (all_distinct s.dependencies) Error.value_error
  fail_if (contains s.id s.dependencies) Error.value_error
  fail_if (is_broken s.status && lacks_error s.error) Error.value_error
