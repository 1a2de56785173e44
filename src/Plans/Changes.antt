-- ===== src/Plans/Changes.antt =====
-- The transitions of models/plan.py as changes of the steps one by one.
use base_agent.Base.{
  ◌+◌, String, Bool, true, false, ◌&&◌, Option, some, List, [], ◌∷◌, map, find, In, ◌==◌, ==_sound,
  string_eq, Error, ok, fail_if, fail_if-ok, if◌then◌else◌, >>=-eq-ok, ◌≡◌, refl, sym, ap, ◌∙◌,
  arith, inl, inr, Bool-cases, Option-cases, Result-cases,
}
use base_agent.Base.Text.{is_blank}
use base_agent.Base.Distinct.{contains, all_distinct}
use base_agent.Base.Dict.{lookup}
use base_agent.Models.Json.{Json, Fields}
use base_agent.Plans.Steps.{
  PlanStatus, StepStatus, PlanStep, ExecutionPlan, is_pending, is_active, is_broken, validate_step,
  lacks_error,
}
use base_agent.Plans.Graph.{step_ids}
use base_agent.Plans.Lookup.{lookup-entries_from}
use base_agent.Plans.Transitions.{
  statuses_of, all_settled, is_ready, require_status, replace_step, start_step, completed_step,
  complete_step, fail_step, wait_step, resume_step, ended_step, ended_plan, cancel, fail,
}
use base_agent.Plans.Moves.{
  Move, starts, completes, fails, waits, resumes, cancels_plan, fails_plan, apply, HasSettledNeeds,
  StepMoved, Moved, replaced-Moved, active-StepMoved, StepMoved-refl, require_status-ok, find-In,
  error_is_text,
}

-- The dependencies of a step that is ready are settled.
pub all_settled-HasSettledNeeds :
    (steps : List PlanStep) (ds : List String)
    → all_distinct (step_ids steps) ≡ true
    → all_settled (statuses_of steps) ds ≡ ok true
    → HasSettledNeeds steps ds
unfolding all_settled contains
all_settled-HasSettledNeeds steps [] distinct h d listed t member named = absurd (cc)
all_settled-HasSettledNeeds steps (k ∷ ds) distinct h d listed t member named =
    elim (Bool-cases (k == d)) [
      | inl this ↦
          let found : lookup k (statuses_of steps) ≡ some t.status =
            ap (λ x. lookup x (statuses_of steps)) (==_sound k d this ∙ sym named)
            ∙ lookup-entries_from (λ s. s.status) [] steps t distinct member in
          ground arith
      | inr other ↦
          all_settled-HasSettledNeeds steps ds distinct
            (elim (Option-cases (lookup k (statuses_of steps))) [
              | inl e ↦ absurd (ground arith)
              | inr (s, e) ↦ ground arith
            ])
            d (ground arith) t member named
    ]

started-StepMoved :
    (steps : List PlanStep) (s : PlanStep)
    → all_distinct (step_ids steps) ≡ true
    → is_ready (statuses_of steps) s ≡ ok true
    → StepMoved steps s (record s { status = StepStatus.running })
unfolding is_ready validate_step
started-StepMoved steps s distinct h =
    let was : is_pending s.status ≡ true = ground arith in
    let needs : all_settled (statuses_of steps) s.dependencies ≡ ok true = ground arith in
    record {
      id = refl;
      dependencies = refl;
      settled = λ done. absurd (ground arith);
      begun = λ go. inr (all_settled-HasSettledNeeds steps s.dependencies distinct needs);
      accepted = λ v. ground arith;
    }

start_step-ok :
    (plan : ExecutionPlan) (step_id : String) (next : ExecutionPlan)
    → start_step plan step_id ≡ ok next
    → (s : PlanStep) × In s plan.steps
      × (is_ready (statuses_of plan.steps) s ≡ ok true)
      × (next ≡ replace_step plan (record s { status = StepStatus.running }) PlanStatus.running)
unfolding start_step
start_step-ok plan step_id next h = elim (Option-cases (find (λ k. k.id == step_id) plan.steps)) [
  | inl e ↦ absurd (ground arith)
  | inr (s, e) ↦ elim (Result-cases (is_ready (statuses_of plan.steps) s)) [
    | inl (x, f) ↦ absurd (ground arith)
    | inr (b, f) ↦ (s, find-In (λ k. k.id == step_id) plan.steps s e, ground arith, ground arith)
  ]
]

ended-StepMoved :
    (steps : List PlanStep) (status : StepStatus) (error : String) (s : PlanStep)
    → is_broken status ≡ true
    → is_blank error ≡ false
    → StepMoved steps s (ended_step status error s)
ended-StepMoved steps status error s broken text = elim (Bool-cases (is_active s.status)) [
  | inl active ↦ rw active (
      active-StepMoved steps s (record s { status = status; error = some error }) refl refl active
        (both (is_broken status) (lacks_error (some error)) (error_is_text error text)))
  | inr quiet ↦ rw quiet (StepMoved-refl steps s)
]
  where
    both : (b c : Bool) → c ≡ false → (b && c) ≡ false
    both b c h = ground arith

module _ (plan next : ExecutionPlan) (distinct : all_distinct (step_ids plan.steps) ≡ true) where
  start_step-Moved : (step_id : String) → start_step plan step_id ≡ ok next → Moved plan next
  start_step-Moved step_id h =
      let (s, member, ready, built) = start_step-ok plan step_id next h in
      replaced-Moved plan next s (record s { status = StepStatus.running }) distinct member
        (started-StepMoved plan.steps s distinct ready) (ap (λ p. p.steps) built)
        (ap (λ p. p.revision) built)

  -- The transitions that replace an active step.
  active-Moved :
      (s t : PlanStep)
      → In s plan.steps
      → is_active s.status ≡ true
      → t.id ≡ s.id
      → t.dependencies ≡ s.dependencies
      → (is_broken t.status && lacks_error t.error) ≡ false
      → next.steps ≡ map (λ k. if k.id == t.id then t else k) plan.steps
      → next.revision ≡ plan.revision + 1
      → Moved plan next
  active-Moved s t member active i d e steps revision =
      replaced-Moved plan next s t distinct member (active-StepMoved plan.steps s t i d active e)
        steps revision

  complete_step-Moved :
      (step_id : String) (result : Option Json) (success : Option Bool) (attachments : List String)
      (metadata : Fields)
      → complete_step plan step_id result success attachments metadata ≡ ok next
      → Moved plan next
  unfolding complete_step
  complete_step-Moved step_id result success attachments metadata h =
      let (s, found, rest) = >>=-eq-ok (require_status plan step_id StepStatus.running) _ h in
      let (member, running) = require_status-ok plan step_id StepStatus.running s found in
      let t = completed_step s result success attachments metadata in
      active-Moved s t member (ground arith) refl refl refl (ground arith) (ground arith)

  fail_step-Moved :
      (step_id error : String) → fail_step plan step_id error ≡ ok next → Moved plan next
  unfolding fail_step
  fail_step-Moved step_id error h =
      let (u, checked, more) = >>=-eq-ok (fail_if (is_blank error) Error.value_error) _ h in
      let text = fail_if-ok (is_blank error) Error.value_error checked in
      let (s, found, rest) = >>=-eq-ok (require_status plan step_id StepStatus.running) _ more in
      let (member, running) = require_status-ok plan step_id StepStatus.running s found in
      let t : PlanStep = record s { status = StepStatus.failed; error = some error } in
      active-Moved s t member (ground arith) refl refl (error_is_text error text) (ground arith)
        (ground arith)

  wait_step-Moved : (step_id : String) → wait_step plan step_id ≡ ok next → Moved plan next
  unfolding wait_step
  wait_step-Moved step_id h =
      let (s, found, rest) = >>=-eq-ok (require_status plan step_id StepStatus.running) _ h in
      let (member, running) = require_status-ok plan step_id StepStatus.running s found in
      let t : PlanStep = record s { status = StepStatus.waiting } in
      active-Moved s t member (ground arith) refl refl refl (ground arith) (ground arith)

  resume_step-Moved : (step_id : String) → resume_step plan step_id ≡ ok next → Moved plan next
  unfolding resume_step
  resume_step-Moved step_id h =
      let (s, found, rest) = >>=-eq-ok (require_status plan step_id StepStatus.waiting) _ h in
      let (member, waiting) = require_status-ok plan step_id StepStatus.waiting s found in
      let t : PlanStep = record s { status = StepStatus.running } in
      active-Moved s t member (ground arith) refl refl refl (ground arith) (ground arith)

  -- The end of a plan moves its active steps.
  ended-Moved :
      (status : StepStatus) (plan_status : PlanStatus) (error : String)
      → is_broken status ≡ true
      → is_blank error ≡ false
      → next ≡ ended_plan plan status plan_status error
      → Moved plan next
  ended-Moved status plan_status error broken text built = record {
    change = ended_step status error;
    steps = ap (λ p. p.steps) built;
    each = λ s k. ended-StepMoved plan.steps status error s broken text;
    revision = ap (λ p. p.revision) built;
  }

  cancel-Moved : (error : String) → cancel plan error ≡ ok next → Moved plan next
  unfolding cancel
  cancel-Moved error h =
      ended-Moved StepStatus.cancelled PlanStatus.cancelled error refl (ground arith) (ground arith)

  fail-Moved : (error : String) → fail plan error ≡ ok next → Moved plan next
  unfolding fail
  fail-Moved error h =
      ended-Moved StepStatus.failed PlanStatus.failed error refl (ground arith) (ground arith)

  pub apply-Moved : (m : Move) → apply plan m ≡ ok next → Moved plan next
  unfolding apply
  apply-Moved (starts step_id) h = start_step-Moved step_id h
  apply-Moved (completes step_id result success attachments metadata) h =
      complete_step-Moved step_id result success attachments metadata h
  apply-Moved (fails step_id error) h = fail_step-Moved step_id error h
  apply-Moved (waits step_id) h = wait_step-Moved step_id h
  apply-Moved (resumes step_id) h = resume_step-Moved step_id h
  apply-Moved (cancels_plan error) h = cancel-Moved error h
  apply-Moved (fails_plan error) h = fail-Moved error h
