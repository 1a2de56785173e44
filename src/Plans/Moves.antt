-- ===== src/Plans/Moves.antt =====
-- The transitions of models/plan.py as values, and what each does to the steps of a plan.
use base_agent.Base.{
  ◌+◌, String, Bool, true, false, ◌&&◌, Option, some, List, [], ◌∷◌, map, find, In, here, there,
  ◌==◌, ==_sound, string_eq, Result, Error, ok, guard, or_fail-ok, guard-ok, if◌then◌else◌,
  >>=-eq-ok, ◌≡◌, refl, sym, ap, ◌∙◌, subst, arith, inl, inr, ◌⊎◌, Bool-cases, some_inj, ok_inj,
}
use base_agent.Base.Text.{is_blank, is_empty_text-is_blank}
use base_agent.Base.Distinct.{contains, all_distinct}
use base_agent.Base.Dict.{lookup}
use base_agent.Models.Json.{Json, Fields}
use base_agent.Plans.Steps.{
  StepStatus, PlanStep, ExecutionPlan, is_pending, is_settled, is_active, is_broken,
  same_step_status, validate_step, lacks_error,
}
use base_agent.Plans.Graph.{step_ids, entries_from}
use base_agent.Plans.Lookup.{lookup-entries_from}
use base_agent.Plans.Transitions.{
  get_step, require_status, start_step, complete_step, fail_step, wait_step, resume_step, cancel,
  fail,
}

pub data Move : Type 0 where
  starts : (step_id : String) → Move
  completes : (step_id : String) → Option Json → Option Bool → List String → Fields → Move
  fails : (step_id error : String) → Move
  waits : (step_id : String) → Move
  resumes : (step_id : String) → Move
  cancels_plan : (error : String) → Move
  fails_plan : (error : String) → Move

unfoldable pub apply : ExecutionPlan → Move → Result ExecutionPlan
apply plan (starts step_id) = start_step plan step_id
apply plan (completes step_id result success attachments metadata) =
    complete_step plan step_id result success attachments metadata
apply plan (fails step_id error) = fail_step plan step_id error
apply plan (waits step_id) = wait_step plan step_id
apply plan (resumes step_id) = resume_step plan step_id
apply plan (cancels_plan error) = cancel plan error
apply plan (fails_plan error) = fail plan error

-- Every step with the id is settled.
abbrev pub IsSettledId : List PlanStep → String → Type 0
IsSettledId steps d = (t : PlanStep) → In t steps → t.id ≡ d → is_settled t.status ≡ true

abbrev pub HasSettledNeeds : List PlanStep → List String → Type 0
HasSettledNeeds steps ds = (d : String) → contains d ds ≡ true → IsSettledId steps d

-- What becomes of one step of the plan.
pub record StepMoved (steps : List PlanStep) (s t : PlanStep) : Type 0 where
  pub id : t.id ≡ s.id
  pub dependencies : t.dependencies ≡ s.dependencies
  pub settled : is_settled s.status ≡ true → is_settled t.status ≡ true
  pub begun :
      is_pending t.status ≡ false
      → (is_pending s.status ≡ false) ⊎ HasSettledNeeds steps s.dependencies
  pub accepted : validate_step s ≡ ok tt → validate_step t ≡ ok tt

pub record Moved (plan next : ExecutionPlan) : Type 0 where
  pub change : PlanStep → PlanStep
  pub steps : next.steps ≡ map change plan.steps
  pub each : (s : PlanStep) → In s plan.steps → StepMoved plan.steps s (change s)
  pub revision : next.revision ≡ plan.revision + 1

pub StepMoved-refl : (steps : List PlanStep) (s : PlanStep) → StepMoved steps s s
StepMoved-refl steps s = record {
  id = refl;
  dependencies = refl;
  settled = λ h. h;
  begun = λ h. inl h;
  accepted = λ v. v;
}

pub find-In :
    (p : PlanStep → Bool) (ss : List PlanStep) (s : PlanStep) → find p ss ≡ some s → In s ss
find-In p [] s h = absurd (cc)
find-In p (t ∷ ss) s h = elim (Bool-cases (p t)) [
  | inl hit ↦
      let same : t ≡ s = some_inj (sym (ap (λ b. if b then some t else find p ss) hit) ∙ h) in
      subst (λ k. In k (t ∷ ss)) same here
  | inr miss ↦ there (find-In p ss s (sym (ap (λ b. if b then some t else find p ss) miss) ∙ h))
]

-- With distinct ids a step is known by its id.
pub same_id :
    (s t : PlanStep) (ss : List PlanStep)
    → all_distinct (step_ids ss) ≡ true
    → In s ss
    → In t ss
    → s.id ≡ t.id
    → s ≡ t
same_id s t ss d i j e =
    ap (λ k. k)
      (some_inj (
        sym (lookup-entries_from (λ k. k) [] ss s d i)
        ∙ ap (λ k. lookup k (entries_from (λ x. x) [] ss)) e
        ∙ lookup-entries_from (λ k. k) [] ss t d j))

module _ (plan next : ExecutionPlan) (step r : PlanStep)
    (distinct : all_distinct (step_ids plan.steps) ≡ true) (member : In step plan.steps)
    (moved : StepMoved plan.steps step r) where
  replaced-StepMoved :
      (s : PlanStep) → In s plan.steps → StepMoved plan.steps s (if s.id == r.id then r else s)
  replaced-StepMoved s k = elim (Bool-cases (s.id == r.id)) [
    | inl hit ↦
        let same : s ≡ step =
          same_id s step plan.steps distinct k member (==_sound s.id r.id hit ∙ moved.id) in
        rw hit (subst (λ x. StepMoved plan.steps x r) (sym same) moved)
    | inr other ↦ rw other (StepMoved-refl plan.steps s)
  ]

  pub replaced-Moved :
      next.steps ≡ map (λ s. if s.id == r.id then r else s) plan.steps
      → next.revision ≡ plan.revision + 1
      → Moved plan next
  replaced-Moved e n = record {
    change = λ s. if s.id == r.id then r else s;
    steps = e;
    each = replaced-StepMoved;
    revision = n;
  }

-- A step that runs or waits may be moved to any status but SKIPPED and PENDING.
pub active-StepMoved :
    (steps : List PlanStep) (s t : PlanStep)
    → t.id ≡ s.id
    → t.dependencies ≡ s.dependencies
    → is_active s.status ≡ true
    → (is_broken t.status && lacks_error t.error) ≡ false
    → StepMoved steps s t
unfolding validate_step
active-StepMoved steps s t i d a e = record {
  id = i;
  dependencies = d;
  settled = λ h. absurd (ground arith);
  begun = λ h. inl (ground arith);
  accepted = λ v.
      let own : contains t.id t.dependencies ≡ contains s.id s.dependencies =
        ap (λ k. contains k t.dependencies) i ∙ ap (contains s.id) d in
      let unique : all_distinct t.dependencies ≡ all_distinct s.dependencies = ap all_distinct d in
      ground arith;
}

pub found_step :
    (plan : ExecutionPlan) (step_id : String) (s : PlanStep)
    → get_step plan step_id ≡ ok s
    → In s plan.steps
unfolding get_step
found_step plan step_id s h =
    find-In (λ k. k.id == step_id) plan.steps s
      (or_fail-ok (find (λ k. k.id == step_id) plan.steps) Error.key_error h)

pub require_status-ok :
    (plan : ExecutionPlan) (step_id : String) (expected : StepStatus) (s : PlanStep)
    → require_status plan step_id expected ≡ ok s
    → In s plan.steps × (same_step_status s.status expected ≡ true)
unfolding require_status
require_status-ok plan step_id expected s h =
    let (t, got, rest) = >>=-eq-ok (get_step plan step_id) _ h in
    let (u, guarded, last) =
      >>=-eq-ok (guard (same_step_status t.status expected) Error.invalid_plan_transition) _ rest in
    let same : t ≡ s = ok_inj last in
    let found = found_step plan step_id t got in
    subst (λ k. In k plan.steps × (same_step_status k.status expected ≡ true)) same
      (found, guard-ok (same_step_status t.status expected) Error.invalid_plan_transition guarded)

pub error_is_text : (error : String) → is_blank error ≡ false → lacks_error (some error) ≡ false
error_is_text error h = is_empty_text-is_blank error h
