-- ===== src/Plans/Histories.antt =====
-- Histories of transitions of models/plan.py: the validators, and the order of the work.
use base_agent.Base.{
  suc, ◌+◌, String, true, false, List, [], ◌∷◌, map, length, all_of, In, here, there, All,
  string_eq, Result, ok, err, ◌≡◌, refl, sym, ap, ◌∙◌, subst, inl, inr,
}
use base_agent.Base.Distinct.{contains}
use base_agent.Base.Dict.{Dict, insert}
use base_agent.Plans.Steps.{PlanStep, ExecutionPlan, is_pending, is_settled, validate_step}
use base_agent.Plans.Graph.{
  step_ids, entries_from, all_known, search_within, assert_acyclic, validate_graph,
  validate_graph_within,
}
use base_agent.Plans.Acyclic.{validate_graph-acyclic}
use base_agent.Plans.Verdict.{all_of-In}
use base_agent.Plans.Moves.{Move, apply, HasSettledNeeds, Moved}
use base_agent.Plans.Changes.{apply-Moved}

-- What the constructors of the plan and of its steps check.
pub record IsValid (plan : ExecutionPlan) : Type 0 where
  pub graph : validate_graph plan.steps ≡ ok tt
  pub steps : All (λ s. validate_step s ≡ ok tt) plan.steps

-- The change keeps ids and dependencies.
abbrev KeepsGraph : (PlanStep → PlanStep) → List PlanStep → Type 0
KeepsGraph f ss =
    (s : PlanStep) → In s ss → ((f s).id ≡ s.id) × ((f s).dependencies ≡ s.dependencies)

tail_keeps :
    (f : PlanStep → PlanStep) (s : PlanStep) (ss : List PlanStep)
    → KeepsGraph f (s ∷ ss)
    → KeepsGraph f ss
tail_keeps f s ss k t member = k t (there member)

step_ids-map :
    (f : PlanStep → PlanStep) (ss : List PlanStep)
    → KeepsGraph f ss
    → step_ids (map f ss) ≡ step_ids ss
step_ids-map f [] k = refl
step_ids-map f (s ∷ ss) k = cc ((k s here).0, step_ids-map f ss (tail_keeps f s ss k))

dependencies-map :
    (f : PlanStep → PlanStep) (entries : Dict String (List String)) (ss : List PlanStep)
    → KeepsGraph f ss
    → entries_from (λ s. s.dependencies) entries (map f ss)
      ≡ entries_from (λ s. s.dependencies) entries ss
unfolding entries_from
dependencies-map f entries [] k = refl
dependencies-map f entries (s ∷ ss) k =
    dependencies-map f (insert (f s).id (f s).dependencies entries) ss (tail_keeps f s ss k)
    ∙ ap (λ m. entries_from (λ t. t.dependencies) m ss) (cc ((k s here).0, (k s here).1))

all_known-map :
    (f : PlanStep → PlanStep) (known : List String) (ss : List PlanStep)
    → KeepsGraph f ss
    → all_known known (map f ss) ≡ all_known known ss
unfolding all_known
all_known-map f known [] k = refl
all_known-map f known (s ∷ ss) k = cc (
  ap (all_of (λ d. contains d known)) (k s here).1,
  all_known-map f known ss (tail_keeps f s ss k),
)

length-map_steps : (f : PlanStep → PlanStep) (ss : List PlanStep) → length (map f ss) ≡ length ss
length-map_steps f [] = refl
length-map_steps f (s ∷ ss) = ap suc (length-map_steps f ss)

-- A change that keeps the graph keeps the verdict on it.
validate_graph-map :
    (f : PlanStep → PlanStep) (ss : List PlanStep)
    → KeepsGraph f ss
    → validate_graph (map f ss) ≡ validate_graph ss
unfolding validate_graph validate_graph_within assert_acyclic search_within
validate_graph-map f ss k =
    rw
      (
        step_ids-map f ss k,
        all_known-map f (step_ids ss) ss k,
        dependencies-map f [] ss k,
        length-map_steps f ss,
      )
      refl

accepted-map :
    (f : PlanStep → PlanStep) (ss : List PlanStep)
    → ((s : PlanStep) → In s ss → validate_step s ≡ ok tt → validate_step (f s) ≡ ok tt)
    → All (λ s. validate_step s ≡ ok tt) ss
    → All (λ s. validate_step s ≡ ok tt) (map f ss)
accepted-map f [] k v = tt
accepted-map f (s ∷ ss) k v = (k s here v.0, accepted-map f ss (λ t member. k t (there member)) v.1)

pub In-map :
    (f : PlanStep → PlanStep) (ss : List PlanStep) (t : PlanStep)
    → In t (map f ss)
    → (s : PlanStep) × In s ss × (t ≡ f s)
In-map f [] t k = elim k [ ]
In-map f (s ∷ ss) t here = (s, here, refl)
In-map f (s ∷ ss) t (there k) = let (r, member, e) = In-map f ss t k in (r, there member, e)

-- Every step that is no longer pending has only settled dependencies.
abbrev pub IsOrderly : List PlanStep → Type 0
IsOrderly steps =
    (s : PlanStep) → In s steps → is_pending s.status ≡ false → HasSettledNeeds steps s.dependencies

module _ (plan next : ExecutionPlan) (moved : Moved plan next) where
  Moved-IsValid : IsValid plan → IsValid next
  Moved-IsValid v = record {
    graph =
        ap validate_graph moved.steps
        ∙ validate_graph-map moved.change plan.steps
            (λ s k. ((moved.each s k).id, (moved.each s k).dependencies))
        ∙ v.graph;
    steps =
        subst (All (λ s. validate_step s ≡ ok tt)) (sym moved.steps)
          (accepted-map moved.change plan.steps (λ s k. (moved.each s k).accepted) v.steps);
  }

  -- What was settled stays so.
  still_settled : (ds : List String) → HasSettledNeeds plan.steps ds → HasSettledNeeds next.steps ds
  still_settled ds settled d listed t member named =
      let (s, old, e) = In-map moved.change plan.steps t (subst (In t) moved.steps member) in
      let id : s.id ≡ d = sym (moved.each s old).id ∙ (ap (λ k. k.id) (sym e) ∙ named) in
      subst (λ k. is_settled k.status ≡ true) (sym e)
        ((moved.each s old).settled (settled d listed s old id))

  Moved-IsOrderly : IsOrderly plan.steps → IsOrderly next.steps
  Moved-IsOrderly orderly t member begun =
      let (s, old, e) = In-map moved.change plan.steps t (subst (In t) moved.steps member) in
      let step = moved.each s old in
      let needs : HasSettledNeeds plan.steps s.dependencies =
        elim (step.begun (ap (λ k. is_pending k.status) (sym e) ∙ begun)) [
          | inl before ↦ orderly s old before
          | inr now ↦ now
        ] in
      subst (HasSettledNeeds next.steps) (sym (ap (λ k. k.dependencies) e ∙ step.dependencies))
        (still_settled s.dependencies needs)

-- A transition that returns keeps what the validators of the plan and of its steps check, though the
-- code does not run them again, and moves the revision on by one.
pub apply-IsValid_plan :
    (plan : ExecutionPlan) (m : Move) (next : ExecutionPlan)
    → IsValid plan
    → apply plan m ≡ ok next
    → IsValid next × (next.revision ≡ plan.revision + 1)
apply-IsValid_plan plan m next v h =
    let moved = apply-Moved plan next ((validate_graph-acyclic plan.steps).0 v.graph).0 m h in
    (Moved-IsValid plan next moved v, moved.revision)

abbrev pub or_unchanged : ExecutionPlan → Result ExecutionPlan → ExecutionPlan
or_unchanged plan (ok next) = next
or_unchanged plan (err e) = plan

-- A sequence of transitions, of which those that raise change nothing.
unfoldable pub run : ExecutionPlan → List Move → ExecutionPlan
run plan [] = plan
run plan (m ∷ moves) = run (or_unchanged plan (apply plan m)) moves

step_kept :
    (plan : ExecutionPlan) (m : Move) (r : Result ExecutionPlan)
    → apply plan m ≡ r
    → IsValid plan
    → IsOrderly plan.steps
    → IsValid (or_unchanged plan r) × IsOrderly (or_unchanged plan r).steps
step_kept plan m (err e) f v o = (v, o)
step_kept plan m (ok next) f v o =
    let moved = apply-Moved plan next ((validate_graph-acyclic plan.steps).0 v.graph).0 m f in
    (Moved-IsValid plan next moved v, Moved-IsOrderly plan next moved o)

run-kept :
    (plan : ExecutionPlan) (moves : List Move)
    → IsValid plan
    → IsOrderly plan.steps
    → IsValid (run plan moves) × IsOrderly (run plan moves).steps
unfolding run
run-kept plan [] v o = (v, o)
run-kept plan (m ∷ moves) v o =
    let (v', o') = step_kept plan m (apply plan m) refl v o in
    run-kept (or_unchanged plan (apply plan m)) moves v' o'

fresh-IsOrderly :
    (steps : List PlanStep) → all_of (λ s. is_pending s.status) steps ≡ true → IsOrderly steps
fresh-IsOrderly steps fresh s member begun =
    absurd (cc (all_of-In (λ t. is_pending t.status) steps member fresh, begun))

-- In a valid plan whose steps are all pending at first, whatever is called after, no step has been
-- started before all the steps that it depends on were COMPLETED or SKIPPED, and they are so still.
pub run-IsOrderly :
    (plan : ExecutionPlan) (moves : List Move)
    → IsValid plan
    → all_of (λ s. is_pending s.status) plan.steps ≡ true
    → IsOrderly (run plan moves).steps
run-IsOrderly plan moves v fresh = (run-kept plan moves v (fresh-IsOrderly plan.steps fresh)).1
