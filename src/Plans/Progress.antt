-- ===== src/Plans/Progress.antt =====
-- Whether `ready_steps` of models/plan.py finds work.
use base_agent.Base.{
  String, Bool, true, false, ◌||◌, some, List, [], ◌∷◌, all_of, In, here, there, ◌==◌, ==_sound,
  ==_refl, string_eq, ok, if◌then◌else◌, ◌≡◌, refl, sym, ap, ◌∙◌, subst, arith, inl, inr, ◌⊎◌,
  Bool-cases,
}
use base_agent.Base.Distinct.{contains, all_distinct}
use base_agent.Base.Dict.{Dict, lookup}
use base_agent.Plans.Steps.{PlanStep, ExecutionPlan, StepStatus, is_pending, is_settled}
use base_agent.Plans.Graph.{step_ids, dependencies_of, all_known, validate_graph}
use base_agent.Plans.Visits.{IsOrdered}
use base_agent.Plans.Lookup.{lookup-entries_from, entries_from-In, In-step_ids}
use base_agent.Plans.Verdict.{all_of-In, step_of_id, all_contains}
use base_agent.Plans.Acyclic.{validate_graph-acyclic, plan_order}
use base_agent.Plans.Transitions.{statuses_of, all_settled, is_ready, ready_from, ready_steps}
use base_agent.Plans.Moves.{IsSettledId, same_id}

module _ (steps : List PlanStep) (distinct : all_distinct (step_ids steps) ≡ true) where
  -- A pending step whose dependencies are all settled.
  abbrev Ready : Type 0
  Ready =
      (s : PlanStep) × In s steps
      × (is_pending s.status ≡ true)
      × ((d : String) → contains d s.dependencies ≡ true → IsSettledId steps d)

  -- The first step of an order, when all that follow it are settled.
  front_ready :
      ((s : PlanStep) → In s steps → (is_pending s.status || is_settled s.status) ≡ true)
      → (x : String) (rest : List String) → IsOrdered (dependencies_of steps) (x ∷ rest)
      → ((d : String) → contains d rest ≡ true → IsSettledId steps d)
      → Ready ⊎ IsSettledId steps x
  unfolding lookup
  front_ready quiet x rest o settled =
      let (ds, known, all) = o.0 in
      elim (entries_from-In (λ s. s.dependencies) [] steps x ds known) [
        | inl before ↦ absurd (cc)
        | inr (s, member, named, same) ↦ elim (Bool-cases (is_pending s.status)) [
          | inl waiting ↦ inl (
            s,
            member,
            waiting,
            λ d h. settled d (all_contains ds rest d all (subst (λ k. contains d k ≡ true) same h)),
          )
          | inr begun ↦
              let done = quiet s member in
              inr (λ t k e.
                let one = same_id s t steps distinct member k (named ∙ sym e) in
                subst (λ r. is_settled r.status ≡ true) one (ground arith))
        ]
      ]

  -- Going through an order from the end, either all is settled or a step is ready.
  first_ready :
      ((s : PlanStep) → In s steps → (is_pending s.status || is_settled s.status) ≡ true)
      → (xs : List String) → IsOrdered (dependencies_of steps) xs
      → Ready ⊎ ((d : String) → contains d xs ≡ true → IsSettledId steps d)
  unfolding contains
  first_ready quiet [] o = inr (λ d h. absurd (cc))
  first_ready quiet (x ∷ rest) o = elim (first_ready quiet rest o.1) [
    | inl found ↦ inl found
    | inr settled ↦ elim (front_ready quiet x rest o settled) [
      | inl found ↦ inl found
      | inr now ↦ inr (λ d h. elim (Bool-cases (x == d)) [
        | inl same ↦ subst (IsSettledId steps) (==_sound x d same) now
        | inr other ↦ settled d (ground arith)
      ])
    ]
  ]

  -- With every dependency known, the test of a step has an answer.
  all_settled_total :
      (ds : List String)
      → all_of (λ d. contains d (step_ids steps)) ds ≡ true
      → (b : Bool) × (all_settled (statuses_of steps) ds ≡ ok b)
  unfolding all_settled
  all_settled_total [] h = (true, refl)
  all_settled_total (d ∷ ds) h =
      let (s, member, named) = step_of_id d steps (ground arith) in
      let found : lookup d (statuses_of steps) ≡ some s.status =
        ap (λ k. lookup k (statuses_of steps)) (sym named)
        ∙ lookup-entries_from (λ k. k.status) [] steps s distinct member in
      let (b, rest) = all_settled_total ds (ground arith) in
      ((if is_settled s.status then b else false), ground arith)

  is_ready_total :
      (s : PlanStep)
      → all_of (λ d. contains d (step_ids steps)) s.dependencies ≡ true
      → (b : Bool) × (is_ready (statuses_of steps) s ≡ ok b)
  unfolding is_ready
  is_ready_total s h =
      let (b, e) = all_settled_total s.dependencies h in
      ((if is_pending s.status then b else false), ground arith)

  all_settled_here :
      (ds : List String)
      → all_of (λ d. contains d (step_ids steps)) ds ≡ true
      → ((d : String) → contains d ds ≡ true → IsSettledId steps d)
      → all_settled (statuses_of steps) ds ≡ ok true
  unfolding all_settled contains
  all_settled_here [] h settled = refl
  all_settled_here (d ∷ ds) h settled =
      let (s, member, named) = step_of_id d steps (ground arith) in
      let found : lookup d (statuses_of steps) ≡ some s.status =
        ap (λ k. lookup k (statuses_of steps)) (sym named)
        ∙ lookup-entries_from (λ k. k.status) [] steps s distinct member in
      let done = settled d (rw (==_refl d) refl) s member named in
      let rest = all_settled_here ds (ground arith) (λ k listed. settled k (ground arith)) in
      ground arith

ready_from_total :
    (statuses : Dict String StepStatus) (ss : List PlanStep)
    → ((t : PlanStep) → In t ss → (b : Bool) × (is_ready statuses t ≡ ok b))
    → (rest : List PlanStep) × (ready_from statuses ss ≡ ok rest)
unfolding ready_from
ready_from_total statuses [] total = ([], refl)
ready_from_total statuses (x ∷ ss) total =
    let (b, now) = total x here in
    let (rest, e) = ready_from_total statuses ss (λ t k. total t (there k)) in
    ((if b then x ∷ rest else rest), rw (now, e) refl)

joined :
    (statuses : Dict String StepStatus) (x t : PlanStep) (ss rest : List PlanStep) (b : Bool)
    → is_ready statuses x ≡ ok b
    → ready_from statuses ss ≡ ok (t ∷ rest)
    → (y : PlanStep) × (more : List PlanStep) × (ready_from statuses (x ∷ ss) ≡ ok (y ∷ more))
unfolding ready_from
joined statuses x t ss rest true now e = (x, t ∷ rest, rw (now, e) refl)
joined statuses x t ss rest false now e = (t, rest, rw (now, e) refl)

-- A list of which every test has an answer, with a step that is ready in it.
ready_from_some :
    (statuses : Dict String StepStatus) (s : PlanStep) (ss : List PlanStep)
    → ((t : PlanStep) → In t ss → (b : Bool) × (is_ready statuses t ≡ ok b))
    → In s ss
    → is_ready statuses s ≡ ok true
    → (t : PlanStep) × (rest : List PlanStep) × (ready_from statuses ss ≡ ok (t ∷ rest))
unfolding ready_from
ready_from_some statuses s [] total k h = elim k [ ]
ready_from_some statuses s (x ∷ ss) total here h =
    let (rest, e) = ready_from_total statuses ss (λ t k. total t (there k)) in
    (x, rest, rw (h, e) refl)
ready_from_some statuses s (x ∷ ss) total (there k) h =
    let (b, now) = total x here in
    let (t, rest, e) = ready_from_some statuses s ss (λ y j. total y (there j)) k h in
    joined statuses x t ss rest b now e

-- A valid plan with a pending step and no other step than pending, COMPLETED and SKIPPED ones has a step
-- that is ready to start: such a plan never stalls.
pub ready_steps_progress :
    (plan : ExecutionPlan) (p : PlanStep)
    → validate_graph plan.steps ≡ ok tt
    → ((s : PlanStep) → In s plan.steps → (is_pending s.status || is_settled s.status) ≡ true)
    → In p plan.steps
    → is_pending p.status ≡ true
    → (s : PlanStep) × (rest : List PlanStep) × (ready_steps plan ≡ ok (s ∷ rest))
unfolding ready_steps all_known is_ready
ready_steps_progress plan p v quiet member waiting =
    let (distinct, closed, acyclic) = (validate_graph-acyclic plan.steps).0 v in
    let (xs, ordered, all) = plan_order plan.steps v in
    let known = λ (s : PlanStep) (k : In s plan.steps).
      all_of-In (λ t. all_of (λ d. contains d (step_ids plan.steps)) t.dependencies) plan.steps k
        closed in
    elim (first_ready plan.steps distinct quiet xs ordered) [
      | inl (s, k, pending_s, settled) ↦
          let needs = all_settled_here plan.steps distinct s.dependencies (known s k) settled in
          ready_from_some (statuses_of plan.steps) s plan.steps
            (λ t j. is_ready_total plan.steps distinct t (known t j)) k (rw pending_s needs)
      | inr settled ↦
          let done = settled p.id (all p.id (In-step_ids p plan.steps member)) p member refl in
          absurd (ground arith)
    ]
