-- ===== src/Plans/Acyclic.antt =====
-- `validate_graph` of models/plan.py against the graph that it checks.
use base_agent.Base.{
  ℕ, ◌<◌, suc, String, true, List, length, string_eq, Bool-cases, ◌≡◌, refl, arith, inl, inr, ◌⊎◌,
  ◌↔◌, Error, ok, err,
}
use base_agent.Base.Distinct.{contains, all_distinct}
use base_agent.Base.Dict.{keys}
use base_agent.Plans.Steps.{PlanStep}
use base_agent.Plans.Graph.{
  assert_acyclic, validate_graph_within, validate_graph, step_ids, dependencies_of, all_known,
}
use base_agent.Plans.Visits.{IsOrdered}
use base_agent.Plans.Lookup.{DependsOn}
use base_agent.Plans.Verdict.{
  all_contains, search-IsOrdered, id_is_key, has_cycle, has_order, search-Verdict,
}

within-acyclic :
    (limit : ℕ) (steps : List PlanStep)
    → length steps < limit
    → (validate_graph_within limit steps ≡ ok tt) ↔ (
        (all_distinct (step_ids steps) ≡ true)
        × (all_known (step_ids steps) steps ≡ true)
        × ((a : String) → ¬ DependsOn steps a a))
unfolding validate_graph_within assert_acyclic
within-acyclic limit steps enough = (accepted, accepts)
  where
    accepted :
        validate_graph_within limit steps ≡ ok tt
        → (all_distinct (step_ids steps) ≡ true)
          × (all_known (step_ids steps) steps ≡ true)
          × ((a : String) → ¬ DependsOn steps a a)
    accepted h =
        let distinct : all_distinct (step_ids steps) ≡ true = ground arith in
        let closed : all_known (step_ids steps) steps ≡ true = ground arith in
        elim (search-Verdict steps limit enough distinct closed) [
          | has_cycle a p found ↦ absurd (ground arith)
          | has_order m acyclic e ↦ (distinct, closed, acyclic)
        ]

    accepts :
        (all_distinct (step_ids steps) ≡ true)
          × (all_known (step_ids steps) steps ≡ true)
          × ((a : String) → ¬ DependsOn steps a a)
        → validate_graph_within limit steps ≡ ok tt
    accepts (distinct, closed, acyclic) = elim (search-Verdict steps limit enough distinct closed) [
      | has_cycle a p found ↦ absurd (acyclic a p)
      | has_order m _ e ↦ rw (distinct, closed, e) refl
    ]

-- Where the interpreter allows one nested call of `visit` more than there are steps, `validate_graph`
-- accepts the steps exactly when the ids are distinct, every dependency is the id of a step, and no
-- step depends on itself, directly or through others.
pub validate_graph-acyclic :
    (steps : List PlanStep)
    → (validate_graph steps ≡ ok tt) ↔ (
        (all_distinct (step_ids steps) ≡ true)
        × (all_known (step_ids steps) steps ≡ true)
        × ((a : String) → ¬ DependsOn steps a a))
unfolding validate_graph
validate_graph-acyclic steps = within-acyclic (suc (length steps)) steps (omega arith)

within_total :
    (limit : ℕ) (steps : List PlanStep)
    → length steps < limit
    → (validate_graph_within limit steps ≡ ok tt)
      ⊎ (validate_graph_within limit steps ≡ err Error.value_error)
unfolding validate_graph_within assert_acyclic
within_total limit steps enough = elim (Bool-cases (all_distinct (step_ids steps))) [
  | inr twice ↦ inr (rw twice refl)
  | inl distinct ↦ elim (Bool-cases (all_known (step_ids steps) steps)) [
    | inr missing ↦ inr (rw (distinct, missing) refl)
    | inl closed ↦ elim (search-Verdict steps limit enough distinct closed) [
      | has_cycle a p found ↦ inr (rw (distinct, closed, found) refl)
      | has_order m acyclic e ↦ inl (rw (distinct, closed, e) refl)
    ]
  ]
]

-- Where the interpreter allows more nested calls of `visit` than there are steps, `validate_graph` ends
-- with an acceptance or a ValueError, never with a KeyError or a RecursionError, and accepts the same
-- steps whatever that limit is.
pub validate_graph_within_total :
    (limit : ℕ) (steps : List PlanStep)
    → length steps < limit
    → ((validate_graph_within limit steps ≡ ok tt)
        ⊎ (validate_graph_within limit steps ≡ err Error.value_error))
      × ((validate_graph_within limit steps ≡ ok tt) ↔ (validate_graph steps ≡ ok tt))
validate_graph_within_total limit steps enough = (
  within_total limit steps enough,
  (
    λ h. (validate_graph-acyclic steps).1 ((within-acyclic limit steps enough).0 h),
    λ h. (within-acyclic limit steps enough).1 ((validate_graph-acyclic steps).0 h),
  ),
)

-- The steps of an accepted plan in an order in which each comes before all that it depends on.
pub plan_order :
    (steps : List PlanStep)
    → validate_graph steps ≡ ok tt
    → (xs : List String) × IsOrdered (dependencies_of steps) xs
      × ((k : String) → contains k (step_ids steps) ≡ true → contains k xs ≡ true)
plan_order steps v =
    let limit = suc (length steps) in
    let (distinct, closed, acyclic) = (validate_graph-acyclic steps).0 v in
    elim (search-Verdict steps limit (omega arith) distinct closed) [
      | has_cycle a p found ↦ absurd (acyclic a p)
      | has_order m _ e ↦
          let (ordered, all) = search-IsOrdered steps distinct closed limit (omega arith) m e in
          (
            m.visited,
            ordered,
            λ k h.
                all_contains (keys (dependencies_of steps)) m.visited k all
                  (id_is_key steps distinct closed limit (omega arith) k h),
          )
    ]
