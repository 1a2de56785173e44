-- ===== src/Plans/Lookup.antt =====
-- The dictionary of dependencies of models/plan.py against the list of steps.
use base_agent.Base.{
  suc, ◌+◌, ◌≤◌, String, true, false, some, is_some, List, [], ◌∷◌, length, In, here, there, ◌==◌,
  ==_refl, ==_sound, string_eq, Bool-cases, some_inj, ◌≡◌, refl, sym, ◌∙◌, subst, arith, inl, inr,
  ◌⊎◌,
}
use base_agent.Base.Distinct.{contains, all_distinct}
use base_agent.Base.Dict.{Dict, lookup, insert, keys, lookup-insert}
use base_agent.Plans.Steps.{PlanStep}
use base_agent.Plans.Graph.{step_ids, entries_from, dependencies_of}
use base_agent.Plans.Visits.{Graph}
use base_agent.Plans.Cycles.{Edge, Chain, one, more}

-- The step `a` is in the plan, and it depends on `b`.
pub record Needs (steps : List PlanStep) (a b : String) : Type 0 where
  pub step : PlanStep
  pub member : In step steps
  pub named : step.id ≡ a
  pub listed : contains b step.dependencies ≡ true

-- One dependency or more.
pub data DependsOn (steps : List PlanStep) (a : String) : String → Type 0 where
  direct : {b : String} → Needs steps a b → DependsOn steps a b
  onward : {b c : String} → DependsOn steps a b → Needs steps b c → DependsOn steps a c

pub In-step_ids : (s : PlanStep) (ss : List PlanStep) → In s ss → contains s.id (step_ids ss) ≡ true
unfolding contains
In-step_ids s [] k = elim k [ ]
In-step_ids s (t ∷ ss) here = rw (==_refl s.id) refl
In-step_ids s (t ∷ ss) (there k) = ground (arith, In-step_ids s ss k)

module _ {ℓ} {V : Type ℓ} (f : PlanStep → V) where
  lookup-entries_from_absent :
      (entries : Dict String V) (ss : List PlanStep) (k : String)
      → contains k (step_ids ss) ≡ false
      → lookup k (entries_from f entries ss) ≡ lookup k entries
  unfolding entries_from contains
  lookup-entries_from_absent entries [] k h = refl
  lookup-entries_from_absent entries (s ∷ ss) k h =
      lookup-entries_from_absent (insert s.id (f s) entries) ss k (ground arith)
      ∙ (lookup-insert s.id k (f s) entries ∙ ground arith)

  pub lookup-entries_from :
      (entries : Dict String V) (ss : List PlanStep) (s : PlanStep)
      → all_distinct (step_ids ss) ≡ true
      → In s ss
      → lookup s.id (entries_from f entries ss) ≡ some (f s)
  unfolding entries_from all_distinct
  lookup-entries_from entries [] s d k = elim k [ ]
  lookup-entries_from entries (t ∷ ss) s d here =
      lookup-entries_from_absent (insert s.id (f s) entries) ss s.id (ground arith)
      ∙ (lookup-insert s.id s.id (f s) entries ∙ rw (==_refl s.id) refl)
  lookup-entries_from entries (t ∷ ss) s d (there k) =
      lookup-entries_from (insert t.id (f t) entries) ss s (ground arith) k

  -- What a lookup finds comes from a step, or was there before.
  pub entries_from-In :
      (entries : Dict String V) (ss : List PlanStep) (k : String) (v : V)
      → lookup k (entries_from f entries ss) ≡ some v
      → (lookup k entries ≡ some v) ⊎ ((s : PlanStep) × In s ss × (s.id ≡ k) × (f s ≡ v))
  unfolding entries_from
  entries_from-In entries [] k v h = inl h
  entries_from-In entries (s ∷ ss) k v h =
      elim (entries_from-In (insert s.id (f s) entries) ss k v h) [
        | inr (t, member, named, same) ↦ inr (t, there member, named, same)
        | inl before ↦ elim (Bool-cases (s.id == k)) [
          | inl this ↦ inr (
            s,
            here,
            ==_sound s.id k this,
            some_inj (cc (lookup-insert s.id k (f s) entries, this, before)),
          )
          | inr other ↦ inl (cc (lookup-insert s.id k (f s) entries, other, before))
        ]
      ]

pub contains-keys :
    (k : String) (graph : Graph) → contains k (keys graph) ≡ is_some (lookup k graph)
unfolding contains lookup
contains-keys k [] = refl
contains-keys k ((j, ds) ∷ graph) = ground (arith, contains-keys k graph)

length-keys-insert :
    (k : String) (ds : List String) (graph : Graph)
    → length (keys (insert k ds graph)) ≤ suc (length (keys graph))
unfolding insert
length-keys-insert k ds [] = omega arith
length-keys-insert k ds ((j, v) ∷ graph) = ground (arith, length-keys-insert k ds graph)

pub length-keys-entries_from :
    (graph : Graph) (ss : List PlanStep)
    → length (keys (entries_from (λ s. s.dependencies) graph ss)) ≤ length (keys graph) + length ss
unfolding entries_from
length-keys-entries_from graph [] = omega arith
length-keys-entries_from graph (s ∷ ss) = omega (
  arith,
  length-keys-insert s.id s.dependencies graph,
  length-keys-entries_from (insert s.id s.dependencies graph) ss,
)

module _ (steps : List PlanStep) (distinct : all_distinct (step_ids steps) ≡ true) where
  pub Needs-Edge : {a b : String} → Needs steps a b → Edge (dependencies_of steps) a b
  Needs-Edge n = record {
    dependencies = n.step.dependencies;
    found =
        subst (λ k. lookup k (dependencies_of steps) ≡ some n.step.dependencies) n.named
          (lookup-entries_from (λ s. s.dependencies) [] steps n.step distinct n.member);
    listed = n.listed;
  }

  pub DependsOn-Chain : {a b : String} → DependsOn steps a b → Chain (dependencies_of steps) a b
  DependsOn-Chain (direct n) = one (Needs-Edge n)
  DependsOn-Chain (onward p n) = more (DependsOn-Chain p) (Needs-Edge n)

pub Edge-Needs :
    (steps : List PlanStep) {a b : String} → Edge (dependencies_of steps) a b → Needs steps a b
unfolding lookup
Edge-Needs steps {a} {b} e =
    elim (entries_from-In (λ s. s.dependencies) [] steps a e.dependencies e.found) [
      | inl before ↦ absurd (cc)
      | inr (s, member, named, same) ↦ record {
        step = s;
        member = member;
        named = named;
        listed = subst (λ ds. contains b ds ≡ true) (sym same) e.listed;
      }
    ]

pub Chain-DependsOn :
    (steps : List PlanStep) {a b : String} → Chain (dependencies_of steps) a b → DependsOn steps a b
Chain-DependsOn steps (one e) = direct (Edge-Needs steps e)
Chain-DependsOn steps (more c e) = onward (Chain-DependsOn steps c) (Edge-Needs steps e)
