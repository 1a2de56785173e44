-- ===== src/Plans/Depth.antt =====
-- The depth of the search of models/plan.py, against its fuel.
use base_agent.Base.{
  ℕ, zero, suc, ◌+◌, ◌≤◌, ◌<◌, String, true, false, Option, none, some, is_some, List, [], ◌∷◌,
  all_of, length, ◌==◌, ==_refl, ==_sound, string_eq, if◌then◌else◌, Bool-cases, ◌≡◌, refl, sym, ap,
  subst, arith, inl, inr,
}
use base_agent.Base.Distinct.{contains}
use base_agent.Base.Dict.{lookup}
use base_agent.Plans.Graph.{
  Marks, Search, finished, cycle, unknown, out_of_fuel, then_search, for_each, leave, enter, visit,
}
use base_agent.Plans.Visits.{Graph, Visits, visit-Visits}

-- How many of the keys are not being visited.
abbrev pub idle : List String → List String → ℕ
idle [] visiting = 0
idle (k ∷ ks) visiting = (if contains k visiting then 0 else 1) + idle ks visiting

idle-le : (ks visiting : List String) (id : String) → idle ks (id ∷ visiting) ≤ idle ks visiting
unfolding contains
idle-le [] visiting id = omega arith
idle-le (k ∷ ks) visiting id = ground (arith, idle-le ks visiting id)

idle-lt :
    (ks visiting : List String) (id : String)
    → contains id ks ≡ true
    → contains id visiting ≡ false
    → idle ks (id ∷ visiting) < idle ks visiting
unfolding contains
idle-lt [] visiting id h free = absurd (cc)
idle-lt (k ∷ ks) visiting id h free = elim (Bool-cases (k == id)) [
  | inl same ↦
      let out : contains k visiting ≡ false =
        subst (λ x. contains x visiting ≡ false) (sym (==_sound k id same)) free in
      let back : (id == k) ≡ true =
        subst (λ x. (id == x) ≡ true) (sym (==_sound k id same)) (==_refl id) in
      ground (arith, idle-le ks visiting id)
  | inr other ↦ ground (arith, idle-lt ks visiting id)
]

pub idle-le-length : (ks visiting : List String) → idle ks visiting ≤ length ks
idle-le-length [] visiting = omega arith
idle-le-length (k ∷ ks) visiting = ground (arith, idle-le-length ks visiting)

-- Each key is in the graph, and each dependency is a key.
pub record IsClosed (graph : Graph) (ks : List String) : Type 0 where
  pub there_is : (a : String) → contains a ks ≡ true → is_some (lookup a graph) ≡ true
  pub known :
      (a : String) (ds : List String)
      → lookup a graph ≡ some ds
      → all_of (λ d. contains d ks) ds ≡ true

-- The search ends with a verdict.
abbrev pub IsDecided : Search → Type 0
IsDecided (finished m) = Unit {0}
IsDecided cycle = Unit {0}
IsDecided unknown = ⊥
IsDecided out_of_fuel = ⊥

abbrev pub Decides : List String → ℕ → (String → Marks → Search) → Type 0
Decides ks fuel f =
    (id : String) (m : Marks)
    → contains id ks ≡ true
    → idle ks m.visiting < fuel
    → IsDecided (f id m)

then_search-IsDecided :
    (s : Search) (rest : Marks → Search)
    → IsDecided s
    → ((m : Marks) → s ≡ finished m → IsDecided (rest m))
    → IsDecided (then_search s rest)
then_search-IsDecided (finished m) rest d k = k m refl
then_search-IsDecided cycle rest d k = tt
then_search-IsDecided unknown rest d k = elim d [ ]
then_search-IsDecided out_of_fuel rest d k = elim d [ ]

pub for_each-IsDecided :
    (graph : Graph) (ks : List String) (fuel : ℕ) (f : String → Marks → Search)
    → Visits graph f
    → Decides ks fuel f
    → (xs : List String) (m : Marks) → all_of (λ d. contains d ks) xs ≡ true
    → idle ks m.visiting < fuel
    → IsDecided (for_each f xs m)
unfolding for_each
for_each-IsDecided graph ks fuel f v d [] m all enough = tt
for_each-IsDecided graph ks fuel f v d (x ∷ xs) m all enough =
    then_search-IsDecided (f x m) (for_each f xs) (d x m (ground arith) enough) (λ mid first.
      for_each-IsDecided graph ks fuel f v d xs mid (ground arith)
        (subst (λ vs. idle ks vs < fuel) (sym (v x m mid first).0.visiting) enough))

enter-IsDecided :
    (graph : Graph) (ks : List String) (fuel : ℕ) (f : String → Marks → Search)
    → Visits graph f
    → Decides ks fuel f
    → IsClosed graph ks
    → (id : String) (found : Option (List String)) (m : Marks) → lookup id graph ≡ found
    → contains id ks ≡ true
    → contains id m.visiting ≡ false
    → idle ks m.visiting < suc fuel
    → IsDecided (enter f id found m)
enter-IsDecided graph ks fuel f v d closed id none m known key free enough =
    absurd (cc (closed.there_is id key, ap is_some known))
enter-IsDecided graph ks fuel f v d closed id (some ds) m known key free enough =
    then_search-IsDecided (for_each f ds (record m { visiting = id ∷ m.visiting })) (leave id)
      (for_each-IsDecided graph ks fuel f v d ds (record m { visiting = id ∷ m.visiting })
        (closed.known id ds known) (omega (arith, idle-lt ks m.visiting id key free)))
      (λ mid loop. tt)

pub visit-Decides :
    (graph : Graph) (ks : List String)
    → IsClosed graph ks
    → (fuel : ℕ) → Decides ks fuel (visit fuel graph)
unfolding visit
visit-Decides graph ks closed zero id m key enough = absurd (omega arith)
visit-Decides graph ks closed (suc fuel) id m key enough =
    elim (Bool-cases (contains id m.visiting)) [
      | inl again ↦ rw again tt
      | inr free ↦ elim (Bool-cases (contains id m.visited)) [
        | inl seen ↦ rw (free, seen) tt
        | inr new ↦
            rw (free, new)
              (enter-IsDecided graph ks fuel (visit fuel graph) (visit-Visits graph fuel)
                (visit-Decides graph ks closed fuel) closed id (lookup id graph) m refl key free
                enough)
      ]
    ]
