-- ===== src/Flows/Repository/History.antt =====
-- Histories of calls. A call that raises leaves the repository as it was.
use base_agent.Base.{
  ℕ, ◌≤◌, true, Option, some, List, [], ◌∷◌, ◌==◌, ==_sound, nat_eq, string_eq, option_eq, Result,
  ok, err, Result-cases, Bool-cases, some_inj, ◌≡◌, refl, sym, ◌∙◌, ap, subst, inl, inr, arith,
}
use base_agent.Base.Dict.{Dict, lookup, lookup-insert}
use base_agent.Base.Time.{ℤ}
use base_agent.Models.Event.{RuntimeEvent}
use base_agent.Flows.Lifecycle.State.{FlowRunState}
use base_agent.Flows.Contracts.{FlowBudget}
use base_agent.Flows.Lease.{FlowExecutionLease}
use base_agent.Flows.Repository.Store.{
  FlowRepository, FlowEventDraft, Stamp, create, commit, events, same_identity, same_budget,
}
use base_agent.Flows.Repository.Execution.{renew_execution, release_execution}
use base_agent.Flows.Repository.Inversion.{
  create-ok, commit-Committed, append_events-Appended, validate_flow_replacement-ok,
  acquire_execution-ok,
}
use base_agent.Flows.Repository.Consistent.{
  IsConsistent, Call, creates, commits, appends, acquires, renews, releases, perform, after-ok,
}
use base_agent.Flows.Repository.Preserved.{perform-IsConsistent}

abbrev pub or_unchanged : FlowRepository → Result FlowRepository → FlowRepository
or_unchanged repo (ok next) = next
or_unchanged repo (err e) = repo

unfoldable pub run : FlowRepository → List Call → FlowRepository
run repo [] = repo
run repo (call ∷ calls) = run (or_unchanged repo (perform repo call)) calls

abbrev pub empty : FlowRepository
empty = record { states = []; events = []; leases = [] }

empty-IsConsistent : IsConsistent empty
unfolding lookup
empty-IsConsistent = record { logged = λ k v h. absurd (cc); leased = λ k v h. absurd (cc) }

run_from-IsConsistent :
    (repo : FlowRepository) (calls : List Call) → IsConsistent repo → IsConsistent (run repo calls)
unfolding run
run_from-IsConsistent repo [] c = c
run_from-IsConsistent repo (call ∷ calls) c =
    run_from-IsConsistent (or_unchanged repo (perform repo call)) calls
      (elim (Result-cases (perform repo call)) [
        | inl (e, f) ↦ rw f c
        | inr (next, f) ↦ rw f (perform-IsConsistent repo call next c f)
      ])

-- After any calls on a new repository, those that fail among them, every stored Flow Run has a log
-- that carries its id and is numbered from 1 without a gap, and every lease belongs to a stored Run.
pub run-IsConsistent : (calls : List Call) → IsConsistent (run empty calls)
run-IsConsistent calls = run_from-IsConsistent empty calls empty-IsConsistent

-- The later state of the same Run: its revision is not lower, and what it pins is the same.
pub record Later (states : Dict ℕ FlowRunState) (id : ℕ) (s : FlowRunState) : Type 0 where
  pub state : FlowRunState
  pub stored : lookup id states ≡ some state
  pub revision : s.revision ≤ state.revision
  pub definition_id : state.definition_id ≡ s.definition_id
  pub definition_version : state.definition_version ≡ s.definition_version
  pub definition_fingerprint : state.definition_fingerprint ≡ s.definition_fingerprint
  pub budget : state.budget ≡ s.budget
  pub deadline_at : state.deadline_at ≡ s.deadline_at
  pub created_at : state.created_at ≡ s.created_at

kept-Later :
    (states : Dict ℕ FlowRunState) (id : ℕ) (s : FlowRunState)
    → lookup id states ≡ some s
    → Later states id s
kept-Later states id s h = record {
  state = s;
  stored = h;
  revision = omega arith;
  definition_id = refl;
  definition_version = refl;
  definition_fingerprint = refl;
  budget = refl;
  deadline_at = refl;
  created_at = refl;
}

unchanged-Later :
    (states next : Dict ℕ FlowRunState) (id : ℕ) (s : FlowRunState)
    → lookup id states ≡ some s
    → next ≡ states
    → Later next id s
unchanged-Later states next id s h e = subst (λ m. Later m id s) (sym e) (kept-Later states id s h)

same_budget_sound : (a b : FlowBudget) → same_budget a b ≡ true → a ≡ b
unfolding same_budget
same_budget_sound a b h =
    let invocations : a.max_invocations ≡ b.max_invocations =
      ground (arith, ==_sound a.max_invocations b.max_invocations) in
    let input : a.max_input_tokens ≡ b.max_input_tokens =
      ground (arith, ==_sound a.max_input_tokens b.max_input_tokens) in
    let output : a.max_output_tokens ≡ b.max_output_tokens =
      ground (arith, ==_sound a.max_output_tokens b.max_output_tokens) in
    let total : a.max_total_tokens ≡ b.max_total_tokens =
      ground (arith, ==_sound a.max_total_tokens b.max_total_tokens) in
    let models : a.max_model_calls ≡ b.max_model_calls =
      ground (arith, ==_sound a.max_model_calls b.max_model_calls) in
    let tools : a.max_tool_calls ≡ b.max_tool_calls =
      ground (arith, ==_sound a.max_tool_calls b.max_tool_calls) in
    let timeout : a.timeout_seconds ≡ b.timeout_seconds =
      ground (arith, ==_sound a.timeout_seconds b.timeout_seconds) in
    cc

-- What a replacement that is accepted keeps.
record Pins (current state : FlowRunState) : Type 0 where
  id : state.definition_id ≡ current.definition_id
  version : state.definition_version ≡ current.definition_version
  fingerprint : state.definition_fingerprint ≡ current.definition_fingerprint
  budget : state.budget ≡ current.budget
  deadline : state.deadline_at ≡ current.deadline_at
  created : state.created_at ≡ current.created_at

same_identity-Pins :
    (current state : FlowRunState) → same_identity current state ≡ true → Pins current state
unfolding same_identity
same_identity-Pins current state h = record {
  id = ground (arith, ==_sound state.definition_id current.definition_id);
  version = ground (arith, ==_sound state.definition_version current.definition_version);
  fingerprint =
      ground (arith, ==_sound state.definition_fingerprint current.definition_fingerprint);
  budget = same_budget_sound state.budget current.budget (ground arith);
  deadline = ground (arith, ==_sound state.deadline_at current.deadline_at);
  created = ground (arith, ==_sound state.created_at current.created_at);
}

create-Later :
    (repo : FlowRepository) (state : FlowRunState) (drafts : List FlowEventDraft)
    (stamps : ℕ → Stamp) (next : FlowRepository) (persisted : List RuntimeEvent) (id : ℕ)
    (s : FlowRunState)
    → create repo state drafts stamps ≡ ok (next, persisted)
    → lookup id repo.states ≡ some s
    → Later next.states id s
create-Later repo state drafts stamps next persisted id s h e =
    let (one, absent, events, built) = create-ok repo state drafts stamps next persisted h in
    subst (λ r. Later r.states id s) (sym built)
      (elim (Bool-cases (state.run_id == id)) [
        | inl same ↦
            absurd (cc (ap (λ k. lookup k repo.states) (==_sound state.run_id id same), absent, e))
        | inr other ↦
            kept-Later _ id s (rw (lookup-insert state.run_id id state repo.states, other) e)
      ])

commit-Later :
    (repo : FlowRepository) (state : FlowRunState) (expected : ℕ) (drafts : List FlowEventDraft)
    (token : Option ℕ) (now : ℕ) (stamps : ℕ → Stamp) (next : FlowRepository)
    (persisted : List RuntimeEvent) (id : ℕ) (s : FlowRunState)
    → commit repo state expected drafts token now stamps ≡ ok (next, persisted)
    → lookup id repo.states ≡ some s
    → Later next.states id s
commit-Later repo state expected drafts token now stamps next persisted id s h e =
    let k = commit-Committed repo state expected drafts token now stamps next persisted h in
    let v = validate_flow_replacement-ok k.current state expected k.replaces in
    let i = same_identity-Pins k.current state v.3 in
    subst (λ r. Later r.states id s) (sym k.result)
      (elim (Bool-cases (state.run_id == id)) [
        | inl same ↦
            let was : k.current ≡ s =
              some_inj (
                sym k.stored
                ∙ ap (λ j. lookup j repo.states) (==_sound state.run_id id same)
                ∙ e) in
            record {
              state = state;
              stored = rw (lookup-insert state.run_id id state repo.states, same) refl;
              revision = omega (arith, v.0, v.2, ap (λ j. j.revision) was);
              definition_id = i.id ∙ ap (λ j. j.definition_id) was;
              definition_version = i.version ∙ ap (λ j. j.definition_version) was;
              definition_fingerprint = i.fingerprint ∙ ap (λ j. j.definition_fingerprint) was;
              budget = i.budget ∙ ap (λ j. j.budget) was;
              deadline_at = i.deadline ∙ ap (λ j. j.deadline_at) was;
              created_at = i.created ∙ ap (λ j. j.created_at) was;
            }
        | inr other ↦
            kept-Later _ id s (rw (lookup-insert state.run_id id state repo.states, other) e)
      ])

pub renew_execution-states :
    (repo : FlowRepository) (lease : FlowExecutionLease) (ttl : ℤ) (now : ℕ) (next : FlowRepository)
    (renewed : FlowExecutionLease)
    → renew_execution repo lease ttl now ≡ ok (next, renewed)
    → next.states ≡ repo.states
unfolding renew_execution
renew_execution-states repo lease ttl now next renewed h = ground arith

pub release_execution-states :
    (repo : FlowRepository) (lease : FlowExecutionLease) (next : FlowRepository)
    → release_execution repo lease ≡ ok next
    → next.states ≡ repo.states
unfolding release_execution
release_execution-states repo lease next h = ground arith

-- No call loses a stored Flow Run, lowers its revision, or changes the definition (by its id, version and
-- fingerprint), the budget, the deadline or the time of creation that it pins.
pub perform-Later :
    (repo : FlowRepository) (call : Call) (next : FlowRepository) (id : ℕ) (s : FlowRunState)
    → perform repo call ≡ ok next
    → lookup id repo.states ≡ some s
    → Later next.states id s
unfolding perform
perform-Later repo (creates state drafts stamps) next id s h e =
    let (a, f) = after-ok _ h in create-Later repo state drafts stamps next a id s f e
perform-Later repo (commits state expected drafts token now stamps) next id s h e =
    let (a, f) = after-ok _ h in
    commit-Later repo state expected drafts token now stamps next a id s f e
perform-Later repo (appends run_id expected drafts token now stamps) next id s h e =
    let (a, f) = after-ok _ h in
    let k = append_events-Appended repo run_id expected drafts token now stamps next a f in
    unchanged-Later repo.states next.states id s e (ap (λ r. r.states) k.result)
perform-Later repo (acquires run_id owner_id ttl now token) next id s h e =
    let (a, f) = after-ok _ h in
    unchanged-Later repo.states next.states id s e
      (ap (λ r. r.states) (acquire_execution-ok repo run_id owner_id ttl now token next a f).6)
perform-Later repo (renews lease ttl now) next id s h e =
    let (a, f) = after-ok _ h in
    unchanged-Later repo.states next.states id s e
      (renew_execution-states repo lease ttl now next a f)
perform-Later repo (releases lease) next id s h e =
    unchanged-Later repo.states next.states id s e (release_execution-states repo lease next h)
