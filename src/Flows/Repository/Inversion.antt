-- ===== src/Flows/Repository/Inversion.antt =====
-- What follows from the success of a method of the repository.
use base_agent.Base.{
  ℕ, ◌+◌, String, true, false, Option, none, some, List, ◌++◌, length, nat_eq, string_eq, option_eq,
  ok, Option-cases, ◌≡◌, inl, inr, ◌≢◌, arith,
}
use base_agent.Base.Dict.{lookup, insert}
use base_agent.Base.Time.{ℤ, micros}
use base_agent.Models.Event.{RuntimeEvent}
use base_agent.Flows.Lifecycle.State.{FlowRunState}
use base_agent.Flows.Lease.{FlowExecutionLease}
use base_agent.Flows.Repository.Store.{
  FlowRepository, FlowEventDraft, Stamp, materialize_events, create, commit, append_events,
  validate_execution_token, validate_flow_replacement, same_identity,
}
use base_agent.Flows.Repository.Execution.{acquire_execution, is_held, next_attempt}

-- What `create` stores.
pub create-ok :
    (repo : FlowRepository) (state : FlowRunState) (drafts : List FlowEventDraft)
    (stamps : ℕ → Stamp) (next : FlowRepository) (persisted : List RuntimeEvent)
    → create repo state drafts stamps ≡ ok (next, persisted)
    → (state.revision ≡ 1)
      × (lookup state.run_id repo.states ≡ none)
      × (persisted ≡ materialize_events state.run_id drafts 1 stamps)
      × (next ≡ record repo {
        states = insert state.run_id state repo.states;
        events = insert state.run_id persisted repo.events;
      })
unfolding create
create-ok repo state drafts stamps next persisted h = ground arith

-- What `commit` has checked, and what it stores.
pub record Committed (repo : FlowRepository) (state : FlowRunState) (expected : ℕ)
    (drafts : List FlowEventDraft) (token : Option ℕ) (now : ℕ) (stamps : ℕ → Stamp)
    (next : FlowRepository) (persisted : List RuntimeEvent) : Type 0 where
  pub current : FlowRunState
  pub old : List RuntimeEvent
  pub stored : lookup state.run_id repo.states ≡ some current
  pub logged : lookup state.run_id repo.events ≡ some old
  pub fenced : validate_execution_token repo state.run_id token now ≡ ok tt
  pub replaces : validate_flow_replacement current state expected ≡ ok tt
  pub appended : persisted ≡ materialize_events state.run_id drafts (length old + 1) stamps
  pub result : next ≡ record repo {
    states = insert state.run_id state repo.states;
    events = insert state.run_id (old ++ persisted) repo.events;
  }

pub commit-Committed :
    (repo : FlowRepository) (state : FlowRunState) (expected : ℕ) (drafts : List FlowEventDraft)
    (token : Option ℕ) (now : ℕ) (stamps : ℕ → Stamp) (next : FlowRepository)
    (persisted : List RuntimeEvent)
    → commit repo state expected drafts token now stamps ≡ ok (next, persisted)
    → Committed repo state expected drafts token now stamps next persisted
unfolding commit
commit-Committed repo state expected drafts token now stamps next persisted h =
    elim (Option-cases (lookup state.run_id repo.states)) [
      | inl e ↦ absurd (ground arith)
      | inr (current, e) ↦ elim (Option-cases (lookup state.run_id repo.events)) [
        | inl f ↦ absurd (ground arith)
        | inr (old, f) ↦ record {
          current = current;
          old = old;
          stored = e;
          logged = f;
          fenced = ground arith;
          replaces = ground arith;
          appended = ground arith;
          result = ground arith;
        }
      ]
    ]

-- What `append_events` has checked, and what it stores.
pub record Appended (repo : FlowRepository) (run_id expected : ℕ) (drafts : List FlowEventDraft)
    (token : Option ℕ) (now : ℕ) (stamps : ℕ → Stamp) (next : FlowRepository)
    (persisted : List RuntimeEvent) : Type 0 where
  pub current : FlowRunState
  pub old : List RuntimeEvent
  pub stored : lookup run_id repo.states ≡ some current
  pub logged : lookup run_id repo.events ≡ some old
  pub fenced : validate_execution_token repo run_id token now ≡ ok tt
  pub fresh : current.revision ≡ expected
  pub appended : persisted ≡ materialize_events run_id drafts (length old + 1) stamps
  pub result : next ≡ record repo { events = insert run_id (old ++ persisted) repo.events }

pub append_events-Appended :
    (repo : FlowRepository) (run_id expected : ℕ) (drafts : List FlowEventDraft) (token : Option ℕ)
    (now : ℕ) (stamps : ℕ → Stamp) (next : FlowRepository) (persisted : List RuntimeEvent)
    → append_events repo run_id expected drafts token now stamps ≡ ok (next, persisted)
    → Appended repo run_id expected drafts token now stamps next persisted
unfolding append_events
append_events-Appended repo run_id expected drafts token now stamps next persisted h =
    elim (Option-cases (lookup run_id repo.states)) [
      | inl e ↦ absurd (ground arith)
      | inr (current, e) ↦ elim (Option-cases (lookup run_id repo.events)) [
        | inl f ↦ absurd (ground arith)
        | inr (old, f) ↦ record {
          current = current;
          old = old;
          stored = e;
          logged = f;
          fenced = ground arith;
          fresh = ground arith;
          appended = ground arith;
          result = ground arith;
        }
      ]
    ]

-- What an accepted replacement agrees on with the state that it replaces.
pub validate_flow_replacement-ok :
    (current state : FlowRunState) (expected : ℕ)
    → validate_flow_replacement current state expected ≡ ok tt
    → (current.revision ≡ expected)
      × (state.run_id ≡ current.run_id)
      × (state.revision ≡ expected + 1)
      × (same_identity current state ≡ true)
unfolding validate_flow_replacement
validate_flow_replacement-ok current state expected h = ground arith

-- What `acquire_execution` has checked, and what it stores.
pub acquire_execution-ok :
    (repo : FlowRepository) (run_id : ℕ) (owner_id : String) (ttl : ℤ) (now token : ℕ)
    (next : FlowRepository) (lease : FlowExecutionLease)
    → acquire_execution repo run_id owner_id ttl now token ≡ ok (next, lease)
    → (lookup run_id repo.states ≢ none)
      × (is_held (lookup run_id repo.leases) now ≡ false)
      × (lease.run_id ≡ run_id)
      × (lease.token ≡ token)
      × (lease.attempt ≡ next_attempt (lookup run_id repo.leases))
      × (lease.expires_at ≡ now + micros ttl)
      × (next ≡ record repo {
        leases = insert run_id (record { lease = lease; active = true }) repo.leases;
      })
unfolding acquire_execution
acquire_execution-ok repo run_id owner_id ttl now token next lease h = ground arith
