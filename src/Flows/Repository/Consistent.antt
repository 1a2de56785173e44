-- ===== src/Flows/Repository/Consistent.antt =====
-- The invariant of InMemoryFlowRepository, on its states, logs and leases, and one call as a value.
use base_agent.Base.{
  ℕ, suc, ◌+◌, ◌≤◌, String, Option, some, List, [], ◌∷◌, ◌++◌, length, nat_eq, string_eq, option_eq,
  Result, ok, err, ok_inj, ◌≡◌, refl, ap, subst, arith,
}
use base_agent.Base.Dict.{Dict, lookup, Holds}
use base_agent.Base.Time.{ℤ}
use base_agent.Models.Event.{RuntimeEvent}
use base_agent.Flows.Lifecycle.State.{FlowRunState}
use base_agent.Flows.Lease.{FlowExecutionLease}
use base_agent.Flows.Repository.Store.{
  FlowRepository, FlowEventDraft, StoredLease, Stamp, materialize_events, create, commit,
  append_events,
}
use base_agent.Flows.Repository.Execution.{acquire_execution, renew_execution, release_execution}

-- A log of one Run whose first event has the given number.
abbrev pub IsLog : ℕ → ℕ → List RuntimeEvent → Type 0
IsLog run_id start [] = Unit {0}
IsLog run_id start (e ∷ es) =
    (e.run_id ≡ run_id) × (e.sequence ≡ start) × IsLog run_id (suc start) es

pub materialize_events-IsLog :
    (run_id : ℕ) (drafts : List FlowEventDraft) (start : ℕ) (stamps : ℕ → Stamp)
    → IsLog run_id start (materialize_events run_id drafts start stamps)
unfolding materialize_events
materialize_events-IsLog run_id [] start stamps = tt
materialize_events-IsLog run_id (d ∷ ds) start stamps =
    (refl, refl, materialize_events-IsLog run_id ds (suc start) stamps)

pub IsLog-append :
    (run_id start : ℕ) (es fs : List RuntimeEvent)
    → IsLog run_id start es
    → IsLog run_id (length es + start) fs
    → IsLog run_id start (es ++ fs)
IsLog-append run_id start [] fs h k = subst (λ n. IsLog run_id n fs) (omega arith) k
IsLog-append run_id start (e ∷ es) fs h k = (
  h.0,
  h.1,
  IsLog-append run_id (suc start) es fs h.2 (subst (λ n. IsLog run_id n fs) (omega arith) k),
)

-- What the invariant says of one stored Flow Run, given the logs.
pub record IsLogged (logs : Dict ℕ (List RuntimeEvent)) (id : ℕ) (s : FlowRunState) : Type 0 where
  pub keyed : s.run_id ≡ id
  pub log : List RuntimeEvent
  pub logged : lookup id logs ≡ some log
  pub numbered : IsLog id 1 log

pub record IsLeased (states : Dict ℕ FlowRunState) (id : ℕ) (l : StoredLease) : Type 0 where
  pub keyed : l.lease.run_id ≡ id
  pub counted : 1 ≤ l.lease.attempt
  pub state : FlowRunState
  pub stored : lookup id states ≡ some state

pub record IsConsistent (repo : FlowRepository) : Type 0 where
  pub logged : Holds (IsLogged repo.events) repo.states
  pub leased : Holds (IsLeased repo.states) repo.leases

-- One call of a method that changes the repository.
pub data Call : Type 0 where
  creates : FlowRunState → List FlowEventDraft → (ℕ → Stamp) → Call
  commits :
      FlowRunState
      → (expected : ℕ) → List FlowEventDraft
      → (token : Option ℕ) → (now : ℕ) → (ℕ → Stamp)
      → Call
  appends :
      (run_id expected : ℕ)
      → List FlowEventDraft
      → (token : Option ℕ) → (now : ℕ) → (ℕ → Stamp)
      → Call
  acquires : (run_id : ℕ) → String → ℤ → (now token : ℕ) → Call
  renews : FlowExecutionLease → ℤ → (now : ℕ) → Call
  releases : FlowExecutionLease → Call

-- The repository after a call that returned.
abbrev pub after {ℓ} : {A : Type ℓ} → Result (FlowRepository × A) → Result FlowRepository
after (ok (repo, a)) = ok repo
after (err e) = err e

unfoldable pub perform : FlowRepository → Call → Result FlowRepository
perform repo (creates state drafts stamps) = after (create repo state drafts stamps)
perform repo (commits state expected drafts token now stamps) =
    after (commit repo state expected drafts token now stamps)
perform repo (appends run_id expected drafts token now stamps) =
    after (append_events repo run_id expected drafts token now stamps)
perform repo (acquires run_id owner_id ttl now token) =
    after (acquire_execution repo run_id owner_id ttl now token)
perform repo (renews lease ttl now) = after (renew_execution repo lease ttl now)
perform repo (releases lease) = release_execution repo lease

pub after-ok :
    {A : Type 0} (r : Result (FlowRepository × A)) {next : FlowRepository}
    → after r ≡ ok next
    → (a : A) × (r ≡ ok (next, a))
after-ok (ok (repo, a)) h = (a, ap (λ k. ok (k, a)) (ok_inj h))
after-ok (err e) h = cc
