-- ===== src/Flows/Repository/Preserved.antt =====
-- The invariant of InMemoryFlowRepository along each of its calls.
use base_agent.Base.{
  ℕ, ◌+◌, ◌≤◌, String, true, false, Option, none, some, List, ◌++◌, length, ◌==◌, ==_sound, nat_eq,
  string_eq, option_eq, ok, Option-cases, Bool-cases, some_inj, ◌≡◌, refl, sym, ◌∙◌, subst, inl,
  inr, arith,
}
use base_agent.Base.Dict.{
  Dict, lookup, insert, lookup-insert, lookup-insert_self, Holds, insert-Holds,
}
use base_agent.Base.Time.{ℤ, micros}
use base_agent.Models.Event.{RuntimeEvent}
use base_agent.Flows.Lifecycle.State.{FlowRunState}
use base_agent.Flows.Lease.{FlowExecutionLease}
use base_agent.Flows.Repository.Store.{
  FlowRepository, FlowEventDraft, StoredLease, Stamp, materialize_events, create, commit, events,
  append_events,
}
use base_agent.Flows.Repository.Execution.{
  acquire_execution, renew_execution, release_execution, next_attempt,
}
use base_agent.Flows.Repository.Inversion.{
  create-ok, commit-Committed, append_events-Appended, acquire_execution-ok,
}
use base_agent.Flows.Repository.Consistent.{
  IsLog, materialize_events-IsLog, IsLog-append, IsLogged, IsLeased, IsConsistent, Call, creates,
  commits, appends, acquires, renews, releases, perform, after-ok,
}

-- A log stored for a Run, beside the logs that were there.
IsLogged-insert_log :
    (id : ℕ) (log : List RuntimeEvent) (logs : Dict ℕ (List RuntimeEvent))
    (states : Dict ℕ FlowRunState)
    → IsLog id 1 log
    → Holds (IsLogged logs) states
    → Holds (IsLogged (insert id log logs)) states
IsLogged-insert_log id log logs states n held j s h = elim (Bool-cases (id == j)) [
  | inl same ↦ record {
    keyed = (held j s h).keyed;
    log = log;
    logged = rw (lookup-insert id j log logs, same) refl;
    numbered = subst (λ k. IsLog k 1 log) (==_sound id j same) n;
  }
  | inr other ↦ record {
    keyed = (held j s h).keyed;
    log = (held j s h).log;
    logged = rw (lookup-insert id j log logs, other) (held j s h).logged;
    numbered = (held j s h).numbered;
  }
]

IsLogged-insert_state :
    (id : ℕ) (s : FlowRunState) (log : List RuntimeEvent) (logs : Dict ℕ (List RuntimeEvent))
    (states : Dict ℕ FlowRunState)
    → s.run_id ≡ id
    → IsLog id 1 log
    → Holds (IsLogged logs) states
    → Holds (IsLogged (insert id log logs)) (insert id s states)
IsLogged-insert_state id s log logs states k n held =
    insert-Holds (IsLogged (insert id log logs)) id s states
      (record { keyed = k; log = log; logged = lookup-insert_self id log logs; numbered = n })
      (IsLogged-insert_log id log logs states n held)

leased-insert_state :
    (id : ℕ) (s : FlowRunState) (states : Dict ℕ FlowRunState) (leases : Dict ℕ StoredLease)
    → Holds (IsLeased states) leases
    → Holds (IsLeased (insert id s states)) leases
leased-insert_state id s states leases held j l h = elim (Bool-cases (id == j)) [
  | inl same ↦ record {
    keyed = (held j l h).keyed;
    counted = (held j l h).counted;
    state = s;
    stored = rw (lookup-insert id j s states, same) refl;
  }
  | inr other ↦ record {
    keyed = (held j l h).keyed;
    counted = (held j l h).counted;
    state = (held j l h).state;
    stored = rw (lookup-insert id j s states, other) (held j l h).stored;
  }
]

create-IsConsistent :
    (repo : FlowRepository) (state : FlowRunState) (drafts : List FlowEventDraft)
    (stamps : ℕ → Stamp) (next : FlowRepository) (persisted : List RuntimeEvent)
    → IsConsistent repo
    → create repo state drafts stamps ≡ ok (next, persisted)
    → IsConsistent next
create-IsConsistent repo state drafts stamps next persisted c h =
    let (one, absent, events, built) = create-ok repo state drafts stamps next persisted h in
    let n : IsLog state.run_id 1 persisted =
      subst (IsLog state.run_id 1) (sym events)
        (materialize_events-IsLog state.run_id drafts 1 stamps) in
    subst IsConsistent (sym built) (record {
      logged =
          IsLogged-insert_state state.run_id state persisted repo.events repo.states refl n
            c.logged;
      leased = leased-insert_state state.run_id state repo.states repo.leases c.leased;
    })

-- A log is continued by the events of the next number.
extended :
    (id : ℕ) (old new : List RuntimeEvent) (drafts : List FlowEventDraft) (stamps : ℕ → Stamp)
    → IsLog id 1 old
    → new ≡ materialize_events id drafts (length old + 1) stamps
    → IsLog id 1 (old ++ new)
extended id old new drafts stamps h e = IsLog-append id 1 old new h (
    subst (IsLog id (length old + 1)) (sym e)
      (materialize_events-IsLog id drafts (length old + 1) stamps))

-- The log that is found for a stored Run is the one of the invariant.
found-IsLog :
    (repo : FlowRepository) (id : ℕ) (current : FlowRunState) (old : List RuntimeEvent)
    → IsConsistent repo
    → lookup id repo.states ≡ some current
    → lookup id repo.events ≡ some old
    → IsLog id 1 old
found-IsLog repo id current old c e f =
    let l = c.logged id current e in subst (IsLog id 1) (some_inj (sym l.logged ∙ f)) l.numbered

commit-IsConsistent :
    (repo : FlowRepository) (state : FlowRunState) (expected : ℕ) (drafts : List FlowEventDraft)
    (token : Option ℕ) (now : ℕ) (stamps : ℕ → Stamp) (next : FlowRepository)
    (persisted : List RuntimeEvent)
    → IsConsistent repo
    → commit repo state expected drafts token now stamps ≡ ok (next, persisted)
    → IsConsistent next
commit-IsConsistent repo state expected drafts token now stamps next persisted c h =
    let k = commit-Committed repo state expected drafts token now stamps next persisted h in
    let n = found-IsLog repo state.run_id k.current k.old c k.stored k.logged in
    subst IsConsistent (sym k.result) (record {
      logged =
          IsLogged-insert_state state.run_id state _ repo.events repo.states refl
            (extended state.run_id k.old persisted drafts stamps n k.appended) c.logged;
      leased = leased-insert_state state.run_id state repo.states repo.leases c.leased;
    })

append_events-IsConsistent :
    (repo : FlowRepository) (run_id expected : ℕ) (drafts : List FlowEventDraft) (token : Option ℕ)
    (now : ℕ) (stamps : ℕ → Stamp) (next : FlowRepository) (persisted : List RuntimeEvent)
    → IsConsistent repo
    → append_events repo run_id expected drafts token now stamps ≡ ok (next, persisted)
    → IsConsistent next
append_events-IsConsistent repo run_id expected drafts token now stamps next persisted c h =
    let k = append_events-Appended repo run_id expected drafts token now stamps next persisted h in
    let n = found-IsLog repo run_id k.current k.old c k.stored k.logged in
    subst IsConsistent (sym k.result) (record {
      logged =
          IsLogged-insert_log run_id _ repo.events repo.states
            (extended run_id k.old persisted drafts stamps n k.appended) c.logged;
      leased = c.leased;
    })

lease-IsConsistent :
    (repo : FlowRepository) (id : ℕ) (l : StoredLease)
    → IsConsistent repo
    → IsLeased repo.states id l
    → IsConsistent (record repo { leases = insert id l repo.leases })
lease-IsConsistent repo id l c h = record {
  logged = c.logged;
  leased = insert-Holds (IsLeased repo.states) id l repo.leases h c.leased;
}

counted_attempt : (prior : Option StoredLease) → 1 ≤ next_attempt prior
counted_attempt none = omega arith
counted_attempt (some p) = omega arith

acquire_execution-IsConsistent :
    (repo : FlowRepository) (run_id : ℕ) (owner_id : String) (ttl : ℤ) (now token : ℕ)
    (next : FlowRepository) (lease : FlowExecutionLease)
    → IsConsistent repo
    → acquire_execution repo run_id owner_id ttl now token ≡ ok (next, lease)
    → IsConsistent next
acquire_execution-IsConsistent repo run_id owner_id ttl now token next lease c h =
    let a = acquire_execution-ok repo run_id owner_id ttl now token next lease h in
    elim (Option-cases (lookup run_id repo.states)) [
      | inl e ↦ absurd (a.0 e)
      | inr (state, e) ↦ subst IsConsistent (sym a.6) (
          lease-IsConsistent repo run_id _ c (record {
            keyed = a.2;
            counted = rw a.4 (counted_attempt (lookup run_id repo.leases));
            state = state;
            stored = e;
          }))
    ]

renew_execution-IsConsistent :
    (repo : FlowRepository) (lease : FlowExecutionLease) (ttl : ℤ) (now : ℕ) (next : FlowRepository)
    (renewed : FlowExecutionLease)
    → IsConsistent repo
    → renew_execution repo lease ttl now ≡ ok (next, renewed)
    → IsConsistent next
unfolding renew_execution
renew_execution-IsConsistent repo lease ttl now next renewed c h =
    elim (Option-cases (lookup lease.run_id repo.leases)) [
      | inl e ↦ absurd (ground arith)
      | inr (stored, e) ↦
          let l = c.leased lease.run_id stored e in
          subst IsConsistent (ground arith) (
            lease-IsConsistent repo lease.run_id
              (record {
                lease = record stored.lease { heartbeat_at = now; expires_at = now + micros ttl };
                active = true;
              })
              c
              (record { keyed = l.keyed; counted = l.counted; state = l.state; stored = l.stored }))
    ]

release_execution-IsConsistent :
    (repo : FlowRepository) (lease : FlowExecutionLease) (next : FlowRepository)
    → IsConsistent repo
    → release_execution repo lease ≡ ok next
    → IsConsistent next
unfolding release_execution
release_execution-IsConsistent repo lease next c h =
    elim (Option-cases (lookup lease.run_id repo.leases)) [
      | inl e ↦ absurd (ground arith)
      | inr (stored, e) ↦ elim (Bool-cases stored.active) [
        | inl on ↦
            let l = c.leased lease.run_id stored e in
            subst IsConsistent (ground arith) (
              lease-IsConsistent repo lease.run_id (record stored { active = false }) c
                (record {
                  keyed = l.keyed;
                  counted = l.counted;
                  state = l.state;
                  stored = l.stored;
                }))
        | inr off ↦ subst IsConsistent (ground arith) c
      ]
    ]

-- Every call that returns keeps the repository consistent: each stored Flow Run under its id, with a
-- log of its own events numbered from 1 without a gap, and each lease with a stored Run.
pub perform-IsConsistent :
    (repo : FlowRepository) (call : Call) (next : FlowRepository)
    → IsConsistent repo
    → perform repo call ≡ ok next
    → IsConsistent next
unfolding perform
perform-IsConsistent repo (creates state drafts stamps) next c h =
    let (a, e) = after-ok _ h in create-IsConsistent repo state drafts stamps next a c e
perform-IsConsistent repo (commits state expected drafts token now stamps) next c h =
    let (a, e) = after-ok _ h in
    commit-IsConsistent repo state expected drafts token now stamps next a c e
perform-IsConsistent repo (appends run_id expected drafts token now stamps) next c h =
    let (a, e) = after-ok _ h in
    append_events-IsConsistent repo run_id expected drafts token now stamps next a c e
perform-IsConsistent repo (acquires run_id owner_id ttl now token) next c h =
    let (a, e) = after-ok _ h in
    acquire_execution-IsConsistent repo run_id owner_id ttl now token next a c e
perform-IsConsistent repo (renews lease ttl now) next c h =
    let (a, e) = after-ok _ h in renew_execution-IsConsistent repo lease ttl now next a c e
perform-IsConsistent repo (releases lease) next c h =
    release_execution-IsConsistent repo lease next c h
