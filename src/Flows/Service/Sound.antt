-- ===== src/Flows/Service/Sound.antt =====
-- What each method of FlowLifecycle, flows/service.py, keeps of the stored Runs and their logs.
use base_agent.Base.{
  ℕ, suc, String, false, Option, some, some_inj, List, [], ◌∷◌, ◌++◌, map, map-append, ◌==◌,
  ==_sound, nat_eq, string_eq, Error, ok, >>=-eq-ok, ok_inj, or_fail, ◌≡◌, refl, sym, ap, ◌∙◌,
  subst, arith, Bool-cases, inl, inr,
}
use base_agent.Base.Dict.{Dict, lookup, insert, lookup-insert, lookup-insert_self, Holds}
use base_agent.Base.Time.{ℤ}
use base_agent.Models.Event.{EventType, RuntimeEvent}
use base_agent.Models.Status.{is_terminal}
use base_agent.Flows.Contracts.{FlowDefinition}
use base_agent.Flows.Lease.{FlowExecutionLease}
use base_agent.Flows.Lifecycle.Invocation.{AgentInvocation}
use base_agent.Flows.Lifecycle.State.{FlowRunState, validate_state}
use base_agent.Flows.Lifecycle.Transitions
use base_agent.Flows.Lifecycle.Transitions.{initial_state}
use base_agent.Flows.Lifecycle.Behaviour.{apply-terminal, apply-Follows}
use base_agent.Flows.Lifecycle.Invariant.{Reachable, created, stepped}
use base_agent.Flows.Lifecycle.Steps.{Transition, IsAdmissible, apply}
use base_agent.Flows.Repository.Store.{
  FlowRepository, FlowEventDraft, Stamp, materialize_events, get, commit, append_events,
}
use base_agent.Flows.Repository.Store
use base_agent.Flows.Repository.Execution.{renew_execution, release_execution}
use base_agent.Flows.Repository.Inversion.{create-ok, commit-Committed, append_events-Appended}
use base_agent.Flows.Service.Drafts.{Rendering, created_draft, propagation_failure_draft}
use base_agent.Flows.Service.Service
use base_agent.Flows.Service.Service.{
  CommitReadings, execution_token_for, record_cancellation_propagation_failure,
}
use base_agent.Flows.Service.Calls.{bit, flow_ends, flow_ends-append, draft_types, Changed}

abbrev pub event_types : List RuntimeEvent → List EventType
event_types = map (λ e. e.type)

materialize_events-types :
    (id : ℕ) (drafts : List FlowEventDraft) (start : ℕ) (stamps : ℕ → Stamp)
    → event_types (materialize_events id drafts start stamps) ≡ draft_types drafts
unfolding materialize_events
materialize_events-types id [] start stamps = refl
materialize_events-types id (d ∷ ds) start stamps =
    ap (λ k. d.type ∷ k) (materialize_events-types id ds (suc start) stamps)

-- What holds of a stored Flow Run and its log.
pub record IsSound (logs : Dict ℕ (List RuntimeEvent)) (id : ℕ) (s : FlowRunState) : Type 0 where
  pub keyed : s.run_id ≡ id
  pub definition : FlowDefinition
  pub reached : Reachable definition s
  pub log : List RuntimeEvent
  pub logged : lookup id logs ≡ some log
  pub ended : flow_ends (event_types log) ≡ bit (is_terminal s.status)

abbrev pub AllSound : FlowRepository → Type 0
AllSound repo = Holds (IsSound repo.events) repo.states

-- A log that is stored for one Run, beside those of the other Runs.
stored_beside :
    (id : ℕ) (log : List RuntimeEvent) (logs : Dict ℕ (List RuntimeEvent)) (j : ℕ)
    (s : FlowRunState)
    → IsSound logs j s
    → (id == j) ≡ false
    → IsSound (insert id log logs) j s
stored_beside id log logs j s sound other = record {
  keyed = sound.keyed;
  definition = sound.definition;
  reached = sound.reached;
  log = sound.log;
  logged = rw (lookup-insert id j log logs, other) sound.logged;
  ended = sound.ended;
}

-- A Run that is stored with its log.
store-AllSound :
    (id : ℕ) (s : FlowRunState) (log : List RuntimeEvent) (states : Dict ℕ FlowRunState)
    (logs : Dict ℕ (List RuntimeEvent)) (d : FlowDefinition)
    → s.run_id ≡ id
    → Reachable d s
    → flow_ends (event_types log) ≡ bit (is_terminal s.status)
    → Holds (IsSound logs) states
    → Holds (IsSound (insert id log logs)) (insert id s states)
store-AllSound id s log states logs d keyed reached ended held j t h = elim (Bool-cases (id == j)) [
  | inl same ↦
      let is_j = ==_sound id j same in
      let this : s ≡ t = some_inj (
        sym (lookup-insert_self id s states)
        ∙ (ap (λ k. lookup k (insert id s states)) is_j ∙ h)) in
      subst (IsSound (insert id log logs) j) this (record {
        keyed = keyed ∙ is_j;
        definition = d;
        reached = reached;
        log = log;
        logged =
            ap (λ k. lookup k (insert id log logs)) (sym is_j) ∙ lookup-insert_self id log logs;
        ended = ended;
      })
  | inr other ↦
      let old : lookup j states ≡ some t = sym (lookup-insert id j s states ∙ rw other refl) ∙ h in
      stored_beside id log logs j t (held j t old) other
]

created_live :
    (d : FlowDefinition) (id now : ℕ) (made : FlowRunState)
    → Transitions.create d id now ≡ ok made
    → is_terminal made.status ≡ false
unfolding Transitions.create
created_live d id now made h =
    let (_, u, h1) =
      >>=-eq-ok (validate_state (initial_state d id now)) (λ _. ok (initial_state d id now)) h in
    ap (λ k. is_terminal k.status) (sym (ok_inj h1))

pub create-AllSound :
    (v : Rendering) (repo next : FlowRepository) (d : FlowDefinition) (id now : ℕ)
    (r : CommitReadings) (s : FlowRunState)
    → AllSound repo
    → Service.create v repo d id now r ≡ ok (next, s)
    → AllSound next
unfolding Service.create
create-AllSound v repo next d id now r s sound h =
    let (made, makes, h1) = >>=-eq-ok (Transitions.create d id now) _ h in
    let drafts = created_draft v made ∷ [] in
    let (stored, stores, h2) = >>=-eq-ok (Store.create repo made drafts r.stamps) _ h1 in
    let (one, absent, events, built) =
      create-ok repo made drafts r.stamps stored.0 stored.1 stores in
    let fresh : is_terminal made.status ≡ false = created_live d id now made makes in
    subst AllSound (sym built ∙ ap (λ k. k.0) (ok_inj h2)) (
      store-AllSound made.run_id made stored.1 repo.states repo.events d refl (created id now makes)
        (ap (λ k. flow_ends (event_types k)) events
          ∙ (ap flow_ends (materialize_events-types made.run_id drafts 1 r.stamps)
              ∙ ground (arith)))
        sound)

-- A Run that can still be moved has not ended.
moved_live : (s t : FlowRunState) (x : Transition) → apply s x ≡ ok t → is_terminal s.status ≡ false
moved_live s t x h = elim (Bool-cases (is_terminal s.status)) [
  | inl done ↦ absurd (cc (apply-terminal s x done, h))
  | inr live ↦ live
]

pub move-AllSound :
    (repo next : FlowRepository) (id : ℕ) (x : Transition) (s : FlowRunState)
    → AllSound repo
    → ((current : FlowRunState) → get repo id ≡ ok current → IsAdmissible current x)
    → Changed repo id x next s
    → AllSound next
unfolding get
move-AllSound repo next id x s sound admits c =
    let before = sound id c.current c.stored in
    let k =
      commit-Committed repo s c.current.revision c.drafts c.token c.readings.checked
        c.readings.stamps next c.persisted c.committed in
    let follows = apply-Follows c.current x s c.applied in
    let keyed : s.run_id ≡ id = follows.run_id ∙ before.keyed in
    let old : k.old ≡ before.log =
      some_inj (sym k.logged ∙ (ap (λ j. lookup j repo.events) keyed ∙ before.logged)) in
    let live = moved_live c.current s x c.applied in
    let count : flow_ends (event_types (k.old ++ c.persisted)) ≡ bit (is_terminal s.status) =
      omega (
        arith,
        ap flow_ends (map-append (λ (e : RuntimeEvent). e.type) k.old c.persisted),
        flow_ends-append (event_types k.old) (event_types c.persisted),
        ap (λ l. flow_ends (event_types l)) old,
        before.ended,
        ap bit live,
        ap (λ l. flow_ends (event_types l)) k.appended,
        ap flow_ends (materialize_events-types s.run_id c.drafts _ c.readings.stamps),
        c.ends,
      ) in
    subst AllSound (sym k.result) (
      store-AllSound s.run_id s (k.old ++ c.persisted) repo.states repo.events before.definition
        refl
        (stepped x before.reached
          (admits c.current (ap (λ o. or_fail o Error.flow_run_not_found) c.stored)) c.applied)
        count sound)

pub append-AllSound :
    (v : Rendering) (repo next : FlowRepository) (lease : Option FlowExecutionLease) (id : ℕ)
    (invocation : AgentInvocation) (error_type : String) (r : CommitReadings)
    → AllSound repo
    → record_cancellation_propagation_failure v repo lease id invocation error_type r ≡ ok next
    → AllSound next
unfolding record_cancellation_propagation_failure
append-AllSound v repo next lease id invocation error_type r sound h =
    let (current, got, h1) = >>=-eq-ok (get repo id) _ h in
    let (token, issued, h2) = >>=-eq-ok (execution_token_for lease id) _ h1 in
    let drafts = propagation_failure_draft v current invocation error_type ∷ [] in
    let (stored, stores, h3) =
      >>=-eq-ok (append_events repo id current.revision drafts token r.checked r.stamps) _ h2 in
    let k =
      append_events-Appended repo id current.revision drafts token r.checked r.stamps stored.0
        stored.1 stores in
    subst AllSound (sym k.result ∙ ok_inj h3) (λ j s found. elim (Bool-cases (id == j)) [
      | inl same ↦
          let is_j = ==_sound id j same in
          let before = sound j s found in
          let old : k.old ≡ before.log =
            some_inj (sym k.logged ∙ (ap (λ i. lookup i repo.events) is_j ∙ before.logged)) in
          record {
            keyed = before.keyed;
            definition = before.definition;
            reached = before.reached;
            log = k.old ++ stored.1;
            logged =
                ap (λ i. lookup i (insert id (k.old ++ stored.1) repo.events)) (sym is_j)
                ∙ lookup-insert_self id (k.old ++ stored.1) repo.events;
            ended = omega (
              arith,
              ap flow_ends (map-append (λ (e : RuntimeEvent). e.type) k.old stored.1),
              flow_ends-append (event_types k.old) (event_types stored.1),
              ap (λ l. flow_ends (event_types l)) old,
              before.ended,
              ap (λ l. flow_ends (event_types l)) k.appended,
              ap flow_ends (materialize_events-types id drafts _ r.stamps),
            );
          }
      | inr other ↦ stored_beside id (k.old ++ stored.1) repo.events j s (sound j s found) other
    ])

-- A lease changes no state and no log.
pub leased-AllSound :
    (repo next : FlowRepository)
    → AllSound repo
    → next.states ≡ repo.states
    → next.events ≡ repo.events
    → AllSound next
leased-AllSound repo next sound states events =
    subst (λ m. Holds (IsSound m) next.states) (sym events)
      (subst (Holds (IsSound repo.events)) (sym states) sound)

pub renew_execution-events :
    (repo : FlowRepository) (lease : FlowExecutionLease) (ttl : ℤ) (now : ℕ) (next : FlowRepository)
    (renewed : FlowExecutionLease)
    → renew_execution repo lease ttl now ≡ ok (next, renewed)
    → next.events ≡ repo.events
unfolding renew_execution
renew_execution-events repo lease ttl now next renewed h = ground arith

pub release_execution-events :
    (repo : FlowRepository) (lease : FlowExecutionLease) (next : FlowRepository)
    → release_execution repo lease ≡ ok next
    → next.events ≡ repo.events
unfolding release_execution
release_execution-events repo lease next h = ground arith
