-- ===== src/Flows/Repository/Holding.antt =====
-- An execution lease of flows/repository.py under any calls of other workers, until it runs out.
use base_agent.Base.{
  ℕ, ◌+◌, ◌<◌, ◌≤◌, String, Bool, true, false, ◌&&◌, ◌||◌, not, some, leb, ltb, List, [], ◌∷◌,
  all_of, ◌==◌, ==_sound, ==_of_eq, nat_eq, string_eq, option_eq, ok, Option-cases, Result-cases,
  Bool-cases, some_inj, ◌≡◌, refl, sym, ◌∙◌, ap, subst, inl, inr, arith, Succeeds,
}
use base_agent.Base.Dict.{lookup, insert, lookup-insert, lookup-insert_self}
use base_agent.Base.Time.{ℤ, micros}
use base_agent.Flows.Lease.{FlowExecutionLease}
use base_agent.Flows.Repository.Store.{FlowRepository, StoredLease}
use base_agent.Flows.Repository.Execution.{
  acquire_execution, renew_execution, release_execution, is_held,
}
use base_agent.Flows.Repository.Inversion.{
  create-ok, commit-Committed, append_events-Appended, acquire_execution-ok,
}
use base_agent.Flows.Repository.Consistent.{
  Call, creates, commits, appends, acquires, renews, releases, perform, after-ok,
}
use base_agent.Flows.Repository.History.{run}

-- The calls that leave a lease to its holder: those that acquire the Run do so before `limit`, and the
-- token is used neither to release the Run nor to renew the lease to an end before `limit`.
abbrev pub leaves_lease : ℕ → ℕ → ℕ → Call → Bool
leaves_lease run_id token limit (creates state drafts stamps) = true
leaves_lease run_id token limit (commits state expected drafts held now stamps) = true
leaves_lease run_id token limit (appends id expected drafts held now stamps) = true
leaves_lease run_id token limit (acquires id owner_id ttl now drawn) =
    not (id == run_id) || ltb now limit
leaves_lease run_id token limit (renews lease ttl now) =
    not (lease.run_id == run_id && lease.token == token) || leb limit (now + micros ttl)
leaves_lease run_id token limit (releases lease) =
    not (lease.run_id == run_id && lease.token == token)

-- A lease of the Run that is active under the token, up to `limit` at least.
record IsHolding (stored : StoredLease) (token limit : ℕ) : Type 0 where
  active : stored.active ≡ true
  held : stored.lease.token ≡ token
  enough : limit ≤ stored.lease.expires_at

data Holding (repo : FlowRepository) (run_id token limit : ℕ) : Type 0 where
  holding :
      (stored : StoredLease)
      → lookup run_id repo.leases ≡ some stored
      → IsHolding stored token limit
      → Holding repo run_id token limit

-- Another lease is stored.
leased_other :
    (repo next : FlowRepository) (run_id k : ℕ) (stored other : StoredLease)
    → lookup run_id repo.leases ≡ some stored
    → (k == run_id) ≡ false
    → next.leases ≡ insert k other repo.leases
    → lookup run_id next.leases ≡ some stored
leased_other repo next run_id k stored other h apart e =
    rw e (rw (lookup-insert k run_id other repo.leases, apart) h)

module _ (repo : FlowRepository) (run_id token limit : ℕ) (stored : StoredLease)
    (found : lookup run_id repo.leases ≡ some stored) (h : IsHolding stored token limit) where
  kept_leases :
      (next : FlowRepository) → next.leases ≡ repo.leases → Holding next run_id token limit
  kept_leases next e = holding stored (rw e found) h

  held_before : (now : ℕ) → now < limit → is_held (lookup run_id repo.leases) now ≡ true
  held_before now early = rw (found, h.active) (ground (arith, h.enough))

  acquire-Holding :
      (id : ℕ) (owner_id : String) (ttl : ℤ) (now drawn : ℕ) (next : FlowRepository)
      (lease : FlowExecutionLease)
      → acquire_execution repo id owner_id ttl now drawn ≡ ok (next, lease)
      → (not (id == run_id) || ltb now limit) ≡ true
      → Holding next run_id token limit
  acquire-Holding id owner_id ttl now drawn next lease e leaves =
      let a = acquire_execution-ok repo id owner_id ttl now drawn next lease e in
      elim (Bool-cases (id == run_id)) [
        | inr other ↦
            holding stored
              (leased_other repo next run_id id stored _ found other (ap (λ r. r.leases) a.6)) h
        | inl same ↦ absurd (
            cc (
              a.1,
              ap (λ k. is_held (lookup k repo.leases) now) (==_sound id run_id same),
              held_before now (ground arith),
            ))
      ]

  renew-Holding :
      (lease : FlowExecutionLease) (ttl : ℤ) (now : ℕ) (next : FlowRepository)
      (renewed : FlowExecutionLease)
      → renew_execution repo lease ttl now ≡ ok (next, renewed)
      → (not (lease.run_id == run_id && lease.token == token) || leb limit (now + micros ttl))
        ≡ true
      → Holding next run_id token limit
  unfolding renew_execution
  renew-Holding lease ttl now next renewed e leaves =
      elim (Option-cases (lookup lease.run_id repo.leases)) [
        | inl f ↦ absurd (ground arith)
        | inr (prior, f) ↦
            let matches : (prior.lease.token == lease.token) ≡ true = ground arith in
            let current = prior.lease in
            let extended : FlowExecutionLease = record current {
              heartbeat_at = now;
              expires_at = now + micros ttl;
            } in
            let built : next.leases
                ≡ insert lease.run_id (record { lease = extended; active = true }) repo.leases =
              ground arith in
            elim (Bool-cases (lease.run_id == run_id)) [
              | inr other ↦
                  holding stored
                    (leased_other repo next run_id lease.run_id stored _ found other built) h
              | inl same ↦
                  let at : lease.run_id ≡ run_id = ==_sound lease.run_id run_id same in
                  let one : prior ≡ stored =
                    some_inj (sym f ∙ ap (λ k. lookup k repo.leases) at ∙ found) in
                  let own : prior.lease.token ≡ token =
                    ap (λ (k : StoredLease). k.lease.token) one ∙ h.held in
                  let mine : lease.token ≡ token =
                    sym (==_sound prior.lease.token lease.token matches) ∙ own in
                  holding (record { lease = extended; active = true })
                    (rw built (
                      subst
                        (λ (k : ℕ).
                          lookup run_id
                            (insert k (record { lease = extended; active = true }) repo.leases)
                          ≡ some (record { lease = extended; active = true }))
                        (sym at) (lookup-insert_self run_id _ repo.leases)))
                    (record { active = refl; held = own; enough = ground (arith, ==_of_eq mine) })
            ]
      ]

  release-Holding :
      (lease : FlowExecutionLease) (next : FlowRepository)
      → release_execution repo lease ≡ ok next
      → (lease.run_id == run_id && lease.token == token) ≡ false
      → Holding next run_id token limit
  unfolding release_execution
  release-Holding lease next e leaves = elim (Option-cases (lookup lease.run_id repo.leases)) [
    | inl f ↦ absurd (ground arith)
    | inr (prior, f) ↦
        let matches : (prior.lease.token == lease.token) ≡ true = ground arith in
        elim (Bool-cases (lease.run_id == run_id)) [
          | inl same ↦
              let one : prior ≡ stored = some_inj (
                sym f
                ∙ ap (λ k. lookup k repo.leases) (==_sound lease.run_id run_id same)
                ∙ found) in
              let mine : lease.token ≡ token =
                sym (==_sound prior.lease.token lease.token matches)
                ∙ ap (λ (k : StoredLease). k.lease.token) one
                ∙ h.held in
              absurd (ground (arith, ==_of_eq mine))
          | inr other ↦ elim (Bool-cases prior.active) [
            | inr ended ↦
                let same : next.leases ≡ repo.leases = ground arith in kept_leases next same
            | inl active ↦
                let built : next.leases
                    ≡ insert lease.run_id (record prior { active = false }) repo.leases =
                  ground arith in
                holding stored
                  (leased_other repo next run_id lease.run_id stored _ found other built) h
          ]
        ]
  ]

perform-Holding :
    (repo : FlowRepository) (call : Call) (next : FlowRepository) (run_id token limit : ℕ)
    → Holding repo run_id token limit
    → leaves_lease run_id token limit call ≡ true
    → perform repo call ≡ ok next
    → Holding next run_id token limit
unfolding perform
perform-Holding repo (creates state drafts stamps) next run_id token limit (holding s f h) l e =
    let (a, g) = after-ok _ e in
    let (one, absent, events, built) = create-ok repo state drafts stamps next a g in
    kept_leases repo run_id token limit s f h next (ap (λ r. r.leases) built)
perform-Holding repo (commits state expected drafts held now stamps) next run_id token limit
      (holding s f h) l e =
    let (a, g) = after-ok _ e in
    let k = commit-Committed repo state expected drafts held now stamps next a g in
    kept_leases repo run_id token limit s f h next (ap (λ r. r.leases) k.result)
perform-Holding repo (appends id expected drafts held now stamps) next run_id token limit
      (holding s f h) l e =
    let (a, g) = after-ok _ e in
    let k = append_events-Appended repo id expected drafts held now stamps next a g in
    kept_leases repo run_id token limit s f h next (ap (λ r. r.leases) k.result)
perform-Holding repo (acquires id owner_id ttl now drawn) next run_id token limit (holding s f h) l
      e =
    let (a, g) = after-ok _ e in
    acquire-Holding repo run_id token limit s f h id owner_id ttl now drawn next a g l
perform-Holding repo (renews lease ttl now) next run_id token limit (holding s f h) l e =
    let (a, g) = after-ok _ e in
    renew-Holding repo run_id token limit s f h lease ttl now next a g l
perform-Holding repo (releases lease) next run_id token limit (holding s f h) l e =
    release-Holding repo run_id token limit s f h lease next e (ground arith)

run-Holding :
    (repo : FlowRepository) (calls : List Call) (run_id token limit : ℕ)
    → Holding repo run_id token limit
    → all_of (leaves_lease run_id token limit) calls ≡ true
    → Holding (run repo calls) run_id token limit
unfolding run
run-Holding repo [] run_id token limit h all = h
run-Holding repo (call ∷ calls) run_id token limit h all =
    let now : leaves_lease run_id token limit call ≡ true = ground arith in
    let rest : all_of (leaves_lease run_id token limit) calls ≡ true = ground arith in
    elim (Result-cases (perform repo call)) [
      | inl (e, f) ↦ rw f (run-Holding repo calls run_id token limit h rest)
      | inr (next, f) ↦ rw f (
          run-Holding next calls run_id token limit
            (perform-Holding repo call next run_id token limit h now f) rest)
    ]

-- After a lease has been acquired, and after any calls, those that fail among them, that do not use its
-- token to release it or to renew it to an earlier end, and that acquire the Flow Run before its end
-- only, nobody acquires the Flow Run before that end.
pub acquire_execution-excludes :
    (repo : FlowRepository) (run_id : ℕ) (owner_id : String) (ttl : ℤ) (now token : ℕ)
    (next : FlowRepository) (lease : FlowExecutionLease) (calls : List Call) (other : String)
    (ttl' : ℤ) (later token' : ℕ)
    → acquire_execution repo run_id owner_id ttl now token ≡ ok (next, lease)
    → all_of (leaves_lease run_id token (now + micros ttl)) calls ≡ true
    → later < now + micros ttl
    → ¬ Succeeds (acquire_execution (run next calls) run_id other ttl' later token')
acquire_execution-excludes repo run_id owner_id ttl now token next lease calls other ttl' later
      token' h leave in_time ((after, second), again) =
    let a = acquire_execution-ok repo run_id owner_id ttl now token next lease h in
    let held : lookup run_id next.leases ≡ some (record { lease = lease; active = true }) =
      subst (λ r. lookup run_id r.leases ≡ some (record { lease = lease; active = true })) (sym a.6)
        (lookup-insert_self run_id _ repo.leases) in
    let fresh : IsHolding (record { lease = lease; active = true }) token (now + micros ttl) =
      record { active = refl; held = a.3; enough = omega (arith, a.5) } in
    refused (run-Holding next calls run_id token (now + micros ttl) (holding _ held fresh) leave)
  where
    refused : Holding (run next calls) run_id token (now + micros ttl) → ⊥
    refused (holding stored f h) =
        let b =
          acquire_execution-ok (run next calls) run_id other ttl' later token' after second again in
        absurd (
          cc (
            b.1,
            held_before (run next calls) run_id token (now + micros ttl) stored f h later in_time,
          ))
