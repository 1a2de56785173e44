-- ===== src/Stores/Runs.antt =====
-- InMemoryRunStore of stores/in_memory.py, and its cancellation signal.
use base_agent.Base.{
  ℕ, Bool, true, not, ◌&&◌, ◌||◌, none, some, some_inj, List, [], ◌∷◌, is_some, ◌==◌, ==_sound,
  nat_eq, Result, Error, ok, err, ok_inj, ◌>>=◌, ◌>>◌, >>=-eq-ok, guard, fail_if, fail_if-ok,
  or_fail, or_fail-ok, if◌then◌else◌, ◌≡◌, refl, sym, ap, ◌∙◌, subst, arith, Bool-cases,
  Option-cases, Result-cases, inl, inr, ◌⊎◌,
}
use base_agent.Base.Dict.{Dict, lookup, insert, lookup-insert, lookup-insert_self}
use base_agent.Models.Status.{is_created, is_running, is_waiting}
use base_agent.Models.Run.{Run}

abbrev pub RunStore : Type 0
RunStore = Dict ℕ Run

unfoldable pub create : RunStore → Run → Result RunStore
create runs run = do
  fail_if (is_some (lookup run.id runs)) Error.run_already_exists
  ok (insert run.id run runs)

unfoldable pub get : RunStore → ℕ → Result Run
get runs run_id = or_fail (lookup run_id runs) Error.run_not_found

-- The Run that `save` stores over `current`.
abbrev pub merged : Run → Run → Run
merged current run =
    if current.cancel_requested && not run.cancel_requested
    then record run { cancel_requested = true }
    else run

unfoldable pub save : RunStore → Run → Result RunStore
save runs run = do
  current ← or_fail (lookup run.id runs) Error.run_not_found
  ok (insert run.id (merged current run) runs)

unfoldable pub request_cancel : RunStore → (run_id now : ℕ) → Result (RunStore × Run)
request_cancel runs run_id now = do
  run ← or_fail (lookup run_id runs) Error.run_not_found
  guard (is_created run.status || is_running run.status || is_waiting run.status)
      Error.run_not_cancellable
  let updated = record run { cancel_requested = true; updated_at = now }
  ok (insert run_id updated runs, updated)

unfoldable pub is_cancel_requested : RunStore → ℕ → Result Bool
unfolding get
is_cancel_requested runs run_id = do run ← get runs run_id; ok run.cancel_requested

-- One call of a method that changes the store.
pub data Call : Type 0 where
  creates : Run → Call
  saves : Run → Call
  requests_cancel : (run_id now : ℕ) → Call

abbrev store_of : Result (RunStore × Run) → Result RunStore
store_of (ok (runs, run)) = ok runs
store_of (err e) = err e

unfoldable pub perform : RunStore → Call → Result RunStore
perform runs (creates run) = create runs run
perform runs (saves run) = save runs run
perform runs (requests_cancel run_id now) = store_of (request_cancel runs run_id now)

abbrev pub or_unchanged : RunStore → Result RunStore → RunStore
or_unchanged runs (ok next) = next
or_unchanged runs (err e) = runs

-- Calls in order, of which those that raise change nothing.
unfoldable pub perform_all : RunStore → List Call → RunStore
perform_all runs [] = runs
perform_all runs (call ∷ calls) = perform_all (or_unchanged runs (perform runs call)) calls

abbrev IsCancelled : RunStore → ℕ → Type 0
IsCancelled runs id = (run : Run) × (lookup id runs ≡ some run) × (run.cancel_requested ≡ true)

-- A Run stored over another keeps its signal, and one stored beside it too.
stored-IsCancelled :
    (runs : RunStore) (id : ℕ) (run : Run) (other : ℕ)
    → (lookup id runs ≡ none)
      ⊎ ((current : Run) × (lookup id runs ≡ some current)
          × (current.cancel_requested ≡ true → run.cancel_requested ≡ true))
    → IsCancelled runs other
    → IsCancelled (insert id run runs) other
stored-IsCancelled runs id run other before (old, found, cancelled) =
    elim (Bool-cases (id == other)) [
      | inl same ↦
          let here = ap (λ k. lookup k runs) (==_sound id other same) in
          elim before [
            | inl absent ↦ absurd (cc (here, absent, found))
            | inr (current, e, kept) ↦
                let is_old : current ≡ old = some_inj (sym e ∙ (here ∙ found)) in
                (
                  run,
                  lookup-insert id other run runs ∙ rw same refl,
                  kept (ap (λ r. r.cancel_requested) is_old ∙ cancelled),
                )
          ]
      | inr apart ↦ (old, lookup-insert id other run runs ∙ rw apart found, cancelled)
    ]

perform-IsCancelled :
    (runs next : RunStore) (call : Call) (id : ℕ)
    → perform runs call ≡ ok next
    → IsCancelled runs id
    → IsCancelled next id
unfolding perform create save request_cancel
perform-IsCancelled runs next (creates run) id h c =
    let (_, accepts, h1) =
      >>=-eq-ok (fail_if (is_some (lookup run.id runs)) Error.run_already_exists) _ h in
    subst (λ k. IsCancelled k id) (ok_inj h1)
      (stored-IsCancelled runs run.id run id
        (elim (Option-cases (lookup run.id runs)) [
          | inl e ↦ inl e
          | inr (current, e) ↦
              absurd (cc (fail_if-ok _ Error.run_already_exists accepts, ap is_some e))
        ])
        c)
perform-IsCancelled runs next (saves run) id h c =
    let (current, found, h1) = >>=-eq-ok (or_fail (lookup run.id runs) Error.run_not_found) _ h in
    let keeps : current.cancel_requested ≡ true → (merged current run).cancel_requested ≡ true =
      λ on. ground arith in
    subst (λ k. IsCancelled k id) (ok_inj h1)
      (stored-IsCancelled runs run.id (merged current run) id
        (inr (current, or_fail-ok (lookup run.id runs) Error.run_not_found found, keeps)) c)
perform-IsCancelled runs next (requests_cancel run_id now) id h c =
    elim (Option-cases (lookup run_id runs)) [
      | inl e ↦ absurd (ground arith)
      | inr (run, e) ↦
          let stored : next
              ≡ insert run_id (record run { cancel_requested = true; updated_at = now }) runs =
            ground arith in
          subst (λ k. IsCancelled k id) (sym stored)
            (stored-IsCancelled runs run_id
              (record run { cancel_requested = true; updated_at = now }) id
              (inr (run, e, λ on. refl)) c)
    ]

perform_all-IsCancelled :
    (runs : RunStore) (calls : List Call) (id : ℕ)
    → IsCancelled runs id
    → IsCancelled (perform_all runs calls) id
unfolding perform_all
perform_all-IsCancelled runs [] id c = c
perform_all-IsCancelled runs (call ∷ calls) id c =
    perform_all-IsCancelled (or_unchanged runs (perform runs call)) calls id
      (elim (Result-cases (perform runs call)) [
        | inl (e, f) ↦ rw f c
        | inr (next, f) ↦ rw f (perform-IsCancelled runs next call id f c)
      ])

-- A cancellation that `request_cancel` has accepted is reported after any later calls, whatever
-- snapshots of the Run are saved and whether or not they were read before it.
pub request_cancel-is_cancel_requested :
    (runs : RunStore) (run_id now : ℕ) (next : RunStore) (run : Run) (calls : List Call)
    → request_cancel runs run_id now ≡ ok (next, run)
    → is_cancel_requested (perform_all next calls) run_id ≡ ok true
unfolding is_cancel_requested get request_cancel
request_cancel-is_cancel_requested runs run_id now next run calls h =
    elim (Option-cases (lookup run_id runs)) [
      | inl e ↦ absurd (ground arith)
      | inr (old, e) ↦
          let stored : next
              ≡ insert run_id (record old { cancel_requested = true; updated_at = now }) runs =
            ground arith in
          let (found, listed, cancelled) = perform_all-IsCancelled next calls run_id (
            subst (λ k. IsCancelled k run_id) (sym stored)
              (
                record old { cancel_requested = true; updated_at = now },
                lookup-insert_self run_id _ runs,
                refl,
              )) in
          rw (listed, cancelled) refl
    ]
