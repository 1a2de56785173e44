-- ===== src/Flows/SideEffects/Evidence.antt =====
-- The evidence of flows/side_effects.py along the calls of the ledger.
use base_agent.Base.{
  ℕ, ◌+◌, ◌≤◌, Bool, true, false, ◌&&◌, not, some, List, [], ◌∷◌, ◌==◌, ==_sound, nat_eq, string_eq,
  option_eq, pair_eq, Result, Error, ok, err, ◌≡◌, refl, sym, ap, subst, ◌∙◌, arith, Option-cases,
  Result-cases, Bool-cases, some_inj, inl, inr,
}
use base_agent.Base.Dict.{lookup, insert, lookup-insert, lookup-insert_self}
use base_agent.Flows.SideEffects.Ledger.{
  FlowSideEffect, FlowSideEffectLedger, FlowSideEffectPhase, is_idempotent, is_idle, retry_safe,
  operation, operation_eq, prepare, transition, mark_started, allows,
}

-- What a transition has checked, and what it stores.
pub transition-ok :
    (ledger : FlowSideEffectLedger) (effect_id revision : ℕ) (target : FlowSideEffectPhase)
    (now : ℕ) (next : FlowSideEffectLedger) (effect : FlowSideEffect)
    → transition ledger effect_id revision target now ≡ ok (next, effect)
    → (e : FlowSideEffect) × (lookup effect_id ledger.effects ≡ some e)
      × (e.revision ≡ revision)
      × (allows e.phase target ≡ true)
      × (effect ≡ record e { phase = target; revision = e.revision + 1; updated_at = now })
      × (next ≡ record ledger { effects = insert effect_id effect ledger.effects })
unfolding transition
transition-ok ledger effect_id revision target now next effect h =
    elim (Option-cases (lookup effect_id ledger.effects)) [
      | inl f ↦ absurd (ground arith)
      | inr (e, f) ↦ (
        e,
        f,
        ==_sound e.revision revision (ground arith),
        ground arith,
        ground arith,
        ground arith,
      )
    ]

stale :
    (ledger : FlowSideEffectLedger) (effect_id revision : ℕ) (target : FlowSideEffectPhase)
    (now : ℕ) (e : FlowSideEffect)
    → lookup effect_id ledger.effects ≡ some e
    → e.revision ≡ revision + 1
    → transition ledger effect_id revision target now ≡ err Error.flow_side_effect_revision_conflict
unfolding transition
stale ledger effect_id revision target now e found r = ground arith

-- Of two writers that hold the same revision at most one wins: once a transition from a revision
-- has returned, every other transition from that revision is a revision conflict.
pub transition-transition_same_revision :
    (ledger : FlowSideEffectLedger) (effect_id revision : ℕ) (target other : FlowSideEffectPhase)
    (now later : ℕ) (next : FlowSideEffectLedger) (effect : FlowSideEffect)
    → transition ledger effect_id revision target now ≡ ok (next, effect)
    → transition next effect_id revision other later ≡ err Error.flow_side_effect_revision_conflict
transition-transition_same_revision ledger effect_id revision target other now later next effect h =
    let (e, found, same, allowed, built, stored) =
      transition-ok ledger effect_id revision target now next effect h in
    stale next effect_id revision other later effect
      (subst (λ k. lookup effect_id k.effects ≡ some effect) (sym stored)
        (lookup-insert_self effect_id effect ledger.effects))
      (ap (λ k. k.revision) built ∙ ap (λ r. r + 1) same)

-- One call of a method that changes the ledger.
pub data Call : Type 0 where
  prepares : FlowSideEffect → Call
  moves : (effect_id revision : ℕ) → (target : FlowSideEffectPhase) → (now : ℕ) → Call

abbrev pub perform : FlowSideEffectLedger → Call → Result (FlowSideEffectLedger × FlowSideEffect)
perform ledger (prepares effect) = prepare ledger effect
perform ledger (moves effect_id revision target now) =
    transition ledger effect_id revision target now

-- Whether a call prepares evidence under the id.
abbrev pub prepares_id : ℕ → Call → Bool
prepares_id id (prepares effect) = effect.id == id
prepares_id id _ = false

-- How the evidence under an id may change: not at all, or by one transition.
pub data Advance (e f : FlowSideEffect) : Type 0 where
  same : f ≡ e → Advance e f
  advanced :
      (target : FlowSideEffectPhase) (now : ℕ)
      → allows e.phase target ≡ true
      → f ≡ record e { phase = target; revision = e.revision + 1; updated_at = now }
      → Advance e f

prepare-keeps :
    (ledger : FlowSideEffectLedger) (effect : FlowSideEffect) (next : FlowSideEffectLedger)
    (result : FlowSideEffect) (id : ℕ)
    → prepare ledger effect ≡ ok (next, result)
    → (effect.id == id) ≡ false
    → lookup id next.effects ≡ lookup id ledger.effects
unfolding prepare
prepare-keeps ledger effect next result id h other =
    elim (Option-cases (lookup (operation effect) ledger.operations)) [
      | inl e ↦
          let built : insert effect.id effect ledger.effects ≡ next.effects = ground arith in
          subst (λ m. lookup id m ≡ lookup id ledger.effects) built
            (rw (lookup-insert effect.id id effect ledger.effects, other) refl)
      | inr (known, e) ↦ ap (λ m. lookup id m) (ground arith)
    ]

-- Each call that returns leaves the evidence under an id as it is or moves it by one allowed
-- transition, unless it prepares other evidence under that id.
pub perform-Advance :
    (ledger : FlowSideEffectLedger) (call : Call) (next : FlowSideEffectLedger)
    (result : FlowSideEffect) (id : ℕ) (e : FlowSideEffect)
    → perform ledger call ≡ ok (next, result)
    → prepares_id id call ≡ false
    → lookup id ledger.effects ≡ some e
    → (f : FlowSideEffect) × (lookup id next.effects ≡ some f) × Advance e f
perform-Advance ledger (prepares effect) next result id e h other found =
    (e, prepare-keeps ledger effect next result id h other ∙ found, same refl)
perform-Advance ledger (moves effect_id revision target now) next result id e h other found =
    let (old, old_found, r, allowed, built, stored) =
      transition-ok ledger effect_id revision target now next result h in
    let placed : lookup id next.effects ≡ lookup id (insert effect_id result ledger.effects) =
      ap (λ k. lookup id k.effects) stored in
    elim (Bool-cases (effect_id == id)) [
      | inl hit ↦
          let was : old ≡ e = some_inj (
            sym old_found
            ∙ ap (λ n. lookup n ledger.effects) (==_sound effect_id id hit)
            ∙ found) in
          (
            result,
            placed ∙ rw (lookup-insert effect_id id result ledger.effects, hit) refl,
            subst (λ k. Advance k result) was (advanced target now allowed built),
          )
      | inr other_id ↦ (
        e,
        placed ∙ rw (lookup-insert effect_id id result ledger.effects, other_id) found,
        same refl,
      )
    ]

abbrev pub or_unchanged :
    FlowSideEffectLedger → Result (FlowSideEffectLedger × FlowSideEffect) → FlowSideEffectLedger
or_unchanged ledger (ok (next, e)) = next
or_unchanged ledger (err e) = ledger

-- A history of calls, those that fail among them.
unfoldable pub run : FlowSideEffectLedger → List Call → FlowSideEffectLedger
run ledger [] = ledger
run ledger (call ∷ calls) = run (or_unchanged ledger (perform ledger call)) calls

-- No call of the history prepares evidence under the id.
abbrev pub prepares_nothing : ℕ → List Call → Bool
prepares_nothing id [] = true
prepares_nothing id (call ∷ calls) = not (prepares_id id call) && prepares_nothing id calls

-- The evidence `e` with the fields of `f` that a transition writes.
abbrev pub moved_to : FlowSideEffect → FlowSideEffect → FlowSideEffect
moved_to e f = record e { phase = f.phase; revision = f.revision; updated_at = f.updated_at }

-- What one transition keeps: who the evidence is about, and, once started, that it was started.
pub record IsLater (e f : FlowSideEffect) : Type 0 where
  pub intent : f ≡ moved_to e f
  pub revision : e.revision ≤ f.revision
  pub left_idle : is_idle e.phase ≡ false → is_idle f.phase ≡ false
  pub final : e.phase ≡ FlowSideEffectPhase.confirmed → f ≡ e

IsLater-refl : (e : FlowSideEffect) → IsLater e e
IsLater-refl e = record {
  intent = refl;
  revision = omega arith;
  left_idle = λ h. h;
  final = λ h. refl;
}

advanced-IsLater :
    (e : FlowSideEffect) (target : FlowSideEffectPhase) (now : ℕ)
    → allows e.phase target ≡ true
    → IsLater e (record e { phase = target; revision = e.revision + 1; updated_at = now })
advanced-IsLater e target now allowed = record {
  intent = refl;
  revision = omega arith;
  left_idle = λ h. ground arith;
  final = λ h. absurd (ground arith);
}

IsLater-trans : {e f g : FlowSideEffect} → IsLater e f → IsLater f g → IsLater e g
IsLater-trans {e} {f} {g} p q = record {
  intent = q.intent ∙ ap (λ k. moved_to k g) p.intent;
  revision = grind arith;
  left_idle = λ h. q.left_idle (p.left_idle h);
  final = λ h. q.final (ap (λ k. k.phase) (p.final h) ∙ h) ∙ p.final h;
}

Advance-IsLater : {e f : FlowSideEffect} → Advance e f → IsLater e f
Advance-IsLater {e} (same s) = subst (λ k. IsLater e k) (sym s) (IsLater-refl e)
Advance-IsLater {e} (advanced target now allowed built) =
    subst (λ k. IsLater e k) (sym built) (advanced-IsLater e target now allowed)

step-IsLater :
    (ledger : FlowSideEffectLedger) (call : Call) (id : ℕ) (e : FlowSideEffect)
    → prepares_id id call ≡ false
    → lookup id ledger.effects ≡ some e
    → (f : FlowSideEffect) × (lookup id (or_unchanged ledger (perform ledger call)).effects
        ≡ some f)
      × IsLater e f
step-IsLater ledger call id e other found = elim (Result-cases (perform ledger call)) [
  | inl (x, p) ↦ rw p (e, found, IsLater-refl e)
  | inr ((next, result), p) ↦
      let (f, after, advance) = perform-Advance ledger call next result id e p other found in
      rw p (f, after, Advance-IsLater advance)
]

-- Over any history of calls that prepares nothing else under its id, evidence keeps its run,
-- invocation, operation, retry mode and digest, its revision never falls, it does not change once it
-- is CONFIRMED, and once it is STARTED or CONFIRMED it never reads as PREPARED or ABORTED again.
pub run-IsLater :
    (ledger : FlowSideEffectLedger) (calls : List Call) (id : ℕ) (e : FlowSideEffect)
    → prepares_nothing id calls ≡ true
    → lookup id ledger.effects ≡ some e
    → (f : FlowSideEffect) × (lookup id (run ledger calls).effects ≡ some f) × IsLater e f
unfolding run
run-IsLater ledger [] id e quiet found = (e, found, IsLater-refl e)
run-IsLater ledger (call ∷ calls) id e quiet found =
    let (f, after, first) = step-IsLater ledger call id e (ground arith) found in
    let (g, last, rest) =
      run-IsLater (or_unchanged ledger (perform ledger call)) calls id f (ground arith) after in
    (g, last, IsLater-trans first rest)

unsafe_started :
    (f : FlowSideEffect)
    → is_idle f.phase ≡ false
    → is_idempotent f.retry_mode ≡ false
    → retry_safe f ≡ false
unfolding retry_safe
unsafe_started f a b = ground arith

-- An effect without downstream idempotency that was marked as started is never again reported as
-- safe to repeat, whatever is called later, unless its id is prepared again.
pub mark_started-retry_safe :
    (ledger : FlowSideEffectLedger) (effect_id revision now : ℕ) (next : FlowSideEffectLedger)
    (effect : FlowSideEffect) (calls : List Call)
    → mark_started ledger effect_id revision now ≡ ok (next, effect)
    → is_idempotent effect.retry_mode ≡ false
    → prepares_nothing effect_id calls ≡ true
    → (f : FlowSideEffect) × (lookup effect_id (run next calls).effects ≡ some f)
      × (retry_safe f ≡ false)
unfolding mark_started
mark_started-retry_safe ledger effect_id revision now next effect calls h unsafe quiet =
    let (e, found, r, allowed, built, stored) =
      transition-ok ledger effect_id revision FlowSideEffectPhase.started now next effect h in
    let (f, last, later) = run-IsLater next calls effect_id effect quiet (
      subst (λ k. lookup effect_id k.effects ≡ some effect) (sym stored)
        (lookup-insert_self effect_id effect ledger.effects)) in
    (
      f,
      last,
      unsafe_started f (later.left_idle (ap (λ k. is_idle k.phase) built))
          (ap (λ k. is_idempotent k.retry_mode) later.intent ∙ unsafe),
    )
