-- ===== src/Base/Outcome.antt =====
-- Exceptions as values. `Error` has a constructor for each exception class that the program
-- raises; the message text is left out.
use mathlib.Core.Path.{◌≡◌, refl, ap}
use mathlib.Core.Bool.{Bool, true, false}
use mathlib.Core.Logic.{◌⊎◌, inl, inr}
use mathlib.Core.Option.{Option, none, some}

pub data Error : Type 0 where
  value_error validation_error key_error index_error assertion recursion_error : Error
  stop_iteration : Error
  invalid_flow_transition invalid_state_transition invalid_plan_transition : Error
  flow_run_already_exists flow_run_not_found flow_revision_conflict : Error
  flow_lease_unavailable flow_lease_lost : Error
  flow_work_idempotency_conflict flow_work_delivery_lost flow_work_not_found : Error
  flow_work_review_conflict flow_work_review_state flow_work_blocked : Error
  flow_side_effect_not_found flow_side_effect_conflict : Error
  flow_side_effect_revision_conflict invalid_flow_side_effect_transition : Error
  flow_definition_not_found flow_definition_conflict flow_definition_mismatch : Error
  run_already_exists run_not_found run_not_cancellable : Error
  conversation_already_exists conversation_busy conversation_not_found : Error
  conversation_profile_mismatch conversation_turn_not_found : Error
  checkpoint_not_found artifact_not_found attachment_not_found : Error

pub data Result {ℓ} (A : Type ℓ) : Type ℓ where
  err : Error → Result A
  ok : A → Result A

-- `if not b: raise e`.
abbrev pub guard : Bool → Error → Result (Unit {0})
guard true e = ok tt
guard false e = err e

-- `if b: raise e`.
abbrev pub fail_if : Bool → Error → Result (Unit {0})
fail_if true e = err e
fail_if false e = ok tt

infixl 5 ◌>>=◌
abbrev pub ◌>>=◌ {ℓ κ} : {X : Type ℓ} {Y : Type κ} → Result X → (X → Result Y) → Result Y
err problem >>= rest = err problem
ok value >>= rest = rest value

-- A lookup whose miss is raised as `e`.
abbrev pub or_fail {ℓ} : {A : Type ℓ} → Option A → Error → Result A
or_fail none e = err e
or_fail (some a) e = ok a

infixl 5 ◌>>◌
abbrev pub ◌>>◌ {ℓ} : {X : Type ℓ} → Result (Unit {0}) → Result X → Result X
checked >> rest = checked >>= (λ _. rest)

-- What a chain that returns has passed through.
pub >>=-eq-ok {ℓ κ} :
    {X : Type ℓ} {Y : Type κ} {y : Y} (r : Result X) (rest : X → Result Y)
    → (r >>= rest) ≡ ok y
    → (x : X) × (r ≡ ok x) × (rest x ≡ ok y)
>>=-eq-ok (err problem) rest h = cc
>>=-eq-ok (ok x) rest h = (x, refl, h)

-- The call returns.
abbrev pub Succeeds {ℓ} : {A : Type ℓ} → Result A → Type ℓ
Succeeds {A} r = (a : A) × (r ≡ ok a)

pub Result-cases {ℓ} :
    {A : Type ℓ} (r : Result A) → ((e : Error) × (r ≡ err e)) ⊎ ((a : A) × (r ≡ ok a))
Result-cases (ok a) = inr (a, refl)
Result-cases (err e) = inl (e, refl)

pub ok_inj {ℓ} : {A : Type ℓ} {x y : A} → ok x ≡ ok y → x ≡ y
ok_inj h = cc

pub or_fail-ok {ℓ} :
    {A : Type ℓ} (o : Option A) (e : Error) {a : A} → or_fail o e ≡ ok a → o ≡ some a
or_fail-ok none e h = cc
or_fail-ok (some a) e h = ap some (ok_inj h)

pub guard-ok : (b : Bool) (e : Error) {u : Unit {0}} → guard b e ≡ ok u → b ≡ true
guard-ok true e h = refl
guard-ok false e h = cc

pub fail_if-ok : (b : Bool) (e : Error) {u : Unit {0}} → fail_if b e ≡ ok u → b ≡ false
fail_if-ok true e h = cc
fail_if-ok false e h = refl
