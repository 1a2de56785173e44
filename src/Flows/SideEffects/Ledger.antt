-- ===== src/Flows/SideEffects/Ledger.antt =====
-- FlowSideEffect and InMemoryFlowSideEffectLedger. A method returns the new ledger with its result;
-- an error leaves the ledger as it was. The time of a transition is an argument.
use base_agent.Base.{
  ℕ, ◌+◌, String, Bool, true, false, ◌&&◌, ◌||◌, not, Option, none, some, is_some, ltb, leb, List,
  [], ◌∷◌, keep, ◌==◌, nat_eq, string_eq, option_eq, pair_eq, Equality, Result, Error, ok, ◌>>=◌,
  ◌>>◌, fail_if, guard, or_fail, if◌then◌else◌,
}
use base_agent.Base.Dict.{Dict, lookup, insert, values}

pub data FlowSideEffectPhase : Type 0 where
  prepared started confirmed aborted : FlowSideEffectPhase

pub data FlowSideEffectRetryMode : Type 0 where
  unsafe idempotent : FlowSideEffectRetryMode

abbrev pub is_idempotent : FlowSideEffectRetryMode → Bool
is_idempotent idempotent = true
is_idempotent unsafe = false

-- `a is b` for two retry modes.
abbrev pub same_mode : FlowSideEffectRetryMode → FlowSideEffectRetryMode → Bool
same_mode idempotent b = is_idempotent b
same_mode unsafe b = not (is_idempotent b)

pub record FlowSideEffect : Type 0 where
  pub id : ℕ
  pub flow_run_id : ℕ
  pub invocation_id : ℕ
  pub operation_key : String
  pub operation_name : String
  pub retry_mode : FlowSideEffectRetryMode
  pub idempotency_key_digest : Option String
  pub phase : FlowSideEffectPhase
  pub revision : ℕ
  pub created_at : ℕ
  pub updated_at : ℕ

-- `validate_retry_evidence`.
unfoldable pub validate_retry_evidence : FlowSideEffect → Result (Unit {0})
validate_retry_evidence e = do
  fail_if (is_idempotent e.retry_mode && not (is_some e.idempotency_key_digest)) Error.value_error
  fail_if (not (is_idempotent e.retry_mode) && is_some e.idempotency_key_digest) Error.value_error

-- `phase in {PREPARED, ABORTED}`.
abbrev pub is_idle : FlowSideEffectPhase → Bool
is_idle prepared = true
is_idle aborted = true
is_idle _ = false

abbrev pub is_prepared : FlowSideEffectPhase → Bool
is_prepared prepared = true
is_prepared _ = false

unfoldable pub retry_safe : FlowSideEffect → Bool
retry_safe e = is_idle e.phase || is_idempotent e.retry_mode

unfoldable pub has_same_intent : FlowSideEffect → FlowSideEffect → Bool
has_same_intent a b =
    a.flow_run_id == b.flow_run_id
    && a.invocation_id == b.invocation_id
    && a.operation_key == b.operation_key
    && a.operation_name == b.operation_name
    && same_mode a.retry_mode b.retry_mode
    && a.idempotency_key_digest == b.idempotency_key_digest

-- The key of an effect in `_operations`.
abbrev pub operation : FlowSideEffect → ℕ × (ℕ × String)
operation e = (e.flow_run_id, (e.invocation_id, e.operation_key))

instance abbrev pub operation_eq : Equality (ℕ × (ℕ × String))
operation_eq = pair_eq ⦃ea = nat_eq⦄ ⦃eb = pair_eq ⦃ea = nat_eq⦄ ⦃eb = string_eq⦄⦄

pub record FlowSideEffectLedger : Type 0 where
  pub effects : Dict ℕ FlowSideEffect
  pub operations : Dict (ℕ × (ℕ × String)) ℕ

-- `prepare`, for an operation that is known.
prepare_again :
    FlowSideEffectLedger → FlowSideEffect → ℕ → Result (FlowSideEffectLedger × FlowSideEffect)
prepare_again ledger effect existing_id = do
  existing ← or_fail (lookup existing_id ledger.effects) Error.key_error
  guard (has_same_intent existing effect) Error.flow_side_effect_conflict
  ok (ledger, existing)

prepare_new : FlowSideEffectLedger → FlowSideEffect → Result (FlowSideEffectLedger × FlowSideEffect)
prepare_new ledger effect = ok (
  record {
    effects = insert effect.id effect ledger.effects;
    operations = insert (operation effect) effect.id ledger.operations;
  },
  effect,
)

unfoldable pub prepare :
    FlowSideEffectLedger → FlowSideEffect → Result (FlowSideEffectLedger × FlowSideEffect)
unfolding prepare_again prepare_new
prepare ledger effect = do
  guard (is_prepared effect.phase && effect.revision == 1) Error.value_error
  elim (lookup (operation effect) ledger.operations) [
    | some existing_id ↦ prepare_again ledger effect existing_id
    | none ↦ prepare_new ledger effect
  ]

unfoldable pub get : FlowSideEffectLedger → ℕ → Result FlowSideEffect
get ledger effect_id = or_fail (lookup effect_id ledger.effects) Error.flow_side_effect_not_found

-- The order of `(created_at, str(id))`.
abbrev pub listed_before : FlowSideEffect → FlowSideEffect → Bool
listed_before a b = ltb a.created_at b.created_at || (a.created_at == b.created_at && leb a.id b.id)

unfoldable pub insert_listed : FlowSideEffect → List FlowSideEffect → List FlowSideEffect
insert_listed a [] = a ∷ []
insert_listed a (b ∷ bs) = if listed_before a b then a ∷ b ∷ bs else b ∷ insert_listed a bs

unfoldable pub sort_listed : List FlowSideEffect → List FlowSideEffect
unfolding insert_listed
sort_listed [] = []
sort_listed (a ∷ rest) = insert_listed a (sort_listed rest)

unfoldable pub list_for_invocation : FlowSideEffectLedger → ℕ → List FlowSideEffect
unfolding sort_listed
list_for_invocation ledger invocation_id =
    sort_listed (keep (λ e. e.invocation_id == invocation_id) (values ledger.effects))

-- `target in valid[current]`, of `_validate_transition`.
abbrev pub allows : FlowSideEffectPhase → FlowSideEffectPhase → Bool
allows prepared started = true
allows prepared aborted = true
allows started confirmed = true
allows aborted started = true
allows _ _ = false

-- `_transition`.
unfoldable pub transition :
    FlowSideEffectLedger
    → ℕ
    → ℕ
    → FlowSideEffectPhase
    → ℕ
    → Result (FlowSideEffectLedger × FlowSideEffect)
transition ledger effect_id expected_revision target now = do
  current ← or_fail (lookup effect_id ledger.effects) Error.flow_side_effect_not_found
  guard (current.revision == expected_revision) Error.flow_side_effect_revision_conflict
  guard (allows current.phase target) Error.invalid_flow_side_effect_transition
  let replacement = record current {
    phase = target;
    revision = current.revision + 1;
    updated_at = now;
  }
  ok (record ledger { effects = insert effect_id replacement ledger.effects }, replacement)

unfoldable pub mark_started :
    FlowSideEffectLedger → ℕ → ℕ → ℕ → Result (FlowSideEffectLedger × FlowSideEffect)
mark_started ledger effect_id expected_revision now =
    transition ledger effect_id expected_revision FlowSideEffectPhase.started now

unfoldable pub confirm :
    FlowSideEffectLedger → ℕ → ℕ → ℕ → Result (FlowSideEffectLedger × FlowSideEffect)
confirm ledger effect_id expected_revision now =
    transition ledger effect_id expected_revision FlowSideEffectPhase.confirmed now

unfoldable pub abort :
    FlowSideEffectLedger → ℕ → ℕ → ℕ → Result (FlowSideEffectLedger × FlowSideEffect)
abort ledger effect_id expected_revision now =
    transition ledger effect_id expected_revision FlowSideEffectPhase.aborted now
