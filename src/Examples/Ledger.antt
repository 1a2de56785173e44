-- ===== src/Examples/Ledger.antt =====
-- The ledger of side effects at concrete inputs: an effect without downstream idempotency.
use base_agent.Base.{false, none, some, [], ◌∷◌, ok, ◌≡◌, refl, nat_eq, string_eq, option_eq}
use base_agent.Base.Dict.{lookup, insert}
use base_agent.Flows.SideEffects.Ledger.{
  FlowSideEffect, FlowSideEffectLedger, FlowSideEffectPhase, started, confirmed,
  FlowSideEffectRetryMode, transition, mark_started, operation, operation_eq, retry_safe,
}
use base_agent.Flows.SideEffects.Evidence.{
  moves, run, run-IsLater, IsLater, mark_started-retry_safe,
}

abbrev pub payment : FlowSideEffect
payment = record {
  id = 1;
  flow_run_id = 7;
  invocation_id = 20;
  operation_key = "pay";
  operation_name = "pay";
  retry_mode = FlowSideEffectRetryMode.unsafe;
  idempotency_key_digest = none;
  phase = FlowSideEffectPhase.prepared;
  revision = 1;
  created_at = 100;
  updated_at = 100;
}

abbrev pub sent : FlowSideEffect
sent = record payment { phase = started; revision = 2; updated_at = 110 }

abbrev noted : FlowSideEffectLedger
noted = record { effects = (1, payment) ∷ []; operations = (operation payment, 1) ∷ [] }

abbrev sending : FlowSideEffectLedger
sending = record noted { effects = (1, sent) ∷ [] }

starts_payment : transition noted 1 1 started 110 ≡ ok (sending, sent)
unfolding transition lookup insert
starts_payment = refl

marks_payment : mark_started noted 1 1 110 ≡ ok (sending, sent)
unfolding mark_started transition lookup insert
marks_payment = refl

found_payment : lookup 1 noted.effects ≡ some payment
unfolding lookup
found_payment = refl

run-IsLater_example :
    (f : FlowSideEffect) × (lookup 1 (run noted (moves 1 1 started 110 ∷ [])).effects ≡ some f)
    × IsLater payment f
run-IsLater_example = run-IsLater noted (moves 1 1 started 110 ∷ []) 1 payment refl found_payment

mark_started-retry_safe_example :
    (f : FlowSideEffect) × (lookup 1 (run sending (moves 1 2 confirmed 120 ∷ [])).effects ≡ some f)
    × (retry_safe f ≡ false)
mark_started-retry_safe_example =
    mark_started-retry_safe noted 1 1 110 sending sent (moves 1 2 confirmed 120 ∷ []) marks_payment
      refl refl
