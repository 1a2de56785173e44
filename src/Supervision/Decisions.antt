-- ===== src/Supervision/Decisions.antt =====
-- supervision/decision.py and supervision/composite.py: decisions, and policies that are asked in order.
use base_agent.Base.{
  String, Bool, true, false, Option, none, some, List, [], ◌∷◌, is_some, Result, Error, ok, ◌>>◌,
  guard, fail_if, if◌then◌else◌, ◌≡◌, refl,
}
use base_agent.Base.Text.{is_empty_text}
use base_agent.Models.Json.{Fields}
use base_agent.Models.Status.{RunStatus}

pub data SupervisionAction : Type 0 where
  continue redirect stop : SupervisionAction

pub record SupervisionDecision : Type 0 where
  pub policy : String
  pub action : SupervisionAction
  pub reason : Option String
  pub message : Option String
  pub terminal_status : Option RunStatus
  pub metadata : Fields

abbrev pub is_continue : SupervisionAction → Bool
is_continue SupervisionAction.continue = true
is_continue _ = false

abbrev pub is_redirect : SupervisionAction → Bool
is_redirect SupervisionAction.redirect = true
is_redirect _ = false

abbrev lacks : Option String → Bool
lacks none = true
lacks (some t) = is_empty_text t

-- The statuses that a stop decision may carry.
abbrev may_stop : Option RunStatus → Bool
may_stop (some RunStatus.failed) = true
may_stop (some RunStatus.cancelled) = true
may_stop (some RunStatus.limit_reached) = true
may_stop _ = false

abbrev validate_intervention : SupervisionAction → SupervisionDecision → Result (Unit {0})
validate_intervention SupervisionAction.redirect d = do
  fail_if (lacks d.message) Error.value_error
  fail_if (is_some d.terminal_status) Error.value_error
validate_intervention _ d = guard (may_stop d.terminal_status) Error.value_error

unfoldable pub validate_action_fields : SupervisionDecision → Result (Unit {0})
validate_action_fields d =
    if is_continue d.action
    then fail_if (is_some d.terminal_status) Error.value_error
    else (fail_if (lacks d.reason) Error.value_error >> validate_intervention d.action d)

abbrev pub continue_ : String → SupervisionDecision
continue_ policy = record {
  policy = policy;
  action = SupervisionAction.continue;
  reason = none;
  message = none;
  terminal_status = none;
  metadata = Fields.end;
}

-- `redirect`, which the validator accepts where the texts are not empty.
abbrev pub redirect_decision : (policy reason message : String) → Fields → SupervisionDecision
redirect_decision policy reason message metadata = record {
  policy = policy;
  action = SupervisionAction.redirect;
  reason = some reason;
  message = some message;
  terminal_status = none;
  metadata = metadata;
}

-- `stop`, which the validator accepts where the reason is not empty and the status one of its three.
abbrev pub stop_decision : (policy reason : String) → RunStatus → Fields → SupervisionDecision
stop_decision policy reason status metadata = record {
  policy = policy;
  action = SupervisionAction.stop;
  reason = some reason;
  message = none;
  terminal_status = some status;
  metadata = metadata;
}

pub validate_action_fields-redirect_decision :
    (policy reason message : String) (metadata : Fields)
    → is_empty_text reason ≡ false
    → is_empty_text message ≡ false
    → validate_action_fields (redirect_decision policy reason message metadata) ≡ ok tt
unfolding validate_action_fields
validate_action_fields-redirect_decision policy reason message metadata r m = rw (r, m) refl

pub validate_action_fields-stop_decision :
    (policy reason : String) (metadata : Fields)
    → is_empty_text reason ≡ false
    → validate_action_fields (stop_decision policy reason RunStatus.limit_reached metadata) ≡ ok tt
unfolding validate_action_fields
validate_action_fields-stop_decision policy reason metadata r = rw r refl

-- One hook of CompositeSupervisor: each policy is asked, in a context that it may change, until one
-- does not continue.
unfoldable pub first_intervention {ℓ} :
    {C : Type ℓ} → List (C → C × SupervisionDecision) → C → C × SupervisionDecision
first_intervention [] context = (context, continue_ "composite-supervisor")
first_intervention (policy ∷ policies) context =
    let asked = policy context in
    let rest = first_intervention policies asked.0 in
    if is_continue asked.1.action then rest else asked
