-- ===== src/Examples/Supervision.antt =====
-- The default supervisor at concrete inputs.
use base_agent.Base.{suc, true, none, [], ◌∷◌, leb, ◌≡◌, refl, arith, string_eq, option_eq}
use base_agent.Models.Json.{Fields}
use base_agent.Models.Message.{ToolCall}
use base_agent.Supervision.Decisions.{is_redirect, first_intervention}
use base_agent.Supervision.Policies.{
  RuntimeContext, Printing, before_tool, budget_before_tool, duplicates_before_tool,
}
use base_agent.Supervision.Repeats.{asked, at_call, leading, fingerprints, before_tool-redirects}

abbrev printing : Printing
printing = record {
  fingerprint = λ call. call.name;
  steps_reason = λ n. "steps";
  calls_reason = λ n. "calls";
  repeats_reason = λ n. "repeats";
  failures_reason = λ n. "failures";
}

abbrev fresh : RuntimeContext
fresh = record {
  profile = record {
    max_steps = 10;
    max_tool_calls = 50;
    duplicate_tool_call_threshold = 3;
    max_consecutive_tool_failures = 3;
  };
  step_count = 1;
  tool_call_count = 0;
  last_fingerprint = none;
  repeat_count = 0;
  consecutive_tool_failures = 0;
}

abbrev look : ToolCall
look = record { id = "1"; name = "look"; arguments = Fields.end }

redirects_third :
    is_redirect
      (before_tool printing look
        (at_call printing (asked printing fresh ((look, 1) ∷ (look, 0) ∷ [])) 2)).1.action
    ≡ true
unfolding before_tool asked first_intervention budget_before_tool duplicates_before_tool
redirects_third = refl

before_tool-redirects_example :
    is_redirect
      (before_tool printing look
        (at_call printing (asked printing fresh ((look, 1) ∷ (look, 0) ∷ [])) 2)).1.action
    ≡ leb 3 (suc (leading "look" (fingerprints printing ((look, 1) ∷ (look, 0) ∷ []))))
before_tool-redirects_example =
    before_tool-redirects printing fresh ((look, 1) ∷ (look, 0) ∷ []) look 2 refl
      (omega arith, (omega arith, (omega arith, tt)))
