-- ===== src/Supervision/Policies.antt =====
-- supervision/policies.py. The printed forms that the policies make, of a call and of a reason, are
-- parameters; what they keep in `supervision_data` is a record.
use base_agent.Base.{
  ℕ, ◌+◌, String, Bool, true, false, Option, some, [], ◌∷◌, leb, ◌==◌, string_eq, option_eq,
  if◌then◌else◌,
}
use base_agent.Models.Json.{Json, end, field}
use base_agent.Models.Message.{ToolCall}
use base_agent.Models.Status.{RunStatus}
use base_agent.Base.Time.{ℤ}
use base_agent.Supervision.Decisions.{
  SupervisionDecision, continue_, redirect_decision, stop_decision, first_intervention,
}

-- The limits of AgentProfile that the policies read.
pub record AgentProfile : Type 0 where
  pub max_steps : ℕ
  pub max_tool_calls : ℕ
  pub duplicate_tool_call_threshold : ℕ
  pub max_consecutive_tool_failures : ℕ

-- What the policies read and write of RuntimeContext: the counters of the Run, and the entries
-- "duplicate_tool_calls" (its fingerprint and count) and "consecutive_tool_failures" of `supervision_data`.
pub record RuntimeContext : Type 0 where
  pub profile : AgentProfile
  pub step_count : ℕ
  pub tool_call_count : ℕ
  pub last_fingerprint : Option String
  pub repeat_count : ℕ
  pub consecutive_tool_failures : ℕ

pub data ToolResultStatus : Type 0 where
  success invalid_arguments not_found denied timeout error waiting : ToolResultStatus

abbrev pub is_success : ToolResultStatus → Bool
is_success ToolResultStatus.success = true
is_success _ = false

-- The f-strings: the fingerprint of a call, and the reason for each intervention by its number.
pub record Printing : Type 0 where
  pub fingerprint : ToolCall → String
  pub steps_reason : ℕ → String
  pub calls_reason : ℕ → String
  pub repeats_reason : ℕ → String
  pub failures_reason : ℕ → String

abbrev count : ℕ → Json
count n = Json.number (ℤ.pos n)

-- A hook that BaseSupervisor leaves as it is.
abbrev pub no_op : String → RuntimeContext → RuntimeContext × SupervisionDecision
no_op name context = (context, continue_ name)

module _ (p : Printing) where
  -- `ExecutionBudget.before_model`.
  unfoldable pub budget_before_model : RuntimeContext → RuntimeContext × SupervisionDecision
  budget_before_model c =
      if leb c.profile.max_steps c.step_count
      then (
        c,
        stop_decision "execution-budget" (p.steps_reason c.profile.max_steps)
            RunStatus.limit_reached
            (field "limit" (count c.profile.max_steps)
              (field "kind" (Json.text "model_steps") end)),
      )
      else no_op "execution-budget" c

  -- `ExecutionBudget.before_tool`.
  unfoldable pub budget_before_tool : RuntimeContext → RuntimeContext × SupervisionDecision
  budget_before_tool c =
      if leb c.profile.max_tool_calls c.tool_call_count
      then (
        c,
        stop_decision "execution-budget" (p.calls_reason c.profile.max_tool_calls)
            RunStatus.limit_reached
            (field "limit" (count c.profile.max_tool_calls)
              (field "kind" (Json.text "tool_calls") end)),
      )
      else no_op "execution-budget" c

  -- The context after `state.update(...)`.
  abbrev pub counted_call : ToolCall → RuntimeContext → RuntimeContext
  counted_call call c = record c {
    last_fingerprint = some (p.fingerprint call);
    repeat_count =
        if c.last_fingerprint == some (p.fingerprint call) then c.repeat_count + 1 else 1;
  }

  -- `DuplicateToolCallDetector.before_tool`.
  unfoldable pub duplicates_before_tool :
      ToolCall → RuntimeContext → RuntimeContext × SupervisionDecision
  duplicates_before_tool call c =
      let now = counted_call call c in
      if leb c.profile.duplicate_tool_call_threshold now.repeat_count
      then (
        now,
        redirect_decision "duplicate-tool-call-detector" (p.repeats_reason now.repeat_count)
            "The same tool call has been repeated without enough progress. Do not repeat it again; inspect prior observations and choose a new strategy."
            (field "count" (count now.repeat_count) (field "tool" (Json.text call.name) end)),
      )
      else no_op "duplicate-tool-call-detector" now

  -- The context after the count of `NoProgressDetector.after_tool`.
  abbrev pub counted_result : ToolResultStatus → RuntimeContext → RuntimeContext
  counted_result status c = record c {
    consecutive_tool_failures = if is_success status then 0 else c.consecutive_tool_failures + 1;
  }

  -- `NoProgressDetector.after_tool`.
  unfoldable pub progress_after_tool :
      ToolCall → ToolResultStatus → RuntimeContext → RuntimeContext × SupervisionDecision
  progress_after_tool call status c =
      let now = counted_result status c in
      if is_success status
      then no_op "no-progress-detector" now
      else (if leb c.profile.max_consecutive_tool_failures now.consecutive_tool_failures
          then (
            now,
            redirect_decision "no-progress-detector"
                (p.failures_reason now.consecutive_tool_failures)
                "Multiple tool attempts have failed. Review the error observations, change the approach, and avoid issuing another equivalent call."
                (field "count" (count now.consecutive_tool_failures)
                  (field "last_tool" (Json.text call.name) end)),
          )
          else no_op "no-progress-detector" now)

  -- The hooks of `build_default_supervisor`.
  unfoldable pub before_model : RuntimeContext → RuntimeContext × SupervisionDecision
  before_model = first_intervention (
      budget_before_model
      ∷ no_op "duplicate-tool-call-detector"
      ∷ no_op "no-progress-detector"
      ∷ [])

  unfoldable pub before_tool : ToolCall → RuntimeContext → RuntimeContext × SupervisionDecision
  before_tool call =
      first_intervention
        (budget_before_tool ∷ duplicates_before_tool call ∷ no_op "no-progress-detector" ∷ [])

  unfoldable pub after_tool :
      ToolCall → ToolResultStatus → RuntimeContext → RuntimeContext × SupervisionDecision
  after_tool call status = first_intervention (
      no_op "execution-budget"
      ∷ no_op "duplicate-tool-call-detector"
      ∷ progress_after_tool call status
      ∷ [])
