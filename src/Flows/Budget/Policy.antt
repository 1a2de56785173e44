-- ===== src/Flows/Budget/Policy.antt =====
-- FlowBudgetPolicy. The time of a decision is an argument. Counts of calls come from the metadata of
-- results, so they have a sign until FlowConsumption has checked them; a failed `assert` is
-- Error.assertion.
use base_agent.Base.{
  ℕ, ◌-◌, Bool, true, false, ◌&&◌, Option, none, some, List, [], ◌∷◌, length, ltb, leb, Result,
  Error, ok, err, ◌>>=◌, or_fail, if◌then◌else◌,
}
use base_agent.Base.Time.{ℤ, is_negative, micros}
use base_agent.Flows.Contracts.{FlowBudget}
use base_agent.Flows.Lifecycle.State.{FlowRunState, usage, model_call_count, tool_call_count}

pub data FlowBudgetKind : Type 0 where
  invocations input_tokens output_tokens total_tokens model_calls tool_calls timeout_seconds :
      FlowBudgetKind

-- `elapsed_seconds` is in microseconds.
pub record FlowConsumption : Type 0 where
  pub invocations : ℕ
  pub input_tokens : ℕ
  pub output_tokens : ℕ
  pub total_tokens : ℕ
  pub model_calls : ℕ
  pub tool_calls : ℕ
  pub elapsed_seconds : ℕ

pub record FlowBudgetExceeded : Type 0 where
  pub kind : FlowBudgetKind
  pub limit : ℕ
  pub actual : ℕ

-- A field with `ge=0`.
abbrev pub non_negative : ℤ → Result ℕ
non_negative n = if is_negative n then err Error.validation_error else ok (micros n)

-- `max(0.0, (later - earlier).total_seconds())`: the difference of ℕ stops at 0.
abbrev pub seconds_between : ℕ → ℕ → ℕ
seconds_between earlier later = later - earlier

unfoldable pub consumption : FlowRunState → ℕ → Result FlowConsumption
consumption state now = do
  models ← non_negative (model_call_count state)
  tools ← non_negative (tool_call_count state)
  let total = usage state
  ok record {
    invocations = length state.invocations;
    input_tokens = total.input_tokens;
    output_tokens = total.output_tokens;
    total_tokens = total.total_tokens;
    model_calls = models;
    tool_calls = tools;
    elapsed_seconds = seconds_between state.created_at now;
  }

-- `deadline_at is not None and now >= deadline_at`.
abbrev pub is_late : Option ℕ → ℕ → Bool
is_late none now = false
is_late (some deadline) now = leb deadline now

-- `_timeout_violation`.
unfoldable pub timeout_violation : FlowRunState → FlowConsumption → Result FlowBudgetExceeded
timeout_violation state c = do
  limit ← or_fail state.budget.timeout_seconds Error.assertion
  ok record { kind = FlowBudgetKind.timeout_seconds; limit = limit; actual = c.elapsed_seconds }

-- `actual >= limit if inclusive else actual > limit`.
abbrev pub reaches : Bool → ℕ → ℕ → Bool
reaches inclusive limit actual = if inclusive then leb limit actual else ltb limit actual

-- The loop of `_cumulative_violation` over (kind, limit, actual).
pub record Configured : Type 0 where
  pub kind : FlowBudgetKind
  pub limit : Option ℕ
  pub actual : ℕ

abbrev pub configured : FlowBudget → FlowConsumption → List Configured
configured b c =
    record {
      kind = FlowBudgetKind.input_tokens;
      limit = b.max_input_tokens;
      actual = c.input_tokens;
    }
    ∷ record {
      kind = FlowBudgetKind.output_tokens;
      limit = b.max_output_tokens;
      actual = c.output_tokens;
    }
    ∷ record {
      kind = FlowBudgetKind.total_tokens;
      limit = b.max_total_tokens;
      actual = c.total_tokens;
    }
    ∷ record {
      kind = FlowBudgetKind.model_calls;
      limit = b.max_model_calls;
      actual = c.model_calls;
    }
    ∷ record { kind = FlowBudgetKind.tool_calls; limit = b.max_tool_calls; actual = c.tool_calls }
    ∷ []

-- One round of the loop: what it returns, if it returns.
abbrev pub exceeded : Bool → FlowBudgetKind → Option ℕ → ℕ → Option FlowBudgetExceeded
exceeded inclusive kind none actual = none
exceeded inclusive kind (some limit) actual =
    if reaches inclusive limit actual
    then some record { kind = kind; limit = limit; actual = actual }
    else none

abbrev pub or_else :
    Option FlowBudgetExceeded → Option FlowBudgetExceeded → Option FlowBudgetExceeded
or_else (some v) rest = some v
or_else none rest = rest

unfoldable pub first_exceeded : Bool → List Configured → Option FlowBudgetExceeded
first_exceeded inclusive [] = none
first_exceeded inclusive (x ∷ xs) =
    or_else (exceeded inclusive x.kind x.limit x.actual) (first_exceeded inclusive xs)

-- `_cumulative_violation`.
unfoldable pub cumulative_violation :
    FlowRunState → FlowConsumption → Bool → Option FlowBudgetExceeded
cumulative_violation state c inclusive = first_exceeded inclusive (configured state.budget c)

abbrev pub timed_out : FlowRunState → FlowConsumption → Result (Option FlowBudgetExceeded)
timed_out state c = do v ← timeout_violation state c; ok (some v)

-- What `before_transport` decides from the consumption.
abbrev pub decide_before :
    FlowRunState → FlowConsumption → ℕ → Bool → Result (Option FlowBudgetExceeded)
decide_before state c now new_invocation =
    if is_late state.deadline_at now
    then timed_out state c
    else if new_invocation && leb state.budget.max_invocations c.invocations
    then ok (
        some record {
          kind = FlowBudgetKind.invocations;
          limit = state.budget.max_invocations;
          actual = c.invocations;
        })
    else ok (cumulative_violation state c true)

unfoldable pub before_transport : FlowRunState → ℕ → Bool → Result (Option FlowBudgetExceeded)
before_transport state now new_invocation = do
  c ← consumption state now
  decide_before state c now new_invocation

-- What `after_transport` decides from the consumption.
abbrev pub decide_after : FlowRunState → FlowConsumption → ℕ → Result (Option FlowBudgetExceeded)
decide_after state c now =
    if is_late state.deadline_at now
    then timed_out state c
    else ok (cumulative_violation state c false)

unfoldable pub after_transport : FlowRunState → ℕ → Result (Option FlowBudgetExceeded)
after_transport state now = do c ← consumption state now; decide_after state c now

unfoldable pub remaining_seconds : FlowRunState → ℕ → Option ℕ
remaining_seconds state now = elim state.deadline_at [
  | none ↦ none
  | some deadline ↦ some (seconds_between now deadline)
]
