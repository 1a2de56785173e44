-- ===== src/Flows/Budget/Limits.antt =====
-- The decisions of FlowBudgetPolicy, flows/budget.py, against the consumption.
use base_agent.Base.{
  ℕ, ◌+◌, ◌-◌, ◌<◌, Bool, true, false, ◌&&◌, ◌||◌, Option, none, some, List, [], ◌∷◌, leb, All, ok,
  err, Error, ok_inj, length, ◌≡◌, ◌∙◌, ◌⊎◌, refl, ap, arith, Result-cases, Option-cases,
  Bool-cases, inl, inr, ◌↔◌, Succeeds,
}
use base_agent.Base.Time.{ℤ, is_negative, micros}
use base_agent.Flows.Lifecycle.State.{
  FlowRunState, deadline_matches, validate_state, usage, model_call_count, tool_call_count,
}
use base_agent.Flows.Lifecycle.Parts.{validate_state-Parts}
use base_agent.Flows.Budget.Policy.{
  FlowBudgetKind, FlowConsumption, FlowBudgetExceeded, Configured, configured, exceeded,
  first_exceeded, or_else, reaches, cumulative_violation, is_late, timeout_violation, consumption,
  decide_before, decide_after, non_negative, before_transport, after_transport, remaining_seconds,
}

-- A configured limit that is not exceeded.
abbrev pub IsUnder : Bool → Configured → Type 0
IsUnder inclusive x = (l : ℕ) → x.limit ≡ some l → reaches inclusive l x.actual ≡ false

or_else-none : (a b : Option FlowBudgetExceeded) → or_else a b ≡ none → (a ≡ none) × (b ≡ none)
or_else-none none b h = (refl, h)
or_else-none (some v) b h = absurd (cc)

exceeded-none :
    (inclusive : Bool) (x : Configured)
    → exceeded inclusive x.kind x.limit x.actual ≡ none
    → IsUnder inclusive x
exceeded-none inclusive x h l e = ground arith

pub first_exceeded-none :
    (inclusive : Bool) (xs : List Configured)
    → first_exceeded inclusive xs ≡ none
    → All (IsUnder inclusive) xs
unfolding first_exceeded
first_exceeded-none inclusive [] h = tt
first_exceeded-none inclusive (x ∷ xs) h =
    let (a, b) = or_else-none _ _ h in
    (exceeded-none inclusive x a, first_exceeded-none inclusive xs b)

exceeded_under : (x : Configured) → IsUnder true x → (exceeded false x.kind x.limit x.actual ≡ none)
exceeded_under x u = elim (Option-cases x.limit) [
  | inl e ↦ rw e refl
  | inr (l, e) ↦ let g = u l e in rw e (ground arith)
]

first_exceeded_under :
    (xs : List Configured) → All (IsUnder true) xs → first_exceeded false xs ≡ none
unfolding first_exceeded
first_exceeded_under [] u = refl
first_exceeded_under (x ∷ xs) u = rw (exceeded_under x u.0) (first_exceeded_under xs u.1)

-- What a decision to go on promises before an Agent is called: the deadline, the invocations and each
-- of the five cumulative limits by itself.
pub record IsWithin (state : FlowRunState) (now : ℕ) (new_invocation : Bool) : Type 0 where
  pub in_time : (deadline : ℕ) → state.deadline_at ≡ some deadline → now < deadline
  pub invocations : new_invocation ≡ true → length state.invocations < state.budget.max_invocations
  pub input_tokens :
      (l : ℕ) → state.budget.max_input_tokens ≡ some l → (usage state).input_tokens < l
  pub output_tokens :
      (l : ℕ) → state.budget.max_output_tokens ≡ some l → (usage state).output_tokens < l
  pub total_tokens :
      (l : ℕ) → state.budget.max_total_tokens ≡ some l → (usage state).total_tokens < l
  pub model_calls :
      (l : ℕ)
      → state.budget.max_model_calls ≡ some l
      → (n : ℕ) × (model_call_count state ≡ ℤ.pos n) × (n < l)
  pub tool_calls :
      (l : ℕ)
      → state.budget.max_tool_calls ≡ some l
      → (n : ℕ) × (tool_call_count state ≡ ℤ.pos n) × (n < l)

below : (x : Configured) → IsUnder true x → (l : ℕ) → x.limit ≡ some l → x.actual < l
below x u l e = let g = u l e in ground arith

all_below :
    (xs : List Configured)
    → All (IsUnder true) xs
    → All (λ x. (l : ℕ) → x.limit ≡ some l → x.actual < l) xs
all_below [] u = tt
all_below (x ∷ xs) u = (below x u.0, all_below xs u.1)

decided_before :
    (state : FlowRunState) (c : FlowConsumption) (now : ℕ) (new_invocation : Bool)
    → decide_before state c now new_invocation ≡ ok none
    → (is_late state.deadline_at now ≡ false)
      × ((new_invocation && leb state.budget.max_invocations c.invocations) ≡ false)
      × (cumulative_violation state c true ≡ none)
unfolding timeout_violation
decided_before state c now new_invocation h = (ground arith, ground arith, ground arith)

non_negative-ok : (z : ℤ) (n : ℕ) → non_negative z ≡ ok n → z ≡ ℤ.pos n
non_negative-ok (ℤ.pos m) n h = ap ℤ.pos (ok_inj h)
non_negative-ok (ℤ.negsuc m) n h = absurd (ground arith)

-- What a consumption was counted from.
record IsCounted (state : FlowRunState) (c : FlowConsumption) : Type 0 where
  invocations : length state.invocations ≡ c.invocations
  input_tokens : (usage state).input_tokens ≡ c.input_tokens
  output_tokens : (usage state).output_tokens ≡ c.output_tokens
  total_tokens : (usage state).total_tokens ≡ c.total_tokens
  model_calls : model_call_count state ≡ ℤ.pos c.model_calls
  tool_calls : tool_call_count state ≡ ℤ.pos c.tool_calls

consumption-IsCounted :
    (state : FlowRunState) (now : ℕ) (c : FlowConsumption)
    → consumption state now ≡ ok c
    → IsCounted state c
unfolding consumption
consumption-IsCounted state now c h = elim (Result-cases (non_negative (model_call_count state))) [
  | inl (e, f) ↦ absurd (ground arith)
  | inr (models, f) ↦ elim (Result-cases (non_negative (tool_call_count state))) [
    | inl (e, g) ↦ absurd (ground arith)
    | inr (tools, g) ↦
        let m : models ≡ c.model_calls = ground arith in
        let t : tools ≡ c.tool_calls = ground arith in
        record {
          invocations = ground arith;
          input_tokens = ground arith;
          output_tokens = ground arith;
          total_tokens = ground arith;
          model_calls = non_negative-ok (model_call_count state) models f ∙ ap ℤ.pos m;
          tool_calls = non_negative-ok (tool_call_count state) tools g ∙ ap ℤ.pos t;
        }
  ]
]

-- When `before_transport` finds nothing, the deadline has not come, there is room for an invocation
-- if one is to begin, and each configured limit, on input, output and total tokens, on model calls
-- and on tool calls, is above the count that it limits.
pub before_transport-IsWithin :
    (state : FlowRunState) (now : ℕ) (new_invocation : Bool)
    → before_transport state now new_invocation ≡ ok none
    → IsWithin state now new_invocation
unfolding before_transport cumulative_violation
before_transport-IsWithin state now new_invocation h = elim (Result-cases (consumption state now)) [
  | inl (e, f) ↦ absurd (ground arith)
  | inr (c, f) ↦
      let (late, room, under) = decided_before state c now new_invocation (ground arith) in
      let all = first_exceeded-none true (configured state.budget c) under in
      let (input, (output, (total, (models, (tools, _))))) =
        all_below (configured state.budget c) all in
      let counted = consumption-IsCounted state now c f in
      record {
        in_time = λ deadline e. ground arith;
        invocations = λ new. ground (arith, counted.invocations);
        input_tokens = λ l e. rw counted.input_tokens (input l e);
        output_tokens = λ l e. rw counted.output_tokens (output l e);
        total_tokens = λ l e. rw counted.total_tokens (total l e);
        model_calls = λ l e. (c.model_calls, counted.model_calls, models l e);
        tool_calls = λ l e. (c.tool_calls, counted.tool_calls, tools l e);
      }
]

-- What `before_transport` lets through, `after_transport` accepts for the same state and time.
pub before_transport-after_transport :
    (state : FlowRunState) (now : ℕ) (new_invocation : Bool)
    → before_transport state now new_invocation ≡ ok none
    → after_transport state now ≡ ok none
unfolding before_transport after_transport cumulative_violation
before_transport-after_transport state now new_invocation h =
    elim (Result-cases (consumption state now)) [
      | inl (e, f) ↦ absurd (ground arith)
      | inr (c, f) ↦
          let (late, room, under) = decided_before state c now new_invocation (ground arith) in
          let all = first_exceeded-none true (configured state.budget c) under in
          let none_after = first_exceeded_under (configured state.budget c) all in
          rw f (rw late (ap ok none_after))
    ]

early_before :
    (state : FlowRunState) (c : FlowConsumption) (now : ℕ) (new_invocation : Bool)
    → is_late state.deadline_at now ≡ false
    → Succeeds (decide_before state c now new_invocation)
early_before state c now new_invocation early =
    elim (Bool-cases (new_invocation && leb state.budget.max_invocations c.invocations)) [
      | inl full ↦
          let v : FlowBudgetExceeded = record {
            kind = FlowBudgetKind.invocations;
            limit = state.budget.max_invocations;
            actual = c.invocations;
          } in
          (some v, rw early (rw full refl))
      | inr room ↦ (cumulative_violation state c true, rw early (rw room refl))
    ]

decided :
    (state : FlowRunState) (c : FlowConsumption) (now : ℕ) (new_invocation : Bool)
    → deadline_matches state ≡ true
    → Succeeds (decide_before state c now new_invocation) × Succeeds (decide_after state c now)
unfolding timeout_violation
decided state c now new_invocation d = elim (Bool-cases (is_late state.deadline_at now)) [
  | inl late ↦ elim (Option-cases state.budget.timeout_seconds) [
    | inl e ↦ absurd (ground arith)
    | inr (l, e) ↦
        let v : FlowBudgetExceeded = record {
          kind = FlowBudgetKind.timeout_seconds;
          limit = l;
          actual = c.elapsed_seconds;
        } in
        ((some v, ground arith), (some v, ground arith))
  ]
  | inr early ↦ (
    early_before state c now new_invocation early,
    (cumulative_violation state c false, rw early refl),
  )
]

-- The counts of calls that FlowConsumption refuses: one of them is negative.
abbrev pub counts_below_zero : FlowRunState → Bool
counts_below_zero state =
    is_negative (model_call_count state) || is_negative (tool_call_count state)

non_negative_total : (z : ℤ) → is_negative z ≡ false → non_negative z ≡ ok (micros z)
non_negative_total z h = rw h refl

consumption_total :
    (state : FlowRunState) (now : ℕ)
    → counts_below_zero state ≡ false
    → Succeeds (consumption state now)
unfolding consumption
consumption_total state now h =
    let m = non_negative_total (model_call_count state) (ground arith) in
    let t = non_negative_total (tool_call_count state) (ground arith) in rw m (rw t (_, refl))

consumption-counts_below_zero :
    (state : FlowRunState) (now : ℕ)
    → counts_below_zero state ≡ true
    → consumption state now ≡ err Error.validation_error
unfolding consumption
consumption-counts_below_zero state now h = ground arith

-- For a state that FlowRunState accepts, both checks decide, unless the results count a negative
-- number of model or tool calls, where both fail with a ValidationError: the assertion on the timeout
-- cannot fail, since a deadline is only there with a timeout.
pub before_transport_total :
    (state : FlowRunState) (now : ℕ) (new_invocation : Bool)
    → validate_state state ≡ ok tt
    → ((counts_below_zero state ≡ false)
        × Succeeds (before_transport state now new_invocation)
        × Succeeds (after_transport state now))
      ⊎ ((counts_below_zero state ≡ true)
          × (before_transport state now new_invocation ≡ err Error.validation_error)
          × (after_transport state now ≡ err Error.validation_error))
unfolding before_transport after_transport
before_transport_total state now new_invocation v =
    let p = validate_state-Parts state v in
    elim (Bool-cases (counts_below_zero state)) [
      | inl below_zero ↦
          let f = consumption-counts_below_zero state now below_zero in
          inr (below_zero, rw f refl, rw f refl)
      | inr fine ↦
          let (c, f) = consumption_total state now fine in
          let (before, after) = decided state c now new_invocation p.deadline in
          inl (fine, rw f before, rw f after)
    ]

-- The time that is left is 0 exactly when the deadline has come, and waiting for it ends there.
pub remaining_seconds-is_late :
    (state : FlowRunState) (now left : ℕ)
    → remaining_seconds state now ≡ some left
    → ((left ≡ 0) ↔ (is_late state.deadline_at now ≡ true))
      × (is_late state.deadline_at (now + left) ≡ true)
unfolding remaining_seconds
remaining_seconds-is_late state now left h = elim (Option-cases state.deadline_at) [
  | inl e ↦ absurd (ground arith)
  | inr (deadline, e) ↦
      let built : deadline - now ≡ left = ground arith in
      rw e ((λ z. ground arith, λ z. ground arith), ground arith)
]
