-- ===== src/Flows/Recovery/Decisions.antt =====
-- The decisions of FlowRecoveryPolicy, flows/recovery.py, against the state of the Flow Run.
use base_agent.Base.{
  ℕ, Bool, true, false, ◌&&◌, not, none, some, List, nat_eq, string_eq, ok, if◌then◌else◌, last_of,
  ◌≡◌, refl, subst, arith, Bool-cases, Option-cases, inl, inr, Succeeds,
}
use base_agent.Models.Json.{Fields, get_field}
use base_agent.Models.Status.{RunStatus, is_created, is_waiting, is_terminal}
use base_agent.Flows.Lifecycle.Invocation.{AgentInvocation}
use base_agent.Flows.Lifecycle.State.{
  FlowRunState, active_invocation, validate_state, validate_status,
}
use base_agent.Flows.Lifecycle.Parts.{validate_state-Parts}
use base_agent.Flows.Lifecycle.Transitions.{start, evolve}
use base_agent.Flows.Work.Items.{FlowWorkKind, FlowWorkCommand}
use base_agent.Flows.SideEffects.Ledger.{FlowSideEffect}
use base_agent.Flows.Recovery.Registry.{identity_eq}
use base_agent.Flows.Recovery.Policy.{
  FlowRecoveryAction, advance, resume, finalize, cancel, noop, manual_review, FlowRecoveryReason,
  FlowRecoveryDecision, decision, is_given_text, is_confirmation, decide_resume, decide_running,
  decide_by_status, decide_by_kind, decide, last_completed,
}

-- What an action needs of the state.
abbrev pub Enabled : FlowRecoveryAction → FlowRunState → Type 0
Enabled FlowRecoveryAction.start s = (now : ℕ) → Succeeds (start s now)
Enabled advance s =
    (s.status ≡ RunStatus.running)
    × (active_invocation s ≡ none)
    × (last_completed (last_of s.invocations) ≡ true)
Enabled finalize s =
    (s.status ≡ RunStatus.running)
    × (active_invocation s ≡ none)
    × (last_completed (last_of s.invocations) ≡ false)
Enabled resume s =
    (s.status ≡ RunStatus.waiting)
    × ((i : AgentInvocation) × (active_invocation s ≡ some i) × (is_waiting i.status ≡ true))
Enabled cancel s = is_terminal s.status ≡ false
Enabled noop s = is_terminal s.status ≡ true
Enabled manual_review s = is_terminal s.status ≡ false

created_starts :
    (s : FlowRunState) → is_created s.status ≡ true → (now : ℕ) → Succeeds (start s now)
unfolding start
created_starts s c now = (evolve (record s { status = RunStatus.running }) now, ground arith)

running-Enabled :
    (s : FlowRunState) (side_effects : List FlowSideEffect)
    → s.status ≡ RunStatus.running
    → Enabled (decide_running s side_effects).action s
unfolding decide_running
running-Enabled s side_effects r = elim (Option-cases (active_invocation s)) [
  | inr (i, e) ↦ rw e (rw r refl)
  | inl e ↦ elim (Bool-cases (last_completed (last_of s.invocations))) [
    | inl c ↦ rw e (rw c (r, e, c))
    | inr c ↦ rw e (rw c (r, e, c))
  ]
]

-- A waiting Flow Run that is valid has a waiting invocation.
waiting_active :
    (s : FlowRunState)
    → validate_state s ≡ ok tt
    → is_waiting s.status ≡ true
    → (i : AgentInvocation) × (active_invocation s ≡ some i) × (is_waiting i.status ≡ true)
unfolding validate_status
waiting_active s v w =
    let p = validate_state-Parts s v in
    let checked = p.status in
    elim (Option-cases (active_invocation s)) [
      | inl e ↦ absurd (ground arith)
      | inr (i, e) ↦ (i, e, ground arith)
    ]

is_waiting_sound : (status : RunStatus) → is_waiting status ≡ true → status ≡ RunStatus.waiting
is_waiting_sound status w = ground arith

module _ (is_tool_confirmation : Fields → Bool) where
  resume-Enabled :
      (command : FlowWorkCommand) (s : FlowRunState)
      → validate_state s ≡ ok tt
      → is_terminal s.status ≡ false
      → Enabled (decide_resume is_tool_confirmation command s).action s
  unfolding decide_resume
  resume-Enabled command s v live =
      let given = is_given_text (get_field "user_input" command.data_fields) in
      let confirmed =
        is_confirmation is_tool_confirmation (get_field "confirmation" command.data_fields) in
      elim (Bool-cases (is_waiting s.status && (if given then not confirmed else confirmed))) [
        | inl c ↦
            let w : is_waiting s.status ≡ true = ground arith in
            rw c (is_waiting_sound s.status w, waiting_active s v w)
        | inr c ↦ rw c live
      ]

  execute-Enabled :
      (status : RunStatus) (s : FlowRunState) (side_effects : List FlowSideEffect)
      → is_terminal s.status ≡ false
      → s.status ≡ status
      → Enabled (decide_by_status status s side_effects).action s
  execute-Enabled RunStatus.created s side_effects live e = created_starts s (ground arith)
  execute-Enabled RunStatus.running s side_effects live e = running-Enabled s side_effects e
  execute-Enabled RunStatus.waiting s side_effects live e = live
  execute-Enabled RunStatus.completed s side_effects live e = live
  execute-Enabled RunStatus.failed s side_effects live e = live
  execute-Enabled RunStatus.cancelled s side_effects live e = live
  execute-Enabled RunStatus.interrupted s side_effects live e = live
  execute-Enabled RunStatus.limit_reached s side_effects live e = live

  by_kind-Enabled :
      (kind : FlowWorkKind) (command : FlowWorkCommand) (s : FlowRunState)
      (side_effects : List FlowSideEffect)
      → validate_state s ≡ ok tt
      → is_terminal s.status ≡ false
      → Enabled (decide_by_kind is_tool_confirmation kind command s side_effects).action s
  by_kind-Enabled FlowWorkKind.cancel command s side_effects v live = live
  by_kind-Enabled FlowWorkKind.resume command s side_effects v live =
      resume-Enabled command s v live
  by_kind-Enabled FlowWorkKind.execute command s side_effects v live =
      execute-Enabled s.status s side_effects live refl
  by_kind-Enabled FlowWorkKind.recover command s side_effects v live =
      execute-Enabled s.status s side_effects live refl

  -- For a state that FlowRunState accepts, the action of a decision fits it: START is decided only
  -- where `start` succeeds; ADVANCE and FINALIZE only for a running Flow Run with no active
  -- invocation, ADVANCE when the last one, if any, completed and FINALIZE when it did not; RESUME only
  -- where the active invocation waits; CANCEL and manual review only before the end, NOOP only after.
  pub decide-Enabled :
      (command : FlowWorkCommand) (s : FlowRunState) (side_effects : List FlowSideEffect)
      (d : FlowRecoveryDecision)
      → validate_state s ≡ ok tt
      → decide is_tool_confirmation command s side_effects ≡ ok d
      → Enabled d.action s
  unfolding decide
  decide-Enabled command s side_effects d v h = elim (Bool-cases (is_terminal s.status)) [
    | inl ended ↦
        let built : decision FlowRecoveryAction.noop FlowRecoveryReason.terminal_already_settled
            ≡ d =
          ground arith in
        subst (λ (k : FlowRecoveryDecision). Enabled k.action s) built ended
    | inr live ↦
        let built : decide_by_kind is_tool_confirmation command.kind command s side_effects ≡ d =
          ground arith in
        subst (λ (k : FlowRecoveryDecision). Enabled k.action s) built
          (by_kind-Enabled command.kind command s side_effects v live)
  ]
