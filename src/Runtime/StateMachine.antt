-- ===== src/Runtime/StateMachine.antt =====
-- runtime/state_machine.py: RuntimeStateMachine. The machine is its state.
use base_agent.Base.{Bool, List, [], ◌∷◌, any_of, is_nil, Result, Error, ok, ◌>>◌, guard}
use base_agent.Models.Status.{RunStatus, same_status}

-- `_ALLOWED_TRANSITIONS`.
abbrev pub allowed_transitions : RunStatus → List RunStatus
allowed_transitions RunStatus.created =
    RunStatus.running ∷ RunStatus.cancelled ∷ RunStatus.failed ∷ RunStatus.interrupted ∷ []
allowed_transitions RunStatus.running =
    RunStatus.completed ∷ RunStatus.failed ∷ RunStatus.cancelled ∷ RunStatus.interrupted
    ∷ RunStatus.limit_reached ∷ RunStatus.waiting ∷ []
allowed_transitions RunStatus.waiting =
    RunStatus.running ∷ RunStatus.cancelled ∷ RunStatus.failed ∷ RunStatus.interrupted ∷ []
allowed_transitions _ = []

-- The property `is_terminal`.
abbrev pub is_terminal_state : RunStatus → Bool
is_terminal_state state = is_nil (allowed_transitions state)

unfoldable pub transition_to : RunStatus → RunStatus → Result RunStatus
transition_to state target = do
  guard (any_of (same_status target) (allowed_transitions state)) Error.invalid_state_transition
  ok target
