-- ===== src/Runtime/Ends.antt =====
-- The histories of RuntimeStateMachine, runtime/state_machine.py.
use base_agent.Base.{true, false, List, [], ◌∷◌, Result, ok, err, ◌≡◌, refl, arith}
use base_agent.Models.Status.{RunStatus, is_terminal, is_created}
use base_agent.Runtime.StateMachine.{is_terminal_state, transition_to}

-- The state after a sequence of attempts, of which those that raise change nothing.
abbrev pub or_same : RunStatus → Result RunStatus → RunStatus
or_same state (ok next) = next
or_same state (err e) = state

unfoldable pub run : RunStatus → List RunStatus → RunStatus
run state [] = state
run state (target ∷ targets) = run (or_same state (transition_to state target)) targets

terminal_refuses :
    (state target : RunStatus)
    → is_terminal_state state ≡ true
    → or_same state (transition_to state target) ≡ state
unfolding transition_to
terminal_refuses state target h = ground arith

terminal_stays :
    (state : RunStatus) (targets : List RunStatus)
    → is_terminal_state state ≡ true
    → run state targets ≡ state
unfolding run
terminal_stays state [] h = refl
terminal_stays state (target ∷ targets) h =
    rw (terminal_refuses state target h) (terminal_stays state targets h)

not_back :
    (state target : RunStatus)
    → is_created state ≡ false
    → is_created (or_same state (transition_to state target)) ≡ false
unfolding transition_to
not_back RunStatus.created target h = absurd (ground arith)
not_back RunStatus.running target h = ground arith
not_back RunStatus.waiting target h = ground arith
not_back RunStatus.completed target h = ground arith
not_back RunStatus.failed target h = ground arith
not_back RunStatus.cancelled target h = ground arith
not_back RunStatus.interrupted target h = ground arith
not_back RunStatus.limit_reached target h = ground arith

never_back :
    (state : RunStatus) (targets : List RunStatus)
    → is_created state ≡ false
    → is_created (run state targets) ≡ false
unfolding run
never_back state [] h = h
never_back state (target ∷ targets) h =
    never_back (or_same state (transition_to state target)) targets (not_back state target h)

terminal_agrees : (state : RunStatus) → is_terminal_state state ≡ is_terminal state
terminal_agrees RunStatus.created = refl
terminal_agrees RunStatus.running = refl
terminal_agrees RunStatus.waiting = refl
terminal_agrees RunStatus.completed = refl
terminal_agrees RunStatus.failed = refl
terminal_agrees RunStatus.cancelled = refl
terminal_agrees RunStatus.interrupted = refl
terminal_agrees RunStatus.limit_reached = refl

-- The states that the machine calls terminal are the terminal statuses of a Flow Run. Whatever is
-- attempted, a machine in one of them stays there, and a machine that has left CREATED does not
-- come back to it.
pub run-is_terminal :
    (state : RunStatus) (targets : List RunStatus)
    → (is_terminal_state state ≡ is_terminal state)
      × (is_terminal_state state ≡ true → run state targets ≡ state)
      × (is_created state ≡ false → is_created (run state targets) ≡ false)
run-is_terminal state targets =
    (terminal_agrees state, terminal_stays state targets, never_back state targets)
