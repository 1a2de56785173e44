-- ===== src/Models/Status.antt =====
-- models/run.py and models/result.py: the states of a Run and the outcomes of an Agent.
use base_agent.Base.{ℕ, Bool, true, false, ◌≡◌, refl, nat_beq, nat_beq_iff}

pub data RunStatus : Type 0 where
  created running completed failed cancelled interrupted limit_reached waiting : RunStatus

pub data AgentResultStatus : Type 0 where
  completed failed cancelled interrupted limit_reached waiting : AgentResultStatus

-- The tests `status is RunStatus.X`.
abbrev pub is_created : RunStatus → Bool
is_created RunStatus.created = true
is_created _ = false

abbrev pub is_running : RunStatus → Bool
is_running RunStatus.running = true
is_running _ = false

abbrev pub is_waiting : RunStatus → Bool
is_waiting RunStatus.waiting = true
is_waiting _ = false

abbrev pub is_completed : RunStatus → Bool
is_completed RunStatus.completed = true
is_completed _ = false

-- `_TERMINAL_STATUSES`, in flows/lifecycle.py, flows/repository.py and flows/recovery.py.
abbrev pub is_terminal : RunStatus → Bool
is_terminal RunStatus.completed = true
is_terminal RunStatus.failed = true
is_terminal RunStatus.cancelled = true
is_terminal RunStatus.interrupted = true
is_terminal RunStatus.limit_reached = true
is_terminal _ = false

-- `_ERROR_STATUSES`: the terminal statuses other than COMPLETED.
abbrev pub is_error : RunStatus → Bool
is_error RunStatus.completed = false
is_error RunStatus.failed = true
is_error RunStatus.cancelled = true
is_error RunStatus.interrupted = true
is_error RunStatus.limit_reached = true
is_error _ = false

-- `_RESULT_TO_RUN_STATUS`.
abbrev pub result_to_run_status : AgentResultStatus → RunStatus
result_to_run_status AgentResultStatus.completed = RunStatus.completed
result_to_run_status AgentResultStatus.failed = RunStatus.failed
result_to_run_status AgentResultStatus.cancelled = RunStatus.cancelled
result_to_run_status AgentResultStatus.interrupted = RunStatus.interrupted
result_to_run_status AgentResultStatus.limit_reached = RunStatus.limit_reached
result_to_run_status AgentResultStatus.waiting = RunStatus.waiting

abbrev status_rank : RunStatus → ℕ
status_rank RunStatus.created = 0
status_rank RunStatus.running = 1
status_rank RunStatus.completed = 2
status_rank RunStatus.failed = 3
status_rank RunStatus.cancelled = 4
status_rank RunStatus.interrupted = 5
status_rank RunStatus.limit_reached = 6
status_rank RunStatus.waiting = 7

-- `a is b`.
abbrev pub same_status : RunStatus → RunStatus → Bool
same_status a b = nat_beq (status_rank a) (status_rank b)

pub same_status_refl : (a : RunStatus) → same_status a a ≡ true
same_status_refl a = (nat_beq_iff _ _).1 refl
