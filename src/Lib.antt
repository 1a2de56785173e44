-- ===== src/Lib.antt =====
-- Verification library of base-agent: the durable Flow components of src/base_agent/flows, the execution
-- plans of models/plan.py, the in-memory stores, the supervision policies and the state machine of src/base_agent/runtime.
--
-- The parts of the program and how they interact. A Flow Run (flows/lifecycle.py) is an immutable
-- aggregate: its methods return the next state. The repository (flows/repository.py) stores the
-- current state and the event log of each Run, replaces a state by compare-and-swap on its revision,
-- and hands out execution leases (flows/lease.py), whose token a commit must show. The work source
-- (flows/work.py) queues commands for Flow Runs and delivers them to workers under fenced tokens. The
-- ledger (flows/side_effects.py) keeps evidence about external calls. The budget policy
-- (flows/budget.py) reads a Flow Run before and after an Agent is called, and the recovery policy
-- (flows/recovery.py) reads a command, a Flow Run and the evidence, and decides what a worker may do.
-- The service (flows/service.py) composes aggregate and repository: each of its methods reads a Flow Run,
-- makes one transition and commits the new state with its events, under the token of its lease.
-- An execution plan (models/plan.py) is an immutable graph of steps with the transitions of one step or of
-- the plan. The stores of stores/in_memory.py keep conversations and their turns, Runs, checkpoints,
-- events with their subscribers, and artifacts. The supervision policies are asked before a model or a
-- tool is called and after a tool.
--
-- Files, with paths of the code below src/base_agent.
--   Base              helpers: tests, lists, equality, errors, texts, dictionaries and times.
--   Models            models/run.py and result.py (Status), model.py (Usage), artifact.py and
--                     input.py (Artifact), event.py (Event), message.py (Message), run.py and
--                     skill.py (Run), JSON values (Json).
--   Flows/Contracts   flows/models.py.
--   Flows/Lifecycle   flows/lifecycle.py. Invocation: AgentInvocation; State: FlowRunState and its
--                     validator; Transitions: its methods. Parts, Inversion, Replace, Replaced,
--                     Terminated, Accepted and Valid are lemmas; Steps is one call as a value, and
--                     Invariant, Behaviour and Order hold theorems.
--   Flows/Lease       flows/lease.py. Flows/Repository: InMemoryFlowRepository; Store has creation,
--                     commit and events, Execution the leases; Inversion, Consistent and Preserved
--                     carry the invariant, Fencing, History and Holding the theorems on sequences of calls.
--   Flows/Service     flows/service.py. Drafts: the events; Service: the methods; Calls and Ends take one
--                     call apart, Sound and Histories carry what holds of every stored Flow Run.
--   Flows/Work        flows/work.py. Items: commands, items and reviews; Source: enqueue, list and
--                     review; Delivery: claim, renew, complete, block and retry; Choice, Life, Changes
--                     and Calls describe what a call changes; Claims is about one claim, Delivered and
--                     Exclusion about a delivery under later calls; History, Fencing, Idempotence.
--   Flows/SideEffects flows/side_effects.py: Ledger, Evidence on its histories, and Listing.
--   Flows/Budget      flows/budget.py: Policy, and Limits on its decisions.
--   Flows/Recovery    flows/recovery.py: Registry, Policy and Handler, with Resolution, Decisions and
--                     Handling.
--   Plans             models/plan.py. Steps: the records; Graph: validate_graph and its search; Transitions:
--                     the methods. Visits, Cycles, Depth, Lookup, Verdict and Acyclic are about the search; Moves,
--                     Changes, Histories and Progress about the transitions.
--   Stores            stores/in_memory.py and models/conversation.py. Conversations, with Turns, Conversing
--                     and Rounds; Runs; Checkpoints; Events, with Subscriptions, Passes and Streams on a
--                     subscriber; Artifacts.
--   Supervision       supervision/. Decisions: decision.py and composite.py; Policies: policies.py, with
--                     Repeats on histories of tool calls.
--   Runtime           runtime/state_machine.py: StateMachine, with Ends on its histories.
--   Examples          concrete inputs for the theorems.
--
-- How state and operations correspond. A class with state is a record, a method a function from the
-- state to a Result: `ok` with the next state and the value returned, or `err` with the class of the
-- exception, which leaves the state as it was. The locks make each method one step, so an
-- interleaving of tasks is a list of calls. A dict is an association list in the order of insertion. A
-- UUID is a number, and the order of `str(uuid)` that of the numbers; an instant is its number of
-- microseconds, a duration a signed number of them: a positive duration of less than one microsecond, which
-- passes the guards of the code on `ttl_seconds`, is 0 here and does not. What `uuid4` and the clock return is an argument.
-- `model_copy(update=…)` runs no validator in the code and none here; a constructor runs its own.
-- Deep copies of immutable models are the values themselves. Every loop is over a list but
-- one: the search of Plans/Graph is recursion on the number of nested calls of `visit` that the
-- interpreter allows, an argument of validate_graph_within. Beyond it the code raises a RecursionError,
-- recursion_error here, though the steps are those of a valid plan: a chain of dependencies whose steps are
-- listed dependents first nests one call for each of them. One call more than there are steps is always enough,
-- since the ids that are being visited are distinct ids of steps (Plans/Depth); validate_graph has that
-- limit, so what is shown of it is shown of plans that are not deeper than the interpreter allows. The generator `subscribe` is a state with one pass of its loop as a step, so
-- its waiting is the order of passes and emits. Integers of Python are unbounded, as ℕ and ℤ are.
--
-- Parameters. The equality of JSON data and the validation of a confirmation as a ToolConfirmation are
-- arguments. Fingerprints, which the code computes by SHA-256, are fields. The service takes the printed
-- forms of ids, instants and budgets as a record of functions, the artifact store `len` and SHA-256 of
-- bytes, the checkpoint store the type of a snapshot,
-- and the policies the texts that they print. The recovery handler takes the resolver and the reader of
-- evidence, and its call of the application's dispatcher is the value that it returns.
--
-- Not modelled: patterns and lengths of text fields that pydantic checks, texts of messages, logging,
-- the other models of flows/models.py, the engine and the worker around these components, the execution
-- of plans by a model, the runtime, the stores on Postgres and Redis, providers, tools, the server and the other adapters.
pub mod Base
pub mod Models
pub mod Flows
pub mod Plans
pub mod Stores
pub mod Supervision
pub mod Runtime
pub mod Examples
