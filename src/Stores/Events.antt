-- ===== src/Stores/Events.antt =====
-- InMemoryEventStore of stores/in_memory.py, on the log of one Run. `subscribe` is a generator: its state is
-- `next_sequence` and whether it has returned, and one pass of its loop is a step between two calls of `emit`.
use base_agent.Base.{
  ℕ, ◌+◌, ◌-◌, Bool, true, false, List, [], ◌∷◌, ◌++◌, length, drop, any_of, ltb, if◌then◌else◌,
  nat_eq, Result, Error, ok, err,
}
use base_agent.Base.Dict.{Dict, lookup, insert}
use base_agent.Base.Time.{ℤ}
use base_agent.Models.Json.{Fields}
use base_agent.Models.Event.{EventType, RuntimeEvent}
use base_agent.Stores.Conversations.{or_empty}

abbrev pub EventStore : Type 0
EventStore = Dict ℕ (List RuntimeEvent)

-- `self._events[run_id]`.
abbrev pub events_of : EventStore → ℕ → List RuntimeEvent
events_of store run_id = or_empty (lookup run_id store)

-- The event that `emit` appends, with the id and the time that its constructor reads.
abbrev pub new_event :
    List RuntimeEvent → ℕ → EventType → Fields → (id timestamp : ℕ) → RuntimeEvent
new_event log run_id type data_fields id timestamp = record {
  id = id;
  run_id = run_id;
  sequence = length log + 1;
  type = type;
  timestamp = timestamp;
  data_fields = data_fields;
}

unfoldable pub emit :
    EventStore → (run_id : ℕ) → EventType → Fields → (id timestamp : ℕ) → EventStore × RuntimeEvent
emit store run_id type data_fields id timestamp =
    let event = new_event (events_of store run_id) run_id type data_fields id timestamp in
    (insert run_id (events_of store run_id ++ event ∷ []) store, event)

-- `permanent_terminal_types`.
abbrev pub is_permanent_end : EventType → Bool
is_permanent_end EventType.run_completed = true
is_permanent_end EventType.run_failed = true
is_permanent_end EventType.run_cancelled = true
is_permanent_end EventType.run_interrupted = true
is_permanent_end EventType.run_limit_reached = true
is_permanent_end _ = false

-- `terminal_types`.
abbrev pub is_stream_end : EventType → Bool
is_stream_end EventType.run_waiting = true
is_stream_end EventType.run_completed = true
is_stream_end EventType.run_failed = true
is_stream_end EventType.run_cancelled = true
is_stream_end EventType.run_interrupted = true
is_stream_end EventType.run_limit_reached = true
is_stream_end _ = false

-- A subscriber: what it yields next, what it has yielded, and whether it has returned.
pub record Subscriber : Type 0 where
  pub next_sequence : ℕ
  pub yielded : List RuntimeEvent
  pub returned : Bool

-- The loop over a batch.
unfoldable pub yield_batch : List RuntimeEvent → Subscriber → Subscriber
yield_batch [] s = s
yield_batch (e ∷ batch) s =
    let here : Subscriber = record {
      next_sequence = e.sequence + 1;
      yielded = s.yielded ++ e ∷ [];
      returned = is_stream_end e.type;
    } in
    let rest = yield_batch batch here in if is_stream_end e.type then here else rest

-- One pass of the outer loop on the log that it finds: it waits, returns, or yields a batch, which is not
-- empty since the log has got to `next_sequence`.
unfoldable pub poll : List RuntimeEvent → Subscriber → Subscriber
unfolding yield_batch
poll log s =
    if s.returned
    then s
    else (if ltb (length log) s.next_sequence
        then (if any_of (λ e. is_permanent_end e.type) log then record s { returned = true } else s)
        else yield_batch (drop (s.next_sequence - 1) log) s)

abbrev pub subscriber : (after : ℕ) → Subscriber
subscriber after = record { next_sequence = after + 1; yielded = []; returned = false }

-- `subscribe(run_id, after_sequence=...)` before its first pass.
abbrev pub subscribe : (after_sequence : ℤ) → Result Subscriber
subscribe (ℤ.pos after) = ok (subscriber after)
subscribe (ℤ.negsuc n) = err Error.value_error
