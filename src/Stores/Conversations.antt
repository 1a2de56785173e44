-- ===== src/Stores/Conversations.antt =====
-- InMemoryConversationStore of stores/in_memory.py, over models/conversation.py. The lock makes each
-- method one step; the copies that the code makes of immutable models are the values themselves.
use base_agent.Base.{
  ℕ, ◌+◌, String, ◌||◌, Option, none, some, List, [], ◌∷◌, ◌++◌, find, is_some, ◌==◌, nat_eq,
  string_eq, option_eq, Result, Error, ok, ◌>>=◌, ◌>>◌, guard, fail_if, or_fail, if◌then◌else◌,
}
use base_agent.Base.Text.{is_blank}
use base_agent.Base.Dict.{Dict, lookup, insert}
use base_agent.Models.Json.{Fields}
use base_agent.Models.Status.{RunStatus, is_created, is_running, is_waiting, is_completed}
use base_agent.Models.Message.{Message, user_message_of, assistant_message_of}

pub record Conversation : Type 0 where
  pub id : ℕ
  pub profile_id : String
  pub version : ℕ
  pub active_run_id : Option ℕ
  pub created_at : ℕ
  pub updated_at : ℕ
  pub metadata : Fields

pub record ConversationTurn : Type 0 where
  pub conversation_id : ℕ
  pub sequence : ℕ
  pub run_id : ℕ
  pub status : RunStatus
  pub user_message : String
  pub assistant_message : Option String
  pub created_at : ℕ
  pub updated_at : ℕ

pub record ConversationStore : Type 0 where
  pub conversations : Dict ℕ Conversation
  pub turns : Dict ℕ (List ConversationTurn)

abbrev pub or_empty {ℓ} : {A : Type ℓ} → Option (List A) → List A
or_empty none = []
or_empty (some xs) = xs

-- `self._turns[conversation_id]`. The empty list that a `defaultdict` stores at a missing key is the one
-- that every later read finds.
abbrev pub turns_of : ConversationStore → ℕ → List ConversationTurn
turns_of store id = or_empty (lookup id store.turns)

unfoldable pub create_conversation : ConversationStore → Conversation → Result ConversationStore
create_conversation store c = do
  fail_if (is_some (lookup c.id store.conversations)) Error.conversation_already_exists
  ok (record store { conversations = insert c.id c store.conversations })

-- `_get_locked`, and `get_conversation`.
unfoldable pub get_conversation : ConversationStore → ℕ → Result Conversation
get_conversation store id = or_fail (lookup id store.conversations) Error.conversation_not_found

-- `assistant_message or ""`.
abbrev pub or_empty_text : Option String → String
or_empty_text none = ""
or_empty_text (some message) = message

-- `_messages_locked`.
unfoldable pub messages_of : List ConversationTurn → List Message
messages_of [] = []
messages_of (t ∷ ts) =
    let rest = messages_of ts in
    if is_completed t.status
    then user_message_of t.user_message
      ∷ assistant_message_of (or_empty_text t.assistant_message)
      ∷ rest
    else rest

-- The turn that `begin_turn` appends, at the times that its constructor reads.
abbrev pub new_turn : Conversation → ℕ → ℕ → String → (created updated : ℕ) → ConversationTurn
new_turn c id run_id user_message created updated = record {
  conversation_id = id;
  sequence = c.version + 1;
  run_id = run_id;
  status = RunStatus.running;
  user_message = user_message;
  assistant_message = none;
  created_at = created;
  updated_at = updated;
}

unfoldable pub begin_turn :
    ConversationStore
    → (id run_id : ℕ) → (profile_id user_message : String) → (created updated now : ℕ)
    → Result (ConversationStore × ConversationTurn × List Message)
unfolding get_conversation
begin_turn store id run_id profile_id user_message created updated now = do
  fail_if (is_blank user_message) Error.value_error
  c ← get_conversation store id
  guard (c.profile_id == profile_id) Error.conversation_profile_mismatch
  fail_if (is_some c.active_run_id) Error.conversation_busy
  let history = messages_of (turns_of store id)
  let turn = new_turn c id run_id user_message created updated
  ok (
    record {
      conversations =
          insert id
            (record c { version = turn.sequence; active_run_id = some run_id; updated_at = now })
            store.conversations;
      turns = insert id (turns_of store id ++ turn ∷ []) store.turns;
    },
    turn,
    history,
  )

-- The message that `finish_turn` stores.
abbrev pub normalized_message : RunStatus → Option String → Option String
normalized_message status none = if is_completed status then some "" else none
normalized_message status (some message) = some message

abbrev pub finished_turn : RunStatus → Option String → ℕ → ConversationTurn → ConversationTurn
finished_turn status message now t = record t {
  status = status;
  assistant_message = normalized_message status message;
  updated_at = now;
}

-- `turns[index] = update(turns[index])` at the first turn of the Run.
unfoldable pub update_first :
    ℕ → (ConversationTurn → ConversationTurn) → List ConversationTurn → List ConversationTurn
update_first run_id update [] = []
update_first run_id update (t ∷ ts) =
    if t.run_id == run_id then update t ∷ ts else t ∷ update_first run_id update ts

-- The conversation after `finish_turn`.
abbrev pub released : RunStatus → ℕ → Conversation → Conversation
released status now c =
    if is_waiting status then c else record c { active_run_id = none; updated_at = now }

unfoldable pub finish_turn :
    ConversationStore
    → (id run_id : ℕ) → RunStatus
    → Option String
    → (now closed : ℕ) → Result (ConversationStore × ConversationTurn)
unfolding get_conversation
finish_turn store id run_id status message now closed = do
  fail_if (is_created status || is_running status) Error.value_error
  c ← get_conversation store id
  turn ←
      or_fail (find (λ t. t.run_id == run_id) (turns_of store id)) Error.conversation_turn_not_found
  guard (c.active_run_id == some run_id) Error.conversation_busy
  ok (
    record {
      conversations = insert id (released status closed c) store.conversations;
      turns =
          insert id (update_first run_id (finished_turn status message now) (turns_of store id))
            store.turns;
    },
    finished_turn status message now turn,
  )

unfoldable pub list_turns : ConversationStore → ℕ → Result (List ConversationTurn)
unfolding get_conversation
list_turns store id = do c ← get_conversation store id; ok (turns_of store id)

unfoldable pub messages : ConversationStore → ℕ → Result (List Message)
unfolding get_conversation
messages store id = do c ← get_conversation store id; ok (messages_of (turns_of store id))
