-- ===== src/Models/Message.antt =====
-- models/message.py: one message of a conversation.
use base_agent.Base.{
  String, Bool, true, not, ◌≡◌, refl, ◌||◌, Option, none, some, List, [], is_some, is_nil, Result,
  Error, ok, ◌>>◌, fail_if, guard,
}
use base_agent.Base.Text.{is_empty_text}
use base_agent.Models.Json.{Fields}

pub data MessageRole : Type 0 where
  system user assistant tool : MessageRole

pub record ToolCall : Type 0 where
  pub id : String
  pub name : String
  pub arguments : Fields

pub record Message : Type 0 where
  pub role : MessageRole
  pub content : Option String
  pub tool_calls : List ToolCall
  pub tool_call_id : Option String

abbrev lacks_id : Option String → Bool
lacks_id none = true
lacks_id (some id) = is_empty_text id

-- `validate_role_fields` of a message with another role than ASSISTANT.
abbrev validate_plain : Message → Result (Unit {0}) → Result (Unit {0})
validate_plain m last = do
  guard (is_nil m.tool_calls) Error.value_error
  fail_if (not (is_some m.content)) Error.value_error
  last

abbrev validate_by_role : MessageRole → Message → Result (Unit {0})
validate_by_role MessageRole.assistant m = do
  fail_if (not (is_some m.content || not (is_nil m.tool_calls))) Error.value_error
  fail_if (is_some m.tool_call_id) Error.value_error
validate_by_role MessageRole.tool m =
    validate_plain m (fail_if (lacks_id m.tool_call_id) Error.value_error)
validate_by_role _ m = validate_plain m (fail_if (is_some m.tool_call_id) Error.value_error)

unfoldable pub validate_role_fields : Message → Result (Unit {0})
validate_role_fields m = validate_by_role m.role m

-- `Message.user`, which the validator accepts.
abbrev pub user_message_of : String → Message
user_message_of content = record {
  role = MessageRole.user;
  content = some content;
  tool_calls = [];
  tool_call_id = none;
}

-- `Message.assistant` of a text, which the validator accepts.
abbrev pub assistant_message_of : String → Message
assistant_message_of content = record {
  role = MessageRole.assistant;
  content = some content;
  tool_calls = [];
  tool_call_id = none;
}

pub validate_role_fields-user_message_of :
    (content : String) → validate_role_fields (user_message_of content) ≡ ok tt
unfolding validate_role_fields
validate_role_fields-user_message_of content = refl

pub validate_role_fields-assistant_message_of :
    (content : String) → validate_role_fields (assistant_message_of content) ≡ ok tt
unfolding validate_role_fields
validate_role_fields-assistant_message_of content = refl
