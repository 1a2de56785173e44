-- ===== src/Models/Run.antt =====
-- models/run.py and models/skill.py: the snapshot of one agent execution.
use base_agent.Base.{
  ℕ, String, Bool, Option, List, is_some, if◌then◌else◌, not, Result, Error, guard,
}
use base_agent.Models.Json.{Fields}
use base_agent.Models.Artifact.{Artifact, Attachment}
use base_agent.Models.Status.{RunStatus}
use base_agent.Models.Usage.{TokenUsage}

pub record SkillReference : Type 0 where
  pub name : String
  pub version : String

pub record Run : Type 0 where
  pub id : ℕ
  pub profile_id : String
  pub conversation_id : Option ℕ
  pub turn_sequence : Option ℕ
  pub status : RunStatus
  pub step_count : ℕ
  pub tool_call_count : ℕ
  pub usage : TokenUsage
  pub skills : List SkillReference
  pub output : Option String
  pub error : Option String
  pub cancel_requested : Bool
  pub created_at : ℕ
  pub updated_at : ℕ
  pub metadata : Fields
  pub attachments : List Attachment
  pub artifacts : List Artifact

-- `validate_conversation_link`.
unfoldable pub validate_conversation_link : Run → Result (Unit {0})
validate_conversation_link r =
    guard
      (if is_some r.conversation_id then is_some r.turn_sequence else not (is_some r.turn_sequence))
      Error.value_error
