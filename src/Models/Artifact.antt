-- ===== src/Models/Artifact.antt =====
-- models/artifact.py and models/input.py: references to stored content, and a pending question.
use base_agent.Base.{ℕ, String}
use base_agent.Models.Json.{Fields}

pub record Attachment : Type 0 where
  pub id : ℕ
  pub name : String
  pub media_type : String
  pub size_bytes : ℕ
  pub checksum_sha256 : String
  pub created_at : ℕ
  pub metadata : Fields

pub record Artifact : Type 0 where
  pub id : ℕ
  pub run_id : ℕ
  pub name : String
  pub media_type : String
  pub size_bytes : ℕ
  pub checksum_sha256 : String
  pub created_at : ℕ
  pub metadata : Fields

pub record PendingInput : Type 0 where
  pub tool_call_id : String
  pub tool_name : String
  pub prompt : String
  pub metadata : Fields
