-- ===== src/Domain/Invocations.antt =====
-- internal/domain/invocation.go
use underpass_runtime.Base.{ℕ, String, Bool, Option, List}
use underpass_runtime.Text.{Text}
use underpass_runtime.Json.{ℤ, Json}
use underpass_runtime.Domain.Messages.{Message}

pub data Status : Type 0 where
  running succeeded failed denied : Status

pub record Error : Type 0 where
  pub code : String
  pub message : Message
  pub retryable : Bool

pub record LogLine : Type 0 where
  pub at : ℕ
  pub channel : Text
  pub message : Text

pub record Artifact : Type 0 where
  pub id : Text
  pub name : Text
  pub path : Text
  pub content_type : Text
  pub size_bytes : ℕ
  pub sha256 : Text
  pub created_at : ℕ

-- `output` is `none` where the field is nil; the duration is that of `completed_at - started_at`,
-- in whole milliseconds
pub record Invocation : Type 0 where
  pub id : Text
  pub session_id : Text
  pub tool_name : Text
  pub correlation_id : Text
  pub status : Status
  pub started_at : ℕ
  pub completed_at : Option ℕ
  pub duration_ms : ℕ
  pub trace_name : Text
  pub span_name : Text
  pub exit_code : ℤ
  pub output : Option Json
  pub output_ref : Text
  pub logs : List LogLine
  pub logs_ref : Text
  pub artifacts : List Artifact
  pub error : Option Error
