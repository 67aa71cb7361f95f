-- ===== src/Service/Ports.antt =====
-- internal/app: what the service calls and keeps. The collaborators behind interfaces are a record
-- of functions, and what one invocation does to the outside is a list of effects.
use underpass_runtime.Base.{ℕ, String, Bool, Option, List}
use underpass_runtime.Text.{Text}
use underpass_runtime.TextMap.{TextMap}
use underpass_runtime.Json.{ℤ, Json}
use underpass_runtime.Domain.{
  Session, Principal, Capability, Metadata, Message, Invocation, Status, Error, LogLine, Artifact,
  RuntimeKind,
}
use underpass_runtime.Policy.Decision.{PolicyInput, PolicyDecision}
use underpass_runtime.Service.Quota.{Limiter, ToolRunResult, ArtifactPayload}
use underpass_runtime.Service.Schema.{OutputSchema}

-- A value, or an error with its text.
pub data Answer {ℓ} (A : Type ℓ) : Type ℓ where
  answered : A → Answer A
  failed_with : Message → Answer A

-- A lifetime of 0 stands for every one that is not positive.
pub record CreateSessionRequest : Type 0 where
  pub session_id : Text
  pub repo_url : Text
  pub repo_ref : Text
  pub source_repo_path : Text
  pub allowed_paths : List Text
  pub principal : Principal
  pub metadata : Metadata
  pub expires_in_second : ℕ

-- The interfaces of internal/app/types.go, and the parts of the standard library that encode. `S` is
-- the state of the invocation store; `find` is there if the store is a CorrelationFinder.
-- `learned` says whether the learned-policy reader is set and finds a policy for the context and
-- the tool; `timed_out` whether the deadline of the tool's context passed.
pub record Ports (S : Type 0) : Type 0 where
  pub getenv : Text → Text
  pub create_session : CreateSessionRequest → Answer Session
  pub get_session : Text → Answer (Option Session)
  pub close_session : Text → Option Message
  pub catalog : List Capability
  pub get_tool : Text → Option Capability
  pub authorize : PolicyInput → Answer PolicyDecision
  pub run_tool : Session → Capability → Text → ToolRunResult × Option Error
  pub save_artifacts : Text → List ArtifactPayload → Answer (List Artifact)
  pub list_artifacts : Text → Answer (List Artifact)
  pub read_artifact : Text → Answer Text
  pub save : S → Invocation → Answer S
  pub load : S → Text → Answer (Option Invocation)
  pub find : Option (S → Text → Text → Text → Answer (Option Invocation))
  pub marshal : Json → Option Text
  pub encode_logs : List LogLine → Option Text
  pub decode_output : Text → Option Json
  pub decode_log_line : Text → Option LogLine
  pub decode_schema : Text → Option OutputSchema
  pub learned : Session → Text → Bool
  pub kpi_enabled : Bool
  pub timed_out : Bool

-- One call of InvokeTool: its arguments, the id that newID gives, and the clock at its two readings.
pub record Call : Type 0 where
  pub session_id : Text
  pub tool_name : Text
  pub correlation_id : Text
  pub args : Text
  pub approved : Bool
  pub invocation_id : Text
  pub started_at : ℕ
  pub ended_at : ℕ

-- AuditEvent, less the time of the record
pub record AuditEvent : Type 0 where
  pub session_id : Text
  pub tool_name : Text
  pub invocation_id : Text
  pub correlation_id : Text
  pub status : Status
  pub actor_id : Text
  pub tenant_id : Text
  pub metadata : Metadata

pub data Payload : Type 0 where
  session_created : RuntimeKind → Text → Text → ℕ → Text → Payload
  session_closed : RuntimeKind → ℕ → Payload
  invocation_started : Text → Text → Text → Payload
  invocation_denied : Text → Text → Text → Message → Payload
  invocation_completed : Text → Text → Text → Status → ℤ → ℕ → ℕ → ℕ → Payload

pub record DomainEvent : Type 0 where
  pub session_id : Text
  pub tenant_id : Text
  pub actor_id : Text
  pub payload : Payload

-- TelemetryRecord, less its time and what the digest of the workspace's files gives it
pub record TelemetryRecord : Type 0 where
  pub invocation_id : Text
  pub session_id : Text
  pub tool_name : Text
  pub tool_family : Text
  pub runtime_kind : RuntimeKind
  pub tenant_id : Text
  pub approved : Bool
  pub status : Status
  pub error_code : String
  pub duration_ms : ℕ
  pub output_bytes : ℕ
  pub logs_bytes : ℕ
  pub artifact_count : ℕ
  pub artifact_bytes : ℕ

-- What an invocation does to its collaborators; `ran` is the run of the tool itself.
pub data Effect : Type 0 where
  stored : Invocation → Effect
  audited : AuditEvent → Effect
  published : DomainEvent → Effect
  recorded : TelemetryRecord → Effect
  learned_from : Text → Bool → Effect
  ran : Text → Text → Effect
  kpi_denied : Message → Bool → Effect
  kpi_tool_call : Text → Bool → Effect
  kpi_first_result : Bool → Effect
  measured : Invocation → Effect
  kpi_session_created : Effect
  kpi_session_closed : Effect
  prewarmed : Text → Effect
  evicted : Text → Effect

-- The service's own state; the newest effect stands first.
pub record World (S : Type 0) : Type 0 where
  pub quotas : Limiter
  pub store : S
  pub session_inv_count : TextMap ℕ
  pub session_last_rec : TextMap (List Text)
  pub effects : List Effect
