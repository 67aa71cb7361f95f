-- ===== src/Domain/Capabilities.antt =====
-- internal/domain/capability.go
use underpass_runtime.Base.{ℕ, String, Bool, List}
use underpass_runtime.Text.{Text}

pub data Scope : Type 0 where
  repo workspace cluster external : Scope
  other_scope : String → Scope

pub data RiskLevel : Type 0 where
  low medium high : RiskLevel
  other_risk : String → RiskLevel

pub record PathField : Type 0 where
  pub field : Text
  pub multi : Bool
  pub workspace_relative : Bool

pub record ArgField : Type 0 where
  pub field : Text
  pub multi : Bool
  pub max_items : ℕ
  pub max_length : ℕ
  pub allowed_values : List Text
  pub allowed_prefix : List Text
  pub denied_prefix : List Text
  pub deny_characters : List Text

-- PolicyProfileField, PolicySubjectField, PolicyTopicField, PolicyQueueField and
-- PolicyKeyPrefixField have the same two fields
pub record NameField : Type 0 where
  pub field : Text
  pub multi : Bool

pub record PolicyMetadata : Type 0 where
  pub path_fields : List PathField
  pub arg_fields : List ArgField
  pub profile_fields : List NameField
  pub subject_fields : List NameField
  pub topic_fields : List NameField
  pub queue_fields : List NameField
  pub key_prefix_fields : List NameField
  pub namespace_fields : List Text
  pub registry_fields : List Text

-- Constraints: a timeout or limit of 0 is none
pub record Constraints : Type 0 where
  pub timeout_seconds : ℕ
  pub max_retries : ℕ
  pub allowed_paths : List Text
  pub output_limit_kb : ℕ

-- The fields that describe a capability to its users (description, input schema, examples and the
-- like) are read by no operation that is modelled.
pub record Capability : Type 0 where
  pub name : Text
  pub output_schema : Text
  pub scope : Scope
  pub risk_level : RiskLevel
  pub requires_approval : Bool
  pub constraints : Constraints
  pub policy : PolicyMetadata
  pub trace_name : Text
  pub span_name : Text
