-- ===== src/Domain/Sessions.antt =====
-- internal/domain/session.go
use underpass_runtime.Base.{ℕ, String, List, [], ◌∷◌, if◌then◌else◌}
use underpass_runtime.Text.{Text, text_eq}

pub record Principal : Type 0 where
  pub tenant_id : Text
  pub actor_id : Text
  pub roles : List Text

pub data RuntimeKind : Type 0 where
  unset local kubernetes docker : RuntimeKind
  other_kind : String → RuntimeKind

pub record RuntimeRef : Type 0 where
  pub kind : RuntimeKind
  pub namespace : Text
  pub pod_name : Text
  pub container : Text
  pub container_id : Text
  pub workdir : Text

-- map[string]string
abbrev pub Metadata : Type 0
Metadata = List (Text × Text)

-- m[key]: the empty string where the key is missing
unfoldable pub meta_get : Metadata → Text → Text
meta_get [] key = []
meta_get ((k, v) ∷ m) key = if text_eq k key then v else meta_get m key

pub record Session : Type 0 where
  pub id : Text
  pub workspace_path : Text
  pub runtime : RuntimeRef
  pub repo_url : Text
  pub repo_ref : Text
  pub allowed_paths : List Text
  pub principal : Principal
  pub metadata : Metadata
  pub created_at : ℕ
  pub expires_at : ℕ
