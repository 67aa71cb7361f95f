-- ===== src/Grpc/Auth.antt =====
-- internal/grpcapi/auth.go
use underpass_runtime.Base.{
  Bool, not, ◌||◌, Option, none, some, List, [], ◌∷◌, is_empty, if◌then◌else◌,
}
use underpass_runtime.Text.{Text, codes, text_eq, trim_space, to_lower, split, member}
use underpass_runtime.Domain.{Principal, Message, plain, text, wrapped}
use underpass_runtime.Service.Ports.{Answer, answered, failed_with}

pub record AuthConfig : Type 0 where
  pub mode : Text
  pub tenant_key : Text
  pub actor_key : Text
  pub roles_key : Text
  pub token_key : Text
  pub shared_token : Text

abbrev pub auth_mode_payload : Text
auth_mode_payload = codes "payload"

abbrev pub auth_mode_trusted_headers : Text
auth_mode_trusted_headers = codes "trusted_headers"

abbrev pub default_auth_config : AuthConfig
default_auth_config = record {
  mode = auth_mode_payload;
  tenant_key = codes "x-workspace-tenant-id";
  actor_key = codes "x-workspace-actor-id";
  roles_key = codes "x-workspace-roles";
  token_key = codes "x-workspace-auth-token";
  shared_token = [];
}

-- a value from the environment, where there is one that is not blank
unfoldable pub or_default : Text → Text → Text
or_default value default = if is_empty value then default else value

unfoldable pub header_name : Text → Text → Text
header_name raw default = or_default (to_lower (trim_space raw)) default

unfoldable pub read_auth_config : (Text → Text) → AuthConfig
read_auth_config getenv = record {
  mode =
      or_default (to_lower (trim_space (getenv (codes "WORKSPACE_AUTH_MODE"))))
        default_auth_config.mode;
  tenant_key =
      header_name (getenv (codes "WORKSPACE_AUTH_TENANT_HEADER")) default_auth_config.tenant_key;
  actor_key =
      header_name (getenv (codes "WORKSPACE_AUTH_ACTOR_HEADER")) default_auth_config.actor_key;
  roles_key =
      header_name (getenv (codes "WORKSPACE_AUTH_ROLES_HEADER")) default_auth_config.roles_key;
  token_key =
      header_name (getenv (codes "WORKSPACE_AUTH_TOKEN_HEADER")) default_auth_config.token_key;
  shared_token = trim_space (getenv (codes "WORKSPACE_AUTH_SHARED_TOKEN"));
}

unfoldable pub check_headers : AuthConfig → Answer AuthConfig
check_headers cfg =
    if is_empty cfg.tenant_key || is_empty cfg.actor_key || is_empty cfg.token_key
    then failed_with (plain "trusted_headers mode requires tenant/actor/token header names")
    else if is_empty cfg.shared_token
    then failed_with (plain "trusted_headers mode requires WORKSPACE_AUTH_SHARED_TOKEN")
    else answered cfg

unfoldable pub check_auth_config : AuthConfig → Answer AuthConfig
check_auth_config cfg =
    if text_eq cfg.mode auth_mode_payload
    then answered cfg
    else if text_eq cfg.mode auth_mode_trusted_headers
    then check_headers cfg
    else failed_with (wrapped "unsupported WORKSPACE_AUTH_MODE" (text cfg.mode))

unfoldable pub auth_config_from_env : (Text → Text) → Answer AuthConfig
auth_config_from_env getenv = check_auth_config (read_auth_config getenv)

-- EqualFold on ASCII
unfoldable pub auth_enabled : AuthConfig → Bool
auth_enabled cfg = text_eq (to_lower (trim_space cfg.mode)) auth_mode_trusted_headers

-- google.golang.org/grpc/codes, as far as it is used
pub data Code : Type 0 where
  internal invalid_argument not_found failed_precondition deadline_exceeded permission_denied
        unauthenticated :
      Code

pub record Status : Type 0 where
  pub code : Code
  pub message : Message

-- A handler's result: (response, nil) or (nil, error).
pub data Reply {ℓ} (A : Type ℓ) : Type ℓ where
  replied : A → Reply A
  rejected : Status → Reply A

-- What a handler reads of its context: the incoming metadata, by `md.Get`, and the principal.
pub record Context : Type 0 where
  pub metadata : Option (Text → List Text)
  pub principal : Option Principal

unfoldable pub first_of : List Text → Text
first_of [] = []
first_of (v ∷ vs) = trim_space v

unfoldable pub first_value : (Text → List Text) → Text → Text
first_value md key = first_of (md key)

-- the entries that are left, with the roles that were seen
unfoldable pub parse_entries : List Text → List Text → List Text
parse_entries seen [] = []
parse_entries seen (entry ∷ entries) =
    let role = trim_space entry in
    let skipped = parse_entries seen entries in
    let kept = role ∷ parse_entries (role ∷ seen) entries in
    if is_empty role || member role seen then skipped else kept

unfoldable pub parse_roles : Text → List Text
parse_roles raw = parse_entries [] (split b',' raw)

abbrev unauthenticated_status : Message → Reply Principal
unauthenticated_status message = rejected (record { code = unauthenticated; message = message })

unfoldable pub authenticate : AuthConfig → (Text → List Text) → Reply Principal
authenticate cfg md =
    if not (text_eq (first_value md cfg.token_key) cfg.shared_token)
    then unauthenticated_status (plain "invalid authentication token")
    else if is_empty (first_value md cfg.tenant_key) || is_empty (first_value md cfg.actor_key)
    then unauthenticated_status (plain "tenant_id and actor_id are required")
    else replied (record {
      tenant_id = first_value md cfg.tenant_key;
      actor_id = first_value md cfg.actor_key;
      roles = parse_roles (first_value md cfg.roles_key);
    })

unfoldable pub authenticate_from_metadata : Context → AuthConfig → Reply Principal
authenticate_from_metadata ctx cfg = elim ctx.metadata [
  | none ↦ unauthenticated_status (plain "missing metadata")
  | some md ↦ authenticate cfg md
]

unfoldable pub as_principal :
    {W A : Type 0} → Context → (Context → W → Reply A × W) → W → Reply Principal → Reply A × W
as_principal ctx handler w (rejected status) = (rejected status, w)
as_principal ctx handler w (replied principal) =
    handler (record ctx { principal = some principal }) w

-- `W` is what the handler changes.
unfoldable pub unary_auth_interceptor :
    {W A : Type 0} → AuthConfig → (Context → W → Reply A × W) → Context → W → Reply A × W
unary_auth_interceptor cfg handler ctx w =
    if not (auth_enabled cfg)
    then handler ctx w
    else as_principal ctx handler w (authenticate_from_metadata ctx cfg)
