-- ===== src/Policy/Profiles.antt =====
-- internal/adapters/policy/static_policy.go: the rules of the rollout, saturation and notification
-- tools, which go by the session's tool profile and environment.
use underpass_runtime.Base.{
  ℕ, Bool, true, false, not, ◌&&◌, ◌||◌, Option, none, some, List, [], ◌∷◌, is_empty, ltb,
  if◌then◌else◌,
}
use underpass_runtime.Text.{Text, codes, text_eq, trim_space, to_lower, member}
use underpass_runtime.Json.{
  ℤ, pos, negsuc, Json, Members, null, num, str, obj, end, field_of, atoi, outside,
}
use underpass_runtime.Domain.{Session, Metadata, meta_get, plain, environments_differ}
use underpass_runtime.Policy.Decision.{
  Host, PolicyInput, PolicyDecision, permit, deny, deny_if, no_args, policy_denied,
  environment_mismatch, ◌<|>◌,
}

abbrev pub rollout_tools : List Text
rollout_tools =
    codes "k8s.get_replicasets" ∷ codes "k8s.rollout_pause" ∷ codes "k8s.rollout_undo" ∷ []

abbrev pub rollout_write_tools : List Text
rollout_write_tools = codes "k8s.rollout_pause" ∷ codes "k8s.rollout_undo" ∷ []

unfoldable pub requires_runtime_rollout_profile : Text → Bool
requires_runtime_rollout_profile name = member name rollout_tools

unfoldable pub is_runtime_rollout_write_capability : Text → Bool
is_runtime_rollout_write_capability name = member name rollout_write_tools

-- strings.ToLower(strings.TrimSpace(value))
unfoldable pub normal : Text → Text
normal value = to_lower (trim_space value)

unfoldable pub is_unknown : Text → Bool
is_unknown value = is_empty value || text_eq value (codes "unknown")

-- empty: the environment is not known
unfoldable pub runtime_rollout_environment : Host → Metadata → Text
runtime_rollout_environment host metadata =
    let declared = normal (meta_get metadata (codes "runtime_environment")) in
    let configured = normal (host.getenv (codes "WORKSPACE_ENV")) in
    if not (is_unknown declared) then declared else if is_unknown configured then [] else configured

unfoldable pub session_environment : Metadata → Text
session_environment metadata = normal (meta_get metadata (codes "environment"))

unfoldable pub has_profile : Session → Text → Bool
has_profile session profile =
    text_eq (trim_space (meta_get session.metadata (codes "tool_profile"))) profile

-- the environments are known and differ
unfoldable pub environments_clash : Host → Metadata → Bool
environments_clash host metadata =
    let runtime_env = runtime_rollout_environment host metadata in
    not (is_empty runtime_env) && not (text_eq (session_environment metadata) runtime_env)

unfoldable pub authorize_runtime_rollout_capability : Host → PolicyInput → Option PolicyDecision
authorize_runtime_rollout_capability host input =
    let name = trim_space input.capability.name in
    let metadata = input.session.metadata in
    if not (requires_runtime_rollout_profile name)
    then none
    else if not (has_profile input.session (codes "runtime-rollout-narrow"))
    then some (
        deny policy_denied
          (plain "tool requires session metadata tool_profile=runtime-rollout-narrow"))
    else if not (is_runtime_rollout_write_capability name)
    then none
    else if environments_clash host metadata
    then some (
        deny environment_mismatch (
          environments_differ (session_environment metadata)
            (runtime_rollout_environment host metadata)))
    else none

unfoldable pub authorize_environment_match : Host → Metadata → Option PolicyDecision
authorize_environment_match host metadata =
    deny_if (environments_clash host metadata) environment_mismatch "environment_mismatch"

-- on what `json.Unmarshal` puts into a map: numbers are float64
unfoldable pub json_number_as_int : Option Json → Option ℤ
json_number_as_int (some (num n whole)) = some n
json_number_as_int (some (str s)) = atoi (trim_space s)
json_number_as_int _ = none

-- the decoded argument object; none is an error
unfoldable pub members_of : Option Json → Option Members
members_of (some null) = some end
members_of (some (obj ms)) = some ms
members_of _ = none

unfoldable pub payload_members : Host → Text → Option Members
payload_members host raw = if no_args raw then some end else members_of (host.unmarshal raw)

-- `n, ok := jsonNumberAsInt(payload[key]); ok && (n < -lo || n > hi)`
unfoldable pub number_outside : ℕ → ℕ → Option ℤ → Bool
number_outside lo hi none = false
number_outside lo hi (some n) = outside lo hi n

-- `ttl, ok := jsonNumberAsInt(payload[key]); ok && (ttl < lo || ttl > hi)`
unfoldable pub positive_outside : ℕ → ℕ → Option ℤ → Bool
positive_outside lo hi (some (pos n)) = ltb n lo || ltb hi n
positive_outside lo hi (some (negsuc n)) = true
positive_outside lo hi none = false

unfoldable pub check_saturation_bounds : Text → Members → PolicyDecision
check_saturation_bounds name ms =
    if text_eq name (codes "k8s.scale_deployment")
    then deny_if (number_outside 0 200 (json_number_as_int (field_of ms (codes "replicas"))))
        policy_denied "replicas_out_of_bounds"
      <|> deny_if (number_outside 50 50 (json_number_as_int (field_of ms (codes "replicas_delta"))))
          policy_denied "replicas_delta_out_of_bounds"
      <|> permit
    else if text_eq name (codes "k8s.circuit_break")
    then deny_if (positive_outside 60 1800 (json_number_as_int (field_of ms (codes "ttl_seconds"))))
        policy_denied "ttl_out_of_bounds"
      <|> permit
    else permit

unfoldable pub check_saturation_payload : Text → Option Members → PolicyDecision
check_saturation_payload name none = deny policy_denied (plain "invalid args payload")
check_saturation_payload name (some ms) = check_saturation_bounds name ms

unfoldable pub authorize_saturation_capability : Host → PolicyInput → PolicyDecision
authorize_saturation_capability host input =
    deny_if (not (has_profile input.session (codes "saturation-operator-bounded"))) policy_denied
      "tool_profile_mismatch"
    <|> authorize_environment_match host input.session.metadata
    <|> check_saturation_payload (trim_space input.capability.name)
        (payload_members host input.args)

unfoldable pub authorize_notify_capability : Host → PolicyInput → PolicyDecision
authorize_notify_capability host input =
    deny_if (not (has_profile input.session (codes "human-escalation-minimal"))) policy_denied
      "tool_profile_mismatch"
    <|> authorize_environment_match host input.session.metadata
    <|> permit

abbrev pub saturation_tools : List Text
saturation_tools =
    codes "k8s.scale_deployment" ∷ codes "k8s.restart_pods" ∷ codes "k8s.circuit_break" ∷ []

-- the switch of authorizeSpecialistCapability
unfoldable pub is_saturation_tool : Text → Bool
is_saturation_tool name = member name saturation_tools

unfoldable pub is_notify_tool : Text → Bool
is_notify_tool name = text_eq name (codes "notify.escalation_channel")

unfoldable pub authorize_specialist_capability : Host → PolicyInput → Option PolicyDecision
authorize_specialist_capability host input =
    let name = trim_space input.capability.name in
    if is_saturation_tool name
    then some (authorize_saturation_capability host input)
    else if is_notify_tool name
    then some (authorize_notify_capability host input)
    else none
