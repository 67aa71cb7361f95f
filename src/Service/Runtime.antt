-- ===== src/Service/Runtime.antt =====
-- internal/app/service.go: which tools a session's runtime supports.
use underpass_runtime.Base.{Bool, true, false, not, ◌&&◌, List, [], ◌∷◌, if◌then◌else◌}
use underpass_runtime.Text.{Text, codes, trim_space, to_lower, member}
use underpass_runtime.Domain.{
  Session, Capability, Scope, cluster, RuntimeKind, unset, local, kubernetes, Message, plain,
  needs_kubernetes,
}

abbrev pub k8s_delivery_tools : List Text
k8s_delivery_tools =
    codes "k8s.apply_manifest"
    ∷ codes "k8s.rollout_status"
    ∷ codes "k8s.restart_deployment"
    ∷ codes "k8s.rollout_pause"
    ∷ codes "k8s.rollout_undo"
    ∷ codes "k8s.scale_deployment"
    ∷ codes "k8s.restart_pods"
    ∷ codes "k8s.circuit_break"
    ∷ []

unfoldable pub is_k8s_delivery_capability : Text → Bool
is_k8s_delivery_capability name = member (trim_space name) k8s_delivery_tools

abbrev pub yes_words : List Text
yes_words = codes "1" ∷ codes "true" ∷ codes "yes" ∷ codes "on" ∷ []

abbrev pub no_words : List Text
no_words = codes "0" ∷ codes "false" ∷ codes "no" ∷ codes "off" ∷ []

-- envBool, given what os.Getenv returns
unfoldable pub env_bool : Text → Bool → Bool
env_bool raw fallback =
    let value = to_lower (trim_space raw) in
    if member value yes_words then true else if member value no_words then false else fallback

abbrev pub delivery_variable : Text
delivery_variable = codes "WORKSPACE_ENABLE_K8S_DELIVERY_TOOLS"

unfoldable pub delivery_enabled : (Text → Text) → Bool
delivery_enabled getenv = env_bool (getenv delivery_variable) false

unfoldable pub is_cluster : Scope → Bool
is_cluster cluster = true
is_cluster _ = false

unfoldable pub is_kubernetes : RuntimeKind → Bool
is_kubernetes kubernetes = true
is_kubernetes _ = false

unfoldable pub capability_supported_by_runtime : (Text → Text) → Session → Capability → Bool
capability_supported_by_runtime getenv session capability =
    if not (is_cluster capability.scope)
    then true
    else if not (is_kubernetes session.runtime.kind)
    then false
    else if is_k8s_delivery_capability capability.name
    then delivery_enabled getenv
    else true

unfoldable pub is_local : RuntimeKind → Bool
is_local unset = true
is_local local = true
is_local _ = false

unfoldable pub unsupported_runtime_reason : (Text → Text) → Session → Capability → Message
unsupported_runtime_reason getenv session capability =
    if is_cluster capability.scope
    then if is_local session.runtime.kind
      then plain "tool requires kubernetes runtime"
      else if is_k8s_delivery_capability capability.name && not (delivery_enabled getenv)
      then plain "k8s delivery tools are disabled by configuration"
      else needs_kubernetes session.runtime.kind
    else plain "tool is not supported by current runtime"
