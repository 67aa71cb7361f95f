-- ===== src/Policy/Authorize.antt =====
-- internal/adapters/policy/static_policy.go: StaticPolicy.Authorize, its checks in order. It never
-- returns an error, so the decision is the result.
use underpass_runtime.Base.{Bool, true, false, not, ◌&&◌}
use underpass_runtime.Text.{codes}
use underpass_runtime.Domain.{RiskLevel, high}
use underpass_runtime.Policy.Decision.{
  Host, PolicyInput, PolicyDecision, permit, deny_if, deny_by, policy_denied, approval_required,
  ◌<|>◌,
}
use underpass_runtime.Policy.Roles.{has_role, scope_allowed}
use underpass_runtime.Policy.Arguments.{args_within_allowed_paths, args_allowed_by_policy}
use underpass_runtime.Policy.Allowlists.{
  args_allowed_by_profile_policy, args_allowed_by_subject_policy, args_allowed_by_topic_policy,
  args_allowed_by_queue_policy, args_allowed_by_key_prefix_policy, args_allowed_by_namespace_policy,
  args_allowed_by_registry_policy,
}
use underpass_runtime.Policy.Profiles.{
  authorize_runtime_rollout_capability, authorize_specialist_capability,
}

unfoldable pub is_high : RiskLevel → Bool
is_high high = true
is_high _ = false

-- the checks of the arguments, in order
unfoldable pub authorize_arguments : Host → PolicyInput → PolicyDecision
authorize_arguments host input =
    let raw = input.args in
    let session = input.session in
    let policy = input.capability.policy in
    deny_by (args_within_allowed_paths host raw session.allowed_paths policy.path_fields)
    <|> deny_by (args_allowed_by_policy host raw policy.arg_fields)
    <|> deny_by (args_allowed_by_profile_policy host raw session.metadata policy.profile_fields)
    <|> deny_by (args_allowed_by_subject_policy host raw session.metadata policy.subject_fields)
    <|> deny_by (args_allowed_by_topic_policy host raw session.metadata policy.topic_fields)
    <|> deny_by (args_allowed_by_queue_policy host raw session.metadata policy.queue_fields)
    <|> deny_by
        (args_allowed_by_key_prefix_policy host raw session.metadata policy.key_prefix_fields)
    <|> deny_by (args_allowed_by_namespace_policy host raw session.metadata policy.namespace_fields)
    <|> deny_by (args_allowed_by_registry_policy host raw session.metadata policy.registry_fields)
    <|> permit

unfoldable pub authorize : Host → PolicyInput → PolicyDecision
authorize host input =
    let roles = input.session.principal.roles in
    let capability = input.capability in
    deny_if (not (scope_allowed roles capability.scope)) policy_denied
      "principal roles cannot access tool scope"
    <|> deny_if (is_high capability.risk_level && not (has_role roles (codes "platform_admin")))
        policy_denied "high risk capability requires platform_admin role"
    <|> deny_if (capability.requires_approval && not input.approved) approval_required
        "tool requires explicit approval"
    <|> authorize_runtime_rollout_capability host input
    <|> authorize_specialist_capability host input
    <|> authorize_arguments host input
