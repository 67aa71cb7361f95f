-- ===== src/Examples/Policy.antt =====
-- The policy engine on concrete requests.
use underpass_runtime.Base.{any, ◌≡◌, refl, ◌⊎◌, true, false, ◌||◌, [], ◌∷◌, All, ◌↔◌, ◌≢◌}
use underpass_runtime.Text.{
  text_eq, is_space, trim_left, snoc_space, trim_right, trim_space, lower, to_lower, member,
  has_prefix, has_suffix, trim_suffix, contains, push_char, split, join, codes,
}
use underpass_runtime.Text.FilePath.{
  parent_of, clean_step, clean_stack, is_rooted, segments, render, clean,
}
use underpass_runtime.Json.{field_of, lookup_field}
use underpass_runtime.Domain.{meta_get, high}
use underpass_runtime.Policy.Decision.{◌<|>◌, deny_if, deny_by, each, no_args, with_payload}
use underpass_runtime.Policy.Roles.{
  canonical, has_canonical_role, has_role, has_any_role, scope_allowed,
}
use underpass_runtime.Policy.Fields.{
  strings_of, array_values, single_value, string_or_array, values_at, extract_field_values,
  check_value, check_values, check_field_values_allowed,
}
use underpass_runtime.Policy.Patterns.{
  collect, parse_allowlist, parse_allowed_profiles, parse_allowed_nats_subjects, nats_tokens_match,
  nats_subject_match, nats_subject_allowed, pattern_allowlist_match, prefix_allowlist_match,
}
use underpass_runtime.Policy.Arguments.{
  has_denied_char, has_some_prefix, exceeds, value_listed, arg_value_allowed, check_arg_value,
  check_arg_values, check_arg_field, path_under, is_path_within_allowlist, check_path, check_paths,
  check_path_field_values, or_workspace, args_within_allowed_paths, args_allowed_by_policy,
}
use underpass_runtime.Policy.Allowlists.{
  unrestricted, allowlist_check, args_allowed_by_profile_policy, args_allowed_by_subject_policy,
  args_allowed_by_topic_policy, args_allowed_by_queue_policy, args_allowed_by_key_prefix_policy,
  args_allowed_by_namespace_policy, args_allowed_by_registry_policy, check_subject_field_values,
}
use underpass_runtime.Policy.Profiles.{
  requires_runtime_rollout_profile, authorize_runtime_rollout_capability, is_saturation_tool,
  is_notify_tool, authorize_specialist_capability,
}
use underpass_runtime.Policy.Authorize.{is_high, authorize_arguments, authorize}
use underpass_runtime.Policy.Guards.{HasRole, MayReach, authorize-guards}
use underpass_runtime.Policy.Decision.{PolicyInput, approval_required}
use underpass_runtime.Policy.Denials.{AwaitsApproval, authorize-approval_required_iff}
use underpass_runtime.Policy.Confinement.{PathsConfined, IsOrdinary, authorize-PathsConfined}
use underpass_runtime.Policy.Governance.{
  Governed, NamesPass, StringsPass, authorize-Governed, image_allowed,
}
use underpass_runtime.Policy.Specialists.{with_policy, specialist_ignores_policy}
use underpass_runtime.Policy.Subjects.{
  Matches, tokens, nats_subject_match_iff, nats_tokens_match-tail,
}
use underpass_runtime.Policy.Keys.{Listed, parse_allowlist_iff}
use underpass_runtime.Policy.Values.{ArgsAllowed, authorize-ArgsAllowed}
use underpass_runtime.Examples.Inputs.{
  admin_session, operator_session, note_payload, host_of, input_of, guarded_tool, note_tool,
  scale_tool, two_rules,
}

exec_permitted :
    (authorize (host_of note_payload) (input_of admin_session guarded_tool)).allow ≡ true
unfolding text_eq is_space trim_left snoc_space trim_right trim_space lower to_lower member ◌<|>◌
    deny_if deny_by each no_args with_payload canonical has_canonical_role has_role has_any_role
    scope_allowed any path_under is_path_within_allowlist check_path check_paths
    check_path_field_values or_workspace args_within_allowed_paths args_allowed_by_policy
    unrestricted allowlist_check args_allowed_by_profile_policy args_allowed_by_subject_policy
    args_allowed_by_topic_policy args_allowed_by_queue_policy args_allowed_by_key_prefix_policy
    args_allowed_by_namespace_policy args_allowed_by_registry_policy check_subject_field_values
    requires_runtime_rollout_profile authorize_runtime_rollout_capability is_saturation_tool
    is_notify_tool authorize_specialist_capability is_high authorize_arguments authorize
exec_permitted = refl

note_permitted : (authorize (host_of note_payload) (input_of admin_session note_tool)).allow ≡ true
unfolding text_eq is_space trim_left snoc_space trim_right trim_space lower to_lower member
    has_prefix has_suffix trim_suffix contains push_char split parent_of clean_step clean_stack
    is_rooted segments render clean join field_of lookup_field ◌<|>◌ deny_if deny_by each no_args
    with_payload canonical has_canonical_role has_role has_any_role scope_allowed strings_of
    array_values single_value string_or_array values_at extract_field_values check_value
    check_values check_field_values_allowed collect parse_allowlist parse_allowed_profiles
    parse_allowed_nats_subjects nats_tokens_match nats_subject_match nats_subject_allowed any
    path_under is_path_within_allowlist check_path check_paths check_path_field_values or_workspace
    args_within_allowed_paths args_allowed_by_policy unrestricted allowlist_check
    args_allowed_by_profile_policy args_allowed_by_subject_policy args_allowed_by_topic_policy
    args_allowed_by_queue_policy args_allowed_by_key_prefix_policy args_allowed_by_namespace_policy
    args_allowed_by_registry_policy check_subject_field_values requires_runtime_rollout_profile
    authorize_runtime_rollout_capability is_saturation_tool is_notify_tool
    authorize_specialist_capability is_high authorize_arguments authorize has_denied_char
    has_some_prefix exceeds value_listed arg_value_allowed check_arg_value check_arg_values
    check_arg_field meta_get
note_permitted = refl

note-IsOrdinary : IsOrdinary (input_of admin_session note_tool)
unfolding text_eq is_space trim_left snoc_space trim_right trim_space lower to_lower member
    is_saturation_tool is_notify_tool
note-IsOrdinary = (refl, refl)

note_args : no_args (codes "{..}") ≡ false
unfolding no_args text_eq
note_args = refl

scale_saturation : is_saturation_tool (trim_space (codes "k8s.scale_deployment")) ≡ true
unfolding text_eq is_space trim_left snoc_space trim_right trim_space lower to_lower member
    is_saturation_tool
scale_saturation = refl

authorize-guards_example :
    MayReach admin_session.principal.roles guarded_tool.scope
    × (guarded_tool.risk_level ≡ high
        → HasRole admin_session.principal.roles (codes "platform_admin"))
    × (guarded_tool.requires_approval ≡ true → true ≡ true)
authorize-guards_example =
    authorize-guards (host_of note_payload) (input_of admin_session guarded_tool) exec_permitted

-- The guarded tool, not approved.
abbrev unapproved : PolicyInput
unapproved = record (input_of admin_session guarded_tool) { approved = false }

authorize-approval_required_iff_example :
    ((authorize (host_of note_payload) unapproved).error_code ≡ approval_required)
    ↔ AwaitsApproval unapproved
authorize-approval_required_iff_example =
    authorize-approval_required_iff (host_of note_payload) unapproved

authorize-PathsConfined_example :
    All
      (PathsConfined (or_workspace admin_session.allowed_paths) note_payload)
      note_tool.policy.path_fields
authorize-PathsConfined_example =
    authorize-PathsConfined (host_of note_payload) (input_of admin_session note_tool) note_payload
      note-IsOrdinary note_args refl note_permitted

authorize-Governed_example :
    Governed
      (parse_allowed_profiles admin_session.metadata)
      (NamesPass member note_payload)
      note_tool.policy.profile_fields
    × Governed
        (parse_allowed_nats_subjects admin_session.metadata)
        (NamesPass nats_subject_allowed note_payload)
        note_tool.policy.subject_fields
    × Governed
        (parse_allowlist admin_session.metadata (codes "allowed_kafka_topics"))
        (NamesPass pattern_allowlist_match note_payload)
        note_tool.policy.topic_fields
    × Governed
        (parse_allowlist admin_session.metadata (codes "allowed_rabbit_queues"))
        (NamesPass pattern_allowlist_match note_payload)
        note_tool.policy.queue_fields
    × Governed
        (parse_allowlist admin_session.metadata (codes "allowed_redis_key_prefixes"))
        (NamesPass prefix_allowlist_match note_payload)
        note_tool.policy.key_prefix_fields
    × Governed
        (parse_allowlist admin_session.metadata (codes "allowed_k8s_namespaces"))
        (StringsPass pattern_allowlist_match note_payload)
        note_tool.policy.namespace_fields
    × Governed
        (parse_allowlist admin_session.metadata (codes "allowed_image_registries"))
        (StringsPass image_allowed note_payload)
        note_tool.policy.registry_fields
authorize-Governed_example =
    authorize-Governed (host_of note_payload) (input_of admin_session note_tool) note_payload
      note-IsOrdinary note_args refl note_permitted

authorize-ArgsAllowed_example : All (ArgsAllowed note_payload) note_tool.policy.arg_fields
authorize-ArgsAllowed_example =
    authorize-ArgsAllowed (host_of note_payload) (input_of admin_session note_tool) note_payload
      note-IsOrdinary note_args refl note_permitted

either_specialist :
    (is_saturation_tool (trim_space (codes "k8s.scale_deployment"))
      || is_notify_tool (trim_space (codes "k8s.scale_deployment")))
    ≡ true
either_specialist = rw scale_saturation refl

specialist_ignores_policy_example :
    authorize (host_of note_payload) (with_policy (input_of operator_session scale_tool) two_rules)
    ≡ authorize (host_of note_payload) (input_of operator_session scale_tool)
specialist_ignores_policy_example =
    specialist_ignores_policy (host_of note_payload) (input_of operator_session scale_tool)
      two_rules either_specialist

nats_subject_match_iff_example :
    (nats_subject_match (codes "orders.*") (codes "orders.eu") ≡ true) ↔ (
      (codes "orders.*" ≡ codes "orders.eu")
      ⊎ Matches (tokens (codes "orders.*")) (tokens (codes "orders.eu")))
nats_subject_match_iff_example = nats_subject_match_iff (codes "orders.*") (codes "orders.eu")

nats_tokens_match-tail_example :
    nats_tokens_match (codes "orders" ∷ codes ">" ∷ []) (codes "orders" ∷ []) ≡ true
nats_tokens_match-tail_example = nats_tokens_match-tail (codes "orders" ∷ [])

parse_allowlist_iff_example :
    (member
        (codes "orders.*")
        (parse_allowlist admin_session.metadata (codes "allowed_nats_subjects"))
      ≡ true)
    ↔ ((codes "orders.*" ≢ [])
        × Listed (codes "orders.*") (
            split b','
              (trim_space (meta_get admin_session.metadata (codes "allowed_nats_subjects")))))
parse_allowlist_iff_example =
    parse_allowlist_iff admin_session.metadata (codes "allowed_nats_subjects") (codes "orders.*")
