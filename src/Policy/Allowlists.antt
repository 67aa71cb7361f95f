-- ===== src/Policy/Allowlists.antt =====
-- internal/adapters/policy/static_policy.go: the checks against the allowlists of the session's
-- metadata (profiles, NATS subjects, Kafka topics, queues, key prefixes, namespaces, registries).
use underpass_runtime.Base.{Bool, ◌||◌, none, List, is_empty, if◌then◌else◌}
use underpass_runtime.Text.{Text, codes, member}
use underpass_runtime.Json.{Json}
use underpass_runtime.Domain.{Metadata, NameField}
use underpass_runtime.Policy.Decision.{Host, Verdict, each, no_args, with_payload}
use underpass_runtime.Policy.Fields.{
  check_field_values_allowed, check_values, extract_string_field_values,
}
use underpass_runtime.Policy.Patterns.{
  parse_allowlist, parse_allowed_profiles, parse_allowed_nats_subjects, nats_subject_allowed,
  pattern_allowlist_match, prefix_allowlist_match, extract_registry_from_image_ref,
}

-- an empty allowlist restricts nothing, nor does the entry "*"
unfoldable pub unrestricted : List Text → Bool
unrestricted allowlist = is_empty allowlist || member (codes "*") allowlist

-- the shape that the checks share
unfoldable pub allowlist_check {ℓ} :
    {F : Type ℓ} → Host → Text → List Text → (List Text → Json → F → Verdict) → List F → Verdict
allowlist_check host raw allowlist check fields =
    if is_empty fields || no_args raw || unrestricted allowlist
    then none
    else with_payload host raw (λ payload. each (check allowlist payload) fields)

unfoldable pub check_profile_field_values : List Text → Json → NameField → Verdict
check_profile_field_values allowed payload field =
    check_field_values_allowed payload field.field field.multi (λ v. member v allowed)
      "profile not allowed"

unfoldable pub args_allowed_by_profile_policy : Host → Text → Metadata → List NameField → Verdict
args_allowed_by_profile_policy host raw metadata fields =
    allowlist_check host raw (parse_allowed_profiles metadata) check_profile_field_values fields

unfoldable pub check_subject_field_values : List Text → Json → NameField → Verdict
check_subject_field_values allowed payload field =
    check_field_values_allowed payload field.field field.multi (λ v. nats_subject_allowed v allowed)
      "subject not allowed"

unfoldable pub args_allowed_by_subject_policy : Host → Text → Metadata → List NameField → Verdict
args_allowed_by_subject_policy host raw metadata fields =
    allowlist_check host raw (parse_allowed_nats_subjects metadata) check_subject_field_values
      fields

unfoldable pub check_topic_field_values : List Text → Json → NameField → Verdict
check_topic_field_values allowed payload field =
    check_field_values_allowed payload field.field field.multi
      (λ v. pattern_allowlist_match v allowed) "topic not allowed"

unfoldable pub args_allowed_by_topic_policy : Host → Text → Metadata → List NameField → Verdict
args_allowed_by_topic_policy host raw metadata fields =
    allowlist_check host raw (parse_allowlist metadata (codes "allowed_kafka_topics"))
      check_topic_field_values fields

unfoldable pub check_queue_field_values : List Text → Json → NameField → Verdict
check_queue_field_values allowed payload field =
    check_field_values_allowed payload field.field field.multi
      (λ v. pattern_allowlist_match v allowed) "queue not allowed"

unfoldable pub args_allowed_by_queue_policy : Host → Text → Metadata → List NameField → Verdict
args_allowed_by_queue_policy host raw metadata fields =
    allowlist_check host raw (parse_allowlist metadata (codes "allowed_rabbit_queues"))
      check_queue_field_values fields

unfoldable pub check_key_prefix_field_values : List Text → Json → NameField → Verdict
check_key_prefix_field_values allowed payload field =
    check_field_values_allowed payload field.field field.multi
      (λ v. prefix_allowlist_match v allowed) "key prefix not allowed"

unfoldable pub args_allowed_by_key_prefix_policy : Host → Text → Metadata → List NameField → Verdict
args_allowed_by_key_prefix_policy host raw metadata fields =
    allowlist_check host raw (parse_allowlist metadata (codes "allowed_redis_key_prefixes"))
      check_key_prefix_field_values fields

unfoldable pub check_namespace_field_values : List Text → Json → Text → Verdict
check_namespace_field_values allowed payload field =
    check_values "invalid namespace field payload" (λ v. pattern_allowlist_match v allowed)
      "namespace not allowed" (extract_string_field_values payload field)

unfoldable pub args_allowed_by_namespace_policy : Host → Text → Metadata → List Text → Verdict
args_allowed_by_namespace_policy host raw metadata fields =
    allowlist_check host raw (parse_allowlist metadata (codes "allowed_k8s_namespaces"))
      check_namespace_field_values fields

unfoldable pub check_registry_field_values : List Text → Json → Text → Verdict
check_registry_field_values allowed payload field =
    check_values "invalid registry field payload"
      (λ v.
        pattern_allowlist_match v allowed
        || pattern_allowlist_match (extract_registry_from_image_ref v) allowed)
      "registry not allowed" (extract_string_field_values payload field)

unfoldable pub args_allowed_by_registry_policy : Host → Text → Metadata → List Text → Verdict
args_allowed_by_registry_policy host raw metadata fields =
    allowlist_check host raw (parse_allowlist metadata (codes "allowed_image_registries"))
      check_registry_field_values fields
