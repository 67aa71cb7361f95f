-- ===== src/Policy/Governance.antt =====
-- What `authorize` guarantees of the names that the session's allowlists govern.
use underpass_runtime.Base.{
  String, ◌≡◌, refl, ◌⊎◌, inl, inr, Bool, true, false, ◌||◌, Option, none, some, List, [], ◌∷◌, All,
  is_empty, Bool-cases,
}
use underpass_runtime.Text.{Text, codes, trim_space, member}
use underpass_runtime.Json.{Json}
use underpass_runtime.Domain.{NameField, Metadata}
use underpass_runtime.Policy.Decision.{Host, PolicyInput, Verdict, no_args}
use underpass_runtime.Policy.Fields.{
  extract_field_values, extract_string_field_values, check_value, check_values,
  check_field_values_allowed,
}
use underpass_runtime.Policy.Patterns.{
  parse_allowlist, parse_allowed_profiles, parse_allowed_nats_subjects, nats_subject_allowed,
  pattern_allowlist_match, prefix_allowlist_match, extract_registry_from_image_ref,
}
use underpass_runtime.Policy.Allowlists.{
  unrestricted, allowlist_check, check_profile_field_values, check_subject_field_values,
  check_topic_field_values, check_queue_field_values, check_key_prefix_field_values,
  check_namespace_field_values, check_registry_field_values, args_allowed_by_profile_policy,
  args_allowed_by_subject_policy, args_allowed_by_topic_policy, args_allowed_by_queue_policy,
  args_allowed_by_key_prefix_policy, args_allowed_by_namespace_policy,
  args_allowed_by_registry_policy,
}
use underpass_runtime.Policy.Authorize.{authorize, authorize_arguments}
use underpass_runtime.Policy.Combine.{passes_check}
use underpass_runtime.Policy.Confinement.{
  IsOrdinary, ordinary_arguments, if_none, each-All, loop_of,
}

-- The values of a field can be read, and each is blank or, once trimmed, passes the test.
abbrev pub Passes : (Text → Bool) → Option (List Text) → Type 0
Passes matcher o =
    (values : List Text) × (o ≡ some values)
    × All (λ v. (trim_space v ≡ []) ⊎ (matcher (trim_space v) ≡ true)) values

is_empty_eq : (t : Text) → is_empty t ≡ true → t ≡ []
is_empty_eq [] h = refl
is_empty_eq (c ∷ t) h = absurd (cc)

check_value_sound :
    (matcher : Text → Bool) (reason : String) (v : Text)
    → check_value matcher reason v ≡ none
    → (trim_space v ≡ []) ⊎ (matcher (trim_space v) ≡ true)
unfolding check_value
check_value_sound matcher reason v h = elim (Bool-cases (is_empty (trim_space v))) [
  | inl e ↦ inl (is_empty_eq (trim_space v) e)
  | inr e ↦ inr (if_none _ reason (rw e at h))
]

check_values_sound :
    (error_reason : String) (matcher : Text → Bool) (reason : String) (o : Option (List Text))
    → check_values error_reason matcher reason o ≡ none
    → Passes matcher o
unfolding check_values
check_values_sound error_reason matcher reason none h = absurd (cc)
check_values_sound error_reason matcher reason (some values) h = (
  values,
  refl,
  each-All (check_value matcher reason) _ (check_value_sound matcher reason) values h,
)

field_sound :
    (payload : Json) (field : NameField) (matcher : Text → Bool) (reason : String)
    → check_field_values_allowed payload field.field field.multi matcher reason ≡ none
    → Passes matcher (extract_field_values payload field.field field.multi)
unfolding check_field_values_allowed
field_sound payload field matcher reason h = check_values_sound _ matcher reason _ h

-- Where the allowlist restricts, every field of the list satisfies what its check ensures.
allowlist_sound {ℓ} :
    {F : Type ℓ} (host : Host) (raw : Text) (payload : Json) (allowlist : List Text)
    (check : List Text → Json → F → Verdict) (P : F → Type 0)
    → ((f : F) → check allowlist payload f ≡ none → P f)
    → no_args raw ≡ false
    → host.unmarshal raw ≡ some payload
    → (fields : List F) → allowlist_check host raw allowlist check fields ≡ none
    → unrestricted allowlist ≡ false
    → All P fields
unfolding allowlist_check
allowlist_sound host raw payload allowlist check P sound n u [] h r = tt
allowlist_sound host raw payload allowlist check P sound n u (f ∷ fs) h r =
    each-All (check allowlist payload) P sound (f ∷ fs)
      (loop_of host raw payload (no_args raw || unrestricted allowlist) _ (rw (n, r)) u h)

-- Each governed name passes its allowlist, wherever that list restricts.
abbrev pub Governed {ℓ} : {F : Type ℓ} → List Text → (List Text → F → Type 0) → List F → Type 0
Governed allowlist Names fields = unrestricted allowlist ≡ false → All (Names allowlist) fields

abbrev pub NamesPass : (Text → List Text → Bool) → Json → List Text → NameField → Type 0
NamesPass matcher payload allowlist field =
    Passes (λ v. matcher v allowlist) (extract_field_values payload field.field field.multi)

abbrev pub StringsPass : (Text → List Text → Bool) → Json → List Text → Text → Type 0
StringsPass matcher payload allowlist field =
    Passes (λ v. matcher v allowlist) (extract_string_field_values payload field)

-- an image is allowed by its reference or by its registry
abbrev pub image_allowed : Text → List Text → Bool
image_allowed v allowlist =
    pattern_allowlist_match v allowlist
    || pattern_allowlist_match (extract_registry_from_image_ref v) allowlist

module _ (host : Host) (raw : Text) (payload : Json) (n : no_args raw ≡ false)
    (u : host.unmarshal raw ≡ some payload) (metadata : Metadata) where
  profiles_sound :
      (fields : List NameField)
      → args_allowed_by_profile_policy host raw metadata fields ≡ none
      → Governed (parse_allowed_profiles metadata) (NamesPass member payload) fields
  unfolding args_allowed_by_profile_policy check_profile_field_values
  profiles_sound fields h r =
      allowlist_sound host raw payload _ check_profile_field_values _
        (λ f e. field_sound payload f _ _ e) n u fields h r

  subjects_sound :
      (fields : List NameField)
      → args_allowed_by_subject_policy host raw metadata fields ≡ none
      → Governed
          (parse_allowed_nats_subjects metadata)
          (NamesPass nats_subject_allowed payload)
          fields
  unfolding args_allowed_by_subject_policy check_subject_field_values
  subjects_sound fields h r =
      allowlist_sound host raw payload _ check_subject_field_values _
        (λ f e. field_sound payload f _ _ e) n u fields h r

  topics_sound :
      (fields : List NameField)
      → args_allowed_by_topic_policy host raw metadata fields ≡ none
      → Governed
          (parse_allowlist metadata (codes "allowed_kafka_topics"))
          (NamesPass pattern_allowlist_match payload)
          fields
  unfolding args_allowed_by_topic_policy check_topic_field_values
  topics_sound fields h r =
      allowlist_sound host raw payload _ check_topic_field_values _
        (λ f e. field_sound payload f _ _ e) n u fields h r

  queues_sound :
      (fields : List NameField)
      → args_allowed_by_queue_policy host raw metadata fields ≡ none
      → Governed
          (parse_allowlist metadata (codes "allowed_rabbit_queues"))
          (NamesPass pattern_allowlist_match payload)
          fields
  unfolding args_allowed_by_queue_policy check_queue_field_values
  queues_sound fields h r =
      allowlist_sound host raw payload _ check_queue_field_values _
        (λ f e. field_sound payload f _ _ e) n u fields h r

  key_prefixes_sound :
      (fields : List NameField)
      → args_allowed_by_key_prefix_policy host raw metadata fields ≡ none
      → Governed
          (parse_allowlist metadata (codes "allowed_redis_key_prefixes"))
          (NamesPass prefix_allowlist_match payload)
          fields
  unfolding args_allowed_by_key_prefix_policy check_key_prefix_field_values
  key_prefixes_sound fields h r =
      allowlist_sound host raw payload _ check_key_prefix_field_values _
        (λ f e. field_sound payload f _ _ e) n u fields h r

  namespaces_sound :
      (fields : List Text)
      → args_allowed_by_namespace_policy host raw metadata fields ≡ none
      → Governed
          (parse_allowlist metadata (codes "allowed_k8s_namespaces"))
          (StringsPass pattern_allowlist_match payload)
          fields
  unfolding args_allowed_by_namespace_policy check_namespace_field_values
  namespaces_sound fields h r =
      allowlist_sound host raw payload _ check_namespace_field_values _
        (λ f e. check_values_sound _ _ _ _ e) n u fields h r

  registries_sound :
      (fields : List Text)
      → args_allowed_by_registry_policy host raw metadata fields ≡ none
      → Governed
          (parse_allowlist metadata (codes "allowed_image_registries"))
          (StringsPass image_allowed payload)
          fields
  unfolding args_allowed_by_registry_policy check_registry_field_values
  registries_sound fields h r =
      allowlist_sound host raw payload _ check_registry_field_values _
        (λ f e. check_values_sound _ _ _ _ e) n u fields h r

-- When the engine permits an ordinary tool with arguments that decode, each name that an allowlist
-- of the session governs (profiles, NATS subjects, Kafka topics, queues, key prefixes, namespaces
-- and images, in this order) is blank or matches that list, wherever the list is not empty and has
-- no entry "*".
pub authorize-Governed :
    (host : Host) (input : PolicyInput) (payload : Json)
    → IsOrdinary input
    → no_args input.args ≡ false
    → host.unmarshal input.args ≡ some payload
    → (authorize host input).allow ≡ true
    → let metadata = input.session.metadata in
      let policy = input.capability.policy in
      Governed (parse_allowed_profiles metadata) (NamesPass member payload) policy.profile_fields
      × Governed
          (parse_allowed_nats_subjects metadata)
          (NamesPass nats_subject_allowed payload)
          policy.subject_fields
      × Governed
          (parse_allowlist metadata (codes "allowed_kafka_topics"))
          (NamesPass pattern_allowlist_match payload)
          policy.topic_fields
      × Governed
          (parse_allowlist metadata (codes "allowed_rabbit_queues"))
          (NamesPass pattern_allowlist_match payload)
          policy.queue_fields
      × Governed
          (parse_allowlist metadata (codes "allowed_redis_key_prefixes"))
          (NamesPass prefix_allowlist_match payload)
          policy.key_prefix_fields
      × Governed
          (parse_allowlist metadata (codes "allowed_k8s_namespaces"))
          (StringsPass pattern_allowlist_match payload)
          policy.namespace_fields
      × Governed
          (parse_allowlist metadata (codes "allowed_image_registries"))
          (StringsPass image_allowed payload)
          policy.registry_fields
unfolding authorize_arguments
authorize-Governed host input payload o n u h =
    let m = input.session.metadata in
    let (e1, h1) = passes_check _ _ (ordinary_arguments host input o h) in
    let (e2, h2) = passes_check _ _ h1 in
    let (e3, h3) = passes_check _ _ h2 in
    let (e4, h4) = passes_check _ _ h3 in
    let (e5, h5) = passes_check _ _ h4 in
    let (e6, h6) = passes_check _ _ h5 in
    let (e7, h7) = passes_check _ _ h6 in
    let (e8, h8) = passes_check _ _ h7 in
    let (e9, h9) = passes_check _ _ h8 in
    (
      profiles_sound host input.args payload n u m _ e3,
      subjects_sound host input.args payload n u m _ e4,
      topics_sound host input.args payload n u m _ e5,
      queues_sound host input.args payload n u m _ e6,
      key_prefixes_sound host input.args payload n u m _ e7,
      namespaces_sound host input.args payload n u m _ e8,
      registries_sound host input.args payload n u m _ e9,
    )
