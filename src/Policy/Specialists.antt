-- ===== src/Policy/Specialists.antt =====
-- The tools that authorizeSpecialistCapability decides: what it bounds, and what it leaves out.
use underpass_runtime.Base.{◌≤◌, ◌≡◌, inl, inr, true, ◌||◌, Option, none, some, arith, Bool-cases}
use underpass_runtime.Text.{Text, codes, trim_space}
use underpass_runtime.Json.{ℤ, pos, negsuc, Members, field_of, IsBetween}
use underpass_runtime.Domain.{PolicyMetadata}
use underpass_runtime.Policy.Decision.{Host, PolicyInput, PolicyDecision, ◌<|>◌}
use underpass_runtime.Policy.Profiles.{
  authorize_specialist_capability, authorize_saturation_capability, authorize_notify_capability,
  authorize_runtime_rollout_capability, is_saturation_tool, is_notify_tool, json_number_as_int,
}
use underpass_runtime.Policy.Authorize.{authorize, authorize_arguments}
use underpass_runtime.Policy.Combine.{Refuses, passes_first, passes_guard}

-- The number of an optional field lies in the range; a field that is no number is not restricted.
abbrev pub Within : (ℤ → Type 0) → Option ℤ → Type 0
Within P none = Unit
Within P (some n) = P n

abbrev pub IsTtl : ℤ → Type 0
IsTtl (pos n) = (60 ≤ n) × (n ≤ 1800)
IsTtl (negsuc n) = ⊥

-- What the payload of a permitted saturation tool satisfies.
abbrev pub InBounds : Text → Members → Type 0
InBounds name ms =
    (name ≡ codes "k8s.scale_deployment"
      → Within (IsBetween 0 200) (json_number_as_int (field_of ms (codes "replicas")))
        × Within (IsBetween 50 50) (json_number_as_int (field_of ms (codes "replicas_delta"))))
    × (name ≡ codes "k8s.circuit_break"
        → Within IsTtl (json_number_as_int (field_of ms (codes "ttl_seconds"))))

rollout-Refuses :
    (host : Host) (input : PolicyInput) → Refuses (authorize_runtime_rollout_capability host input)
unfolding authorize_runtime_rollout_capability
rollout-Refuses host input = ground arith

-- A permitted invocation is one that the checks on the arguments, or the specialist rule, permit.
pub authorize_last :
    (host : Host) (input : PolicyInput)
    → (authorize host input).allow ≡ true
    → (authorize_specialist_capability host input <|> authorize_arguments host input).allow ≡ true
unfolding authorize
authorize_last host input h =
    let (a, h1) = passes_guard _ _ _ _ h in
    let (b, h2) = passes_guard _ _ _ _ h1 in
    let (c, h3) = passes_guard _ _ _ _ h2 in (passes_first _ _ (rollout-Refuses host input) h3).1

-- The same input under other argument rules in the catalog.
abbrev pub with_policy : PolicyInput → PolicyMetadata → PolicyInput
with_policy input policy = record input {
  capability = record (input.capability) { policy = policy };
}

specialist_decides :
    (host : Host) (input : PolicyInput) (policy : PolicyMetadata)
    → (is_saturation_tool (trim_space input.capability.name)
        || is_notify_tool (trim_space input.capability.name))
      ≡ true
    → (d : PolicyDecision) × (authorize_specialist_capability host input ≡ some d)
      × (authorize_specialist_capability host (with_policy input policy) ≡ some d)
unfolding authorize_specialist_capability authorize_saturation_capability
    authorize_notify_capability
specialist_decides host input policy h =
    elim (Bool-cases (is_saturation_tool (trim_space input.capability.name))) [
      | inl e ↦ (authorize_saturation_capability host input, rw e, rw e)
      | inr e ↦ let g = rw e at h in (authorize_notify_capability host input, rw (e, g), rw (e, g))
    ]

-- The engine decides on the specialist tools without the argument rules of the catalog: whatever
-- namespace, path, value or registry rules the tool declares, the decision is the same.
pub specialist_ignores_policy :
    (host : Host) (input : PolicyInput) (policy : PolicyMetadata)
    → (is_saturation_tool (trim_space input.capability.name)
        || is_notify_tool (trim_space input.capability.name))
      ≡ true
    → authorize host (with_policy input policy) ≡ authorize host input
unfolding authorize ◌<|>◌ authorize_runtime_rollout_capability
specialist_ignores_policy host input policy h =
    let (d, e, g) = specialist_decides host input policy h in rw (e, g)
