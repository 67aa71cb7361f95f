-- ===== src/Policy/Denials.antt =====
-- When the engine asks for approval.
use underpass_runtime.Base.{
  String, ◌≡◌, ◌≢◌, ◌∙◌, ◌↔◌, refl, sym, inl, inr, Bool, true, false, not, ◌&&◌, Option, none, some,
  List, [], ◌∷◌, Any, arith, Bool-cases,
}
use underpass_runtime.Text.{Text, codes, trim_space}
use underpass_runtime.Text.Laws.{text_eq_of_eq}
use underpass_runtime.Domain.{
  Scope, repo, workspace, cluster, external, other_scope, RiskLevel, high,
}
use underpass_runtime.Policy.Roles.{
  canonical, has_canonical_role, has_role, has_any_role, cluster_roles, scope_allowed,
}
use underpass_runtime.Policy.Guards.{
  HasRole, MayReach, has_role-HasRole, scope_allowed-MayReach, guard_open, not-false, is_high_of,
}
use underpass_runtime.Json.{Members}
use underpass_runtime.Domain.{Metadata}
use underpass_runtime.Policy.Decision.{
  Host, PolicyInput, PolicyDecision, policy_denied, approval_required, environment_mismatch,
  deny_if, ◌<|>◌,
}
use underpass_runtime.Policy.Profiles.{
  authorize_runtime_rollout_capability, authorize_specialist_capability,
  authorize_environment_match, authorize_saturation_capability, authorize_notify_capability,
  check_saturation_payload, check_saturation_bounds, is_saturation_tool, is_notify_tool,
}
use underpass_runtime.Policy.Authorize.{authorize, authorize_arguments, is_high}
use underpass_runtime.Policy.Combine.{
  IsSound, IsSoundCheck, deny_if-IsSound, <|>-IsSound, deny_by-IsSound,
}

check_saturation_bounds-IsSound :
    (name : Text) (ms : Members) → IsSound (check_saturation_bounds name ms)
unfolding check_saturation_bounds ◌<|>◌ deny_if
check_saturation_bounds-IsSound name ms = ground arith

check_saturation_payload-IsSound :
    (name : Text) (o : Option Members) → IsSound (check_saturation_payload name o)
unfolding check_saturation_payload
check_saturation_payload-IsSound name none = inr (inl refl)
check_saturation_payload-IsSound name (some ms) = check_saturation_bounds-IsSound name ms

environment_match-IsSound :
    (host : Host) (metadata : Metadata) → IsSoundCheck (authorize_environment_match host metadata)
unfolding authorize_environment_match
environment_match-IsSound host metadata = deny_if-IsSound _ _ _ (inr refl)

saturation-IsSound :
    (host : Host) (input : PolicyInput) → IsSound (authorize_saturation_capability host input)
unfolding authorize_saturation_capability
saturation-IsSound host input = <|>-IsSound _ _ (deny_if-IsSound _ _ _ (inl refl)) (
    <|>-IsSound _ _ (environment_match-IsSound host input.session.metadata)
      (check_saturation_payload-IsSound _ _))

notify-IsSound :
    (host : Host) (input : PolicyInput) → IsSound (authorize_notify_capability host input)
unfolding authorize_notify_capability
notify-IsSound host input =
    <|>-IsSound _ _ (deny_if-IsSound _ _ _ (inl refl))
      (<|>-IsSound _ _ (environment_match-IsSound host input.session.metadata) (inl refl))

specialist-IsSound :
    (host : Host) (input : PolicyInput) → IsSoundCheck (authorize_specialist_capability host input)
unfolding authorize_specialist_capability
specialist-IsSound host input =
    elim (Bool-cases (is_saturation_tool (trim_space input.capability.name))) [
      | inl e ↦ rw e (saturation-IsSound host input)
      | inr e ↦ elim (Bool-cases (is_notify_tool (trim_space input.capability.name))) [
        | inl g ↦ rw (e, g) (notify-IsSound host input)
        | inr g ↦ rw (e, g) tt
      ]
    ]

rollout-IsSound :
    (host : Host) (input : PolicyInput)
    → IsSoundCheck (authorize_runtime_rollout_capability host input)
unfolding authorize_runtime_rollout_capability
rollout-IsSound host input = ground arith

arguments-IsSound : (host : Host) (input : PolicyInput) → IsSound (authorize_arguments host input)
unfolding authorize_arguments
arguments-IsSound host input = <|>-IsSound _ _ (deny_by-IsSound _) (
    <|>-IsSound _ _ (deny_by-IsSound _) (
      <|>-IsSound _ _ (deny_by-IsSound _) (
        <|>-IsSound _ _ (deny_by-IsSound _) (
          <|>-IsSound _ _ (deny_by-IsSound _) (
            <|>-IsSound _ _ (deny_by-IsSound _) (
              <|>-IsSound _ _ (deny_by-IsSound _) (
                <|>-IsSound _ _ (deny_by-IsSound _)
                  (<|>-IsSound _ _ (deny_by-IsSound _) (inl refl)))))))))

abbrev behind_guards : Host → PolicyInput → PolicyDecision
behind_guards host input =
    authorize_runtime_rollout_capability host input
    <|> authorize_specialist_capability host input
    <|> authorize_arguments host input

behind_guards-IsSound : (host : Host) (input : PolicyInput) → IsSound (behind_guards host input)
behind_guards-IsSound host input =
    <|>-IsSound _ _ (rollout-IsSound host input)
      (<|>-IsSound _ _ (specialist-IsSound host input) (arguments-IsSound host input))

asks_not : (d : PolicyDecision) → IsSound d → d.error_code ≢ approval_required
asks_not d (inl e) h = different (sym e ∙ h)
  where
    different : "" ≢ approval_required
    different e = cc
asks_not d (inr (inl e)) h = different (sym e ∙ h)
  where
    different : policy_denied ≢ approval_required
    different e = cc
asks_not d (inr (inr e)) h = different (sym e ∙ h)
  where
    different : environment_mismatch ≢ approval_required
    different e = cc

Any-has_canonical_role :
    (roles : List Text) (target : Text)
    → Any (λ role. canonical role ≡ target) roles
    → has_canonical_role roles target ≡ true
unfolding has_canonical_role
Any-has_canonical_role [] target h = elim h [ ]
Any-has_canonical_role (role ∷ roles) target (inl e) =
    rw (text_eq_of_eq (canonical role) target e) refl
Any-has_canonical_role (role ∷ roles) target (inr a) =
    ground (arith, Any-has_canonical_role roles target a)

HasRole-has_role :
    (roles : List Text) (target : Text) → HasRole roles target → has_role roles target ≡ true
unfolding has_role
HasRole-has_role roles target h = Any-has_canonical_role roles (canonical target) h

Any-has_any_role :
    (roles cs : List Text) → Any (λ c. HasRole roles c) cs → has_any_role roles cs ≡ true
unfolding has_any_role
Any-has_any_role roles [] h = elim h [ ]
Any-has_any_role roles (c ∷ cs) (inl e) = rw (HasRole-has_role roles c e) refl
Any-has_any_role roles (c ∷ cs) (inr a) = ground (arith, Any-has_any_role roles cs a)

MayReach-scope_allowed :
    (roles : List Text) (scope : Scope) → MayReach roles scope → scope_allowed roles scope ≡ true
unfolding scope_allowed
MayReach-scope_allowed roles workspace h = refl
MayReach-scope_allowed roles repo h = refl
MayReach-scope_allowed roles cluster h = Any-has_any_role roles cluster_roles h
MayReach-scope_allowed roles external h = Any-has_any_role roles cluster_roles h
MayReach-scope_allowed roles (other_scope s) h = absurd h

high_of : (risk : RiskLevel) → is_high risk ≡ true → risk ≡ high
unfolding is_high
high_of high h = refl
high_of _ h = absurd (cc)

-- What only lacks approval: the guards before the one on approval are passed.
abbrev pub AwaitsApproval : PolicyInput → Type 0
AwaitsApproval input =
    MayReach input.session.principal.roles input.capability.scope
    × (input.capability.risk_level ≡ high
        → HasRole input.session.principal.roles (codes "platform_admin"))
    × (input.capability.requires_approval ≡ true)
    × (input.approved ≡ false)

risk_passes :
    (roles : List Text) (risk : RiskLevel)
    → (risk ≡ high → HasRole roles (codes "platform_admin"))
    → (is_high risk && not (has_role roles (codes "platform_admin"))) ≡ false
risk_passes roles risk h = elim (Bool-cases (is_high risk)) [
  | inr e ↦ rw e refl
  | inl e ↦ rw (e, HasRole-has_role roles _ (h (high_of risk e))) refl
]

guarded_code :
    (b : Bool) (code reason : String) (rest : PolicyDecision)
    → code ≢ approval_required
    → (deny_if b code reason <|> rest).error_code ≡ approval_required
    → (b ≡ false) × (rest.error_code ≡ approval_required)
unfolding ◌<|>◌ deny_if
guarded_code true code reason rest n h = absurd (n h)
guarded_code false code reason rest n h = (refl, h)

asked :
    (a b : Bool) (reason : String) (rest : PolicyDecision)
    → rest.error_code ≢ approval_required
    → (deny_if (a && not b) approval_required reason <|> rest).error_code ≡ approval_required
    → (a ≡ true) × (b ≡ false)
unfolding ◌<|>◌ deny_if
asked true false reason rest n h = (refl, refl)
asked true true reason rest n h = absurd (n h)
asked false b reason rest n h = absurd (n h)

authorize-AwaitsApproval :
    (host : Host) (input : PolicyInput) (rest : PolicyDecision)
    → behind_guards host input ≡ rest
    → rest.error_code ≢ approval_required
    → (authorize host input).error_code ≡ approval_required
    → AwaitsApproval input
unfolding authorize
authorize-AwaitsApproval host input rest e n h =
    let (scope_ok, h1) = guarded_code _ _ _ _ denied (rw e at h) in
    let (risk_ok, h2) = guarded_code _ _ _ _ denied h1 in
    let (requires, unapproved) = asked _ _ _ _ n h2 in
    (
      scope_allowed-MayReach _ _ (not-false _ scope_ok),
      λ g. has_role-HasRole _ _ (guard_open _ _ risk_ok (is_high_of g)),
      requires,
      unapproved,
    )
  where
    denied : policy_denied ≢ approval_required
    denied e = cc

AwaitsApproval-authorize :
    (host : Host) (input : PolicyInput)
    → AwaitsApproval input
    → (authorize host input).error_code ≡ approval_required
unfolding authorize ◌<|>◌ deny_if
AwaitsApproval-authorize host input (reach, risk, requires, unapproved) =
    rw (MayReach-scope_allowed _ _ reach, risk_passes _ _ risk, requires, unapproved) refl

-- The engine answers with the code approval_required exactly when a tool that requires approval is
-- not approved, and the earlier guards are passed: the principal may reach the tool's scope, and,
-- for a high-risk tool, has the platform_admin role.
pub authorize-approval_required_iff :
    (host : Host) (input : PolicyInput)
    → ((authorize host input).error_code ≡ approval_required) ↔ AwaitsApproval input
authorize-approval_required_iff host input = (
  authorize-AwaitsApproval host input (behind_guards host input) refl
      (asks_not (behind_guards host input) (behind_guards-IsSound host input)),
  AwaitsApproval-authorize host input,
)
