-- ===== src/Policy/Guards.antt =====
-- What `authorize` guarantees of the principal when it permits.
use underpass_runtime.Base.{
  ◌≡◌, inl, inr, Bool, true, false, not, ◌&&◌, List, [], ◌∷◌, Any, arith, ||-eq-true,
}
use underpass_runtime.Text.{Text, codes, text_eq}
use underpass_runtime.Text.Laws.{eq_of_text_eq}
use underpass_runtime.Domain.{
  Scope, repo, workspace, cluster, external, other_scope, RiskLevel, high,
}
use underpass_runtime.Policy.Decision.{Host, PolicyInput}
use underpass_runtime.Policy.Roles.{
  canonical, has_canonical_role, has_role, has_any_role, cluster_roles, scope_allowed,
}
use underpass_runtime.Policy.Combine.{passes_guard}
use underpass_runtime.Policy.Authorize.{authorize, is_high}

-- Some role of the list is the wanted one, up to case and surrounding space.
abbrev pub HasRole : List Text → Text → Type 0
HasRole roles target = Any (λ role. canonical role ≡ canonical target) roles

has_canonical_role-Any :
    (roles : List Text) (target : Text)
    → has_canonical_role roles target ≡ true
    → Any (λ role. canonical role ≡ target) roles
unfolding has_canonical_role
has_canonical_role-Any [] target h = absurd (cc)
has_canonical_role-Any (role ∷ roles) target h =
    elim (||-eq-true (text_eq (canonical role) target) (has_canonical_role roles target) h) [
      | inl e ↦ inl (eq_of_text_eq (canonical role) target e)
      | inr e ↦ inr (has_canonical_role-Any roles target e)
    ]

pub has_role-HasRole :
    (roles : List Text) (target : Text) → has_role roles target ≡ true → HasRole roles target
unfolding has_role
has_role-HasRole roles target h = has_canonical_role-Any roles (canonical target) h

has_any_role-Any :
    (roles cs : List Text) → has_any_role roles cs ≡ true → Any (λ c. HasRole roles c) cs
unfolding has_any_role
has_any_role-Any roles [] h = absurd (cc)
has_any_role-Any roles (c ∷ cs) h = elim (||-eq-true (has_role roles c) (has_any_role roles cs) h) [
  | inl e ↦ inl (has_role-HasRole roles c e)
  | inr e ↦ inr (has_any_role-Any roles cs e)
]

-- The scopes that a principal may reach.
abbrev pub MayReach : List Text → Scope → Type 0
MayReach roles workspace = Unit
MayReach roles repo = Unit
MayReach roles cluster = Any (λ c. HasRole roles c) cluster_roles
MayReach roles external = Any (λ c. HasRole roles c) cluster_roles
MayReach roles (other_scope s) = ⊥

pub scope_allowed-MayReach :
    (roles : List Text) (scope : Scope) → scope_allowed roles scope ≡ true → MayReach roles scope
unfolding scope_allowed
scope_allowed-MayReach roles workspace h = tt
scope_allowed-MayReach roles repo h = tt
scope_allowed-MayReach roles cluster h = has_any_role-Any roles cluster_roles h
scope_allowed-MayReach roles external h = has_any_role-Any roles cluster_roles h
scope_allowed-MayReach roles (other_scope s) h = cc

pub guard_open : (a b : Bool) → (a && not b) ≡ false → a ≡ true → b ≡ true
guard_open a b h e = ground arith

pub not-false : (b : Bool) → not b ≡ false → b ≡ true
not-false b h = ground arith

pub is_high_of : {risk : RiskLevel} → risk ≡ high → is_high risk ≡ true
unfolding is_high
is_high_of e = rw e

-- When the engine permits an invocation, the principal may reach the tool's scope (for the cluster
-- and external scopes by one of the operator roles, and for an unknown scope not at all), a
-- high-risk tool finds the platform_admin role, and a tool that requires approval was approved.
pub authorize-guards :
    (host : Host) (input : PolicyInput)
    → (authorize host input).allow ≡ true
    → MayReach input.session.principal.roles input.capability.scope
      × (input.capability.risk_level ≡ high
          → HasRole input.session.principal.roles (codes "platform_admin"))
      × (input.capability.requires_approval ≡ true → input.approved ≡ true)
unfolding authorize
authorize-guards host input h =
    let (scope_ok, h1) = passes_guard _ _ _ _ h in
    let (risk_ok, h2) = passes_guard _ _ _ _ h1 in
    let (approval_ok, h3) = passes_guard _ _ _ _ h2 in
    (
      scope_allowed-MayReach _ _ (not-false _ scope_ok),
      λ e. has_role-HasRole _ _ (guard_open _ _ risk_ok (is_high_of e)),
      λ e. guard_open _ _ approval_ok e,
    )
