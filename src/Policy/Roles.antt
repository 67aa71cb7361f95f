-- ===== src/Policy/Roles.antt =====
-- internal/adapters/policy/static_policy.go: hasRole, hasAnyRole and scopeAllowed.
use underpass_runtime.Base.{Bool, true, false, ◌||◌, List, [], ◌∷◌}
use underpass_runtime.Text.{Text, codes, text_eq, trim_space, to_lower}
use underpass_runtime.Domain.{Scope, repo, workspace, cluster, external, other_scope}

-- strings.ToLower(strings.TrimSpace(role))
unfoldable pub canonical : Text → Text
canonical role = to_lower (trim_space role)

unfoldable pub has_canonical_role : List Text → Text → Bool
has_canonical_role [] target = false
has_canonical_role (role ∷ roles) target =
    text_eq (canonical role) target || has_canonical_role roles target

unfoldable pub has_role : List Text → Text → Bool
has_role roles target = has_canonical_role roles (canonical target)

unfoldable pub has_any_role : List Text → List Text → Bool
has_any_role roles [] = false
has_any_role roles (c ∷ cs) = has_role roles c || has_any_role roles cs

abbrev pub cluster_roles : List Text
cluster_roles = codes "devops" ∷ codes "platform_admin" ∷ codes "incident_communicator" ∷ []

unfoldable pub scope_allowed : List Text → Scope → Bool
scope_allowed roles workspace = true
scope_allowed roles repo = true
scope_allowed roles cluster = has_any_role roles cluster_roles
scope_allowed roles external = has_any_role roles cluster_roles
scope_allowed roles (other_scope s) = false
