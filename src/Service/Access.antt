-- ===== src/Service/Access.antt =====
-- internal/app/service.go: who may use a session or an invocation.
use underpass_runtime.Base.{
  ◌≡◌, refl, Bool, true, ◌&&◌, Option, none, some, is_empty, Bool-cases, &&-eq-true, if◌then◌else◌,
  inl, inr,
}
use underpass_runtime.Text.{Text, text_eq, trim_space}
use underpass_runtime.Text.Laws.{eq_of_text_eq}
use underpass_runtime.Domain.{Session, Principal, Invocation, plain}
use underpass_runtime.Service.Errors.{
  ServiceError, invalid_argument_error, not_found_error, internal_error, policy_denied_error,
}
use underpass_runtime.Service.Ports.{Answer, answered, failed_with, Ports}

unfoldable pub same_principal_identity : Principal → Principal → Bool
same_principal_identity expected actual =
    text_eq (trim_space expected.tenant_id) (trim_space actual.tenant_id)
    && text_eq (trim_space expected.actor_id) (trim_space actual.actor_id)

unfoldable pub check_owner : Principal → Answer (Option Session) → Option ServiceError
check_owner principal (failed_with m) = some (internal_error m)
check_owner principal (answered none) = some (not_found_error (plain "session not found"))
check_owner principal (answered (some session)) =
    if same_principal_identity session.principal principal
    then none
    else some (
        policy_denied_error "policy_denied"
          (plain "session does not belong to authenticated principal"))

unfoldable pub validate_session_access :
    {S : Type 0} → Ports S → Text → Principal → Option ServiceError
validate_session_access p session_id principal =
    let id = trim_space session_id in
    if is_empty id
    then some (invalid_argument_error (plain "session_id is required"))
    else check_owner principal (p.get_session id)

unfoldable pub check_invocation_owner :
    {S : Type 0} → Ports S → Principal → Answer (Option Invocation) → Option ServiceError
check_invocation_owner p principal (failed_with m) = some (internal_error m)
check_invocation_owner p principal (answered none) =
    some (not_found_error (plain "invocation not found"))
check_invocation_owner p principal (answered (some inv)) =
    validate_session_access p inv.session_id principal

unfoldable pub validate_invocation_access :
    {S : Type 0} → Ports S → S → Text → Principal → Option ServiceError
validate_invocation_access p store invocation_id principal =
    let id = trim_space invocation_id in
    if is_empty id
    then some (invalid_argument_error (plain "invocation_id is required"))
    else check_invocation_owner p principal (p.load store id)

-- The same tenant and actor, up to surrounding space.
pub record IsSame (a b : Principal) : Type 0 where
  pub tenant : trim_space a.tenant_id ≡ trim_space b.tenant_id
  pub actor : trim_space a.actor_id ≡ trim_space b.actor_id

-- The session under an id is there and belongs to the principal.
abbrev pub Owns : {S : Type 0} → Ports S → Principal → Text → Type 0
Owns p principal id =
    (session : Session) × (p.get_session id ≡ answered (some session))
    × IsSame session.principal principal

pub same_principal_identity-IsSame :
    (a b : Principal) → same_principal_identity a b ≡ true → IsSame a b
unfolding same_principal_identity
same_principal_identity-IsSame a b h =
    let (t, u) = &&-eq-true _ _ h in
    record { tenant = eq_of_text_eq _ _ t; actor = eq_of_text_eq _ _ u }

owner_found :
    {S : Type 0} (p : Ports S) (principal : Principal) (id : Text) (r : Answer (Option Session))
    → p.get_session id ≡ r
    → check_owner principal r ≡ none
    → Owns p principal id
unfolding check_owner
owner_found p principal id (failed_with m) e h = absurd (cc)
owner_found p principal id (answered none) e h = absurd (cc)
owner_found p principal id (answered (some s)) e h =
    elim (Bool-cases (same_principal_identity s.principal principal)) [
      | inl same ↦ (s, e, same_principal_identity-IsSame _ _ same)
      | inr other ↦ absurd (let g = rw other at h in cc)
    ]

-- A session access that is granted is to a session that exists and belongs to the principal.
pub validate_session_access-Owns :
    {S : Type 0} (p : Ports S) (session_id : Text) (principal : Principal)
    → validate_session_access p session_id principal ≡ none
    → Owns p principal (trim_space session_id)
unfolding validate_session_access
validate_session_access-Owns p session_id principal h =
    elim (Bool-cases (is_empty (trim_space session_id))) [
      | inl e ↦ absurd (let g = rw e at h in cc)
      | inr e ↦ owner_found p principal (trim_space session_id) _ refl (rw e at h)
    ]

invocation_found :
    {S : Type 0} (p : Ports S) (store : S) (principal : Principal) (id : Text)
    (r : Answer (Option Invocation))
    → p.load store id ≡ r
    → check_invocation_owner p principal r ≡ none
    → (inv : Invocation) × (p.load store id ≡ answered (some inv))
      × Owns p principal (trim_space inv.session_id)
unfolding check_invocation_owner
invocation_found p store principal id (failed_with m) e h = absurd (cc)
invocation_found p store principal id (answered none) e h = absurd (cc)
invocation_found p store principal id (answered (some inv)) e h =
    (inv, e, validate_session_access-Owns p inv.session_id principal h)

-- An invocation access that is granted is to an invocation in the store, whose session exists and
-- belongs to the principal.
pub validate_invocation_access-Owns :
    {S : Type 0} (p : Ports S) (store : S) (invocation_id : Text) (principal : Principal)
    → validate_invocation_access p store invocation_id principal ≡ none
    → (inv : Invocation) × (p.load store (trim_space invocation_id) ≡ answered (some inv))
      × Owns p principal (trim_space inv.session_id)
unfolding validate_invocation_access
validate_invocation_access-Owns p store invocation_id principal h =
    elim (Bool-cases (is_empty (trim_space invocation_id))) [
      | inl e ↦ absurd (let g = rw e at h in cc)
      | inr e ↦ invocation_found p store principal (trim_space invocation_id) _ refl (rw e at h)
    ]
