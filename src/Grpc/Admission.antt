-- ===== src/Grpc/Admission.antt =====
-- internal/grpcapi/auth.go: what a call that the interceptor admits has shown.
use underpass_runtime.Base.{
  ◌≡◌, refl, ◌⊎◌, inl, inr, Bool, true, false, not, ◌||◌, some, List, is_empty, Bool-cases,
  Option-cases, if◌then◌else◌, arith, sym, ap, subst,
}
use underpass_runtime.Text.{
  Text, text_eq, trim_space, to_lower, trim_right, trim_left, is_space, snoc_space, lower,
}
use underpass_runtime.Text.Laws.{eq_of_text_eq}
use underpass_runtime.Domain.{Principal}
use underpass_runtime.Service.Ports.{answered}
use underpass_runtime.Grpc.Auth.{
  AuthConfig, auth_mode_payload, auth_mode_trusted_headers, check_headers, check_auth_config,
  auth_config_from_env, auth_enabled, unauthenticated, Status, Reply, replied, rejected, Context,
  first_value, parse_roles, authenticate, authenticate_from_metadata, as_principal,
  unary_auth_interceptor,
}

-- The metadata carries the shared token, which is not blank, and the principal's identity.
pub record IsAuthentic (cfg : AuthConfig) (ctx : Context) (principal : Principal) : Type 0 where
  pub md : Text → List Text
  pub received : ctx.metadata ≡ some md
  pub token : first_value md cfg.token_key ≡ cfg.shared_token
  pub tenant : principal.tenant_id ≡ first_value md cfg.tenant_key
  pub actor : principal.actor_id ≡ first_value md cfg.actor_key
  pub has_tenant : is_empty principal.tenant_id ≡ false
  pub has_actor : is_empty principal.actor_id ≡ false
  pub roles : principal.roles ≡ parse_roles (first_value md cfg.roles_key)

or-eq-false : (a b : Bool) → (a || b) ≡ false → (a ≡ false) × (b ≡ false)
or-eq-false a b h = ground arith

answered_inj : {A : Type 0} {a b : A} → answered a ≡ answered b → a ≡ b
answered_inj h = cc

replied_inj : {A : Type 0} {a b : A} → replied a ≡ replied b → a ≡ b
replied_inj h = cc

authenticate-IsAuthentic :
    (cfg : AuthConfig) (ctx : Context) (md : Text → List Text) (principal : Principal)
    → ctx.metadata ≡ some md
    → authenticate cfg md ≡ replied principal
    → IsAuthentic cfg ctx principal
unfolding authenticate
authenticate-IsAuthentic cfg ctx md principal e h =
    elim (Bool-cases (text_eq (first_value md cfg.token_key) cfg.shared_token)) [
      | inr wrong ↦ absurd (let g = rw wrong at h in cc)
      | inl right ↦
          elim (Bool-cases
            (is_empty (first_value md cfg.tenant_key) || is_empty (first_value md cfg.actor_key))) [
              | inl blank ↦ absurd (let g = rw (right, blank) at h in cc)
              | inr filled ↦
                  let (t, a) = or-eq-false _ _ filled in
                  let same = replied_inj (rw (right, filled) at h) in
                  record {
                    md = md;
                    received = e;
                    token = eq_of_text_eq _ _ right;
                    tenant = sym (ap (λ (x : Principal). x.tenant_id) same);
                    actor = sym (ap (λ (x : Principal). x.actor_id) same);
                    has_tenant = rw (← same) t;
                    has_actor = rw (← same) a;
                    roles = sym (ap (λ (x : Principal). x.roles) same);
                  }
            ]
    ]

pub authenticate_from_metadata-IsAuthentic :
    (cfg : AuthConfig) (ctx : Context) (principal : Principal)
    → authenticate_from_metadata ctx cfg ≡ replied principal
    → IsAuthentic cfg ctx principal
unfolding authenticate_from_metadata
authenticate_from_metadata-IsAuthentic cfg ctx principal h = elim (Option-cases ctx.metadata) [
  | inl lacks ↦ absurd (let g = rw lacks at h in cc)
  | inr (md, e) ↦ authenticate-IsAuthentic cfg ctx md principal e (rw e at h)
]

-- A configuration that the environment gives: no authentication, or authentication by headers that
-- have names and a shared token that is not blank.
pub record IsGuarded (cfg : AuthConfig) : Type 0 where
  pub tenant_named : is_empty cfg.tenant_key ≡ false
  pub actor_named : is_empty cfg.actor_key ≡ false
  pub token_named : is_empty cfg.token_key ≡ false
  pub has_token : is_empty cfg.shared_token ≡ false

headers-IsGuarded :
    (cfg cfg' : AuthConfig) → check_headers cfg ≡ answered cfg' → (cfg ≡ cfg') × IsGuarded cfg
unfolding check_headers
headers-IsGuarded cfg cfg' h =
    elim (Bool-cases
      (is_empty cfg.tenant_key || is_empty cfg.actor_key || is_empty cfg.token_key)) [
        | inl blank ↦ absurd (let g = rw blank at h in cc)
        | inr named ↦ elim (Bool-cases (is_empty cfg.shared_token)) [
          | inl blank ↦ absurd (let g = rw (named, blank) at h in cc)
          | inr filled ↦
              let (ta, k) = or-eq-false _ _ named in
              let (t, a) = or-eq-false _ _ ta in
              let g = rw (named, filled) at h in
              (
                cc,
                record { tenant_named = t; actor_named = a; token_named = k; has_token = filled },
              )
        ]
      ]

payload_disabled : (cfg : AuthConfig) → cfg.mode ≡ auth_mode_payload → auth_enabled cfg ≡ false
unfolding auth_enabled to_lower trim_space text_eq trim_right trim_left is_space snoc_space lower
payload_disabled cfg e = rw e refl

check_auth_config-IsGuarded :
    (cfg cfg' : AuthConfig)
    → check_auth_config cfg ≡ answered cfg'
    → auth_enabled cfg' ≡ true
    → IsGuarded cfg'
unfolding check_auth_config
check_auth_config-IsGuarded cfg cfg' h on = elim (Bool-cases (text_eq cfg.mode auth_mode_payload)) [
  | inl payload ↦
      let same : cfg ≡ cfg' = answered_inj (rw payload at h) in
      let off = payload_disabled cfg (eq_of_text_eq _ _ payload) in
      absurd (let g = rw same at off in cc)
  | inr other ↦ elim (Bool-cases (text_eq cfg.mode auth_mode_trusted_headers)) [
    | inl trusted ↦
        let (same, guarded) = headers-IsGuarded cfg cfg' (rw (other, trusted) at h) in
        subst IsGuarded same guarded
    | inr unknown ↦ absurd (let g = rw (other, unknown) at h in cc)
  ]
]

-- What comes of a call where authentication is on.
abbrev pub Admits :
    {W A : Type 0} → AuthConfig → (Context → W → Reply A × W) → Context → W → Reply A × W → Type 0
Admits cfg handler ctx w r =
    ((s : Status) × (s.code ≡ unauthenticated) × (r ≡ (rejected s, w)))
    ⊎ ((principal : Principal) × IsAuthentic cfg ctx principal
        × (r ≡ handler (record ctx { principal = some principal }) w))

authenticate_status :
    (cfg : AuthConfig) (md : Text → List Text) (s : Status)
    → authenticate cfg md ≡ rejected s
    → s.code ≡ unauthenticated
unfolding authenticate
authenticate_status cfg md s h = ground arith

authenticate_from_metadata_status :
    (cfg : AuthConfig) (ctx : Context) (s : Status)
    → authenticate_from_metadata ctx cfg ≡ rejected s
    → s.code ≡ unauthenticated
unfolding authenticate_from_metadata
authenticate_from_metadata_status cfg ctx s h = elim (Option-cases ctx.metadata) [
  | inl lacks ↦ ground arith
  | inr (md, e) ↦ authenticate_status cfg md s (rw e at h)
]

module _ {W A : Type 0} (cfg : AuthConfig) (handler : Context → W → Reply A × W) (ctx : Context)
    (w : W) where
  as_principal-Admits :
      (r : Reply Principal)
      → authenticate_from_metadata ctx cfg ≡ r
      → Admits cfg handler ctx w (as_principal ctx handler w r)
  unfolding as_principal
  as_principal-Admits (rejected s) e = inl (s, authenticate_from_metadata_status cfg ctx s e, refl)
  as_principal-Admits (replied principal) e =
      inr (principal, authenticate_from_metadata-IsAuthentic cfg ctx principal e, refl)

  -- Where the configuration that the environment gives turns authentication on, it asks for a
  -- shared token that is not blank; and a call is then rejected as unauthenticated with nothing
  -- changed, or its metadata carries that token, a tenant and an actor, and the handler runs with
  -- the principal of that tenant and actor in its context.
  pub unary_auth_interceptor-Admits :
      (getenv : Text → Text)
      → auth_config_from_env getenv ≡ answered cfg
      → auth_enabled cfg ≡ true
      → IsGuarded cfg × Admits cfg handler ctx w (unary_auth_interceptor cfg handler ctx w)
  unfolding unary_auth_interceptor auth_config_from_env
  unary_auth_interceptor-Admits getenv given on = (
    check_auth_config-IsGuarded _ cfg given on,
    subst
        (λ b. Admits cfg handler ctx w (
          if not b
          then handler ctx w
          else as_principal ctx handler w (authenticate_from_metadata ctx cfg)))
        (sym on) (as_principal-Admits (authenticate_from_metadata ctx cfg) refl),
  )
