-- ===== src/Grpc/Ownership.antt =====
-- internal/grpcapi/server.go over internal/adapters/workspace/local_manager.go: whose a new session is.
use underpass_runtime.Base.{
  ℕ, ◌+◌, ◌*◌, ◌≤◌, ◌≡◌, refl, sym, ap, ◌∙◌, ◌↔◌, subst, inl, inr, true, false, Option, none, some,
  List, ◌∷◌, is_empty, ltb, ◌==◌, zero, suc, Bool-cases, arith, if◌then◌else◌,
}
use underpass_runtime.Text.{Text, trim_space}
use underpass_runtime.Text.Laws.{text_eq_refl, text_eq_of_eq}
use underpass_runtime.Domain.{Session, Principal, Message}
use underpass_runtime.Service.Errors.{Served, served, refused_by}
use underpass_runtime.Service.Ports.{
  answered, CreateSessionRequest, Ports, World, Effect, published, session_created,
  kpi_session_created, prewarmed,
}
use underpass_runtime.Service.Reports.{emit, domain_event}
use underpass_runtime.Service.Access.{
  same_principal_identity, check_owner, validate_session_access, IsSame,
  same_principal_identity-IsSame,
}
use underpass_runtime.Service.Sessions.{with_lifetime, report_created, served_by_manager}
use underpass_runtime.Workspace.Local.{
  Files, LocalManager, session_in, add_session, fill_session, make_session, session_id_or,
  workspace_root,
}
use underpass_runtime.Workspace.Local
use underpass_runtime.Workspace.Sessions.{create_session-IsCreated}
use underpass_runtime.Grpc.Auth.{Reply, replied, Context}
use underpass_runtime.Grpc.Server

-- The ports, with the local manager as the workspace, at a time.
abbrev pub with_manager : {S : Type 0} → Ports S → Files → LocalManager → Text → ℕ → Ports S
with_manager p files m new_id now = record p {
  create_session = λ req. (Local.create_session files m req new_id now).0;
  get_session = λ id. answered (Local.get_session files m id now).0;
}

-- What a creation adds to the effects, the newest first.
abbrev pub creation_effects :
    {S : Type 0} → Ports S → Principal → Session → List Effect → List Effect
creation_effects p principal s effects =
    let event = published (record {
      session_id = s.id;
      tenant_id = principal.tenant_id;
      actor_id = principal.actor_id;
      payload = session_created s.runtime.kind s.repo_url s.repo_ref s.expires_at s.workspace_path;
    }) in
    prewarmed s.id
    ∷ (if p.kpi_enabled then kpi_session_created ∷ event ∷ effects else event ∷ effects)

abbrev pub lifetime_or_hour : ℕ → ℕ
lifetime_or_hour zero = 3600
lifetime_or_hour (suc n) = suc n

-- The session of a principal: the check of access at a later time admits exactly the callers with
-- the principal's identity, until the session expires; it expires as the request wants, or after
-- an hour; and its creation is the one event, and counts, of the call.
pub record IsOwned {S : Type 0} (p : Ports S) (files : Files) (m' : LocalManager) (new_id : Text)
    (req : CreateSessionRequest) (principal : Principal) (now : ℕ) (w : World S) (s : Session)
    (w' : World S) : Type 0 where
  pub opens :
      (later : ℕ) (ctx : Context) (other : Principal)
      → (Server.validate_session_auth
            (with_manager p files m' new_id later)
            (record ctx { principal = some other })
            s.id
          ≡ none)
        ↔ ((later ≤ s.expires_at) × IsSame principal other)
  pub expires : s.expires_at ≡ now + lifetime_or_hour req.expires_in_second * 1000000000
  pub effects : w'.effects ≡ creation_effects p principal s w.effects

answered_inj : {A : Type 0} {a b : A} → answered a ≡ answered b → a ≡ b
answered_inj h = cc

filled_session :
    (m : LocalManager) (req : CreateSessionRequest) (s t : Session) (root : Text)
    (failure : Option Message)
    → (fill_session m req s root failure).0 ≡ answered t
    → s ≡ t
unfolding fill_session add_session
filled_session m req s t root (some message) h = absurd (cc)
filled_session m req s t root none h = answered_inj h

made_session :
    (files : Files) (m : LocalManager) (req : CreateSessionRequest) (s t : Session) (root : Text)
    (failure : Option Message)
    → (make_session files m req s root failure).0 ≡ answered t
    → s ≡ t
unfolding make_session
made_session files m req s t root (some message) h = absurd (cc)
made_session files m req s t root none h = filled_session m req s t root _ h

created_expiry :
    (files : Files) (m : LocalManager) (req : CreateSessionRequest) (new_id : Text) (now : ℕ)
    (s : Session)
    → (Local.create_session files m req new_id now).0 ≡ answered s
    → s.expires_at ≡ now + req.expires_in_second * 1000000000
unfolding Local.create_session session_in
created_expiry files m req new_id now s h =
    let same = made_session files m req _ s _ _ h in sym (ap (λ (t : Session). t.expires_at) same)

lifetime_lem :
    (req : CreateSessionRequest)
    → (with_lifetime req).expires_in_second ≡ lifetime_or_hour req.expires_in_second
unfolding with_lifetime
lifetime_lem req = of req.expires_in_second
  where
    of : (n : ℕ) → (if n == 0 then 3600 else n) ≡ lifetime_or_hour n
    of zero = refl
    of (suc n) = ground arith

report_created-effects :
    {S : Type 0} (p : Ports S) (w : World S) (s : Session)
    → (report_created p w s).effects ≡ creation_effects p s.principal s w.effects
unfolding report_created emit domain_event
report_created-effects p w s = elim (Bool-cases p.kpi_enabled) [
  | inl e ↦ rw e refl
  | inr e ↦ rw e refl
]

IsSame-same_principal_identity : (a b : Principal) → IsSame a b → same_principal_identity a b ≡ true
unfolding same_principal_identity
IsSame-same_principal_identity a b same =
    rw (text_eq_of_eq _ _ same.tenant, text_eq_of_eq _ _ same.actor) refl

check_owner_iff :
    (s : Session) (other : Principal)
    → (Server.as_status (check_owner other (answered (some s))) ≡ none) ↔ IsSame s.principal other
unfolding check_owner Server.as_status
check_owner_iff s other = elim (Bool-cases (same_principal_identity s.principal other)) [
  | inl e ↦ rw e (λ h. same_principal_identity-IsSame _ _ e, λ h. refl)
  | inr e ↦
      rw e (λ h. absurd (cc), λ h. let g = IsSame-same_principal_identity _ _ h in absurd (cc))
]

within : (a b : ℕ) → ltb b a ≡ false → a ≤ b
within a b h = ground arith

behind : (a b : ℕ) → ltb b a ≡ true → a ≤ b → ⊥
behind a b h k = ground arith

validate_session_auth_iff :
    {S : Type 0} (p : Ports S) (ctx : Context) (other : Principal) (s : Session) (later : ℕ)
    → trim_space s.id ≡ s.id
    → is_empty s.id ≡ false
    → p.get_session s.id ≡ answered (if ltb s.expires_at later then none else some s)
    → (Server.validate_session_auth p (record ctx { principal = some other }) s.id ≡ none)
      ↔ ((later ≤ s.expires_at) × IsSame s.principal other)
unfolding Server.validate_session_auth validate_session_access
validate_session_auth_iff p ctx other s later trimmed filled got =
    elim (Bool-cases (ltb s.expires_at later)) [
      | inl e ↦
          rw (trimmed, filled, got, e)
            (λ h. absurd (missing h), λ (k, same). absurd (behind later s.expires_at e k))
      | inr e ↦
          let (to, from) = check_owner_iff s other in
          rw (trimmed, filled, got, e)
            (λ h. (within later s.expires_at e, to h), λ (k, same). from same)
    ]
  where
    missing : Server.as_status (check_owner other (answered none)) ≡ none → ⊥
    missing h = unfold Server.as_status check_owner in cc

replied_of :
    {S : Type 0} (r : Served Session × World S) (s : Session) (w' : World S)
    → ◌≡◌ {A = Reply Session × World S} (Server.reply_of r.0, r.1) (replied s, w')
    → ◌≡◌ {A = Served Session × World S} r (served s, w')
unfolding Server.reply_of
replied_of (served t, u) s w' h = let a : t ≡ s = cc in let b : u ≡ w' = cc in rw (a, b) refl
replied_of (refused_by err, u) s w' h = absurd (cc)

-- When CreateSession answers an authenticated principal with a session, over a local workspace
-- manager, and the session's id is not empty and has no space around it: whatever the manager held,
-- the check of access that guards the other handlers passes for the session exactly until the
-- session expires, and exactly for callers with the tenant and the actor of that principal (up to
-- surrounding space), whatever principal the request names; the session expires after the
-- requested number of seconds, or after an hour where that is not positive; and the call publishes
-- one event, that the session was created, under the principal's tenant and actor, counts one
-- created session if the counts are on, prewarms the session, and has no other effect.
pub create_session-IsOwned :
    {S : Type 0} (p : Ports S) (files : Files) (m : LocalManager) (new_id : Text) (now : ℕ)
    (ctx : Context) (req : CreateSessionRequest) (principal : Principal) (w w' : World S)
    (s : Session)
    → ctx.principal ≡ some principal
    → trim_space s.id ≡ s.id
    → is_empty s.id ≡ false
    → Server.create_session (with_manager p files m new_id now) ctx req w ≡ (replied s, w')
    → IsOwned p files
        (Local.create_session files m
          (with_lifetime (record req { principal = principal }))
          new_id
          now).1
        new_id
        req
        principal
        now
        w
        s
        w'
unfolding Server.create_session Server.with_principal
create_session-IsOwned {S = S} p files m new_id now ctx req principal w w' s auth trimmed filled h =
    let asked = record req { principal = principal } in
    let ports = with_manager p files m new_id now in
    let (made, reported) =
      served_by_manager ports asked w w' s (replied_of _ s w' (rw auth at h)) in
    let kept = create_session-IsCreated files m (with_lifetime asked) new_id now s made in
    let mine : s.principal ≡ principal = kept.principal ∙ principal_lem asked in
    record {
      opens = λ later c other.
          subst
            (λ (o : Principal).
              (Server.validate_session_auth
                  (with_manager p files
                    (Local.create_session files m (with_lifetime asked) new_id now).1 new_id later)
                  (record c { principal = some other }) s.id
                ≡ none)
              ↔ ((later ≤ s.expires_at) × IsSame o other))
            mine
            (validate_session_auth_iff _ c other s later trimmed filled
              (ap (λ x. answered x) (kept.answers s.id later ∙ rw (text_eq_refl s.id) refl)));
      expires =
          created_expiry files m (with_lifetime asked) new_id now s made
          ∙ ap (λ n. now + n * 1000000000) (lifetime_lem asked);
      effects =
          ap (λ (u : World S). u.effects) reported
          ∙ report_created-effects ports w s
          ∙ ap (λ o. creation_effects p o s w.effects) mine;
    }
  where
    principal_lem : (r : CreateSessionRequest) → (with_lifetime r).principal ≡ r.principal
    principal_lem r = unfold with_lifetime in refl
