-- ===== src/Service/Sessions.antt =====
-- internal/app/service.go: CreateSession and CloseSession.
use underpass_runtime.Base.{
  ℕ, ◌-◌, ◌/◌, ◌≡◌, sym, ap, ◌∙◌, Option, none, some, is_empty, Bool-cases, inl, inr, if◌then◌else◌,
  ◌==◌,
}
use underpass_runtime.Text.{Text}
use underpass_runtime.Domain.{Session, Message, plain}
use underpass_runtime.Service.Errors.{
  ServiceError, Served, served, refused_by, invalid_argument_error, internal_error,
}
use underpass_runtime.Service.Ports.{
  Answer, answered, failed_with, CreateSessionRequest, Ports, World, published, session_created,
  session_closed, kpi_session_created, kpi_session_closed, prewarmed, evicted,
}
use underpass_runtime.Service.Reports.{emit, domain_event}

-- an hour, where the request has no positive lifetime
unfoldable pub with_lifetime : CreateSessionRequest → CreateSessionRequest
with_lifetime req = record req {
  expires_in_second = if req.expires_in_second == 0 then 3600 else req.expires_in_second;
}

unfoldable pub report_created : {S : Type 0} → Ports S → World S → Session → World S
report_created p w session =
    let w1 = emit w (
      published (
        domain_event session (
          session_created session.runtime.kind session.repo_url session.repo_ref session.expires_at
            session.workspace_path))) in
    let w2 = if p.kpi_enabled then emit w1 kpi_session_created else w1 in
    emit w2 (prewarmed session.id)

unfoldable pub after_create :
    {S : Type 0} → Ports S → World S → Answer Session → Served Session × World S
after_create p w (failed_with message) = (refused_by (internal_error message), w)
after_create p w (answered session) = (served session, report_created p w session)

unfoldable pub create_session :
    {S : Type 0} → Ports S → CreateSessionRequest → World S → Served Session × World S
create_session p req w =
    if is_empty req.principal.tenant_id
    then (refused_by (invalid_argument_error (plain "principal.tenant_id is required")), w)
    else if is_empty req.principal.actor_id
    then (refused_by (invalid_argument_error (plain "principal.actor_id is required")), w)
    else after_create p w (p.create_session (with_lifetime req))

-- the session, where the manager has it: an error of GetSession is passed over
unfoldable pub found_session : Answer (Option Session) → Option Session
found_session (failed_with message) = none
found_session (answered s) = s

unfoldable pub report_closed : {S : Type 0} → ℕ → World S → Option Session → World S
report_closed now w none = w
report_closed now w (some session) = emit w (
    published (
      domain_event session
        (session_closed session.runtime.kind ((now - session.created_at) / 1000000000))))

unfoldable pub after_close :
    {S : Type 0}
    → Ports S
    → ℕ
    → Text
    → World S
    → Option Session
    → Option Message
    → Option ServiceError × World S
after_close p now session_id w session (some message) = (some (internal_error message), w)
after_close p now session_id w session none =
    let w1 = report_closed now w session in
    let w2 = if p.kpi_enabled then emit w1 kpi_session_closed else w1 in
    (none, emit w2 (evicted session_id))

unfoldable pub close_session :
    {S : Type 0} → Ports S → ℕ → Text → World S → Option ServiceError × World S
close_session p now session_id w =
    if is_empty session_id
    then (some (invalid_argument_error (plain "session_id is required")), w)
    else after_close p now session_id w (found_session (p.get_session session_id))
        (p.close_session session_id)

answered_of :
    {S : Type 0} (p : Ports S) (w w' : World S) (a : Answer Session) (session : Session)
    → after_create p w a ≡ (served session, w')
    → (a ≡ answered session) × (w' ≡ report_created p w session)
unfolding after_create
answered_of p w w' (failed_with message) session h = absurd (cc)
answered_of p w w' (answered s) session h =
    let same : s ≡ session = cc in
    let left : report_created p w s ≡ w' = cc in
    (ap (λ t. answered t) same, sym left ∙ ap (report_created p w) same)

-- A session that is served is one that the workspace manager made.
pub served_by_manager :
    {S : Type 0} (p : Ports S) (req : CreateSessionRequest) (w w' : World S) (session : Session)
    → create_session p req w ≡ (served session, w')
    → (p.create_session (with_lifetime req) ≡ answered session) × (w' ≡ report_created p w session)
unfolding create_session
served_by_manager p req w w' session h = elim (Bool-cases (is_empty req.principal.tenant_id)) [
  | inl e ↦ absurd (let g = rw e at h in cc)
  | inr t ↦ elim (Bool-cases (is_empty req.principal.actor_id)) [
    | inl e ↦ absurd (let g = rw (t, e) at h in cc)
    | inr a ↦ answered_of p w w' _ session (rw (t, a) at h)
  ]
]
