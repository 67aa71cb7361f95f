-- ===== src/Service/Reports.antt =====
-- internal/app/service.go: what an invocation reports (audit, events, telemetry, KPIs), and how it is
-- stored and ends with an error.
use underpass_runtime.Base.{
  ℕ, ◌+◌, ◌-◌, ◌/◌, String, Bool, true, false, not, ◌&&◌, Option, none, some, List, [], ◌∷◌, ◌==◌,
  length, str_eq, if◌then◌else◌,
}
use underpass_runtime.Text.{Text, member}
use underpass_runtime.TextMap.{get_or, put}
use underpass_runtime.Json.{pos, Json}
use underpass_runtime.Domain.{
  Session, Message, plain, Invocation, Status, succeeded, failed, denied, Error, LogLine,
}
use underpass_runtime.Service.Errors.{ServiceError, internal_error}
use underpass_runtime.Service.Quota.{ToolRunResult, ArtifactPayload}
use underpass_runtime.Service.Ports.{
  Answer, answered, failed_with, Ports, Call, AuditEvent, Payload, invocation_denied,
  invocation_completed, DomainEvent, TelemetryRecord, Effect, stored, audited, published, recorded,
  learned_from, kpi_denied, kpi_tool_call, kpi_first_result, World,
}

unfoldable pub emit : {S : Type 0} → World S → Effect → World S
emit w e = record w { effects = e ∷ w.effects }

unfoldable pub audit_event_from_invocation : Session → Invocation → AuditEvent
audit_event_from_invocation session inv = record {
  session_id = session.id;
  tool_name = inv.tool_name;
  invocation_id = inv.id;
  correlation_id = inv.correlation_id;
  status = inv.status;
  actor_id = session.principal.actor_id;
  tenant_id = session.principal.tenant_id;
  metadata = session.metadata;
}

unfoldable pub domain_event : Session → Payload → DomainEvent
domain_event session payload = record {
  session_id = session.id;
  tenant_id = session.principal.tenant_id;
  actor_id = session.principal.actor_id;
  payload = payload;
}

unfoldable pub marshalled_size : (Json → Option Text) → Option Json → ℕ
marshalled_size marshal none = 0
marshalled_size marshal (some output) = elim (marshal output) [ none ↦ 0 | some t ↦ length t ]

-- the bytes of the log lines whose messages are given
unfoldable pub logs_bytes : List LogLine → ℕ
logs_bytes [] = 0
logs_bytes (line ∷ rest) = length line.message + logs_bytes rest

unfoldable pub payload_bytes : List ArtifactPayload → ℕ
payload_bytes [] = 0
payload_bytes (a ∷ rest) = length a.payload + payload_bytes rest

-- the text before the first dot, if there is a dot and text before it
unfoldable pub before_dot : Text → Option Text
before_dot [] = none
before_dot (c ∷ t) = elim (c == b'.') [
  | true ↦ some []
  | false ↦ elim (before_dot t) [ none ↦ none | some u ↦ some (c ∷ u) ]
]

unfoldable pub tool_family : Text → Text
tool_family name = elim (before_dot name) [ none ↦ [] | some family ↦ family ]

unfoldable pub is_denied : Status → Bool
is_denied denied = true
is_denied _ = false

unfoldable pub is_succeeded : Status → Bool
is_succeeded succeeded = true
is_succeeded _ = false

unfoldable pub is_executed : Status → Bool
is_executed succeeded = true
is_executed failed = true
is_executed _ = false

unfoldable pub error_code_of : Option Error → String
error_code_of none = ""
error_code_of (some err) = err.code

unfoldable pub telemetry_record :
    {S : Type 0} → Ports S → Session → Invocation → ToolRunResult → TelemetryRecord
telemetry_record p session inv result = record {
  invocation_id = inv.id;
  session_id = session.id;
  tool_name = inv.tool_name;
  tool_family = tool_family inv.tool_name;
  runtime_kind = session.runtime.kind;
  tenant_id = session.principal.tenant_id;
  approved = not (is_denied inv.status);
  status = inv.status;
  error_code = error_code_of inv.error;
  duration_ms = inv.duration_ms;
  output_bytes = marshalled_size p.marshal inv.output;
  logs_bytes = logs_bytes inv.logs;
  artifact_count = length inv.artifacts;
  artifact_bytes = payload_bytes result.artifacts;
}

-- only executed invocations teach the bandit, and only where a policy is known
unfoldable pub update_online_bandit :
    {S : Type 0} → Ports S → World S → Session → Invocation → World S
update_online_bandit p w session inv =
    if is_executed inv.status && p.learned session inv.tool_name
    then emit w (learned_from inv.tool_name (is_succeeded inv.status))
    else w

unfoldable pub record_telemetry :
    {S : Type 0} → Ports S → World S → Session → Invocation → ToolRunResult → World S
record_telemetry p w session inv result =
    update_online_bandit p (emit w (recorded (telemetry_record p session inv result))) session inv

unfoldable pub publish_invocation_completed :
    {S : Type 0} → Ports S → World S → Session → Invocation → World S
publish_invocation_completed p w session inv = emit w (
    published (
      domain_event session (
        invocation_completed inv.id inv.tool_name inv.correlation_id inv.status inv.exit_code
          inv.duration_ms (marshalled_size p.marshal inv.output) (length inv.artifacts))))

unfoldable pub was_recommended : {S : Type 0} → World S → Text → Text → Bool
was_recommended w session_id tool_name = member tool_name (get_or w.session_last_rec session_id [])

-- the error, if the store refuses
unfoldable pub after_save :
    {S : Type 0} → World S → Invocation → Answer S → Option ServiceError × World S
after_save w inv (answered s) = (none, record w { store = s; effects = stored inv ∷ w.effects })
after_save w inv (failed_with message) = (some (internal_error message), w)

unfoldable pub store_invocation :
    {S : Type 0} → Ports S → World S → Invocation → Option ServiceError × World S
store_invocation p w inv = after_save w inv (p.save w.store inv)

unfoldable pub milliseconds : ℕ → ℕ → ℕ
milliseconds started ended = (ended - started) / 1000000

unfoldable pub finish_status : Status → Status
finish_status denied = denied
finish_status _ = failed

unfoldable pub finish_with_error : Call → Invocation → Error → Invocation
finish_with_error call inv err = record inv {
  status = finish_status inv.status;
  completed_at = some call.ended_at;
  duration_ms = milliseconds call.started_at call.ended_at;
  error = some err;
}

-- the code, or the message where the code is empty
unfoldable pub denial_reason : Error → Message
denial_reason err = if str_eq err.code "" then err.message else plain err.code

unfoldable pub observe_denial :
    {S : Type 0} → Ports S → World S → Session → Invocation → Error → World S
observe_denial p w session inv err =
    if p.kpi_enabled
    then emit w (kpi_denied (denial_reason err) (was_recommended w session.id inv.tool_name))
    else w

unfoldable pub deny_invocation :
    {S : Type 0} → Ports S → Call → Session → World S → Invocation → Error → Invocation × World S
deny_invocation p call session w inv err =
    let inv' = finish_with_error call (record inv { status = denied }) err in
    let w1 = (store_invocation p w inv').1 in
    let w2 = emit w1 (audited (audit_event_from_invocation session inv')) in
    let w3 =
      record_telemetry p w2 session inv'
        (record { output = none; logs = []; artifacts = []; exit_code = pos 0 }) in
    let w4 = emit w3 (
      published (
        domain_event session
          (invocation_denied inv'.id inv'.tool_name inv'.correlation_id err.message))) in
    (inv', observe_denial p w4 session inv' err)

-- the three failure branches of completeToolInvocation, up to what they return
unfoldable pub fail_invocation :
    {S : Type 0}
    → Ports S
    → Call
    → Session
    → World S
    → Invocation
    → Error
    → ToolRunResult
    → Invocation × World S
fail_invocation p call session w inv err result =
    let inv' = finish_with_error call inv err in
    let w1 = (store_invocation p w inv').1 in
    let w2 = emit w1 (audited (audit_event_from_invocation session inv')) in
    let w3 = publish_invocation_completed p w2 session inv' in
    (inv', record_telemetry p w3 session inv' result)

-- an invocation of a session that succeeded: the first one is observed as such
unfoldable pub count_tool_call : {S : Type 0} → World S → Text → Bool → World S
count_tool_call w session_id ok =
    let n = get_or w.session_inv_count session_id 0 + 1 in
    let w1 = record w { session_inv_count = put w.session_inv_count session_id n } in
    if n == 1 then emit w1 (kpi_first_result ok) else w1

unfoldable pub observe_tool_kpis : {S : Type 0} → Ports S → World S → Text → Text → Bool → World S
observe_tool_kpis p w session_id tool_name ok =
    if p.kpi_enabled
    then count_tool_call (emit w (kpi_tool_call tool_name (was_recommended w session_id tool_name)))
        session_id ok
    else w
