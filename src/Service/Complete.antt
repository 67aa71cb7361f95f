-- ===== src/Service/Complete.antt =====
-- internal/app/service.go: completeToolInvocation, and InvokeTool as a whole.
use underpass_runtime.Base.{String, true, Option, none, some, [], is_empty, if◌then◌else◌}
use underpass_runtime.Text.{Text, trim_space}
use underpass_runtime.Domain.{
  Session, Capability, Message, plain, Invocation, running, succeeded, Error,
}
use underpass_runtime.Json.{pos}
use underpass_runtime.Service.Errors.{
  ServiceError, not_found_error, internal_error, policy_denied_error, is_policy_denied_code,
  run_service_error,
}
use underpass_runtime.Service.Quota.{Slot, ToolRunResult, allow_run_result, release}
use underpass_runtime.Service.Schema.{validate_output_against_schema}
use underpass_runtime.Service.Ports.{
  Answer, answered, failed_with, Ports, Call, invocation_started, audited, published, ran, measured,
  World,
}
use underpass_runtime.Service.Reports.{
  emit, audit_event_from_invocation, domain_event, store_invocation, milliseconds, deny_invocation,
  fail_invocation, publish_invocation_completed, record_telemetry, observe_tool_kpis, is_succeeded,
}
use underpass_runtime.Service.Invoke.{
  Outcome, Saved, Authorized, refused, granted, deny_error, internal_failure, persist_run_artifacts,
  authorize_tool_invocation,
}

-- What the completion of one run knows: toolCompletionContext, with the request's clock.
pub record Run (S : Type 0) : Type 0 where
  pub ports : Ports S
  pub call : Call
  pub session : Session
  pub capability : Capability
  pub result : ToolRunResult

-- an invocation and error that end the call
unfoldable pub finish : {S : Type 0} → Invocation × World S → ServiceError → Outcome S
finish (inv, w) err = record { invocation = some inv; error = some err; world = w }

unfoldable pub succeed_invocation : Call → Invocation → Invocation
succeed_invocation call inv = record inv {
  status = succeeded;
  completed_at = some call.ended_at;
  duration_ms = milliseconds call.started_at call.ended_at;
}

unfoldable pub report_success :
    {S : Type 0} → Run S → Invocation → Option ServiceError × World S → Outcome S
report_success r inv (some err, w) = record { invocation = some inv; error = some err; world = w }
report_success r inv (none, w) =
    let w1 = emit w (audited (audit_event_from_invocation r.session inv)) in
    let w2 = publish_invocation_completed r.ports w1 r.session inv in
    let w3 = record_telemetry r.ports w2 r.session inv r.result in
    record {
      invocation = some inv;
      error = none;
      world = observe_tool_kpis r.ports w3 r.session.id inv.tool_name (is_succeeded inv.status);
    }

unfoldable pub complete_success : {S : Type 0} → Run S → World S → Invocation → Outcome S
complete_success r w inv =
    let inv' = succeed_invocation r.call inv in
    report_success r inv' (store_invocation r.ports w inv')

unfoldable pub fail_internal : {S : Type 0} → Run S → World S → Invocation → Message → Outcome S
fail_internal r w inv message =
    finish (fail_invocation r.ports r.call r.session w inv (internal_failure message) r.result)
      (internal_error message)

-- the tool reported an error
unfoldable pub complete_error : {S : Type 0} → Run S → World S → Invocation → Error → Outcome S
complete_error r w inv err =
    if is_policy_denied_code err.code
    then finish (deny_invocation r.ports r.call r.session w inv err)
        (policy_denied_error err.code err.message)
    else finish (fail_invocation r.ports r.call r.session w inv err r.result)
        (run_service_error r.ports.timed_out err)

unfoldable pub check_schema :
    {S : Type 0} → Run S → World S → Invocation → Option Message → Outcome S
check_schema r w inv none = complete_success r w inv
check_schema r w inv (some message) = fail_internal r w inv message

unfoldable pub check_artifacts :
    {S : Type 0} → Run S → World S → Invocation → Answer Saved → Outcome S
check_artifacts r w inv (failed_with message) = fail_internal r w inv message
check_artifacts r w inv (answered saved) = check_schema r w inv (
    validate_output_against_schema r.ports.decode_schema r.capability.output_schema r.result.output)

-- artifacts that could be saved are noted, whatever the run's end
unfoldable pub with_artifacts : Invocation → Answer Saved → Invocation
with_artifacts inv (failed_with message) = inv
with_artifacts inv (answered saved) = record inv {
  artifacts = saved.artifacts;
  output_ref = saved.output_ref;
  logs_ref = saved.logs_ref;
}

unfoldable pub complete_tool_invocation :
    {S : Type 0} → Run S → World S → Invocation → Option Error → Outcome S
complete_tool_invocation r w inv run_err =
    let saved = persist_run_artifacts r.ports inv.id r.result in
    let inv' = with_artifacts inv saved in
    elim run_err [ none ↦ check_artifacts r w inv' saved | some err ↦ complete_error r w inv' err ]

unfoldable pub with_result : Invocation → ToolRunResult → Invocation
with_result inv result = record inv {
  output = result.output;
  logs = result.logs;
  exit_code = result.exit_code;
}

unfoldable pub deny_result : {S : Type 0} → Run S → World S → Invocation → String → Outcome S
deny_result r w inv reason =
    finish (deny_invocation r.ports r.call r.session w inv (deny_error (plain reason) true))
      (policy_denied_error "policy_denied" (plain reason))

-- a run that reports an error is not checked against the quotas
unfoldable pub after_run : {S : Type 0} → Run S → World S → Invocation → Option Error → Outcome S
after_run r w inv (some err) = complete_tool_invocation r w (with_result inv r.result) (some err)
after_run r w inv none = elim (allow_run_result r.ports.marshal w.quotas r.result) [
  | some reason ↦ deny_result r w inv reason
  | none ↦ complete_tool_invocation r w (with_result inv r.result) none
]

unfoldable pub run_tool :
    {S : Type 0} → Ports S → Call → Session → Capability → World S → Invocation → Outcome S
run_tool p call session capability w inv =
    let (result, run_err) = p.run_tool session capability call.args in
    after_run
      (record {
        ports = p;
        call = call;
        session = session;
        capability = capability;
        result = result;
      })
      (emit w (ran session.id capability.name)) inv run_err

-- the deferred calls: the slot is released, then the metrics are taken
unfoldable pub measure_as : {S : Type 0} → Option Invocation → Outcome S → Outcome S
measure_as none o = o
measure_as (some inv) o = record o { world = emit o.world (measured inv) }

unfoldable pub measure : {S : Type 0} → Outcome S → Outcome S
measure o = measure_as o.invocation o

unfoldable pub release_slot : {S : Type 0} → Slot → Outcome S → Outcome S
release_slot slot o = record o { world = record (o.world) { quotas = release o.world.quotas slot } }

unfoldable pub run_authorized :
    {S : Type 0} → Ports S → Call → Session → Capability → Invocation → Authorized S → Outcome S
run_authorized p call session capability inv (refused inv' err w) = measure (finish (inv', w) err)
run_authorized p call session capability inv (granted slot w) =
    measure (release_slot slot (run_tool p call session capability w inv))

unfoldable pub new_invocation : Call → Capability → Invocation
new_invocation call capability = record {
  id = call.invocation_id;
  session_id = call.session_id;
  tool_name = call.tool_name;
  correlation_id = trim_space call.correlation_id;
  status = running;
  started_at = call.started_at;
  completed_at = none;
  duration_ms = 0;
  trace_name = capability.trace_name;
  span_name = capability.span_name;
  exit_code = pos 0;
  output = none;
  output_ref = [];
  logs = [];
  logs_ref = [];
  artifacts = [];
  error = none;
}

unfoldable pub start_stored :
    {S : Type 0}
    → Ports S
    → Call
    → Session
    → Capability
    → Invocation
    → Option ServiceError × World S
    → Outcome S
start_stored p call session capability inv (some err, w) = record {
  invocation = some inv;
  error = some err;
  world = w;
}
start_stored p call session capability inv (none, w) =
    let w1 = emit w (
      published
        (domain_event session (invocation_started inv.id inv.tool_name inv.correlation_id))) in
    run_authorized p call session capability inv
      (authorize_tool_invocation p call session capability w1 inv)

unfoldable pub start_invocation :
    {S : Type 0} → Ports S → Call → Session → Capability → World S → Outcome S
start_invocation p call session capability w =
    let inv = new_invocation call capability in
    start_stored p call session capability inv (store_invocation p w inv)

-- What validateToolRequest finds.
pub data Request : Type 0 where
  rejected : ServiceError → Request
  existing : Invocation → Request
  fresh : Session → Capability → Request

unfoldable pub check_existing : Session → Capability → Answer (Option Invocation) → Request
check_existing session capability (failed_with message) = rejected (internal_error message)
check_existing session capability (answered (some inv)) = existing inv
check_existing session capability (answered none) = fresh session capability

-- findInvocationByCorrelation: nothing is found in a store that is no CorrelationFinder
unfoldable pub find_invocation_by_correlation :
    {S : Type 0} → Ports S → S → Text → Text → Text → Answer (Option Invocation)
find_invocation_by_correlation p store session_id tool_name correlation_id = elim p.find [
  | none ↦ answered none
  | some find ↦ find store session_id tool_name correlation_id
]

unfoldable pub check_correlation :
    {S : Type 0} → Ports S → Call → World S → Session → Capability → Request
check_correlation p call w session capability =
    if is_empty (trim_space call.correlation_id)
    then fresh session capability
    else check_existing session capability (
        find_invocation_by_correlation p w.store call.session_id call.tool_name
          (trim_space call.correlation_id))

unfoldable pub check_tool :
    {S : Type 0} → Ports S → Call → World S → Session → Option Capability → Request
check_tool p call w session none = rejected (not_found_error (plain "tool not found"))
check_tool p call w session (some capability) = check_correlation p call w session capability

unfoldable pub check_session :
    {S : Type 0} → Ports S → Call → World S → Answer (Option Session) → Request
check_session p call w (failed_with message) = rejected (internal_error message)
check_session p call w (answered none) = rejected (not_found_error (plain "session not found"))
check_session p call w (answered (some session)) =
    check_tool p call w session (p.get_tool call.tool_name)

unfoldable pub validate_tool_request : {S : Type 0} → Ports S → Call → World S → Request
validate_tool_request p call w = check_session p call w (p.get_session call.session_id)

unfoldable pub invoke_request : {S : Type 0} → Ports S → Call → World S → Request → Outcome S
invoke_request p call w (rejected err) = record { invocation = none; error = some err; world = w }
invoke_request p call w (existing inv) = record { invocation = some inv; error = none; world = w }
invoke_request p call w (fresh session capability) = start_invocation p call session capability w

unfoldable pub invoke_tool : {S : Type 0} → Ports S → Call → World S → Outcome S
invoke_tool p call w = invoke_request p call w (validate_tool_request p call w)
