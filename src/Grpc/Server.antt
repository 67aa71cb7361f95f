-- ===== src/Grpc/Server.antt =====
-- internal/grpcapi/server.go: the handlers over the service, and serviceErrorToStatus of convert.go.
-- Requests and results are those of the service: their conversion to the messages of the protocol is
-- not modelled.
use underpass_runtime.Base.{
  ℕ, Bool, true, Option, none, some, List, is_empty, str_eq, ◌||◌, if◌then◌else◌,
}
use underpass_runtime.Text.{Text}
use underpass_runtime.Domain.{Session, Capability, Invocation, Artifact, LogLine}
use underpass_runtime.Service.Errors.{
  ServiceError, Served, served, refused_by, is_policy_denied_code,
}
use underpass_runtime.Service.Ports.{CreateSessionRequest, Ports, Call, World}
use underpass_runtime.Service.Access.{validate_session_access, validate_invocation_access}
use underpass_runtime.Service.Sessions
use underpass_runtime.Service.Listing
use underpass_runtime.Service.Reading
use underpass_runtime.Service.Complete
use underpass_runtime.Service.Invoke.{Outcome}
use underpass_runtime.Grpc.Auth.{
  Code, internal, invalid_argument, not_found, failed_precondition, deadline_exceeded,
  permission_denied, Status, Reply, replied, rejected, Context,
}

unfoldable pub code_of : ServiceError → Code
code_of err =
    if str_eq err.code "invalid_argument" || str_eq err.code "git_usage_error"
    then invalid_argument
    else if str_eq err.code "not_found"
    then not_found
    else if str_eq err.code "approval_required"
    then failed_precondition
    else if str_eq err.code "timeout"
    then deadline_exceeded
    else if is_policy_denied_code err.code
    then permission_denied
    else internal

unfoldable pub service_error_to_status : ServiceError → Status
service_error_to_status err = record { code = code_of err; message = err.message }

unfoldable pub as_status : Option ServiceError → Option Status
as_status none = none
as_status (some err) = some (service_error_to_status err)

unfoldable pub reply_of : {A : Type 0} → Served A → Reply A
reply_of (served a) = replied a
reply_of (refused_by err) = rejected (service_error_to_status err)

-- no principal: authentication is not enabled
unfoldable pub validate_session_auth : {S : Type 0} → Ports S → Context → Text → Option Status
validate_session_auth p ctx session_id = elim ctx.principal [
  | none ↦ none
  | some principal ↦ as_status (validate_session_access p session_id principal)
]

unfoldable pub validate_invocation_auth :
    {S : Type 0} → Ports S → Context → S → Text → Option Status
validate_invocation_auth p ctx store invocation_id = elim ctx.principal [
  | none ↦ none
  | some principal ↦ as_status (validate_invocation_access p store invocation_id principal)
]

-- The rest of a handler, behind its check.
unfoldable pub checked :
    {S A : Type 0} → Option Status → World S → Reply A × World S → Reply A × World S
checked (some status) w rest = (rejected status, w)
checked none w rest = rest

unfoldable pub with_principal : Context → CreateSessionRequest → CreateSessionRequest
with_principal ctx req = elim ctx.principal [
  | none ↦ req
  | some principal ↦ record req { principal = principal }
]

unfoldable pub create_session :
    {S : Type 0} → Ports S → Context → CreateSessionRequest → World S → Reply Session × World S
create_session p ctx req w =
    let (r, w') = Sessions.create_session p (with_principal ctx req) w in (reply_of r, w')

unfoldable pub reply_closed : {S : Type 0} → Option ServiceError × World S → Reply Bool × World S
reply_closed (none, w) = (replied true, w)
reply_closed (some err, w) = (rejected (service_error_to_status err), w)

unfoldable pub close_session :
    {S : Type 0} → Ports S → Context → ℕ → Text → World S → Reply Bool × World S
close_session p ctx now session_id w =
    checked (validate_session_auth p ctx session_id) w
      (reply_closed (Sessions.close_session p now session_id w))

unfoldable pub list_tools :
    {S : Type 0} → Ports S → Context → Text → World S → Reply (List Capability) × World S
list_tools p ctx session_id w =
    checked (validate_session_auth p ctx session_id) w
      (reply_of (Listing.list_tools p session_id), w)

-- an invocation that the service made is the answer, also with an error
unfoldable pub reply_invoked : {S : Type 0} → Outcome S → Reply (Option Invocation) × World S
reply_invoked o = elim o.error [
  | none ↦ (replied o.invocation, o.world)
  | some err ↦ elim o.invocation [
    | none ↦ (rejected (service_error_to_status err), o.world)
    | some inv ↦
        if is_empty inv.id
        then (rejected (service_error_to_status err), o.world)
        else (replied (some inv), o.world)
  ]
]

unfoldable pub invoke_tool :
    {S : Type 0} → Ports S → Context → Call → World S → Reply (Option Invocation) × World S
invoke_tool p ctx call w =
    checked (validate_session_auth p ctx call.session_id) w
      (reply_invoked (Complete.invoke_tool p call w))

unfoldable pub get_invocation :
    {S : Type 0} → Ports S → Context → Text → World S → Reply Invocation × World S
get_invocation p ctx id w =
    checked (validate_invocation_auth p ctx w.store id) w
      (reply_of (Reading.get_invocation p w.store id), w)

unfoldable pub get_invocation_logs :
    {S : Type 0} → Ports S → Context → Text → World S → Reply (List LogLine) × World S
get_invocation_logs p ctx id w =
    checked (validate_invocation_auth p ctx w.store id) w
      (reply_of (Reading.get_invocation_logs p w.store id), w)

unfoldable pub get_invocation_artifacts :
    {S : Type 0} → Ports S → Context → Text → World S → Reply (List Artifact) × World S
get_invocation_artifacts p ctx id w =
    checked (validate_invocation_auth p ctx w.store id) w
      (reply_of (Reading.get_invocation_artifacts p w.store id), w)
