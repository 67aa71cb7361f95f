-- ===== src/Service/Invoke.antt =====
-- internal/app/service.go: InvokeTool, from the checks of the request to the deferred release.
use underpass_runtime.Base.{
  String, Bool, true, false, Option, none, some, List, [], ◌∷◌, ◌++◌, str_eq, if◌then◌else◌,
}
use underpass_runtime.Text.{Text, codes, text_eq}
use underpass_runtime.Domain.{
  Session, Capability, Message, plain, Invocation, Error, Artifact, LogLine,
}
use underpass_runtime.Json.{Json}
use underpass_runtime.Policy.Decision.{PolicyInput, PolicyDecision}
use underpass_runtime.Service.Errors.{ServiceError, internal_error, policy_denied_error}
use underpass_runtime.Service.Quota.{
  Limiter, Slot, ToolRunResult, ArtifactPayload, allow_rate, acquire_concurrency,
}
use underpass_runtime.Service.Runtime.{capability_supported_by_runtime, unsupported_runtime_reason}
use underpass_runtime.Service.Ports.{Answer, answered, failed_with, Ports, Call, audited, World}
use underpass_runtime.Service.Reports.{
  emit, audit_event_from_invocation, store_invocation, finish_with_error, deny_invocation,
}

abbrev pub deny_error : Message → Bool → Error
deny_error message retryable = record {
  code = "policy_denied";
  message = message;
  retryable = retryable;
}

abbrev pub internal_failure : Message → Error
internal_failure message = record { code = "internal"; message = message; retryable = false }

-- What the authorisation of an invocation comes to.
pub data Authorized (S : Type 0) : Type 0 where
  refused : Invocation → ServiceError → World S → Authorized S
  granted : Slot → World S → Authorized S

-- denyInvocation, and policyDeniedError of the same code and message
unfoldable pub refuse :
    {S : Type 0} → Ports S → Call → Session → World S → Invocation → Error → Authorized S
refuse p call session w inv err =
    let (inv', w') = deny_invocation p call session w inv err in
    refused inv' (policy_denied_error err.code err.message) w'

unfoldable pub take_slot :
    {S : Type 0}
    → Ports S
    → Call
    → Session
    → World S
    → Invocation
    → Limiter × Option Slot
    → Authorized S
take_slot p call session w inv (quotas, some slot) = granted slot (record w { quotas = quotas })
take_slot p call session w inv (quotas, none) =
    refuse p call session (record w { quotas = quotas }) inv
      (deny_error (plain "session invocation concurrency limit exceeded") true)

abbrev pub or_policy_denied : String → String
or_policy_denied code = if str_eq code "" then "policy_denied" else code

unfoldable pub check_decision :
    {S : Type 0} → Ports S → Call → Session → World S → Invocation → PolicyDecision → Authorized S
check_decision p call session w inv d =
    if d.allow
    then take_slot p call session w inv (acquire_concurrency w.quotas inv.session_id)
    else refuse p call session w inv
        (record { code = or_policy_denied d.error_code; message = d.reason; retryable = false })

-- the authoriser fails: stored and audited, and nothing else
unfoldable pub authorizer_failed :
    {S : Type 0} → Ports S → Call → Session → World S → Invocation → Message → Authorized S
authorizer_failed p call session w inv message =
    let inv' = finish_with_error call inv (internal_failure message) in
    let w1 = (store_invocation p w inv').1 in
    refused inv' (internal_error message)
      (emit w1 (audited (audit_event_from_invocation session inv')))

unfoldable pub check_answer :
    {S : Type 0}
    → Ports S
    → Call
    → Session
    → World S
    → Invocation
    → Answer PolicyDecision
    → Authorized S
check_answer p call session w inv (answered d) = check_decision p call session w inv d
check_answer p call session w inv (failed_with message) =
    authorizer_failed p call session w inv message

abbrev pub policy_input : Call → Session → Capability → PolicyInput
policy_input call session capability = record {
  session = session;
  capability = capability;
  args = call.args;
  approved = call.approved;
}

unfoldable pub check_runtime :
    {S : Type 0} → Ports S → Call → Session → Capability → World S → Invocation → Authorized S
check_runtime p call session capability w inv =
    if capability_supported_by_runtime p.getenv session capability
    then check_answer p call session w inv (p.authorize (policy_input call session capability))
    else refuse p call session w inv
        (deny_error (unsupported_runtime_reason p.getenv session capability) false)

unfoldable pub check_rate :
    {S : Type 0}
    → Ports S
    → Call
    → Session
    → Capability
    → World S
    → Invocation
    → Limiter × Option String
    → Authorized S
check_rate p call session capability w inv (quotas, none) =
    check_runtime p call session capability (record w { quotas = quotas }) inv
check_rate p call session capability w inv (quotas, some reason) =
    refuse p call session (record w { quotas = quotas }) inv (deny_error (plain reason) true)

unfoldable pub authorize_tool_invocation :
    {S : Type 0} → Ports S → Call → Session → Capability → World S → Invocation → Authorized S
authorize_tool_invocation p call session capability w inv =
    check_rate p call session capability w inv (allow_rate w.quotas session call.started_at)

-- What a call returns: no invocation is the zero one, and no error is success.
pub record Outcome (S : Type 0) : Type 0 where
  pub invocation : Option Invocation
  pub error : Option ServiceError
  pub world : World S

unfoldable pub add_output :
    (Json → Option Text) → Option Json → List ArtifactPayload → Answer (List ArtifactPayload)
add_output marshal none payloads = answered payloads
add_output marshal (some output) payloads = elim (marshal output) [
  | none ↦ failed_with (plain "marshal invocation output artifact")
  | some bytes ↦ answered (
      payloads
      ++ (record {
        name = codes "invocation-output.json";
        content_type = codes "application/json";
        payload = bytes;
      }
          ∷ []))
]

unfoldable pub add_logs :
    (List LogLine → Option Text)
    → List LogLine
    → List ArtifactPayload
    → Answer (List ArtifactPayload)
add_logs encode [] payloads = answered payloads
add_logs encode (line ∷ lines) payloads = elim (encode (line ∷ lines)) [
  | none ↦ failed_with (plain "marshal invocation logs artifact")
  | some bytes ↦ answered (
      payloads
      ++ (record {
        name = codes "invocation-logs.jsonl";
        content_type = codes "application/x-ndjson";
        payload = bytes;
      }
          ∷ []))
]

infixl 10 ◌>>=◌
abbrev pub ◌>>=◌ : {A B : Type 0} → Answer A → (A → Answer B) → Answer B
answered a >>= f = f a
failed_with m >>= f = failed_with m

unfoldable pub build_invocation_artifact_payloads :
    {S : Type 0} → Ports S → ToolRunResult → Answer (List ArtifactPayload)
build_invocation_artifact_payloads p result = do
  payloads ← add_output p.marshal result.output result.artifacts
  add_logs p.encode_logs result.logs payloads

unfoldable pub find_artifact_id_by_name : List Artifact → Text → Text
find_artifact_id_by_name [] name = []
find_artifact_id_by_name (a ∷ rest) name =
    if text_eq a.name name then a.id else find_artifact_id_by_name rest name

pub record Saved : Type 0 where
  pub artifacts : List Artifact
  pub output_ref : Text
  pub logs_ref : Text

unfoldable pub references : List Artifact → Saved
references artifacts = record {
  artifacts = artifacts;
  output_ref = find_artifact_id_by_name artifacts (codes "invocation-output.json");
  logs_ref = find_artifact_id_by_name artifacts (codes "invocation-logs.jsonl");
}

unfoldable pub save_payloads : {S : Type 0} → Ports S → Text → List ArtifactPayload → Answer Saved
save_payloads p id [] = answered (record { artifacts = []; output_ref = []; logs_ref = [] })
save_payloads p id (a ∷ rest) = do
  artifacts ← p.save_artifacts id (a ∷ rest)
  answered (references artifacts)

unfoldable pub persist_run_artifacts : {S : Type 0} → Ports S → Text → ToolRunResult → Answer Saved
persist_run_artifacts p id result = do
  payloads ← build_invocation_artifact_payloads p result
  save_payloads p id payloads
