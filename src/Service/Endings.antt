-- ===== src/Service/Endings.antt =====
-- How the run of an authorised tool ends: status, error, audit and events, on every branch.
pub mod Runs
use underpass_runtime.Base.{
  suc, String, ◌≡◌, refl, ap, subst, ◌∙◌, ◌⊎◌, inl, inr, true, Option, none, some, Bool-cases,
  str_eq,
}
use underpass_runtime.Domain.{
  Session, Capability, Message, plain, Invocation, running, succeeded, failed, denied, Error,
}
use underpass_runtime.Service.Errors.{
  ServiceError, internal_error, policy_denied_error, is_policy_denied_code, run_service_error,
}
use underpass_runtime.Service.Quota.{ToolRunResult, allow_run_result}
use underpass_runtime.Service.Ports.{Answer, answered, failed_with, Ports, Call, ran, World}
use underpass_runtime.Service.Reports.{
  emit, after_save, store_invocation, milliseconds, finish_with_error, finish_status,
  deny_invocation, fail_invocation,
}
use underpass_runtime.Service.Invoke.{Outcome, Saved, deny_error, internal_failure}
use underpass_runtime.Service.Complete.{
  Run, finish, succeed_invocation, report_success, complete_success, fail_internal, complete_error,
  check_schema, check_artifacts, with_artifacts, complete_tool_invocation, with_result, deny_result,
  after_run, run_tool,
}
use underpass_runtime.Service.Tally.{
  Tally, tally, denied_tally, completed_tally, tally-deny, tally-fail, tally-after_save,
  tally-audited, tally-publish_completed, tally-record_telemetry, tally-observe_tool_kpis,
  tally-ran,
}

-- 403 Forbidden or 428 Precondition Required.
abbrev pub IsDenial : ServiceError → Type 0
IsDenial err = (err.http_status ≡ 403) ⊎ (err.http_status ≡ 428)

-- The same request.
pub record SameRequest (a b : Invocation) : Type 0 where
  pub id : a.id ≡ b.id
  pub session_id : a.session_id ≡ b.session_id
  pub tool_name : a.tool_name ≡ b.tool_name
  pub correlation_id : a.correlation_id ≡ b.correlation_id
  pub started_at : a.started_at ≡ b.started_at

-- Completed at the end of the call, with the time between as its duration.
pub record IsClosed (call : Call) (inv0 inv : Invocation) : Type 0 where
  pub same : SameRequest inv inv0
  pub at_end : inv.completed_at ≡ some call.ended_at
  pub lasted : inv.duration_ms ≡ milliseconds call.started_at call.ended_at

-- The four ends of a run: denied, failed, succeeded, and succeeded in a way that could not be stored.
pub data Ended {S : Type 0} (call : Call) (i : Invocation) (t : Tally) (o : Outcome S)
    : Type 0 where
  denied_end :
      (inv : Invocation) (err : ServiceError)
      → o.invocation ≡ some inv
      → o.error ≡ some err
      → IsClosed call i inv
      → inv.status ≡ denied
      → IsDenial err
      → tally o.world ≡ denied_tally t
      → Ended call i t o
  failed_end :
      (inv : Invocation) (err : ServiceError)
      → o.invocation ≡ some inv
      → o.error ≡ some err
      → IsClosed call i inv
      → inv.status ≡ failed
      → tally o.world ≡ completed_tally t
      → Ended call i t o
  succeeded_end :
      (inv : Invocation)
      → o.invocation ≡ some inv
      → o.error ≡ none
      → IsClosed call i inv
      → inv.status ≡ succeeded
      → tally o.world ≡ completed_tally t
      → Ended call i t o
  unsaved_end :
      (inv : Invocation) (err : ServiceError)
      → o.invocation ≡ some inv
      → o.error ≡ some err
      → IsClosed call i inv
      → inv.status ≡ succeeded
      → err.http_status ≡ 500
      → tally o.world ≡ t
      → Ended call i t o

pub policy_denied_error-IsDenial :
    (code : String) (m : Message) → IsDenial (policy_denied_error code m)
unfolding policy_denied_error
policy_denied_error-IsDenial code m = elim (Bool-cases (str_eq code "approval_required")) [
  | inl e ↦ inr (rw e refl)
  | inr e ↦ inl (rw e refl)
]

module _ {S : Type 0} (p : Ports S) (call : Call) (session : Session) (w : World S)
    (inv : Invocation) where
  pub deny_status : (err : Error) → (deny_invocation p call session w inv err).0.status ≡ denied
  unfolding deny_invocation finish_with_error finish_status
  deny_status err = refl

  pub deny-IsClosed : (err : Error) → IsClosed call inv (deny_invocation p call session w inv err).0
  unfolding deny_invocation finish_with_error
  deny-IsClosed err = record {
    same = record {
      id = refl;
      session_id = refl;
      tool_name = refl;
      correlation_id = refl;
      started_at = refl;
    };
    at_end = refl;
    lasted = refl;
  }

  pub finish_denied :
      (err : Error) (code : String) (m : Message)
      → Ended call inv
          (tally w)
          (finish (deny_invocation p call session w inv err) (policy_denied_error code m))
  unfolding finish
  finish_denied err code m =
      denied_end (deny_invocation p call session w inv err).0 (policy_denied_error code m) refl refl
        (deny-IsClosed err) (deny_status err) (policy_denied_error-IsDenial code m)
        (tally-deny p call session w inv err)

  fail_status :
      (err : Error) (result : ToolRunResult)
      → inv.status ≡ running
      → (fail_invocation p call session w inv err result).0.status ≡ failed
  unfolding fail_invocation finish_with_error finish_status
  fail_status err result e = rw e refl

  fail-IsClosed :
      (err : Error) (result : ToolRunResult)
      → IsClosed call inv (fail_invocation p call session w inv err result).0
  unfolding fail_invocation finish_with_error
  fail-IsClosed err result = record {
    same = record {
      id = refl;
      session_id = refl;
      tool_name = refl;
      correlation_id = refl;
      started_at = refl;
    };
    at_end = refl;
    lasted = refl;
  }

  pub finish_failed :
      (err : Error) (result : ToolRunResult) (e : ServiceError)
      → inv.status ≡ running
      → Ended call inv (tally w) (finish (fail_invocation p call session w inv err result) e)
  unfolding finish
  finish_failed err result e r =
      failed_end (fail_invocation p call session w inv err result).0 e refl refl
        (fail-IsClosed err result) (fail_status err result r)
        (tally-fail p call session w inv err result)

module _ {S : Type 0} (r : Run S) (w : World S) (inv : Invocation) where
  success-IsClosed : IsClosed r.call inv (succeed_invocation r.call inv)
  unfolding succeed_invocation
  success-IsClosed = record {
    same = record {
      id = refl;
      session_id = refl;
      tool_name = refl;
      correlation_id = refl;
      started_at = refl;
    };
    at_end = refl;
    lasted = refl;
  }

  success_status : (succeed_invocation r.call inv).status ≡ succeeded
  unfolding succeed_invocation
  success_status = refl

  report_success_end :
      (a : Answer S)
      → Ended r.call inv (tally w) (
          report_success r
            (succeed_invocation r.call inv)
            (after_save w (succeed_invocation r.call inv) a))
  unfolding report_success after_save internal_error
  report_success_end (answered s) =
      succeeded_end (succeed_invocation r.call inv) refl refl success-IsClosed success_status (
        simp
          (
            tally-observe_tool_kpis,
            tally-record_telemetry,
            tally-publish_completed,
            tally-audited r.ports,
          )
          (ap completed_tally
            (tally-after_save r.ports w (succeed_invocation r.call inv) (answered s))))
  report_success_end (failed_with message) =
      unsaved_end (succeed_invocation r.call inv) _ refl refl success-IsClosed success_status refl
        refl

  complete_success_end : Ended r.call inv (tally w) (complete_success r w inv)
  unfolding complete_success store_invocation
  complete_success_end = report_success_end (r.ports.save w.store (succeed_invocation r.call inv))

module _ {S : Type 0} (r : Run S) (w : World S) (inv : Invocation)
    (starts : inv.status ≡ running) where
  fail_internal_end : (m : Message) → Ended r.call inv (tally w) (fail_internal r w inv m)
  unfolding fail_internal
  fail_internal_end m =
      finish_failed r.ports r.call r.session w inv (internal_failure m) r.result (internal_error m)
        starts

  pub complete_error_end : (err : Error) → Ended r.call inv (tally w) (complete_error r w inv err)
  unfolding complete_error
  complete_error_end err = elim (Bool-cases (is_policy_denied_code err.code)) [
    | inl e ↦ rw e (finish_denied r.ports r.call r.session w inv err err.code err.message)
    | inr e ↦ rw e (
        finish_failed r.ports r.call r.session w inv err r.result
          (run_service_error r.ports.timed_out err) starts)
  ]

  check_schema_end : (o : Option Message) → Ended r.call inv (tally w) (check_schema r w inv o)
  unfolding check_schema
  check_schema_end none = complete_success_end r w inv
  check_schema_end (some m) = fail_internal_end m

  pub check_artifacts_end :
      (a : Answer Saved) → Ended r.call inv (tally w) (check_artifacts r w inv a)
  unfolding check_artifacts
  check_artifacts_end (failed_with m) = fail_internal_end m
  check_artifacts_end (answered saved) = check_schema_end _
