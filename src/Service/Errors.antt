-- ===== src/Service/Errors.antt =====
-- internal/app/errors.go, and runServiceError of internal/app/service.go.
use underpass_runtime.Base.{ℕ, String, Bool, ◌||◌, str_eq, if◌then◌else◌}
use underpass_runtime.Domain.{Error, Message}

pub record ServiceError : Type 0 where
  pub code : String
  pub message : Message
  pub http_status : ℕ

-- What an operation of the service returns: (value, nil) or (zero value, error).
pub data Served {ℓ} (A : Type ℓ) : Type ℓ where
  served : A → Served A
  refused_by : ServiceError → Served A

unfoldable pub not_found_error : Message → ServiceError
not_found_error message = record { code = "not_found"; message = message; http_status = 404 }

unfoldable pub invalid_argument_error : Message → ServiceError
invalid_argument_error message = record {
  code = "invalid_argument";
  message = message;
  http_status = 400;
}

-- 428 Precondition Required for a missing approval, 403 Forbidden otherwise
unfoldable pub policy_denied_error : String → Message → ServiceError
policy_denied_error code message = record {
  code = code;
  message = message;
  http_status = if str_eq code "approval_required" then 428 else 403;
}

unfoldable pub is_policy_denied_code : String → Bool
is_policy_denied_code code =
    str_eq code "policy_denied"
    || str_eq code "approval_required"
    || str_eq code "environment_mismatch"
    || str_eq code "no_previous_healthy_replicaset"
    || str_eq code "rollout_too_young"

unfoldable pub internal_error : Message → ServiceError
internal_error message = record { code = "internal"; message = message; http_status = 500 }

-- `timed_out`: the deadline of the tool's context is exceeded
unfoldable pub run_service_error : Bool → Error → ServiceError
run_service_error timed_out err = record {
  code = err.code;
  message = err.message;
  http_status = if timed_out || str_eq err.code "timeout" then 504 else 500;
}
