-- ===== src/Service/Quota.antt =====
-- internal/app/service.go: invocationQuotaLimiter. The mutex makes each operation one step, and
-- NewService always installs a limiter.
pub mod Rates
pub mod Slots
pub mod Results
pub mod Balance
use underpass_runtime.Base.{
  ℕ, ◌+◌, ◌-◌, ◌*◌, ◌%◌, String, Bool, true, false, not, ◌&&◌, ◌||◌, Option, none, some, List, [],
  ◌∷◌, ◌++◌, leb, ltb, ◌==◌, length, is_empty, if◌then◌else◌,
}
use underpass_runtime.Text.{Text, codes, trim_space, to_lower}
use underpass_runtime.TextMap.{TextMap, get, put, delete, get_or}
use underpass_runtime.Json.{ℤ, Json}
use underpass_runtime.Domain.{Principal, Session, LogLine}

-- A window that was never opened has the zero time and no invocations.
pub record QuotaWindow : Type 0 where
  pub start : ℕ
  pub count : ℕ

abbrev pub no_window : QuotaWindow
no_window = record { start = 0; count = 0 }

-- A limit of 0 is none (envInt never yields a negative one).
pub record Limiter : Type 0 where
  pub max_per_minute : ℕ
  pub max_per_minute_per_principal : ℕ
  pub max_concurrent_per_session : ℕ
  pub max_output_bytes : ℕ
  pub max_artifacts_per_invoke : ℕ
  pub max_artifact_bytes_per_invoke : ℕ
  pub per_session_window_counters : TextMap QuotaWindow
  pub per_principal_window_counters : TextMap QuotaWindow
  pub per_session_in_flight : TextMap ℕ

-- a minute in nanoseconds
abbrev pub minute : ℕ
minute = 60000000000

-- now.Truncate(time.Minute)
unfoldable pub truncate_minute : ℕ → ℕ
truncate_minute now = now - now % minute

-- the window of this minute: a new one if the last was opened in another minute
unfoldable pub current_window : QuotaWindow → ℕ → QuotaWindow
current_window window start =
    if window.start == 0 || not (window.start == start)
    then record { start = start; count = 0 }
    else window

unfoldable pub count_in_window :
    TextMap QuotaWindow → Text → QuotaWindow → ℕ → TextMap QuotaWindow × Bool
count_in_window counters key window max =
    if leb max window.count
    then (put counters key window, false)
    else (put counters key (record window { count = window.count + 1 }), true)

unfoldable pub increment_trimmed : TextMap QuotaWindow → Text → ℕ → ℕ → TextMap QuotaWindow × Bool
increment_trimmed counters key start max =
    if is_empty key
    then (counters, true)
    else count_in_window counters key (current_window (get_or counters key no_window) start) max

unfoldable pub increment_quota_window_counter :
    TextMap QuotaWindow → Text → ℕ → ℕ → TextMap QuotaWindow × Bool
increment_quota_window_counter counters key start max =
    if max == 0 then (counters, true) else increment_trimmed counters (trim_space key) start max

unfoldable pub principal_quota_key : Principal → Text
principal_quota_key principal =
    let tenant = trim_space principal.tenant_id in
    let actor = trim_space principal.actor_id in
    if is_empty tenant && is_empty actor then [] else to_lower tenant ++ (b':' ∷ to_lower actor)

-- the key of the session where the principal has none
unfoldable pub rate_key : Session → Text
rate_key session =
    let key = principal_quota_key session.principal in
    if is_empty key then trim_space session.id else key

unfoldable pub allow_principal_rate : Limiter → Session → ℕ → Limiter × Option String
allow_principal_rate l session start =
    let (counters, allowed) =
      increment_quota_window_counter l.per_principal_window_counters (rate_key session) start
        l.max_per_minute_per_principal in
    (
      record l { per_principal_window_counters = counters },
      if allowed then none else some "principal invocation rate limit exceeded",
    )

-- a limit of 0 is not checked, and counts nothing
unfoldable pub allow_rate_at : Limiter → Session → ℕ → Limiter × Option String
allow_rate_at l session start =
    let (counters, allowed) =
      increment_quota_window_counter l.per_session_window_counters (trim_space session.id) start
        l.max_per_minute in
    let counted = record l { per_session_window_counters = counters } in
    if allowed
    then allow_principal_rate counted session start
    else (counted, some "session invocation rate limit exceeded")

-- the reason for a refusal, if it is one
unfoldable pub allow_rate : Limiter → Session → ℕ → Limiter × Option String
allow_rate l session now = allow_rate_at l session (truncate_minute now)

pub record ArtifactPayload : Type 0 where
  pub name : Text
  pub content_type : Text
  pub payload : Text

pub record ToolRunResult : Type 0 where
  pub output : Option Json
  pub logs : List LogLine
  pub artifacts : List ArtifactPayload
  pub exit_code : ℤ

-- len(json.Marshal(output)); none where marshalling fails
abbrev pub Marshal : Type 0
Marshal = Json → Option Text

unfoldable pub payload_too_large : ℕ → Option Text → Bool
payload_too_large limit none = false
payload_too_large limit (some payload) = ltb 0 limit && ltb limit (length payload)

unfoldable pub output_too_large : Marshal → ℕ → Option Json → Bool
output_too_large marshal limit none = false
output_too_large marshal limit (some output) = payload_too_large limit (marshal output)

-- the loop over the artifacts, with the bytes so far
unfoldable pub bytes_exceed : ℕ → ℕ → List ArtifactPayload → Bool
bytes_exceed limit total [] = false
bytes_exceed limit total (a ∷ rest) =
    let next = bytes_exceed limit (total + length a.payload) rest in
    if ltb limit (total + length a.payload) then true else next

unfoldable pub allow_run_result : Marshal → Limiter → ToolRunResult → Option String
allow_run_result marshal l result =
    if output_too_large marshal l.max_output_bytes result.output
    then some "invocation output size quota exceeded"
    else if ltb 0 l.max_artifacts_per_invoke
        && ltb l.max_artifacts_per_invoke (length result.artifacts)
    then some "invocation artifact count quota exceeded"
    else if ltb 0 l.max_artifact_bytes_per_invoke
        && bytes_exceed l.max_artifact_bytes_per_invoke 0 result.artifacts
    then some "invocation artifact size quota exceeded"
    else none

-- What acquireConcurrency hands out: a release that does nothing, or one that gives a slot back.
pub data Slot : Type 0 where
  unlimited : Slot
  held : Text → Slot

unfoldable pub in_flight : Limiter → Text → ℕ
in_flight l session_id = get_or l.per_session_in_flight session_id 0

unfoldable pub acquire_concurrency : Limiter → Text → Limiter × Option Slot
acquire_concurrency l session_id =
    if l.max_concurrent_per_session == 0
    then (l, some unlimited)
    else if leb l.max_concurrent_per_session (in_flight l session_id)
    then (l, none)
    else (
      record l {
        per_session_in_flight = put l.per_session_in_flight session_id (in_flight l session_id + 1);
      },
      some (held session_id),
    )

-- the function that acquireConcurrency returns
unfoldable pub release : Limiter → Slot → Limiter
release l unlimited = l
release l (held session_id) =
    if leb (in_flight l session_id) 1
    then record l { per_session_in_flight = delete l.per_session_in_flight session_id }
    else record l {
      per_session_in_flight = put l.per_session_in_flight session_id (in_flight l session_id - 1);
    }
