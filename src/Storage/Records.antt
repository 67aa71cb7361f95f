-- ===== src/Storage/Records.antt =====
-- internal/adapters/invocationstore/valkey_store.go: invocations in Valkey, without their output and
-- logs.
use underpass_runtime.Base.{
  ℕ, String, ◌||◌, Option, none, some, List, [], ◌∷◌, ◌++◌, is_empty, if◌then◌else◌,
}
use underpass_runtime.Text.{Text, codes, trim_space}
use underpass_runtime.Json.{ℤ}
use underpass_runtime.Domain.{plain, wrapped, Invocation, Status, Artifact, Error}
use underpass_runtime.Service.Invoke.{◌>>=◌}
use underpass_runtime.Service.Ports.{Answer, answered, failed_with}

pub record InvocationEnvelope : Type 0 where
  pub id : Text
  pub session_id : Text
  pub tool_name : Text
  pub correlation_id : Text
  pub status : Status
  pub started_at : ℕ
  pub completed_at : Option ℕ
  pub duration_ms : ℕ
  pub trace_name : Text
  pub span_name : Text
  pub exit_code : ℤ
  pub output_ref : Text
  pub logs_ref : Text
  pub artifacts : List Artifact
  pub error : Option Error

unfoldable pub to_envelope : Invocation → InvocationEnvelope
to_envelope inv = record {
  id = inv.id;
  session_id = inv.session_id;
  tool_name = inv.tool_name;
  correlation_id = inv.correlation_id;
  status = inv.status;
  started_at = inv.started_at;
  completed_at = inv.completed_at;
  duration_ms = inv.duration_ms;
  trace_name = inv.trace_name;
  span_name = inv.span_name;
  exit_code = inv.exit_code;
  output_ref = inv.output_ref;
  logs_ref = inv.logs_ref;
  artifacts = inv.artifacts;
  error = inv.error;
}

unfoldable pub from_envelope : InvocationEnvelope → Invocation
from_envelope env = record {
  id = env.id;
  session_id = env.session_id;
  tool_name = env.tool_name;
  correlation_id = env.correlation_id;
  status = env.status;
  started_at = env.started_at;
  completed_at = env.completed_at;
  duration_ms = env.duration_ms;
  trace_name = env.trace_name;
  span_name = env.span_name;
  exit_code = env.exit_code;
  output = none;
  output_ref = env.output_ref;
  logs = [];
  logs_ref = env.logs_ref;
  artifacts = env.artifacts;
  error = env.error;
}

-- What the store is built on: the client of Valkey, whose state is `V`, the JSON codec of the
-- envelope, and url.QueryEscape. A lifetime of 0 is none; `none` is redis.Nil.
pub record Backend (V : Type 0) : Type 0 where
  pub get : V → Text → Answer (Option Text)
  pub set : V → Text → Text → ℕ → Answer V
  pub set_nx : V → Text → Text → ℕ → Answer V
  pub encode : InvocationEnvelope → Option Text
  pub decode : Text → Option InvocationEnvelope
  pub query_escape : Text → Text

pub record ValkeyStore : Type 0 where
  pub key_prefix : Text
  pub ttl : ℕ

unfoldable pub new_valkey_store : Text → ℕ → ValkeyStore
new_valkey_store key_prefix ttl =
    let prefix = trim_space key_prefix in
    record {
      key_prefix = if is_empty prefix then codes "workspace:invocation" else prefix;
      ttl = ttl;
    }

unfoldable pub key : ValkeyStore → Text → Text
key s invocation_id = s.key_prefix ++ (b':' ∷ invocation_id)

unfoldable pub failing : {A : Type 0} → String → Answer A → Answer A
failing context (failed_with message) = failed_with (wrapped context message)
failing context (answered a) = answered a

module _ {V : Type 0} (b : Backend V) (s : ValkeyStore) where
  unfoldable pub corr_key : Text → Text → Text → Text
  corr_key session_id tool_name correlation_id =
      if is_empty session_id || is_empty tool_name || is_empty correlation_id
      then []
      else s.key_prefix
        ++ (codes ":corr:"
            ++ (b.query_escape session_id
                ++ (b':' ∷ (b.query_escape tool_name ++ (b':' ∷ b.query_escape correlation_id)))))

  unfoldable pub correlation_key : Text → Text → Text → Text
  correlation_key session_id tool_name correlation_id =
      corr_key (trim_space session_id) (trim_space tool_name) (trim_space correlation_id)

  unfoldable pub index_invocation : V → Text → Text → Answer V
  index_invocation v index_key id =
      if is_empty index_key
      then answered v
      else failing "set invocation correlation index" (b.set_nx v index_key id s.ttl)

  unfoldable pub write_envelope : V → Invocation → Option Text → Answer V
  write_envelope v inv none = failed_with (plain "marshal invocation")
  write_envelope v inv (some written) =
      failing "set invocation" (b.set v (key s inv.id) written s.ttl)

  unfoldable pub save : V → Invocation → Answer V
  save v inv = do
    v' ← write_envelope v inv (b.encode (to_envelope inv))
    index_invocation v' (correlation_key inv.session_id inv.tool_name inv.correlation_id) inv.id

  unfoldable pub read_envelope : Option Text → Answer (Option Invocation)
  read_envelope none = answered none
  read_envelope (some written) = elim (b.decode written) [
    | none ↦ failed_with (plain "unmarshal invocation")
    | some env ↦ answered (some (from_envelope env))
  ]

  unfoldable pub load : V → Text → Answer (Option Invocation)
  load v invocation_id = do
    found ← failing "get invocation" (b.get v (key s invocation_id))
    read_envelope found

  unfoldable pub load_indexed : V → Option Text → Answer (Option Invocation)
  load_indexed v none = answered none
  load_indexed v (some invocation_id) = load v invocation_id

  unfoldable pub find_by_key : V → Text → Answer (Option Invocation)
  find_by_key v index_key =
      if is_empty index_key
      then answered none
      else (failing "get invocation correlation index" (b.get v index_key) >>= load_indexed v)

  unfoldable pub find_by_correlation : V → Text → Text → Text → Answer (Option Invocation)
  find_by_correlation v session_id tool_name correlation_id =
      find_by_key v (correlation_key session_id tool_name correlation_id)
