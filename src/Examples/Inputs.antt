-- ===== src/Examples/Inputs.antt =====
-- Sessions, tools, arguments and collaborators for the examples.
use underpass_runtime.Base.{
  String, Bool, true, false, Option, none, some, List, [], ◌∷◌, if◌then◌else◌,
}
use underpass_runtime.Text.{Text, codes, text_eq}
use underpass_runtime.Json.{Json, str, num, obj, end, member_of, pos}
use underpass_runtime.Domain.{
  Session, Metadata, Capability, Scope, cluster, workspace, RiskLevel, high, low, kubernetes,
  PolicyMetadata, plain, Invocation,
}
use underpass_runtime.Policy.Decision.{Host, PolicyInput}
use underpass_runtime.Service.Quota.{Limiter, ToolRunResult}
use underpass_runtime.Service.Ports.{answered, Ports, Call, World}

abbrev pub no_rules : PolicyMetadata
no_rules = record {
  path_fields = [];
  arg_fields = [];
  profile_fields = [];
  subject_fields = [];
  topic_fields = [];
  queue_fields = [];
  key_prefix_fields = [];
  namespace_fields = [];
  registry_fields = [];
}

-- a path field, a subject field, and rules for the values of the subject
abbrev pub two_rules : PolicyMetadata
two_rules = record no_rules {
  arg_fields =
      record {
        field = codes "subject";
        multi = false;
        max_items = 1;
        max_length = 20;
        allowed_values = [];
        allowed_prefix = codes "orders." ∷ [];
        denied_prefix = codes "orders.x" ∷ [];
        deny_characters = codes "*" ∷ [];
      }
      ∷ [];
  path_fields = record { field = codes "path"; multi = false; workspace_relative = true } ∷ [];
  subject_fields = record { field = codes "subject"; multi = false } ∷ [];
}

abbrev pub tool : String → Scope → RiskLevel → Bool → PolicyMetadata → Capability
tool name scope risk approval policy = record {
  name = codes name;
  output_schema = [];
  scope = scope;
  risk_level = risk;
  requires_approval = approval;
  constraints = record {
    timeout_seconds = 30;
    max_retries = 0;
    allowed_paths = [];
    output_limit_kb = 0;
  };
  policy = policy;
  trace_name = codes "trace";
  span_name = codes "span";
}

abbrev pub session_with : Metadata → Session
session_with metadata = record {
  id = codes "s1";
  workspace_path = codes "/w";
  runtime = record {
    kind = kubernetes;
    namespace = codes "ns";
    pod_name = codes "pod";
    container = codes "c";
    container_id = [];
    workdir = codes "/w";
  };
  repo_url = [];
  repo_ref = [];
  allowed_paths = codes "docs" ∷ [];
  principal = record {
    tenant_id = codes "t";
    actor_id = codes "a";
    roles = codes "platform_admin" ∷ [];
  };
  metadata = metadata;
  created_at = 1;
  expires_at = 2;
}

abbrev pub admin_session : Session
admin_session = session_with ((codes "allowed_nats_subjects", codes "orders.*") ∷ [])

abbrev pub operator_session : Session
operator_session = session_with ((codes "tool_profile", codes "saturation-operator-bounded") ∷ [])

-- `{"path": "docs/a", "subject": "orders.eu"}`
abbrev pub note_payload : Json
note_payload = obj (
    member_of (codes "path") (str (codes "docs/a"))
      (member_of (codes "subject") (str (codes "orders.eu")) end))

-- `{"replicas": 3}`
abbrev pub scale_payload : Json
scale_payload = obj (member_of (codes "replicas") (num (pos 3) true) end)

abbrev pub host_of : Json → Host
host_of payload = record { unmarshal = λ raw. some payload; getenv = λ key. [] }

abbrev pub input_of : Session → Capability → PolicyInput
input_of session capability = record {
  session = session;
  capability = capability;
  args = codes "{..}";
  approved = true;
}

abbrev pub guarded_tool : Capability
guarded_tool = tool "k8s.exec" cluster high true no_rules

abbrev pub note_tool : Capability
note_tool = tool "fs.note" workspace low false two_rules

abbrev pub scale_tool : Capability
scale_tool = tool "k8s.scale_deployment" cluster high true no_rules

abbrev pub limits : Limiter
limits = record {
  max_per_minute = 2;
  max_per_minute_per_principal = 0;
  max_concurrent_per_session = 1;
  max_output_bytes = 10;
  max_artifacts_per_invoke = 1;
  max_artifact_bytes_per_invoke = 10;
  per_session_window_counters = [];
  per_principal_window_counters = [];
  per_session_in_flight = [];
}

abbrev pub empty_result : ToolRunResult
empty_result = record { exit_code = pos 0; logs = []; output = none; artifacts = [] }

abbrev pub stored_under : List Invocation → Text → Option Invocation
stored_under [] id = none
stored_under (inv ∷ store) id =
    let rest = stored_under store id in if text_eq inv.id id then some inv else rest

-- Collaborators that know one session and one tool, permit everything and store in a list.
abbrev pub good_ports : Ports (List Invocation)
good_ports = record {
  getenv = λ key. [];
  create_session = λ request. answered admin_session;
  get_session = λ id. answered (some admin_session);
  close_session = λ id. none;
  catalog = note_tool ∷ [];
  get_tool = λ name. some note_tool;
  authorize = λ input. answered (record { allow = true; error_code = ""; reason = plain "" });
  run_tool = λ session capability args. (empty_result, none);
  save_artifacts = λ id payloads. answered [];
  list_artifacts = λ id. answered [];
  read_artifact = λ path. answered [];
  save = λ store inv. answered (inv ∷ store);
  load = λ store id. answered (stored_under store id);
  find = none;
  marshal = λ value. some [];
  encode_logs = λ logs. some [];
  decode_output = λ payload. none;
  decode_log_line = λ line. none;
  decode_schema = λ schema. none;
  learned = λ session name. false;
  kpi_enabled = false;
  timed_out = false;
}

abbrev pub note_call : Call
note_call = record {
  session_id = codes "s1";
  tool_name = codes "fs.note";
  correlation_id = [];
  args = codes "{..}";
  approved = false;
  invocation_id = codes "i1";
  started_at = 60000000001;
  ended_at = 60002000001;
}

abbrev pub new_world : World (List Invocation)
new_world = record {
  quotas = limits;
  store = [];
  session_inv_count = [];
  session_last_rec = [];
  effects = [];
}
