-- ===== src/Remediation/Agent.antt =====
-- internal/remediation/agent.go and playbook.go: from an alert to the run of its playbook. What the
-- agent asks of the runtime is a log of calls, the newest first; the client answers from that log, so
-- that its answers may change from call to call. The duration of a run is left out.
use underpass_runtime.Base.{
  ℕ, String, Bool, true, false, not, ◌&&◌, ◌||◌, Option, none, some, List, [], ◌∷◌, ◌++◌, is_empty,
  take, if◌then◌else◌,
}
use underpass_runtime.Text.{Text, codes, text_eq, member}
use underpass_runtime.Domain.{Message, wrapped}
use underpass_runtime.Service.Ports.{Answer, answered, failed_with}

pub record Playbook : Type 0 where
  pub alert_name : Text
  pub description : Text
  pub diagnose_hint : Text
  pub tools : List Text
  pub severity : Text

-- DefaultPlaybooks
abbrev pub playbook : String → String → String → List Text → String → Playbook
playbook name description hint tools severity = record {
  alert_name = codes name;
  description = codes description;
  diagnose_hint = codes hint;
  tools = tools;
  severity = codes severity;
}

abbrev pub default_playbooks : List Playbook
default_playbooks =
    playbook "WorkspaceInvocationFailureRateHigh"
      "Diagnose high tool failure rate and identify root cause"
      "diagnose tool failures and error patterns" (codes "fs.list" ∷ codes "fs.read_file" ∷ [])
      "warning"
    ∷ playbook "WorkspaceP95InvocationLatencyHigh" "Investigate latency spikes in tool invocations"
        "investigate slow tool execution and resource usage" (codes "fs.list" ∷ []) "warning"
    ∷ playbook "WorkspaceInvocationDeniedRateHigh"
        "Audit policy denials and identify misconfigured policies"
        "audit policy denials and authorization issues" (codes "fs.list" ∷ []) "warning"
    ∷ playbook "WorkspaceDown" "Emergency: workspace service unreachable"
        "check service health and connectivity" [] "critical"
    ∷ []

unfoldable pub match_playbook : List Playbook → Text → Option Playbook
match_playbook [] name = none
match_playbook (pb ∷ rest) name =
    if text_eq pb.alert_name name then some pb else match_playbook rest name

-- The calls of RuntimeClient.
pub data Action : Type 0 where
  created : Text → Text → Action
  closed : Text → Action
  asked : Text → Text → ℕ → Action
  invoked : Text → Text → Action
  accepted : Text → Text → Text → Action
  rejected : Text → Text → String → Action

pub record InvokeResult : Type 0 where
  pub status : Text
  pub duration_ms : ℕ

-- RuntimeClient. The results of closing a session and of the feedback are not used.
pub record RuntimeClient : Type 0 where
  pub create_session : List Action → Text → Text → Answer Text
  pub recommend_tools : List Action → Text → Text → ℕ → Answer (List Text × Text)
  pub invoke_tool : List Action → Text → Text → InvokeResult × Option Message

-- the fields of AlertEvent that the agent reads
pub record AlertEvent : Type 0 where
  pub alert_name : Text
  pub status : Text

pub record StepResult : Type 0 where
  pub tool : Text
  pub status : Text
  pub duration : ℕ
  pub error : Option Message

pub record RunResult : Type 0 where
  pub alert_name : Text
  pub playbook_desc : Text
  pub session_id : Text
  pub steps : List StepResult
  pub outcome : String

pub record Agent : Type 0 where
  pub client : RuntimeClient
  pub playbooks : List Playbook
  pub tenant_id : Text
  pub actor_id : Text

-- NewAgent
unfoldable pub new_agent : RuntimeClient → List Playbook → Text → Text → Agent
new_agent client playbooks tenant actor = record {
  client = client;
  playbooks = if is_empty playbooks then default_playbooks else playbooks;
  tenant_id = tenant;
  actor_id = actor;
}

abbrev pub succeeded_status : Text
succeeded_status = codes "INVOCATION_STATUS_SUCCEEDED"

unfoldable pub step_of : Text → InvokeResult × Option Message → StepResult
step_of tool (r, none) = record {
  tool = tool;
  status = r.status;
  duration = r.duration_ms;
  error = none;
}
step_of tool (r, some m) = record {
  tool = tool;
  status = codes "error";
  duration = r.duration_ms;
  error = some m;
}

-- no error, and the status of success
unfoldable pub step_succeeded : InvokeResult × Option Message → Bool
step_succeeded (r, none) = text_eq r.status succeeded_status
step_succeeded (r, some m) = false

-- The variables of the loop over the tools.
pub record Loop : Type 0 where
  pub log : List Action
  pub steps : List StepResult
  pub all_succeeded : Bool
  pub used_recommended : Bool

unfoldable pub run_one : RuntimeClient → Text → List Text → Text → Loop → Loop
run_one client session recommended tool l =
    let answer = client.invoke_tool l.log session tool in
    record {
      log = invoked session tool ∷ l.log;
      steps = l.steps ++ (step_of tool answer ∷ []);
      all_succeeded = l.all_succeeded && step_succeeded answer;
      used_recommended = l.used_recommended || member tool recommended;
    }

unfoldable pub run_all : RuntimeClient → Text → List Text → List Text → Loop → Loop
run_all client session recommended [] l = l
run_all client session recommended (tool ∷ tools) l =
    run_all client session recommended tools (run_one client session recommended tool l)

unfoldable pub chosen_tools : Playbook → List Text → List Text
chosen_tools pb recommended = if is_empty pb.tools then take 1 recommended else pb.tools

-- AcceptRecommendation with `tools[0]`; none: the index is out of range, and the agent panics
unfoldable pub accept_first : Text → Text → List Text → List Action → Option (List Action)
accept_first session rec_id [] log = none
accept_first session rec_id (tool ∷ tools) log = some (accepted session rec_id tool ∷ log)

unfoldable pub give_feedback : Text → Text → List Text → Loop → Option (List Action)
give_feedback session rec_id tools l =
    if l.used_recommended && not (is_empty rec_id)
    then if l.all_succeeded
      then accept_first session rec_id tools l.log
      else some (rejected session rec_id "remediation partially failed" ∷ l.log)
    else some l.log

unfoldable pub outcome_of : Loop → String
outcome_of l =
    if l.all_succeeded then "success" else if is_empty l.steps then "failed" else "partial"

-- What a run returns, and its log; none: the agent panicked.
pub record Finished : Type 0 where
  pub result : RunResult
  pub error : Option Message
  pub log : List Action

abbrev pub result_of : AlertEvent → Playbook → Text → List StepResult → String → RunResult
result_of alert pb session steps outcome = record {
  alert_name = alert.alert_name;
  playbook_desc = pb.description;
  session_id = session;
  steps = steps;
  outcome = outcome;
}

-- the deferred CloseSession, after the last step
unfoldable pub finish_run :
    AlertEvent → Playbook → Text → Loop → Option (List Action) → Option Finished
finish_run alert pb session l none = none
finish_run alert pb session l (some log) = some (record {
  result = result_of alert pb session l.steps (outcome_of l);
  error = none;
  log = closed session ∷ log;
})

unfoldable pub run_recommended :
    Agent → AlertEvent → Playbook → Text → List Action → Answer (List Text × Text) → Option Finished
run_recommended a alert pb session log (failed_with m) = some (record {
  result = result_of alert pb session [] "failed";
  error = some (wrapped "recommend tools" m);
  log = closed session ∷ log;
})
run_recommended a alert pb session log (answered (recommended, rec_id)) =
    let tools = chosen_tools pb recommended in
    let l =
      run_all a.client session recommended tools
        (record { log = log; steps = []; all_succeeded = true; used_recommended = false }) in
    finish_run alert pb session l (give_feedback session rec_id tools l)

unfoldable pub run_session :
    Agent → AlertEvent → Playbook → List Action → Answer Text → Option Finished
run_session a alert pb log (failed_with m) = some (record {
  result = result_of alert pb [] [] "failed";
  error = some (wrapped "create session" m);
  log = log;
})
run_session a alert pb log (answered session) =
    run_recommended a alert pb session (asked session pb.diagnose_hint 5 ∷ log)
      (a.client.recommend_tools log session pb.diagnose_hint 5)

unfoldable pub execute_playbook : Agent → AlertEvent → Playbook → List Action → Option Finished
execute_playbook a alert pb log =
    run_session a alert pb (created a.tenant_id a.actor_id ∷ log)
      (a.client.create_session log a.tenant_id a.actor_id)

-- What HandleAlert comes to, given what `json.Unmarshal` makes of the message.
pub data Handled : Type 0 where
  undecodable : Handled
  skipped : Handled
  ran : Option Finished → Handled

unfoldable pub handle_matched : Agent → AlertEvent → List Action → Option Playbook → Handled
handle_matched a alert log none = skipped
handle_matched a alert log (some pb) = ran (execute_playbook a alert pb log)

unfoldable pub handle_alert : Agent → Option AlertEvent → List Action → Handled
handle_alert a none log = undecodable
handle_alert a (some alert) log =
    if text_eq alert.status (codes "firing")
    then handle_matched a alert log (match_playbook a.playbooks alert.alert_name)
    else skipped
