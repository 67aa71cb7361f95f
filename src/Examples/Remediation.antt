-- ===== src/Examples/Remediation.antt =====
-- The agent with a client that answers one session, one recommendation, and success.
use underpass_runtime.Base.{◌≡◌, none, some, [], ◌∷◌}
use underpass_runtime.Text.{codes}
use underpass_runtime.Service.Ports.{answered}
use underpass_runtime.Remediation.Agent.{
  Playbook, playbook, RuntimeClient, AlertEvent, Agent, succeeded_status, Finished,
  execute_playbook,
}
use underpass_runtime.Remediation.Runs.Story.{RunStory, execute_playbook-Story}

abbrev client : RuntimeClient
client = record {
  create_session = λ log tenant actor. answered (codes "s1");
  recommend_tools = λ log session hint top. answered (codes "fs.list" ∷ [], codes "r1");
  invoke_tool = λ log session tool. (record { status = succeeded_status; duration_ms = 4 }, none);
}

abbrev two_tools : Playbook
two_tools = playbook "Slow" "d" "hint" (codes "fs.list" ∷ codes "fs.read_file" ∷ []) "warning"

abbrev agent : Agent
agent = record {
  client = client;
  playbooks = two_tools ∷ [];
  tenant_id = codes "t";
  actor_id = codes "a";
}

abbrev alert : AlertEvent
alert = record { alert_name = codes "Slow"; status = codes "firing" }

execute_playbook-Story_example :
    (f : Finished) × (execute_playbook agent alert two_tools [] ≡ some f)
    × RunStory agent alert two_tools [] f
execute_playbook-Story_example = execute_playbook-Story agent alert two_tools []
