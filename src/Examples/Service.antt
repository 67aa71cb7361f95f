-- ===== src/Examples/Service.antt =====
-- The quotas and the service on concrete calls.
use underpass_runtime.Base.{suc, ◌≡◌, refl, ◌⊎◌, ◌↔◌, none, List, [], ◌∷◌, length, arith}
use underpass_runtime.Text.{
  split, push_char, Text, codes, trim_space, trim_left, trim_right, snoc_space, is_space, to_lower,
  lower, text_eq,
}
use underpass_runtime.TextMap.{get_or, get, put, delete}
use underpass_runtime.Domain.{Session, Capability, Invocation}
use underpass_runtime.Service.Quota.{
  truncate_minute, current_window, count_in_window, increment_trimmed,
  increment_quota_window_counter, rate_key, principal_quota_key, allow_principal_rate,
  allow_rate_at, allow_rate, output_too_large, bytes_exceed, release, allow_run_result, in_flight,
  acquire_concurrency,
}
use underpass_runtime.Service.Quota.Slots.{
  Pool, acquires, releases, run, holds, IsAccounted, run-IsAccounted,
}
use underpass_runtime.Service.Quota.Results.{Fits, OutputFits, total_bytes, allow_run_result_iff}
use underpass_runtime.Service.Quota.Balance.{SameSlots, Balanced, acquire-Balanced}
use underpass_runtime.Service.Invoke.{
  check_decision, check_answer, check_runtime, check_rate, authorize_tool_invocation, add_output,
  add_logs, build_invocation_artifact_payloads, save_payloads, persist_run_artifacts, take_slot,
}
use underpass_runtime.Service.Complete.{
  invoke_tool, finish, succeed_invocation, report_success, complete_success, check_schema,
  check_artifacts, with_artifacts, complete_tool_invocation, with_result, after_run, run_tool,
  measure_as, measure, release_slot, run_authorized, new_invocation, start_stored, start_invocation,
  check_correlation, check_tool, check_session, validate_tool_request, invoke_request,
}
use underpass_runtime.Service.Tally.{tally}
use underpass_runtime.Service.Story.{IsPermitted}
use underpass_runtime.Service.Course.{Story, IsNamed, invoke_tool-Story}
use underpass_runtime.Service.Guarantees.{
  Succeeds, invoke_tool-SameSlots, invoke_tool-runs, invoke_tool-Succeeds,
}
use underpass_runtime.Service.Reports.{
  emit, after_save, store_invocation, observe_tool_kpis, count_tool_call,
  publish_invocation_completed, record_telemetry, update_online_bandit,
}
use underpass_runtime.Service.Runtime.{is_cluster, capability_supported_by_runtime}
use underpass_runtime.Service.Schema.{validate_output_against_schema, or_null}
use underpass_runtime.Service.Invocations.{
  empty_store, correlation_lookup_key, join_key, find_by_correlation,
}
use underpass_runtime.Service.Invocations.Index.{save_all}
use underpass_runtime.Service.Invocations.Matching.{latest_belonging, find-save_all}
use underpass_runtime.Examples.Inputs.{
  note_tool, limits, empty_result, good_ports, note_call, new_world,
}

abbrev three_attempts : List Text
three_attempts = codes "a" ∷ codes "b" ∷ codes "a" ∷ []

abbrev idle_pool : Pool
idle_pool = record { limiter = limits; holders = [] }

idle-IsAccounted : IsAccounted 1 idle_pool
unfolding in_flight holds get_or get
idle-IsAccounted = record {
  limit = refl;
  counted = λ s. refl;
  bounded = λ s. omega arith;
  positive = λ s n h. absurd (cc);
}

run-IsAccounted_example :
    IsAccounted 1
      (run idle_pool (acquires (codes "a") ∷ acquires (codes "a") ∷ releases (codes "a") ∷ []))
run-IsAccounted_example =
    run-IsAccounted (omega arith) idle_pool
      (acquires (codes "a") ∷ acquires (codes "a") ∷ releases (codes "a") ∷ []) idle-IsAccounted

allow_run_result_iff_example : (allow_run_result good_ports.marshal limits empty_result ≡ none) ↔ (
    OutputFits good_ports.marshal limits.max_output_bytes empty_result.output
    × Fits limits.max_artifacts_per_invoke (length empty_result.artifacts)
    × Fits limits.max_artifact_bytes_per_invoke (total_bytes empty_result.artifacts))
allow_run_result_iff_example = allow_run_result_iff good_ports.marshal limits empty_result

acquire-Balanced_example : Balanced limits (acquire_concurrency limits (codes "s1"))
acquire-Balanced_example = acquire-Balanced limits (codes "s1")

-- two records of one request
abbrev twice : List Invocation
twice =
    new_invocation (record note_call { correlation_id = codes "c" }) note_tool
    ∷ new_invocation (record note_call { correlation_id = codes "c"; invocation_id = codes "i2" })
        note_tool
    ∷ []

find-save_all_example :
    find_by_correlation (save_all empty_store twice) (codes "s1") (codes "fs.note") (codes "c")
    ≡ latest_belonging (codes "s1") (codes "fs.note") (codes "c") twice
unfolding trim_space trim_left trim_right snoc_space is_space split push_char new_invocation
find-save_all_example =
    find-save_all twice (codes "s1") (codes "fs.note") (codes "c") refl refl refl (refl, refl)
      ((refl, refl), ((refl, refl), tt))

-- Two different requests have one key, where a session id and a tool name contain the separator.
keys_shared :
    correlation_lookup_key (codes "a|b") (codes "t") (codes "c")
    ≡ correlation_lookup_key (codes "a") (codes "b|t") (codes "c")
unfolding correlation_lookup_key join_key trim_space trim_left trim_right snoc_space is_space
keys_shared = refl

invoke_tool-Story_example :
    Story good_ports note_call new_world (invoke_tool good_ports note_call new_world)
invoke_tool-Story_example = invoke_tool-Story good_ports note_call new_world

invoke_tool-SameSlots_example :
    SameSlots (invoke_tool good_ports note_call new_world).world.quotas new_world.quotas
invoke_tool-SameSlots_example = invoke_tool-SameSlots good_ports note_call new_world

invoke_tool-runs_example :
    ((tally (invoke_tool good_ports note_call new_world).world).runs ≡ (tally new_world).runs)
    ⊎ (((tally (invoke_tool good_ports note_call new_world).world).runs
          ≡ suc (tally new_world).runs)
        × ((s : Session) × (c : Capability) × IsNamed good_ports note_call s c
            × IsPermitted good_ports note_call s c))
invoke_tool-runs_example = invoke_tool-runs good_ports note_call new_world

note_call_succeeds : (invoke_tool good_ports note_call new_world).error ≡ none
unfolding invoke_tool finish succeed_invocation report_success complete_success check_schema
    check_artifacts with_artifacts complete_tool_invocation with_result after_run run_tool
    measure_as measure release_slot run_authorized new_invocation start_stored start_invocation
    check_correlation check_tool check_session validate_tool_request invoke_request check_decision
    check_answer check_runtime check_rate authorize_tool_invocation add_output add_logs
    build_invocation_artifact_payloads save_payloads persist_run_artifacts truncate_minute
    current_window count_in_window increment_trimmed increment_quota_window_counter rate_key
    principal_quota_key allow_principal_rate allow_rate_at allow_rate allow_run_result in_flight
    acquire_concurrency release output_too_large bytes_exceed emit after_save store_invocation
    observe_tool_kpis count_tool_call publish_invocation_completed record_telemetry
    update_online_bandit is_cluster capability_supported_by_runtime validate_output_against_schema
    or_null get_or get put delete trim_space trim_left trim_right snoc_space is_space to_lower lower
    text_eq take_slot
note_call_succeeds = refl

invoke_tool-Succeeds_example : Succeeds new_world (invoke_tool good_ports note_call new_world)
invoke_tool-Succeeds_example =
    invoke_tool-Succeeds good_ports note_call new_world note_call_succeeds
