-- ===== src/Samples/RerunRuns.antt =====
-- The theorems on reports, reruns and live results, applied to the sample run.
use agent_debug_x.Base.{
  ◌≤◌, ◌<◌, ◌≡◌, refl, ◌⊎◌, true, false, ◌&&◌, ◌||◌, none, some, [], ◌∷◌, length, contains,
  count_if, ◌==◌, string_eq, find_first, option_eq, nat_eq,
}
use agent_debug_x.Python.{
  Value, Fields, ok, null, bool, int, pos, str, dict, list, nil, cons, end, field, get_value,
  as_dict, str_or_empty, strip,
}
use agent_debug_x.Schema.{omits_confidence, report_to_dict, is_type}
use agent_debug_x.Schema.Confidence.{has_confidence, report_to_dict-cases}
use agent_debug_x.Rerun.Request.{
  RerunRequest, RerunResult, RerunExecutor, live_execution, simulated_rollout, build_rerun_request,
  checkpoint_event, result_mode,
}
use agent_debug_x.Rerun.Diagnosis.{
  find_event, diagnostic_context, compact_mapping, primary_or_first,
}
use agent_debug_x.Rerun.Workflow.{
  RerunPlan, RerunWorkflow, RerunWorkflowResult, make_plan, run_workflow, to_dict,
  assess_rerun_capability, executor_mode, validate_execution_result,
}
use agent_debug_x.Rerun.Safety.{
  IsOutcome, IsHonest, run_workflow-IsOutcome, to_dict-IsHonest, assess_rerun_capability-executable,
}
use agent_debug_x.Rerun.Checkpoints.{IsBranchPoint, build_rerun_request-IsBranchPoint}
use agent_debug_x.Rerun.Live.{
  ExecutionProof, is_empty_text, check_proof, check_trajectory, observed_tool_calls,
  parse_live_result,
}
use agent_debug_x.Rerun.Observed.{IsProof, parse_live_result-IsProof}
use agent_debug_x.Samples.Traces.{is_ok, ok_of, run, report, claim, trajectory_of}

-- A live executor that answers with a run of one event
abbrev executor : RerunExecutor
executor = record {
  id = "sample";
  execution_mode = live_execution;
  run = λ request. ok (record {
    request = request;
    trajectory = trajectory_of (claim ∷ []);
    metadata =
        field "execution_mode" (str live_execution) (field "observed_execution" (bool true) end);
  });
}

abbrev workflow : RerunWorkflow
workflow = record { executor = some executor; allow_simulated = false }

ran : is_ok (run_workflow workflow report run true "root_cause" (some "e3")) ≡ true
unfolding run_workflow make_plan build_rerun_request checkpoint_event find_event find_first
    diagnostic_context compact_mapping primary_or_first get_value assess_rerun_capability
    validate_execution_result result_mode str_or_empty
ran = refl

planned : is_ok (make_plan workflow report (some run) "root_cause" (some "e3")) ≡ true
unfolding make_plan build_rerun_request checkpoint_event find_event find_first diagnostic_context
    compact_mapping primary_or_first get_value
planned = refl

built : is_ok (build_rerun_request report (some run) "root_cause" (some "e3")) ≡ true
unfolding build_rerun_request checkpoint_event find_event find_first diagnostic_context
    compact_mapping primary_or_first get_value
built = refl

abbrev result : RerunWorkflowResult
result = (ok_of (run_workflow workflow report run true "root_cause" (some "e3")) ran).0

abbrev plan : RerunPlan
plan = (ok_of (make_plan workflow report (some run) "root_cause" (some "e3")) planned).0

abbrev request : RerunRequest
request = (ok_of (build_rerun_request report (some run) "root_cause" (some "e3")) built).0

abbrev execution : RerunResult
execution = record {
  request = plan.request;
  trajectory = trajectory_of (claim ∷ []);
  metadata =
      field "execution_mode" (str live_execution) (field "observed_execution" (bool true) end);
}

run_workflow-IsOutcome_example :
    (make_plan workflow report (some run) "root_cause" (some "e3") ≡ ok result.plan)
    × IsOutcome workflow run true result
run_workflow-IsOutcome_example =
    run_workflow-IsOutcome workflow report run true "root_cause" (some "e3") result
      (ok_of (run_workflow workflow report run true "root_cause" (some "e3")) ran).1

to_dict-IsHonest_example : ((to_dict result).executed ≡ true) × IsHonest workflow (to_dict result)
to_dict-IsHonest_example =
    to_dict-IsHonest workflow report run true "root_cause" (some "e3") result
      (ok_of (run_workflow workflow report run true "root_cause" (some "e3")) ran).1

assess_rerun_capability-executable_example :
    let capability = assess_rerun_capability (some run) none true in
    (capability.executable
      ≡ (executor_mode none == live_execution || (executor_mode none == simulated_rollout && true)))
    × ((capability.executable ≡ true) ⊎ (contains capability.missing "framework_runner" ≡ true))
assess_rerun_capability-executable_example = assess_rerun_capability-executable (some run) none true

build_rerun_request-IsBranchPoint_example :
    (request.checkpoint.policy ≡ "root_cause")
    × (request.trace_id ≡ "t1")
    × IsBranchPoint report run "e3" request.checkpoint
build_rerun_request-IsBranchPoint_example =
    build_rerun_request-IsBranchPoint report run "root_cause" (some "e3") request
      (ok_of (build_rerun_request report (some run) "root_cause" (some "e3")) built).1

abbrev execution_fields : Fields
execution_fields = field "mode" (str live_execution) (
    field "observed_execution" (bool true) (
      field "tools_executed" (bool true) (
        field "runner" (str "lab")
          (field "framework" (str "react") (field "tool_execution_count" (int (pos 2)) end)))))

abbrev payload : Value
payload = dict (field "execution" (dict execution_fields) (field "trajectory" (dict end) end))

abbrev live_proof : ExecutionProof
live_proof = record {
  fields = execution_fields;
  tools_executed = true;
  runner = strip "lab";
  framework = strip "react";
  tool_execution_count = 2;
}

parse_live_result-IsProof_example :
    IsProof live_proof
    × (0 < length run.events)
    × (2 ≤ observed_tool_calls run)
    × ((fields : Fields) × (content : Fields) × (as_dict payload ≡ some fields)
        × (as_dict (get_value fields "execution") ≡ some execution_fields)
        × (as_dict (get_value fields "trajectory") ≡ some content)
        × (ok run ≡ ok run))
unfolding parse_live_result check_proof check_trajectory get_value observed_tool_calls count_if
    is_empty_text strip str_or_empty is_type
parse_live_result-IsProof_example =
    parse_live_result-IsProof (λ content. ok run) payload run live_proof end refl

abbrev report_payload : Value
report_payload = dict (
    field "summary" (str "x") (
      field "findings"
        (list (cons (dict (field "confidence" null (field "event_id" (str "e2") end))) nil)) end))

report_to_dict-cases_example :
    ((omits_confidence report ≡ true)
      × (has_confidence (report_to_dict report report_payload) ≡ false))
    ⊎ ((omits_confidence report ≡ false) × (report_to_dict report report_payload ≡ report_payload))
report_to_dict-cases_example = report_to_dict-cases report report_payload
