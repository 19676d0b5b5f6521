-- ===== src/Rerun/Workflow.antt =====
-- rerun/workflow.py: the assessment of what can be rerun, the plan, its execution and the public
-- view of the result.
use agent_debug_x.Base.{
  String, Bool, true, false, not, ◌&&◌, ◌||◌, Option, none, some, List, [], ◌∷◌, ◌++◌, keep,
  contains, if◌then◌else◌, is_some, ◌==◌, string_eq,
}
use agent_debug_x.Python.{
  Fields, end, field, str, bool, get_value, truthy, as_dict, is_true, Result, ok, err, value_error,
  ◌>>=◌, ◌>>◌, require,
}
use agent_debug_x.Schema.{AgentTrajectory, DiagnosticReport}
use agent_debug_x.Rerun.Request.{
  RerunCapability, RerunRequest, RerunResult, RerunExecutor, result_mode, live_execution,
  simulated_rollout, build_rerun_request,
}
use agent_debug_x.Rerun.Branch.{LocalProxyEvaluation, evaluate_local_proxy}

-- `_replay_capabilities`
unfoldable pub replay_entry : Fields → String → List String
replay_entry replay name = if truthy (get_value replay name) then name ∷ [] else []

unfoldable pub replay_capabilities : Option AgentTrajectory → List String
unfolding replay_entry
replay_capabilities none = []
replay_capabilities (some trajectory) =
    elim (as_dict (get_value trajectory.metadata "replay_bundle")) [
      | none ↦ []
      | some replay ↦
          "replay_bundle"
          ∷ (replay_entry replay "environment_snapshot"
              ++ (replay_entry replay "tool_manifest" ++ replay_entry replay "dependency_lock"))
    ]

unfoldable pub executor_mode : Option RerunExecutor → String
executor_mode none = ""
executor_mode (some executor) = executor.execution_mode

-- `missing`, with what the replay bundle supplies taken out
unfoldable pub missing_parts : List String → List String
missing_parts replay =
    keep
      (λ part. not (
        (part == "environment_state" && contains replay "environment_snapshot")
        || (part == "tool_runtime" && contains replay "tool_manifest")))
      ("framework_runner" ∷ "tool_runtime" ∷ "environment_state" ∷ [])

-- `assess_rerun_capability`
unfoldable pub assess_rerun_capability :
    Option AgentTrajectory → Option RerunExecutor → Bool → RerunCapability
unfolding missing_parts executor_mode
assess_rerun_capability trajectory executor allow_simulated =
    let replay = replay_capabilities trajectory in
    let available =
      "diagnostic_report" ∷ ((if is_some trajectory then "trajectory" ∷ [] else []) ++ replay) in
    let mode = executor_mode executor in
    if mode == live_execution
    then record {
      level = "live_runner";
      executable = true;
      execution_mode = some live_execution;
      missing = [];
      available = available ++ "framework_runner" ∷ "tool_runtime" ∷ [];
      reason = "Live framework runner is configured for real model/tool execution.";
    }
    else if mode == simulated_rollout && allow_simulated
    then record {
      level = "trajectory_only";
      executable = true;
      execution_mode = some simulated_rollout;
      missing = "framework_runner" ∷ "tool_runtime" ∷ "environment_state" ∷ [];
      available = available;
      reason = "Only an explicitly labeled simulation can run; no tools are executed.";
    }
    else record {
      level = elim replay [ [] ↦ "trajectory_only" | _ ∷ _ ↦ "replay_bundle" ];
      executable = false;
      execution_mode = none;
      missing = missing_parts replay;
      available = available;
      reason = elim replay [
        | [] ↦
            "Real rerun is unavailable from a trajectory alone. Configure a live framework runner that owns the model, tools, credentials, and environment."
        | _ ∷ _ ↦ "Replay metadata is present, but a live framework runner is still required."
      ];
    }

pub record RerunPlan : Type 0 where
  pub request : RerunRequest
  pub capability : RerunCapability
  pub status : String
  pub execution_required : Bool
  pub approval_required : Bool
  pub reason : String
  pub metadata : Fields

pub record RerunWorkflowResult : Type 0 where
  pub plan : RerunPlan
  pub execution : Option RerunResult
  pub evaluation : Option LocalProxyEvaluation

pub record RerunWorkflow : Type 0 where
  pub executor : Option RerunExecutor
  pub allow_simulated : Bool

-- `RerunWorkflow.suggest_only`
unfoldable pub suggest_only : RerunWorkflow
suggest_only = record { executor = none; allow_simulated = false }

-- `RerunWorkflow.plan`
unfoldable pub make_plan :
    RerunWorkflow
    → DiagnosticReport
    → Option AgentTrajectory
    → String
    → Option String
    → Result RerunPlan
make_plan workflow report trajectory policy checkpoint_id = do
  request ← build_rerun_request report trajectory policy checkpoint_id
  let capability = assess_rerun_capability trajectory workflow.executor workflow.allow_simulated
  ok (record {
    request = request;
    capability = capability;
    status = if capability.executable then "planned" else "not_executable";
    execution_required = capability.executable;
    approval_required = request.directive.requires_human_approval;
    reason = capability.reason;
    metadata =
        field "source" (str "diagnose")
          (field "has_trajectory_context" (bool (is_some trajectory)) end);
  })

-- `_validate_execution_result`
unfoldable pub validate_execution_result : RerunResult → Bool → Result (Unit {0})
validate_execution_result execution allow_simulated =
    let mode = result_mode execution in
    if mode == live_execution
    then require (is_true (get_value execution.metadata "observed_execution"))
        (value_error "live rerun result must confirm observed_execution=true")
    else if mode == simulated_rollout
    then require allow_simulated (
        value_error
          "simulated rollout rejected: configure a live executor or explicitly allow simulation")
    else err (value_error "rerun executor did not declare a valid execution_mode")

-- The part of `run` that executes the plan
unfoldable pub execute_plan :
    RerunWorkflow → RerunExecutor → AgentTrajectory → RerunPlan → Result RerunWorkflowResult
execute_plan workflow executor trajectory plan = do
  require plan.capability.executable (value_error plan.capability.reason)
  execution ← executor.run plan.request
  validate_execution_result execution workflow.allow_simulated
  ok (record {
    plan = plan;
    execution = some execution;
    evaluation = some (evaluate_local_proxy trajectory execution.trajectory);
  })

-- The part of `run` behind the plan, where `execute` is the caller's choice
unfoldable pub run_plan :
    RerunWorkflow → AgentTrajectory → Bool → RerunPlan → Result RerunWorkflowResult
unfolding execute_plan
run_plan workflow trajectory execute plan =
    if not execute
    then ok (record { plan = plan; execution = none; evaluation = none })
    else elim workflow.executor [
      | none ↦ err (value_error "Rerun execution requires an approved executor.")
      | some executor ↦ execute_plan workflow executor trajectory plan
    ]

-- `RerunWorkflow.run`
unfoldable pub run_workflow :
    RerunWorkflow
    → DiagnosticReport
    → AgentTrajectory
    → Bool
    → String
    → Option String
    → Result RerunWorkflowResult
unfolding run_plan
run_workflow workflow report trajectory execute policy checkpoint_id = do
  plan ← make_plan workflow report (some trajectory) policy checkpoint_id
  run_plan workflow trajectory execute plan

-- The entry `evaluation` of the public view, with the two entries that a simulation adds
pub record EvaluationView : Type 0 where
  pub evaluation : LocalProxyEvaluation
  pub scope : Option String
  pub verified_task_outcome : Option Bool

-- What `to_dict` publishes. The plan and the execution are dumped as they are.
pub record ResultView : Type 0 where
  pub stage : String
  pub status : String
  pub execution_mode : Option String
  pub plan : RerunPlan
  pub executed : Bool
  pub live : Bool
  pub verified : Option Bool
  pub evaluation : Option EvaluationView
  pub execution : Option RerunResult

unfoldable pub view_evaluation : Bool → Option LocalProxyEvaluation → Option EvaluationView
view_evaluation simulated none = none
view_evaluation simulated (some evaluation) = some (record {
  evaluation = evaluation;
  scope = if simulated then some "simulated_trajectory_only" else none;
  verified_task_outcome = if simulated then some false else none;
})

unfoldable pub mode_of : Option RerunResult → Option String
mode_of none = none
mode_of (some execution) = some (result_mode execution)

unfoldable pub is_mode : Option String → String → Bool
is_mode none mode = false
is_mode (some m) mode = m == mode

-- `RerunWorkflowResult.to_dict`
unfoldable pub to_dict : RerunWorkflowResult → ResultView
unfolding view_evaluation mode_of is_mode
to_dict result =
    let mode = mode_of result.execution in
    let simulated = is_mode mode simulated_rollout in
    let executed = is_some result.execution in
    record {
      stage = "rerun";
      status =
          if simulated then "simulated" else if executed then "executed" else result.plan.status;
      execution_mode = mode;
      plan = result.plan;
      executed = executed;
      live = is_mode mode live_execution;
      verified = if simulated then some false else none;
      evaluation = view_evaluation simulated result.evaluation;
      execution = result.execution;
    }
