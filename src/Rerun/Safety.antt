-- ===== src/Rerun/Safety.antt =====
-- What `RerunWorkflow.run` and `to_dict` of rerun/workflow.py guarantee to a caller.
use agent_debug_x.Base.{
  String, ◌≡◌, refl, ◌⊎◌, inl, inr, Bool, true, false, ◌&&◌, ◌||◌, Option, none, some, ◌==◌,
  string_eq, Bool-cases, Option-cases, contains, keep,
}
use agent_debug_x.Python.{
  ok, err, value_error, >>=-eq-ok, require-eq-ok, ok-injective, is_true, get_value,
}
use agent_debug_x.Schema.{AgentTrajectory, DiagnosticReport}
use agent_debug_x.Rerun.Request.{
  RerunResult, RerunExecutor, result_mode, live_execution, simulated_rollout,
}
use agent_debug_x.Rerun.Branch.{evaluate_local_proxy}
use agent_debug_x.Rerun.Workflow.{
  RerunPlan, RerunWorkflow, RerunWorkflowResult, ResultView, make_plan, validate_execution_result,
  execute_plan, run_plan, run_workflow, to_dict, mode_of, is_mode, assess_rerun_capability,
  executor_mode, missing_parts,
}

-- A result that may be shown: observed by a live runner, or a simulation that was asked for.
pub IsAuthorized : Bool → RerunResult → Type 0
IsAuthorized allow_simulated execution =
    ((result_mode execution ≡ live_execution)
      × (is_true (get_value execution.metadata "observed_execution") ≡ true))
    ⊎ ((result_mode execution ≡ simulated_rollout) × (allow_simulated ≡ true))

validate-IsAuthorized :
    (execution : RerunResult) (allow : Bool) {u : Unit {0}}
    → validate_execution_result execution allow ≡ ok u
    → IsAuthorized allow execution
unfolding validate_execution_result IsAuthorized
validate-IsAuthorized execution allow h =
    let mode = result_mode execution in
    elim (Bool-cases (mode == live_execution)) [
      | inl e ↦ inl ((string_eq.beq_iff _ _).0 e, require-eq-ok _ _ (rw e at h))
      | inr e ↦ elim (Bool-cases (mode == simulated_rollout)) [
        | inl f ↦ inr ((string_eq.beq_iff _ _).0 f, require-eq-ok _ _ (rw (e, f) at h))
        | inr f ↦
            (let bad : err (value_error "rerun executor did not declare a valid execution_mode")
                  ≡ ok _ =
                rw (e, f) at h in
              cc)
      ]
    ]

-- What holds of a run that executed the plan.
pub record IsExecuted (workflow : RerunWorkflow) (trajectory : AgentTrajectory)
    (result : RerunWorkflowResult) : Type 0 where
  pub executor : RerunExecutor
  pub execution : RerunResult
  pub configured : workflow.executor ≡ some executor
  pub capable : result.plan.capability.executable ≡ true
  pub ran : executor.run result.plan.request ≡ ok execution
  pub shown : result.execution ≡ some execution
  pub authorized : IsAuthorized workflow.allow_simulated execution
  pub evaluated : result.evaluation ≡ some (evaluate_local_proxy trajectory execution.trajectory)

abbrev pub IsOutcome : RerunWorkflow → AgentTrajectory → Bool → RerunWorkflowResult → Type 0
IsOutcome workflow trajectory execute result =
    ((execute ≡ false) × (result.execution ≡ none) × (result.evaluation ≡ none))
    ⊎ ((execute ≡ true) × IsExecuted workflow trajectory result)

execute_plan-IsExecuted :
    (workflow : RerunWorkflow) (executor : RerunExecutor) (trajectory : AgentTrajectory)
    → (plan : RerunPlan) {result : RerunWorkflowResult} → workflow.executor ≡ some executor
    → execute_plan workflow executor trajectory plan ≡ ok result
    → (result.plan ≡ plan) × IsExecuted workflow trajectory result
unfolding execute_plan
execute_plan-IsExecuted workflow executor trajectory plan {result} c h =
    let (u, able, h₁) = >>=-eq-ok _ _ h in
    let (execution, ran, h₂) = >>=-eq-ok (executor.run plan.request) _ h₁ in
    let (v, valid, h₃) = >>=-eq-ok _ _ h₂ in
    let same = ok-injective h₃ in
    let able' = require-eq-ok _ _ able in
    let authorized = validate-IsAuthorized execution workflow.allow_simulated valid in
    rw (← same) (
      (
        refl,
        record {
          executor = executor;
          execution = execution;
          configured = c;
          capable = able';
          ran = ran;
          shown = refl;
          authorized = authorized;
          evaluated = refl;
        },
      ))

run_plan-IsOutcome :
    (workflow : RerunWorkflow) (trajectory : AgentTrajectory) (execute : Bool) (plan : RerunPlan)
    → {result : RerunWorkflowResult} → run_plan workflow trajectory execute plan ≡ ok result
    → (result.plan ≡ plan) × IsOutcome workflow trajectory execute result
unfolding run_plan
run_plan-IsOutcome workflow trajectory false plan h =
    rw (← ok-injective h) ((refl, inl (refl, refl, refl)))
run_plan-IsOutcome workflow trajectory true plan h = elim (Option-cases workflow.executor) [
  | inl e ↦
      (let bad : err (value_error "Rerun execution requires an approved executor.") ≡ ok _ =
          rw e at h in
        cc)
  | inr (executor, e) ↦
      (let (same, done) = execute_plan-IsExecuted workflow executor trajectory plan e (rw e at h) in
        (same, inr (refl, done)))
]

-- A run that returns has the plan of its report. If `execute` was not asked for, no execution and no
-- evaluation come with it. If it was, the plan is executable, the configured executor ran the
-- request of that plan and returned the execution shown, which is either a live one that confirms
-- that it was observed or a simulation that the workflow allows, and the evaluation compares it with
-- the original trajectory.
pub run_workflow-IsOutcome :
    (workflow : RerunWorkflow) (report : DiagnosticReport) (trajectory : AgentTrajectory)
    → (execute : Bool) (policy : String) (checkpoint_id : Option String)
    → (result : RerunWorkflowResult)
    → run_workflow workflow report trajectory execute policy checkpoint_id ≡ ok result
    → (make_plan workflow report (some trajectory) policy checkpoint_id ≡ ok result.plan)
      × IsOutcome workflow trajectory execute result
unfolding run_workflow
run_workflow-IsOutcome workflow report trajectory execute policy checkpoint_id result h =
    let (plan, made, h₁) =
      >>=-eq-ok (make_plan workflow report (some trajectory) policy checkpoint_id) _ h in
    let (same, done) = run_plan-IsOutcome workflow trajectory execute plan h₁ in
    (rw same made, done)

-- The capability is executable exactly if the executor's mode is live, or is a simulation that is
-- allowed; it is executable, or the framework runner is among what is missing.
pub assess_rerun_capability-executable :
    (trajectory : Option AgentTrajectory) (executor : Option RerunExecutor) (allow : Bool)
    → let capability = assess_rerun_capability trajectory executor allow in
      let mode = executor_mode executor in
      (capability.executable ≡ (mode == live_execution || (mode == simulated_rollout && allow)))
      × ((capability.executable ≡ true) ⊎ (contains capability.missing "framework_runner" ≡ true))
unfolding assess_rerun_capability missing_parts keep contains
assess_rerun_capability-executable trajectory executor allow =
    let mode = executor_mode executor in
    elim (Bool-cases (mode == live_execution)) [
      | inl e ↦ rw e ((refl, inl refl))
      | inr e ↦ elim (Bool-cases (mode == simulated_rollout && allow)) [
        | inl f ↦ rw (e, f) ((refl, inl refl))
        | inr f ↦ rw (e, f) ((refl, inr refl))
      ]
    ]

-- Nothing was executed; or an execution is published as live, and confirms that it was observed; or
-- one is published as simulated and as not verified, and the workflow allows that.
abbrev pub IsHonest : RerunWorkflow → ResultView → Type 0
IsHonest workflow view =
    ((view.executed ≡ false) × (view.live ≡ false) × (view.execution ≡ none))
    ⊎ ((view.executed ≡ true)
        × (view.live ≡ true)
        × ((x : RerunResult) × (view.execution ≡ some x)
            × (is_true (get_value x.metadata "observed_execution") ≡ true)))
    ⊎ ((view.executed ≡ true)
        × (view.live ≡ false)
        × (view.status ≡ "simulated")
        × (view.verified ≡ some false)
        × (workflow.allow_simulated ≡ true))

view-IsHonest :
    (workflow : RerunWorkflow) (trajectory : AgentTrajectory) (result : RerunWorkflowResult)
    → IsExecuted workflow trajectory result
    → ((to_dict result).executed ≡ true) × IsHonest workflow (to_dict result)
unfolding to_dict mode_of is_mode IsAuthorized
view-IsHonest workflow trajectory result done = elim done.authorized [
  | inl (mode, seen) ↦
      rw (done.shown, mode) ((refl, inr (inl (refl, refl, (done.execution, refl, seen)))))
  | inr (mode, allowed) ↦
      rw (done.shown, mode) ((refl, inr (inr (refl, refl, refl, refl, allowed))))
]

-- What `to_dict` publishes of a run that returns tells whether an execution was asked for. If one
-- was, it is either published as live, and confirms that it was observed, or as simulated and not
-- verified, on a workflow that allows simulations; if none was, none is shown, nor called live.
pub to_dict-IsHonest :
    (workflow : RerunWorkflow) (report : DiagnosticReport) (trajectory : AgentTrajectory)
    → (execute : Bool) (policy : String) (checkpoint_id : Option String)
    → (result : RerunWorkflowResult)
    → run_workflow workflow report trajectory execute policy checkpoint_id ≡ ok result
    → ((to_dict result).executed ≡ execute) × IsHonest workflow (to_dict result)
unfolding to_dict mode_of is_mode
to_dict-IsHonest workflow report trajectory execute policy checkpoint_id result h =
    elim (run_workflow-IsOutcome workflow report trajectory execute policy checkpoint_id result
      h).1 [
        | inl (off, absent, _) ↦ rw (off, absent) ((refl, inl (refl, refl, refl)))
        | inr (on, done) ↦ rw on (view-IsHonest workflow trajectory result done)
      ]
