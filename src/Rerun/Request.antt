-- ===== src/Rerun/Request.antt =====
-- rerun/request.py and rerun/executors/base.py, and the construction of a request in
-- rerun/workflow.py.
use agent_debug_x.Base.{
  ℕ, String, ◌+++◌, Bool, Option, none, some, List, length, if◌then◌else◌, or_else, ◌==◌, string_eq,
  nat_eq, option_eq,
}
use agent_debug_x.Python.{
  Fields, int, str, end, field, pos, get_value, str_or_empty, opt_str, opt_int, Result, ok, err,
  value_error, ◌>>=◌,
}
use agent_debug_x.Schema.{AgentEvent, AgentTrajectory, DiagnosticReport}
use agent_debug_x.Rerun.Diagnosis.{
  find_event, target_event, directive_text, requires_approval, diagnostic_context,
}

pub record RerunCapability : Type 0 where
  pub level : String
  pub executable : Bool
  pub execution_mode : Option String
  pub missing : List String
  pub available : List String
  pub reason : String

pub record RerunCheckpoint : Type 0 where
  pub event_id : Option String
  pub step_index : Option ℕ
  pub policy : String

pub record RerunDirective : Type 0 where
  pub text : String
  pub source : String
  pub target_event_id : Option String
  pub requires_human_approval : Bool
  pub metadata : Fields

pub record RerunRequest : Type 0 where
  pub trace_id : String
  pub checkpoint : RerunCheckpoint
  pub directive : RerunDirective
  pub report_id : Option String
  pub metadata : Fields

abbrev pub live_execution : String
live_execution = "live_execution"

abbrev pub simulated_rollout : String
simulated_rollout = "simulated_rollout"

pub record RerunResult : Type 0 where
  pub request : RerunRequest
  pub trajectory : AgentTrajectory
  pub metadata : Fields

-- The property `execution_mode` of a result
unfoldable pub result_mode : RerunResult → String
result_mode result = str_or_empty (get_value result.metadata "execution_mode")

-- The protocol of an executor. What one does is outside the workflow: `run` is any function.
pub record RerunExecutor : Type 0 where
  pub id : String
  pub execution_mode : String
  pub run : RerunRequest → Result RerunResult

abbrev pub from_start : String
from_start = "from_start"

-- The event from which the rerun branches. A named event that is not in the trajectory is refused.
unfoldable pub checkpoint_event :
    DiagnosticReport → Option AgentTrajectory → String → Option String → Result (Option AgentEvent)
checkpoint_event report none policy checkpoint_id = ok none
checkpoint_event report (some trajectory) policy checkpoint_id =
    let id = or_else checkpoint_id "" in
    if policy == from_start
    then ok none
    else if id == ""
    then ok (target_event report (some trajectory))
    else elim (find_event id trajectory.events) [
      | none ↦ err (value_error ("unknown rerun checkpoint event: " +++ id))
      | some event ↦ ok (some event)
    ]

unfoldable pub build_checkpoint : DiagnosticReport → Option AgentEvent → String → RerunCheckpoint
build_checkpoint report event policy = record {
  event_id =
      if policy == from_start
      then none
      else elim event [ none ↦ report.root_cause_event_id | some e ↦ some e.event_id ];
  step_index =
      if policy == from_start
      then none
      else elim event [ none ↦ report.root_cause_step_index | some e ↦ e.step_index ];
  policy = policy;
}

-- `build_rerun_request`
unfoldable pub build_rerun_request :
    DiagnosticReport → Option AgentTrajectory → String → Option String → Result RerunRequest
unfolding build_checkpoint
build_rerun_request report trajectory policy checkpoint_id = do
  event ← checkpoint_event report trajectory policy checkpoint_id
  context ← diagnostic_context report
  let checkpoint = build_checkpoint report event policy
  ok (record {
    trace_id = elim trajectory [ none ↦ report.trace_id | some t ↦ t.trace_id ];
    checkpoint = checkpoint;
    directive = record {
      text = directive_text report;
      source = "diagnosis";
      target_event_id =
          if policy == from_start then report.root_cause_event_id else checkpoint.event_id;
      requires_human_approval = requires_approval report;
      metadata = field "summary" (str report.summary) (
          field "root_cause_agent" (opt_str report.root_cause_agent) (
            field "root_cause_event_id" (opt_str report.root_cause_event_id)
              (field "root_cause_step_index" (opt_int report.root_cause_step_index) end)));
    };
    report_id = some report.report_id;
    metadata = field "task_id" (opt_str report.task_id) (
        field "finding_count" (int (pos (length report.findings))) (
          field "suggestion_count" (int (pos (length report.suggestions)))
            (field "diagnostic_context" context end)));
  })
