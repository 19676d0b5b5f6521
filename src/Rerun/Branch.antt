-- ===== src/Rerun/Branch.antt =====
-- rerun/branch.py and rerun/evaluators.py: two runs are compared by the number of events with an
-- error.
use agent_debug_x.Base.{
  ℕ, String, Bool, false, not, none, some, count_if, ltb, nat_beq, if◌then◌else◌, ◌==◌, string_eq,
}
use agent_debug_x.Schema.{AgentEvent, AgentTrajectory}

-- `if event.error`
unfoldable pub has_error : AgentEvent → Bool
has_error event = elim event.error [ none ↦ false | some text ↦ not (text == "") ]

unfoldable pub error_count : AgentTrajectory → ℕ
error_count trajectory = count_if has_error trajectory.events

pub data Outcome : Type 0 where
  improved worse unchanged : Outcome

pub record RerunComparison : Type 0 where
  pub original_trace_id : String
  pub rerun_trace_id : String
  pub original_error_count : ℕ
  pub rerun_error_count : ℕ
  pub result : Outcome

unfoldable pub compare_branches : AgentTrajectory → AgentTrajectory → RerunComparison
compare_branches original rerun =
    let original_errors = error_count original in
    let rerun_errors = error_count rerun in
    record {
      original_trace_id = original.trace_id;
      rerun_trace_id = rerun.trace_id;
      original_error_count = original_errors;
      rerun_error_count = rerun_errors;
      result =
          if ltb rerun_errors original_errors
          then improved
          else if ltb original_errors rerun_errors
          then worse
          else unchanged;
    }

pub record LocalProxyEvaluation : Type 0 where
  pub result : Outcome
  pub score_before : ℕ
  pub score_after : ℕ
  pub error_count_before : ℕ
  pub error_count_after : ℕ
  pub method : String

unfoldable pub evaluate_local_proxy : AgentTrajectory → AgentTrajectory → LocalProxyEvaluation
evaluate_local_proxy original rerun =
    let comparison = compare_branches original rerun in
    record {
      result = comparison.result;
      score_before = if nat_beq comparison.original_error_count 0 then 1 else 0;
      score_after = if nat_beq comparison.rerun_error_count 0 then 1 else 0;
      error_count_before = comparison.original_error_count;
      error_count_after = comparison.rerun_error_count;
      method = "local_proxy";
    }
