-- ===== src/Detect/Analyzer/Total.antt =====
-- The analyzer of diagnose/detect/analyzers.py raises nothing on accepted pack names, and how many
-- findings it makes of single events.
use agent_debug_x.Base.{String, ◌≡◌, List, ◌++◌, length, ◌≤◌}
use agent_debug_x.Python.{ok}
use agent_debug_x.Schema.{AgentTrajectory, FailureFinding, DiagnosticReport}
use agent_debug_x.Detect.Matching.{EventRule}
use agent_debug_x.Detect.Findings.{TrajectoryRule}
use agent_debug_x.Detect.Registry.{
  RulePackSpec, resolve_rule_pack_names, load_event_rules, load_trajectory_rules,
}
use agent_debug_x.Detect.Analyzer.{all_event_findings, trajectory_findings}

-- The findings of a report are those of the rules that the requested packs load.
pub record IsAnalysis (spec : RulePackSpec) (trajectory : AgentTrajectory)
    (report : DiagnosticReport) : Type 0 where
  pub packs : List String
  pub event_rules : List EventRule
  pub trajectory_rules : List TrajectoryRule
  pub found : List FailureFinding
  pub resolved : resolve_rule_pack_names spec trajectory ≡ ok packs
  pub events_loaded : load_event_rules packs ≡ ok event_rules
  pub trajectories_loaded : load_trajectory_rules packs ≡ ok trajectory_rules
  pub of_events : all_event_findings trajectory event_rules trajectory.events ≡ ok found
  pub one_each : length found ≤ length trajectory.events
  pub findings : report.findings ≡ found ++ trajectory_findings trajectory trajectory_rules
