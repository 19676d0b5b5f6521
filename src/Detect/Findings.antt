-- ===== src/Detect/Findings.antt =====
-- The rule classes of diagnose/detect/rules/packs/core/rules.py, their class attributes, and the
-- finding that a rule of them makes.
use agent_debug_x.Base.{
  ℕ, String, ◌+++◌, char_count, Option, none, some, List, ltb, if◌then◌else◌, string_eq, pair_eq,
  first?,
}
use agent_debug_x.Python.{
  Value, Fields, end, field, str, null, to_str, split, join, take_chars, update,
}
use agent_debug_x.Schema.{AgentEvent, FailureMode, FailureFinding}

pub record RepeatedToolCall : Type 0 where
  pub threshold : ℕ

pub record RepeatedState : Type 0 where
  pub window : ℕ
  pub threshold : ℕ

pub record StepCountLimit : Type 0 where
  pub max_steps : ℕ

pub data TrajectoryRule : Type 0 where
  repeated_tool_call : RepeatedToolCall → TrajectoryRule
  repeated_state : RepeatedState → TrajectoryRule
  step_count_limit : StepCountLimit → TrajectoryRule
  premature_success : TrajectoryRule

unfoldable pub trajectory_rule_id : TrajectoryRule → String
trajectory_rule_id (repeated_tool_call _) = "core.trajectory.repeated_tool_call"
trajectory_rule_id (repeated_state _) = "core.trajectory.repeated_state"
trajectory_rule_id (step_count_limit _) = "core.trajectory.step_count_limit"
trajectory_rule_id premature_success = "core.verification.premature_success"

unfoldable pub trajectory_rule_priority : TrajectoryRule → ℕ
trajectory_rule_priority (repeated_tool_call _) = 100
trajectory_rule_priority (repeated_state _) = 110
trajectory_rule_priority (step_count_limit _) = 120
trajectory_rule_priority premature_success = 130

-- `' '.join(text.split())`
unfoldable pub squeeze : String → String
squeeze text = join " " (split text)

-- `_normalize` of a value, and of an optional text
unfoldable pub normalize : Value → String
normalize null = ""
normalize value = squeeze (to_str value)

unfoldable pub normalize_text : Option String → String
normalize_text none = ""
normalize_text (some text) = squeeze text

unfoldable pub truncate : String → ℕ → String
truncate text max_chars =
    if ltb max_chars (char_count text) then take_chars max_chars text +++ "..." else text

unfoldable pub suggestion_of : FailureMode → Option String
suggestion_of mode = first? mode.suggestion_templates

-- `_finding`
unfoldable pub finding :
    FailureMode → AgentEvent → List String → Fields → TrajectoryRule → String → FailureFinding
finding mode event evidence metadata rule confidence_basis = record {
  failure_mode = mode;
  event_id = some event.event_id;
  agent_name = some event.agent_name;
  step_index = event.step_index;
  confidence = none;
  evidence = evidence;
  suggestion = suggestion_of mode;
  metadata = update metadata (
      field "rule_pack" (str "core") (
        field "rule_id" (str (trajectory_rule_id rule)) (
          field "confidence_basis" (str confidence_basis) (
            field "analysis_layer" (str "cross_event_rule") (
              field "finding_source_label" (str "Cross-event rule") (
                field "trigger_scope" (str "trajectory") (
                  field "trigger_reason" (str confidence_basis) (
                    field "why_reported"
                      (str (
                        "This finding was emitted by deterministic rule "
                        +++ trajectory_rule_id rule
                        +++ " after analyzing multiple events together."))
                      end))))))));
  wrong_content_quote = none;
  reference_quote = none;
  conflict_with = none;
  quote_verified = none;
}
