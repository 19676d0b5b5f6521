-- ===== src/Detect/Matching.antt =====
-- diagnose/detect/rules/base.py and the single-event rules of rules/packs/core/rules.py and
-- rules/packs/agenterrorbench/rules.py. The rule classes are the constructors of `EventRule`.
use agent_debug_x.Base.{
  ℕ, String, ◌+++◌, Bool, ◌&&◌, ◌||◌, not, Option, none, some, List, [], ◌∷◌, any, contains,
  if◌then◌else◌, or_else, ◌==◌, string_eq,
}
use agent_debug_x.Python.{
  Fields, dict, end, field, str, get, get_value, truthy, to_str, to_repr, str_or_empty, value_or,
  is_in, lower, strip, join,
}
use agent_debug_x.Schema.{AgentEvent, AgentTrajectory, is_type, tool_call, tool_result}

pub record RuleMatch : Type 0 where
  pub mode_id : String
  pub evidence : List String
  pub rule_id : String
  pub rule_pack : String
  pub confidence_basis : String
  pub priority : ℕ
  pub metadata : Fields
  pub confidence : Option ℕ

pub record KeywordRule : Type 0 where
  pub rule_id : String
  pub mode_id : String
  pub needles : List String
  pub evidence : String
  pub confidence_basis : String
  pub priority : ℕ
  pub rule_pack : String

pub data EventRule : Type 0 where
  keyword : KeywordRule → EventRule
  event_error structured_constraint metadata_status : EventRule
  alfworld_no_op webshop_no_progress : EventRule

unfoldable pub rule_priority : EventRule → ℕ
rule_priority (keyword rule) = rule.priority
rule_priority event_error = 100
rule_priority structured_constraint = 50
rule_priority metadata_status = 1000
rule_priority alfworld_no_op = 50
rule_priority webshop_no_progress = 60

-- `_contains`
unfoldable pub contains_any : String → List String → Bool
contains_any text needles = any (λ (needle : String). is_in needle text) needles

unfoldable pub match_keyword : KeywordRule → String → Option RuleMatch
unfolding contains_any
match_keyword rule text =
    let lowered = lower text in
    if not (contains_any lowered rule.needles)
    then none
    else some (record {
      mode_id = rule.mode_id;
      evidence = rule.evidence ∷ [];
      rule_id = rule.rule_id;
      rule_pack = rule.rule_pack;
      confidence_basis = rule.confidence_basis;
      priority = rule.priority;
      metadata = end;
      confidence = none;
    })

unfoldable pub explicit_error : AgentEvent → String → RuleMatch
explicit_error event error =
    if is_type event.event_type tool_call || is_type event.event_type tool_result
    then record {
      mode_id = "system.tool_execution_error";
      evidence = error ∷ [];
      rule_id = "core.system.tool_execution_error.explicit_error";
      rule_pack = "core";
      confidence_basis = "explicit error field on tool event";
      priority = 100;
      metadata = end;
      confidence = none;
    }
    else record {
      mode_id = "system.environment_error";
      evidence = error ∷ [];
      rule_id = "core.system.environment_error.explicit_error";
      rule_pack = "core";
      confidence_basis = "explicit error field on non-tool event";
      priority = 100;
      metadata = end;
      confidence = none;
    }

-- `if not event.error: return None`: an empty text counts as no error.
unfoldable pub match_event_error : AgentEvent → Option RuleMatch
unfolding explicit_error
match_event_error event = elim event.error [
  | none ↦ none
  | some error ↦ (if error == "" then none else some (explicit_error event error))
]

unfoldable pub match_structured_constraint : AgentEvent → Option RuleMatch
match_structured_constraint event =
    let constraint =
      value_or (get_value event.metadata "dropped_constraint")
        (get_value event.metadata "violated_constraint") in
    let decision_error = strip (str_or_empty (get_value event.metadata "decision_error")) in
    let detail =
      if decision_error == ""
      then "constraint " +++ to_repr constraint +++ " was not preserved"
      else decision_error in
    if not (truthy constraint) && decision_error == ""
    then none
    else some (record {
      mode_id = "planning.constraint_ignorance";
      evidence = detail ∷ [];
      rule_id = "core.planning.constraint_ignorance.structured";
      rule_pack = "core";
      confidence_basis = "structured constraint-loss metadata";
      priority = 50;
      metadata = field "constraint" (str (str_or_empty constraint)) end;
      confidence = some 950;
    })

-- `str(metadata.get('status', '')).lower()`
unfoldable pub status_text : Fields → String
status_text metadata = lower (elim (get metadata "status") [ none ↦ "" | some v ↦ to_str v ])

unfoldable pub match_metadata_status : AgentEvent → Option RuleMatch
unfolding status_text
match_metadata_status event =
    if not (contains ("failed" ∷ "failure" ∷ "error" ∷ []) (status_text event.metadata))
    then none
    else some (record {
      mode_id = "system.environment_error";
      evidence = "metadata status marks event as failed" ∷ [];
      rule_id = "core.system.environment_error.metadata_status";
      rule_pack = "core";
      confidence_basis = "metadata status is failed/failure/error";
      priority = 1000;
      metadata = end;
      confidence = none;
    })

-- `_trajectory_haystack`
unfoldable pub trajectory_haystack : AgentTrajectory → String
trajectory_haystack trajectory = lower (
    join "\n" (
      or_else trajectory.framework ""
      ∷ or_else trajectory.task_id ""
      ∷ to_str (dict trajectory.metadata)
      ∷ []))

unfoldable pub match_alfworld : String → AgentTrajectory → Option RuleMatch
match_alfworld text trajectory =
    if not (is_in "nothing happens" (lower text))
    then none
    else if not (is_in "alfworld" (trajectory_haystack trajectory))
    then none
    else some (record {
      mode_id = "planning.inefficient_plan";
      evidence = "ALFWorld environment returned \"Nothing happens\"" ∷ [];
      rule_id = "agenterrorbench.alfworld.nothing_happens";
      rule_pack = "agenterrorbench";
      confidence_basis = "ALFWorld no-op observation is a weak no-progress signal";
      priority = 50;
      metadata =
          field "benchmark" (str "agenterrorbench") (field "environment" (str "alfworld") end);
      confidence = none;
    })

unfoldable pub match_webshop : String → AgentTrajectory → Option RuleMatch
unfolding contains_any
match_webshop text trajectory =
    if not (is_in "webshop" (trajectory_haystack trajectory))
    then none
    else if not (contains_any (lower text) ("no results" ∷ "not available" ∷ "not found" ∷ []))
    then none
    else some (record {
      mode_id = "planning.inefficient_plan";
      evidence = "WebShop page content suggests no progress toward target item" ∷ [];
      rule_id = "agenterrorbench.webshop.no_progress";
      rule_pack = "agenterrorbench";
      confidence_basis = "WebShop search/detail page contains weak no-progress signal";
      priority = 60;
      metadata =
          field "benchmark" (str "agenterrorbench") (field "environment" (str "webshop") end);
      confidence = none;
    })

-- `rule.match(event, text, trajectory)`
unfoldable pub match_rule : EventRule → AgentEvent → String → AgentTrajectory → Option RuleMatch
match_rule (keyword rule) event text trajectory = match_keyword rule text
match_rule event_error event text trajectory = match_event_error event
match_rule structured_constraint event text trajectory = match_structured_constraint event
match_rule metadata_status event text trajectory = match_metadata_status event
match_rule alfworld_no_op event text trajectory = match_alfworld text trajectory
match_rule webshop_no_progress event text trajectory = match_webshop text trajectory

core_rule : String → String → List String → String → String → ℕ → EventRule
core_rule rule_id mode_id needles evidence confidence_basis priority = keyword (record {
  rule_id = rule_id;
  mode_id = mode_id;
  needles = needles;
  evidence = evidence;
  confidence_basis = confidence_basis;
  priority = priority;
  rule_pack = "core";
})

-- `build_event_rules` of the core pack
unfoldable pub core_event_rules : List EventRule
unfolding core_rule
core_event_rules =
    structured_constraint
    ∷ core_rule "core.system.llm_limit" "system.llm_limit"
        ("context length" ∷ "rate limit" ∷ "token limit" ∷ []) "limit signal in event payload"
        "specific LLM limit phrase" 200
    ∷ core_rule "core.action.format_error" "action.format_error"
        ("json" ∷ "schema" ∷ "malformed" ∷ "parse error" ∷ [])
        "format/schema signal in event payload" "format/schema keyword match" 300
    ∷ core_rule "core.action.parameter_error" "action.parameter_error"
        ("missing parameter" ∷ "invalid parameter" ∷ "hallucinated argument" ∷ [])
        "parameter signal in event payload" "parameter keyword match" 310
    ∷ core_rule "core.action.wrong_tool" "action.wrong_tool"
        ("unknown tool" ∷ "wrong tool" ∷ "tool mismatch" ∷ [])
        "tool-selection signal in event payload" "tool-selection keyword match" 320
    ∷ core_rule "core.planning.inefficient_plan" "planning.inefficient_plan"
        ("loop" ∷ "repeated" ∷ "no progress" ∷ "max steps" ∷ [])
        "loop/progress signal in event payload" "loop/no-progress keyword match" 400
    ∷ core_rule "core.planning.constraint_ignorance" "planning.constraint_ignorance"
        ("policy violation" ∷ "constraint ignored" ∷ "must not" ∷ [])
        "constraint signal in event payload" "constraint keyword match" 410
    ∷ core_rule "core.verification.premature_stop" "verification.premature_stop"
        ("premature" ∷ "early termination" ∷ "not complete" ∷ [])
        "termination signal in event payload" "termination keyword match" 500
    ∷ core_rule "core.multiagent.handoff_loss" "multiagent.handoff_loss"
        ("handoff" ∷ "lost context" ∷ "missing context" ∷ [])
        "handoff/context signal in event payload" "handoff/context keyword match" 600
    ∷ core_rule "core.multimodal.perception_error" "multimodal.perception_error"
        ("ocr error" ∷ "visual mismatch" ∷ "ui element mismatch" ∷ "perception error" ∷ [])
        "multimodal perception signal in event payload" "multimodal perception keyword match" 700
    ∷ event_error
    ∷ metadata_status
    ∷ []

-- `build_event_rules` of the AgentErrorBench pack
unfoldable pub bench_event_rules : List EventRule
bench_event_rules = alfworld_no_op ∷ webshop_no_progress ∷ []
