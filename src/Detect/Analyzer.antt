-- ===== src/Detect/Analyzer.antt =====
-- diagnose/detect/analyzers.py: the heuristic analyzer. The id and the time of a report come from
-- outside the program, and are arguments.
pub mod Matches
pub mod Winner
pub mod Root
pub mod Suggestions
pub mod Total
use agent_debug_x.Base.{
  ℕ, ◌+◌, String, ◌+++◌, Bool, Option, none, some, List, [], ◌∷◌, ◌++◌, flat_map, first?, sort_by,
  leb, if◌then◌else◌, or_else, is_some, ◌==◌, string_eq, Dict, lookup, insert, append_unique,
  length,
}
use agent_debug_x.Python.{
  Fields, dict, end, field, str, int, pos, list, Items, nil, cons, to_str, str_or_empty, join,
  show_nat, update, Result, ok, err, key_error, ◌>>=◌,
}
use agent_debug_x.Schema.{
  AgentEvent, AgentTrajectory, FailureMode, FailureFinding, DiagnosticReport, event_type_value,
  get_failure_mode,
}
use agent_debug_x.Detect.Matching.{EventRule, RuleMatch, match_rule}
use agent_debug_x.Detect.Anomalies.{detect}
use agent_debug_x.Detect.Findings.{TrajectoryRule, suggestion_of}
use agent_debug_x.Detect.Registry.{
  RulePackSpec, resolve_rule_pack_names, load_event_rules, load_trajectory_rules,
}
use agent_debug_x.Detect.Selection.{no_step, missing_step, step_or_last, confidence_of, lex}

-- `_event_text`
unfoldable pub event_text : AgentEvent → String
event_text event = join "\n" (
    event_type_value event.event_type
    ∷ or_else event.module_name ""
    ∷ str_or_empty event.input
    ∷ str_or_empty event.output
    ∷ or_else event.error ""
    ∷ to_str (dict event.metadata)
    ∷ [])

-- `_match_failure_mode`: the first rule that matches
unfoldable pub match_failure_mode :
    AgentEvent → String → AgentTrajectory → List EventRule → Option RuleMatch
match_failure_mode event text trajectory [] = none
match_failure_mode event text trajectory (rule ∷ rules) =
    elim (match_rule rule event text trajectory) [
      | none ↦ match_failure_mode event text trajectory rules
      | some matched ↦ some matched
    ]

-- `_finding_metadata`
unfoldable pub finding_metadata : AgentEvent → RuleMatch → Fields
finding_metadata event matched =
    let event_type = event_type_value event.event_type in
    field "event_type" (str event_type) (
      field "source" (str "heuristic_rule") (
        field "rule_pack" (str matched.rule_pack) (
          field "rule_id" (str matched.rule_id) (
            field "confidence_basis" (str matched.confidence_basis) (
              field "analysis_layer" (str "single_event_rule") (
                field "finding_source_label" (str "Single-event rule") (
                  field "trigger_scope" (str "event") (
                    field "trigger_reason" (str matched.confidence_basis) (
                      field "why_reported"
                        (str (
                          "This event matched deterministic rule " +++ matched.rule_id
                          +++ " for event type " +++ event_type +++ "."))
                        end)))))))))

unfoldable pub event_finding : AgentEvent → RuleMatch → FailureMode → FailureFinding
event_finding event matched mode = record {
  failure_mode = mode;
  event_id = some event.event_id;
  agent_name = some event.agent_name;
  step_index = event.step_index;
  confidence = matched.confidence;
  evidence = matched.evidence;
  suggestion = suggestion_of mode;
  metadata = update (finding_metadata event matched) matched.metadata;
  wrong_content_quote = none;
  reference_quote = none;
  conflict_with = none;
  quote_verified = none;
}

-- `_event_findings`; the mode is looked up with `SEED_FAILURE_MODES[matched.mode_id]`.
unfoldable pub event_findings :
    AgentEvent → AgentTrajectory → List EventRule → Result (List FailureFinding)
event_findings event trajectory rules =
    elim (match_failure_mode event (event_text event) trajectory rules) [
      | none ↦ ok []
      | some matched ↦ elim (get_failure_mode matched.mode_id) [
        | none ↦ err (key_error matched.mode_id)
        | some mode ↦ ok (event_finding event matched mode ∷ [])
      ]
    ]

unfoldable pub all_event_findings :
    AgentTrajectory → List EventRule → List AgentEvent → Result (List FailureFinding)
all_event_findings trajectory rules [] = ok []
all_event_findings trajectory rules (event ∷ events) = do
  found ← event_findings event trajectory rules
  more ← all_event_findings trajectory rules events
  ok (found ++ more)

-- `_trajectory_findings`
unfoldable pub trajectory_findings : AgentTrajectory → List TrajectoryRule → List FailureFinding
trajectory_findings trajectory rules = flat_map (λ rule. detect rule trajectory) rules

-- `{event.event_id: i for i, event in enumerate(events)}`
unfoldable pub event_order_from : Dict String ℕ → ℕ → List AgentEvent → Dict String ℕ
event_order_from order i [] = order
event_order_from order i (event ∷ events) =
    event_order_from (insert order event.event_id i) (i + 1) events

unfoldable pub event_order : List AgentEvent → Dict String ℕ
event_order events = event_order_from [] 0 events

-- The third component of the key: the event's position, where the finding has no step.
unfoldable pub order_of : Dict String ℕ → FailureFinding → ℕ
order_of order f = elim f.event_id [
  | none ↦ no_step
  | some id ↦ (if is_some f.step_index then no_step else or_else (lookup order id) no_step)
]

-- The key (step is None, step, order, -confidence)
unfoldable pub root_le : Dict String ℕ → FailureFinding → FailureFinding → Bool
root_le order f g = lex (missing_step f) (missing_step g) (
    lex (step_or_last f) (step_or_last g)
      (lex (order_of order f) (order_of order g) (leb (confidence_of g) (confidence_of f))))

unfoldable pub select_root_cause : Dict String ℕ → List FailureFinding → Option FailureFinding
select_root_cause order findings = first? (sort_by (root_le order) findings)

-- `_dedupe` of the suggestions that are present
unfoldable pub dedupe_suggestions : List String → List FailureFinding → List String
dedupe_suggestions result [] = result
dedupe_suggestions result (finding ∷ findings) =
    dedupe_suggestions
      (elim finding.suggestion [ none ↦ result | some value ↦ append_unique result value ]) findings

-- The step that the report shows: the finding's own, or else the event's position.
unfoldable pub inferred_step : Dict String ℕ → FailureFinding → Option ℕ
inferred_step order root = elim root.step_index [
  | some step ↦ some step
  | none ↦ elim root.event_id [ none ↦ none | some id ↦ lookup order id ]
]

-- `text or other`, for an optional text
unfoldable pub text_or : Option String → String → String
text_or none other = other
text_or (some text) other = if text == "" then other else text

unfoldable pub root_summary : FailureFinding → Option ℕ → String
root_summary root step =
    "Likely root cause: "
    +++ root.failure_mode.name
    +++ " in "
    +++ text_or root.agent_name "unknown agent"
    +++ " at step "
    +++ elim step [ none ↦ "?" | some n ↦ show_nat n ]
    +++ "."

str_items : List String → Items
str_items [] = nil
str_items (s ∷ rest) = cons (str s) (str_items rest)

unfoldable pub with_root :
    Dict String ℕ → Option FailureFinding → DiagnosticReport → DiagnosticReport
with_root order none report = report
with_root order (some root) report =
    let step = inferred_step order root in
    record report {
      root_cause_event_id = root.event_id;
      root_cause_agent = root.agent_name;
      root_cause_step_index = step;
      summary = root_summary root step;
    }

-- What `analyze` returns once the rules are loaded and the findings are made.
unfoldable pub build_report :
    String → ℕ → AgentTrajectory → List String → ℕ → ℕ → List FailureFinding → DiagnosticReport
unfolding str_items with_root
build_report report_id now trajectory packs event_rules trajectory_rules findings =
    let order = event_order trajectory.events in
    with_root order (select_root_cause order findings) (record {
      report_id = report_id;
      trace_id = trajectory.trace_id;
      task_id = trajectory.task_id;
      generated_at = now;
      root_cause_event_id = none;
      root_cause_agent = none;
      root_cause_step_index = none;
      findings = findings;
      summary = "No failure was detected.";
      suggestions = dedupe_suggestions [] findings;
      attribution = none;
      recovery = none;
      audit = [];
      metadata = field "analyzer" (str "HeuristicAnalyzer") (
          field "rule_packs" (list (str_items packs)) (
            field "event_rule_count" (int (pos event_rules))
              (field "trajectory_rule_count" (int (pos trajectory_rules)) end)));
    })

unfoldable pub analyze : String → ℕ → RulePackSpec → AgentTrajectory → Result DiagnosticReport
unfolding build_report
analyze report_id now spec trajectory = do
  packs ← resolve_rule_pack_names spec trajectory
  event_rules ← load_event_rules packs
  trajectory_rules ← load_trajectory_rules packs
  found ← all_event_findings trajectory event_rules trajectory.events
  ok (
      build_report report_id now trajectory packs (length event_rules) (length trajectory_rules)
        (found ++ trajectory_findings trajectory trajectory_rules))
