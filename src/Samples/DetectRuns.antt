-- ===== src/Samples/DetectRuns.antt =====
-- The theorems on detection, applied to the sample run.
use agent_debug_x.Base.{
  String, ◌≡◌, refl, ◌≢◌, ◌⊎◌, true, false, none, some, List, [], ◌∷◌, map, arith, All, IsDistinct,
  contains, any, string_eq, option_eq, keep, count_if, is_some, if◌then◌else◌, sort_by, insert_by,
}
use agent_debug_x.Python.{ok, join, split, to_str, truthy, value_or, get_value, strip, str_or_empty}
use agent_debug_x.Schema.{AgentEvent, FailureFinding, is_type}
use agent_debug_x.Detect.Matching.{
  EventRule, match_rule, match_event_error, match_keyword, match_structured_constraint,
  match_metadata_status, rule_priority, core_event_rules, explicit_error,
}
use agent_debug_x.Detect.Anomalies.{
  detect_repeated_tool_call, detect_repeated_state, detect_premature_success, has_state, claim_of,
  run_failed, call_key,
}
use agent_debug_x.Detect.Findings.{RepeatedToolCall, squeeze, normalize}
use agent_debug_x.Detect.Anomalies.Windows.{blamed, IsJustified, detect_repeated_state-IsJustified}
use agent_debug_x.Detect.Anomalies.Calls.{
  IsRepeated, detect_repeated_tool_call-IsRepeated, detect_repeated_tool_call_complete,
}
use agent_debug_x.Detect.Anomalies.Success.{IsLastClaim, detect_premature_success-cases}
use agent_debug_x.Detect.Registry.{
  many, requested_packs, available_rule_packs, resolve_rule_pack_names, load_event_rules,
  extend_rules, pack_event_rules, event_rule_le,
}
use agent_debug_x.Detect.Registry.Packs.{IsResolved, IsAccepted, resolve_rule_pack_names-IsResolved}
use agent_debug_x.Detect.Analyzer.{match_failure_mode, build_report}
use agent_debug_x.Detect.Analyzer.Winner.{IsWinner, match_failure_mode-IsWinner}
use agent_debug_x.Detect.Analyzer.Root.{IsRoot, place_of, build_report-IsRoot}
use agent_debug_x.Samples.Traces.{run, search, again, failed, early, late}

abbrev two_names : List String
two_names = "auto" ∷ "gui" ∷ []

two_names-IsAccepted : All IsAccepted two_names
unfolding contains available_rule_packs
two_names-IsAccepted = (refl, (refl, tt))

abbrev repeated_twice : RepeatedToolCall
repeated_twice = record { threshold = 2 }

build_report-IsRoot_example :
    (g : FailureFinding) × IsRoot run.events (late ∷ early ∷ []) g
    × ((build_report "r1" 5 run ("core" ∷ []) 9 4 (late ∷ early ∷ [])).root_cause_event_id
        ≡ g.event_id)
    × ((build_report "r1" 5 run ("core" ∷ []) 9 4 (late ∷ early ∷ [])).root_cause_agent
        ≡ g.agent_name)
    × ((build_report "r1" 5 run ("core" ∷ []) 9 4 (late ∷ early ∷ [])).root_cause_step_index
        ≡ (if is_some g.step_index then g.step_index else place_of run.events g))
build_report-IsRoot_example = build_report-IsRoot "r1" 5 run ("core" ∷ []) 9 4 late (early ∷ [])

abbrev core_only : List String
core_only = "core" ∷ []

abbrev core_rules : List EventRule
core_rules = sort_by event_rule_le core_event_rules

core_loaded : load_event_rules core_only ≡ ok core_rules
unfolding load_event_rules extend_rules pack_event_rules
core_loaded = refl

match_failure_mode-IsWinner_example :
    IsWinner failed "no boom" run core_only core_rules (explicit_error failed "boom")
unfolding match_failure_mode match_rule match_event_error sort_by insert_by event_rule_le
    rule_priority core_event_rules match_keyword match_structured_constraint match_metadata_status
    contains available_rule_packs truthy value_or get_value strip str_or_empty
match_failure_mode-IsWinner_example =
    match_failure_mode-IsWinner failed "no boom" run core_only core_rules
      (explicit_error failed "boom") (refl, tt) core_loaded refl

detect_repeated_tool_call-IsRepeated_example :
    All (IsRepeated repeated_twice run.events) (detect_repeated_tool_call repeated_twice run)
detect_repeated_tool_call-IsRepeated_example =
    detect_repeated_tool_call-IsRepeated repeated_twice run

detect_repeated_tool_call_complete_example :
    any (λ f. option_eq.beq f.event_id (some "e3")) (detect_repeated_tool_call repeated_twice run)
    ≡ true
unfolding keep count_if is_type call_key normalize squeeze join split to_str
detect_repeated_tool_call_complete_example =
    detect_repeated_tool_call_complete repeated_twice run (call_key search) again refl (omega arith)

detect_repeated_state-IsJustified_example :
    IsDistinct (blamed (detect_repeated_state (record { window = 2; threshold = 2 }) run))
    × All
        (IsJustified (record { window = 2; threshold = 2 }) (keep has_state run.events))
        (detect_repeated_state (record { window = 2; threshold = 2 }) run)
detect_repeated_state-IsJustified_example =
    detect_repeated_state-IsJustified (record { window = 2; threshold = 2 }) run

detect_premature_success-cases_example :
    ((detect_premature_success run ≡ [])
      × ((run_failed run ≡ false) ⊎ All (λ event. claim_of event ≡ none) run.events))
    ⊎ ((run_failed run ≡ true)
        × ((target : AgentEvent) × (phrase : String) × IsLastClaim run.events target phrase
            × (map (λ f. f.event_id) (detect_premature_success run) ≡ some target.event_id ∷ [])))
detect_premature_success-cases_example = detect_premature_success-cases run

resolve_rule_pack_names-IsResolved_example :
    (packs : List String) × (resolve_rule_pack_names (many two_names) run ≡ ok packs)
    × IsResolved packs
    × (packs ≢ [])
unfolding requested_packs
resolve_rule_pack_names-IsResolved_example =
    resolve_rule_pack_names-IsResolved (many two_names) run two_names-IsAccepted
