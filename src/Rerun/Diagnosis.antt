-- ===== src/Rerun/Diagnosis.antt =====
-- What rerun/workflow.py reads from a report for a request: the target event, the directive's text
-- and the diagnostic context.
use agent_debug_x.Base.{
  ℕ, ◌-◌, String, ◌+++◌, char_count, Bool, true, Option, none, some, List, [], ◌∷◌, map, take,
  first?, find_first, leb, if◌then◌else◌, or_else, ◌==◌, string_eq, nat_eq, option_eq,
}
use agent_debug_x.Python.{
  Value, Items, Fields, null, str, list, tuple, dict, nil, end, field, get, get_value, truthy,
  to_str, value_or, as_dict, as_list, opt_str, opt_int, first_item, take_items, map_items, to_items,
  char_items, take_chars, Result, ok, err, type_error, ◌>>=◌,
}
use agent_debug_x.Schema.{AgentEvent, AgentTrajectory, FailureFinding, DiagnosticReport}

unfoldable pub find_event : String → List AgentEvent → Option AgentEvent
find_event id events = find_first (λ event. event.event_id == id) events

unfoldable pub find_step : ℕ → List AgentEvent → Option AgentEvent
find_step step events = find_first (λ event. event.step_index == some step) events

-- The loop over the findings: the first one whose event is in the trajectory.
unfoldable pub find_finding_event : List FailureFinding → List AgentEvent → Option AgentEvent
unfolding find_event
find_finding_event [] events = none
find_finding_event (finding ∷ findings) events =
    let rest = find_finding_event findings events in
    elim finding.event_id [
      | none ↦ rest
      | some id ↦
          (if id == ""
            then rest
            else elim (find_event id events) [ none ↦ rest | some event ↦ some event ])
    ]

-- `a`, or else `b`: where a loop that returns is followed by another.
abbrev pub first_of_two {ℓ} : {A : Type ℓ} → Option A → Option A → Option A
first_of_two none b = b
first_of_two (some a) b = some a

unfoldable pub root_event : Option String → List AgentEvent → Option AgentEvent
root_event none events = none
root_event (some id) events = if id == "" then none else find_event id events

unfoldable pub root_step_event : Option ℕ → List AgentEvent → Option AgentEvent
root_step_event none events = none
root_step_event (some step) events = find_step step events

-- `_target_event`
unfoldable pub target_event : DiagnosticReport → Option AgentTrajectory → Option AgentEvent
unfolding root_event root_step_event
target_event report none = none
target_event report (some trajectory) =
    first_of_two (root_event report.root_cause_event_id trajectory.events) (
      first_of_two (root_step_event report.root_cause_step_index trajectory.events)
        (find_finding_event report.findings trajectory.events))

-- The first proposal of the report's recovery, if the proposals are a list that is not empty.
unfoldable pub first_proposal : DiagnosticReport → Option Value
first_proposal report = elim (as_list (get_value (or_else report.recovery end) "proposals")) [
  | none ↦ none
  | some items ↦ first_item items
]

unfoldable pub proposal_text : Option Value → Option String
proposal_text (some (dict first)) =
    let suggestion = get_value first "suggestion_text" in
    if truthy suggestion then some (to_str suggestion) else none
proposal_text _ = none

-- The first suggestion of a finding that is not empty
unfoldable pub finding_suggestion : List FailureFinding → Option String
finding_suggestion [] = none
finding_suggestion (finding ∷ findings) =
    let rest = finding_suggestion findings in
    elim finding.suggestion [ none ↦ rest | some text ↦ (if text == "" then rest else some text) ]

unfoldable pub fallback_directive : String
fallback_directive =
    "Retry from the diagnosed root-cause step. Inspect the evidence in the diagnostic report before execution."

-- `_directive_text`
unfoldable pub directive_text : DiagnosticReport → String
directive_text report =
    or_else
      (first_of_two (proposal_text (first_proposal report))
        (first_of_two (first? report.suggestions) (finding_suggestion report.findings)))
      fallback_directive

-- `_requires_approval`: approval is required unless the first proposal says otherwise.
unfoldable pub requires_approval : DiagnosticReport → Bool
requires_approval report = elim (first_proposal report) [
  | none ↦ true
  | some proposal ↦ elim (as_dict proposal) [
    | none ↦ true
    | some first ↦ elim (get first "requires_human_approval") [
      | none ↦ true
      | some flag ↦ truthy flag
    ]
  ]
]

-- `_truncate` of a text, and of a value
unfoldable pub truncate_text : String → ℕ → String
truncate_text text limit =
    if leb (char_count text) limit then text else take_chars (limit - 3) text +++ "..."

unfoldable pub truncate : Value → ℕ → Value
unfolding truncate_text
truncate null limit = null
truncate value limit = str (truncate_text (to_str value) limit)

-- `(value or [])[:n]`, as the items over which a comprehension runs
unfoldable pub slice_items : ℕ → Value → Result Items
slice_items n (list xs) = ok (take_items n xs)
slice_items n (tuple xs) = ok (take_items n xs)
slice_items n (str s) = ok (take_items n (char_items s))
slice_items n value = if truthy value then err (type_error "not subscriptable") else ok nil

-- `_compact_finding`
unfoldable pub compact_finding : FailureFinding → Value
compact_finding finding = dict (
    field "failure_mode_id" (str finding.failure_mode.mode_id) (
      field "event_id" (opt_str finding.event_id) (
        field "agent_name" (opt_str finding.agent_name) (
          field "step_index" (opt_int finding.step_index) (
            field "evidence"
              (list (to_items (map (λ item. truncate (str item) 300) (take 3 finding.evidence))))
              (field "suggestion" (truncate (opt_str finding.suggestion) 500) end))))))

-- `_compact_mapping`
unfoldable pub compact_mapping : Option Fields → Result Value
compact_mapping none = ok null
compact_mapping (some value) = do
  evidence ← slice_items 3 (get_value value "evidence")
  sources ← slice_items 5 (get_value value "sources")
  ok (
      dict (
        field "event_id" (value_or (get_value value "span_id") (get_value value "event_id")) (
          field "agent_name" (get_value value "agent_name") (
            field "step_index" (get_value value "step_index") (
              field "rationale" (truncate (get_value value "rationale") 1000) (
                field "evidence" (list (map_items (λ item. truncate item 300) evidence))
                  (field "sources" (list (map_items (λ item. str (to_str item)) sources)) end)))))))

-- `_compact_recovery`
unfoldable pub compact_recovery : Option Fields → Value
compact_recovery none = null
compact_recovery (some value) = dict (
    field "recoverer_id" (get_value value "recoverer_id") (
      field "target_event_id" (get_value value "target_event_id") (
        field "summary" (truncate (get_value value "summary") 500) (
          field "rationale" (truncate (get_value value "rationale") 1000)
            (field "suggestion_text" (truncate (get_value value "suggestion_text") 4000) end)))))

-- The entry `primary`, or else the first of a list of alternatives, if it is a dictionary
unfoldable pub primary_or_first : Fields → String → Option Fields
primary_or_first value alternatives = elim (as_dict (get_value value "primary")) [
  | some primary ↦ some primary
  | none ↦ elim (as_list (get_value value alternatives)) [
    | none ↦ none
    | some items ↦ elim (first_item items) [ none ↦ none | some first ↦ as_dict first ]
  ]
]

-- `_diagnostic_context`
unfoldable pub diagnostic_context : DiagnosticReport → Result Value
diagnostic_context report = do
  attribute ← compact_mapping (primary_or_first (or_else report.attribution end) "hypotheses")
  ok (
      dict (
        field "detect"
          (dict (
            field "summary" (str report.summary) (
              field "findings" (list (to_items (map compact_finding (take 10 report.findings))))
                end)))
          (field "attribute" attribute (
            field "recover"
              (compact_recovery (primary_or_first (or_else report.recovery end) "proposals"))
              (field "root_cause"
                (dict (
                  field "event_id" (opt_str report.root_cause_event_id) (
                    field "agent_name" (opt_str report.root_cause_agent)
                      (field "step_index" (opt_int report.root_cause_step_index) end))))
                end)))))
