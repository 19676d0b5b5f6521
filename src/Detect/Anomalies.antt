-- ===== src/Detect/Anomalies.antt =====
-- The cross-event rules of diagnose/detect/rules/packs/core/rules.py and the wrappers of
-- diagnose/detect/detectors.py. The rule classes are the constructors of `TrajectoryRule`. A window
-- of the repeated-state rule is positive: the source raises IndexError at a window of 0.
pub mod ModeCount
pub mod Windows
pub mod Calls
pub mod Success
use agent_debug_x.Base.{
  string_eq, pair_eq, ℕ, ◌+◌, String, ◌+++◌, Bool, ◌&&◌, ◌||◌, not, Option, none, some, List, [],
  ◌∷◌, ◌++◌, map, any, keep, take, length, contains, last?, find_first, leb, ltb, if◌then◌else◌,
  or_else, ◌==◌, flat_map, Dict, lookup, insert,
}
use agent_debug_x.Python.{
  end, field, str, int, pos, get_value, is_false, str_or_empty, is_in, lower, join, take_chars,
  show_nat, Result, ok, err, value_error,
}
use agent_debug_x.Schema.{
  AgentEvent, AgentTrajectory, FailureFinding, event_type_value, is_type, tool_call, observation,
  agent_step, plan, tool_result, error, reflection, llm_response, planning_inefficient_plan,
  verification_premature_stop,
}
use agent_debug_x.Detect.Findings.{
  RepeatedToolCall, RepeatedState, StepCountLimit, TrajectoryRule, repeated_tool_call,
  repeated_state, step_count_limit, premature_success, squeeze, normalize, normalize_text, truncate,
  finding,
}

-- The calls of a tool, grouped by agent and normalized input, in the order of the first call.
abbrev pub CallKey : Type 0
CallKey = String × String

abbrev pub Groups : Type 0
Groups = Dict CallKey (List AgentEvent)

unfoldable pub call_key : AgentEvent → CallKey
call_key event = (event.agent_name, normalize event.input)

-- `counts.setdefault(key, []).append(event)`
unfoldable pub add_call : Groups → AgentEvent → Groups
add_call counts event =
    let key = call_key event in insert counts key (or_else (lookup counts key) [] ++ event ∷ [])

unfoldable pub group_calls : Groups → List AgentEvent → Groups
unfolding add_call
group_calls counts [] = counts
group_calls counts (event ∷ events) =
    group_calls (if is_type event.event_type tool_call then add_call counts event else counts)
      events

-- What the rule reports of one group: nothing below the threshold.
unfoldable pub group_finding : RepeatedToolCall → CallKey × List AgentEvent → List FailureFinding
group_finding rule ((agent, signature), events) = elim (last? events) [
  | none ↦ []
  | some target ↦
      let n = length events in
      if ltb n rule.threshold
      then []
      else finding planning_inefficient_plan target
          ((show_nat n
              +++ " identical TOOL_CALL events with signature="
              +++ truncate signature 80
              +++ " on agent="
              +++ agent)
            ∷ [])
          (field "source" (str "repeated_tool_call") (field "detected_count" (int (pos n)) end))
          (repeated_tool_call rule)
          ("identical tool-call signature repeated "
            +++ show_nat n
            +++ " times; threshold="
            +++ show_nat rule.threshold)
        ∷ []
]

unfoldable pub detect_repeated_tool_call : RepeatedToolCall → AgentTrajectory → List FailureFinding
unfolding group_calls group_finding
detect_repeated_tool_call rule trajectory =
    flat_map (group_finding rule) (group_calls [] trajectory.events)

-- `__post_init__`
unfoldable pub new_repeated_state : ℕ → ℕ → Result RepeatedState
new_repeated_state window threshold =
    if ltb window threshold
    then err (value_error "threshold must be <= window")
    else ok (record { window = window; threshold = threshold })

unfoldable pub state_signature : AgentEvent → String
state_signature event = join "|" (
    event_type_value event.event_type
    ∷ event.agent_name
    ∷ or_else event.module_name ""
    ∷ take_chars 200 (str_or_empty event.output)
    ∷ take_chars 200 (or_else event.error "")
    ∷ [])

unfoldable pub has_state : AgentEvent → Bool
has_state event =
    is_type event.event_type observation
    || is_type event.event_type agent_step
    || is_type event.event_type plan
    || is_type event.event_type tool_result

-- The loop of `_mode_count`
unfoldable pub mode_count_from : Dict String ℕ → String × ℕ → List String → String × ℕ
mode_count_from counts best [] = best
mode_count_from counts best (item ∷ items) =
    let n = or_else (lookup counts item) 0 + 1 in
    mode_count_from (insert counts item n) (if ltb best.1 n then (item, n) else best) items

unfoldable pub mode_count : List String → String × ℕ
unfolding mode_count_from
mode_count items = mode_count_from [] ("", 0) items

unfoldable pub window_signatures : List AgentEvent → List String
window_signatures events = map (λ event. squeeze (state_signature event)) events

unfoldable pub window_finding : RepeatedState → AgentEvent → String → ℕ → FailureFinding
window_finding rule target most_common n =
    finding planning_inefficient_plan target
      (("state repeated "
          +++ show_nat n
          +++ "x within window of "
          +++ show_nat rule.window
          +++ " events; signature="
          +++ truncate most_common 80)
        ∷ [])
      (field "source" (str "repeated_state")
        (field "window" (int (pos rule.window)) (field "repeated_count" (int (pos n)) end)))
      (repeated_state rule)
      ("most common state signature appears "
        +++ show_nat n
        +++ " times within a "
        +++ show_nat rule.window
        +++ "-event window; threshold="
        +++ show_nat rule.threshold)

-- The target of the window, with the signature and its count, if the window is to be flagged.
unfoldable pub flag_window :
    RepeatedState → List String → List AgentEvent → Option (AgentEvent × String × ℕ)
flag_window rule flagged window =
    let (most_common, n) = mode_count (window_signatures window) in
    if ltb n rule.threshold then none else elim (last? window) [
      | none ↦ none
      | some target ↦
          (if contains flagged target.event_id then none else some (target, most_common, n))
    ]

-- The loop over the windows: one window starts at each event that has enough events behind it.
unfoldable pub scan_windows : RepeatedState → List String → List AgentEvent → List FailureFinding
unfolding flag_window window_finding
scan_windows rule flagged [] = []
scan_windows rule flagged (event ∷ events) =
    if ltb (length (event ∷ events)) rule.window
    then []
    else elim (flag_window rule flagged (take rule.window (event ∷ events))) [
      | none ↦ scan_windows rule flagged events
      | some (target, most_common, n) ↦
          window_finding rule target most_common n
          ∷ scan_windows rule (target.event_id ∷ flagged) events
    ]

unfoldable pub detect_repeated_state : RepeatedState → AgentTrajectory → List FailureFinding
unfolding scan_windows
detect_repeated_state rule trajectory = scan_windows rule [] (keep has_state trajectory.events)

unfoldable pub detect_step_count : StepCountLimit → AgentTrajectory → List FailureFinding
detect_step_count rule trajectory =
    let n = length trajectory.events in
    if leb n rule.max_steps then [] else elim (last? trajectory.events) [
      | none ↦ []
      | some target ↦
          finding planning_inefficient_plan target
            ((show_nat n +++ " events exceeds configured max_steps=" +++ show_nat rule.max_steps)
              ∷ [])
            (field "source" (str "step_count_limit") (field "event_count" (int (pos n)) end))
            (step_count_limit rule)
            ("trajectory has " +++ show_nat n +++ " events; max_steps=" +++ show_nat rule.max_steps)
          ∷ []
    ]

unfoldable pub claim_needles : List String
claim_needles =
    "task is complete" ∷ "task complete" ∷ "task is done" ∷ "task accomplished"
    ∷ "completed the task" ∷ "i have completed" ∷ "i am done" ∷ "we are done" ∷ "all done"
    ∷ "successfully completed" ∷ "no further action" ∷ "nothing left to do" ∷ "marking as complete"
    ∷ "is complete" ∷ "final answer" ∷ []

unfoldable pub is_claim_type : AgentEvent → Bool
is_claim_type event =
    is_type event.event_type reflection
    || is_type event.event_type observation
    || is_type event.event_type llm_response
    || is_type event.event_type agent_step
    || is_type event.event_type plan

-- One event carries an explicit failure marker.
unfoldable pub marks_failure : AgentEvent → Bool
marks_failure event =
    is_false (get_value event.metadata "success")
    || (is_type event.event_type error && event.agent_name == "system")

-- `_run_failed`
unfoldable pub run_failed : AgentTrajectory → Bool
run_failed trajectory = any marks_failure trajectory.events

unfoldable pub claim_text : AgentEvent → String
claim_text event = lower (
    join " "
      (keep (λ part. not (part == "")) (normalize event.output ∷ normalize_text event.error ∷ [])))

-- The phrase by which an event claims that the task is done.
unfoldable pub claim_of : AgentEvent → Option String
claim_of event =
    if is_claim_type event
    then find_first (λ (needle : String). is_in needle (claim_text event)) claim_needles
    else none

-- The loop keeps the last claim.
unfoldable pub last_claim :
    Option (AgentEvent × String) → List AgentEvent → Option (AgentEvent × String)
unfolding claim_of
last_claim found [] = found
last_claim found (event ∷ events) =
    last_claim (elim (claim_of event) [ none ↦ found | some claim ↦ some (event, claim) ]) events

unfoldable pub detect_premature_success : AgentTrajectory → List FailureFinding
unfolding last_claim
detect_premature_success trajectory =
    if not (run_failed trajectory) then [] else elim (last_claim none trajectory.events) [
      | none ↦ []
      | some (target, claim) ↦
          finding verification_premature_stop target
            (("run ended in failure but " +++ target.agent_name +++ " asserted completion (\""
                +++ claim +++ "\")")
              ∷ [])
            (field "source" (str "premature_success") (field "claim_phrase" (str claim) end))
            premature_success
            "trajectory marked failed while a reasoning step claimed the task was complete"
          ∷ []
    ]

-- `rule.detect(trajectory)`
unfoldable pub detect : TrajectoryRule → AgentTrajectory → List FailureFinding
detect (repeated_tool_call rule) trajectory = detect_repeated_tool_call rule trajectory
detect (repeated_state rule) trajectory = detect_repeated_state rule trajectory
detect (step_count_limit rule) trajectory = detect_step_count rule trajectory
detect premature_success trajectory = detect_premature_success trajectory

-- `build_trajectory_rules` of the core pack, with the defaults of the rule classes
unfoldable pub core_trajectory_rules : List TrajectoryRule
core_trajectory_rules =
    repeated_tool_call (record { threshold = 3 })
    ∷ repeated_state (record { window = 4; threshold = 3 })
    ∷ step_count_limit (record { max_steps = 50 })
    ∷ premature_success
    ∷ []
