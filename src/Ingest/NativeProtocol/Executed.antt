-- ===== src/Ingest/NativeProtocol/Executed.antt =====
-- ingest/native_protocol.py: the wire transcript against the events that were executed. The event types
-- of a trajectory are values of the enum.
use agent_debug_x.Base.{
  ℕ, String, Bool, true, false, not, ◌&&◌, ◌||◌, Option, none, some, List, [], ◌∷◌, ◌++◌, any, keep,
  contains, flat_map, if◌then◌else◌, or_else, ◌==◌, string_eq, nat_eq, option_eq, length, ltb,
}
use agent_debug_x.Python.{
  Value, Fields, null, str, int, list, pos, end, field, get, get_value, as_dict, is_str, item_list,
  value_eq, has_prefix, opt_str, opt_int, Result, ok, err, is_value_error, ◌>>=◌,
}
use agent_debug_x.Schema.{
  AgentEvent, AgentTrajectory, EventType, event_type_value, is_type, agent_step, error, tool_call,
  tool_result,
}
use agent_debug_x.Ingest.NativeProtocol.{
  Violation, violation, index_value, id_text, message_value, call_ids_value, AssistantTurn,
  scan_wire, no_messages, no_unique_turn_pointer, multi_call_not_rejected, rejected_call_executed,
  no_unique_execution_pair, call_id_disagrees, function_name_missing, call_name_disagrees,
  args_not_object, call_args_disagree, result_name_disagrees, call_id_without_envelope,
  call_without_id_or_fallback,
}

-- `parse_json_arguments`: a text that is no JSON is null. The checks take a parser that does not raise.
unfoldable pub parse_json_arguments : (String → Result Value) → String → Result Value
parse_json_arguments loads raw = elim (loads raw) [
  | ok value ↦ ok value
  | err raised ↦ (if is_value_error raised then ok null else err raised)
]

-- `value == index` for a value that is an int and no truth value
unfoldable pub points_to : ℕ → Value → Bool
points_to index (int (pos n)) = n == index
points_to index _ = false

-- `turn_events.get(index, [])`
unfoldable pub turn_events : ℕ → List AgentEvent → List AgentEvent
unfolding points_to
turn_events index events =
    keep
      (λ event.
        (is_type event.event_type agent_step || is_type event.event_type error)
        && points_to index (get_value event.metadata "prompt_n_messages"))
      events

-- The events of that type in `execution_events.get(step_index, [])`; none where the step is missing
unfoldable pub events_at : EventType → Option ℕ → List AgentEvent → List AgentEvent
events_at type none events = []
events_at type (some step) events =
    keep (λ event. is_type event.event_type type && event.step_index == some step) events

unfoldable pub is_rejected_multi_call : AgentEvent → Bool
is_rejected_multi_call event =
    is_type event.event_type error && has_prefix "multiple_tool_calls:" (or_else event.error "")

-- `_step_annotation`
unfoldable pub step_annotation : AgentEvent → String → Value
step_annotation event key = elim (get event.metadata key) [
  | some value ↦ value
  | none ↦ elim (as_dict event.output) [ none ↦ null | some d ↦ get_value d key ]
]

unfoldable pub execution_counts : List AgentEvent → List AgentEvent → Fields
execution_counts calls results =
    field "tool_call_events" (index_value (length calls))
      (field "tool_result_events" (index_value (length results)) end)

unfoldable pub report_if : Bool → Violation → List Violation
report_if true violation = violation ∷ []
report_if false violation = []

unfoldable pub input_value : String → AgentEvent → Value
input_value key event = message_value key event.input

-- `function.get(key)`, with `{}` where the call has no function
unfoldable pub function_value : String → Value → Value
function_value key call = message_value key (message_value "function" call)

-- `declared_fallback` for the step of a call
unfoldable pub declares_fallback : List AgentEvent → Option ℕ → Bool
declares_fallback events step =
    any
      (λ item.
        is_type item.event_type agent_step
        && (item.step_index == step
            && is_str (step_annotation item "envelope") "text_protocol_fallback"))
      events

-- `parse(raw_args) if isinstance(raw_args, str) else raw_args`
unfoldable pub expected_args : (String → Value) → Value → Value
expected_args parse (str raw) = parse raw
expected_args parse value = value

module _ (trace_uid : String) where
  -- The name of the call in the envelope against the name that was executed, and the repaired one
  unfoldable pub name_violations : ℕ → Option String → Value → Value → List Violation
  unfolding report_if
  name_violations index none executed leaked =
      violation trace_uid function_name_missing (some index) end ∷ []
  name_violations index (some name) executed leaked =
      report_if (not (is_str executed name) && not (is_str leaked name)) (
        violation trace_uid call_name_disagrees (some index)
          (field "assistant_tool_name" (str name) (field "event_tool_name" executed end)))

  unfoldable pub args_violations : ℕ → Value → Value → List Violation
  unfolding report_if
  args_violations index expected executed = elim (as_dict expected) [
    | none ↦ violation trace_uid args_not_object (some index) end ∷ []
    | some args ↦ report_if (not (value_eq executed expected)) (
        violation trace_uid call_args_disagree (some index)
          (field "assistant_args" expected (field "event_args" executed end)))
  ]

  module _ (parse : String → Value) where
    -- The last part of `_check_single_call`: the call of the envelope, the step, and the one call and
    -- the one result that were executed
    unfoldable pub check_pair :
        ℕ → Value → String → AgentEvent → AgentEvent → AgentEvent → List Violation
    unfolding report_if input_value function_value
    check_pair index call call_id event executed result =
        let executed_id = get_value executed.metadata "tool_call_id" in
        let executed_name = input_value "tool" executed in
        let result_name = input_value "tool" result in
        report_if (not (is_str executed_id call_id)) (
          violation trace_uid call_id_disagrees (some index) (
            field "assistant_tool_call_id" (str call_id)
              (field "event_tool_call_id" executed_id end)))
        ++ (name_violations index (id_text (function_value "name" call)) executed_name
              (step_annotation event "leaked_tool_name")
            ++ (args_violations index (expected_args parse (function_value "arguments" call))
                  (input_value "args" executed)
                ++ report_if (not (value_eq result_name executed_name)) (
                    violation trace_uid result_name_disagrees (some index) (
                      field "tool_call_name" executed_name
                        (field "tool_result_name" result_name end)))))

    -- `_check_single_call`. A turn without a call is not checkable, so that the last clause is not
    -- reached.
    unfoldable pub check_pairs :
        ℕ
        → List Value
        → List String
        → AgentEvent
        → List AgentEvent
        → List AgentEvent
        → List Violation
    check_pairs index (call ∷ calls) (call_id ∷ call_ids) event (executed ∷ []) (result ∷ []) =
        check_pair index call call_id event executed result
    check_pairs index calls call_ids event executed results =
        violation trace_uid no_unique_execution_pair (some index)
          (execution_counts executed results)
        ∷ []

    unfoldable pub check_single_call : AssistantTurn → AgentEvent → List AgentEvent → List Violation
    unfolding report_if check_pairs
    check_single_call turn event events =
        let calls = events_at tool_call event.step_index events in
        let results = events_at tool_result event.step_index events in
        if is_type event.event_type error
        then report_if (ltb 0 (length calls) || ltb 0 (length results)) (
            violation trace_uid rejected_call_executed (some turn.index)
              (execution_counts calls results))
        else check_pairs turn.index turn.calls turn.call_ids event calls results

    -- A turn with several calls must be refused, and must not have run.
    unfoldable pub check_multi_call : AssistantTurn → AgentEvent → List AgentEvent → List Violation
    unfolding report_if
    check_multi_call turn event events =
        let calls = events_at tool_call event.step_index events in
        let results = events_at tool_result event.step_index events in
        if is_rejected_multi_call event
        then report_if (ltb 0 (length calls) || ltb 0 (length results)) (
            violation trace_uid rejected_call_executed (some turn.index)
              (execution_counts calls results))
        else violation trace_uid multi_call_not_rejected (some turn.index) (
            field "call_ids" (call_ids_value turn.call_ids) (
              field "event_type" (str (event_type_value event.event_type))
                (field "event_error" (opt_str event.error) end)))
          ∷ []

    unfoldable pub check_event : AssistantTurn → List AgentEvent → List AgentEvent → List Violation
    check_event turn (event ∷ []) events =
        if ltb 1 (length turn.calls)
        then check_multi_call turn event events
        else check_single_call turn event events
    check_event turn pointing events =
        violation trace_uid no_unique_turn_pointer (some turn.index)
          (field "matching_events" (index_value (length pointing)) end)
        ∷ []

    unfoldable pub check_turn : List AgentEvent → AssistantTurn → List Violation
    check_turn events turn =
        turn.violations
        ++ (if turn.checkable then check_event turn (turn_events turn.index events) events else [])

  unfoldable pub check_call_event : List String → List AgentEvent → AgentEvent → List Violation
  unfolding report_if
  check_call_event envelope events event =
      if is_type event.event_type tool_call
      then elim (id_text (get_value event.metadata "tool_call_id")) [
        | some call_id ↦ report_if (not (contains envelope call_id)) (
            violation trace_uid call_id_without_envelope none (
              field "event_tool_call_id" (str call_id)
                (field "step_index" (opt_int event.step_index) end)))
        | none ↦ report_if (not (declares_fallback events event.step_index)) (
            violation trace_uid call_without_id_or_fallback none
              (field "step_index" (opt_int event.step_index) end))
      ]
      else []

  -- `_check_tool_call_events`
  unfoldable pub check_tool_call_events : AgentTrajectory → List String → List Violation
  check_tool_call_events trajectory envelope =
      flat_map (check_call_event envelope trajectory.events) trajectory.events

-- `native_tool_protocol_violations`, with the label of the records and the parser of arguments
unfoldable pub native_tool_protocol_violations :
    (String → Value) → String → AgentTrajectory → Result (List Violation)
native_tool_protocol_violations parse trace_uid trajectory =
    elim (get_value trajectory.metadata "messages") [
      | list messages ↦
          (scan_wire (item_list messages) trace_uid >>= λ scan. ok (
            flat_map (check_turn trace_uid parse trajectory.events) scan.turns
            ++ (scan.orphans
                ++ check_tool_call_events trace_uid trajectory scan.envelope_call_ids)))
      | _ ↦ ok (violation trace_uid no_messages none end ∷ [])
    ]
