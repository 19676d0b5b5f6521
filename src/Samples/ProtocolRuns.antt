-- ===== src/Samples/ProtocolRuns.antt =====
-- The theorems on native transcripts, applied to one call that was answered and executed.
use agent_debug_x.Base.{
  ◌≡◌, refl, ◌↔◌, String, false, none, [], ◌∷◌, all, flat_map, count_if, contains, keep,
}
use agent_debug_x.Python.{
  Value, Items, null, str, int, list, dict, nil, cons, end, field, pos, item_list, ok, get_value,
  is_hashable, value_eq,
}
use agent_debug_x.Schema.{AgentTrajectory, agent_step, tool_call, tool_result, is_type}
use agent_debug_x.Ingest.NativeProtocol.{
  native_tool_message_violations, tool_batch, scan_wire, turn_violations, id_text, scan_from,
  has_role, call_ids_of, scan_calls, message_value, scan_value, scan_message, texts_of, times,
  same_counter, answers_once, is_unique, orphans_from,
}
use agent_debug_x.Ingest.NativeProtocol.Executed.{
  native_tool_protocol_violations, check_turn, check_single_call, args_violations, check_pair,
  name_violations, check_event, events_at, turn_events, expected_args, check_tool_call_events,
  check_call_event,
}
use agent_debug_x.Ingest.NativeProtocol.Transcripts.{IsClean}
use agent_debug_x.Ingest.NativeProtocol.Clean.{native_tool_message_violations-nil_iff}
use agent_debug_x.Ingest.NativeProtocol.Consistent.{
  IsConsistent, native_tool_protocol_violations-IsConsistent,
}
use agent_debug_x.Samples.Traces.{event_of, trajectory_of}

abbrev call : Value
call = dict (
    field "id" (str "c1")
      (field "function" (dict (field "name" (str "f") (field "arguments" (str "{}") end))) end))

abbrev messages : Items
messages =
    cons (dict (field "role" (str "assistant") (field "tool_calls" (list (cons call nil)) end)))
      (cons (dict (field "role" (str "tool") (field "tool_call_id" (str "c1") end))) nil)

abbrev trajectory : AgentTrajectory
trajectory =
    record (trajectory_of (
      record (event_of "e1" none agent_step null null) {
        metadata = field "prompt_n_messages" (int (pos 0)) end;
      }
      ∷ record (event_of "e2" none tool_call
          (dict (field "tool" (str "f") (field "args" (dict end) end))) null) {
            metadata = field "tool_call_id" (str "c1") end;
          }
      ∷ event_of "e3" none tool_result (dict (field "tool" (str "f") end)) (str "done")
      ∷ [])) { metadata = field "messages" (list messages) end }

abbrev parse : String → Value
parse raw = dict end

native_tool_message_violations-nil_iff_example :
    (native_tool_message_violations (item_list messages) "t" ≡ ok [])
    ↔ IsClean false (item_list messages)
native_tool_message_violations-nil_iff_example =
    native_tool_message_violations-nil_iff "t" (item_list messages)

consistent : native_tool_protocol_violations parse "t" trajectory ≡ ok []
unfolding native_tool_protocol_violations item_list all flat_map check_turn call_ids_of has_role
    id_text message_value scan_calls scan_from scan_message scan_value scan_wire tool_batch
    turn_violations get_value is_hashable contains count_if keep args_violations check_event
    check_pair check_single_call events_at name_violations turn_events answers_once is_unique
    same_counter texts_of times is_type check_call_event check_tool_call_events expected_args
    orphans_from value_eq
consistent = refl

native_tool_protocol_violations-IsConsistent_example : IsConsistent parse "t" trajectory
native_tool_protocol_violations-IsConsistent_example =
    native_tool_protocol_violations-IsConsistent parse "t" trajectory consistent
