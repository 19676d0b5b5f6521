-- ===== src/Ingest/NativeProtocol.antt =====
-- ingest/native_protocol.py: the violations that it can report, and the checks of a wire transcript.
pub mod Executed
pub mod Transcripts
pub mod Scans
pub mod Indexes
pub mod Clean
pub mod Calls
pub mod Consistent
use agent_debug_x.Base.{
  ℕ, ◌+◌, String, Bool, true, false, not, ◌&&◌, Option, none, some, List, [], ◌∷◌, ◌++◌, map, all,
  count_if, contains, flat_map, if◌then◌else◌, ◌==◌, string_eq, nat_eq,
}
use agent_debug_x.Python.{
  Value, Items, Fields, null, str, int, list, dict, pos, end, field, get_value, as_dict, is_str,
  item_list, to_items, is_hashable, Result, ok, type_error, ◌>>=◌, ◌>>◌, require,
}

abbrev pub Violation : Type 0
Violation = Fields

-- The reasons
pub data Reason : Type 0 where
  no_messages tool_calls_not_list call_id_missing call_ids_not_unique : Reason
  calls_not_answered_once no_unique_turn_pointer multi_call_not_rejected : Reason
  rejected_call_executed no_unique_execution_pair call_id_disagrees function_name_missing : Reason
  call_name_disagrees args_not_object call_args_disagree result_name_disagrees : Reason
  orphan_tool_message call_id_without_envelope call_without_id_or_fallback : Reason

unfoldable pub reason_text : Reason → String
reason_text no_messages = "native trace has no messages list"
reason_text tool_calls_not_list = "assistant tool_calls must be a non-empty list"
reason_text call_id_missing = "assistant tool call has no non-empty id"
reason_text call_ids_not_unique = "assistant tool call ids are not unique"
reason_text calls_not_answered_once =
    "assistant tool calls are not answered exactly once before next turn"
reason_text no_unique_turn_pointer = "native assistant turn has no unique step/error event pointer"
reason_text multi_call_not_rejected =
    "multiple native calls were not rejected as one non-executed error turn"
reason_text rejected_call_executed = "rejected native call has execution events"
reason_text no_unique_execution_pair = "accepted native call has no unique call/result event pair"
reason_text call_id_disagrees = "tool.call event id disagrees with assistant envelope"
reason_text function_name_missing = "assistant tool call has no non-empty function name"
reason_text call_name_disagrees = "tool.call event name disagrees with assistant envelope"
reason_text args_not_object = "accepted assistant tool arguments are not a JSON object"
reason_text call_args_disagree = "tool.call event args disagree with assistant envelope"
reason_text result_name_disagrees = "tool.result event name disagrees with tool.call event"
reason_text orphan_tool_message =
    "tool message has no immediately preceding assistant tool-call batch"
reason_text call_id_without_envelope = "tool.call event id has no assistant envelope"
reason_text call_without_id_or_fallback =
    "tool.call event has no provider id or declared text fallback"

unfoldable pub index_value : ℕ → Value
index_value index = int (pos index)

-- `_violation`, with the details behind the reason
unfoldable pub violation : String → Reason → Option ℕ → Fields → Violation
unfolding reason_text index_value
violation trace_uid reason none detail =
    field "trace_uid" (str trace_uid) (field "reason" (str (reason_text reason)) detail)
violation trace_uid reason (some index) detail =
    field "trace_uid" (str trace_uid)
      (field "message_index" (index_value index) (field "reason" (str (reason_text reason)) detail))

-- `isinstance(message, dict) and message.get('role') == role`
unfoldable pub has_role : String → Value → Bool
has_role role message = elim (as_dict message) [
  | none ↦ false
  | some d ↦ is_str (get_value d "role") role
]

-- `message.get(key)` of a message that is a dictionary
unfoldable pub message_value : String → Value → Value
message_value key message = elim (as_dict message) [ none ↦ null | some d ↦ get_value d key ]

pub record AssistantTurn : Type 0 where
  pub index : ℕ
  pub calls : List Value
  pub call_ids : List String
  pub violations : List Violation
  pub checkable : Bool

pub record WireScan : Type 0 where
  pub turns : List AssistantTurn
  pub claimed_tool_indexes : List ℕ
  pub envelope_call_ids : List String
  pub orphans : List Violation

-- The tool messages that follow, up to the first other message: their indexes and call ids
unfoldable pub tool_batch : ℕ → List Value → List (ℕ × Value)
tool_batch index [] = []
tool_batch index (message ∷ messages) =
    let rest = tool_batch (index + 1) messages in
    if has_role "tool" message then (index, message_value "tool_call_id" message) ∷ rest else []

-- `isinstance(call_id, str) and call_id`
unfoldable pub id_text : Value → Option String
id_text (str s) = if s == "" then none else some s
id_text _ = none

-- The ids of the calls, `none` where one is missing
unfoldable pub call_ids_of : List Value → Option (List String)
call_ids_of [] = some []
call_ids_of (call ∷ calls) = elim (id_text (message_value "id" call)) [
  | none ↦ none
  | some id ↦ elim (call_ids_of calls) [ none ↦ none | some ids ↦ some (id ∷ ids) ]
]

-- `len(set(ids)) == len(ids)`
unfoldable pub is_unique : List String → Bool
is_unique [] = true
is_unique (id ∷ ids) = not (contains ids id) && is_unique ids

-- The texts of values that are all texts. A value that is none is equal to no call id.
unfoldable pub texts_of : List Value → Option (List String)
texts_of [] = some []
texts_of (str s ∷ values) = elim (texts_of values) [ none ↦ none | some texts ↦ some (s ∷ texts) ]
texts_of (value ∷ values) = none

unfoldable pub times : String → List String → ℕ
times id ids = count_if (λ other. other == id) ids

unfoldable pub same_counter : List String → List String → Bool
same_counter ids others = all (λ id. times id ids == times id others) (ids ++ others)

-- `Counter(tool_ids) == Counter(call_ids)`
unfoldable pub answers_once : List Value → List String → Bool
answers_once tool_ids call_ids = elim (texts_of tool_ids) [
  | none ↦ false
  | some ids ↦ same_counter ids call_ids
]

unfoldable pub call_ids_value : List String → Value
call_ids_value call_ids = list (to_items (map str call_ids))

-- The two checks of a turn whose calls have ids
unfoldable pub turn_violations : String → ℕ → List String → List Value → List Violation
turn_violations trace_uid index call_ids tool_ids =
    (if is_unique call_ids
      then []
      else violation trace_uid call_ids_not_unique (some index)
          (field "call_ids" (call_ids_value call_ids) end)
        ∷ [])
    ++ (if answers_once tool_ids call_ids
        then []
        else violation trace_uid calls_not_answered_once (some index) (
            field "call_ids" (call_ids_value call_ids)
              (field "tool_result_ids" (list (to_items tool_ids)) end))
          ∷ [])

-- What the scan of one message adds: the turn, and the indexes of the tool messages that it claims
pub record Scanned : Type 0 where
  pub turns : List AssistantTurn
  pub claimed : List ℕ

unfoldable pub nothing_scanned : Scanned
nothing_scanned = record { turns = []; claimed = [] }

unfoldable pub rejected_turn : String → ℕ → Reason → List Value → AssistantTurn
rejected_turn trace_uid index reason calls = record {
  index = index;
  calls = calls;
  call_ids = [];
  violations = violation trace_uid reason (some index) end ∷ [];
  checkable = false;
}

-- The calls of an assistant message with the tool messages that follow it. A `tool_call_id` that cannot
-- be hashed makes `Counter` raise.
unfoldable pub scan_calls : String → ℕ → List Value → List (ℕ × Value) → Result Scanned
unfolding rejected_turn
scan_calls trace_uid index calls batch =
    let claimed = map (λ entry. entry.0) batch in
    let tool_ids = map (λ entry. entry.1) batch in
    elim (call_ids_of calls) [
      | none ↦ ok (record {
        turns = rejected_turn trace_uid index call_id_missing calls ∷ [];
        claimed = claimed;
      })
      | some call_ids ↦
          require (all is_hashable tool_ids) (type_error "unhashable type")
          >> ok (record {
            turns =
                record {
                  index = index;
                  calls = calls;
                  call_ids = call_ids;
                  violations = turn_violations trace_uid index call_ids tool_ids;
                  checkable = true;
                }
                ∷ [];
            claimed = claimed;
          })
    ]

-- `calls` of an assistant message, by its kind
unfoldable pub scan_value : String → ℕ → Value → List Value → Result Scanned
unfolding nothing_scanned rejected_turn
scan_value trace_uid index null following = ok nothing_scanned
scan_value trace_uid index (list (Items.cons call calls)) following =
    scan_calls trace_uid index (call ∷ item_list calls) (tool_batch (index + 1) following)
scan_value trace_uid index value following =
    ok (record { turns = rejected_turn trace_uid index tool_calls_not_list [] ∷ []; claimed = [] })

unfoldable pub scan_message : String → ℕ → Value → List Value → Result Scanned
unfolding nothing_scanned
scan_message trace_uid index message following =
    if has_role "assistant" message
    then scan_value trace_uid index (message_value "tool_calls" message) following
    else ok nothing_scanned

-- The first loop of `_scan_wire`
unfoldable pub scan_from : String → ℕ → List Value → Result Scanned
unfolding nothing_scanned
scan_from trace_uid index [] = ok nothing_scanned
scan_from trace_uid index (message ∷ messages) =
    scan_message trace_uid index message messages >>= λ first.
    (scan_from trace_uid (index + 1) messages >>= λ rest.
    ok (record { turns = first.turns ++ rest.turns; claimed = first.claimed ++ rest.claimed }))

-- The second loop of `_scan_wire`
unfoldable pub orphans_from : String → List ℕ → ℕ → List Value → List Violation
orphans_from trace_uid claimed index [] = []
orphans_from trace_uid claimed index (message ∷ messages) =
    (if has_role "tool" message && not (contains claimed index)
      then violation trace_uid orphan_tool_message (some index)
          (field "tool_call_id" (message_value "tool_call_id" message) end)
        ∷ []
      else [])
    ++ orphans_from trace_uid claimed (index + 1) messages

-- `_scan_wire`
unfoldable pub scan_wire : List Value → String → Result WireScan
scan_wire messages trace_uid = scan_from trace_uid 0 messages >>= λ scanned. ok (record {
  turns = scanned.turns;
  claimed_tool_indexes = scanned.claimed;
  envelope_call_ids = flat_map (λ (turn : AssistantTurn). turn.call_ids) scanned.turns;
  orphans = orphans_from trace_uid scanned.claimed 0 messages;
})

-- `native_tool_message_violations`
unfoldable pub native_tool_message_violations : List Value → String → Result (List Violation)
native_tool_message_violations messages trace_uid = scan_wire messages trace_uid >>= λ scan.
    ok (flat_map (λ (turn : AssistantTurn). turn.violations) scan.turns ++ scan.orphans)
