-- ===== src/Capture/Outcome.antt =====
-- The tests of capture/service.py on what a delivery has found, and the answer that it starts from.
use agent_debug_x.Base.{
  String, ◌+++◌, Bool, true, false, not, ◌&&◌, Option, none, some, List, [], ◌∷◌, map, any, length,
  last?, lookup, sort_by, if◌then◌else◌, ◌==◌, string_eq, nat_eq, option_eq,
}
use agent_debug_x.Python.{
  Error, show_nat, text_le, value_error, key_error, type_error, integrity_error, os_error,
  attribute_error, decode_error, recursion_error, index_error,
}
use agent_debug_x.Schema.{AgentEvent, AgentTrajectory, is_type, llm_response}
use agent_debug_x.Capture.Bounding.{Counters}
use agent_debug_x.Capture.Tables.{CaptureReceipt, CaptureSession, TranscriptSnapshot}
use agent_debug_x.Capture.Contracts.{CaptureResult, CaptureConfig, disabled}

-- `event.event_type == 'llm.response'` for some event
unfoldable pub has_durable_assistant_boundary : AgentTrajectory → Bool
has_durable_assistant_boundary trajectory =
    any (λ event. is_type event.event_type llm_response) trajectory.events

-- `existing_boundary is not None and existing_boundary.receipt_id != receipt_id`
unfoldable pub is_other_receipt : String → Option CaptureReceipt → Bool
is_other_receipt receipt_id none = false
is_other_receipt receipt_id (some receipt) = not (receipt.receipt_id == receipt_id)

-- `session is not None and session.transcript_sha256 == snapshot.content_sha256`
unfoldable pub is_same_content : Option CaptureSession → TranscriptSnapshot → Bool
is_same_content none snapshot = false
is_same_content (some session) snapshot = session.transcript_sha256 == some snapshot.content_sha256

unfoldable pub last_event_id : AgentTrajectory → Option String
last_event_id trajectory = elim (last? trajectory.events) [ none ↦ none | some e ↦ some e.event_id ]

-- The session already ends with the last event of the trajectory, at the same count.
unfoldable pub is_same_end : Option CaptureSession → AgentTrajectory → Bool
unfolding last_event_id
is_same_end none trajectory = false
is_same_end (some session) trajectory =
    session.event_count == length trajectory.events
    && session.last_event_id == last_event_id trajectory

-- `not trajectory.events`
unfoldable pub is_empty : List AgentEvent → Bool
is_empty [] = true
is_empty (event ∷ events) = false

-- `[f'{name}={count}' for name, count in sorted(counters.items())]`
unfoldable pub counter_warnings : Counters → List String
counter_warnings counters =
    map (λ entry. entry.0 +++ "=" +++ show_nat entry.1)
      (sort_by (λ entry other. text_le entry.0 other.0) counters)

-- `except (OSError, ValueError, TypeError, sqlite3.Error)`
unfoldable pub is_caught : Error → Bool
is_caught (value_error message) = true
is_caught (type_error message) = true
is_caught (integrity_error message) = true
is_caught (os_error message) = true
is_caught (key_error message) = false
is_caught (attribute_error message) = false
is_caught (decode_error message) = true
is_caught (recursion_error message) = false
is_caught index_error = false

unfoldable pub bare_result : CaptureResult
bare_result = record {
  status = disabled;
  trace_id = none;
  event_count = 0;
  last_event_id = none;
  boundary_id = none;
  warnings = [];
  elapsed_ms = 0;
}

-- The configuration, if it has the host and the host is enabled
unfoldable pub enabled_config : String → Option CaptureConfig → Option CaptureConfig
enabled_config host none = none
enabled_config host (some config) = elim (lookup config.platforms host) [
  | none ↦ none
  | some platform ↦ (if platform.enabled then some config else none)
]
