-- ===== src/Schema/Models.antt =====
-- src/agentdebug/schema/models.py: events, trajectories, failure modes, findings and reports.
-- Times are whole microseconds. A confidence is a whole number of thousandths. A step index is not
-- negative. The random `finding_id` of a finding is left out: nothing modelled reads it.
use agent_debug_x.Base.{
  ℕ, String, Bool, true, Option, none, some, List, take, if◌then◌else◌, ◌==◌, string_eq,
}
use agent_debug_x.Python.{
  Value, Items, Fields, list, dict, nil, cons, end, field, get_value, to_str, truthy,
}

pub data EventType : Type 0 where
  run_start run_end agent_step llm_call llm_response tool_call tool_result memory_read : EventType
  memory_write reflection plan handoff guardrail observation error human_feedback : EventType

-- `event_type.value`
unfoldable pub event_type_value : EventType → String
event_type_value run_start = "run.start"
event_type_value run_end = "run.end"
event_type_value agent_step = "agent.step"
event_type_value llm_call = "llm.call"
event_type_value llm_response = "llm.response"
event_type_value tool_call = "tool.call"
event_type_value tool_result = "tool.result"
event_type_value memory_read = "memory.read"
event_type_value memory_write = "memory.write"
event_type_value reflection = "reflection"
event_type_value plan = "plan"
event_type_value handoff = "handoff"
event_type_value guardrail = "guardrail"
event_type_value observation = "observation"
event_type_value error = "error"
event_type_value human_feedback = "human.feedback"

-- `_event_type_value(t) == EventType.X.value`
unfoldable pub is_type : EventType → EventType → Bool
unfolding event_type_value
is_type t u = event_type_value t == event_type_value u

pub data Modality : Type 0 where
  text image audio video ui file tool state other : Modality

pub record Artifact : Type 0 where
  pub uri : String
  pub modality : Modality
  pub media_type : Option String
  pub description : Option String
  pub metadata : Fields

-- The field `module` of the source is `module_name` here.
pub record AgentEvent : Type 0 where
  pub event_id : String
  pub trace_id : String
  pub parent_event_id : Option String
  pub agent_name : String
  pub event_type : EventType
  pub module_name : Option String
  pub step_index : Option ℕ
  pub timestamp : ℕ
  pub input : Value
  pub output : Value
  pub error : Option String
  pub duration_ms : Option ℕ
  pub metadata : Fields
  pub artifacts : List Artifact

pub record AgentTrajectory : Type 0 where
  pub trace_id : String
  pub task_id : Option String
  pub goal : Option String
  pub framework : Option String
  pub started_at : ℕ
  pub ended_at : Option ℕ
  pub metadata : Fields
  pub events : List AgentEvent

-- A copy that keeps the first `n` events.
unfoldable pub prefix : AgentTrajectory → ℕ → AgentTrajectory
prefix trajectory n = record trajectory { events = take n trajectory.events }

pub record FailureMode : Type 0 where
  pub mode_id : String
  pub name : String
  pub family : String
  pub description : String
  pub signals : List String
  pub suggestion_templates : List String
  pub source : Option String

pub data ConflictAxis : Type 0 where
  task context self env : ConflictAxis

pub record FailureFinding : Type 0 where
  pub failure_mode : FailureMode
  pub event_id : Option String
  pub agent_name : Option String
  pub step_index : Option ℕ
  pub confidence : Option ℕ
  pub evidence : List String
  pub suggestion : Option String
  pub metadata : Fields
  pub wrong_content_quote : Option String
  pub reference_quote : Option String
  pub conflict_with : Option ConflictAxis
  pub quote_verified : Option Bool

pub record DiagnosticAuditEntry : Type 0 where
  pub stage : String
  pub request_summary : String
  pub response_summary : String
  pub duration_ms : ℕ
  pub payload : Fields

-- `attribution` and `recovery` are `none` where the source has `None`.
pub record DiagnosticReport : Type 0 where
  pub report_id : String
  pub trace_id : String
  pub task_id : Option String
  pub generated_at : ℕ
  pub root_cause_event_id : Option String
  pub root_cause_agent : Option String
  pub root_cause_step_index : Option ℕ
  pub findings : List FailureFinding
  pub summary : String
  pub suggestions : List String
  pub attribution : Option Fields
  pub recovery : Option Fields
  pub audit : List DiagnosticAuditEntry
  pub metadata : Fields

unfoldable pub confidence_or_default : Option ℕ → ℕ
confidence_or_default none = 0
confidence_or_default (some c) = c

-- `_omits_confidence`: reports of the deterministic analyzers are published without confidences.
unfoldable pub omits_confidence : DiagnosticReport → Bool
omits_confidence report =
    let value = get_value report.metadata "analyzer" in
    let analyzer = if truthy value then to_str value else "" in
    if analyzer == "HeuristicAnalyzer" then true else analyzer == "DeepDebugAnalyzer"

-- `_without_confidence`: drops every key `confidence`, at every depth of dictionaries and lists.
unfoldable mutual
  pub without_confidence : Value → Value
  without_confidence (dict d) = dict (without_confidence_fields d)
  without_confidence (list xs) = list (without_confidence_items xs)
  without_confidence value = value

  pub without_confidence_items : Items → Items
  without_confidence_items nil = nil
  without_confidence_items (cons v xs) = cons (without_confidence v) (without_confidence_items xs)

  pub without_confidence_fields : Fields → Fields
  without_confidence_fields end = end
  without_confidence_fields (field key item rest) =
      if key == "confidence"
      then without_confidence_fields rest
      else field key (without_confidence item) (without_confidence_fields rest)

-- `model_to_dict` of a report, on the payload that pydantic's dump of it gives.
unfoldable pub report_to_dict : DiagnosticReport → Value → Value
unfolding omits_confidence without_confidence
report_to_dict report payload =
    if omits_confidence report then without_confidence payload else payload
