-- ===== src/Samples/Traces.antt =====
-- A run of five events, two findings on it and a report. No part of the program is modelled here.
use agent_debug_x.Base.{ℕ, String, Bool, true, false, ◌≡◌, refl, Option, none, some, List, [], ◌∷◌}
use agent_debug_x.Python.{Value, null, str, bool, end, field, Result, ok, err}
use agent_debug_x.Schema.{
  AgentEvent, EventType, observation, tool_call, tool_result, reflection, AgentTrajectory,
  FailureFinding, DiagnosticReport, planning_inefficient_plan,
}

abbrev pub event_of : String → Option String → EventType → Value → Value → AgentEvent
event_of id parent type input output = record {
  event_id = id;
  trace_id = "t1";
  parent_event_id = parent;
  agent_name = "solver";
  event_type = type;
  module_name = none;
  step_index = some 7;
  timestamp = 0;
  input = input;
  output = output;
  error = none;
  duration_ms = none;
  metadata = end;
  artifacts = [];
}

abbrev pub thought : AgentEvent
thought = event_of "e1" none reflection null (str "private")

abbrev pub search : AgentEvent
search = event_of "e2" (some "e1") tool_call (str "find apple") null

abbrev pub again : AgentEvent
again = event_of "e3" (some "e2") tool_call (str "find  apple") null

abbrev pub failed : AgentEvent
failed = record (event_of "e4" (some "e3") tool_result null (str "no")) { error = some "boom" }

abbrev pub claim : AgentEvent
claim = record (event_of "e5" (some "e4") observation null (str "task completed")) {
  metadata = field "success" (bool false) end;
}

abbrev pub trajectory_of : List AgentEvent → AgentTrajectory
trajectory_of events = record {
  trace_id = "t1";
  task_id = none;
  goal = some "fetch an apple";
  framework = none;
  started_at = 0;
  ended_at = none;
  metadata = end;
  events = events;
}

abbrev pub run : AgentTrajectory
run = trajectory_of (thought ∷ search ∷ again ∷ failed ∷ claim ∷ [])

abbrev pub finding_of : String → Option ℕ → ℕ → FailureFinding
finding_of id step confidence = record {
  failure_mode = planning_inefficient_plan;
  event_id = some id;
  agent_name = some "solver";
  step_index = step;
  confidence = some confidence;
  evidence = [];
  suggestion = some "plan shorter";
  metadata = end;
  wrong_content_quote = none;
  reference_quote = none;
  conflict_with = none;
  quote_verified = none;
}

abbrev pub late : FailureFinding
late = finding_of "e4" (some 4) 900

abbrev pub early : FailureFinding
early = finding_of "e2" (some 2) 500

abbrev pub report : DiagnosticReport
report = record {
  report_id = "r1";
  trace_id = "t1";
  task_id = none;
  generated_at = 0;
  root_cause_event_id = some "e2";
  root_cause_agent = some "solver";
  root_cause_step_index = some 2;
  findings = early ∷ [];
  summary = "searched twice";
  suggestions = "plan shorter" ∷ [];
  attribution = none;
  recovery = none;
  audit = [];
  metadata = field "analyzer" (str "HeuristicAnalyzer") end;
}

abbrev pub is_ok {ℓ} : {A : Type ℓ} → Result A → Bool
is_ok (ok _) = true
is_ok (err _) = false

-- What a call that returns returns.
abbrev pub ok_of {ℓ} : {A : Type ℓ} (call : Result A) → is_ok call ≡ true → (a : A) × (call ≡ ok a)
ok_of (ok a) h = (a, refl)
ok_of (err e) h = cc
