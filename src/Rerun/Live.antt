-- ===== src/Rerun/Live.antt =====
-- rerun/live_validation.py: the proof of execution that a live runner sends back. The parser of
-- trajectories is pydantic's, and is an argument.
use agent_debug_x.Base.{
  ℕ, String, Bool, not, Option, none, some, count_if, length, ltb, leb, if◌then◌else◌, or_else,
  ◌==◌, string_eq,
}
use agent_debug_x.Python.{
  Value, Fields, end, get_value, str_or_empty, strip, as_dict, as_bool, as_int, is_true, is_str,
  pos, negsuc, Result, ok, err, value_error, ◌>>=◌, ◌>>◌, require,
}
use agent_debug_x.Schema.{AgentTrajectory, is_type, tool_call}
use agent_debug_x.Rerun.Request.{live_execution}

-- `isinstance(value, T)` with the value, or the error
abbrev pub expect {ℓ} : {A : Type ℓ} → Option A → String → Result A
expect none message = err (value_error message)
expect (some a) message = ok a

-- A number that is not negative
abbrev pub as_count : Value → Option ℕ
as_count value = elim (as_int value) [
  | none ↦ none
  | some n ↦ elim n [ pos k ↦ some k | negsuc k ↦ none ]
]

unfoldable pub is_empty_text : String → Bool
is_empty_text text = text == ""

unfoldable pub observed_tool_calls : AgentTrajectory → ℕ
observed_tool_calls trajectory =
    count_if (λ event. is_type event.event_type tool_call) trajectory.events

pub record ExecutionProof : Type 0 where
  pub fields : Fields
  pub tools_executed : Bool
  pub runner : String
  pub framework : String
  pub tool_execution_count : ℕ

-- The checks of the object `execution`, in their order
unfoldable pub check_proof : Fields → Result ExecutionProof
check_proof proof = do
  require (is_str (get_value proof "mode") live_execution)
      (value_error "live rerun execution.mode must be live_execution")
  require (is_true (get_value proof "observed_execution"))
      (value_error "live rerun execution.observed_execution must be true")
  tools_executed ←
      expect (as_bool (get_value proof "tools_executed"))
        "live rerun execution.tools_executed must be a boolean"
  let runner = strip (str_or_empty (get_value proof "runner"))
  require (not (is_empty_text runner)) (value_error "live rerun execution.runner is required")
  let framework = strip (str_or_empty (get_value proof "framework"))
  require (not (is_empty_text framework)) (value_error "live rerun execution.framework is required")
  count ←
      expect (as_count (get_value proof "tool_execution_count"))
        "live rerun execution.tool_execution_count must be a non-negative integer"
  require (if tools_executed then ltb 0 count else not (ltb 0 count))
      (value_error "live rerun tools_executed must match tool_execution_count")
  ok (record {
    fields = proof;
    tools_executed = tools_executed;
    runner = runner;
    framework = framework;
    tool_execution_count = count;
  })

-- The checks of the trajectory against the proof
unfoldable pub check_trajectory : ExecutionProof → AgentTrajectory → Result AgentTrajectory
check_trajectory proof trajectory = do
  require (ltb 0 (length trajectory.events))
      (value_error "live rerun trajectory must contain observed events")
  require (leb proof.tool_execution_count (observed_tool_calls trajectory))
      (value_error "live rerun trajectory does not contain the declared tool executions")
  ok trajectory

module _ (trajectory_from_json : Fields → Result AgentTrajectory) where
  unfoldable pub parse_live_result : Value → Result (AgentTrajectory × ExecutionProof × Fields)
  parse_live_result payload = do
    fields ← expect (as_dict payload) "live rerun output must be a JSON object"
    execution ←
        expect (as_dict (get_value fields "execution"))
          "live rerun output requires an execution proof object"
    proof ← check_proof execution
    content ←
        expect (as_dict (get_value fields "trajectory"))
          "live rerun output requires a trajectory object"
    parsed ← trajectory_from_json content
    trajectory ← check_trajectory proof parsed
    ok (trajectory, proof, or_else (as_dict (get_value fields "metadata")) end)
