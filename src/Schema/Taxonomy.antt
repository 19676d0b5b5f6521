-- ===== src/Schema/Taxonomy.antt =====
-- src/agentdebug/schema/taxonomy.py: the seed failure modes, in the order of the source, with the
-- look-up by id.
use agent_debug_x.Base.{
  String, Option, none, some, List, [], ◌∷◌, if◌then◌else◌, ◌==◌, string_eq, map,
}
use agent_debug_x.Schema.Models.{FailureMode}

-- `_mode`
abbrev mode : String → String → String → String → List String → List String → String → FailureMode
mode id name family description signals suggestions source = record {
  mode_id = id;
  name = name;
  family = family;
  description = description;
  signals = signals;
  suggestion_templates = suggestions;
  source = some source;
}

unfoldable pub memory_retrieval_failure : FailureMode
memory_retrieval_failure =
    mode "memory.retrieval_failure" "Memory retrieval failure" "memory"
      "The agent failed to retrieve relevant prior state, observation, or task context."
      ("missing context" ∷ "forgot" ∷ "stale context" ∷ "retrieval miss" ∷ [])
      ("Persist the missing state as structured memory and attach it to the next planning step."
        ∷ "Add a retrieval quality check before acting on retrieved context." ∷ [])
      "AgentDebug"

unfoldable pub memory_hallucination : FailureMode
memory_hallucination =
    mode "memory.hallucination" "Memory hallucination" "memory"
      "The agent treats unobserved or invented state as remembered fact."
      ("invented memory" ∷ "unsupported recall" ∷ "false prior state" ∷ [])
      ("Require memory reads to cite the source event or artifact before use."
        ∷ "Separate observed state from inferred state in the agent prompt." ∷ [])
      "AgentDebug"

unfoldable pub reflection_progress_misjudge : FailureMode
reflection_progress_misjudge =
    mode "reflection.progress_misjudge" "Progress misjudge" "reflection"
      "The agent incorrectly judges whether the task is solved or whether progress was made."
      ("premature success" ∷ "incorrect self evaluation" ∷ "progress misjudge" ∷ [])
      ("Add an external task verifier before termination."
        ∷ "Record explicit success criteria and compare the current state against each criterion."
        ∷ [])
      "AgentDebug"

unfoldable pub reflection_causal_misattribution : FailureMode
reflection_causal_misattribution =
    mode "reflection.causal_misattribution" "Causal misattribution" "reflection"
      "The agent explains failure using the wrong cause and then optimizes the wrong behavior."
      ("wrong root cause" ∷ "misattribution" ∷ "incorrect blame" ∷ [])
      ("Use counterfactual replay or ablation to test whether the suspected step caused the failure."
        ∷ "Preserve evidence links for each causal claim in the reflection." ∷ [])
      "AgentDebug"

unfoldable pub planning_constraint_ignorance : FailureMode
planning_constraint_ignorance =
    mode "planning.constraint_ignorance" "Constraint ignorance" "planning"
      "The plan ignores task, environment, policy, schema, or safety constraints."
      ("constraint ignored" ∷ "policy violation" ∷ "cannot satisfy requirement" ∷ [])
      ("Compile task and tool constraints into pre-action checks."
        ∷ "Fail closed when required constraints cannot be verified." ∷ [])
      "AgentDebug / MAST"

unfoldable pub planning_impossible_action : FailureMode
planning_impossible_action =
    mode "planning.impossible_action" "Impossible action" "planning"
      "The agent plans an action that cannot be executed in the current environment."
      ("impossible action" ∷ "unavailable operation" ∷ "invalid transition" ∷ [])
      ("Expose environment affordances as a machine-readable action space."
        ∷ "Ask the planner to replan from the last valid state after an impossible action is detected."
        ∷ [])
      "AgentDebug"

unfoldable pub planning_inefficient_plan : FailureMode
planning_inefficient_plan =
    mode "planning.inefficient_plan" "Inefficient plan" "planning"
      "The agent loops, over-decomposes, or burns steps without increasing task completion probability."
      ("loop" ∷ "step explosion" ∷ "no progress" ∷ "repeated action" ∷ [])
      ("Add loop detection over tool calls and state deltas."
        ∷ "Trigger a replan when the same state-action pattern repeats." ∷ [])
      "AgentDebug / MAST"

unfoldable pub action_wrong_tool : FailureMode
action_wrong_tool =
    mode "action.wrong_tool" "Wrong tool selection" "action"
      "The agent selects a tool that does not match the task intent or current state."
      ("wrong tool" ∷ "unknown tool" ∷ "tool mismatch" ∷ [])
      ("Add tool routing examples and negative examples for similar tools."
        ∷ "Use a tool-selection verifier before executing high-impact actions." ∷ [])
      "AgentDebug / AgentRx"

unfoldable pub action_invalid_action : FailureMode
action_invalid_action =
    mode "action.invalid_action" "Invalid action" "action"
      "The selected action is syntactically or semantically invalid for the environment."
      ("invalid action" ∷ "bad command" ∷ "action rejected" ∷ [])
      ("Validate action schemas before execution and return actionable repair hints."
        ∷ "Record rejected actions to fine-tune tool descriptions and examples." ∷ [])
      "AgentDebug"

unfoldable pub action_format_error : FailureMode
action_format_error =
    mode "action.format_error" "Format error" "action"
      "The agent produced malformed JSON, arguments, commands, or protocol messages."
      ("json parse" ∷ "schema validation" ∷ "malformed" ∷ "format error" ∷ [])
      ("Enforce structured output with schema validation and retry using validation errors."
        ∷ "Prefer typed tool APIs over free-form command strings where possible." ∷ [])
      "AgentDebug / AgentRx"

unfoldable pub action_parameter_error : FailureMode
action_parameter_error =
    mode "action.parameter_error" "Parameter error" "action"
      "The agent called the right tool with missing, hallucinated, or invalid parameters."
      ("missing parameter" ∷ "invalid parameter" ∷ "hallucinated argument" ∷ [])
      ("Validate parameters against tool schemas and ask for missing user/context fields."
        ∷ "Log parameter provenance so hallucinated arguments are visible in traces." ∷ [])
      "AgentDebug / AgentRx"

unfoldable pub system_tool_execution_error : FailureMode
system_tool_execution_error =
    mode "system.tool_execution_error" "Tool execution error" "system"
      "A tool, API, browser, environment, or dependency failed during execution."
      ("timeout" ∷ "exception" ∷ "http error" ∷ "tool failed" ∷ "api error" ∷ [])
      ("Capture tool stderr/status/latency and classify retryable versus non-retryable failures."
        ∷ "Add idempotency keys and rollback logic for side-effecting tools." ∷ [])
      "AgentDebug / AgentRx"

unfoldable pub system_llm_limit : FailureMode
system_llm_limit =
    mode "system.llm_limit" "LLM limit" "system"
      "The model hit context, rate, content, or capability limits."
      ("context length" ∷ "rate limit" ∷ "token limit" ∷ "model refusal" ∷ [])
      ("Summarize or shard long context with explicit loss accounting."
        ∷ "Route limit failures to a fallback model or smaller prompt plan." ∷ [])
      "AgentDebug"

unfoldable pub system_environment_error : FailureMode
system_environment_error =
    mode "system.environment_error" "Environment error" "system"
      "The external environment changed or returned noisy observations that misled the agent."
      ("environment changed" ∷ "noisy observation" ∷ "browser state" ∷ "missing element" ∷ [])
      ("Log environment snapshots and compare state before and after actions."
        ∷ "Use stable APIs or accessibility trees when visual/browser observations are brittle."
        ∷ [])
      "AgentDebug / AgentSight"

unfoldable pub multiagent_handoff_loss : FailureMode
multiagent_handoff_loss =
    mode "multiagent.handoff_loss" "Handoff context loss" "multiagent"
      "A receiving agent loses task constraints, rejected alternatives, or decision rationale."
      ("handoff missing context" ∷ "lost rationale" ∷ "context handoff" ∷ [])
      ("Make handoff payloads typed and include goal, constraints, evidence, confidence, and open questions."
        ∷ "Validate that the receiver can restate critical constraints before proceeding." ∷ [])
      "MAST / Who&When"

unfoldable pub multiagent_role_drift : FailureMode
multiagent_role_drift =
    mode "multiagent.role_drift" "Role drift" "multiagent"
      "An agent acts outside its assigned responsibility or duplicates another agent role."
      ("role drift" ∷ "responsibility overlap" ∷ "agent conflict" ∷ [])
      ("Define ownership boundaries and permitted actions per agent."
        ∷ "Add supervisor checks for role violations and duplicate work." ∷ [])
      "MAST / Who&When"

unfoldable pub verification_missing_task_validation : FailureMode
verification_missing_task_validation =
    mode "verification.missing_task_validation" "Missing task validation" "verification"
      "The system accepts task completion without an independent final-state check."
      ("no verifier" ∷ "unchecked final answer" ∷ "missing validation" ∷ [])
      ("Add final-state validation that is independent of the acting agent."
        ∷ "Store task-specific success criteria in the trace before execution begins." ∷ [])
      "MAST"

unfoldable pub verification_premature_stop : FailureMode
verification_premature_stop =
    mode "verification.premature_stop" "Premature stop" "verification"
      "The agent stops before satisfying the task or exits after hitting a hidden stop condition."
      ("premature stop" ∷ "early termination" ∷ "max steps" ∷ [])
      ("Differentiate success, abandonment, and max-step termination in the run schema."
        ∷ "Trigger recovery planning when termination reason is not verified success." ∷ [])
      "MAST / AgentDebug"

unfoldable pub multimodal_perception_error : FailureMode
multimodal_perception_error =
    mode "multimodal.perception_error" "Multimodal perception error" "multimodal"
      "The agent misreads an image, UI, audio, video, or file artifact and acts on bad perception."
      ("visual mismatch" ∷ "ocr error" ∷ "audio transcription error" ∷ "ui element mismatch" ∷ [])
      ("Store raw multimodal artifacts alongside extracted text and confidence scores."
        ∷ "Use redundant perception channels such as accessibility trees plus screenshots for UI tasks."
        ∷ [])
      "AgentDebugX proposed extension"

unfoldable pub observation_misread : FailureMode
observation_misread =
    mode "observation.misread" "Observation misread" "observation"
      "The agent reads the environment or tool response but takes the wrong value or meaning from it: a misparsed field, a unit confused, an error message read as success."
      ("misparsed field" ∷ "wrong unit" ∷ "error read as success" ∷ "value mismatch" ∷ [])
      ("Echo the parsed value back alongside the raw response before acting on it."
        ∷ "Assert units and types at the parse boundary rather than downstream." ∷ [])
      "TrajDebug (obs.MisreadOutput)"

unfoldable pub observation_ignored : FailureMode
observation_ignored =
    mode "observation.ignored" "Observation ignored" "observation"
      "Information needed for the next decision is present in the current or a visible prior observation, and the agent proceeds without using it."
      ("available output unused" ∷ "ignored error diagnostic" ∷ "answer already present" ∷ [])
      ("Require the next step to reference the most recent observation explicitly."
        ∷ "Surface unconsumed error diagnostics into the planning context." ∷ [])
      "TrajDebug (obs.IgnoreOutput)"

unfoldable pub observation_grounding_fail : FailureMode
observation_grounding_fail =
    mode "observation.grounding_fail" "Observation grounding failure" "observation"
      "The agent reads a value correctly but binds it to the wrong entity, element, or field, so later reasoning is built on the wrong object."
      ("wrong entity" ∷ "ambiguous name" ∷ "wrong page section" ∷ "field mapping error" ∷ [])
      ("Carry entity identifiers rather than display names across steps."
        ∷ "Confirm the resolved target before extracting from it." ∷ [])
      "TrajDebug (obs.GroundingFail)"

unfoldable pub observation_timing : FailureMode
observation_timing =
    mode "observation.timing" "Observation timing error" "observation"
      "The agent treats a partial, pending, or not-yet-ready response as final and acts on it."
      ("pending treated as final" ∷ "partial output" ∷ "not loaded" ∷ "async not settled" ∷ [])
      ("Check readiness or status fields before consuming a response."
        ∷ "Distinguish empty results from unfinished ones in the tool contract." ∷ [])
      "TrajDebug (obs.TimingIssue)"

unfoldable pub seed_failure_modes : List (String × FailureMode)
seed_failure_modes =
    ("memory.retrieval_failure", memory_retrieval_failure)
    ∷ ("memory.hallucination", memory_hallucination)
    ∷ ("reflection.progress_misjudge", reflection_progress_misjudge)
    ∷ ("reflection.causal_misattribution", reflection_causal_misattribution)
    ∷ ("planning.constraint_ignorance", planning_constraint_ignorance)
    ∷ ("planning.impossible_action", planning_impossible_action)
    ∷ ("planning.inefficient_plan", planning_inefficient_plan)
    ∷ ("action.wrong_tool", action_wrong_tool)
    ∷ ("action.invalid_action", action_invalid_action)
    ∷ ("action.format_error", action_format_error)
    ∷ ("action.parameter_error", action_parameter_error)
    ∷ ("system.tool_execution_error", system_tool_execution_error)
    ∷ ("system.llm_limit", system_llm_limit)
    ∷ ("system.environment_error", system_environment_error)
    ∷ ("multiagent.handoff_loss", multiagent_handoff_loss)
    ∷ ("multiagent.role_drift", multiagent_role_drift)
    ∷ ("verification.missing_task_validation", verification_missing_task_validation)
    ∷ ("verification.premature_stop", verification_premature_stop)
    ∷ ("multimodal.perception_error", multimodal_perception_error)
    ∷ ("observation.misread", observation_misread)
    ∷ ("observation.ignored", observation_ignored)
    ∷ ("observation.grounding_fail", observation_grounding_fail)
    ∷ ("observation.timing", observation_timing)
    ∷ []

-- `SEED_FAILURE_MODES.get(mode_id)`
unfoldable pub lookup_mode : String → List (String × FailureMode) → Option FailureMode
lookup_mode mode_id [] = none
lookup_mode mode_id ((key, value) ∷ rest) =
    let found = lookup_mode mode_id rest in if key == mode_id then some value else found

unfoldable pub get_failure_mode : String → Option FailureMode
unfolding lookup_mode
get_failure_mode mode_id = lookup_mode mode_id seed_failure_modes

unfoldable pub list_failure_modes : List FailureMode
list_failure_modes = map (λ (entry : String × FailureMode). entry.1) seed_failure_modes
