-- ===== src/Capture/Exclusion.antt =====
-- The exclusion rules of capture/filtering.py: private reasoning, what the integration itself
-- recorded, and whole turns that ran this program.
use agent_debug_x.Base.{
  String, ◌+++◌, Bool, false, not, ◌&&◌, ◌||◌, Option, none, some, List, [], ◌∷◌, ◌++◌, any,
  contains, map, if◌then◌else◌, is_some, ◌==◌, string_eq, option_eq, nat_beq, Dict, lookup, insert,
  length,
}
use agent_debug_x.Python.{
  Value, Items, Fields, str, list, tuple, dict, nil, cons, end, field, get_value, is_true, is_str,
  is_in, split, join,
}
use agent_debug_x.Schema.{AgentEvent, is_type, reflection, tool_call, tool_result, observation}
use Prim.Native.Char.{char, code}

abbrev pub private_reasoning : String
private_reasoning = "private_reasoning"

abbrev pub integration_owned : String
integration_owned = "integration_owned"

abbrev pub agentdebug_instrumentation : String
agentdebug_instrumentation = "agentdebug_instrumentation"

-- `text.replace('\\', '/')`
unfoldable pub forward_slashes : String → String
forward_slashes String.[] = ""
forward_slashes (String.◌∷◌ c s) =
    String.◌∷◌ (if nat_beq (code c) 92 then char 47 tt else c) (forward_slashes s)

unfoldable pub is_skill_path : Value → Bool
unfolding forward_slashes
is_skill_path (str candidate) =
    any (λ (marker : String). is_in marker (forward_slashes candidate))
      ("/.claude/skills/agentdebug/" ∷ "/.agents/skills/agentdebug/" ∷ "/.codex/skills/agentdebug/"
        ∷ [])
is_skill_path value = false

-- `_managed_skill_path`
unfoldable pub managed_skill_path : Value → Bool
unfolding is_skill_path
managed_skill_path (dict d) =
    any (λ key. is_skill_path (get_value d key)) ("path" ∷ "file_path" ∷ "uri" ∷ [])
managed_skill_path value = false

unfoldable pub is_reasoning : AgentEvent → Bool
is_reasoning event = is_type event.event_type reflection || event.module_name == some "reasoning"

unfoldable pub is_owned : AgentEvent → Bool
is_owned event =
    is_true (get_value event.metadata "agentdebug_capture_owned")
    || is_str (get_value event.metadata "claude_code_origin_kind") "agentdebug_capture"
    || is_str (get_value event.metadata "claude_code_prompt_source") "agentdebug-capture"
    || is_str (get_value event.metadata "codex_origin") "agentdebug_capture"
    || (is_type event.event_type tool_call && managed_skill_path event.input)

-- `_excluded_by`
unfoldable pub excluded_by : AgentEvent → Option String
excluded_by event =
    if is_reasoning event
    then some private_reasoning
    else if is_owned event
    then some integration_owned
    else none

-- `_contains_agentdebug_run`
unfoldable pub text_runs_agentdebug : String → Bool
text_runs_agentdebug text =
    let normalized = join " " (split text) +++ " " in
    is_in "agentdebug run " normalized || is_in "agentdebug.cli run " normalized

unfoldable mutual
  pub runs_agentdebug : Value → Bool
  runs_agentdebug (str text) = text_runs_agentdebug text
  runs_agentdebug (dict d) = runs_agentdebug_fields d
  runs_agentdebug (list xs) = runs_agentdebug_items xs
  runs_agentdebug (tuple xs) = runs_agentdebug_items xs
  runs_agentdebug value = false

  pub runs_agentdebug_items : Items → Bool
  runs_agentdebug_items nil = false
  runs_agentdebug_items (cons v xs) = runs_agentdebug v || runs_agentdebug_items xs

  pub runs_agentdebug_fields : Fields → Bool
  runs_agentdebug_fields end = false
  runs_agentdebug_fields (field key v rest) = runs_agentdebug v || runs_agentdebug_fields rest

-- `_starts_conversation_turn`
unfoldable pub starts_turn : AgentEvent → Bool
starts_turn event =
    is_type event.event_type observation
    && event.agent_name == "user"
    && event.module_name == some "conversation"

unfoldable pub is_agentdebug_call : AgentEvent → Bool
is_agentdebug_call event = is_type event.event_type tool_call && runs_agentdebug event.input

unfoldable pub event_ids : List AgentEvent → List String
event_ids events = map (λ event. event.event_id) events

-- `_exclude_agentdebug_segment`: the ids of the whole turn, if one call of it runs this program.
unfoldable pub segment_ids : List AgentEvent → List String
unfolding event_ids
segment_ids segment = if any is_agentdebug_call segment then event_ids segment else []

-- The loop of `_agentdebug_instrumentation_ids`; a set is the list of its elements.
unfoldable pub instrumentation_from : List AgentEvent → List String → List AgentEvent → List String
unfolding segment_ids
instrumentation_from segment excluded [] = excluded ++ segment_ids segment
instrumentation_from segment excluded (event ∷ events) =
    let cut = starts_turn event && not (nat_beq (length segment) 0) in
    instrumentation_from ((if cut then [] else segment) ++ event ∷ [])
      (if cut then excluded ++ segment_ids segment else excluded) events

unfoldable pub instrumentation_ids : List AgentEvent → List String
unfolding instrumentation_from
instrumentation_ids events = instrumentation_from [] [] events

-- The first loop of `prepare_for_capture`
unfoldable pub exclude_one : List String → Dict String String → AgentEvent → Dict String String
exclude_one instrumented excluded event =
    if contains instrumented event.event_id
    then insert excluded event.event_id agentdebug_instrumentation
    else elim (excluded_by event) [
      | none ↦ excluded
      | some rule ↦ insert excluded event.event_id rule
    ]

unfoldable pub exclude_events :
    List String → Dict String String → List AgentEvent → Dict String String
unfolding exclude_one
exclude_events instrumented excluded [] = excluded
exclude_events instrumented excluded (event ∷ events) =
    exclude_events instrumented (exclude_one instrumented excluded event) events

-- `event.parent_event_id in excluded`
unfoldable pub is_excluded : Dict String String → Option String → Bool
is_excluded excluded none = false
is_excluded excluded (some id) = is_some (lookup excluded id)

-- `excluded.setdefault(id, rule)`
unfoldable pub set_default : Dict String String → String → String → Dict String String
set_default excluded id rule = elim (lookup excluded id) [
  | none ↦ insert excluded id rule
  | some _ ↦ excluded
]

-- The second loop: the results of excluded calls
unfoldable pub exclude_result : Dict String String → AgentEvent → Dict String String
unfolding is_excluded set_default
exclude_result excluded event =
    if is_type event.event_type tool_result && is_excluded excluded event.parent_event_id
    then set_default excluded event.event_id integration_owned
    else excluded

unfoldable pub exclude_results : Dict String String → List AgentEvent → Dict String String
unfolding exclude_result
exclude_results excluded [] = excluded
exclude_results excluded (event ∷ events) = exclude_results (exclude_result excluded event) events

unfoldable pub exclusions : List AgentEvent → Dict String String
unfolding exclude_events exclude_results instrumentation_ids
exclusions events = exclude_results (exclude_events (instrumentation_ids events) [] events) events
