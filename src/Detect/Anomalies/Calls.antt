-- ===== src/Detect/Anomalies/Calls.antt =====
-- The repeated-tool-call rule of diagnose/detect/rules/packs/core/rules.py: how it groups calls, and
-- when it reports.
use mathlib.Core.List.{append-nil, append_assoc}
use agent_debug_x.Base.{
  All-imp, option_eq, ◌≤◌, String, ◌≡◌, refl, Bool, true, false, ◌&&◌, some, List, [], ◌∷◌, ◌++◌,
  arith, All, length, last?, ltb, if◌then◌else◌, string_eq, pair_eq, keep, Bool-cases, Option-cases,
  inl, inr, lookup, insert, lookup-insert, or_else, flat_map, count_if, length-keep, ◌∙◌, sym,
  IsDistinct, IsDistinct-insert, keys, All-lookup, any, any-flat_map-lookup, All-flat_map_of,
}
use agent_debug_x.Python.{Fields}
use agent_debug_x.Schema.{
  AgentEvent, AgentTrajectory, FailureFinding, FailureMode, is_type, tool_call,
}
use agent_debug_x.Detect.Anomalies.{
  CallKey, Groups, call_key, add_call, group_calls, group_finding, detect_repeated_tool_call,
}
use agent_debug_x.Detect.Findings.{RepeatedToolCall, TrajectoryRule, finding}

-- The event is a tool call with that agent and that normalized input.
abbrev pub is_call : CallKey → AgentEvent → Bool
is_call key event = is_type event.event_type tool_call && pair_eq.beq (call_key event) key

abbrev group_of : Groups → CallKey → List AgentEvent
group_of counts key = or_else (lookup counts key) []

group_of-insert :
    (counts : Groups) (key other : CallKey) (events : List AgentEvent)
    → group_of (insert counts key events) other
      ≡ (if pair_eq.beq key other then events else group_of counts other)
group_of-insert counts key other events =
    rw (lookup-insert counts key other events)
      (elim (Bool-cases (pair_eq.beq key other)) [ inl e ↦ rw e refl | inr e ↦ rw e refl ])

group_of-add_call :
    (counts : Groups) (event : AgentEvent) (key : CallKey)
    → group_of (add_call counts event) key ≡ (
        if pair_eq.beq (call_key event) key
        then group_of counts key ++ event ∷ []
        else group_of counts key)
unfolding add_call
group_of-add_call counts event key =
    group_of-insert counts (call_key event) key (group_of counts (call_key event) ++ event ∷ [])
    ∙ elim (Bool-cases (pair_eq.beq (call_key event) key)) [
      | inl e ↦ rw ((pair_eq.beq_iff (call_key event) key).0 e) refl
      | inr e ↦ rw e refl
    ]

-- Each group holds the calls of its key, in their order.
group_of-group_calls :
    (counts : Groups) (events : List AgentEvent) (key : CallKey)
    → group_of (group_calls counts events) key ≡ group_of counts key ++ keep (is_call key) events
unfolding group_calls keep
group_of-group_calls counts [] key = sym (append-nil (group_of counts key))
group_of-group_calls counts (event ∷ events) key =
    elim (Bool-cases (is_type event.event_type tool_call)) [
      | inl call ↦ rw call (
          group_of-group_calls (add_call counts event) events key
          ∙ (rw (group_of-add_call counts event key)
              (elim (Bool-cases (pair_eq.beq (call_key event) key)) [
                | inl e ↦
                    rw e
                      (append_assoc (group_of counts key) (event ∷ []) (keep (is_call key) events))
                | inr e ↦ rw e refl
              ])))
      | inr other ↦ rw other (group_of-group_calls counts events key)
    ]

IsDistinct-group_calls :
    (counts : Groups) (events : List AgentEvent)
    → IsDistinct (keys counts)
    → IsDistinct (keys (group_calls counts events))
unfolding group_calls add_call
IsDistinct-group_calls counts [] d = d
IsDistinct-group_calls counts (event ∷ events) d =
    elim (Bool-cases (is_type event.event_type tool_call)) [
      | inl call ↦ rw call (
          IsDistinct-group_calls (add_call counts event) events (
            IsDistinct-insert counts (call_key event)
              (group_of counts (call_key event) ++ event ∷ []) d))
      | inr other ↦ rw other (IsDistinct-group_calls counts events d)
    ]

pub event_id-finding :
    (mode : FailureMode) (event : AgentEvent) (evidence : List String) (metadata : Fields)
    (rule : TrajectoryRule) (basis : String)
    → (finding mode event evidence metadata rule basis).event_id ≡ some event.event_id
unfolding finding
event_id-finding mode event evidence metadata rule basis = refl

module _ (rule : RepeatedToolCall) (events : List AgentEvent) where
  -- A finding is justified by a key with enough calls, and blames the last of them.
  pub record IsRepeated (f : FailureFinding) : Type 0 where
    pub key : CallKey
    pub target : AgentEvent
    pub last : last? (keep (is_call key) events) ≡ some target
    pub blames : f.event_id ≡ some target.event_id
    pub often : rule.threshold ≤ count_if (is_call key) events

  group_finding-IsRepeated :
      (entry : CallKey × List AgentEvent)
      → entry.1 ≡ keep (is_call entry.0) events
      → All IsRepeated (group_finding rule entry)
  unfolding group_finding
  group_finding-IsRepeated (key, calls) e = elim (Option-cases (last? calls)) [
    | inl l ↦ rw (l, group_finding) tt
    | inr (target, l) ↦ elim (Bool-cases (ltb (length calls) rule.threshold)) [
      | inl few ↦ rw (l, few, group_finding) tt
      | inr many ↦
          rw (l, many, group_finding)
            ((
              record {
                key = key;
                target = target;
                last = rw (← e) l;
                blames = event_id-finding _ target _ _ _ _;
                often = rw (← length-keep (is_call key) events, ← e) (ground arith);
              },
              tt,
            ))
    ]
  ]

  groups-lookup :
      (key : CallKey) (calls : List AgentEvent)
      → lookup (group_calls [] events) key ≡ some calls
      → calls ≡ keep (is_call key) events
  unfolding lookup
  groups-lookup key calls h =
      let e : or_else (some calls) [] ≡ keep (is_call key) events =
        rw h at (group_of-group_calls [] events key) in
      e

  groups-entries : All (λ entry. entry.1 ≡ keep (is_call entry.0) events) (group_calls [] events)
  groups-entries =
      All-imp (λ entry l. groups-lookup entry.0 entry.1 l) (group_calls [] events)
        (All-lookup (group_calls [] events) (IsDistinct-group_calls [] events tt))

  group_finding-blames :
      (key : CallKey) (calls : List AgentEvent) (target : AgentEvent)
      → last? calls ≡ some target
      → rule.threshold ≤ length calls
      → any (λ f. option_eq.beq f.event_id (some target.event_id)) (group_finding rule (key, calls))
        ≡ true
  unfolding any group_finding
  group_finding-blames key calls target l h =
      let many : ltb (length calls) rule.threshold ≡ false = ground arith in
      rw (l, many, group_finding)
        (rw (event_id-finding _ target _ _ _ _)
          (rw ((string_eq.beq_iff target.event_id target.event_id).1 refl) refl))

  blames-last :
      (key : CallKey) (target : AgentEvent)
      → last? (keep (is_call key) events) ≡ some target
      → rule.threshold ≤ count_if (is_call key) events
      → any
          (λ f. option_eq.beq f.event_id (some target.event_id))
          (flat_map (group_finding rule) (group_calls [] events))
        ≡ true
  unfolding lookup
  blames-last key target l h = elim (Option-cases (lookup (group_calls [] events) key)) [
    | inl e ↦
        (let empty : [] ≡ keep (is_call key) events =
            rw e at (group_of-group_calls [] events key) in
          let bad : last? {A = AgentEvent} [] ≡ some target = rw (← empty) at l in cc)
    | inr (calls, e) ↦
        (let eq = groups-lookup key calls e in
          any-flat_map-lookup (λ f. option_eq.beq f.event_id (some target.event_id))
            (group_finding rule) (group_calls [] events) key calls e
            (group_finding-blames key calls target (rw eq l)
              (rw (eq, length-keep (is_call key) events) h)))
  ]

-- Each finding of the repeated-tool-call rule blames the last call of a key (agent, normalized
-- input) with at least `threshold` tool calls in the trajectory.
pub detect_repeated_tool_call-IsRepeated :
    (rule : RepeatedToolCall) (trajectory : AgentTrajectory)
    → All (IsRepeated rule trajectory.events) (detect_repeated_tool_call rule trajectory)
unfolding detect_repeated_tool_call
detect_repeated_tool_call-IsRepeated rule trajectory =
    let events = trajectory.events in
    All-flat_map_of (λ entry. entry.1 ≡ keep (is_call entry.0) events) (IsRepeated rule events)
      (group_finding rule) (group_finding-IsRepeated rule events) (group_calls [] events)
      (groups-entries rule events)

-- For each key with at least `threshold` tool calls in the trajectory, the last of which is the
-- target, some finding of the repeated-tool-call rule blames the target.
pub detect_repeated_tool_call_complete :
    (rule : RepeatedToolCall) (trajectory : AgentTrajectory) (key : CallKey) (target : AgentEvent)
    → last? (keep (is_call key) trajectory.events) ≡ some target
    → rule.threshold ≤ count_if (is_call key) trajectory.events
    → any
        (λ f. option_eq.beq f.event_id (some target.event_id))
        (detect_repeated_tool_call rule trajectory)
      ≡ true
unfolding detect_repeated_tool_call
detect_repeated_tool_call_complete rule trajectory = blames-last rule trajectory.events
