-- ===== src/Ingest/NativeProtocol/Calls.antt =====
-- Turns and calls that ingest/native_protocol.py finds nothing wrong with.
use agent_debug_x.Base.{
  and-left, ℕ, String, ◌≡◌, refl, ap, ◌⊎◌, inl, inr, Bool, true, false, not, ◌&&◌, ◌||◌, Option,
  none, some, List, [], ◌∷◌, if◌then◌else◌, Bool-cases, Option-cases, length, ltb, string_eq, arith,
}
use agent_debug_x.Python.{Value, Fields, get_value, as_dict, is_str, value_eq}
use agent_debug_x.Schema.{AgentEvent, is_type, error, tool_call, tool_result}
use agent_debug_x.Ingest.NativeProtocol.{Violation, id_text, AssistantTurn}
use agent_debug_x.Ingest.NativeProtocol.Executed.{
  turn_events, events_at, is_rejected_multi_call, step_annotation, report_if, name_violations,
  args_violations, input_value, function_value, expected_args, check_pair, check_pairs,
  check_single_call, check_multi_call, check_event, check_turn,
}
use agent_debug_x.Ingest.NativeProtocol.Transcripts.{append-eq-nil}

pub report_if-nil : (test : Bool) (v : Violation) → report_if test v ≡ [] → test ≡ false
unfolding report_if
report_if-nil true v h = cc
report_if-nil false v h = refl

module _ (trace_uid : String) (parse : String → Value) where
  -- The executed call is the one of the envelope: its id, its name as it was sent or as it was
  -- repaired, and its arguments, which are an object; and the result is that of the executed call.
  pub record Agrees (call : Value) (call_id : String) (event executed result : AgentEvent)
      : Type 0 where
    pub id : is_str (get_value executed.metadata "tool_call_id") call_id ≡ true
    pub name : String
    pub named : id_text (function_value "name" call) ≡ some name
    pub same_name :
        (is_str (input_value "tool" executed) name
          || is_str (step_annotation event "leaked_tool_name") name)
        ≡ true
    pub args : Fields
    pub object : as_dict (expected_args parse (function_value "arguments" call)) ≡ some args
    pub same_args :
        value_eq
          (input_value "args" executed)
          (expected_args parse (function_value "arguments" call))
        ≡ true
    pub same_tool : value_eq (input_value "tool" result) (input_value "tool" executed) ≡ true

  name_violations-nil :
      (index : ℕ) (name : Option String) (executed leaked : Value)
      → name_violations trace_uid index name executed leaked ≡ []
      → (text : String) × (name ≡ some text) × ((is_str executed text || is_str leaked text) ≡ true)
  unfolding name_violations
  name_violations-nil index none executed leaked h = cc
  name_violations-nil index (some name) executed leaked h =
      let q = report_if-nil (not (is_str executed name) && not (is_str leaked name)) _ h in
      (name, refl, ground arith)

  args_violations-nil :
      (index : ℕ) (expected executed : Value)
      → args_violations trace_uid index expected executed ≡ []
      → (args : Fields) × (as_dict expected ≡ some args) × (value_eq executed expected ≡ true)
  unfolding args_violations
  args_violations-nil index expected executed h = elim (Option-cases (as_dict expected)) [
    | inl e ↦ (let bad = rw (args_violations, e) at h in absurd (cc))
    | inr (args, e) ↦
        (let q =
            report_if-nil (not (value_eq executed expected)) _ (rw (args_violations, e) at h) in
          (args, e, ground arith))
  ]

  check_pair-Agrees :
      (index : ℕ) (call : Value) (call_id : String) (event executed result : AgentEvent)
      → check_pair trace_uid parse index call call_id event executed result ≡ []
      → Agrees call call_id event executed result
  unfolding check_pair
  check_pair-Agrees index call call_id event executed result h =
      let (a, h₁) =
        append-eq-nil
          (report_if (not (is_str (get_value executed.metadata "tool_call_id") call_id)) _) _ h in
      let (b, h₂) =
        append-eq-nil
          (name_violations trace_uid index (id_text (function_value "name" call))
            (input_value "tool" executed) (step_annotation event "leaked_tool_name"))
          _ h₁ in
      let (c, d) =
        append-eq-nil
          (args_violations trace_uid index (expected_args parse (function_value "arguments" call))
            (input_value "args" executed))
          _ h₂ in
      let (name, named, same_name) = name_violations-nil index _ _ _ b in
      let (args, object, same_args) = args_violations-nil index _ _ c in
      let x =
        report_if-nil (not (is_str (get_value executed.metadata "tool_call_id") call_id)) _ a in
      let y =
        report_if-nil (not (value_eq (input_value "tool" result) (input_value "tool" executed))) _
          d in
      record {
        id = ground arith;
        name = name;
        named = named;
        same_name = same_name;
        args = args;
        object = object;
        same_args = same_args;
        same_tool = ground arith;
      }

  -- The step was refused, as an error, and nothing ran at it; if there were several calls, for that.
  pub record IsRefused (turn : AssistantTurn) (event : AgentEvent) (events : List AgentEvent)
      : Type 0 where
    pub failed : is_type event.event_type error ≡ true
    pub no_call : events_at tool_call event.step_index events ≡ []
    pub no_result : events_at tool_result event.step_index events ≡ []
    pub reason : ltb 1 (length turn.calls) ≡ true → is_rejected_multi_call event ≡ true

  -- The one call of the turn ran once and gave one result, and they agree with it.
  pub record IsExecuted (turn : AssistantTurn) (event : AgentEvent) (events : List AgentEvent)
      : Type 0 where
    pub call : Value
    pub calls : turn.calls ≡ call ∷ []
    pub call_id : String
    pub more_ids : List String
    pub ids : turn.call_ids ≡ call_id ∷ more_ids
    pub executed : AgentEvent
    pub one_call : events_at tool_call event.step_index events ≡ executed ∷ []
    pub result : AgentEvent
    pub one_result : events_at tool_result event.step_index events ≡ result ∷ []
    pub agrees : Agrees call call_id event executed result

  -- One event points to the turn, and it was refused or executed.
  pub record TurnFits (turn : AssistantTurn) (events : List AgentEvent) : Type 0 where
    pub event : AgentEvent
    pub pointing : turn_events turn.index events ≡ event ∷ []
    pub outcome : IsRefused turn event events ⊎ IsExecuted turn event events

  nil_of_empty : (events : List AgentEvent) → ltb 0 (length events) ≡ false → events ≡ []
  nil_of_empty [] h = refl
  nil_of_empty (event ∷ events) h = absurd (ground arith)

  one_of : {A : Type 0} (x : A) (xs : List A) → ltb 1 (length (x ∷ xs)) ≡ false → xs ≡ []
  one_of x [] h = refl
  one_of x (y ∷ xs) h = absurd (ground arith)

  check_pairs-parts :
      (index : ℕ) (calls : List Value) (ids : List String) (event : AgentEvent)
      (ran results : List AgentEvent)
      → ltb 1 (length calls) ≡ false
      → check_pairs trace_uid parse index calls ids event ran results ≡ []
      → (call : Value) × (calls ≡ call ∷ [])
        × (call_id : String) × (more : List String) × (ids ≡ call_id ∷ more)
        × (executed : AgentEvent) × (ran ≡ executed ∷ [])
        × (result : AgentEvent) × (results ≡ result ∷ [])
        × Agrees call call_id event executed result
  unfolding check_pairs
  check_pairs-parts index (call ∷ calls) (id ∷ ids) event (executed ∷ []) (result ∷ []) l h = (
    call,
    ap (λ c. call ∷ c) (one_of call calls l),
    id,
    ids,
    refl,
    executed,
    refl,
    result,
    refl,
    check_pair-Agrees index call id event executed result h,
  )
  check_pairs-parts index [] ids event ran results l h = absurd (cc)
  check_pairs-parts index (call ∷ calls) [] event ran results l h = absurd (cc)
  check_pairs-parts index (call ∷ calls) (id ∷ ids) event [] results l h = absurd (cc)
  check_pairs-parts index (call ∷ calls) (id ∷ ids) event (e ∷ e' ∷ es) results l h = absurd (cc)
  check_pairs-parts index (call ∷ calls) (id ∷ ids) event (e ∷ []) [] l h = absurd (cc)
  check_pairs-parts index (call ∷ calls) (id ∷ ids) event (e ∷ []) (r ∷ r' ∷ rs) l h = absurd (cc)

  none_ran :
      (ran results : List AgentEvent) (v : Violation)
      → report_if (ltb 0 (length ran) || ltb 0 (length results)) v ≡ []
      → (ran ≡ []) × (results ≡ [])
  none_ran ran results v h =
      let q = report_if-nil (ltb 0 (length ran) || ltb 0 (length results)) v h in
      (nil_of_empty ran (ground arith), nil_of_empty results (ground arith))

  check_single_call-fits :
      (turn : AssistantTurn) (event : AgentEvent) (events : List AgentEvent)
      → ltb 1 (length turn.calls) ≡ false
      → check_single_call trace_uid parse turn event events ≡ []
      → IsRefused turn event events ⊎ IsExecuted turn event events
  unfolding check_single_call
  check_single_call-fits turn event events l h =
      elim (Bool-cases (is_type event.event_type error)) [
        | inl e ↦
            (let (c, r) =
                none_ran (events_at tool_call event.step_index events)
                  (events_at tool_result event.step_index events) _ (rw e at h) in
              inl (record { failed = e; no_call = c; no_result = r; reason = λ m. absurd (cc) }))
        | inr e ↦
            (let (call, calls, id, more, ids, executed, ran, result, results, agrees) =
                check_pairs-parts turn.index turn.calls turn.call_ids event
                  (events_at tool_call event.step_index events)
                  (events_at tool_result event.step_index events) l (rw e at h) in
              inr (record {
                call = call;
                calls = calls;
                call_id = id;
                more_ids = more;
                ids = ids;
                executed = executed;
                one_call = ran;
                result = result;
                one_result = results;
                agrees = agrees;
              }))
      ]

  rejected-error :
      (event : AgentEvent)
      → is_rejected_multi_call event ≡ true
      → is_type event.event_type error ≡ true
  unfolding is_rejected_multi_call
  rejected-error event h = and-left (is_type event.event_type error) _ h

  check_multi_call-fits :
      (turn : AssistantTurn) (event : AgentEvent) (events : List AgentEvent)
      → check_multi_call trace_uid parse turn event events ≡ []
      → IsRefused turn event events
  unfolding check_multi_call
  check_multi_call-fits turn event events h = elim (Bool-cases (is_rejected_multi_call event)) [
    | inl e ↦
        (let (c, r) =
            none_ran (events_at tool_call event.step_index events)
              (events_at tool_result event.step_index events) _ (rw e at h) in
          record { failed = rejected-error event e; no_call = c; no_result = r; reason = λ m. e })
    | inr e ↦ (let bad = rw e at h in absurd (cc))
  ]

  check_event-outcome :
      (turn : AssistantTurn) (pointing events : List AgentEvent)
      → check_event trace_uid parse turn pointing events ≡ []
      → (event : AgentEvent) × (pointing ≡ event ∷ [])
        × (IsRefused turn event events ⊎ IsExecuted turn event events)
  unfolding check_event
  check_event-outcome turn [] events h = absurd (cc)
  check_event-outcome turn (e ∷ e' ∷ es) events h = absurd (cc)
  check_event-outcome turn (event ∷ []) events h = elim (Bool-cases (ltb 1 (length turn.calls))) [
    | inl m ↦ (event, refl, inl (check_multi_call-fits turn event events (rw m at h)))
    | inr m ↦ (event, refl, check_single_call-fits turn event events m (rw m at h))
  ]

  if-nil :
      (test : Bool) (found : List Violation)
      → test ≡ true
      → (if test then found else []) ≡ []
      → found ≡ []
  if-nil true found k h = h
  if-nil false found k h = absurd (cc)

  pub check_turn-fits :
      (turn : AssistantTurn) (events : List AgentEvent)
      → check_turn trace_uid parse events turn ≡ []
      → (turn.violations ≡ []) × (turn.checkable ≡ true → TurnFits turn events)
  unfolding check_turn
  check_turn-fits turn events h =
      let (v, c) = append-eq-nil turn.violations _ h in
      (
        v,
        λ k.
            let (event, pointing, outcome) =
              check_event-outcome turn (turn_events turn.index events) events
                (if-nil turn.checkable _ k c) in
            record { event = event; pointing = pointing; outcome = outcome },
      )
