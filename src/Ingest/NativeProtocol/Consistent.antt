-- ===== src/Ingest/NativeProtocol/Consistent.antt =====
-- Trajectories that ingest/native_protocol.py finds nothing wrong with.
use agent_debug_x.Base.{
  ℕ, ◌+◌, String, ◌≡◌, refl, ap, ◌⊎◌, inl, inr, Bool, true, false, not, none, some, List, [], ◌∷◌,
  ◌++◌, map, all, All, All-append, All-imp, contains, flat_map, Bool-cases, Option-cases, string_eq,
}
use mathlib.Core.Path.{subst}
use agent_debug_x.Python.{
  Value, Items, null, str, list, item_list, get_value, is_hashable, ok, >>=-eq-ok, require->>-eq-ok,
  ok-injective,
}
use agent_debug_x.Schema.{AgentEvent, AgentTrajectory, is_type, tool_call}
use agent_debug_x.Ingest.NativeProtocol.{
  AssistantTurn, Scanned, WireScan, id_text, has_role, message_value, tool_batch, call_ids_of,
  scan_calls, scan_value, scan_message, scan_from, scan_wire, native_tool_message_violations,
}
use agent_debug_x.Ingest.NativeProtocol.Executed.{
  check_turn, declares_fallback, check_call_event, check_tool_call_events,
  native_tool_protocol_violations,
}
use agent_debug_x.Ingest.NativeProtocol.Transcripts.{IsClean, append-eq-nil}
use agent_debug_x.Ingest.NativeProtocol.Indexes.{scan_from-cons}
use agent_debug_x.Ingest.NativeProtocol.Clean.{native_tool_message_violations-nil_iff}
use agent_debug_x.Ingest.NativeProtocol.Calls.{TurnFits, check_turn-fits, report_if-nil}

-- A turn without violations is checked against the events.
abbrev IsMarked : AssistantTurn → Type 0
IsMarked turn = turn.violations ≡ [] → turn.checkable ≡ true

module _ (trace_uid : String) (index : ℕ) where
  scan_calls-IsMarked :
      (calls : List Value) (batch : List (ℕ × Value)) (scanned : Scanned)
      → scan_calls trace_uid index calls batch ≡ ok scanned
      → All IsMarked scanned.turns
  unfolding scan_calls
  scan_calls-IsMarked calls batch scanned h = elim (Option-cases (call_ids_of calls)) [
    | inl e ↦
        subst (λ (s : Scanned). All IsMarked s.turns) (ok-injective (rw (scan_calls, e) at h))
          ((λ v. absurd (cc)), tt)
    | inr (ids, e) ↦
        (let (_, h') =
            require->>-eq-ok (all is_hashable (map (λ entry. entry.1) batch)) _ _
              (rw (scan_calls, e) at h) in
          subst (λ (s : Scanned). All IsMarked s.turns) (ok-injective h') ((λ v. refl), tt))
  ]

  scan_value-IsMarked :
      (value : Value) (following : List Value) (scanned : Scanned)
      → scan_value trace_uid index value following ≡ ok scanned
      → All IsMarked scanned.turns
  unfolding scan_value
  scan_value-IsMarked null following scanned h =
      subst (λ (s : Scanned). All IsMarked s.turns) (ok-injective h) tt
  scan_value-IsMarked (list (Items.cons call calls)) following scanned h =
      scan_calls-IsMarked (call ∷ item_list calls) (tool_batch (index + 1) following) scanned h
  scan_value-IsMarked (Value.bool b) following scanned h =
      subst (λ (s : Scanned). All IsMarked s.turns) (ok-injective h) ((λ v. absurd (cc)), tt)
  scan_value-IsMarked (Value.int n) following scanned h =
      subst (λ (s : Scanned). All IsMarked s.turns) (ok-injective h) ((λ v. absurd (cc)), tt)
  scan_value-IsMarked (Value.float t) following scanned h =
      subst (λ (s : Scanned). All IsMarked s.turns) (ok-injective h) ((λ v. absurd (cc)), tt)
  scan_value-IsMarked (str s) following scanned h =
      subst (λ (s : Scanned). All IsMarked s.turns) (ok-injective h) ((λ v. absurd (cc)), tt)
  scan_value-IsMarked (list Items.nil) following scanned h =
      subst (λ (s : Scanned). All IsMarked s.turns) (ok-injective h) ((λ v. absurd (cc)), tt)
  scan_value-IsMarked (Value.tuple xs) following scanned h =
      subst (λ (s : Scanned). All IsMarked s.turns) (ok-injective h) ((λ v. absurd (cc)), tt)
  scan_value-IsMarked (Value.dict d) following scanned h =
      subst (λ (s : Scanned). All IsMarked s.turns) (ok-injective h) ((λ v. absurd (cc)), tt)

  scan_message-IsMarked :
      (message : Value) (following : List Value) (scanned : Scanned)
      → scan_message trace_uid index message following ≡ ok scanned
      → All IsMarked scanned.turns
  unfolding scan_message
  scan_message-IsMarked message following scanned h =
      elim (Bool-cases (has_role "assistant" message)) [
        | inl a ↦
            scan_value-IsMarked (message_value "tool_calls" message) following scanned (rw a at h)
        | inr a ↦ subst (λ (s : Scanned). All IsMarked s.turns) (ok-injective (rw a at h)) tt
      ]

scan_from-IsMarked :
    (trace_uid : String) (index : ℕ) (messages : List Value) (scanned : Scanned)
    → scan_from trace_uid index messages ≡ ok scanned
    → All IsMarked scanned.turns
unfolding scan_from
scan_from-IsMarked trace_uid index [] scanned h =
    subst (λ (s : Scanned). All IsMarked s.turns) (ok-injective h) tt
scan_from-IsMarked trace_uid index (message ∷ messages) scanned h =
    let (first, rest, f, r, turns, _) = scan_from-cons trace_uid index message messages scanned h in
    rw turns (
      All-append IsMarked first.turns rest.turns
        (scan_message-IsMarked trace_uid index message messages first f)
        (scan_from-IsMarked trace_uid (index + 1) messages rest r))

-- A `tool.call` event has an id that some assistant message issued, or has none and belongs to a step
-- that declares the text fallback.
abbrev pub IsDeclared : List String → List AgentEvent → AgentEvent → Type 0
IsDeclared envelope events event =
    is_type event.event_type tool_call ≡ true
    → ((id : String) × (id_text (get_value event.metadata "tool_call_id") ≡ some id)
        × (contains envelope id ≡ true))
      ⊎ ((id_text (get_value event.metadata "tool_call_id") ≡ none)
          × (declares_fallback events event.step_index ≡ true))

flat_map-nil {ℓ κ} :
    {A : Type ℓ} {B : Type κ} (f : A → List B) (xs : List A)
    → flat_map f xs ≡ []
    → All (λ x. f x ≡ []) xs
unfolding flat_map
flat_map-nil f [] h = tt
flat_map-nil f (x ∷ xs) h =
    let (a, b) = append-eq-nil (f x) (flat_map f xs) h in (a, flat_map-nil f xs b)

not-false : (test : Bool) → not test ≡ false → test ≡ true
not-false true h = refl
not-false false h = cc

check_call_event-IsDeclared :
    (trace_uid : String) (envelope : List String) (events : List AgentEvent) (event : AgentEvent)
    → check_call_event trace_uid envelope events event ≡ []
    → IsDeclared envelope events event
unfolding check_call_event declares_fallback
check_call_event-IsDeclared trace_uid envelope events event h t =
    elim (Option-cases (id_text (get_value event.metadata "tool_call_id"))) [
      | inl e ↦ inr (e, not-false _ (report_if-nil _ _ (rw (t, e) at h)))
      | inr (id, e) ↦ inl (id, e, not-false _ (report_if-nil _ _ (rw (t, e) at h)))
    ]

-- What the stored messages and the executed events of a trajectory agree on: the messages are clean by
-- themselves, one event points to each turn of the scan, where it was refused or executed as it was
-- asked for, and every call is declared.
pub record IsConsistent (parse : String → Value) (trace_uid : String) (trajectory : AgentTrajectory)
    : Type 0 where
  pub messages : Items
  pub stored : get_value trajectory.metadata "messages" ≡ list messages
  pub clean : IsClean false (item_list messages)
  pub scan : WireScan
  pub scanned : scan_wire (item_list messages) trace_uid ≡ ok scan
  pub turns : All (λ turn. TurnFits trace_uid parse turn trajectory.events) scan.turns
  pub calls : All (IsDeclared scan.envelope_call_ids trajectory.events) trajectory.events

module _ (parse : String → Value) (trace_uid : String) (trajectory : AgentTrajectory) where
  turns_fit :
      (turns : List AssistantTurn)
      → All IsMarked turns
      → flat_map (check_turn trace_uid parse trajectory.events) turns ≡ []
      → (flat_map (λ (turn : AssistantTurn). turn.violations) turns ≡ [])
        × All (λ turn. TurnFits trace_uid parse turn trajectory.events) turns
  unfolding flat_map
  turns_fit [] marks h = (refl, tt)
  turns_fit (turn ∷ turns) marks h =
      let (a, b) = append-eq-nil (check_turn trace_uid parse trajectory.events turn) _ h in
      let (v, fits) = check_turn-fits trace_uid parse turn trajectory.events a in
      let (vs, rest) = turns_fit turns marks.1 b in (rw (v, vs) refl, (fits (marks.0 v), rest))

  messages-IsConsistent :
      (messages : Items) (scan : WireScan)
      → get_value trajectory.metadata "messages" ≡ list messages
      → scan_wire (item_list messages) trace_uid ≡ ok scan
      → All IsMarked scan.turns
      → flat_map (check_turn trace_uid parse trajectory.events) scan.turns
          ++ (scan.orphans ++ check_tool_call_events trace_uid trajectory scan.envelope_call_ids)
        ≡ []
      → IsConsistent parse trace_uid trajectory
  unfolding native_tool_message_violations check_tool_call_events
  messages-IsConsistent messages scan m e marks h =
      let (t, h') =
        append-eq-nil (flat_map (check_turn trace_uid parse trajectory.events) scan.turns) _ h in
      let (o, c) = append-eq-nil scan.orphans _ h' in
      let (v, fits) = turns_fit scan.turns marks t in
      record {
        messages = messages;
        stored = m;
        clean =
            (native_tool_message_violations-nil_iff trace_uid (item_list messages)).0
              (rw e (ap ok (rw (v, o) refl)));
        scan = scan;
        scanned = e;
        turns = fits;
        calls =
            All-imp
              (λ event n.
                check_call_event-IsDeclared trace_uid scan.envelope_call_ids trajectory.events event
                  n)
              trajectory.events
              (flat_map-nil (check_call_event trace_uid scan.envelope_call_ids trajectory.events)
                trajectory.events c);
      }

  scan_wire-IsMarked :
      (messages : List Value) (scan : WireScan)
      → scan_wire messages trace_uid ≡ ok scan
      → All IsMarked scan.turns
  unfolding scan_wire
  scan_wire-IsMarked messages scan h =
      let (scanned, e, h') = >>=-eq-ok (scan_from trace_uid 0 messages) _ h in
      subst (λ (w : WireScan). All IsMarked w.turns) (ok-injective h')
        (scan_from-IsMarked trace_uid 0 messages scanned e)

  -- If the checks of a trajectory return no violation, its metadata has a list of messages; these are
  -- clean by themselves; for each assistant message with calls one event points to it, and either it
  -- failed and nothing ran at its step (several calls only if they were rejected as such), or it had
  -- one call, which ran once and gave one result: the executed call has its id and its arguments, and
  -- its name or else the step declares that name as leaked, and the result has the name of the
  -- executed call; and each `tool.call` event has an id that a message issued or belongs to a declared fallback.
  pub native_tool_protocol_violations-IsConsistent :
      native_tool_protocol_violations parse trace_uid trajectory ≡ ok []
      → IsConsistent parse trace_uid trajectory
  unfolding native_tool_protocol_violations
  native_tool_protocol_violations-IsConsistent h =
      go (get_value trajectory.metadata "messages") refl
    where
      found :
          (messages : Items)
          → get_value trajectory.metadata "messages" ≡ list messages
          → IsConsistent parse trace_uid trajectory
      found messages m =
          let h' = rw (native_tool_protocol_violations, m) at h in
          let (scan, e, h'') = >>=-eq-ok (scan_wire (item_list messages) trace_uid) _ h' in
          messages-IsConsistent messages scan m e (scan_wire-IsMarked (item_list messages) scan e)
            (ok-injective h'')

      go :
          (value : Value)
          → get_value trajectory.metadata "messages" ≡ value
          → IsConsistent parse trace_uid trajectory
      go (list messages) m = found messages m
      go null m = (let bad = rw (native_tool_protocol_violations, m) at h in absurd (cc))
      go (Value.bool b) m = (let bad = rw (native_tool_protocol_violations, m) at h in absurd (cc))
      go (Value.int n) m = (let bad = rw (native_tool_protocol_violations, m) at h in absurd (cc))
      go (Value.float t) m = (let bad = rw (native_tool_protocol_violations, m) at h in absurd (cc))
      go (str s) m = (let bad = rw (native_tool_protocol_violations, m) at h in absurd (cc))
      go (Value.tuple xs) m =
          (let bad = rw (native_tool_protocol_violations, m) at h in absurd (cc))
      go (Value.dict d) m = (let bad = rw (native_tool_protocol_violations, m) at h in absurd (cc))
