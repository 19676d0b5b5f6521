-- ===== src/Capture/Filtering/Grounds.antt =====
-- Why capture/filtering.py leaves an event out.
use mathlib.Core.Path.{subst, ap}
use mathlib.Core.List.{append_assoc}
use agent_debug_x.Base.{
  ℕ, suc, String, ◌≡◌, refl, sym, true, false, not, ◌&&◌, inl, inr, Option, none, some, is_some,
  List, [], ◌∷◌, ◌++◌, any, any-append, contains, contains-append, nat_beq, length, string_eq, Dict,
  lookup, insert, lookup-insert, get_elem?, All, All-imp, arith, Bool-cases, ◌∙◌, Option-cases,
}
use agent_debug_x.Schema.{AgentEvent, is_type, tool_result}
use agent_debug_x.Capture.Exclusion.{
  excluded_by, exclude_one, exclude_events, exclude_result, exclude_results, is_excluded,
  set_default, exclusions, instrumentation_ids, instrumentation_from, segment_ids, event_ids,
  starts_turn, is_agentdebug_call, agentdebug_instrumentation, integration_owned,
}
use agent_debug_x.Capture.Filtering.Turns.{OfProgramTurn}

-- The event stands in the list.
abbrev pub Stands : List AgentEvent → AgentEvent → Type 0
Stands events event = (i : ℕ) × (get_elem? events i ≡ some event)

All-Stands : (events : List AgentEvent) → All (Stands events) events
All-Stands [] = tt
All-Stands (event ∷ events) =
    ((0, refl), All-imp (λ e s. (suc s.0, s.1)) events (All-Stands events))

-- The id is that of an event that a rule excludes, of an event of a turn that ran this program, or
-- of the result of a call whose id is excluded.
pub data HasGround (events : List AgentEvent) : String → Type 0 where
  by_rule :
      (event : AgentEvent)
      → Stands events event
      → is_some (excluded_by event) ≡ true
      → HasGround events event.event_id
  by_turn : (id : String) → OfProgramTurn events id → HasGround events id
  by_call :
      (event : AgentEvent) (parent : String)
      → Stands events event
      → is_type event.event_type tool_result ≡ true
      → event.parent_event_id ≡ some parent
      → HasGround events parent
      → HasGround events event.event_id

module _ (all : List AgentEvent) where
  -- The segment at hand: it is empty, or no turn begins in it behind its first event.
  abbrev IsUncut : List AgentEvent → Type 0
  IsUncut [] = Unit
  IsUncut (first ∷ others) = any starts_turn others ≡ false

  abbrev AreOfTurns : List String → Type 0
  AreOfTurns ids = (id : String) → contains ids id ≡ true → OfProgramTurn all id

  segment_ids-AreOfTurns :
      (before segment after : List AgentEvent)
      → all ≡ before ++ (segment ++ after)
      → IsUncut segment
      → AreOfTurns (segment_ids segment)
  unfolding segment_ids event_ids any contains
  segment_ids-AreOfTurns before [] after parts uncut id h = cc
  segment_ids-AreOfTurns before (first ∷ others) after parts uncut id h =
      elim (Bool-cases (any is_agentdebug_call (first ∷ others))) [
        | inl runs ↦ record {
          before = before;
          first = first;
          others = others;
          after = after;
          parts = parts;
          uncut = uncut;
          runs = runs;
          has = rw (runs) at h;
        }
        | inr quiet ↦ (let none_found : false ≡ true = rw quiet at h in cc)
      ]

  append-AreOfTurns :
      (ids more : List String) → AreOfTurns ids → AreOfTurns more → AreOfTurns (ids ++ more)
  append-AreOfTurns ids more h k id c = elim (Bool-cases (contains ids id)) [
    | inl e ↦ h id e
    | inr e ↦ k id (ground (arith, contains-append ids more id))
  ]

  grow-IsUncut :
      (segment : List AgentEvent) (event : AgentEvent)
      → IsUncut segment
      → (starts_turn event && not (nat_beq (length segment) 0)) ≡ false
      → IsUncut (segment ++ event ∷ [])
  unfolding any
  grow-IsUncut [] event uncut h = refl
  grow-IsUncut (first ∷ others) event uncut h =
      ground (arith, any-append starts_turn others (event ∷ []))

  instrumentation_from-AreOfTurns :
      (before segment : List AgentEvent) (excluded : List String) (events : List AgentEvent)
      → all ≡ before ++ (segment ++ events)
      → IsUncut segment
      → AreOfTurns excluded
      → AreOfTurns (instrumentation_from segment excluded events)
  unfolding instrumentation_from any
  instrumentation_from-AreOfTurns before segment excluded [] parts uncut h =
      append-AreOfTurns excluded (segment_ids segment) h
        (segment_ids-AreOfTurns before segment [] parts uncut)
  instrumentation_from-AreOfTurns before segment excluded (event ∷ events) parts uncut h =
      elim (Bool-cases (starts_turn event && not (nat_beq (length segment) 0))) [
        | inl e ↦
            rw (e, instrumentation_from)
              (instrumentation_from-AreOfTurns (before ++ segment) (event ∷ [])
                (excluded ++ segment_ids segment) events
                (parts ∙ sym (append_assoc before segment (event ∷ events))) refl
                (append-AreOfTurns excluded (segment_ids segment) h
                  (segment_ids-AreOfTurns before segment (event ∷ events) parts uncut)))
        | inr e ↦
            rw (e, instrumentation_from)
              (instrumentation_from-AreOfTurns before (segment ++ event ∷ []) excluded events
                (parts ∙ ap (λ l. before ++ l) (sym (append_assoc segment (event ∷ []) events)))
                (grow-IsUncut segment event uncut e) h)
      ]

  instrumentation_ids-AreOfTurns : AreOfTurns (instrumentation_ids all)
  unfolding instrumentation_ids contains
  instrumentation_ids-AreOfTurns = instrumentation_from-AreOfTurns [] [] [] all refl tt (λ id h. cc)

  -- Every id that the dictionary has is there on some ground.
  abbrev Grounded : Dict String String → Type 0
  Grounded d = (id rule : String) → lookup d id ≡ some rule → HasGround all id

  insert-Grounded :
      (d : Dict String String) (k v : String)
      → HasGround all k
      → Grounded d
      → Grounded (insert d k v)
  insert-Grounded d k v ground_of h id rule found = elim (Bool-cases (string_eq.beq k id)) [
    | inl e ↦ subst (HasGround all) ((string_eq.beq_iff k id).0 e) ground_of
    | inr e ↦ h id rule (sym (lookup-insert d k id v ∙ rw e refl) ∙ found)
  ]

  exclude_one-Grounded :
      (d : Dict String String) (event : AgentEvent)
      → Stands all event
      → Grounded d
      → Grounded (exclude_one (instrumentation_ids all) d event)
  unfolding exclude_one
  exclude_one-Grounded d event stands h =
      let id = event.event_id in
      elim (Bool-cases (contains (instrumentation_ids all) id)) [
        | inl e ↦ rw e (
            insert-Grounded d id agentdebug_instrumentation
              (by_turn id (instrumentation_ids-AreOfTurns id e)) h)
        | inr e ↦ elim (Option-cases (excluded_by event)) [
          | inl f ↦ rw (e, f) h
          | inr (rule, f) ↦
              rw (e, f) (insert-Grounded d id rule (by_rule event stands (rw f refl)) h)
        ]
      ]

  exclude_events-Grounded :
      (d : Dict String String) (events : List AgentEvent)
      → All (Stands all) events
      → Grounded d
      → Grounded (exclude_events (instrumentation_ids all) d events)
  unfolding exclude_events
  exclude_events-Grounded d [] stand h = h
  exclude_events-Grounded d (event ∷ events) stand h =
      exclude_events-Grounded (exclude_one (instrumentation_ids all) d event) events stand.1
        (exclude_one-Grounded d event stand.0 h)

  set_default-Grounded :
      (d : Dict String String) (k v : String)
      → HasGround all k
      → Grounded d
      → Grounded (set_default d k v)
  unfolding set_default
  set_default-Grounded d k v has h = elim (Option-cases (lookup d k)) [
    | inl e ↦ rw (set_default, e) (insert-Grounded d k v has h)
    | inr (w, e) ↦ rw (set_default, e) h
  ]

  is_excluded-ground :
      (d : Dict String String) (parent : Option String)
      → Grounded d
      → is_excluded d parent ≡ true
      → (id : String) × (parent ≡ some id) × HasGround all id
  unfolding is_excluded
  is_excluded-ground d none h e = cc
  is_excluded-ground d (some id) h e = elim (Option-cases (lookup d id)) [
    | inl f ↦ (let absent : false ≡ true = rw f at e in cc)
    | inr (rule, f) ↦ (id, refl, h id rule f)
  ]

  exclude_result-Grounded :
      (d : Dict String String) (event : AgentEvent)
      → Stands all event
      → Grounded d
      → Grounded (exclude_result d event)
  unfolding exclude_result
  exclude_result-Grounded d event stands h =
      elim (Bool-cases
        (is_type event.event_type tool_result && is_excluded d event.parent_event_id)) [
          | inl e ↦
              (let result : is_type event.event_type tool_result ≡ true = ground arith in
                let (parent, named, has) =
                  is_excluded-ground d event.parent_event_id h (ground arith) in
                rw e (
                  set_default-Grounded d event.event_id integration_owned
                    (by_call event parent stands result named has) h))
          | inr e ↦ rw e h
        ]

  exclude_results-Grounded :
      (d : Dict String String) (events : List AgentEvent)
      → All (Stands all) events
      → Grounded d
      → Grounded (exclude_results d events)
  unfolding exclude_results
  exclude_results-Grounded d [] stand h = h
  exclude_results-Grounded d (event ∷ events) stand h =
      exclude_results-Grounded (exclude_result d event) events stand.1
        (exclude_result-Grounded d event stand.0 h)

  -- No id is excluded without a ground.
  pub exclusions-HasGround :
      (id rule : String) → lookup (exclusions all) id ≡ some rule → HasGround all id
  unfolding exclusions lookup
  exclusions-HasGround =
      let stand = All-Stands all in
      exclude_results-Grounded (exclude_events (instrumentation_ids all) [] all) all stand
        (exclude_events-Grounded [] all stand (λ id rule h. cc))
