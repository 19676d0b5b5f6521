-- ===== src/Capture/Filtering/Selected.antt =====
-- The events that `prepare_for_capture` of capture/filtering.py hands to the scrubber.
use agent_debug_x.Base.{
  ℕ, ◌+◌, String, ◌≡◌, refl, ◌⊎◌, inl, inr, true, false, none, some, List, [], ◌∷◌, map, contains,
  string_eq, Dict, ltb, All, All-imp, Bool-cases,
}
use agent_debug_x.Schema.{AgentEvent}
use agent_debug_x.Capture.Exclusion.{
  excluded_by, is_reasoning, exclusions, instrumentation_ids, event_ids, private_reasoning,
}
use agent_debug_x.Capture.Bounding.{Counters, bound_event, bound_events, max_trajectory_chars}
use agent_debug_x.Capture.Filtering.{keep_events, events_by_id, relink, number_from, select_events}
use agent_debug_x.Capture.Filtering.Parents.{nearest_kept_parent-Ascends, Ascends-kept}
use agent_debug_x.Capture.Filtering.Turns.{OfProgramTurn, OfProgramTurn-instrumentation_ids}
use agent_debug_x.Capture.Filtering.Grounds.{exclusions-HasGround}
use agent_debug_x.Capture.Filtering.Drawn.{IsDrawn, selection-IsDrawn}
use agent_debug_x.Capture.Filtering.Privacy.{IsPublic, exclusions-IsPublic, keep_events-All}

All-map :
    (P Q : AgentEvent → Type 0) (f : AgentEvent → AgentEvent)
    → ((event : AgentEvent) → P event → Q (f event))
    → (events : List AgentEvent) → All P events
    → All Q (map f events)
All-map P Q f h [] p = tt
All-map P Q f h (event ∷ events) p = (h event p.0, All-map P Q f h events p.1)

-- What does not depend on the payload of an event nor on its step
pub record IsStable (P : AgentEvent → Type 0) : Type 0 where
  pub bounding : (event : AgentEvent) (c : Counters) → P event → P (bound_event event c).0
  pub numbering : (event : AgentEvent) (i : ℕ) → P event → P (record event { step_index = some i })

All-number_from :
    (P : AgentEvent → Type 0)
    → IsStable P
    → (i : ℕ) (events : List AgentEvent) → All P events
    → All P (number_from i events)
unfolding number_from
All-number_from P stable i [] h = tt
All-number_from P stable i (event ∷ events) h =
    (stable.numbering event i h.0, All-number_from P stable (i + 1) events h.1)

module _ (payload_size : AgentEvent → ℕ) where
  All-bound_events :
      (P : AgentEvent → Type 0)
      → IsStable P
      → (total : ℕ) (events : List AgentEvent) → (counters : Counters) → All P events
      → All P (bound_events payload_size total events counters).0
  unfolding bound_events
  All-bound_events P stable total [] counters h = tt
  All-bound_events P stable total (event ∷ events) counters h =
      let event' = (bound_event event counters).0 in
      let counters' = (bound_event event counters).1 in
      let size = payload_size event' in
      elim (Bool-cases (ltb max_trajectory_chars (total + size))) [
        | inl e ↦ rw e tt
        | inr e ↦ rw e (
          stable.bounding event counters h.0,
          All-bound_events P stable (total + size) events counters' h.1,
        )
      ]

-- What the filter asks of an event, in terms that truncation does not touch
abbrev IsUntouched : List String → AgentEvent → Type 0
IsUntouched instrumented event =
    (is_reasoning event ≡ false) × (contains instrumented event.event_id ≡ false)

IsPublic→IsUntouched :
    (instrumented : List String) (event : AgentEvent)
    → IsPublic instrumented event
    → IsUntouched instrumented event
unfolding excluded_by
IsPublic→IsUntouched instrumented event h = elim (Bool-cases (is_reasoning event)) [
  | inl e ↦ (let bad : some private_reasoning ≡ none = rw e at h.0 in cc)
  | inr e ↦ (e, h.1)
]

IsUntouched-IsStable : (instrumented : List String) → IsStable (IsUntouched instrumented)
unfolding bound_event is_reasoning
IsUntouched-IsStable instrumented = record { bounding = λ event c h. h; numbering = λ event i h. h }

-- The parent of an event, if it has one, is among the ids.
abbrev pub HasParentIn : List String → AgentEvent → Type 0
HasParentIn ids event =
    (event.parent_event_id ≡ none)
    ⊎ ((parent : String) × (event.parent_event_id ≡ some parent) × (contains ids parent ≡ true))

HasParentIn-IsStable : (ids : List String) → IsStable (HasParentIn ids)
unfolding bound_event
HasParentIn-IsStable ids = record { bounding = λ event c h. h; numbering = λ event i h. h }

-- The steps of the events count up from the number.
abbrev pub IsNumbered : ℕ → List AgentEvent → Type 0
IsNumbered i [] = Unit
IsNumbered i (event ∷ events) = (event.step_index ≡ some i) × IsNumbered (i + 1) events

number_from-IsNumbered : (i : ℕ) (events : List AgentEvent) → IsNumbered i (number_from i events)
unfolding number_from
number_from-IsNumbered i [] = tt
number_from-IsNumbered i (event ∷ events) = (refl, number_from-IsNumbered (i + 1) events)

relink-HasParentIn :
    (by_id : Dict String AgentEvent) (ids : List String) (event : AgentEvent)
    → HasParentIn ids (relink by_id ids event)
unfolding relink
relink-HasParentIn by_id ids event =
    elim (nearest_kept_parent-Ascends by_id ids event.parent_event_id).1 [
      | inl e ↦ inl e
      | inr (id, e, path) ↦ inr (id, e, Ascends-kept by_id ids event.parent_event_id id path)
    ]

relink-IsUntouched :
    (instrumented : List String) (by_id : Dict String AgentEvent) (ids : List String)
    → (event : AgentEvent) → IsUntouched instrumented event
    → IsUntouched instrumented (relink by_id ids event)
unfolding relink is_reasoning
relink-IsUntouched instrumented by_id ids event h = h

-- An event that may be shown is no private reasoning and of no turn that ran this program.
abbrev pub IsShown : List AgentEvent → AgentEvent → Type 0
IsShown events event = (is_reasoning event ≡ false) × (¬ OfProgramTurn events event.event_id)

IsUntouched→IsShown :
    (events : List AgentEvent) (event : AgentEvent)
    → IsUntouched (instrumentation_ids events) event
    → IsShown events event
IsUntouched→IsShown events event h = (
  h.0,
  λ turn.
      let found = OfProgramTurn-instrumentation_ids events event.event_id turn in
      let absent = h.1 in cc,
)

-- What holds of the selected events, together.
pub record IsSelection (payload_size : AgentEvent → ℕ) (events selected : List AgentEvent)
    : Type 0 where
  pub drawn : IsDrawn payload_size events 0 events selected
  pub shown : All (IsShown events) selected
  pub linked : All (HasParentIn (event_ids (keep_events (exclusions events) events []).0)) selected
  pub numbered : IsNumbered 0 selected

module _ (payload_size : AgentEvent → ℕ) where
  selected-All :
      (P : AgentEvent → Type 0)
      → IsStable P
      → (events : List AgentEvent) (counters : Counters) → All P events
      → All P (number_from 0 (bound_events payload_size 0 events counters).0)
  selected-All P stable events counters h =
      All-number_from P stable 0 _ (All-bound_events payload_size P stable 0 events counters h)

  -- The selected events are copies of events of the list, in its order, with a bounded payload
  -- and changed in nothing else but their parents and steps; no rule for single events excludes
  -- the original. An event is left out only where the payload passes the limit, or if its id is
  -- that of an event which a rule excludes, of a turn that ran this program, or of a result whose
  -- parent is left out so. No selected event is private reasoning, nor has an id of a stretch of
  -- events that no new turn cuts and in which a call runs this program. Its parent, if it has
  -- one, is an event that the filter kept, and its step is its place.
  pub select_events-IsSelection :
      (events : List AgentEvent)
      → IsSelection payload_size events (select_events payload_size events).0
  unfolding select_events
  select_events-IsSelection events =
      let excluded = exclusions events in
      let kept = (keep_events excluded events []).0 in
      let by_id = events_by_id [] events in
      let ids = event_ids kept in
      let linked = map (relink by_id ids) kept in
      let counters = (keep_events excluded events []).1 in
      let bounded = (bound_events payload_size 0 linked counters).0 in
      let instrumented = instrumentation_ids events in
      let untouched : All (IsUntouched instrumented) kept =
        All-imp (IsPublic→IsUntouched instrumented) kept (
          keep_events-All (IsPublic instrumented) excluded events []
            (exclusions-IsPublic events)) in
      record {
        drawn =
            selection-IsDrawn payload_size events excluded by_id ids (exclusions-HasGround events) 0
              0 events [] counters
              (All-imp (λ event f h. (f h).0) events (exclusions-IsPublic events));
        shown = All-imp (IsUntouched→IsShown events) _ (
            selected-All (IsUntouched instrumented) (IsUntouched-IsStable instrumented) linked
              counters
              (All-map (IsUntouched instrumented) (IsUntouched instrumented) (relink by_id ids)
                (relink-IsUntouched instrumented by_id ids) kept untouched));
        linked = selected-All (HasParentIn ids) (HasParentIn-IsStable ids) linked counters (
            All-map (IsUntouched instrumented) (HasParentIn ids) (relink by_id ids)
              (λ event _. relink-HasParentIn by_id ids event) kept untouched);
        numbered = number_from-IsNumbered 0 bounded;
      }
