-- ===== src/Capture/Filtering/Drawn.antt =====
-- How the events that `prepare_for_capture` of capture/filtering.py selects come from those of the
-- trajectory.
use agent_debug_x.Base.{
  ℕ, ◌+◌, ◌<◌, String, ◌≡◌, inl, inr, none, some, List, [], ◌∷◌, map, ltb, Dict, lookup, All,
  string_eq, Bool-cases, Option-cases, arith,
}
use agent_debug_x.Schema.{AgentEvent}
use agent_debug_x.Capture.Exclusion.{excluded_by}
use agent_debug_x.Capture.Bounding.{
  Counters, count_one, bound_event, bound_events, max_trajectory_chars,
}
use agent_debug_x.Capture.Bounding.Limits.{IsBoundedEvent, bound_event-IsBoundedEvent}
use agent_debug_x.Capture.Filtering.Grounds.{HasGround}
use agent_debug_x.Capture.Filtering.{keep_events, relink, number_from}

-- The event with the parent and the step that the selection gave it, its payload bounded. No rule
-- for single events excludes it.
pub record IsCopy (event copy : AgentEvent) : Type 0 where
  pub allowed : excluded_by event ≡ none
  pub bounded :
      IsBoundedEvent
        (record event { parent_event_id = copy.parent_event_id; step_index = copy.step_index })
        copy

module _ (payload_size : AgentEvent → ℕ) (all : List AgentEvent) where
  -- The size that counts: before the steps are given out
  abbrev counted : AgentEvent → AgentEvent → ℕ
  counted event copy = payload_size (record copy { step_index = event.step_index })

  -- The second list has copies of events of the first one, in their order. What it leaves out
  -- has a ground to be, or follows where the payload, with the total so far, passes the limit.
  pub data IsDrawn : ℕ → List AgentEvent → List AgentEvent → Type 0 where
    drawn : (total : ℕ) → IsDrawn total [] []
    left_out :
        (total : ℕ) (event : AgentEvent) (events selected : List AgentEvent)
        → HasGround all event.event_id
        → IsDrawn total events selected
        → IsDrawn total (event ∷ events) selected
    taken :
        (total : ℕ) (event copy : AgentEvent) (events selected : List AgentEvent)
        → IsCopy event copy
        → IsDrawn (total + counted event copy) events selected
        → IsDrawn total (event ∷ events) (copy ∷ selected)
    over_limit :
        (total : ℕ) (event copy : AgentEvent) (events : List AgentEvent)
        → IsCopy event copy
        → max_trajectory_chars < total + counted event copy
        → IsDrawn total (event ∷ events) []

  module _ (excluded : Dict String String) (by_id : Dict String AgentEvent) (ids : List String)
      (grounds : (id rule : String) → lookup excluded id ≡ some rule → HasGround all id) where
    numbered_copy : AgentEvent → Counters → ℕ → AgentEvent
    numbered_copy event counters i = record (bound_event (relink by_id ids event) counters).0 {
      step_index = some i;
    }

    numbered_copy-IsCopy :
        (event : AgentEvent) (counters : Counters) (i : ℕ)
        → excluded_by event ≡ none
        → IsCopy event (numbered_copy event counters i)
    unfolding numbered_copy bound_event relink
    numbered_copy-IsCopy event counters i allowed = record {
      allowed = allowed;
      bounded =
          bound_event-IsBoundedEvent (record (relink by_id ids event) { step_index = some i })
            counters;
    }

    pub selection-IsDrawn :
        (i total : ℕ) (events : List AgentEvent) (kept_counters counters : Counters)
        → All (λ event. lookup excluded event.event_id ≡ none → excluded_by event ≡ none) events
        → IsDrawn total events (
            number_from i
              (bound_events payload_size total
                (map (relink by_id ids) (keep_events excluded events kept_counters).0)
                counters).0)
    unfolding keep_events number_from bound_events numbered_copy bound_event relink
    selection-IsDrawn i total [] kept_counters counters h = drawn total
    selection-IsDrawn i total (event ∷ events) kept_counters counters h =
        elim (Option-cases (lookup excluded event.event_id)) [
          | inr (rule, e) ↦
              rw (e, keep_events)
                (left_out total event events _ (grounds event.event_id rule e)
                  (selection-IsDrawn i total events (count_one kept_counters rule) counters h.1))
          | inl e ↦
              (let bounded = (bound_event (relink by_id ids event) counters).0 in
                let counters' = (bound_event (relink by_id ids event) counters).1 in
                let copy = numbered_copy event counters i in
                let is_copy = numbered_copy-IsCopy event counters i (h.0 e) in
                elim (Bool-cases (ltb max_trajectory_chars (total + payload_size bounded))) [
                  | inl over ↦
                      rw (e, keep_events, over)
                        (over_limit total event copy events is_copy (ground arith))
                  | inr fits ↦
                      rw (e, keep_events, fits)
                        (taken total event copy events _ is_copy (
                          selection-IsDrawn (i + 1) (total + payload_size bounded) events
                            kept_counters counters' h.1))
                ])
        ]
