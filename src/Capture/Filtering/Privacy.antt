-- ===== src/Capture/Filtering/Privacy.antt =====
-- What capture/filtering.py lets through: no event that a rule excludes, each with its place in the
-- list as its step, and counters that account for the rest.
use agent_debug_x.Base.{
  ◌+◌, String, ◌≡◌, refl, ◌∙◌, inl, inr, false, ◌&&◌, none, some, List, [], ◌∷◌, contains,
  string_eq, Dict, lookup, insert, lookup-insert, length, All, All-imp, Bool-cases, Option-cases,
  arith,
}
use agent_debug_x.Schema.{AgentEvent, is_type, tool_result}
use agent_debug_x.Scrub.{sum_values}
use agent_debug_x.Scrub.Leaves.{sum_values-insert}
use agent_debug_x.Capture.Exclusion.{
  excluded_by, exclude_one, exclude_events, exclude_result, exclude_results, is_excluded,
  set_default, exclusions, instrumentation_ids, agentdebug_instrumentation, integration_owned,
}
use agent_debug_x.Capture.Bounding.{Counters, count_one}
use agent_debug_x.Capture.Filtering.{keep_events}

-- Neither a rule nor the instrumentation excludes the event.
abbrev pub IsPublic : List String → AgentEvent → Type 0
IsPublic instrumented event =
    (excluded_by event ≡ none) × (contains instrumented event.event_id ≡ false)

-- An id that is excluded stays so.
abbrev Extends : Dict String String → Dict String String → Type 0
Extends d e = (id : String) → lookup e id ≡ none → lookup d id ≡ none

insert-Extends : (d : Dict String String) (k v : String) → Extends d (insert d k v)
insert-Extends d k v id h = ground (arith, lookup-insert d k id v)

exclude_one-Extends :
    (instrumented : List String) (d : Dict String String) (event : AgentEvent)
    → Extends d (exclude_one instrumented d event)
unfolding exclude_one
exclude_one-Extends instrumented d event id =
    elim (Bool-cases (contains instrumented event.event_id)) [
      | inl e ↦ rw e (insert-Extends d event.event_id agentdebug_instrumentation id)
      | inr e ↦ elim (Option-cases (excluded_by event)) [
        | inl f ↦ rw (e, f) (λ h. h)
        | inr (rule, f) ↦ rw (e, f) (insert-Extends d event.event_id rule id)
      ]
    ]

exclude_events-Extends :
    (instrumented : List String) (d : Dict String String) (events : List AgentEvent)
    → Extends d (exclude_events instrumented d events)
unfolding exclude_events
exclude_events-Extends instrumented d [] id h = h
exclude_events-Extends instrumented d (event ∷ events) id h =
    exclude_one-Extends instrumented d event id
      (exclude_events-Extends instrumented (exclude_one instrumented d event) events id h)

set_default-Extends : (d : Dict String String) (k v : String) → Extends d (set_default d k v)
unfolding set_default
set_default-Extends d k v id = elim (Option-cases (lookup d k)) [
  | inl e ↦ rw (set_default, e) (insert-Extends d k v id)
  | inr (w, e) ↦ rw (set_default, e) (λ h. h)
]

exclude_result-Extends :
    (d : Dict String String) (event : AgentEvent) → Extends d (exclude_result d event)
unfolding exclude_result
exclude_result-Extends d event id =
    elim (Bool-cases
      (is_type event.event_type tool_result && is_excluded d event.parent_event_id)) [
        | inl e ↦ rw e (set_default-Extends d event.event_id integration_owned id)
        | inr e ↦ rw e (λ h. h)
      ]

exclude_results-Extends :
    (d : Dict String String) (events : List AgentEvent) → Extends d (exclude_results d events)
unfolding exclude_results
exclude_results-Extends d [] id h = h
exclude_results-Extends d (event ∷ events) id h =
    exclude_result-Extends d event id (exclude_results-Extends (exclude_result d event) events id h)

lookup-insert-same : (d : Dict String String) (k v : String) → lookup (insert d k v) k ≡ some v
lookup-insert-same d k v = lookup-insert d k k v ∙ rw ((string_eq.beq_iff k k).1 refl) refl

exclude_one-IsPublic :
    (instrumented : List String) (d : Dict String String) (event : AgentEvent)
    → lookup (exclude_one instrumented d event) event.event_id ≡ none
    → IsPublic instrumented event
unfolding exclude_one
exclude_one-IsPublic instrumented d event =
    elim (Bool-cases (contains instrumented event.event_id)) [
      | inl e ↦
          rw e
            (λ h. ground (arith, h, lookup-insert-same d event.event_id agentdebug_instrumentation))
      | inr e ↦ elim (Option-cases (excluded_by event)) [
        | inl f ↦ (λ h. (f, e))
        | inr (rule, f) ↦
            rw (e, f) (λ h. ground (arith, h, lookup-insert-same d event.event_id rule))
      ]
    ]

exclude_events-IsPublic :
    (instrumented : List String) (d : Dict String String) (events : List AgentEvent)
    → All
        (λ event.
          lookup (exclude_events instrumented d events) event.event_id ≡ none
          → IsPublic instrumented event)
        events
unfolding exclude_events
exclude_events-IsPublic instrumented d [] = tt
exclude_events-IsPublic instrumented d (event ∷ events) =
    let next = exclude_one instrumented d event in
    (
      λ h.
          exclude_one-IsPublic instrumented d event
            (exclude_events-Extends instrumented next events event.event_id h),
      exclude_events-IsPublic instrumented next events,
    )

-- An event of the list that the exclusions do not name is public.
pub exclusions-IsPublic :
    (events : List AgentEvent)
    → All
        (λ event.
          lookup (exclusions events) event.event_id ≡ none
          → IsPublic (instrumentation_ids events) event)
        events
unfolding exclusions
exclusions-IsPublic events =
    let first = exclude_events (instrumentation_ids events) [] events in
    All-imp (λ event f h. f (exclude_results-Extends first events event.event_id h)) events
      (exclude_events-IsPublic (instrumentation_ids events) [] events)

pub keep_events-All :
    (P : AgentEvent → Type 0) (excluded : Dict String String) (events : List AgentEvent)
    → (counters : Counters) → All (λ event. lookup excluded event.event_id ≡ none → P event) events
    → All P (keep_events excluded events counters).0
unfolding keep_events
keep_events-All P excluded [] counters h = tt
keep_events-All P excluded (event ∷ events) counters h =
    elim (Option-cases (lookup excluded event.event_id)) [
      | inl e ↦ rw (keep_events, e) ((h.0 e, keep_events-All P excluded events counters h.1))
      | inr (rule, e) ↦
          rw (keep_events, e) (keep_events-All P excluded events (count_one counters rule) h.1)
    ]

sum_values-count_one :
    (counters : Counters) (name : String)
    → sum_values (count_one counters name) ≡ sum_values counters + 1
unfolding count_one
sum_values-count_one counters name = sum_values-insert counters name 1

-- Every event that the filter sees is either kept or counted under the rule that excluded it.
keep_events-counts :
    (excluded : Dict String String) (events : List AgentEvent) (counters : Counters)
    → length (keep_events excluded events counters).0
        + sum_values (keep_events excluded events counters).1
      ≡ length events + sum_values counters
unfolding keep_events
keep_events-counts excluded [] counters = refl
keep_events-counts excluded (event ∷ events) counters =
    elim (Option-cases (lookup excluded event.event_id)) [
      | inl e ↦ rw (keep_events, e) (omega (arith, keep_events-counts excluded events counters))
      | inr (rule, e) ↦
          rw (keep_events, e)
            (omega (
              arith,
              keep_events-counts excluded events (count_one counters rule),
              sum_values-count_one counters rule,
            ))
    ]
