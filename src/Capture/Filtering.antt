-- ===== src/Capture/Filtering.antt =====
-- capture/filtering.py: `prepare_for_capture`. The source copies the trajectory first, so that
-- values stand for the copies. The parents of kept events are assigned in place, and the climb reads
-- parents of excluded events only, so that the order of these assignments does not matter.
pub mod Parents
pub mod Privacy
pub mod Turns
pub mod Grounds
pub mod Drawn
pub mod Selected
pub mod Prepared
use agent_debug_x.Base.{
  ℕ, zero, suc, ◌+◌, String, ◌+++◌, Option, none, some, List, [], ◌∷◌, map, contains, if◌then◌else◌,
  or_else, string_eq, Dict, lookup, insert, length,
}
use agent_debug_x.Python.{Fields, dict, str, int, pos, end, field, put}
use agent_debug_x.Schema.{AgentEvent, AgentTrajectory}
use agent_debug_x.Scrub.{Redaction, scrub_trajectory}
use agent_debug_x.Capture.Exclusion.{exclusions, event_ids}
use agent_debug_x.Capture.Bounding.{Counters, count_one, bound_events}

-- The third loop: the kept events, and how many each rule took out
unfoldable pub keep_events :
    Dict String String → List AgentEvent → Counters → List AgentEvent × Counters
keep_events excluded [] counters = ([], counters)
keep_events excluded (event ∷ events) counters = elim (lookup excluded event.event_id) [
  | some rule ↦ keep_events excluded events (count_one counters rule)
  | none ↦
      (let (kept, counters') = keep_events excluded events counters in (event ∷ kept, counters'))
]

-- `{event.event_id: event for event in events}`
unfoldable pub events_by_id : Dict String AgentEvent → List AgentEvent → Dict String AgentEvent
events_by_id by_id [] = by_id
events_by_id by_id (event ∷ events) = events_by_id (insert by_id event.event_id event) events

unfoldable pub parent_of : Dict String AgentEvent → String → Option String
parent_of by_id id = elim (lookup by_id id) [ none ↦ none | some event ↦ event.parent_event_id ]

-- The loop of `_nearest_kept_parent`, on fuel: `none` outside means that the fuel ran out.
unfoldable pub climb :
    Dict String AgentEvent → List String → ℕ → List String → Option String → Option (Option String)
climb by_id kept fuel seen none = some none
climb by_id kept zero seen (some id) = none
climb by_id kept (suc fuel) seen (some id) =
    let rest = climb by_id kept fuel (id ∷ seen) (parent_of by_id id) in
    if contains kept id then some (some id) else if contains seen id then some none else rest

-- Each round sees a new key of the dictionary, so that this fuel is enough.
unfoldable pub nearest_kept_parent :
    Dict String AgentEvent → List String → Option String → Option String
nearest_kept_parent by_id kept parent =
    or_else (climb by_id kept (suc (suc (length by_id))) [] parent) none

unfoldable pub relink : Dict String AgentEvent → List String → AgentEvent → AgentEvent
unfolding nearest_kept_parent
relink by_id kept event = record event {
  parent_event_id = nearest_kept_parent by_id kept event.parent_event_id;
}

-- `for index, event in enumerate(events): event.step_index = index`
unfoldable pub number_from : ℕ → List AgentEvent → List AgentEvent
number_from i [] = []
number_from i (event ∷ events) = record event { step_index = some i } ∷ number_from (i + 1) events

-- `counters[f'redacted.{name}'] = count` for each replacement of the report
unfoldable pub add_redacted : Counters → Dict String ℕ → Counters
add_redacted counters [] = counters
add_redacted counters ((name, n) ∷ rest) =
    add_redacted (insert counters ("redacted." +++ name) n) rest

counter_fields : Counters → Fields
counter_fields [] = end
counter_fields ((name, n) ∷ rest) = field name (int (pos n)) (counter_fields rest)

abbrev pub scrubber_version : String
scrubber_version = "0.1.0"

pub record PreparedTrajectory : Type 0 where
  pub trajectory : AgentTrajectory
  pub counters : Counters

module _ (payload_size : AgentEvent → ℕ) where
  -- The events up to the scrubbing: filtered, relinked, bounded and numbered
  unfoldable pub select_events : List AgentEvent → List AgentEvent × Counters
  unfolding relink number_from
  select_events events =
      let (kept, counters) = keep_events (exclusions events) events [] in
      let linked = map (relink (events_by_id [] events) (event_ids kept)) kept in
      let (bounded, counters') = bound_events payload_size 0 linked counters in
      (number_from 0 bounded, counters')

module _ (payload_size : AgentEvent → ℕ) (redactions : List Redaction) where
  unfoldable pub prepare_for_capture : AgentTrajectory → PreparedTrajectory
  unfolding counter_fields add_redacted
  prepare_for_capture trajectory =
      let (events, counters) = select_events payload_size trajectory.events in
      let (scrubbed, report) =
        scrub_trajectory redactions (record trajectory { events = events }) in
      let counters' = add_redacted counters report.replacements in
      record {
        trajectory = record scrubbed {
          metadata =
              put (put scrubbed.metadata "capture_filter_counts" (dict (counter_fields counters')))
                "capture_scrubber_version" (str scrubber_version);
        };
        counters = counters';
      }
