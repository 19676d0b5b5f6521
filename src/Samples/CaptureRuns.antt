-- ===== src/Samples/CaptureRuns.antt =====
-- The theorems on capture and on the scrubber, applied to the sample run.
use agent_debug_x.Base.{
  ℕ, suc, ◌+◌, ◌≤◌, String, ◌≡◌, refl, ◌⊎◌, none, some, [], ◌∷◌, length, string_eq, arith, Dict,
}
use agent_debug_x.Schema.{AgentEvent}
use agent_debug_x.Scrub.{Redaction, apply_redaction, scrub_trajectory}
use agent_debug_x.Scrub.Leaves.{Secures, here}
use agent_debug_x.Scrub.Trajectories.{IsScrubbed, scrub_trajectory-IsScrubbed}
use agent_debug_x.Capture.Bounding.{max_trajectory_chars, bound_event, bound_events}
use agent_debug_x.Capture.Bounding.Limits.{
  IsBoundedEvent, sum_sizes, bound_event-IsBoundedEvent, bound_events-le,
}
use agent_debug_x.Capture.Filtering.{
  events_by_id, climb, nearest_kept_parent, select_events, prepare_for_capture,
}
use agent_debug_x.Capture.Filtering.Parents.{Ascends, nearest_kept_parent-Ascends}
use agent_debug_x.Capture.Filtering.Selected.{IsSelection, select_events-IsSelection}
use agent_debug_x.Capture.Filtering.Prepared.{IsPrepared, prepare_for_capture-IsPrepared}
use agent_debug_x.Samples.Traces.{run, failed}

abbrev ten : AgentEvent → ℕ
ten event = 10

abbrev by_id : Dict String AgentEvent
by_id = events_by_id [] run.events

select_events-IsSelection_example : IsSelection ten run.events (select_events ten run.events).0
select_events-IsSelection_example = select_events-IsSelection ten run.events

nearest_kept_parent-Ascends_example :
    (climb by_id ("e1" ∷ "e4" ∷ []) (suc (suc (length by_id))) [] (some "e3")
      ≡ some (nearest_kept_parent by_id ("e1" ∷ "e4" ∷ []) (some "e3")))
    × ((nearest_kept_parent by_id ("e1" ∷ "e4" ∷ []) (some "e3") ≡ none)
        ⊎ ((id : String) × (nearest_kept_parent by_id ("e1" ∷ "e4" ∷ []) (some "e3") ≡ some id)
            × Ascends by_id ("e1" ∷ "e4" ∷ []) (some "e3") id))
nearest_kept_parent-Ascends_example =
    nearest_kept_parent-Ascends by_id ("e1" ∷ "e4" ∷ []) (some "e3")

bound_event-IsBoundedEvent_example : IsBoundedEvent failed (bound_event failed []).0
bound_event-IsBoundedEvent_example = bound_event-IsBoundedEvent failed []

bound_events-le_example :
    (0 + sum_sizes ten (bound_events ten 0 run.events []).0 ≤ max_trajectory_chars)
    × (length (bound_events ten 0 run.events []).0 ≤ length run.events)
unfolding max_trajectory_chars
bound_events-le_example = bound_events-le ten 0 run.events [] (omega arith)

-- A redaction that blanks every text
abbrev blank : Redaction
blank = record { name = "blank"; subn = λ text. ("", 1) }

abbrev IsBlank : String → Type 0
IsBlank text = text ≡ ""

blank-Secures : Secures IsBlank (blank ∷ [])
unfolding apply_redaction
blank-Secures = here blank [] (λ text report. refl) tt

scrub_trajectory-IsScrubbed_example : IsScrubbed IsBlank run (scrub_trajectory (blank ∷ []) run).0
scrub_trajectory-IsScrubbed_example =
    scrub_trajectory-IsScrubbed (blank ∷ []) IsBlank blank-Secures run

prepare_for_capture-IsPrepared_example :
    IsPrepared ten IsBlank run (prepare_for_capture ten (blank ∷ []) run)
prepare_for_capture-IsPrepared_example =
    prepare_for_capture-IsPrepared ten (blank ∷ []) IsBlank blank-Secures run
