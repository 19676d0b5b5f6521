-- ===== src/Capture/Filtering/Prepared.antt =====
-- What `prepare_for_capture` of capture/filtering.py hands to the repository.
use agent_debug_x.Base.{ℕ, String, ◌≡◌, refl, ap, ◌∙◌, some, List, string_eq}
use agent_debug_x.Python.{Value, Fields, get, put, get-put, str, get_value}
use agent_debug_x.Schema.{AgentEvent, AgentTrajectory}
use agent_debug_x.Scrub.{Redaction}
use agent_debug_x.Scrub.Leaves.{Secures}
use agent_debug_x.Scrub.Trajectories.{AreScrubbed, AllOptional, scrub_trajectory-IsScrubbed}
use agent_debug_x.Capture.Filtering.{
  select_events, prepare_for_capture, scrubber_version, PreparedTrajectory,
}
use agent_debug_x.Capture.Filtering.Selected.{IsSelection, select_events-IsSelection}

get_value-put : (d : Fields) (key : String) (v : Value) → get_value (put d key v) key ≡ v
unfolding get_value
get_value-put d key v =
    let same : get (put d key v) key ≡ some v =
      get-put d key key v ∙ rw ((string_eq.beq_iff key key).1 refl) refl in
    rw (get_value, same) refl

-- The events are a selection of those of the trajectory, scrubbed one by one.
pub record IsPrepared (payload_size : AgentEvent → ℕ) (P : String → Type 0)
    (trajectory : AgentTrajectory) (prepared : PreparedTrajectory) : Type 0 where
  pub selected : List AgentEvent
  pub selection : IsSelection payload_size trajectory.events selected
  pub scrubbed : AreScrubbed P selected prepared.trajectory.events
  pub goal : AllOptional P prepared.trajectory.goal
  pub trace_id : prepared.trajectory.trace_id ≡ trajectory.trace_id
  pub version :
      get_value prepared.trajectory.metadata "capture_scrubber_version" ≡ str scrubber_version

module _ (payload_size : AgentEvent → ℕ) (redactions : List Redaction) (P : String → Type 0)
    (s : Secures P redactions) where
  -- If some redaction establishes a property of texts and those behind it preserve it, the prepared
  -- trajectory has the goal and the event payloads with that property. Its events are those that
  -- are selected from the trajectory's (copies in order, without private reasoning and turns that ran
  -- this program), scrubbed one by one. It keeps the trace and names the version of the scrubber.
  pub prepare_for_capture-IsPrepared :
      (trajectory : AgentTrajectory)
      → IsPrepared payload_size P trajectory
          (prepare_for_capture payload_size redactions trajectory)
  unfolding prepare_for_capture
  prepare_for_capture-IsPrepared trajectory =
      let events = (select_events payload_size trajectory.events).0 in
      let clean =
        scrub_trajectory-IsScrubbed redactions P s (record trajectory { events = events }) in
      record {
        selected = events;
        selection = select_events-IsSelection payload_size trajectory.events;
        scrubbed = clean.events;
        goal = clean.goal;
        trace_id = ap (λ (t : AgentTrajectory). t.trace_id) clean.rest;
        version = get_value-put _ "capture_scrubber_version" (str scrubber_version);
      }
