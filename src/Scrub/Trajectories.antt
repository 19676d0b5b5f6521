-- ===== src/Scrub/Trajectories.antt =====
-- What `scrub_trajectory` of hub/scrub.py establishes for a trajectory.
use agent_debug_x.Base.{String, ◌≡◌, refl, Option, none, some, List, [], ◌∷◌}
use agent_debug_x.Python.{
  Value, null, bool, int, float, str, list, tuple, dict, AllTexts, AllTextsFields,
}
use agent_debug_x.Schema.{AgentEvent, AgentTrajectory}
use agent_debug_x.Scrub.{
  Redaction, ScrubReport, new_report, scrub_fields, scrub_present, scrub_optional, scrub_event,
  scrub_events, scrub_trajectory,
}
use agent_debug_x.Scrub.Leaves.{Secures, scrub_text-secured, scrubbed_value, scrubbed_fields}

abbrev pub AllOptional : (String → Type 0) → Option String → Type 0
AllOptional P none = Unit
AllOptional P (some text) = P text

-- The predicate holds of every text of the payload of the event, and the rest is as it was.
pub record IsScrubbedEvent (P : String → Type 0) (event scrubbed : AgentEvent) : Type 0 where
  pub input : AllTexts P scrubbed.input
  pub output : AllTexts P scrubbed.output
  pub error : AllOptional P scrubbed.error
  pub metadata : AllTextsFields P scrubbed.metadata
  pub rest : scrubbed ≡ (record event {
    input = scrubbed.input;
    output = scrubbed.output;
    error = scrubbed.error;
    metadata = scrubbed.metadata;
  })

-- The events one by one, in their order
abbrev pub AreScrubbed : (String → Type 0) → List AgentEvent → List AgentEvent → Type 0
AreScrubbed P [] [] = Unit
AreScrubbed P (event ∷ events) (s ∷ scrubbed) =
    IsScrubbedEvent P event s × AreScrubbed P events scrubbed
AreScrubbed P _ _ = ⊥

pub record IsScrubbed (P : String → Type 0) (trajectory scrubbed : AgentTrajectory) : Type 0 where
  pub goal : AllOptional P scrubbed.goal
  pub metadata : AllTextsFields P scrubbed.metadata
  pub events : AreScrubbed P trajectory.events scrubbed.events
  pub rest : scrubbed ≡ (record trajectory {
    goal = scrubbed.goal;
    metadata = scrubbed.metadata;
    events = scrubbed.events;
  })

module _ (redactions : List Redaction) (P : String → Type 0) (s : Secures P redactions) where
  scrub_present-secured :
      (value : Value) (report : ScrubReport) → AllTexts P (scrub_present redactions value report).0
  unfolding scrub_present AllTexts
  scrub_present-secured null report = tt
  scrub_present-secured (bool b) report = (scrubbed_value redactions P s (bool b) report).0
  scrub_present-secured (int n) report = (scrubbed_value redactions P s (int n) report).0
  scrub_present-secured (float x) report = (scrubbed_value redactions P s (float x) report).0
  scrub_present-secured (str t) report = (scrubbed_value redactions P s (str t) report).0
  scrub_present-secured (list xs) report = (scrubbed_value redactions P s (list xs) report).0
  scrub_present-secured (tuple xs) report = (scrubbed_value redactions P s (tuple xs) report).0
  scrub_present-secured (dict d) report = (scrubbed_value redactions P s (dict d) report).0

  scrub_optional-secured :
      (o : Option String) (report : ScrubReport)
      → AllOptional P (scrub_optional redactions o report).0
  unfolding scrub_optional
  scrub_optional-secured none report = tt
  scrub_optional-secured (some t) report = scrub_text-secured P redactions s t report

  scrub_event-secured :
      (event : AgentEvent) (report : ScrubReport)
      → IsScrubbedEvent P event (scrub_event redactions event report).0
  unfolding scrub_event
  scrub_event-secured event report =
      let (input, r₁) = scrub_present redactions event.input report in
      let (output, r₂) = scrub_present redactions event.output r₁ in
      let (error, r₃) = scrub_optional redactions event.error r₂ in
      record {
        input = scrub_present-secured event.input report;
        output = scrub_present-secured event.output r₁;
        error = scrub_optional-secured event.error r₂;
        metadata = (scrubbed_fields redactions P s event.metadata r₃).0;
        rest = refl;
      }

  scrub_events-secured :
      (events : List AgentEvent) (report : ScrubReport)
      → AreScrubbed P events (scrub_events redactions events report).0
  unfolding scrub_events
  scrub_events-secured [] report = tt
  scrub_events-secured (event ∷ events) report = (
    scrub_event-secured event report,
    scrub_events-secured events (scrub_event redactions event report).1,
  )

  -- If some redaction establishes a property of texts and those behind it preserve it, every text of
  -- the goal, the metadata and the payloads of a scrubbed trajectory has the property; its events
  -- correspond to those of the trajectory, in their order, and nothing else of it is changed.
  pub scrub_trajectory-IsScrubbed :
      (trajectory : AgentTrajectory)
      → IsScrubbed P trajectory (scrub_trajectory redactions trajectory).0
  unfolding scrub_trajectory
  scrub_trajectory-IsScrubbed trajectory =
      let (goal, r₁) = scrub_optional redactions trajectory.goal new_report in
      let (metadata, r₂) = scrub_fields redactions trajectory.metadata r₁ in
      record {
        goal = scrub_optional-secured trajectory.goal new_report;
        metadata = (scrubbed_fields redactions P s trajectory.metadata r₁).0;
        events = scrub_events-secured trajectory.events r₂;
        rest = refl;
      }
