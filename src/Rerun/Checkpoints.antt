-- ===== src/Rerun/Checkpoints.antt =====
-- Where a rerun branches, and the limits of what a request carries (rerun/workflow.py).
use agent_debug_x.Base.{
  ℕ, ◌-◌, ◌≤◌, ◌<◌, String, ◌+++◌, char_count, ◌≡◌, refl, ap, ◌⊎◌, inl, inr, true, false, ◌∙◌,
  Option, none, some, List, [], ◌∷◌, get_elem?, find_first-found, or_else, ◌==◌, string_eq, nat_eq,
  option_eq, leb, Bool-cases, Option-cases, arith,
}
use agent_debug_x.Python.{
  ok, err, value_error, >>=-eq-ok, ok-injective, take_chars, count-take_chars-le,
}
use agent_debug_x.Schema.{AgentEvent, AgentTrajectory, DiagnosticReport, FailureFinding}
use agent_debug_x.Rerun.Request.{
  RerunRequest, RerunCheckpoint, checkpoint_event, build_checkpoint, build_rerun_request,
  from_start,
}
use agent_debug_x.Rerun.Diagnosis.{
  find_event, find_step, find_finding_event, first_of_two, root_event, root_step_event,
  target_event, diagnostic_context, truncate_text,
}
use text.Mathlib.TextLemmas.{length-append as count-append}

-- The event stands in the trajectory.
abbrev pub IsMember : List AgentEvent → AgentEvent → Type 0
IsMember events event = (i : ℕ) × (get_elem? events i ≡ some event)

find_event-found :
    (id : String) (events : List AgentEvent) (event : AgentEvent)
    → find_event id events ≡ some event
    → (event.event_id ≡ id) × IsMember events event
unfolding find_event
find_event-found id events event h =
    let (t, i, member) = find_first-found (λ e. e.event_id == id) events event h in
    ((string_eq.beq_iff event.event_id id).0 t, (i, member))

find_event-IsMember :
    (id : String) (events : List AgentEvent) (event : AgentEvent)
    → find_event id events ≡ some event
    → IsMember events event
find_event-IsMember id events event h = (find_event-found id events event h).1

find_finding_event-IsMember :
    (findings : List FailureFinding) (events : List AgentEvent) (event : AgentEvent)
    → find_finding_event findings events ≡ some event
    → IsMember events event
unfolding find_finding_event
find_finding_event-IsMember [] events event h = cc
find_finding_event-IsMember (finding ∷ findings) events event h =
    let again = find_finding_event-IsMember findings events event in
    elim (Option-cases finding.event_id) [
      | inl e ↦ again (rw e at h)
      | inr (id, e) ↦ elim (Bool-cases (id == "")) [
        | inl f ↦ again (rw (e, f) at h)
        | inr f ↦ elim (Option-cases (find_event id events)) [
          | inl g ↦ again (rw (e, f, g) at h)
          | inr (found, g) ↦
              (let same : some found ≡ some event = rw (e, f, g) at h in
                find_event-IsMember id events event (g ∙ same))
        ]
      ]
    ]

root_event-IsMember :
    (root : Option String) (events : List AgentEvent) (event : AgentEvent)
    → root_event root events ≡ some event
    → IsMember events event
unfolding root_event
root_event-IsMember none events event h = cc
root_event-IsMember (some id) events event h = elim (Bool-cases (id == "")) [
  | inl e ↦ (let bad : none ≡ some event = rw e at h in cc)
  | inr e ↦ find_event-IsMember id events event (rw e at h)
]

root_step_event-IsMember :
    (step : Option ℕ) (events : List AgentEvent) (event : AgentEvent)
    → root_step_event step events ≡ some event
    → IsMember events event
unfolding root_step_event find_step
root_step_event-IsMember none events event h = cc
root_step_event-IsMember (some step) events event h =
    let (t, i, member) = find_first-found (λ e. e.step_index == some step) events event h in
    (i, member)

first_of_two-cases {ℓ} :
    {A : Type ℓ} (a b : Option A) {x : A} → first_of_two a b ≡ some x → (a ≡ some x) ⊎ (b ≡ some x)
first_of_two-cases none b h = inr h
first_of_two-cases (some y) b h = inl h

target_event-IsMember :
    (report : DiagnosticReport) (trajectory : AgentTrajectory) (event : AgentEvent)
    → target_event report (some trajectory) ≡ some event
    → IsMember trajectory.events event
unfolding target_event
target_event-IsMember report trajectory event h =
    elim (first_of_two-cases (root_event report.root_cause_event_id trajectory.events) _ h) [
      | inl e ↦ root_event-IsMember report.root_cause_event_id trajectory.events event e
      | inr e ↦
          elim (first_of_two-cases (root_step_event report.root_cause_step_index trajectory.events)
            _ e) [
              | inl f ↦
                  root_step_event-IsMember report.root_cause_step_index trajectory.events event f
              | inr f ↦ find_finding_event-IsMember report.findings trajectory.events event f
            ]
    ]

-- The checkpoint's event and step are those of an event of the trajectory.
pub IsAt : RerunCheckpoint → List AgentEvent → Type 0
IsAt checkpoint events =
    (event : AgentEvent) × IsMember events event
    × (checkpoint.event_id ≡ some event.event_id)
    × (checkpoint.step_index ≡ event.step_index)

-- Where a request may branch: at the start; at the event that was named; or, if none was named, at
-- an event of the trajectory or at the root cause of the report as it stands.
abbrev pub IsBranchPoint : DiagnosticReport → AgentTrajectory → String → RerunCheckpoint → Type 0
IsBranchPoint report trajectory id checkpoint =
    ((checkpoint.policy ≡ from_start)
      × (checkpoint.event_id ≡ none)
      × (checkpoint.step_index ≡ none))
    ⊎ (IsAt checkpoint trajectory.events × (((id == "") ≡ true) ⊎ (checkpoint.event_id ≡ some id)))
    ⊎ (((id == "") ≡ true)
        × (checkpoint.event_id ≡ report.root_cause_event_id)
        × (checkpoint.step_index ≡ report.root_cause_step_index))

checkpoint_event-IsMember :
    (report : DiagnosticReport) (trajectory : AgentTrajectory) (policy : String)
    → (checkpoint_id : Option String) (event : AgentEvent)
    → checkpoint_event report (some trajectory) policy checkpoint_id ≡ ok (some event)
    → IsMember trajectory.events event
      × ((((or_else checkpoint_id "") == "") ≡ true) ⊎ (event.event_id ≡ or_else checkpoint_id ""))
unfolding checkpoint_event
checkpoint_event-IsMember report trajectory policy checkpoint_id event h =
    let id = or_else checkpoint_id "" in
    elim (Bool-cases (policy == from_start)) [
      | inl e ↦ (let bad : none ≡ some event = ok-injective (rw e at h) in cc)
      | inr e ↦ elim (Bool-cases (id == "")) [
        | inl f ↦
            (target_event-IsMember report trajectory event (ok-injective (rw (e, f) at h)), inl f)
        | inr f ↦ elim (Option-cases (find_event id trajectory.events)) [
          | inl g ↦
              (let bad : err (value_error ("unknown rerun checkpoint event: " +++ id))
                    ≡ ok (some event) =
                  rw (e, f, g) at h in
                cc)
          | inr (found, g) ↦
              (let same : some found ≡ some event = ok-injective (rw (e, f, g) at h) in
                let (t, member) = find_event-found id trajectory.events event (g ∙ same) in
                (member, inr t))
        ]
      ]
    ]

checkpoint_event-absent :
    (report : DiagnosticReport) (trajectory : AgentTrajectory) (policy : String)
    → (checkpoint_id : Option String) → (policy == from_start) ≡ false
    → checkpoint_event report (some trajectory) policy checkpoint_id ≡ ok none
    → ((or_else checkpoint_id "") == "") ≡ true
unfolding checkpoint_event
checkpoint_event-absent report trajectory policy checkpoint_id e h =
    let id = or_else checkpoint_id "" in
    elim (Bool-cases (id == "")) [
      | inl f ↦ f
      | inr f ↦ elim (Option-cases (find_event id trajectory.events)) [
        | inl g ↦
            (let bad : err (value_error ("unknown rerun checkpoint event: " +++ id)) ≡ ok none =
                rw (e, f, g) at h in
              cc)
        | inr (found, g) ↦ (let bad : some found ≡ none = ok-injective (rw (e, f, g) at h) in cc)
      ]
    ]

checkpoint-IsBranchPoint :
    (report : DiagnosticReport) (trajectory : AgentTrajectory) (policy : String)
    → (checkpoint_id : Option String) (event : Option AgentEvent) → (policy == from_start) ≡ false
    → checkpoint_event report (some trajectory) policy checkpoint_id ≡ ok event
    → IsBranchPoint report trajectory (or_else checkpoint_id "") (record {
      event_id = elim event [ none ↦ report.root_cause_event_id | some e ↦ some e.event_id ];
      step_index = elim event [ none ↦ report.root_cause_step_index | some e ↦ e.step_index ];
      policy = policy;
    })
unfolding IsAt
checkpoint-IsBranchPoint report trajectory policy checkpoint_id none e h =
    inr (inr (checkpoint_event-absent report trajectory policy checkpoint_id e h, refl, refl))
checkpoint-IsBranchPoint report trajectory policy checkpoint_id (some event) e h =
    let (member, named) =
      checkpoint_event-IsMember report trajectory policy checkpoint_id event h in
    inr (inl ((event, member, refl, refl), elim named [ inl f ↦ inl f | inr f ↦ inr (ap some f) ]))

build_checkpoint-IsBranchPoint :
    (report : DiagnosticReport) (trajectory : AgentTrajectory) (policy : String)
    → (checkpoint_id : Option String) (event : Option AgentEvent)
    → checkpoint_event report (some trajectory) policy checkpoint_id ≡ ok event
    → IsBranchPoint report trajectory
        (or_else checkpoint_id "")
        (build_checkpoint report event policy)
unfolding build_checkpoint IsAt
build_checkpoint-IsBranchPoint report trajectory policy checkpoint_id event h =
    elim (Bool-cases (policy == from_start)) [
      | inl e ↦ rw e (inl ((string_eq.beq_iff policy from_start).0 e, refl, refl))
      | inr e ↦ rw e (checkpoint-IsBranchPoint report trajectory policy checkpoint_id event e h)
    ]

-- A request that is built for a trajectory branches at its start, and then names no event; or at
-- an event of the trajectory, which is the one that the caller named, if the caller named one; or, if
-- the caller named none, at the root cause of the report. Its checkpoint keeps the policy.
pub build_rerun_request-IsBranchPoint :
    (report : DiagnosticReport) (trajectory : AgentTrajectory) (policy : String)
    → (checkpoint_id : Option String) (request : RerunRequest)
    → build_rerun_request report (some trajectory) policy checkpoint_id ≡ ok request
    → (request.checkpoint.policy ≡ policy)
      × (request.trace_id ≡ trajectory.trace_id)
      × IsBranchPoint report trajectory (or_else checkpoint_id "") request.checkpoint
unfolding build_rerun_request
build_rerun_request-IsBranchPoint report trajectory policy checkpoint_id request h =
    let (event, found, h₁) =
      >>=-eq-ok (checkpoint_event report (some trajectory) policy checkpoint_id) _ h in
    let (context, _, h₂) = >>=-eq-ok (diagnostic_context report) _ h₁ in
    rw (← ok-injective h₂) (
      (
        refl,
        refl,
        build_checkpoint-IsBranchPoint report trajectory policy checkpoint_id event found,
      ))

-- A text cut to a limit of at least three characters is no longer than the limit; and it is the text
-- itself, or the text is longer than the limit.
truncate_text-le :
    (text : String) (limit : ℕ)
    → 3 ≤ limit
    → (char_count (truncate_text text limit) ≤ limit)
      × ((truncate_text text limit ≡ text) ⊎ (limit < char_count text))
unfolding truncate_text
truncate_text-le text limit h = elim (Bool-cases (leb (char_count text) limit)) [
  | inl e ↦ rw e ((ground arith, inl refl))
  | inr e ↦ rw e (
      (
        rw (count-append (take_chars (limit - 3) text) "...")
            (omega (arith, count-take_chars-le (limit - 3) text)),
        inr (ground arith),
      ))
]
