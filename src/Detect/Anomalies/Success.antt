-- ===== src/Detect/Anomalies/Success.antt =====
-- The step-count and premature-success rules of diagnose/detect/rules/packs/core/rules.py.
use agent_debug_x.Base.{
  String, ◌≡◌, refl, true, false, Option, none, some, List, [], ◌∷◌, ◌++◌, All, ◌⊎◌, inl, inr,
  Option-cases, Bool-cases, map,
}
use agent_debug_x.Schema.{AgentEvent, AgentTrajectory}
use agent_debug_x.Detect.Anomalies.{detect_premature_success, last_claim, claim_of, run_failed}
use agent_debug_x.Detect.Anomalies.Calls.{event_id-finding}

-- The last event that claims success, with the phrase: no event behind it makes a claim.
pub record IsLastClaim (events : List AgentEvent) (target : AgentEvent) (claim : String)
    : Type 0 where
  pub before : List AgentEvent
  pub after : List AgentEvent
  pub parts : events ≡ before ++ target ∷ after
  pub claims : claim_of target ≡ some claim
  pub silent : All (λ event. claim_of event ≡ none) after

-- The loop keeps what it had, and then no event makes a claim, or it returns the last claim.
last_claim-cases :
    (found : Option (AgentEvent × String)) (events : List AgentEvent)
    → ((last_claim found events ≡ found) × All (λ event. claim_of event ≡ none) events)
      ⊎ ((target : AgentEvent) × (claim : String) × (last_claim found events ≡ some (target, claim))
          × IsLastClaim events target claim)
unfolding last_claim
last_claim-cases found [] = inl (refl, tt)
last_claim-cases found (event ∷ events) = elim (Option-cases (claim_of event)) [
  | inl e ↦ elim (last_claim-cases found events) [
    | inl (same, silent) ↦ inl (rw (e, last_claim) same, (e, silent))
    | inr (target, claim, h, m) ↦ inr (
      target,
      claim,
      rw (e, last_claim) h,
      record {
        before = event ∷ m.before;
        after = m.after;
        parts = λ i. event ∷ m.parts i;
        claims = m.claims;
        silent = m.silent;
      },
    )
  ]
  | inr (claim, e) ↦ elim (last_claim-cases (some (event, claim)) events) [
    | inl (same, silent) ↦ inr (
      event,
      claim,
      rw (e, last_claim) same,
      record { before = []; after = events; parts = refl; claims = e; silent = silent },
    )
    | inr (target, phrase, h, m) ↦ inr (
      target,
      phrase,
      rw (e, last_claim) h,
      record {
        before = event ∷ m.before;
        after = m.after;
        parts = λ i. event ∷ m.parts i;
        claims = m.claims;
        silent = m.silent;
      },
    )
  ]
]

-- On a run that carries a failure marker the rule reports nothing if no event claims success, and
-- else one finding, which blames the last event that does. On any other run it reports nothing.
pub detect_premature_success-cases :
    (trajectory : AgentTrajectory)
    → ((detect_premature_success trajectory ≡ [])
        × ((run_failed trajectory ≡ false)
            ⊎ All (λ event. claim_of event ≡ none) trajectory.events))
      ⊎ ((run_failed trajectory ≡ true)
          × ((target : AgentEvent) × (claim : String) × IsLastClaim trajectory.events target claim
              × (map (λ f. f.event_id) (detect_premature_success trajectory)
                  ≡ some target.event_id ∷ [])))
unfolding detect_premature_success
detect_premature_success-cases trajectory = elim (Bool-cases (run_failed trajectory)) [
  | inr e ↦ inl (rw (e, detect_premature_success) refl, inl e)
  | inl e ↦ elim (last_claim-cases none trajectory.events) [
    | inl (h, silent) ↦ inl (rw (e, h, detect_premature_success) refl, inr silent)
    | inr (target, claim, h, m) ↦ inr (
      e,
      (
        target,
        claim,
        m,
        rw (e, h, detect_premature_success) (rw (event_id-finding _ target _ _ _ _) refl),
      ),
    )
  ]
]
