-- ===== src/Detect/Anomalies/Windows.antt =====
-- The repeated-state rule of diagnose/detect/rules/packs/core/rules.py: what it flags.
use agent_debug_x.Base.{
  ℕ, suc, ◌≤◌, String, ◌≡◌, refl, true, false, Option, some, List, [], ◌∷◌, arith, All, All-imp,
  take, length, contains, last?, ltb, string_eq, option_eq, map, IsDistinct, keep, Bool-cases,
  Option-cases, inl, inr, drop,
}
use agent_debug_x.Schema.{AgentEvent, AgentTrajectory, FailureFinding}
use agent_debug_x.Detect.Anomalies.{
  window_signatures, window_finding, flag_window, scan_windows, detect_repeated_state, has_state,
}
use agent_debug_x.Detect.Findings.{RepeatedState, finding}
use agent_debug_x.Detect.Anomalies.ModeCount.{occurrences, mode_count-greatest}

-- The ids of the events that some findings blame
abbrev pub blamed : List FailureFinding → List (Option String)
blamed findings = map (λ f. f.event_id) findings

-- A finding is justified by a window: full, ending at the event that is blamed, and with a state
-- that occurs at least as often as the threshold asks.
pub record IsJustified (rule : RepeatedState) (events : List AgentEvent) (f : FailureFinding)
    : Type 0 where
  pub start : ℕ
  pub target : AgentEvent
  pub signature : String
  pub full : rule.window ≤ length (drop start events)
  pub last : last? (take rule.window (drop start events)) ≡ some target
  pub blames : f.event_id ≡ some target.event_id
  pub often :
      rule.threshold
      ≤ occurrences signature (window_signatures (take rule.window (drop start events)))

flag_window-some :
    (rule : RepeatedState) (flagged : List String) (window : List AgentEvent) (target : AgentEvent)
    (signature : String) (n : ℕ)
    → flag_window rule flagged window ≡ some (target, signature, n)
    → (last? window ≡ some target)
      × (contains flagged target.event_id ≡ false)
      × (rule.threshold ≤ occurrences signature (window_signatures window))
unfolding flag_window
flag_window-some rule flagged window target signature n h =
    ground (arith, mode_count-greatest (window_signatures window))

IsJustified-later :
    (rule : RepeatedState) (event : AgentEvent) (events : List AgentEvent) (f : FailureFinding)
    → IsJustified rule events f
    → IsJustified rule (event ∷ events) f
IsJustified-later rule event events f j = record {
  start = suc j.start;
  target = j.target;
  signature = j.signature;
  full = j.full;
  last = j.last;
  blames = j.blames;
  often = j.often;
}

event_id-window_finding :
    (rule : RepeatedState) (target : AgentEvent) (signature : String) (n : ℕ)
    → (window_finding rule target signature n).event_id ≡ some target.event_id
unfolding window_finding finding
event_id-window_finding rule target signature n = refl

-- No id of `flagged` is blamed, and no event is blamed twice.
abbrev AvoidsFrom : List String → List FailureFinding → Type 0
AvoidsFrom flagged [] = Unit
AvoidsFrom flagged (f ∷ fs) =
    (id : String) × (f.event_id ≡ some id)
    × (contains flagged id ≡ false)
    × AvoidsFrom (id ∷ flagged) fs

scan_windows-AvoidsFrom :
    (rule : RepeatedState) (flagged : List String) (events : List AgentEvent)
    → AvoidsFrom flagged (scan_windows rule flagged events)
      × All (IsJustified rule events) (scan_windows rule flagged events)
unfolding scan_windows
scan_windows-AvoidsFrom rule flagged [] = (tt, tt)
scan_windows-AvoidsFrom rule flagged (event ∷ events) =
    elim (Bool-cases (ltb (length (event ∷ events)) rule.window)) [
      | inl short ↦ rw (short, scan_windows) ((tt, tt))
      | inr long ↦
          elim (Option-cases (flag_window rule flagged (take rule.window (event ∷ events)))) [
            | inl e ↦
                (let (a, j) = scan_windows-AvoidsFrom rule flagged events in
                  rw (long, e, scan_windows)
                    ((
                      a,
                      All-imp (IsJustified-later rule event events)
                          (scan_windows rule flagged events) j,
                    )))
            | inr ((target, signature, n), e) ↦
                (let (last, new, often) =
                    flag_window-some rule flagged (take rule.window (event ∷ events)) target
                      signature n e in
                  let rest = scan_windows rule (target.event_id ∷ flagged) events in
                  let (a, j) = scan_windows-AvoidsFrom rule (target.event_id ∷ flagged) events in
                  rw (long, e, scan_windows)
                    ((
                      (target.event_id, event_id-window_finding rule target signature n, new, a),
                      (
                        record {
                          start = 0;
                          target = target;
                          signature = signature;
                          full = ground arith;
                          last = last;
                          blames = event_id-window_finding rule target signature n;
                          often = often;
                        },
                        All-imp (IsJustified-later rule event events) rest j,
                      ),
                    )))
          ]
    ]

blamed-AvoidsFrom :
    (flagged : List String) (fs : List FailureFinding) (id : String)
    → AvoidsFrom flagged fs
    → contains flagged id ≡ true
    → contains (blamed fs) (some id) ≡ false
unfolding contains
blamed-AvoidsFrom flagged [] id a h = refl
blamed-AvoidsFrom flagged (f ∷ fs) id (own, e, new, rest) h =
    let later = blamed-AvoidsFrom (own ∷ flagged) fs id rest in
    elim (Bool-cases (string_eq.beq own id)) [
      | inl same ↦
          (let eq : own ≡ id = (string_eq.beq_iff own id).0 same in
            let old : contains flagged own ≡ true = rw eq h in cc)
      | inr other ↦ rw (e, other) (later (rw other h))
    ]

IsDistinct-AvoidsFrom :
    (flagged : List String) (fs : List FailureFinding)
    → AvoidsFrom flagged fs
    → IsDistinct (blamed fs)
unfolding contains
IsDistinct-AvoidsFrom flagged [] a = tt
IsDistinct-AvoidsFrom flagged (f ∷ fs) (own, e, new, rest) = (
  rw e (
      blamed-AvoidsFrom (own ∷ flagged) fs own rest (rw ((string_eq.beq_iff own own).1 refl) refl)),
  IsDistinct-AvoidsFrom (own ∷ flagged) fs rest,
)

-- The repeated-state rule blames no event twice, and each finding is justified by a full window of
-- state-bearing events which ends at the blamed event and in which one state signature occurs at
-- least as often as the threshold asks.
pub detect_repeated_state-IsJustified :
    (rule : RepeatedState) (trajectory : AgentTrajectory)
    → IsDistinct (blamed (detect_repeated_state rule trajectory))
      × All
          (IsJustified rule (keep has_state trajectory.events))
          (detect_repeated_state rule trajectory)
unfolding detect_repeated_state
detect_repeated_state-IsJustified rule trajectory =
    let (a, j) = scan_windows-AvoidsFrom rule [] (keep has_state trajectory.events) in
    (IsDistinct-AvoidsFrom [] (scan_windows rule [] (keep has_state trajectory.events)) a, j)
