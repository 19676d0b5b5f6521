-- ===== src/Detect/Analyzer/Root.antt =====
-- The root cause that diagnose/detect/analyzers.py picks for its report.
use agent_debug_x.Base.{
  leb, ◌≢◌, Bool-cases, ◌+◌, ◌<◌, ◌≤◌, ◌⊎◌, ◌∙◌, ◌++◌, Bool, All, All-imp, is_some, or_else, lookup,
  insert, lookup-insert, IsFirstMin-le-All, if◌then◌else◌, ℕ, String, ◌≡◌, refl, true, false,
  Option, none, some, List, [], ◌∷◌, arith, Option-cases, inl, inr, Dict, IsFirstMin,
  first?-sort_by, ◌==◌, string_eq, option_eq,
}
use agent_debug_x.Schema.{AgentEvent, AgentTrajectory, FailureFinding, DiagnosticReport}
use agent_debug_x.Detect.Selection.{confidence_of, lex, missing_step, step_or_last, no_step}
use agent_debug_x.Detect.Selection.Order.{lex_total, lex_trans, leb_total, leb_trans}
use agent_debug_x.Detect.Analyzer.{
  event_order_from, order_of, event_order, root_le, select_root_cause, inferred_step, with_root,
  build_report,
}

root_le_total :
    (order : Dict String ℕ) (f g : FailureFinding)
    → root_le order f g ≡ false
    → root_le order g f ≡ true
unfolding root_le
root_le_total order f g =
    lex_total _ _ _ _
      (lex_total _ _ _ _ (lex_total _ _ _ _ (leb_total (confidence_of g) (confidence_of f))))

root_le_trans :
    (order : Dict String ℕ) (f g h : FailureFinding)
    → root_le order f g ≡ true
    → root_le order g h ≡ true
    → root_le order f h ≡ true
unfolding root_le
root_le_trans order f g h = lex_trans _ _ _ _ _ _ (
    lex_trans _ _ _ _ _ _ (
      lex_trans _ _ _ _ _ _
        (λ p q. leb_trans (confidence_of h) (confidence_of g) (confidence_of f) q p)))

select_root_cause-IsFirstMin :
    (order : Dict String ℕ) (f : FailureFinding) (fs : List FailureFinding)
    → (g : FailureFinding) × (select_root_cause order (f ∷ fs) ≡ some g)
      × IsFirstMin (root_le order) (f ∷ fs) g
unfolding select_root_cause
select_root_cause-IsFirstMin order f fs =
    first?-sort_by (root_le order) (root_le_total order) (root_le_trans order) f fs

findings-with_root :
    (order : Dict String ℕ) (root : Option FailureFinding) (report : DiagnosticReport)
    → (with_root order root report).findings ≡ report.findings
unfolding with_root
findings-with_root order none report = refl
findings-with_root order (some root) report = refl

-- The last place, counted from i, at which an event with that id stands
abbrev pub last_place : String → ℕ → List AgentEvent → Option ℕ
last_place id i [] = none
last_place id i (event ∷ events) = elim (last_place id (i + 1) events) [
  | some j ↦ some j
  | none ↦ (if event.event_id == id then some i else none)
]

abbrev pub place_of : List AgentEvent → FailureFinding → Option ℕ
place_of events f = elim f.event_id [ none ↦ none | some id ↦ last_place id 0 events ]

-- What makes a finding the root rather than another one
pub record Outranks (events : List AgentEvent) (g f : FailureFinding) : Type 0 where
  pub by_step :
      (t : ℕ)
      → f.step_index ≡ some t
      → (s : ℕ) × (g.step_index ≡ some s)
        × ((s < t) ⊎ ((s ≡ t) × (confidence_of f ≤ confidence_of g)))
  pub by_place :
      (j : ℕ)
      → g.step_index ≡ none
      → f.step_index ≡ none
      → place_of events f ≡ some j
      → j < no_step
      → (i : ℕ) × (place_of events g ≡ some i)
        × ((i < j) ⊎ ((i ≡ j) × (confidence_of f ≤ confidence_of g)))

pub record IsRoot (events : List AgentEvent) (findings : List FailureFinding) (g : FailureFinding)
    : Type 0 where
  pub before : List FailureFinding
  pub after : List FailureFinding
  pub parts : findings ≡ before ++ g ∷ after
  pub outranks : All (Outranks events g) findings

lookup-event_order_from :
    (order : Dict String ℕ) (i : ℕ) (events : List AgentEvent) (id : String)
    → lookup (event_order_from order i events) id
      ≡ elim (last_place id i events) [ none ↦ lookup order id | some j ↦ some j ]
unfolding event_order_from
lookup-event_order_from order i [] id = refl
lookup-event_order_from order i (event ∷ events) id =
    lookup-event_order_from (insert order event.event_id i) (i + 1) events id
    ∙ (elim (Option-cases (last_place id (i + 1) events)) [
      | inl e ↦ rw e (
          lookup-insert order event.event_id id i
          ∙ (elim (Bool-cases (event.event_id == id)) [ inl b ↦ rw b refl | inr b ↦ rw b refl ]))
      | inr (j, e) ↦ rw e refl
    ])

lookup-event_order :
    (events : List AgentEvent) (id : String)
    → lookup (event_order events) id ≡ last_place id 0 events
unfolding event_order lookup
lookup-event_order events id =
    lookup-event_order_from [] 0 events id
    ∙ (elim (Option-cases (last_place id 0 events)) [ inl e ↦ rw e refl | inr (j, e) ↦ rw e refl ])

inferred_step-place_of :
    (events : List AgentEvent) (g : FailureFinding)
    → inferred_step (event_order events) g
      ≡ (if is_some g.step_index then g.step_index else place_of events g)
unfolding inferred_step
inferred_step-place_of events g = elim (Option-cases g.step_index) [
  | inr (s, e) ↦ rw e refl
  | inl e ↦ elim (Option-cases g.event_id) [
    | inl n ↦ rw (e, n) refl
    | inr (id, n) ↦ rw (e, n) (lookup-event_order events id)
  ]
]

order_of-step :
    (order : Dict String ℕ) (f : FailureFinding) (s : ℕ)
    → f.step_index ≡ some s
    → order_of order f ≡ no_step
unfolding order_of
order_of-step order f s h = elim (Option-cases f.event_id) [
  | inl e ↦ rw (order_of, e) refl
  | inr (id, e) ↦ rw (order_of, e, h) refl
]

order_of-place_of :
    (events : List AgentEvent) (f : FailureFinding)
    → f.step_index ≡ none
    → order_of (event_order events) f ≡ or_else (place_of events f) no_step
unfolding order_of
order_of-place_of events f h = elim (Option-cases f.event_id) [
  | inl e ↦ rw (order_of, e) refl
  | inr (id, e) ↦ rw (order_of, e, h, lookup-event_order events id) refl
]

lex-ne-greater : (rest : Bool) → lex 1 0 rest ≢ true
unfolding lex
lex-ne-greater rest h = cc

lex-confidence :
    (i j cf cg : ℕ)
    → lex 1 1 (lex no_step no_step (lex i j (leb cf cg))) ≡ true
    → (i < j) ⊎ ((i ≡ j) × (cf ≤ cg))
unfolding lex
lex-confidence i j cf cg h = ground arith

lex-ne-last :
    (j : ℕ) (rest : Bool) → j < no_step → lex 1 1 (lex no_step no_step (lex no_step j rest)) ≢ true
unfolding lex
lex-ne-last j rest lt h = ground arith

lex-behind :
    (s t n cf cg : ℕ)
    → lex 0 0 (lex s t (lex n n (leb cf cg))) ≡ true
    → (s < t) ⊎ ((s ≡ t) × (cf ≤ cg))
unfolding lex
lex-behind s t n cf cg h = ground arith

root_le-Outranks :
    (events : List AgentEvent) (g f : FailureFinding)
    → root_le (event_order events) g f ≡ true
    → Outranks events g f
unfolding root_le missing_step step_or_last confidence_of
root_le-Outranks events g f h =
    let order = event_order events in
    record {
      by_step = λ t ft. elim (Option-cases g.step_index) [
        | inl e ↦ (let bad = rw (root_le, e, ft) at h in absurd (lex-ne-greater _ bad))
        | inr (s, e) ↦
            (let h' =
                rw (root_le, order_of-step order g s e, order_of-step order f t ft, e, ft) at h in
              (s, e, lex-behind s t no_step (confidence_of f) (confidence_of g) h'))
      ];
      by_place = λ j gn fn fp lt.
          let h' =
            rw (root_le, order_of-place_of events g gn, order_of-place_of events f fn, fp, gn, fn)
              at h in
          elim (Option-cases (place_of events g)) [
            | inl e ↦ (let bad = rw e at h' in absurd (lex-ne-last j _ lt bad))
            | inr (i, e) ↦
                (let h'' = rw e at h' in
                  (i, e, lex-confidence i j (confidence_of f) (confidence_of g) h''))
          ];
    }

module _ (report_id : String) (now : ℕ) (trajectory : AgentTrajectory) (packs : List String)
    (event_rules trajectory_rules : ℕ) where
  abbrev report_of : List FailureFinding → DiagnosticReport
  report_of findings =
      build_report report_id now trajectory packs event_rules trajectory_rules findings

  pub findings-build_report :
      (findings : List FailureFinding) → (report_of findings).findings ≡ findings
  unfolding build_report
  findings-build_report findings =
      findings-with_root (event_order trajectory.events)
        (select_root_cause (event_order trajectory.events) findings) _

  -- The report of findings that are not empty names one of them: its event, its agent, and its
  -- step, or, if it has none, the last place of its event in the trajectory. If any finding has a
  -- step, the one that is named has the smallest, and among those of that step the greatest
  -- confidence. If none has, then of the findings whose event has a place (the last one, if it is
  -- below a billion) none is at an earlier place than the one that is named, which has the
  -- greatest confidence among those of its place.
  pub build_report-IsRoot :
      (f : FailureFinding) (fs : List FailureFinding)
      → (g : FailureFinding) × IsRoot trajectory.events (f ∷ fs) g
        × ((report_of (f ∷ fs)).root_cause_event_id ≡ g.event_id)
        × ((report_of (f ∷ fs)).root_cause_agent ≡ g.agent_name)
        × ((report_of (f ∷ fs)).root_cause_step_index
            ≡ (if is_some g.step_index then g.step_index else place_of trajectory.events g))
  unfolding build_report with_root
  build_report-IsRoot f fs =
      let order = event_order trajectory.events in
      let (g, e, m) = select_root_cause-IsFirstMin order f fs in
      (
        g,
        record {
          before = m.before;
          after = m.after;
          parts = m.parts;
          outranks =
              All-imp (λ h le. root_le-Outranks trajectory.events g h le) (f ∷ fs)
                (IsFirstMin-le-All (root_le order) (root_le_total order) (root_le_trans order)
                  (f ∷ fs) g m);
        },
        rw (e, with_root) refl,
        rw (e, with_root) refl,
        rw (e, with_root) (inferred_step-place_of trajectory.events g),
      )
