-- ===== src/Detect/Analyzer/Winner.antt =====
-- Which rule of loaded packs wins an event, in `_match_failure_mode` of diagnose/detect/analyzers.py.
use agent_debug_x.Base.{
  String, ◌≡◌, refl, true, none, some, List, [], ◌∷◌, ◌++◌, arith, All, All-imp, IsSorted,
  Option-cases, inl, inr, ◌⊎◌, ◌∙◌, ◌≤◌, sym,
}
use agent_debug_x.Python.{ok, ok-injective}
use agent_debug_x.Schema.{AgentEvent, AgentTrajectory}
use agent_debug_x.Detect.Matching.{EventRule, RuleMatch, match_rule, rule_priority}
use agent_debug_x.Detect.Registry.{event_rule_le, load_event_rules, pack_event_rules}
use agent_debug_x.Detect.Registry.Packs.{IsKnown}
use agent_debug_x.Detect.Registry.Loading.{Builds, load_event_rules-known, load_event_rules-Builds}
use agent_debug_x.Detect.Analyzer.{match_failure_mode}
use agent_debug_x.Detect.Analyzer.Matches.{
  IsSeeded, core_event_rules-IsSeeded, bench_event_rules-IsSeeded,
}

module _ (event : AgentEvent) (text : String) (trajectory : AgentTrajectory) where
  abbrev IsSilent : EventRule → Type 0
  IsSilent rule = match_rule rule event text trajectory ≡ none

  -- The rule does not match, or its priority is not the smaller one.
  abbrev Yields : EventRule → EventRule → Type 0
  Yields rule r = IsSilent r ⊎ (rule_priority rule ≤ rule_priority r)

  -- The rule before which no rule matches, and which none that matches undercuts
  record IsFirst (rules : List EventRule) (matched : RuleMatch) : Type 0 where
    before : List EventRule
    rule : EventRule
    after : List EventRule
    parts : rules ≡ before ++ rule ∷ after
    silent : All IsSilent before
    matches : match_rule rule event text trajectory ≡ some matched
    lowest : All (Yields rule) rules

  later-Yields : (rule r : EventRule) → event_rule_le rule r ≡ true → Yields rule r
  unfolding event_rule_le
  later-Yields rule r h = inr (ground arith)

  sorted-IsFirst :
      (rules : List EventRule) (matched : RuleMatch)
      → IsSorted event_rule_le rules
      → match_failure_mode event text trajectory rules ≡ some matched
      → IsFirst rules matched
  unfolding match_failure_mode
  sorted-IsFirst [] matched sorted h = cc
  sorted-IsFirst (rule ∷ rules) matched sorted h =
      elim (Option-cases (match_rule rule event text trajectory)) [
        | inl e ↦
            (let w = sorted-IsFirst rules matched sorted.1 (rw (e, match_failure_mode) at h) in
              record {
                before = rule ∷ w.before;
                rule = w.rule;
                after = w.after;
                parts = λ i. rule ∷ w.parts i;
                silent = (e, w.silent);
                matches = w.matches;
                lowest = (inl e, w.lowest);
              })
        | inr (m, e) ↦
            (let same : some m ≡ some matched = rw (e, match_failure_mode) at h in
              record {
                before = [];
                rule = rule;
                after = rules;
                parts = refl;
                silent = tt;
                matches = e ∙ same;
                lowest = (inr (omega arith), All-imp (later-Yields rule) rules sorted.0);
              })
      ]

  -- The rule whose match the analyzer takes: it matches, no loaded rule before it does, and every
  -- rule of each of the packs does not match or has no smaller priority.
  pub record IsWinner (packs : List String) (rules : List EventRule) (matched : RuleMatch)
      : Type 0 where
    pub before : List EventRule
    pub rule : EventRule
    pub after : List EventRule
    pub parts : rules ≡ before ++ rule ∷ after
    pub silent : All IsSilent before
    pub matches : match_rule rule event text trajectory ≡ some matched
    pub lowest : All (λ pack. Builds (Yields rule) (pack_event_rules pack)) packs

  -- Over the rules that known packs load, a match that the analyzer takes is that of a loaded rule
  -- before which no rule matches; and no rule of any of the packs that matches the event has a
  -- smaller priority.
  pub match_failure_mode-IsWinner :
      (packs : List String) (rules : List EventRule) (matched : RuleMatch)
      → All IsKnown packs
      → load_event_rules packs ≡ ok rules
      → match_failure_mode event text trajectory rules ≡ some matched
      → IsWinner packs rules matched
  match_failure_mode-IsWinner packs rules matched known loaded h =
      let (rules', e, sorted, _) =
        load_event_rules-known IsSeeded packs core_event_rules-IsSeeded bench_event_rules-IsSeeded
          known in
      let same : rules' ≡ rules = ok-injective (sym e ∙ loaded) in
      let w = sorted-IsFirst rules matched (rw same at sorted) h in
      record {
        before = w.before;
        rule = w.rule;
        after = w.after;
        parts = w.parts;
        silent = w.silent;
        matches = w.matches;
        lowest = load_event_rules-Builds (Yields w.rule) packs rules loaded w.lowest;
      }
