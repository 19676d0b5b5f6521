-- ===== src/Detect/Analyzer/Matches.antt =====
-- The single-event part of diagnose/detect/analyzers.py: every rule of the packs names a failure
-- mode of the taxonomy.
use agent_debug_x.Base.{
  String, ◌≡◌, refl, true, none, some, List, [], ◌∷◌, arith, All, is_some, Option-cases, inl, inr,
  ◌⊎◌,
}
use agent_debug_x.Schema.{AgentEvent, AgentTrajectory, get_failure_mode, seed_failure_modes}
use agent_debug_x.Detect.Matching.{
  EventRule, RuleMatch, KeywordRule, keyword, event_error, structured_constraint, metadata_status,
  alfworld_no_op, webshop_no_progress, match_rule, match_keyword, match_event_error,
  match_structured_constraint, match_metadata_status, match_alfworld, match_webshop, explicit_error,
  core_event_rules, bench_event_rules,
}
use agent_debug_x.Detect.Analyzer.{match_failure_mode}

module _ (event : AgentEvent) (text : String) (trajectory : AgentTrajectory) where
  -- The analyzer finds no match exactly when no rule matches.
  match_failure_mode-none :
      (rules : List EventRule)
      → match_failure_mode event text trajectory rules ≡ none
      → All (λ r. match_rule r event text trajectory ≡ none) rules
  unfolding match_failure_mode
  match_failure_mode-none [] h = tt
  match_failure_mode-none (rule ∷ rules) h =
      elim (Option-cases (match_rule rule event text trajectory)) [
        | inl e ↦ (e, match_failure_mode-none rules (rw (e, match_failure_mode) at h))
        | inr (m, e) ↦ (let bad : some m ≡ none = rw (e, match_failure_mode) at h in cc)
      ]

-- Every match of the rule names a mode of the taxonomy.
abbrev pub IsSeeded : EventRule → Type 0
IsSeeded rule =
    (event : AgentEvent) (text : String) (trajectory : AgentTrajectory) (matched : RuleMatch)
    → match_rule rule event text trajectory ≡ some matched
    → is_some (get_failure_mode matched.mode_id) ≡ true

mode_id-keyword :
    (rule : KeywordRule) (text : String) (matched : RuleMatch)
    → match_keyword rule text ≡ some matched
    → matched.mode_id ≡ rule.mode_id
unfolding match_keyword
mode_id-keyword rule text matched h = ground arith

mode_id-event_error :
    (event : AgentEvent) (matched : RuleMatch)
    → match_event_error event ≡ some matched
    → (matched.mode_id ≡ "system.tool_execution_error")
      ⊎ (matched.mode_id ≡ "system.environment_error")
unfolding match_event_error explicit_error
mode_id-event_error event matched h = ground arith

mode_id-structured_constraint :
    (event : AgentEvent) (matched : RuleMatch)
    → match_structured_constraint event ≡ some matched
    → matched.mode_id ≡ "planning.constraint_ignorance"
unfolding match_structured_constraint
mode_id-structured_constraint event matched h = ground arith

mode_id-metadata_status :
    (event : AgentEvent) (matched : RuleMatch)
    → match_metadata_status event ≡ some matched
    → matched.mode_id ≡ "system.environment_error"
unfolding match_metadata_status
mode_id-metadata_status event matched h = ground arith

mode_id-alfworld :
    (text : String) (trajectory : AgentTrajectory) (matched : RuleMatch)
    → match_alfworld text trajectory ≡ some matched
    → matched.mode_id ≡ "planning.inefficient_plan"
unfolding match_alfworld
mode_id-alfworld text trajectory matched h = ground arith

mode_id-webshop :
    (text : String) (trajectory : AgentTrajectory) (matched : RuleMatch)
    → match_webshop text trajectory ≡ some matched
    → matched.mode_id ≡ "planning.inefficient_plan"
unfolding match_webshop
mode_id-webshop text trajectory matched h = ground arith

abbrev IsMode : String → Type 0
IsMode id = is_some (get_failure_mode id) ≡ true

-- A keyword rule is seeded if its own mode is.
IsSeeded-keyword : (rule : KeywordRule) → IsMode rule.mode_id → IsSeeded (keyword rule)
unfolding match_rule
IsSeeded-keyword rule h event text trajectory matched e = rw (mode_id-keyword rule text matched e) h

IsSeeded-event_error : IsSeeded event_error
unfolding match_rule get_failure_mode seed_failure_modes
IsSeeded-event_error event text trajectory matched e = elim (mode_id-event_error event matched e) [
  | inl m ↦ rw m refl
  | inr m ↦ rw m refl
]

IsSeeded-structured_constraint : IsSeeded structured_constraint
unfolding match_rule get_failure_mode seed_failure_modes
IsSeeded-structured_constraint event text trajectory matched e =
    rw (mode_id-structured_constraint event matched e) refl

IsSeeded-metadata_status : IsSeeded metadata_status
unfolding match_rule get_failure_mode seed_failure_modes
IsSeeded-metadata_status event text trajectory matched e =
    rw (mode_id-metadata_status event matched e) refl

IsSeeded-alfworld : IsSeeded alfworld_no_op
unfolding match_rule get_failure_mode seed_failure_modes
IsSeeded-alfworld event text trajectory matched e =
    rw (mode_id-alfworld text trajectory matched e) refl

IsSeeded-webshop : IsSeeded webshop_no_progress
unfolding match_rule get_failure_mode seed_failure_modes
IsSeeded-webshop event text trajectory matched e =
    rw (mode_id-webshop text trajectory matched e) refl

-- All rules of the core pack and of the AgentErrorBench pack are seeded.
pub core_event_rules-IsSeeded : All IsSeeded core_event_rules
unfolding core_event_rules get_failure_mode seed_failure_modes
core_event_rules-IsSeeded = (
  IsSeeded-structured_constraint,
  (
    IsSeeded-keyword _ refl,
    (
      IsSeeded-keyword _ refl,
      (
        IsSeeded-keyword _ refl,
        (
          IsSeeded-keyword _ refl,
          (
            IsSeeded-keyword _ refl,
            (
              IsSeeded-keyword _ refl,
              (
                IsSeeded-keyword _ refl,
                (
                  IsSeeded-keyword _ refl,
                  (IsSeeded-keyword _ refl, (IsSeeded-event_error, (IsSeeded-metadata_status, tt))),
                ),
              ),
            ),
          ),
        ),
      ),
    ),
  ),
)

pub bench_event_rules-IsSeeded : All IsSeeded bench_event_rules
unfolding bench_event_rules
bench_event_rules-IsSeeded = (IsSeeded-alfworld, (IsSeeded-webshop, tt))
