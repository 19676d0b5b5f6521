-- ===== src/Detect/Registry.antt =====
-- diagnose/detect/rules/registry.py with the three manifests of the built-in packs.
pub mod Packs
pub mod Loading
use agent_debug_x.Base.{
  String, ◌+++◌, Bool, List, [], ◌∷◌, ◌++◌, any, contains, append_unique, leb, if◌then◌else◌, ◌==◌,
  string_eq, sort_by,
}
use agent_debug_x.Python.{Result, ok, err, Error, value_error, ◌>>=◌, is_in, join}
use agent_debug_x.Schema.{AgentTrajectory}
use agent_debug_x.Detect.Matching.{
  EventRule, rule_priority, core_event_rules, bench_event_rules, trajectory_haystack,
}
use agent_debug_x.Detect.Anomalies.{core_trajectory_rules}
use agent_debug_x.Detect.Findings.{TrajectoryRule, trajectory_rule_priority}

-- `_BUILTIN_PACKS`, which are the ids of the manifests too
unfoldable pub available_rule_packs : List String
available_rule_packs = "core" ∷ "agenterrorbench" ∷ "gui" ∷ []

-- The argument `rule_packs`: None, a name or a list of names
pub data RulePackSpec : Type 0 where
  unset : RulePackSpec
  one : String → RulePackSpec
  many : List String → RulePackSpec

unfoldable pub requested_packs : RulePackSpec → List String
requested_packs unset = "core" ∷ []
requested_packs (one name) = name ∷ []
requested_packs (many names) = names

unfoldable pub detect_agenterrorbench : AgentTrajectory → Bool
detect_agenterrorbench trajectory =
    any (λ (marker : String). is_in marker (trajectory_haystack trajectory))
      ("agenterrorbench" ∷ "alfworld" ∷ "webshop" ∷ [])

unfoldable pub unknown_pack : String → Error
unknown_pack name = value_error (
    "unknown rule pack '"
    +++ name
    +++ "'; available: "
    +++ join ", " available_rule_packs
    +++ ", auto, all")

unfoldable pub append_all : List String → List String → List String
append_all resolved [] = resolved
append_all resolved (pack ∷ packs) = append_all (append_unique resolved pack) packs

-- The body of the loop, for one name
unfoldable pub resolve_name : Bool → List String → String → Result (List String)
unfolding append_all unknown_pack
resolve_name is_bench resolved name =
    if name == "auto"
    then ok (
        let resolved' = append_unique resolved "core" in
        if is_bench then append_unique resolved' "agenterrorbench" else resolved')
    else if name == "all"
    then ok (append_all resolved available_rule_packs)
    else if contains available_rule_packs name
    then ok (append_unique resolved name)
    else err (unknown_pack name)

unfoldable pub resolve_names : Bool → List String → List String → Result (List String)
resolve_names is_bench resolved [] = ok resolved
resolve_names is_bench resolved (name ∷ names) =
    resolve_name is_bench resolved name >>= λ resolved'. resolve_names is_bench resolved' names

-- `if not resolved: resolved.append('core')`
unfoldable pub or_core : List String → List String
or_core [] = "core" ∷ []
or_core (pack ∷ packs) = pack ∷ packs

unfoldable pub resolve_rule_pack_names : RulePackSpec → AgentTrajectory → Result (List String)
unfolding or_core
resolve_rule_pack_names spec trajectory =
    resolve_names (detect_agenterrorbench trajectory) [] (requested_packs spec) >>= λ resolved.
    ok (or_core resolved)

-- `build_event_rules` and `build_trajectory_rules` of the module that a pack's manifest names
unfoldable pub pack_event_rules : String → Result (List EventRule)
pack_event_rules pack =
    if pack == "core"
    then ok core_event_rules
    else if pack == "agenterrorbench"
    then ok bench_event_rules
    else if pack == "gui"
    then ok []
    else err (unknown_pack pack)

unfoldable pub pack_trajectory_rules : String → Result (List TrajectoryRule)
pack_trajectory_rules pack =
    if pack == "core"
    then ok core_trajectory_rules
    else if pack == "agenterrorbench"
    then ok []
    else if pack == "gui"
    then ok []
    else err (unknown_pack pack)

-- The loop `rules.extend(build())` of the two loaders
unfoldable pub extend_rules {ℓ} :
    {A : Type ℓ} → (String → Result (List A)) → List A → List String → Result (List A)
extend_rules build rules [] = ok rules
extend_rules build rules (pack ∷ packs) =
    build pack >>= λ more. extend_rules build (rules ++ more) packs

unfoldable pub event_rule_le : EventRule → EventRule → Bool
event_rule_le r s = leb (rule_priority r) (rule_priority s)

unfoldable pub trajectory_rule_le : TrajectoryRule → TrajectoryRule → Bool
trajectory_rule_le r s = leb (trajectory_rule_priority r) (trajectory_rule_priority s)

unfoldable pub load_event_rules : List String → Result (List EventRule)
unfolding extend_rules event_rule_le
load_event_rules packs =
    extend_rules pack_event_rules [] packs >>= λ rules. ok (sort_by event_rule_le rules)

unfoldable pub load_trajectory_rules : List String → Result (List TrajectoryRule)
unfolding extend_rules trajectory_rule_le
load_trajectory_rules packs =
    extend_rules pack_trajectory_rules [] packs >>= λ rules. ok (sort_by trajectory_rule_le rules)
