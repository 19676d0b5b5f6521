-- ===== src/Detect/Registry/Loading.antt =====
-- The loading of the rules of packs in diagnose/detect/rules/registry.py.
use mathlib.Core.Path.{subst}
use agent_debug_x.Base.{
  String, ◌≡◌, refl, true, false, List, [], ◌∷◌, ◌++◌, arith, All, All-append, All-append_of,
  contains, string_eq, inl, inr, ◌⊎◌, IsSorted, sort_by, sort_by-IsSorted, sort_by-All,
  sort_by-All_of, sym,
}
use agent_debug_x.Python.{Result, ok, ok-injective, >>=-eq-ok}
use agent_debug_x.Detect.Matching.{EventRule, core_event_rules, bench_event_rules}
use agent_debug_x.Detect.Anomalies.{core_trajectory_rules}
use agent_debug_x.Detect.Findings.{TrajectoryRule}
use agent_debug_x.Detect.Registry.{
  available_rule_packs, pack_event_rules, pack_trajectory_rules, extend_rules, load_event_rules,
  load_trajectory_rules, event_rule_le, trajectory_rule_le,
}
use agent_debug_x.Detect.Registry.Packs.{IsKnown}

known_cases :
    (pack : String) → IsKnown pack → (pack ≡ "core") ⊎ ((pack ≡ "agenterrorbench") ⊎ (pack ≡ "gui"))
unfolding contains available_rule_packs
known_cases pack k = ground (
  arith,
  string_eq.beq_iff "core" pack,
  string_eq.beq_iff "agenterrorbench" pack,
  string_eq.beq_iff "gui" pack,
)

-- A claim about every known pack holds if it holds of the three.
known_ind :
    (P : String → Type 0)
    → P "core"
    → P "agenterrorbench"
    → P "gui"
    → (pack : String) → IsKnown pack
    → P pack
known_ind P core bench gui pack k = elim (known_cases pack k) [
  | inl e ↦ subst P (sym e) core
  | inr rest ↦ elim rest [ inl e ↦ subst P (sym e) bench | inr e ↦ subst P (sym e) gui ]
]

-- A builder answers with rules that all satisfy the predicate.
abbrev pub Builds : {A : Type 0} → (A → Type 0) → Result (List A) → Type 0
Builds {A} P result = (rules : List A) × (result ≡ ok rules) × All P rules

extend_rules-Builds :
    {A : Type 0} (P : A → Type 0) (build : String → Result (List A))
    → ((pack : String) → IsKnown pack → Builds P (build pack))
    → (rules : List A) (packs : List String) → All P rules
    → All IsKnown packs
    → Builds P (extend_rules build rules packs)
unfolding extend_rules
extend_rules-Builds P build total rules [] p h = (rules, refl, p)
extend_rules-Builds P build total rules (pack ∷ packs) p h =
    let (more, e, q) = total pack h.0 in
    rw e (extend_rules-Builds P build total (rules ++ more) packs (All-append P rules more p q) h.1)

-- What holds of all the rules that a loader collects holds of those of each pack.
extend_rules-Builds_of :
    {A : Type 0} (P : A → Type 0) (build : String → Result (List A))
    → (rules : List A) (packs : List String) (loaded : List A)
    → extend_rules build rules packs ≡ ok loaded
    → All P loaded
    → All P rules × All (λ pack. Builds P (build pack)) packs
unfolding extend_rules
extend_rules-Builds_of P build rules [] loaded h p = (rw (ok-injective h) p, tt)
extend_rules-Builds_of P build rules (pack ∷ packs) loaded h p =
    let (more, e, h₁) = >>=-eq-ok (build pack) _ h in
    let (q, rest) = extend_rules-Builds_of P build (rules ++ more) packs loaded h₁ p in
    let (old, new) = All-append_of P rules more q in (old, ((more, e, new), rest))

-- What holds of every loaded rule holds of the rules of each pack.
pub load_event_rules-Builds :
    (P : EventRule → Type 0) (packs : List String) (rules : List EventRule)
    → load_event_rules packs ≡ ok rules
    → All P rules
    → All (λ pack. Builds P (pack_event_rules pack)) packs
unfolding load_event_rules
load_event_rules-Builds P packs rules h p =
    let (loaded, e, h₁) = >>=-eq-ok (extend_rules pack_event_rules [] packs) _ h in
    let all : All P (sort_by event_rule_le loaded) = rw (ok-injective h₁) p in
    (extend_rules-Builds_of P pack_event_rules [] packs loaded e
      (sort_by-All_of event_rule_le P loaded all)).1

pack_event_rules-Builds :
    (P : EventRule → Type 0)
    → All P core_event_rules
    → All P bench_event_rules
    → (pack : String) → IsKnown pack
    → Builds P (pack_event_rules pack)
unfolding pack_event_rules
pack_event_rules-Builds P core bench =
    known_ind (λ pack. Builds P (pack_event_rules pack)) (core_event_rules, refl, core)
      (bench_event_rules, refl, bench) ([], refl, tt)

AnyRule : TrajectoryRule → Type 0
AnyRule rule = Unit

All-AnyRule : (rules : List TrajectoryRule) → All AnyRule rules
unfolding AnyRule
All-AnyRule [] = tt
All-AnyRule (rule ∷ rules) = (tt, All-AnyRule rules)

pack_trajectory_rules-Builds :
    (pack : String) → IsKnown pack → Builds AnyRule (pack_trajectory_rules pack)
unfolding pack_trajectory_rules
pack_trajectory_rules-Builds =
    known_ind (λ pack. Builds AnyRule (pack_trajectory_rules pack))
      (core_trajectory_rules, refl, All-AnyRule core_trajectory_rules) ([], refl, tt) ([], refl, tt)

event_rule_le_total : (r s : EventRule) → event_rule_le r s ≡ false → event_rule_le s r ≡ true
unfolding event_rule_le
event_rule_le_total r s h = ground arith

event_rule_le_trans :
    (r s t : EventRule)
    → event_rule_le r s ≡ true
    → event_rule_le s t ≡ true
    → event_rule_le r t ≡ true
unfolding event_rule_le
event_rule_le_trans r s t p q = ground arith

-- From known packs the event rules load, in the order of their priorities; what holds of every rule
-- of the core pack and of the AgentErrorBench pack holds of each of them.
pub load_event_rules-known :
    (P : EventRule → Type 0) (packs : List String)
    → All P core_event_rules
    → All P bench_event_rules
    → All IsKnown packs
    → (rules : List EventRule) × (load_event_rules packs ≡ ok rules)
      × IsSorted event_rule_le rules
      × All P rules
unfolding load_event_rules
load_event_rules-known P packs core bench h =
    let (rules, e, p) =
      extend_rules-Builds P pack_event_rules (pack_event_rules-Builds P core bench) [] packs tt h in
    rw e (
      (
        sort_by event_rule_le rules,
        refl,
        sort_by-IsSorted event_rule_le event_rule_le_total event_rule_le_trans rules,
        sort_by-All event_rule_le P rules p,
      ))

-- From known packs the trajectory rules load.
pub load_trajectory_rules-known :
    (packs : List String)
    → All IsKnown packs
    → (rules : List TrajectoryRule) × (load_trajectory_rules packs ≡ ok rules)
unfolding load_trajectory_rules
load_trajectory_rules-known packs h =
    let (rules, e, p) =
      extend_rules-Builds AnyRule pack_trajectory_rules pack_trajectory_rules-Builds [] packs tt
        h in
    rw e ((sort_by trajectory_rule_le rules, refl))
