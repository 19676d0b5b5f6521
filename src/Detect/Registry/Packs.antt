-- ===== src/Detect/Registry/Packs.antt =====
-- What the names of rule packs resolve to, and what the loaders make of them
-- (diagnose/detect/rules/registry.py).
use agent_debug_x.Base.{
  String, ◌≡◌, refl, ◌≢◌, Bool, true, false, ◌||◌, List, [], ◌∷◌, arith, All, All-append, contains,
  append_unique, append_unique-IsDistinct, IsDistinct, if◌then◌else◌, ◌==◌, string_eq, Bool-cases,
  inl, inr,
}
use agent_debug_x.Python.{ok, >>=-eq-ok}
use agent_debug_x.Schema.{AgentTrajectory}
use agent_debug_x.Detect.Registry.{
  RulePackSpec, available_rule_packs, requested_packs, detect_agenterrorbench, append_all,
  resolve_name, resolve_names, or_core, resolve_rule_pack_names,
}

abbrev pub IsKnown : String → Type 0
IsKnown pack = contains available_rule_packs pack ≡ true

-- The names that a caller may ask for: the packs, `auto` and `all`.
abbrev pub IsAccepted : String → Type 0
IsAccepted name = (name == "auto" || (name == "all" || contains available_rule_packs name)) ≡ true

-- What the resolution keeps true of its list: known packs, none twice.
pub record IsResolved (packs : List String) : Type 0 where
  pub known : All IsKnown packs
  pub distinct : IsDistinct packs

All-append_unique :
    (P : String → Type 0) (xs : List String) (a : String)
    → All P xs
    → P a
    → All P (append_unique xs a)
unfolding append_unique
All-append_unique P xs a h p = elim (Bool-cases (contains xs a)) [
  | inl e ↦ rw e h
  | inr e ↦ rw e (All-append P xs (a ∷ []) h (p, tt))
]

IsResolved-append_unique :
    (packs : List String) (pack : String)
    → IsResolved packs
    → IsKnown pack
    → IsResolved (append_unique packs pack)
IsResolved-append_unique packs pack r k = record {
  known = All-append_unique IsKnown packs pack r.known k;
  distinct = append_unique-IsDistinct packs pack r.distinct;
}

IsResolved-append_all :
    (packs more : List String)
    → IsResolved packs
    → All IsKnown more
    → IsResolved (append_all packs more)
unfolding append_all
IsResolved-append_all packs [] r h = r
IsResolved-append_all packs (pack ∷ more) r h =
    IsResolved-append_all (append_unique packs pack) more
      (IsResolved-append_unique packs pack r h.0) h.1

IsKnown-packs : IsKnown "core" × IsKnown "agenterrorbench" × All IsKnown available_rule_packs
unfolding contains available_rule_packs
IsKnown-packs = (refl, refl, (refl, (refl, (refl, tt))))

IsResolved-auto :
    (is_bench : Bool) (packs : List String)
    → IsResolved packs
    → IsResolved (
        if is_bench
        then append_unique (append_unique packs "core") "agenterrorbench"
        else append_unique packs "core")
IsResolved-auto true packs r =
    IsResolved-append_unique _ _ (IsResolved-append_unique _ _ r IsKnown-packs.0) IsKnown-packs.1
IsResolved-auto false packs r = IsResolved-append_unique _ _ r IsKnown-packs.0

-- A name that is accepted resolves, and to known packs.
resolve_name-accepted :
    (is_bench : Bool) (packs : List String) (name : String)
    → IsResolved packs
    → IsAccepted name
    → (out : List String) × (resolve_name is_bench packs name ≡ ok out) × IsResolved out
unfolding resolve_name
resolve_name-accepted is_bench packs name r a = elim (Bool-cases (name == "auto")) [
  | inl e ↦ rw e ((_, refl, IsResolved-auto is_bench packs r))
  | inr e ↦ elim (Bool-cases (name == "all")) [
    | inl f ↦
        rw (e, f) ((_, refl, IsResolved-append_all packs available_rule_packs r IsKnown-packs.2))
    | inr f ↦
        (let known : IsKnown name = ground arith in
          rw (e, f, known) ((_, refl, IsResolved-append_unique packs name r known)))
  ]
]

resolve_names-accepted :
    (is_bench : Bool) (packs names : List String)
    → IsResolved packs
    → All IsAccepted names
    → (out : List String) × (resolve_names is_bench packs names ≡ ok out) × IsResolved out
unfolding resolve_names
resolve_names-accepted is_bench packs [] r h = (packs, refl, r)
resolve_names-accepted is_bench packs (name ∷ names) r h =
    let (next, e, r') = resolve_name-accepted is_bench packs name r h.0 in
    rw e (resolve_names-accepted is_bench next names r' h.1)

IsResolved-or_core : (packs : List String) → IsResolved packs → IsResolved (or_core packs)
unfolding or_core contains
IsResolved-or_core [] r = record { known = (IsKnown-packs.0, tt); distinct = (refl, tt) }
IsResolved-or_core (pack ∷ packs) r = r

or_core-ne-nil : (packs : List String) → or_core packs ≢ []
unfolding or_core
or_core-ne-nil [] e = cc
or_core-ne-nil (pack ∷ packs) e = cc

-- If every requested name is a pack, `auto` or `all`, the names resolve, and to a list that is not
-- empty, holds known packs only and none of them twice.
pub resolve_rule_pack_names-IsResolved :
    (spec : RulePackSpec) (trajectory : AgentTrajectory)
    → All IsAccepted (requested_packs spec)
    → (packs : List String) × (resolve_rule_pack_names spec trajectory ≡ ok packs)
      × IsResolved packs
      × (packs ≢ [])
unfolding resolve_rule_pack_names
resolve_rule_pack_names-IsResolved spec trajectory h =
    let none_yet : IsResolved [] = record { known = tt; distinct = tt } in
    let (out, e, r) =
      resolve_names-accepted (detect_agenterrorbench trajectory) [] (requested_packs spec) none_yet
        h in
    rw e ((or_core out, refl, IsResolved-or_core out r, or_core-ne-nil out))

resolve_name-rejected :
    (is_bench : Bool) (packs : List String) (name : String) (out : List String)
    → resolve_name is_bench packs name ≡ ok out
    → IsAccepted name
unfolding resolve_name
resolve_name-rejected is_bench packs name out h = ground arith

resolve_names-rejected :
    (is_bench : Bool) (packs names out : List String)
    → resolve_names is_bench packs names ≡ ok out
    → All IsAccepted names
unfolding resolve_names
resolve_names-rejected is_bench packs [] out h = tt
resolve_names-rejected is_bench packs (name ∷ names) out h =
    let (next, e, f) =
      >>=-eq-ok (resolve_name is_bench packs name) (λ packs'. resolve_names is_bench packs' names)
        h in
    (
      resolve_name-rejected is_bench packs name next e,
      resolve_names-rejected is_bench next names out f,
    )

-- If the names resolve, every one of them is a pack, `auto` or `all`: any other name is refused.
resolve_rule_pack_names-IsAccepted :
    (spec : RulePackSpec) (trajectory : AgentTrajectory) (packs : List String)
    → resolve_rule_pack_names spec trajectory ≡ ok packs
    → All IsAccepted (requested_packs spec)
unfolding resolve_rule_pack_names
resolve_rule_pack_names-IsAccepted spec trajectory packs h =
    let (out, e, f) =
      >>=-eq-ok (resolve_names (detect_agenterrorbench trajectory) [] (requested_packs spec))
        (λ resolved. ok (or_core resolved)) h in
    resolve_names-rejected (detect_agenterrorbench trajectory) [] (requested_packs spec) out e
