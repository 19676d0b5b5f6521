-- ===== src/Schema/Confidence.antt =====
-- The public dictionary of a report (src/agentdebug/schema/models.py) and its confidences.
use agent_debug_x.Base.{
  ◌≡◌, refl, ◌⊎◌, inl, inr, Bool, true, false, ◌||◌, ◌==◌, string_eq, Bool-cases,
}
use agent_debug_x.Python.{
  Value, Items, Fields, null, bool, int, float, str, list, tuple, dict, nil, cons, end, field,
}
use agent_debug_x.Schema.Models.{
  DiagnosticReport, omits_confidence, without_confidence, without_confidence_items,
  without_confidence_fields, report_to_dict,
}

-- Whether a dictionary has a key `confidence`, at some depth of dictionaries and lists
unfoldable mutual
  pub has_confidence : Value → Bool
  has_confidence (dict d) = has_confidence_fields d
  has_confidence (list xs) = has_confidence_items xs
  has_confidence value = false

  pub has_confidence_items : Items → Bool
  has_confidence_items nil = false
  has_confidence_items (cons v xs) = has_confidence v || has_confidence_items xs

  pub has_confidence_fields : Fields → Bool
  has_confidence_fields end = false
  has_confidence_fields (field key v rest) =
      key == "confidence" || (has_confidence v || has_confidence_fields rest)

mutual
  unfolding without_confidence without_confidence_items without_confidence_fields has_confidence
      has_confidence_items has_confidence_fields

  cleared_value : (v : Value) → has_confidence (without_confidence v) ≡ false
  cleared_value (dict d) = cleared_fields d
  cleared_value (list xs) = cleared_items xs
  cleared_value (tuple xs) = refl
  cleared_value null = refl
  cleared_value (bool b) = refl
  cleared_value (int n) = refl
  cleared_value (float x) = refl
  cleared_value (str text) = refl

  cleared_items : (xs : Items) → has_confidence_items (without_confidence_items xs) ≡ false
  cleared_items nil = refl
  cleared_items (cons v xs) = rw (cleared_value v, cleared_items xs) refl

  cleared_fields : (d : Fields) → has_confidence_fields (without_confidence_fields d) ≡ false
  cleared_fields end = refl
  cleared_fields (field key v rest) = elim (Bool-cases (key == "confidence")) [
    | inl e ↦ rw e (cleared_fields rest)
    | inr e ↦ rw (e, e, cleared_value v, cleared_fields rest) refl
  ]

-- The public dictionary of a report of a deterministic analyzer has no key `confidence` at any depth
-- of dictionaries and lists. That of another analyzer's report is its payload.
pub report_to_dict-cases :
    (report : DiagnosticReport) (payload : Value)
    → ((omits_confidence report ≡ true) × (has_confidence (report_to_dict report payload) ≡ false))
      ⊎ ((omits_confidence report ≡ false) × (report_to_dict report payload ≡ payload))
unfolding report_to_dict
report_to_dict-cases report payload = elim (Bool-cases (omits_confidence report)) [
  | inl e ↦ rw e (inl (refl, cleared_value payload))
  | inr e ↦ rw e (inr (refl, refl))
]
