-- ===== src/Scrub/Leaves.antt =====
-- What the scrubber of hub/scrub.py does to the texts of a value, and what its report counts.
use agent_debug_x.Base.{
  ℕ, ◌+◌, String, ◌≡◌, refl, ap, ◌∙◌, inl, inr, List, [], ◌∷◌, All, Dict, lookup, insert, or_else,
  string_eq, nat_beq, Bool-cases, arith,
}
use agent_debug_x.Python.{
  Value, Items, Fields, null, bool, int, float, str, list, tuple, dict, nil, cons, end, field,
  AllTexts, AllTextsItems, AllTextsFields, shape, shape_items, shape_fields, nodes, nodes_items,
  nodes_fields,
}
use agent_debug_x.Scrub.{
  Redaction, ScrubReport, sum_values, count_replacements, apply_redaction, scrub_text, visit,
  scrub_value, scrub_items, scrub_fields,
}

-- Adding to a counter adds as much to the sum.
pub sum_values-insert :
    (d : Dict String ℕ) (k : String) (n : ℕ)
    → sum_values (insert d k (or_else (lookup d k) 0 + n)) ≡ sum_values d + n
unfolding sum_values insert lookup
sum_values-insert [] k n = omega arith
sum_values-insert ((i, m) ∷ d) k n = elim (Bool-cases (string_eq.beq i k)) [
  | inl e ↦ rw e (omega arith)
  | inr e ↦ rw e (omega (arith, sum_values-insert d k n))
]

-- Whether or not it matches, the redaction leaves a text of which the predicate holds.
abbrev pub Establishes : (String → Type 0) → Redaction → Type 0
Establishes P redaction =
    (text : String) (report : ScrubReport) → P (apply_redaction redaction text report).0

abbrev pub Preserves : (String → Type 0) → Redaction → Type 0
Preserves P redaction =
    (text : String) (report : ScrubReport) → P text → P (apply_redaction redaction text report).0

-- Some redaction of the list establishes the predicate, and those behind it preserve it.
pub data Secures (P : String → Type 0) : List Redaction → Type 0 where
  here :
      (redaction : Redaction) (redactions : List Redaction)
      → Establishes P redaction
      → All (Preserves P) redactions
      → Secures P (redaction ∷ redactions)
  there :
      (redaction : Redaction) (redactions : List Redaction)
      → Secures P redactions
      → Secures P (redaction ∷ redactions)

scrub_text-preserves :
    (P : String → Type 0) (redactions : List Redaction) (text : String) (report : ScrubReport)
    → All (Preserves P) redactions
    → P text
    → P (scrub_text redactions text report).0
unfolding scrub_text
scrub_text-preserves P [] text report h p = p
scrub_text-preserves P (redaction ∷ redactions) text report h p =
    let (text', report') = apply_redaction redaction text report in
    scrub_text-preserves P redactions text' report' h.1 (h.0 text report p)

pub scrub_text-secured :
    (P : String → Type 0) (redactions : List Redaction)
    → Secures P redactions
    → (text : String) (report : ScrubReport) → P (scrub_text redactions text report).0
unfolding scrub_text
scrub_text-secured P _ (here redaction redactions e h) text report =
    let (text', report') = apply_redaction redaction text report in
    scrub_text-preserves P redactions text' report' h (e text report)
scrub_text-secured P _ (there redaction redactions s) text report =
    let (text', report') = apply_redaction redaction text report in
    scrub_text-secured P redactions s text' report'

-- No redaction changes how many fields were visited.
apply_redaction-visited :
    (redaction : Redaction) (text : String) (report : ScrubReport)
    → (apply_redaction redaction text report).1.fields_visited ≡ report.fields_visited
unfolding apply_redaction count_replacements
apply_redaction-visited redaction text report =
    elim (Bool-cases (nat_beq (redaction.subn text).1 0)) [
      | inl e ↦ rw (apply_redaction, e) refl
      | inr e ↦ rw (apply_redaction, e) refl
    ]

scrub_text-visited :
    (redactions : List Redaction) (text : String) (report : ScrubReport)
    → (scrub_text redactions text report).1.fields_visited ≡ report.fields_visited
unfolding scrub_text
scrub_text-visited [] text report = refl
scrub_text-visited (redaction ∷ redactions) text report =
    let (text', report') = apply_redaction redaction text report in
    scrub_text-visited redactions text' report' ∙ apply_redaction-visited redaction text report

module _ (redactions : List Redaction) (P : String → Type 0) (s : Secures P redactions) where
  mutual
    unfolding scrub_value scrub_items scrub_fields AllTexts AllTextsItems AllTextsFields shape
        shape_items shape_fields nodes nodes_items nodes_fields

    -- What the scrubbing of a value establishes.
    pub scrubbed_value :
        (v : Value) (r : ScrubReport)
        → let (v', r') = scrub_value redactions v r in
          AllTexts P v' × (shape v' ≡ shape v) × (r'.fields_visited ≡ r.fields_visited + nodes v)
    scrubbed_value (str text) r = (
      scrub_text-secured P redactions s text (visit r),
      refl,
      scrub_text-visited redactions text (visit r),
    )
    scrubbed_value (dict d) r =
        let (a, b, c) = scrubbed_fields d (visit r) in (a, ap dict b, omega (arith, c))
    scrubbed_value (list xs) r =
        let (a, b, c) = scrubbed_items xs (visit r) in (a, ap list b, omega (arith, c))
    scrubbed_value (tuple xs) r =
        let (a, b, c) = scrubbed_items xs (visit r) in (a, ap tuple b, omega (arith, c))
    scrubbed_value null r = (tt, refl, refl)
    scrubbed_value (bool b) r = (tt, refl, refl)
    scrubbed_value (int n) r = (tt, refl, refl)
    scrubbed_value (float x) r = (tt, refl, refl)

    pub scrubbed_items :
        (xs : Items) (r : ScrubReport)
        → let (xs', r') = scrub_items redactions xs r in
          AllTextsItems P xs'
          × (shape_items xs' ≡ shape_items xs)
          × (r'.fields_visited ≡ r.fields_visited + nodes_items xs)
    scrubbed_items nil r = (tt, refl, omega arith)
    scrubbed_items (cons v xs) r =
        let (a, b, c) = scrubbed_value v r in
        let (a', b', c') = scrubbed_items xs (scrub_value redactions v r).1 in
        ((a, a'), rw (b, b') refl, omega (arith, c, c'))

    pub scrubbed_fields :
        (d : Fields) (r : ScrubReport)
        → let (d', r') = scrub_fields redactions d r in
          AllTextsFields P d'
          × (shape_fields d' ≡ shape_fields d)
          × (r'.fields_visited ≡ r.fields_visited + nodes_fields d)
    scrubbed_fields end r = (tt, refl, omega arith)
    scrubbed_fields (field key v rest) r =
        let (a, b, c) = scrubbed_value v r in
        let (a', b', c') = scrubbed_fields rest (scrub_value redactions v r).1 in
        ((a, a'), rw (b, b') refl, omega (arith, c, c'))

  -- If some redaction establishes a property of texts, and those behind it preserve it, every text
  -- of a scrubbed value has the property; its shape is that of the value; and the report counts each
  -- value inside it once.
  scrub_value-IsSecured :
      (value : Value) (report : ScrubReport)
      → let (scrubbed, report') = scrub_value redactions value report in
        AllTexts P scrubbed
        × (shape scrubbed ≡ shape value)
        × (report'.fields_visited ≡ report.fields_visited + nodes value)
  scrub_value-IsSecured value report = scrubbed_value value report
