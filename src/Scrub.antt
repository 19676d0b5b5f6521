-- ===== src/Scrub.antt =====
-- hub/scrub.py: the scrubber, over the list of redactions with which it is built. The source's
-- default list is made of regular expressions, which are not modelled: a redaction is its name and
-- the function that `pattern.subn(replacement, text)` computes.
pub mod Leaves
pub mod Trajectories
use agent_debug_x.Base.{
  ℕ, zero, ◌+◌, String, Option, none, some, List, [], ◌∷◌, Dict, lookup, insert, or_else, string_eq,
  nat_beq, if◌then◌else◌,
}
use agent_debug_x.Python.{
  Value, Items, Fields, null, bool, int, float, str, list, tuple, dict, nil, cons, end, field,
}
use agent_debug_x.Schema.{AgentEvent, AgentTrajectory}

pub record Redaction : Type 0 where
  pub name : String
  -- the new text, and the number of replacements
  pub subn : String → String × ℕ

pub record ScrubReport : Type 0 where
  pub fields_visited : ℕ
  pub replacements : Dict String ℕ

unfoldable pub new_report : ScrubReport
new_report = record { fields_visited = 0; replacements = [] }

-- `ScrubReport.total`
unfoldable pub sum_values : Dict String ℕ → ℕ
sum_values [] = 0
sum_values ((name, n) ∷ rest) = n + sum_values rest

unfoldable pub total : ScrubReport → ℕ
unfolding sum_values
total report = sum_values report.replacements

-- `report.replacements[name] = report.replacements.get(name, 0) + n`
unfoldable pub count_replacements : String → ℕ → ScrubReport → ScrubReport
count_replacements name n report = record report {
  replacements = insert report.replacements name (or_else (lookup report.replacements name) 0 + n);
}

unfoldable pub apply_redaction : Redaction → String → ScrubReport → String × ScrubReport
unfolding count_replacements
apply_redaction redaction text report =
    let (new, n) = redaction.subn text in
    if nat_beq n 0 then (text, report) else (new, count_replacements redaction.name n report)

unfoldable pub scrub_text : List Redaction → String → ScrubReport → String × ScrubReport
scrub_text [] text report = (text, report)
scrub_text (redaction ∷ redactions) text report =
    let (text', report') = apply_redaction redaction text report in
    scrub_text redactions text' report'

abbrev pub visit : ScrubReport → ScrubReport
visit report = record report { fields_visited = report.fields_visited + 1 }

module _ (redactions : List Redaction) where
  unfoldable mutual
    pub scrub_value : Value → ScrubReport → Value × ScrubReport
    scrub_value (str text) report =
        let (text', report') = scrub_text redactions text (visit report) in (str text', report')
    scrub_value (dict d) report =
        let (d', report') = scrub_fields d (visit report) in (dict d', report')
    scrub_value (list xs) report =
        let (xs', report') = scrub_items xs (visit report) in (list xs', report')
    scrub_value (tuple xs) report =
        let (xs', report') = scrub_items xs (visit report) in (tuple xs', report')
    scrub_value value report = (value, visit report)

    pub scrub_items : Items → ScrubReport → Items × ScrubReport
    scrub_items nil report = (nil, report)
    scrub_items (cons v xs) report =
        let (v', report') = scrub_value v report in
        let (xs', report'') = scrub_items xs report' in (cons v' xs', report'')

    pub scrub_fields : Fields → ScrubReport → Fields × ScrubReport
    scrub_fields end report = (end, report)
    scrub_fields (field key v rest) report =
        let (v', report') = scrub_value v report in
        let (rest', report'') = scrub_fields rest report' in (field key v' rest', report'')

  -- `if value is not None: value = self.scrub_value(value)`
  unfoldable pub scrub_present : Value → ScrubReport → Value × ScrubReport
  scrub_present null report = (null, report)
  scrub_present value report = scrub_value value report

  unfoldable pub scrub_optional : Option String → ScrubReport → Option String × ScrubReport
  scrub_optional none report = (none, report)
  scrub_optional (some text) report =
      let (text', report') = scrub_text redactions text report in (some text', report')

  unfoldable pub scrub_event : AgentEvent → ScrubReport → AgentEvent × ScrubReport
  unfolding scrub_present scrub_optional
  scrub_event event report =
      let (input', report₁) = scrub_present event.input report in
      let (output', report₂) = scrub_present event.output report₁ in
      let (error', report₃) = scrub_optional event.error report₂ in
      let (metadata', report₄) = scrub_fields event.metadata report₃ in
      (
        record event { input = input'; output = output'; error = error'; metadata = metadata' },
        report₄,
      )

  unfoldable pub scrub_events : List AgentEvent → ScrubReport → List AgentEvent × ScrubReport
  scrub_events [] report = ([], report)
  scrub_events (event ∷ events) report =
      let (event', report') = scrub_event event report in
      let (events', report'') = scrub_events events report' in (event' ∷ events', report'')

  unfoldable pub scrub_trajectory : AgentTrajectory → AgentTrajectory × ScrubReport
  scrub_trajectory trajectory =
      let (goal', report₁) = scrub_optional trajectory.goal new_report in
      let (metadata', report₂) = scrub_fields trajectory.metadata report₁ in
      let (events', report₃) = scrub_events trajectory.events report₂ in
      (record trajectory { goal = goal'; metadata = metadata'; events = events' }, report₃)
