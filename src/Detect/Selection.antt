-- ===== src/Detect/Selection.antt =====
-- diagnose/detect/selection.py: the policies that pick one root cause out of many findings. A
-- policy sorts the findings by a key and takes the first; keys are compared like Python's tuples.
pub mod Order
use agent_debug_x.Base.{
  ℕ, String, ◌+++◌, Bool, true, false, Option, List, first?, sort_by, leb, ltb, if◌then◌else◌,
  or_else, is_some, ◌==◌, string_eq,
}
use agent_debug_x.Python.{Result, ok, err, value_error}
use agent_debug_x.Schema.{FailureFinding, confidence_or_default}

-- The stand-in for a missing step, 10**9
abbrev pub no_step : ℕ
no_step = 1000000000

-- `f.step_index is None` counts as 1
unfoldable pub missing_step : FailureFinding → ℕ
missing_step f = if is_some f.step_index then 0 else 1

unfoldable pub step_or_last : FailureFinding → ℕ
step_or_last f = or_else f.step_index no_step

unfoldable pub confidence_of : FailureFinding → ℕ
confidence_of f = confidence_or_default f.confidence

-- `a <= b` on tuples: `rest` is asked where the first components are equal.
unfoldable pub lex : ℕ → ℕ → Bool → Bool
lex a b rest = if ltb a b then true else (if ltb b a then false else rest)

-- The key (step is None, step, -confidence)
unfoldable pub earliest_le : FailureFinding → FailureFinding → Bool
earliest_le f g =
    lex (missing_step f) (missing_step g)
      (lex (step_or_last f) (step_or_last g) (leb (confidence_of g) (confidence_of f)))

-- The key (-confidence, step is None, step)
unfoldable pub confident_le : FailureFinding → FailureFinding → Bool
confident_le f g =
    lex (confidence_of g) (confidence_of f)
      (lex (missing_step f) (missing_step g) (leb (step_or_last f) (step_or_last g)))

unfoldable pub earliest_finding : List FailureFinding → Option FailureFinding
unfolding earliest_le lex missing_step step_or_last confidence_of
earliest_finding findings = first? (sort_by earliest_le findings)

unfoldable pub most_confident_finding : List FailureFinding → Option FailureFinding
unfolding confident_le lex missing_step step_or_last confidence_of
most_confident_finding findings = first? (sort_by confident_le findings)

unfoldable pub get_selector : String → Result (List FailureFinding → Option FailureFinding)
get_selector name =
    if name == "earliest"
    then ok earliest_finding
    else if name == "confident"
    then ok most_confident_finding
    else err (
        value_error
          ("unknown root selector '" +++ name +++ "'; expected one of ['confident', 'earliest']"))
