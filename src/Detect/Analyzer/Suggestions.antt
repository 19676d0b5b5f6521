-- ===== src/Detect/Analyzer/Suggestions.antt =====
-- The suggestions that diagnose/detect/analyzers.py lists in its report.
use agent_debug_x.Base.{
  String, ◌≡◌, ◌||◌, some, List, [], ◌∷◌, arith, Option-cases, inl, inr, IsDistinct, append_unique,
  append_unique-IsDistinct, contains-append_unique, contains, any, ◌==◌, string_eq, option_eq,
}
use agent_debug_x.Schema.{FailureFinding}
use agent_debug_x.Detect.Analyzer.{dedupe_suggestions}

dedupe_suggestions-IsDistinct :
    (result : List String) (findings : List FailureFinding)
    → IsDistinct result
    → IsDistinct (dedupe_suggestions result findings)
unfolding dedupe_suggestions
dedupe_suggestions-IsDistinct result [] d = d
dedupe_suggestions-IsDistinct result (f ∷ fs) d = elim (Option-cases f.suggestion) [
  | inl e ↦ rw (e, dedupe_suggestions) (dedupe_suggestions-IsDistinct result fs d)
  | inr (s, e) ↦
      rw (e, dedupe_suggestions)
        (dedupe_suggestions-IsDistinct (append_unique result s) fs
          (append_unique-IsDistinct result s d))
]

contains-dedupe_suggestions :
    (result : List String) (findings : List FailureFinding) (s : String)
    → contains (dedupe_suggestions result findings) s
      ≡ (contains result s || any (λ f. f.suggestion == some s) findings)
unfolding dedupe_suggestions any
contains-dedupe_suggestions result [] s = ground arith
contains-dedupe_suggestions result (f ∷ fs) s = elim (Option-cases f.suggestion) [
  | inl e ↦ rw (e, dedupe_suggestions) (contains-dedupe_suggestions result fs s)
  | inr (t, e) ↦
      rw (e, dedupe_suggestions)
        (rw (contains-dedupe_suggestions (append_unique result t) fs s)
          (ground (arith, contains-append_unique result t s)))
]

-- The report lists every suggestion of its findings, no other text, and none twice.
dedupe_suggestions-lists :
    (findings : List FailureFinding)
    → IsDistinct (dedupe_suggestions [] findings)
      × ((s : String)
          → contains (dedupe_suggestions [] findings) s
            ≡ any (λ f. f.suggestion == some s) findings)
unfolding contains
dedupe_suggestions-lists findings =
    (dedupe_suggestions-IsDistinct [] findings tt, λ s. contains-dedupe_suggestions [] findings s)
