-- ===== src/Rerun/Observed.antt =====
-- What a live result that passes rerun/live_validation.py is known to be.
use agent_debug_x.Base.{
  ◌≤◌, ◌<◌, String, ◌≡◌, refl, ap, sym, ◌∙◌, Bool, true, false, not, Option, none, some, length,
  ltb, leb, if◌then◌else◌, string_eq, arith, or_else, ltb→lt, leb→le,
}
use agent_debug_x.Python.{
  Value, Fields, end, get_value, is_true, is_str, as_dict, as_bool, strip, str_or_empty, Result, ok,
  ◌>>=◌, >>=-eq-ok, require->>-eq-ok, ok-injective,
}
use agent_debug_x.Schema.{AgentTrajectory}
use agent_debug_x.Rerun.Request.{live_execution}
use agent_debug_x.Rerun.Live.{
  expect, as_count, is_empty_text, observed_tool_calls, ExecutionProof, check_proof,
  check_trajectory, parse_live_result,
}

-- What the checks of the object `execution` establish.
pub record IsProof (proof : ExecutionProof) : Type 0 where
  pub live : is_str (get_value proof.fields "mode") live_execution ≡ true
  pub observed : is_true (get_value proof.fields "observed_execution") ≡ true
  pub runner_declared : proof.runner ≡ strip (str_or_empty (get_value proof.fields "runner"))
  pub framework_declared :
      proof.framework ≡ strip (str_or_empty (get_value proof.fields "framework"))
  pub runner_named : is_empty_text proof.runner ≡ false
  pub framework_named : is_empty_text proof.framework ≡ false
  pub tools_counted : proof.tools_executed ≡ ltb 0 proof.tool_execution_count
  pub tools_declared : as_bool (get_value proof.fields "tools_executed") ≡ some proof.tools_executed
  pub count_declared :
      as_count (get_value proof.fields "tool_execution_count") ≡ some proof.tool_execution_count

-- A chain that returns has found its value.
expect->>=-eq-ok {ℓ κ} :
    {A : Type ℓ} {B : Type κ} (o : Option A) (message : String) (k : A → Result B) {b : B}
    → (expect o message >>= k) ≡ ok b
    → (a : A) × (o ≡ some a) × (k a ≡ ok b)
expect->>=-eq-ok none message k h = cc
expect->>=-eq-ok (some a) message k h = (a, refl, h)

not-true : (test : Bool) → not test ≡ true → test ≡ false
not-true test h = ground arith

agree : (tools : Bool) (test : Bool) → (if tools then test else not test) ≡ true → tools ≡ test
agree tools test h = ground arith

check_proof-IsProof :
    (fields : Fields) (proof : ExecutionProof)
    → check_proof fields ≡ ok proof
    → (proof.fields ≡ fields) × IsProof proof
unfolding check_proof
check_proof-IsProof fields proof h =
    let runner = strip (str_or_empty (get_value fields "runner")) in
    let framework = strip (str_or_empty (get_value fields "framework")) in
    let (live, h₁) = require->>-eq-ok (is_str (get_value fields "mode") live_execution) _ _ h in
    let (observed, h₂) =
      require->>-eq-ok (is_true (get_value fields "observed_execution")) _ _ h₁ in
    let (tools, declared, h₃) =
      expect->>=-eq-ok (as_bool (get_value fields "tools_executed")) _ _ h₂ in
    let (runner', h₄) = require->>-eq-ok (not (is_empty_text runner)) _ _ h₃ in
    let (framework', h₅) = require->>-eq-ok (not (is_empty_text framework)) _ _ h₄ in
    let (count, counted, h₆) =
      expect->>=-eq-ok (as_count (get_value fields "tool_execution_count")) _ _ h₅ in
    let (matched, h₇) =
      require->>-eq-ok (if tools then ltb 0 count else not (ltb 0 count)) _ _ h₆ in
    let built : ExecutionProof = record {
      fields = fields;
      tools_executed = tools;
      runner = runner;
      framework = framework;
      tool_execution_count = count;
    } in
    let same : built ≡ proof = ok-injective h₇ in
    rw (← same) (
      (
        refl,
        record {
          live = live;
          observed = observed;
          runner_declared = refl;
          framework_declared = refl;
          runner_named = not-true _ runner';
          framework_named = not-true _ framework';
          tools_counted = agree tools _ matched;
          tools_declared = declared;
          count_declared = counted;
        },
      ))

-- What holds of a trajectory and a proof holds of their equals.
along_equal {ℓ} :
    (P : AgentTrajectory → ExecutionProof → Type ℓ) {t u : AgentTrajectory} {p q : ExecutionProof}
    → t ≡ u
    → p ≡ q
    → P t p
    → P u q
along_equal P e f h = rw (← e, ← f) h

module _ (trajectory_from_json : Fields → Result AgentTrajectory) where
  -- A live result that is accepted carries an object `execution` that declares a live execution, that
  -- it was observed, a `runner` and a `framework` whose texts, stripped, are not empty, and a count of tool executions that is positive
  -- exactly if tools were executed; and a trajectory, parsed from the payload, that has events and at
  -- least as many tool calls as that count.
  pub parse_live_result-IsProof :
      (payload : Value) (trajectory : AgentTrajectory) (proof : ExecutionProof) (metadata : Fields)
      → parse_live_result trajectory_from_json payload ≡ ok (trajectory, proof, metadata)
      → IsProof proof
        × (0 < length trajectory.events)
        × (proof.tool_execution_count ≤ observed_tool_calls trajectory)
        × ((fields : Fields) × (content : Fields) × (as_dict payload ≡ some fields)
            × (as_dict (get_value fields "execution") ≡ some proof.fields)
            × (as_dict (get_value fields "trajectory") ≡ some content)
            × (trajectory_from_json content ≡ ok trajectory))
  unfolding parse_live_result check_trajectory
  parse_live_result-IsProof payload trajectory proof metadata h =
      let (fields, object, h₁) = expect->>=-eq-ok (as_dict payload) _ _ h in
      let (execution, carried, h₂) =
        expect->>=-eq-ok (as_dict (get_value fields "execution")) _ _ h₁ in
      let (checked, passed, h₃) = >>=-eq-ok (check_proof execution) _ h₂ in
      let (content, there, h₄) =
        expect->>=-eq-ok (as_dict (get_value fields "trajectory")) _ _ h₃ in
      let (parsed, read, h₅) = >>=-eq-ok (trajectory_from_json content) _ h₄ in
      let (accepted, good, h₆) = >>=-eq-ok (check_trajectory checked parsed) _ h₅ in
      let (events, g₁) = require->>-eq-ok (ltb 0 (length parsed.events)) _ _ good in
      let (enough, g₂) =
        require->>-eq-ok (leb checked.tool_execution_count (observed_tool_calls parsed)) _ _ g₁ in
      let triple : (accepted, checked, or_else (as_dict (get_value fields "metadata")) end)
          ≡ (trajectory, proof, metadata) =
        ok-injective h₆ in
      let same : parsed ≡ trajectory = ok-injective g₂ ∙ ap (λ x. x.0) triple in
      let (whose, valid) = check_proof-IsProof execution checked passed in
      along_equal
        (λ t p.
          (IsProof p
            × (0 < length t.events)
            × (p.tool_execution_count ≤ observed_tool_calls t)
            × ((fields : Fields) × (content : Fields) × (as_dict payload ≡ some fields)
                × (as_dict (get_value fields "execution") ≡ some p.fields)
                × (as_dict (get_value fields "trajectory") ≡ some content)
                × (trajectory_from_json content ≡ ok t))))
        same (ap (λ x. x.1) triple)
        (
          valid,
          ltb→lt 0 _ events,
          leb→le _ _ enough,
          (fields, content, object, carried ∙ ap some (sym whose), there, read),
        )
