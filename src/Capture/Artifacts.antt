-- ===== src/Capture/Artifacts.antt =====
-- The copies of a session in files, which commit_capture of capture/repository.py writes: the path and
-- the text of each. The printing of JSON and of times, and SHA-256, are arguments.
pub mod Index
use Prim.Native.Char.{Char, code}
use agent_debug_x.Base.{
  ℕ, String, ◌+++◌, Bool, true, not, ◌&&◌, ◌||◌, List, [], ◌∷◌, map, keep, sort_by, ltb, leb,
  nat_beq, if◌then◌else◌, ◌==◌, string_eq,
}
use agent_debug_x.Python.{Value, str, list, dict, int, pos, field, end, to_items, show_nat}
use agent_debug_x.Schema.{AgentTrajectory}
use agent_debug_x.Capture.Tables.{CaptureReceipt, CaptureTrace}

-- `[A-Za-z0-9._-]`
unfoldable pub is_component_char : Char → Bool
is_component_char c =
    let n = code c in
    leb 97 n && leb n 122
    || (leb 65 n && leb n 90
        || (leb 48 n && leb n 57 || (nat_beq n 46 || (nat_beq n 95 || nat_beq n 45))))

unfoldable pub all_component_chars : String → Bool
all_component_chars String.[] = true
all_component_chars (String.◌∷◌ c s) = is_component_char c && all_component_chars s

-- `f'{sequence:04d}'`
unfoldable pub four_digits : ℕ → String
four_digits n =
    (if ltb n 10 then "000" else if ltb n 100 then "00" else if ltb n 1000 then "0" else "")
    +++ show_nat n

-- A row of `capture_traces` of that session
unfoldable pub is_trace_of : String → String → CaptureTrace → Bool
is_trace_of host session_id trace = trace.host == host && trace.session_id == session_id

unfoldable pub sequence_le : CaptureTrace → CaptureTrace → Bool
sequence_le trace other = leb trace.sequence other.sequence

-- `WHERE host = ? AND session_id = ? ORDER BY sequence`
unfoldable pub session_traces : String → String → List CaptureTrace → List CaptureTrace
session_traces host session_id traces =
    sort_by sequence_le (keep (is_trace_of host session_id) traces)

module _ (hexdigest : String → String) where
  -- `_path_component`
  unfoldable pub path_component : String → String
  path_component value =
      if not (value == "") && all_component_chars value then value else hexdigest value

  unfoldable pub session_dir : String → CaptureReceipt → String
  session_dir parent receipt =
      parent
      +++ "/sessions/"
      +++ path_component receipt.host
      +++ "/"
      +++ path_component receipt.session_id

module _ (isoformat : ℕ → String) where
  -- An entry of `traces` in session.json
  unfoldable pub trace_entry : CaptureTrace → Value
  trace_entry trace = dict (
      field "sequence" (int (pos trace.sequence)) (
        field "trace_id" (str trace.trace_id) (
          field "event_count" (int (pos trace.event_count))
            (field "created_at" (str (isoformat trace.created_at)) end))))

  unfoldable pub session_index : CaptureReceipt → ℕ → List CaptureTrace → Value
  session_index receipt now traces = dict (
      field "schema_version" (int (pos 1)) (
        field "host" (str receipt.host) (
          field "session_id" (str receipt.session_id) (
            field "updated_at" (str (isoformat now)) (
              field "traces"
                (list (
                  to_items
                    (map trace_entry (session_traces receipt.host receipt.session_id traces))))
                end)))))

  module _ (hexdigest : String → String) (dumps : Value → String)
      (model_to_json : AgentTrajectory → String) where
    -- `_write_session_artifacts`, with the rows of `capture_traces` once the new one is there
    unfoldable pub session_artifacts :
        String
        → CaptureReceipt
        → AgentTrajectory
        → ℕ
        → ℕ
        → List CaptureTrace
        → List (String × String)
    session_artifacts parent receipt trajectory sequence now traces =
        let dir = session_dir hexdigest parent receipt in
        (dir +++ "/traces/" +++ four_digits sequence +++ ".json", model_to_json trajectory +++ "\n")
        ∷ (dir +++ "/session.json", dumps (session_index receipt now traces) +++ "\n")
        ∷ []
