-- ===== src/Samples/ServiceRuns.antt =====
-- The theorems on the capture service, applied to one notification of a turn that ended.
use agent_debug_x.Base.{
  ℕ, ◌≡◌, refl, true, Option, none, some, List, [], ◌∷◌, ◌+◌, ◌++◌, lookup, find_first, all,
  contains, any, insert,
}
use agent_debug_x.Python.{
  Result, ◌>>=◌, ok, err, end, dict, has_prefix, join, is_in, get_value, split, show_nat,
}
use agent_debug_x.Capture.Tables.{
  HookNotification, Store, load_session, is_terminal, load_receipt, new_receipt,
  load_boundary_receipt, has_boundary, has_receipt_id, boundary_taken,
}
use agent_debug_x.Capture.Contracts.{
  CaptureConfig, HostCaptureAdapter, Surroundings, Clock, CaptureService, CaptureResult,
  CaptureStatus, captured, no_op,
}
use agent_debug_x.Capture.Service.{
  handle, deliver, handle_loaded, respond, settle, handle_enabled, capture_transcript,
  capture_snapshot, record_prepared, prepare, commit, captured_result, reconcile,
}
use agent_debug_x.Capture.Outcome.{
  enabled_config, is_other_receipt, is_empty, is_same_content, is_same_end,
}
use agent_debug_x.Samples.Traces.{run, is_ok, ok_of}
use agent_debug_x.Capture.Admission.{
  check, text_at, early_answer, admit, admission, is_within, request_of, source_version_of, Checked,
}
use agent_debug_x.Capture.Snapshot.{
  lines_from, is_blank, read_records, rfind_newline, read_complete_jsonl, complete_size_of,
  read_record,
}
use agent_debug_x.Capture.Repository.{begin_receipt, commit_capture, project_of, write_capture}
use agent_debug_x.Capture.Exclusion.{
  runs_agentdebug, starts_turn, exclusions, is_agentdebug_call, excluded_by, text_runs_agentdebug,
  managed_skill_path, is_reasoning, is_owned,
}
use agent_debug_x.Scrub.{scrub_trajectory, scrub_events}
use agent_debug_x.Capture.Filtering.{keep_events, select_events, prepare_for_capture}
use agent_debug_x.Capture.Bounding.{bound_events, max_trajectory_chars}
use agent_debug_x.Schema.{is_type}
use agent_debug_x.Capture.Identity.{receipt_id_for, digest}
use mathlib.Core.Option.{some-injective}
use agent_debug_x.Capture.Repository.History.{History}
use agent_debug_x.Capture.Service.Traced.{handle-History}
use agent_debug_x.Capture.Service.Stores.{IsStored}
use agent_debug_x.Capture.Service.Handled.{IsChecked, handle-IsStored}
use agent_debug_x.Capture.Service.Repeated.{handle-handle}
use agent_debug_x.Capture.Service.Answers.{IsTame, handle-ok}
use agent_debug_x.Capture.Snapshot.Lines.{
  IsSnapshot, read_complete_jsonl-IsSnapshot, read_complete_jsonl-append,
}

abbrev pub empty : Store
empty = record { receipts = []; sessions = []; traces = []; trajectories = [] }

abbrev pub config : CaptureConfig
config = record {
  schema_version = 2;
  project_root = "/p";
  store_path = "/p/s";
  platforms = ("codex", record { enabled = true; capture_events = "Stop" ∷ [] }) ∷ [];
}

abbrev adapter : HostCaptureAdapter
adapter = record {
  host = "codex";
  event_boundaries = ("Stop", "turn") ∷ [];
  version = none;
  validate_transcript_path = λ notification. ok notification.transcript_path;
  normalize = λ notification snapshot trace_id. ok (record run { trace_id = trace_id });
}

-- One record, `{}`, and the beginning of another
abbrev pub around : Surroundings
around = record {
  config = ok (some config);
  resolve = λ path. path;
  stat = λ path. ok (record { st_size = 4; st_mtime_ns = 1 });
  read_bytes = λ path. ok (123 ∷ 125 ∷ 10 ∷ 123 ∷ []);
  opened = ok tt;
  reconciles = ok tt;
  loads = λ line. ok (dict end);
  sha256 = λ bytes. "digest";
  hexdigest = λ text. text;
  dumps = λ payload. "{}";
  payload_size = λ event. 10;
  redactions = [];
}

abbrev pub service : CaptureService
service = record { project_root = "/p"; adapter = adapter; session_end_deadline_ms = 800 }

abbrev pub clock : Clock
clock = record { time = 5; at_deadline = 1; at_close = 2; at_end = 3 }

abbrev pub notification : HookNotification
notification = record {
  host = "codex";
  event_name = "Stop";
  session_id = "s";
  transcript_path = "/t";
  cwd = "/p/a";
  observed_at = 3;
  native_event_id = none;
  task = none;
  session_end_reason = none;
  native_payload = end;
}

outcome : Result CaptureResult × Store
outcome = handle service around clock notification empty

abbrev result_status : Result CaptureResult → Option CaptureStatus
result_status (ok result) = some result.status
result_status (err raised) = none

outcome-captured : result_status outcome.0 ≡ some captured
unfolding outcome handle find_first lookup admission admit check early_answer is_within text_at
    deliver enabled_config handle_enabled handle_loaded respond settle is_terminal load_session
    has_prefix all request_of begin_receipt capture_snapshot capture_transcript is_other_receipt
    complete_size_of is_blank lines_from read_complete_jsonl read_record read_records rfind_newline
    has_boundary load_boundary_receipt load_receipt new_receipt any contains bound_events exclusions
    is_agentdebug_call runs_agentdebug starts_turn keep_events prepare_for_capture select_events
    is_empty is_same_content prepare record_prepared is_type scrub_events scrub_trajectory insert
    max_trajectory_chars excluded_by is_owned is_reasoning managed_skill_path text_runs_agentdebug
    digest receipt_id_for commit_capture commit is_same_end has_receipt_id get_value is_in join
    split source_version_of project_of write_capture captured_result reconcile boundary_taken
    show_nat
outcome-captured = refl

abbrev answer_of :
    (outcome : Result CaptureResult × Store)
    → result_status outcome.0 ≡ some captured
    → (result : CaptureResult) × (outcome ≡ (ok result, outcome.1)) × (result.status ≡ captured)
answer_of (ok result, store) h = (result, refl, some-injective result.status captured h)
answer_of (err raised, store) h = cc

abbrev answer : CaptureResult
answer = (answer_of outcome outcome-captured).0

handle-IsStored_example :
    (checked : Checked) × IsChecked service around notification checked
    × IsStored (request_of service around notification checked).receipt_id answer outcome.1
unfolding outcome
handle-IsStored_example =
    let (_, delivered, status) = answer_of outcome outcome-captured in
    handle-IsStored service around clock notification answer empty outcome.1 delivered status

handle-handle_example :
    (again : CaptureResult) × (handle service around
        (record clock { time = 9 })
        notification
        outcome.1
      ≡ (ok again, outcome.1))
    × (again.status ≡ no_op)
unfolding outcome
handle-handle_example =
    let (_, delivered, status) = answer_of outcome outcome-captured in
    handle-handle service around clock (record clock { time = 9 }) notification answer empty
      outcome.1 delivered status

handle-History_example : History empty outcome.1
unfolding outcome
handle-History_example = handle-History service around clock refl notification empty

abbrev tame : IsTame service around
tame = record {
  loaded = some config;
  loads = refl;
  opens = record { quiet = tt };
  reconciles = record { quiet = tt };
  parses = λ line. record { quiet = tt };
  stats = λ path. record { quiet = tt };
  reads = λ path. record { quiet = tt };
  validates = λ n. record { quiet = tt };
  normalizes = λ n snapshot trace_id. record { quiet = tt };
}

handle-ok_example :
    (again : CaptureResult) × ((handle service around clock notification empty).0 ≡ ok again)
handle-ok_example = handle-ok service around tame clock notification empty

abbrev bytes : List ℕ
bytes = 123 ∷ 125 ∷ 10 ∷ 123 ∷ []

read_complete_jsonl-append_example :
    read_complete_jsonl around.loads around.sha256 "/t" (bytes ++ 34 ∷ []) ≡ (
      read_complete_jsonl around.loads around.sha256 "/t" bytes >>= λ snapshot.
      ok (record snapshot { ignored_tail_bytes = snapshot.ignored_tail_bytes + 1 }))
unfolding any
read_complete_jsonl-append_example =
    read_complete_jsonl-append around.loads around.sha256 "/t" bytes (34 ∷ []) refl

reading : is_ok (read_complete_jsonl around.loads around.sha256 "/t" bytes) ≡ true
unfolding read_complete_jsonl read_records lines_from complete_size_of rfind_newline is_blank all
    read_record
reading = refl

read_complete_jsonl-IsSnapshot_example :
    IsSnapshot around.loads around.sha256 "/t" bytes
      (ok_of (read_complete_jsonl around.loads around.sha256 "/t" bytes) reading).0
read_complete_jsonl-IsSnapshot_example =
    read_complete_jsonl-IsSnapshot around.loads around.sha256 "/t" bytes
      (ok_of (read_complete_jsonl around.loads around.sha256 "/t" bytes) reading).0
      (ok_of (read_complete_jsonl around.loads around.sha256 "/t" bytes) reading).1
