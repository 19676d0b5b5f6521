-- ===== src/Samples/RepositoryRuns.antt =====
-- The theorems on the repository of captures, applied to one delivery.
use agent_debug_x.Base.{
  ◌≡◌, refl, true, none, some, [], ◌∷◌, ◌+◌, ◌++◌, length, All, find_first, any,
}
use agent_debug_x.Python.{ok, end}
use agent_debug_x.Capture.Tables.{
  CaptureReceipt, CaptureRequest, TranscriptSnapshot, ResultMetadata, Store, load_receipt,
  has_receipt_id, new_receipt, is_terminal, committed_receipt, captured_trace, boundary_taken,
  has_boundary,
}
use agent_debug_x.Capture.Repository.{
  begin_receipt, commit_capture, write_capture, project_of, reconcile_prior_receipts,
  list_replayable, status_of,
}
use agent_debug_x.Capture.Repository.Receipts.{commit_capture-commit_capture}
use agent_debug_x.Capture.Repository.History.{
  begun, superseded, now, later, IsClosed, History-IsClosed,
}
use agent_debug_x.Capture.Repository.Traces.{
  IsWellKept, IsOnlyOpen, commit_capture-IsWellKept, list_replayable-reconcile_prior_receipts,
}
use agent_debug_x.Capture.Repository.Summary.{status_of-list_replayable}
use agent_debug_x.Capture.Artifacts.{session_traces}
use agent_debug_x.Capture.Artifacts.Index.{commit_capture-session_traces}
use agent_debug_x.Samples.Traces.{is_ok, ok_of, run}

abbrev empty : Store
empty = record { receipts = []; sessions = []; traces = []; trajectories = [] }

abbrev request : CaptureRequest
request = record {
  notification = record {
    host = "claude_code";
    event_name = "Stop";
    session_id = "s1";
    transcript_path = "/t/s1.jsonl";
    cwd = "/p";
    observed_at = 3;
    native_event_id = none;
    task = none;
    session_end_reason = none;
    native_payload = end;
  };
  project_id = "p1";
  trace_id = "t1";
  receipt_id = "r1";
  logical_boundary_kind = "turn";
  source_version = "1";
}

abbrev snapshot : TranscriptSnapshot
snapshot = record {
  path = "/t/s1.jsonl";
  complete_bytes = 10 ∷ [];
  complete_size = 1;
  content_sha256 = "abc";
  last_record_sha256 = "def";
  records = [];
  ignored_tail_bytes = 0;
}

abbrev metadata : ResultMetadata
metadata = record {
  project_id = some "p1";
  boundary_id = some "b1";
  warnings = [];
  adapter_version = none;
  duration_ms = some 4;
}

abbrev one_receipt : Store
one_receipt = record empty { receipts = new_receipt request ∷ [] }

commits : is_ok (commit_capture 5 "r1" run snapshot metadata one_receipt) ≡ true
unfolding commit_capture load_receipt find_first has_receipt_id new_receipt is_terminal
    write_capture any project_of boundary_taken has_boundary
commits = refl

abbrev stored : Store
stored = (ok_of (commit_capture 5 "r1" run snapshot metadata one_receipt) commits).0

commit_capture-commit_capture_example :
    commit_capture 9 "r1" run snapshot metadata stored ≡ ok stored
commit_capture-commit_capture_example =
    commit_capture-commit_capture 5 9 "r1" run run snapshot snapshot metadata metadata one_receipt
      stored (ok_of (commit_capture 5 "r1" run snapshot metadata one_receipt) commits).1

abbrev closed_receipt : CaptureReceipt
closed_receipt = committed_receipt snapshot metadata (new_receipt request)

abbrev closed_store : Store
closed_store = record empty { receipts = closed_receipt ∷ [] }

closed_store-IsClosed : IsClosed "r1" closed_receipt closed_store
unfolding load_receipt find_first has_receipt_id is_terminal committed_receipt new_receipt
closed_store-IsClosed = record { found = refl; terminal = refl }

History-IsClosed_example :
    IsClosed "r1" closed_receipt
      (reconcile_prior_receipts "p1" "claude_code" "s1" "r2" (begin_receipt request closed_store).0)
History-IsClosed_example =
    History-IsClosed "r1" closed_receipt closed_store _
      (later _ _ _ (begun request closed_store) (
        later _ _ _ (superseded "p1" "claude_code" "s1" "r2" (begin_receipt request closed_store).0)
          (now _)))
      closed_store-IsClosed

commit_capture-IsWellKept_example : IsWellKept stored.traces
commit_capture-IsWellKept_example =
    commit_capture-IsWellKept 5 "r1" run snapshot metadata one_receipt stored
      (record { distinct = tt; ordered = tt })
      (ok_of (commit_capture 5 "r1" run snapshot metadata one_receipt) commits).1

list_replayable-reconcile_prior_receipts_example :
    All (IsOnlyOpen "p1" "claude_code" "s1" "r2") (
      list_replayable "p1" none (reconcile_prior_receipts "p1" "claude_code" "s1" "r2" one_receipt))
list_replayable-reconcile_prior_receipts_example =
    list_replayable-reconcile_prior_receipts "p1" "claude_code" "s1" "r2" none one_receipt

commit_capture-session_traces_example :
    session_traces "claude_code" "s1" stored.traces
    ≡ session_traces "claude_code" "s1" []
      ++ captured_trace 5 (new_receipt request) run metadata [] ∷ []
unfolding load_receipt find_first has_receipt_id new_receipt is_terminal
commit_capture-session_traces_example =
    commit_capture-session_traces 5 "r1" run snapshot metadata one_receipt stored
      (new_receipt request) (record { distinct = tt; ordered = tt }) refl refl
      (ok_of (commit_capture 5 "r1" run snapshot metadata one_receipt) commits).1

status_of-list_replayable_example :
    (status_of "p1" (some "claude_code") one_receipt).pending_receipts
      + (status_of "p1" (some "claude_code") one_receipt).failed_receipts
    ≡ length (list_replayable "p1" (some "claude_code") one_receipt)
status_of-list_replayable_example = status_of-list_replayable "p1" (some "claude_code") one_receipt
