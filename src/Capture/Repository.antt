-- ===== src/Capture/Repository.antt =====
-- capture/repository.py: each operation takes the store and returns it, or the exception with which the
-- transaction is rolled back. The clock is an argument. The copies of a session that are written as
-- files are left out.
pub mod Receipts
pub mod History
pub mod Traces
pub mod Summary
use agent_debug_x.Base.{
  ℕ, String, Bool, true, false, not, ◌&&◌, ◌||◌, Option, none, some, List, [], ◌∷◌, ◌++◌, any, keep,
  count_if, if◌then◌else◌, leb, sort_by, ◌+++◌, ◌==◌, string_eq, option_eq, insert,
}
use agent_debug_x.Python.{
  ◌>>=◌, ◌>>◌, Result, ok, err, value_error, key_error, integrity_error, require,
}
use agent_debug_x.Schema.{AgentTrajectory}
use agent_debug_x.Capture.Tables.{
  CaptureReceipt, CaptureSession, Store, CaptureRequest, TranscriptSnapshot, ResultMetadata,
  is_terminal, has_receipt_id, new_receipt, load_receipt, is_session, update_where, boundary_taken,
  has_trace_id, ends_session, captured_session, upsert_session, committed_receipt, captured_trace,
  ReceiptStatus, no_op, failed, pending, committed, active, ended,
}

-- `begin_receipt`: `INSERT OR IGNORE`, then the row with that id
unfoldable pub begin_receipt : CaptureRequest → Store → Store × CaptureReceipt
begin_receipt request store = elim (load_receipt request.receipt_id store) [
  | some receipt ↦ (store, receipt)
  | none ↦
      (record store { receipts = store.receipts ++ new_receipt request ∷ [] }, new_receipt request)
]

-- `result_metadata['project_id']`
unfoldable pub project_of : Option String → Result String
project_of none = err (key_error "project_id")
project_of (some project_id) = ok project_id

-- The part of `commit_capture` behind the checks of the receipt. What raises leaves the transaction
-- rolled back.
unfoldable pub write_capture :
    ℕ
    → CaptureReceipt
    → AgentTrajectory
    → TranscriptSnapshot
    → ResultMetadata
    → Store
    → Result Store
write_capture now receipt trajectory snapshot metadata store = do
  require (not (any (has_trace_id trajectory.trace_id) store.traces))
      (integrity_error "capture_traces.trace_id")
  project_id ← project_of metadata.project_id
  require (not (boundary_taken receipt metadata.boundary_id store))
      (integrity_error "capture_boundary_once")
  ok (record {
    receipts =
        update_where (has_receipt_id receipt.receipt_id) (committed_receipt snapshot metadata)
          store.receipts;
    sessions =
        upsert_session (captured_session now receipt trajectory snapshot metadata project_id)
          store.sessions;
    traces = store.traces ++ captured_trace now receipt trajectory metadata store.traces ∷ [];
    trajectories = insert store.trajectories trajectory.trace_id trajectory;
  })

-- `commit_capture`
unfoldable pub commit_capture :
    ℕ → String → AgentTrajectory → TranscriptSnapshot → ResultMetadata → Store → Result Store
commit_capture now receipt_id trajectory snapshot metadata store =
    elim (load_receipt receipt_id store) [
      | none ↦ err (value_error ("unknown capture receipt: " +++ receipt_id))
      | some receipt ↦
          (if is_terminal receipt.status
            then ok store
            else write_capture now receipt trajectory snapshot metadata store)
    ]

-- The row of the receipt once it is closed without a capture. Its error stays.
unfoldable pub no_op_receipt : TranscriptSnapshot → ResultMetadata → CaptureReceipt → CaptureReceipt
no_op_receipt snapshot metadata receipt = record receipt {
  boundary_id = metadata.boundary_id;
  transcript_size = some snapshot.complete_size;
  status = no_op;
  warnings = metadata.warnings;
  duration_ms = metadata.duration_ms;
}

-- The update of the session at its start and at its end
unfoldable pub touched_session :
    ℕ → CaptureReceipt → TranscriptSnapshot → ResultMetadata → CaptureSession → CaptureSession
touched_session now receipt snapshot metadata session = record session {
  transcript_path = snapshot.path;
  transcript_size = snapshot.complete_size;
  transcript_sha256 = some snapshot.content_sha256;
  last_boundary_id = metadata.boundary_id;
  status = if ends_session receipt then ended else active;
  updated_at = now;
  ended_at = if ends_session receipt then some now else none;
}

unfoldable pub touch_sessions :
    ℕ
    → CaptureReceipt
    → TranscriptSnapshot
    → ResultMetadata
    → List CaptureSession
    → List CaptureSession
touch_sessions now receipt snapshot metadata sessions =
    if receipt.native_event_name == "SessionStart" || ends_session receipt
    then update_where (is_session receipt.host receipt.session_id)
        (touched_session now receipt snapshot metadata) sessions
    else sessions

-- `commit_no_op`
unfoldable pub commit_no_op :
    ℕ → String → TranscriptSnapshot → ResultMetadata → Store → Result Store
commit_no_op now receipt_id snapshot metadata store = elim (load_receipt receipt_id store) [
  | none ↦ err (value_error ("unknown capture receipt: " +++ receipt_id))
  | some receipt ↦
      (if boundary_taken receipt metadata.boundary_id store
        then err (integrity_error "capture_boundary_once")
        else ok (record store {
          receipts =
              update_where (has_receipt_id receipt_id) (no_op_receipt snapshot metadata)
                store.receipts;
          sessions = touch_sessions now receipt snapshot metadata store.sessions;
        }))
]

-- `mark_failed`: of any receipt, also of one that is terminal
unfoldable pub failed_receipt : String → ℕ → CaptureReceipt → CaptureReceipt
failed_receipt error duration_ms receipt = record receipt {
  status = failed;
  error = some error;
  duration_ms = some duration_ms;
}

unfoldable pub mark_failed : String → String → ℕ → Store → Store
mark_failed receipt_id error duration_ms store = record store {
  receipts =
      update_where (has_receipt_id receipt_id) (failed_receipt error duration_ms) store.receipts;
}

-- `status IN ('pending', 'failed')`
unfoldable pub is_open : CaptureReceipt → Bool
is_open receipt = not (is_terminal receipt.status)

-- `list_replayable`. Receipts observed at the same time keep the order in which they came.
unfoldable pub is_replayable : String → Option String → CaptureReceipt → Bool
is_replayable project_id host receipt =
    is_open receipt
    && (receipt.project_id == project_id
        && elim host [ none ↦ true | some name ↦ receipt.host == name ])

unfoldable pub observed_le : CaptureReceipt → CaptureReceipt → Bool
observed_le receipt other = leb receipt.observed_at other.observed_at

unfoldable pub list_replayable : String → Option String → Store → List CaptureReceipt
list_replayable project_id host store =
    sort_by observed_le (keep (is_replayable project_id host) store.receipts)

unfoldable pub reconciled_receipt : String → CaptureReceipt → CaptureReceipt
reconciled_receipt warning receipt = record receipt {
  status = no_op;
  error = none;
  warnings = warning ∷ [];
}

-- `mark_reconciled`
unfoldable pub mark_reconciled : String → Store → Store
mark_reconciled receipt_id store = record store {
  receipts =
      update_where (λ receipt. has_receipt_id receipt_id receipt && is_open receipt)
        (reconciled_receipt "reconciled by a later delivery") store.receipts;
}

-- The receipts that `reconcile_prior_receipts` closes
unfoldable pub is_prior : String → String → String → String → CaptureReceipt → Bool
is_prior project_id host session_id current receipt =
    receipt.project_id == project_id
    && (receipt.host == host
        && (receipt.session_id == session_id
            && (not (has_receipt_id current receipt) && is_open receipt)))

unfoldable pub reconcile_prior_receipts : String → String → String → String → Store → Store
reconcile_prior_receipts project_id host session_id current store = record store {
  receipts =
      update_where (is_prior project_id host session_id current)
        (reconciled_receipt "reconciled by a later cumulative snapshot") store.receipts;
}

pub record CaptureRepositoryStatus : Type 0 where
  pub project_id : String
  pub sessions : List CaptureSession
  pub pending_receipts : ℕ
  pub failed_receipts : ℕ
  pub committed_receipts : ℕ

-- `WHERE project_id = ?`, with `AND host = ?` where a host is asked for
unfoldable pub is_asked : String → Option String → String → String → Bool
is_asked project_id asked own host =
    own == project_id && elim asked [ none ↦ true | some name ↦ host == name ]

unfoldable pub has_status : ReceiptStatus → ReceiptStatus → Bool
has_status pending pending = true
has_status committed committed = true
has_status no_op no_op = true
has_status failed failed = true
has_status _ _ = false

-- One count of `GROUP BY status`
unfoldable pub count_status : String → Option String → ReceiptStatus → List CaptureReceipt → ℕ
count_status project_id asked status receipts =
    count_if
      (λ receipt.
        is_asked project_id asked receipt.project_id receipt.host
        && has_status status receipt.status)
      receipts

-- `ORDER BY updated_at DESC`
unfoldable pub updated_ge : CaptureSession → CaptureSession → Bool
updated_ge session other = leb other.updated_at session.updated_at

-- `status`. Sessions updated at the same time keep their order.
unfoldable pub status_of : String → Option String → Store → CaptureRepositoryStatus
status_of project_id asked store = record {
  project_id = project_id;
  sessions =
      sort_by updated_ge (
        keep (λ session. is_asked project_id asked session.project_id session.host) store.sessions);
  pending_receipts = count_status project_id asked pending store.receipts;
  failed_receipts = count_status project_id asked failed store.receipts;
  committed_receipts = count_status project_id asked committed store.receipts;
}
